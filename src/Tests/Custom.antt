-- ===== src/Tests/Custom.antt =====
-- The input of four bytes is read through a library whose state is the position in the file.
use kirenenko.Prelude.{ℕ, ◌+◌, ◌*◌, ◌≡◌, refl, arith, inr, true, false, none, some, [], ◌∷◌}
use kirenenko.Word.{u16, u32}
use kirenenko.Run.{Returns}
use kirenenko.Operators.{op_load}
use kirenenko.LabelInfo.{constant_info}
use kirenenko.Labels.{taint_union}
use kirenenko.Labels.Invariant.{Valid}
use kirenenko.Runtime.{Runtime}
use kirenenko.Shadow.{dfsan_read_label}
use kirenenko.Process.{Libc, Process, TaintFile, Call}
use kirenenko.TaintFile.{Startup, create_labels, initialize_taint_file}
use kirenenko.TaintFile.Created.{Created, create_labels-Created}
use kirenenko.TaintFile.Initialized.{Initialized, initialize_taint_file-Initialized}
use kirenenko.Custom.Copy.{dfsw_memmove, dfsw_memcpy}
use kirenenko.Custom.Read.{dfsw_read}
use kirenenko.Custom.Labelled.{Labelled, called, dfsw_read-Labelled}
use kirenenko.Custom.Loaded.{dfsan_read_label-Labelled}
use kirenenko.Custom.Moved.{Moves, dfsw_memmove-Moves, dfsw_memcpy-Moves}
use kirenenko.Tests.{llvm_6, start, start-Valid}

-- `read` gives all that is asked for, and zeros.
abbrev answer : Call → ℕ → (ℕ → ℕ) → ℕ × ℕ × (ℕ → ℕ)
answer (Call.read fd buf n) position memory = (n, position + n, memory)
answer (Call.lseek fd offset whence) position memory = (position, position, memory)
answer c position memory = (0, position, memory)

abbrev pub small_libc : Libc
small_libc = record {
  Os = ℕ;
  c_string = λ memory s. [];
  realpath = λ os path. (true, path);
  call = answer;
  stdin = 1;
  sizeof_stat = 144;
  offset_of_size = 48;
  sizeof_utmpx = 384;
  sizeof = λ t. 16;
  offset_of_revents = 6;
  af_inet = 2;
}

abbrev pub no_file : TaintFile
no_file = record {
  filename = [];
  fd = 0;
  offset = 0;
  offset_label = 0;
  size = 0;
  is_stdin = false;
  is_utmp = false;
  buf = 0;
  buf_size = 0;
}

abbrev reading : Process small_libc
reading = record { runtime = start; tainted = record no_file { fd = 3; size = 4 }; os = 0 }

abbrev buffer : ℕ
buffer = 0x700000050000

dfsw_read-Labelled_example :
    Returns
      (dfsw_read 3 buffer 4 reading)
      λ value p'. (value ≡ (4, 0)) × Labelled 0 buffer 0 4 (called 4 start.memory reading) p'
dfsw_read-Labelled_example =
    dfsw_read-Labelled 3 buffer 4 0 4 0 4 start.memory start.memory reading
      (record { file = refl; descriptor = refl; size = omega arith }) refl refl
      (omega arith, omega arith, omega arith)

abbrev read_state : Process small_libc
read_state = dfsw_read-Labelled_example.1

dfsan_read_label-Labelled_example :
    dfsan_read_label 3 (buffer + 1) 2 read_state.runtime
    ≡ taint_union 2 (u32 2) op_load (u16 (2 * 8)) 0 0 read_state.runtime
dfsan_read_label-Labelled_example =
    dfsan_read_label-Labelled 0 buffer 4 (called 4 start.memory reading) read_state
      (omega arith, omega arith, omega arith) dfsw_read-Labelled_example.3.1 start-Valid
      (omega arith) (λ k h. ground arith) 1 2 3 (omega arith) (omega arith)

-- Before the labels of the input are made.
abbrev bare : Runtime
bare = record start { last_label = 0; label_info = λ l. constant_info }

bare-Valid : Valid bare
bare-Valid = record {
  room = omega arith;
  nodes = λ i. tt;
  known = λ l pos le. absurd (omega arith);
  older = λ l pos le. absurd (omega arith);
  constant = omega arith;
  blocks = record {
    initialized = omega arith;
    above = omega arith;
    below = omega arith;
    addressable = omega arith;
  };
}

create_labels-Created_example : Returns (create_labels 0 3 bare) λ _ r'. Created 0 (0 + 3) bare r'
create_labels-Created_example = create_labels-Created 0 3 bare bare-Valid refl (omega arith)

abbrev begun : Process small_libc
begun = record { runtime = bare; tainted = no_file; os = 0 }

abbrev startup : Startup
startup = record {
  taint_file = 97 ∷ [];
  fstat_stdin = none;
  map_stdin = none;
  real_path = some (47 ∷ 97 ∷ []);
  stat_size = 4;
  map_file = some (0x700000060000, 4096);
  page_size = 4096;
}

initialize_taint_file-Initialized_example :
    Returns (initialize_taint_file startup begun) λ _ p'. Initialized (47 ∷ 97 ∷ []) 4 begun p'
initialize_taint_file-Initialized_example =
    initialize_taint_file-Initialized startup (47 ∷ 97 ∷ []) 0x700000060000 4096 begun refl refl
      refl refl bare-Valid refl (omega arith) (omega arith)

dfsw_memmove-Moves_example :
    Returns
      (dfsw_memmove (buffer + 1) buffer 4 7 reading)
      λ value p'. (value ≡ (buffer + 1, 7)) × Moves (buffer + 1) buffer 4 reading p'
dfsw_memmove-Moves_example =
    dfsw_memmove-Moves (buffer + 1) buffer 4 7 reading (omega arith) (omega arith)

dfsw_memcpy-Moves_example :
    Returns
      (dfsw_memcpy (buffer + 8) buffer 4 7 reading)
      λ value p'. (value ≡ (buffer + 8, 7)) × Moves (buffer + 8) buffer 4 reading p'
dfsw_memcpy-Moves_example =
    dfsw_memcpy-Moves (buffer + 8) buffer 4 7 reading (omega arith) (omega arith)
      (inr (omega arith))
