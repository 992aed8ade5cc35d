-- ===== src/TaintFile.antt =====
-- dfsan.cc: the input file, its descriptor and its size, and the labels of its bytes, which are
-- made before the program starts unless the input is a pipe.
pub mod Created
pub mod Initialized
use kirenenko.Prelude.{
  ℕ, zero, suc, ◌+◌, ◌-◌, ◌*◌, ◌/◌, Bool, true, false, not, ◌&&◌, List, [], ◌∷◌, Option, none, some,
  ◌==◌, if◌then◌else◌,
}
use kirenenko.Run.{
  Step, Run, ok, died, pure, assert, die, assertion_failed, map_failed, ◌>>=◌, ◌>>◌,
}
use kirenenko.LabelInfo.{const_offset}
use kirenenko.Runtime.{Runtime, dfsan_check_label}
use kirenenko.Labels.{dfsan_create_label}
use kirenenko.Process.{TaintFile, Libc, Process, minus_one_32, same_string, labels}

module _ {L : Libc} where
  abbrev pub set_tainted : TaintFile → Process L → Process L
  set_tainted t p = record p { tainted = t }

  unfoldable pub taint_set_file : ℕ → ℕ → Run (Process L) (Unit {0})
  taint_set_file filename fd p =
      let path = (L.realpath p.os (L.c_string p.runtime.memory filename)).1 in
      if same_string p.tainted.filename path
      then ok tt (set_tainted (record p.tainted { fd = fd }) p)
      else ok tt p

  unfoldable pub is_taint_file : ℕ → Run (Process L) Bool
  is_taint_file filename p =
      let path = (L.realpath p.os (L.c_string p.runtime.memory filename)).1 in
      let found = same_string p.tainted.filename path in
      ok found (set_tainted (record p.tainted { is_utmp = found }) p)

  unfoldable pub taint_get_file : Process L → ℕ → ℕ
  taint_get_file p fd = if p.tainted.fd == fd then p.tainted.size else 0

  unfoldable pub taint_close_file : ℕ → Run (Process L) (Unit {0})
  taint_close_file fd p =
      if fd == p.tainted.fd
      then ok tt (set_tainted (record p.tainted { fd = minus_one_32 }) p)
      else ok tt p

  unfoldable pub is_stdin_taint : Process L → Bool
  is_stdin_taint p = p.tainted.is_stdin

  unfoldable pub is_utmp_taint : Process L → Bool
  is_utmp_taint p = p.tainted.is_utmp

  unfoldable pub set_utmp_offset : ℕ → Run (Process L) (Unit {0})
  set_utmp_offset offset p = ok tt (set_tainted (record p.tainted { offset = offset }) p)

  unfoldable pub get_utmp_offset : Process L → ℕ
  get_utmp_offset p = p.tainted.offset

  unfoldable pub taint_set_offset_label : ℕ → Run (Process L) (Unit {0})
  taint_set_offset_label label p = ok tt (set_tainted (record p.tainted { offset_label = label }) p)

  unfoldable pub taint_get_offset_label : Process L → ℕ
  taint_get_offset_label p = p.tainted.offset_label

-- A label for each byte from `offset` on.
unfoldable pub create_labels : ℕ → ℕ → Run Runtime (Unit {0})
create_labels offset zero = pure tt
create_labels offset (suc rounds) = do
  label ← dfsan_create_label offset
  dfsan_check_label label
  create_labels (offset + 1) rounds

-- The labels below `CONST_OFFSET`, of which there are none.
unfoldable pub create_reserved : ℕ → ℕ → Run Runtime (Unit {0})
create_reserved i zero = pure tt
create_reserved i (suc rounds) = do
  label ← dfsan_create_label i
  assert (label == i)
  create_reserved (i + 1) rounds

-- What the system answers at the start: the size of the input on descriptor 0 where `fstat` gives
-- one, the addresses at which copies of the input are mapped, the path that `realpath` makes of
-- the flag, and the size that `stat` gives.
pub record Startup : Type 0 where
  pub taint_file : List ℕ
  pub fstat_stdin : Option ℕ
  pub map_stdin : Option ℕ
  pub real_path : Option (List ℕ)
  pub stat_size : ℕ
  pub map_file : Option (ℕ × ℕ)
  pub page_size : ℕ

abbrev pub stdin_flag : List ℕ
stdin_flag = 115 ∷ 116 ∷ 100 ∷ 105 ∷ 110 ∷ []

abbrev pub round_up_to : ℕ → ℕ → ℕ
round_up_to n page = (n + page - 1) / page * page

module _ {L : Libc} where
  abbrev keep : TaintFile → Run (Process L) (Unit {0})
  keep t p = ok tt (set_tainted t p)

  unfoldable pub open_stdin : Startup → Run (Process L) (Unit {0})
  open_stdin s p =
      let t = record p.tainted { fd = 0 } in
      elim s.fstat_stdin [
        | none ↦ keep (record t { size = 1; is_stdin = true }) p
        | some size ↦ elim s.map_stdin [
          | none ↦ died map_failed (set_tainted t p)
          | some map ↦
              keep
                (record t {
                  size = size;
                  is_stdin = false;
                  buf_size = round_up_to size s.page_size;
                  buf = map;
                })
                p
        ]
      ]

  unfoldable pub open_file : Startup → List ℕ → Run (Process L) (Unit {0})
  open_file s path p =
      let t = record p.tainted { filename = path; size = s.stat_size; is_stdin = false } in
      elim s.map_file [
        | none ↦ died map_failed (set_tainted t p)
        | some (map, size) ↦ keep (record t { buf = map; buf_size = size }) p
      ]

  -- The end of the function: labels for all of the file.
  unfoldable pub label_input : Run (Process L) (Unit {0})
  label_input p =
      if not (p.tainted.fd == minus_one_32) && not p.tainted.is_stdin
      then labels (create_labels 0 p.tainted.size) p
      else ok tt p

  unfoldable pub initialize_taint_file : Startup → Run (Process L) (Unit {0})
  initialize_taint_file s = do
    labels (create_reserved 1 (const_offset - 1))
    if same_string s.taint_file stdin_flag
        then (do open_stdin s; label_input)
        else if same_string s.taint_file []
        then (λ p. keep (record p.tainted { fd = minus_one_32 }) p) >> label_input
        else elim s.real_path [ none ↦ pure tt | some path ↦ (do open_file s path; label_input) ]
