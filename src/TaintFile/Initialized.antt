-- ===== src/TaintFile/Initialized.antt =====
-- dfsan.cc: what `InitializeTaintFile` leaves for an input that is a file named by its path.
use kirenenko.Prelude.{ℕ, ◌+◌, ◌≡◌, ◌≢◌, refl, arith, false, List, [], some}
use kirenenko.Run.{Returns}
use kirenenko.Labels.Fresh.{HasRoom}
use kirenenko.Labels.Invariant.{Valid}
use kirenenko.Process.{Libc, Process, TaintFile, same_string, minus_one_32}
use kirenenko.TaintFile.{
  Startup, stdin_flag, create_reserved, open_file, label_input, initialize_taint_file,
}
use kirenenko.TaintFile.Created.{Created, create_labels-Created}

module _ {L : Libc} where
  -- The input is the file at `path`, and its bytes have their labels.
  pub record Initialized (path : List ℕ) (size : ℕ) (p p' : Process L) : Type 0 where
    pub created : Created 0 size p.runtime p'.runtime
    pub filename : p'.tainted.filename ≡ path
    pub sized : p'.tainted.size ≡ size
    pub file : p'.tainted.is_stdin ≡ false
    pub descriptor : p'.tainted.fd ≡ p.tainted.fd

  -- Where the flag is a path that is not empty and not "stdin", `realpath` makes `path` of it, the
  -- file is mapped, no label exists yet, and there is room for as many labels as the file has
  -- bytes, `InitializeTaintFile` returns: the input is that file with the size that `stat` gave,
  -- each byte has its label, and the descriptor of the input is left as it was.
  pub initialize_taint_file-Initialized :
      (s : Startup) (path : List ℕ) (map size : ℕ) (p : Process L)
      → same_string s.taint_file stdin_flag ≡ false
      → same_string s.taint_file [] ≡ false
      → s.real_path ≡ some path
      → s.map_file ≡ some (map, size)
      → Valid p.runtime
      → p.runtime.last_label ≡ 0
      → p.tainted.fd ≢ minus_one_32
      → HasRoom s.stat_size
      → Returns (initialize_taint_file s p) λ _ p'. Initialized path s.stat_size p p'
  unfolding initialize_taint_file create_reserved open_file label_input
  initialize_taint_file-Initialized s path map size p h1 h2 h3 h4 v none_yet unset room =
      let (_, r, run, c) = create_labels-Created 0 s.stat_size p.runtime v none_yet (omega arith) in
      let t : TaintFile = record p.tainted {
        filename = path;
        size = s.stat_size;
        is_stdin = false;
        buf = map;
        buf_size = size;
      } in
      (
        tt,
        record p { runtime = r; tainted = t },
        rw (h1, h2, h3, h4) (ground (arith, unset, run)),
        record {
          created = let q : 0 + s.stat_size ≡ s.stat_size = omega arith in rw q at c;
          filename = refl;
          sized = refl;
          file = refl;
          descriptor = refl;
        },
      )
