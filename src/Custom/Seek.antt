-- ===== src/Custom/Seek.antt =====
-- dfsan_custom.cc: the functions that move the offset of a file. They are the ones that call the
-- solver's side of the runtime, so their state joins the process with a session of the solver.
use kirenenko.Prelude.{ℕ, ◌+◌, bit_or, not, ◌&&◌, ◌==◌, if◌then◌else◌}
use kirenenko.Word.{u16, shl}
use kirenenko.Run.{Run, ok, died, pure, ◌>>=◌, ◌>>◌}
use kirenenko.Operators.{Opcodes}
use kirenenko.Z3.{Z3}
use kirenenko.Process.{Libc, Process, TaintFile, Call, libc, minus_one_64}
use kirenenko.TaintFile.{taint_get_file, taint_set_offset_label}
use kirenenko.Custom.{dfsan_union}
use kirenenko.Branches.{Session}
use kirenenko.Branches.Solve.{Solver, add_constraints}

pub record Program (L : Libc) (z : Z3) : Type 0 where
  pub session : Session z
  pub tainted : TaintFile
  pub os : L.Os

module _ {L : Libc} {z : Z3} where
  -- The process of a program, and a program after a step of its process.
  unfoldable pub process_of : Program L z → Process L
  process_of p = record { runtime = p.session.world.runtime; tainted = p.tainted; os = p.os }

  unfoldable pub with_process : Process L → Program L z → Program L z
  with_process q p = record {
    session = record p.session { world = record p.session.world { runtime = q.runtime } };
    tainted = q.tainted;
    os = q.os;
  }

  abbrev pub in_process : {A : Type 0} → Run (Process L) A → Run (Program L z) A
  in_process m p = elim (m (process_of p)) [
    | ok a q ↦ ok a (with_process q p)
    | died e q ↦ died e (with_process q p)
  ]

  abbrev pub in_session : {A : Type 0} → Run (Session z) A → Run (Program L z) A
  in_session m p = elim (m p.session) [
    | ok a s ↦ ok a (record p { session = s })
    | died e s ↦ died e (record p { session = s })
  ]

  module _ ⦃ops : Opcodes⦄ (solver : Solver z) where
    -- The offset is held at the value that it has. The depth that an expression has is below the
    -- number of its label.
    unfoldable pub hold_offset : ℕ → ℕ → Run (Program L z) (Unit {0})
    hold_offset offset offset_label = do
      in_process (taint_set_offset_label offset_label)
      if offset_label == 0 then pure tt else (do
        sc ←
            in_process
              (dfsan_union offset_label 0 (u16 (bit_or (shl 32 8) ops.op_icmp)) 64 0 offset)
        in_session (add_constraints solver (sc + 1) sc))

    unfoldable pub dfsw_lseek : ℕ → ℕ → ℕ → ℕ → Run (Program L z) (ℕ × ℕ)
    dfsw_lseek fd offset whence offset_label = do
      ret ← in_process (libc (Call.lseek fd offset whence))
      tfsize ← λ p. ok (taint_get_file (process_of p) fd) p
      if ret == minus_one_64
          then pure (ret, 0)
          else if tfsize == 0
          then pure (ret, offset_label)
          else (do hold_offset offset offset_label; pure (ret, offset_label))

    -- `fseek`, `fseeko` and `fseeko64`.
    unfoldable pub seek_stream : Call → ℕ → ℕ → ℕ → Run (Program L z) (ℕ × ℕ)
    seek_stream c stream offset offset_label = do
      fd ← in_process (libc (Call.fileno stream))
      ret ← in_process (libc c)
      tfsize ← λ p. ok (taint_get_file (process_of p) fd) p
      if ret == 0 && not (tfsize == 0) then hold_offset offset offset_label else pure tt
      pure (ret, 0)

    unfoldable pub dfsw_fseek : ℕ → ℕ → ℕ → ℕ → Run (Program L z) (ℕ × ℕ)
    dfsw_fseek stream offset whence = seek_stream (Call.fseek stream offset whence) stream offset

    unfoldable pub dfsw_fseeko : ℕ → ℕ → ℕ → ℕ → Run (Program L z) (ℕ × ℕ)
    dfsw_fseeko stream offset whence = seek_stream (Call.fseeko stream offset whence) stream offset

    unfoldable pub dfsw_fseeko64 : ℕ → ℕ → ℕ → ℕ → Run (Program L z) (ℕ × ℕ)
    dfsw_fseeko64 stream offset whence =
        seek_stream (Call.fseeko64 stream offset whence) stream offset
