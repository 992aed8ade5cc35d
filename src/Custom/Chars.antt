-- ===== src/Custom/Chars.antt =====
-- dfsan_custom.cc: functions that read one byte of a stream.
use kirenenko.Prelude.{ℕ, not, ◌&&◌, ◌==◌, if◌then◌else◌}
use kirenenko.Run.{Run, ok, pure, ◌>>=◌}
use kirenenko.Operators.{Opcodes}
use kirenenko.LabelInfo.{const_label}
use kirenenko.Labels.{dfsan_create_label}
use kirenenko.Process.{Libc, Process, Call, libc, labels, minus_one_32}
use kirenenko.TaintFile.{taint_get_file}
use kirenenko.Custom.{get_label_for, dfsan_union}

module _ ⦃ops : Opcodes⦄ {L : Libc} where
  -- `fgetc`, `getc`, `getc_unlocked` and `_IO_getc`: one byte, extended to 32 bits.
  unfoldable pub get_char : Call → ℕ → Run (Process L) (ℕ × ℕ)
  get_char c stream = do
    fd ← libc (Call.fileno stream)
    offset ← libc (Call.ftell stream)
    ret ← libc c
    λ p.
        if not (ret == minus_one_32) && not (taint_get_file p fd == 0)
        then (do
          label ← get_label_for offset
          ret_label ← dfsan_union label const_label ops.op_zext 32 0 0
          pure (ret, ret_label))
            p
        else ok (ret, 0) p

  unfoldable pub dfsw_fgetc : ℕ → Run (Process L) (ℕ × ℕ)
  dfsw_fgetc stream = get_char (Call.fgetc stream) stream

  unfoldable pub dfsw_getc : ℕ → Run (Process L) (ℕ × ℕ)
  dfsw_getc stream = get_char (Call.getc stream) stream

  unfoldable pub dfsw_getc_unlocked : ℕ → Run (Process L) (ℕ × ℕ)
  dfsw_getc_unlocked stream = get_char (Call.getc_unlocked stream) stream

  -- A new label, whether or not the input is a pipe.
  unfoldable pub dfsw_getchar : Run (Process L) (ℕ × ℕ)
  dfsw_getchar = do
    offset ← libc (Call.ftell L.stdin)
    ret ← libc Call.getchar
    λ p.
        if not (ret == minus_one_32) && not (taint_get_file p 0 == 0)
        then (do
          label ← labels (dfsan_create_label offset)
          ret_label ← dfsan_union label const_label ops.op_zext 32 0 0
          pure (ret, ret_label))
            p
        else ok (ret, 0) p
