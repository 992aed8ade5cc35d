-- ===== src/Custom/Read.antt =====
-- dfsan_custom.cc: `read` and `pread`.
use kirenenko.Prelude.{ℕ, not, ◌==◌, if◌then◌else◌}
use kirenenko.Run.{Run, ok, pure, ◌>>=◌, ◌>>◌}
use kirenenko.Process.{Libc, Process, Call, libc, is_natural}
use kirenenko.TaintFile.{taint_get_file}
use kirenenko.Custom.{set_label, label_bytes}

module _ {L : Libc} where
  -- The labels for `ret` bytes that were read from `offset` on, of the input or of another file.
  unfoldable pub label_read : ℕ → ℕ → ℕ → ℕ → Run (Process L) (Unit {0})
  label_read fd offset buf ret p =
      if not (is_natural ret)
      then ok tt p
      else if not (taint_get_file p fd == 0)
      then label_bytes offset buf 0 ret p
      else set_label 0 buf ret p

  unfoldable pub dfsw_pread : ℕ → ℕ → ℕ → ℕ → Run (Process L) (ℕ × ℕ)
  dfsw_pread fd buf size offset = do
    ret ← libc (Call.pread fd buf size offset)
    label_read fd offset buf ret
    pure (ret, 0)

  unfoldable pub dfsw_read : ℕ → ℕ → ℕ → Run (Process L) (ℕ × ℕ)
  dfsw_read fd buf size = do
    offset ← libc (Call.lseek fd 0 1)
    ret ← libc (Call.read fd buf size)
    label_read fd offset buf ret
    pure (ret, 0)
