-- ===== src/Custom/Stat.antt =====
-- dfsan_custom.cc: the family of `stat`. The size of the input is symbolic in what they fill in.
use kirenenko.Prelude.{ℕ, ◌+◌, ◌*◌, not, ◌&&◌, ◌==◌, if◌then◌else◌}
use kirenenko.Run.{Run, ok, pure, ◌>>=◌, ◌>>◌}
use kirenenko.Operators.{Opcodes, op_fsize}
use kirenenko.Process.{Libc, Process, Call, libc}
use kirenenko.TaintFile.{is_taint_file, taint_get_file}
use kirenenko.Custom.{set_label, dfsan_union}

module _ ⦃ops : Opcodes⦄ {L : Libc} where
  -- The block that all of them have: no label on the structure, but one on the size.
  unfoldable pub label_size : ℕ → Run (Process L) (Unit {0})
  label_size buf = do
    set_label 0 buf L.sizeof_stat
    size ← dfsan_union 0 0 op_fsize (8 * 8) 0 0
    set_label size (buf + L.offset_of_size) 8

  -- `stat` and its kin by a path.
  unfoldable pub stat_path : Call → ℕ → ℕ → Run (Process L) (ℕ × ℕ)
  stat_path c path buf = do
    ret ← libc c
    if ret == 0
        then (do found ← is_taint_file path; if found then label_size buf else pure tt)
        else pure tt
    pure (ret, 0)

  -- `fstat` and its kin by a descriptor.
  unfoldable pub stat_fd : Call → ℕ → ℕ → Run (Process L) (ℕ × ℕ)
  stat_fd c fd buf = do
    ret ← libc c
    λ p. if ret == 0 && not (taint_get_file p fd == 0) then label_size buf p else ok tt p
    pure (ret, 0)

  unfoldable pub dfsw_stat : ℕ → ℕ → Run (Process L) (ℕ × ℕ)
  dfsw_stat path buf = stat_path (Call.stat path buf) path buf

  unfoldable pub dfsw_xstat : ℕ → ℕ → ℕ → Run (Process L) (ℕ × ℕ)
  dfsw_xstat vers path buf = stat_path (Call.xstat vers path buf) path buf

  unfoldable pub dfsw_fstat : ℕ → ℕ → Run (Process L) (ℕ × ℕ)
  dfsw_fstat fd buf = stat_fd (Call.fstat fd buf) fd buf

  unfoldable pub dfsw_fxstat : ℕ → ℕ → ℕ → Run (Process L) (ℕ × ℕ)
  dfsw_fxstat vers fd buf = stat_fd (Call.fxstat vers fd buf) fd buf

  unfoldable pub dfsw_lstat : ℕ → ℕ → Run (Process L) (ℕ × ℕ)
  dfsw_lstat path buf = stat_path (Call.lstat path buf) path buf

  unfoldable pub dfsw_lxstat : ℕ → ℕ → ℕ → Run (Process L) (ℕ × ℕ)
  dfsw_lxstat vers path buf = stat_path (Call.lxstat vers path buf) path buf
