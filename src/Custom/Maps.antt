-- ===== src/Custom/Maps.antt =====
-- dfsan_custom.cc: `mmap` and `munmap`.
use kirenenko.Prelude.{ℕ, zero, suc, ◌+◌, ◌-◌, ◌^◌, not, ◌==◌, ltb, if◌then◌else◌}
use kirenenko.Run.{Run, ok, pure, ◌>>=◌, ◌>>◌}
use kirenenko.Word.{u64}
use kirenenko.LabelInfo.{initializing_label}
use kirenenko.Process.{Libc, Process, Call, libc, minus_one_64}
use kirenenko.TaintFile.{taint_get_file}
use kirenenko.Custom.{set_label, label_bytes}

-- How much of a mapping of `length` bytes from `offset` on lies in a file of `fsize` bytes, on
-- 64 bits.
unfoldable pub tainted_length : ℕ → ℕ → ℕ → ℕ
tainted_length fsize offset length =
    if ltb fsize (u64 (offset + length)) then u64 (fsize + 2 ^ 64 - offset) else length

module _ {L : Libc} where
  -- The bytes behind the end of the input.
  unfoldable pub label_rest : ℕ → ℕ → ℕ → Run (Process L) (Unit {0})
  label_rest buf i zero = pure tt
  label_rest buf i (suc rounds) = do
    set_label initializing_label (buf + i) 1
    label_rest buf (i + 1) rounds

  unfoldable pub dfsw_mmap : ℕ → ℕ → ℕ → ℕ → ℕ → ℕ → Run (Process L) (ℕ × ℕ)
  dfsw_mmap start length prot flags fd offset = do
    ret ← libc (Call.mmap start length prot flags fd offset)
    λ p.
        let fsize = taint_get_file p fd in
        let inside = tainted_length fsize offset length in
        if ret == minus_one_64
        then ok tt p
        else if not (fsize == 0)
        then (do label_bytes offset ret 0 inside; label_rest ret inside (length - inside)) p
        else set_label 0 ret length p
    pure (ret, 0)

  unfoldable pub dfsw_munmap : ℕ → ℕ → Run (Process L) (ℕ × ℕ)
  dfsw_munmap addr length = do
    ret ← libc (Call.munmap addr length)
    if ret == 0 then set_label 0 addr length else pure tt
    pure (ret, 0)
