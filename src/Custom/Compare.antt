-- ===== src/Custom/Compare.antt =====
-- dfsan_custom.cc: comparisons of memory and of strings, whose result gets a label of its own
-- operator. `fuel` bounds the rounds of the loads.
use kirenenko.Prelude.{ℕ, ◌+◌, ◌-◌, not, ◌&&◌, ◌==◌, ltb, if◌then◌else◌}
use kirenenko.Run.{Run, ok, pure, ◌>>=◌}
use kirenenko.Operators.{Opcodes, op_fmemcmp}
use kirenenko.Shadow.{dfsan_get_label, dfsan_read_label}
use kirenenko.Process.{Libc, Process, Call, libc, labels, strlen}
use kirenenko.Custom.{dfsan_union}

-- `!!ret`
abbrev pub truth : ℕ → ℕ
truth ret = if ret == 0 then 0 else 1

module _ ⦃ops : Opcodes⦄ {L : Libc} where
  -- The end of all of them: the union of what both sides hold.
  unfoldable pub compare_label : ℕ → ℕ → ℕ → ℕ → Run (Process L) ℕ
  compare_label fuel s1 s2 n = do
    ls1 ← labels (dfsan_read_label fuel s1 n)
    ls2 ← labels (dfsan_read_label fuel s2 n)
    dfsan_union ls1 ls2 op_fmemcmp n s1 s2

  unfoldable pub dfsw_memcmp : ℕ → ℕ → ℕ → ℕ → Run (Process L) (ℕ × ℕ)
  dfsw_memcmp fuel s1 s2 n = do
    ret ← libc (Call.memcmp s1 s2 n)
    ret_label ← compare_label fuel s1 s2 n
    pure (truth ret, ret_label)

  -- How many bytes count: as many as the string that has no label has.
  unfoldable pub strcmp_size : ℕ → ℕ → Process L → ℕ
  strcmp_size s1 s2 p =
      if not (dfsan_get_label p.runtime s1 == 0) then strlen s2 p + 1 else strlen s1 p + 1

  unfoldable pub dfsw_strcmp : ℕ → ℕ → ℕ → Run (Process L) (ℕ × ℕ)
  dfsw_strcmp fuel s1 s2 = do
    ret ← libc (Call.strcmp s1 s2)
    ret_label ← λ p. compare_label fuel s1 s2 (strcmp_size s1 s2 p) p
    pure (truth ret, ret_label)

  -- A string without a label that ends before `n - 1` cuts `n`.
  unfoldable pub cut_size : ℕ → ℕ → Process L → ℕ
  cut_size s n p =
      if dfsan_get_label p.runtime s == 0 && ltb (strlen s p) (n - 1) then strlen s p + 1 else n

  unfoldable pub dfsw_strncmp : ℕ → ℕ → ℕ → ℕ → Run (Process L) (ℕ × ℕ)
  dfsw_strncmp fuel s1 s2 n p =
      if n == 0
      then ok (0, 0) p
      else (do
        ret ← libc (Call.strncmp s1 s2 n)
        ret_label ← λ p'. compare_label fuel s1 s2 (cut_size s2 (cut_size s1 n p') p') p'
        pure (truth ret, ret_label))
          p
