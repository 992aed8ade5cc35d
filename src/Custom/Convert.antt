-- ===== src/Custom/Convert.antt =====
-- dfsan_custom.cc: functions whose result has no label: conversions of strings to numbers,
-- searches, and the heap.
use kirenenko.Prelude.{ℕ, not, ◌==◌, if◌then◌else◌}
use kirenenko.Run.{Run, ok, pure, ◌>>=◌, ◌>>◌}
use kirenenko.Process.{Libc, Process, Call, libc, strlen}
use kirenenko.Custom.{copy_bytes, set_memory}

module _ {L : Libc} where
  abbrev pub without_label : Call → Run (Process L) (ℕ × ℕ)
  without_label c = do ret ← libc c; pure (ret, 0)

  -- `*endptr = tmp_endptr`, where `endptr` is given. The labels at `endptr` stay.
  unfoldable pub store_end : ℕ → ℕ → Run (Process L) (Unit {0})
  store_end endptr tmp p =
      if not (endptr == 0)
      then ok tt (set_memory p.runtime.shadow (copy_bytes endptr tmp 0 8 p.runtime.memory) p)
      else ok tt p

  -- `tmp` is the address of the variable `tmp_endptr`.
  unfoldable pub convert : Call → ℕ → ℕ → Run (Process L) (ℕ × ℕ)
  convert c endptr tmp = do ret ← libc c; store_end endptr tmp; pure (ret, 0)

  unfoldable pub dfsw_strtol : ℕ → ℕ → ℕ → ℕ → Run (Process L) (ℕ × ℕ)
  dfsw_strtol tmp nptr endptr base = convert (Call.strtol nptr tmp base) endptr tmp

  unfoldable pub dfsw_strtod : ℕ → ℕ → ℕ → Run (Process L) (ℕ × ℕ)
  dfsw_strtod tmp nptr endptr = convert (Call.strtod nptr tmp) endptr tmp

  unfoldable pub dfsw_strtoll : ℕ → ℕ → ℕ → ℕ → Run (Process L) (ℕ × ℕ)
  dfsw_strtoll tmp nptr endptr base = convert (Call.strtoll nptr tmp base) endptr tmp

  unfoldable pub dfsw_strtoul : ℕ → ℕ → ℕ → ℕ → Run (Process L) (ℕ × ℕ)
  dfsw_strtoul tmp nptr endptr base = convert (Call.strtoul nptr tmp base) endptr tmp

  -- The parameters in the order of the code, where `nptr_label` stands in front of `base`.
  unfoldable pub dfsw_strtoull : ℕ → ℕ → ℕ → ℕ → ℕ → Run (Process L) (ℕ × ℕ)
  dfsw_strtoull tmp nptr endptr nptr_label base = convert (Call.strtoull nptr tmp base) endptr tmp

  unfoldable pub dfsw_memchr : ℕ → ℕ → ℕ → Run (Process L) (ℕ × ℕ)
  dfsw_memchr s c n = without_label (Call.memchr s c n)

  unfoldable pub dfsw_strchr : ℕ → ℕ → Run (Process L) (ℕ × ℕ)
  dfsw_strchr s c = without_label (Call.strchr s c)

  unfoldable pub dfsw_strlen : ℕ → Run (Process L) (ℕ × ℕ)
  dfsw_strlen s p = ok (strlen s p, 0) p

  unfoldable pub dfsw_calloc : ℕ → ℕ → Run (Process L) (ℕ × ℕ)
  dfsw_calloc nmemb size = without_label (Call.calloc nmemb size)

  unfoldable pub dfsw_strrchr : ℕ → ℕ → Run (Process L) (ℕ × ℕ)
  dfsw_strrchr s c = without_label (Call.strrchr s c)

  unfoldable pub dfsw_strstr : ℕ → ℕ → Run (Process L) (ℕ × ℕ)
  dfsw_strstr haystack needle = without_label (Call.strstr haystack needle)

  unfoldable pub dfsw_malloc : ℕ → Run (Process L) (ℕ × ℕ)
  dfsw_malloc size = without_label (Call.malloc size)

  unfoldable pub dfsw_free : ℕ → Run (Process L) (Unit {0})
  dfsw_free ptr = do libc (Call.free ptr); pure tt
