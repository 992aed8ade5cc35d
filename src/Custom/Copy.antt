-- ===== src/Custom/Copy.antt =====
-- dfsan_custom.cc: functions that copy or fill memory, with the labels of what they copy.
use kirenenko.Prelude.{ℕ, zero, suc, ◌+◌, ◌-◌, ◌*◌, not, ◌==◌, ltb, if◌then◌else◌, update}
use kirenenko.Run.{Run, ok, pure, ◌>>=◌, ◌>>◌}
use kirenenko.Mapping.{shadow_for}
use kirenenko.Process.{Libc, Process, Call, libc, strlen}
use kirenenko.Custom.{dfsan_memcpy, dfsan_memset, copy_labels, set_memory}

-- What `memmove` leaves: all of the source is read before the destination is written.
unfoldable pub move_labels : ℕ → ℕ → ℕ → (ℕ → ℕ) → (ℕ → ℕ) → ℕ → ℕ
move_labels sdest ssrc zero from shadow = shadow
move_labels sdest ssrc (suc n) from shadow =
    update (move_labels sdest ssrc n from shadow) (sdest + 4 * n) (from (ssrc + 4 * n))

unfoldable pub move_bytes : ℕ → ℕ → ℕ → (ℕ → ℕ) → (ℕ → ℕ) → ℕ → ℕ
move_bytes dest src zero from memory = memory
move_bytes dest src (suc n) from memory =
    update (move_bytes dest src n from memory) (dest + n) (from (src + n))

module _ {L : Libc} where
  unfoldable pub dfsw_memcpy : ℕ → ℕ → ℕ → ℕ → Run (Process L) (ℕ × ℕ)
  dfsw_memcpy dest src n dest_label = do ret ← dfsan_memcpy dest src n; pure (ret, dest_label)

  -- The array of labels on the stack, `tmp`, is taken to have room.
  unfoldable pub dfsw_memmove : ℕ → ℕ → ℕ → ℕ → Run (Process L) (ℕ × ℕ)
  dfsw_memmove dest src n dest_label p =
      let sdest = shadow_for dest in
      let ssrc = shadow_for src in
      ok (dest, dest_label)
        (set_memory (move_labels sdest ssrc n p.runtime.shadow p.runtime.shadow)
          (move_bytes dest src n p.runtime.memory p.runtime.memory) p)

  unfoldable pub dfsw_memset : ℕ → ℕ → ℕ → ℕ → ℕ → Run (Process L) (ℕ × ℕ)
  dfsw_memset s c n s_label c_label = do dfsan_memset s c c_label n; pure (s, s_label)

  unfoldable pub dfsw_strcat : ℕ → ℕ → ℕ → Run (Process L) (ℕ × ℕ)
  dfsw_strcat dest src d_label p =
      (do dfsan_memcpy (dest + strlen dest p) src (strlen src p + 1); pure (dest, d_label)) p

  -- `strdup`, `__strdup` and `__strndup`, which copy `len` bytes and one more.
  unfoldable pub duplicate : ℕ → ℕ → Run (Process L) (ℕ × ℕ)
  duplicate s len = do
    block ← libc (Call.malloc (len + 1))
    dfsan_memcpy block s (len + 1)
    pure (block, 0)

  unfoldable pub dfsw_strdup : ℕ → Run (Process L) (ℕ × ℕ)
  dfsw_strdup s p = duplicate s (strlen s p) p

  unfoldable pub dfsw_strndup : ℕ → ℕ → Run (Process L) (ℕ × ℕ)
  dfsw_strndup s n p = let len = strlen s p in duplicate s (if ltb n len then n else len) p

  unfoldable pub dfsw_strncpy : ℕ → ℕ → ℕ → ℕ → Run (Process L) (ℕ × ℕ)
  dfsw_strncpy s1 s2 n s1_label p =
      let len = strlen s2 p in
      (do
        if ltb len n
            then (do dfsan_memcpy s1 s2 (len + 1); dfsan_memset (s1 + len + 1) 0 0 (n - len - 1))
            else (do dfsan_memcpy s1 s2 n; pure tt)
        pure (s1, s1_label))
        p

  -- `stpcpy` and `strcpy`: the library copies the bytes, then the labels follow.
  unfoldable pub copy_string : Call → ℕ → ℕ → ℕ → Run (Process L) (ℕ × ℕ)
  copy_string c dest src dest_label = do
    ret ← libc c
    λ p.
        if not (ret == 0)
        then ok tt (
            set_memory
              (copy_labels (shadow_for dest) (shadow_for src) 0 (strlen src p + 1) p.runtime.shadow)
              p.runtime.memory p)
        else ok tt p
    pure (ret, dest_label)

  unfoldable pub dfsw_stpcpy : ℕ → ℕ → ℕ → Run (Process L) (ℕ × ℕ)
  dfsw_stpcpy dest src dest_label = copy_string (Call.stpcpy dest src) dest src dest_label

  unfoldable pub dfsw_strcpy : ℕ → ℕ → ℕ → Run (Process L) (ℕ × ℕ)
  dfsw_strcpy dest src dest_label = copy_string (Call.strcpy dest src) dest src dest_label

  -- Whether the block moved decides about the label of the pointer.
  unfoldable pub dfsw_realloc : ℕ → ℕ → ℕ → Run (Process L) (ℕ × ℕ)
  dfsw_realloc ptr new_size ptr_label = do
    usable ← libc (Call.malloc_usable_size ptr)
    ret ← libc (Call.realloc ptr new_size)
    λ p.
        if not (ret == ptr)
        then ok (ret, 0)
            (set_memory
              (copy_labels (shadow_for ret) (shadow_for ptr) 0
                (if ltb new_size usable then new_size else usable) p.runtime.shadow)
              p.runtime.memory p)
        else ok (ret, ptr_label) p
