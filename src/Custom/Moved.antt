-- ===== src/Custom/Moved.antt =====
-- dfsan_custom.cc: what copies do to values and labels.
use kirenenko.Prelude.{
  ℕ, zero, suc, ◌+◌, ◌*◌, ◌≤◌, ◌<◌, ◌≡◌, ◌≢◌, refl, ◌⊎◌, inl, inr, arith, update, lt_trichotomy,
}
use kirenenko.Run.{Returns}
use kirenenko.Mapping.{shadow_for}
use kirenenko.Mapping.RoundTrip.{shadow_for_app, shadow_for-add}
use kirenenko.Process.{Libc, Process}
use kirenenko.Custom.{copy_labels, copy_bytes, dfsan_memcpy}
use kirenenko.Custom.Copy.{move_labels, move_bytes, dfsw_memmove, dfsw_memcpy}

-- A block of application memory.
abbrev pub InMemory : ℕ → ℕ → Type 0
InMemory a n = (0x700000000000 ≤ a) × (a + n ≤ 0x800000000000)

-- Each byte of the destination has the value and the label that the source's had, and every other
-- value and label is as it was.
pub record Moves {L : Libc} (dest src n : ℕ) (p p' : Process L) : Type 0 where
  pub values : (k : ℕ) → k < n → p'.runtime.memory (dest + k) ≡ p.runtime.memory (src + k)
  pub labels :
      (k : ℕ)
      → k < n
      → p'.runtime.shadow (shadow_for (dest + k)) ≡ p.runtime.shadow (shadow_for (src + k))
  pub other_values :
      (a : ℕ) → ((k : ℕ) → k < n → a ≢ dest + k) → p'.runtime.memory a ≡ p.runtime.memory a
  pub other_labels :
      (a : ℕ)
      → ((k : ℕ) → k < n → a ≢ shadow_for (dest + k))
      → p'.runtime.shadow a ≡ p.runtime.shadow a

move_labels-at :
    (sdest ssrc n : ℕ) (from shadow : ℕ → ℕ)
    → ((k : ℕ) → k < n → move_labels sdest ssrc n from shadow (sdest + 4 * k) ≡ from (ssrc + 4 * k))
      × ((a : ℕ)
          → ((k : ℕ) → k < n → a ≢ sdest + 4 * k)
          → move_labels sdest ssrc n from shadow a ≡ shadow a)
unfolding move_labels
move_labels-at sdest ssrc zero from shadow = (λ k h. absurd (omega arith), λ a h. refl)
move_labels-at sdest ssrc (suc n) from shadow =
    let (inside, outside) = move_labels-at sdest ssrc n from shadow in
    (
      λ k h. elim (lt_trichotomy k n) [
        | inl lt ↦ ground (arith, inside k lt)
        | inr (inl e) ↦ rw e (ground arith)
        | inr (inr gt) ↦ absurd (omega arith)
      ],
      λ a h. ground (arith, outside a (λ k lt. h k (omega arith)), h n (omega arith)),
    )

move_bytes-at :
    (dest src n : ℕ) (from memory : ℕ → ℕ)
    → ((k : ℕ) → k < n → move_bytes dest src n from memory (dest + k) ≡ from (src + k))
      × ((a : ℕ)
          → ((k : ℕ) → k < n → a ≢ dest + k)
          → move_bytes dest src n from memory a ≡ memory a)
unfolding move_bytes
move_bytes-at dest src zero from memory = (λ k h. absurd (omega arith), λ a h. refl)
move_bytes-at dest src (suc n) from memory =
    let (inside, outside) = move_bytes-at dest src n from memory in
    (
      λ k h. elim (lt_trichotomy k n) [
        | inl lt ↦ ground (arith, inside k lt)
        | inr (inl e) ↦ rw e (ground arith)
        | inr (inr gt) ↦ absurd (omega arith)
      ],
      λ a h. ground (arith, outside a (λ k lt. h k (omega arith)), h n (omega arith)),
    )

-- The forward loops, from the byte `i` on, where no byte of the destination is one of the source.
copy_labels-at :
    (sdest ssrc i rounds : ℕ) (shadow : ℕ → ℕ)
    → ((j k : ℕ) → j < i + rounds → k < i + rounds → sdest + 4 * j ≢ ssrc + 4 * k)
    → ((k : ℕ)
        → i ≤ k
        → k < i + rounds
        → copy_labels sdest ssrc i rounds shadow (sdest + 4 * k) ≡ shadow (ssrc + 4 * k))
      × ((a : ℕ)
          → ((k : ℕ) → i ≤ k → k < i + rounds → a ≢ sdest + 4 * k)
          → copy_labels sdest ssrc i rounds shadow a ≡ shadow a)
unfolding copy_labels
copy_labels-at sdest ssrc i zero shadow apart = (λ k le h. absurd (omega arith), λ a h. refl)
copy_labels-at sdest ssrc i (suc rounds) shadow apart =
    let (inside, outside) =
      copy_labels-at sdest ssrc (i + 1) rounds
        (update shadow (sdest + 4 * i) (shadow (ssrc + 4 * i)))
        (λ j k h1 h2. apart j k (omega arith) (omega arith)) in
    (
      λ k le h. elim (lt_trichotomy i k) [
        | inl lt ↦ ground (arith, inside k (omega arith) (omega arith), apart i k (omega arith) h)
        | inr (inl e) ↦ rw (← e) (ground (arith, outside (sdest + 4 * i) (λ j lo hi. omega arith)))
        | inr (inr gt) ↦ absurd (omega arith)
      ],
      λ a h. ground (
        arith,
        outside a (λ k le lt. h k (omega arith) (omega arith)),
        h i (omega arith) (omega arith),
      ),
    )

copy_bytes-at :
    (dest src i rounds : ℕ) (memory : ℕ → ℕ)
    → ((j k : ℕ) → j < i + rounds → k < i + rounds → dest + j ≢ src + k)
    → ((k : ℕ)
        → i ≤ k
        → k < i + rounds
        → copy_bytes dest src i rounds memory (dest + k) ≡ memory (src + k))
      × ((a : ℕ)
          → ((k : ℕ) → i ≤ k → k < i + rounds → a ≢ dest + k)
          → copy_bytes dest src i rounds memory a ≡ memory a)
unfolding copy_bytes
copy_bytes-at dest src i zero memory apart = (λ k le h. absurd (omega arith), λ a h. refl)
copy_bytes-at dest src i (suc rounds) memory apart =
    let (inside, outside) =
      copy_bytes-at dest src (i + 1) rounds (update memory (dest + i) (memory (src + i)))
        (λ j k h1 h2. apart j k (omega arith) (omega arith)) in
    (
      λ k le h. elim (lt_trichotomy i k) [
        | inl lt ↦ ground (arith, inside k (omega arith) (omega arith), apart i k (omega arith) h)
        | inr (inl e) ↦ rw (← e) (ground (arith, outside (dest + i) (λ j lo hi. omega arith)))
        | inr (inr gt) ↦ absurd (omega arith)
      ],
      λ a h. ground (
        arith,
        outside a (λ k le lt. h k (omega arith) (omega arith)),
        h i (omega arith) (omega arith),
      ),
    )

-- The shadow of the byte `k` of a block.
shadow_for-block : (a n k : ℕ) → InMemory a n → k < n → shadow_for (a + k) ≡ shadow_for a + 4 * k
shadow_for-block a n k m h = shadow_for-add a k (omega arith) (omega arith)

module _ {L : Libc} where
  -- `__dfsw_memmove` between two blocks of application memory, which may overlap, returns the
  -- destination with its label, and moves the values and the labels of all bytes.
  pub dfsw_memmove-Moves :
      (dest src n dest_label : ℕ) (p : Process L)
      → InMemory dest n
      → InMemory src n
      → Returns
          (dfsw_memmove dest src n dest_label p)
          λ value p'. (value ≡ (dest, dest_label)) × Moves dest src n p p'
  unfolding dfsw_memmove
  dfsw_memmove-Moves dest src n dest_label p md ms =
      let (b1, b2) = move_bytes-at dest src n p.runtime.memory p.runtime.memory in
      let (l1, l2) =
        move_labels-at (shadow_for dest) (shadow_for src) n p.runtime.shadow p.runtime.shadow in
      (
        _,
        _,
        refl,
        (
          refl,
          record {
            values = b1;
            labels =
                λ k h. rw (shadow_for-block dest n k md h, shadow_for-block src n k ms h) (l1 k h);
            other_values = b2;
            other_labels = λ a out. l2 a (λ k h. rw (shadow_for-block dest n k md h) at (out k h));
          },
        ),
      )

  -- `__dfsw_memcpy` between two blocks of application memory without a common byte does the same.
  pub dfsw_memcpy-Moves :
      (dest src n dest_label : ℕ) (p : Process L)
      → InMemory dest n
      → InMemory src n
      → (dest + n ≤ src) ⊎ (src + n ≤ dest)
      → Returns
          (dfsw_memcpy dest src n dest_label p)
          λ value p'. (value ≡ (dest, dest_label)) × Moves dest src n p p'
  unfolding dfsw_memcpy dfsan_memcpy
  dfsw_memcpy-Moves dest src n dest_label p md ms apart =
      let (b1, b2) = copy_bytes-at dest src 0 n p.runtime.memory (λ j k h1 h2. omega arith) in
      let (l1, l2) =
        copy_labels-at (shadow_for dest) (shadow_for src) 0 n p.runtime.shadow (λ j k h1 h2.
          omega (arith, shadow_for_app dest (omega arith), shadow_for_app src (omega arith))) in
      (
        _,
        _,
        refl,
        (
          refl,
          record {
            values = λ k h. b1 k (omega arith) (omega arith);
            labels = λ k h.
                rw (shadow_for-block dest n k md h, shadow_for-block src n k ms h)
                  (l1 k (omega arith) (omega arith));
            other_values = λ a out. b2 a (λ k le h. out k (omega arith));
            other_labels = λ a out. l2 a (λ k le h.
                rw (shadow_for-block dest n k md (omega arith)) at (out k (omega arith)));
          },
        ),
      )
