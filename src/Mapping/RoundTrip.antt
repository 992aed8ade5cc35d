-- ===== src/Mapping/RoundTrip.antt =====
-- dfsan.h: application addresses and the addresses of their shadows.
use kirenenko.Prelude.{ℕ, ◌+◌, ◌-◌, ◌*◌, ◌/◌, ◌^◌, ◌≤◌, ◌<◌, bit_or, ◌≡◌, ap, arith}
use kirenenko.Word.Bits.{and-split, or-split, and-ones, or-zero-left, or-zero-right}
use kirenenko.Mapping.{x86_64, shadow_for_in, app_for_in, shadow_for, app_for}

-- The region of application memory on x86_64.
abbrev pub InApp : ℕ → Type 0
InApp p = (0x700000000000 ≤ p) × (p < 0x800000000000)

shadow_of_offset : (q : ℕ) → q < 2 ^ 44 → shadow_for (7 * 2 ^ 44 + q) ≡ 4 * q
unfolding shadow_for shadow_for_in
shadow_of_offset q h =
    omega (arith, and-split 44 7 0xffff8 q (2 ^ 44 - 1) h (omega arith), and-ones 44 q h)

-- The shadow of a byte of application memory lies four bytes for each byte above the base.
pub shadow_for_app : (p : ℕ) → InApp p → shadow_for p ≡ 4 * (p - 0x700000000000)
shadow_for_app p h =
    let q = p - 0x700000000000 in
    let e : p ≡ 7 * 2 ^ 44 + q = omega arith in ground (arith, ap shadow_for e, shadow_of_offset q)

app_of_offset : (q : ℕ) → q < 2 ^ 44 → app_for (4 * q) ≡ 7 * 2 ^ 44 + q
unfolding app_for app_for_in
app_of_offset q h =
    let e : 4 * q / 4 ≡ 0 * 2 ^ 44 + q = omega arith in
    ground (
      arith,
      ap (λ (t : ℕ). bit_or t 0x700000000000) e,
      or-split 44 0 7 q 0 h,
      or-zero-left 7,
      or-zero-right q,
    )

-- Going from an application address to its shadow and back gives the address again.
pub app_for-shadow_for : (p : ℕ) → InApp p → app_for (shadow_for p) ≡ p
app_for-shadow_for p h =
    let q = p - 0x700000000000 in ground (arith, ap app_for (shadow_for_app p h), app_of_offset q)

-- The label of the byte `i` places further on lies `i` labels further on.
pub shadow_for-add : (p i : ℕ) → InApp p → InApp (p + i) → shadow_for (p + i) ≡ shadow_for p + 4 * i
shadow_for-add p i h k = omega (arith, shadow_for_app p h, shadow_for_app (p + i) k)

-- Shadow memory ends below the union table, and the shadow of usable application memory begins
-- above the pages that the kernel keeps.
pub shadow_for_bounds :
    (p : ℕ)
    → x86_64.app_addr ≤ p
    → p < 0x800000000000
    → (x86_64.shadow_addr ≤ shadow_for p) × (shadow_for p + 4 ≤ x86_64.union_table_addr)
shadow_for_bounds p lo hi = omega (arith, shadow_for_app p (omega arith, hi))
