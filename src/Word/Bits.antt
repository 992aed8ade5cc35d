-- ===== src/Word/Bits.antt =====
-- Laws of `&` and `|` at every width, from the recursion on binary digits that the native
-- operations stand for.
use Prim.Native.Nat.{min, max, digits, bit_and-bitwise, bit_or-bitwise}
use native.Mathlib.Nat.{pow-suc, one-le-pow}
use kirenenko.Prelude.{
  ℕ, zero, suc, ◌+◌, ◌-◌, ◌*◌, ◌/◌, ◌%◌, ◌^◌, ◌≤◌, ◌<◌, bit_and, bit_or, ◌≡◌, refl, ap, arith,
}

-- The recursion needs no more fuel than its first argument.
module _ (z : ℕ → ℕ) (f : ℕ → ℕ → ℕ) where
  digits_enough : (n m a b : ℕ) → a ≤ n → a ≤ m → digits z f n a b ≡ digits z f m a b
  digits_enough zero zero a b p q = refl
  digits_enough zero (suc m) zero b p q = refl
  digits_enough zero (suc m) (suc a) b p q = absurd (omega arith)
  digits_enough (suc n) zero zero b p q = refl
  digits_enough (suc n) zero (suc a) b p q = absurd (omega arith)
  digits_enough (suc n) (suc m) zero b p q = refl
  digits_enough (suc n) (suc m) (suc a) b p q =
      omega (arith, digits_enough n m (suc a / 2) (b / 2) (omega arith) (omega arith))

and_step : (a b : ℕ) → bit_and a b ≡ bit_and (a / 2) (b / 2) * 2 + min (a % 2) (b % 2)
and_step zero b = omega (arith, bit_and-bitwise 0 b, bit_and-bitwise 0 (b / 2))
and_step (suc a) b = omega (
  arith,
  bit_and-bitwise (suc a) b,
  bit_and-bitwise (suc a / 2) (b / 2),
  digits_enough (λ _. zero) min a (suc a / 2) (suc a / 2) (b / 2) (omega arith) (omega arith),
)

or_step : (a b : ℕ) → bit_or a b ≡ bit_or (a / 2) (b / 2) * 2 + max (a % 2) (b % 2)
or_step zero b = omega (arith, bit_or-bitwise 0 b, bit_or-bitwise 0 (b / 2))
or_step (suc a) b = omega (
  arith,
  bit_or-bitwise (suc a) b,
  bit_or-bitwise (suc a / 2) (b / 2),
  digits_enough (λ y. y) max a (suc a / 2) (suc a / 2) (b / 2) (omega arith) (omega arith),
)

pow-pos : (k : ℕ) → 0 < 2 ^ k
pow-pos k = one-le-pow k 2 (omega arith)

times-double : (q k : ℕ) → q * 2 ^ suc k ≡ 2 * (q * 2 ^ k)
times-double q k = omega (arith, ap (λ (t : ℕ). q * t) (pow-suc 2 k))

-- The fields above and below bit `k` do not mix.
pub and-split :
    (k a b r s : ℕ)
    → r < 2 ^ k
    → s < 2 ^ k
    → bit_and (a * 2 ^ k + r) (b * 2 ^ k + s) ≡ bit_and a b * 2 ^ k + bit_and r s
and-split zero a b r s hr hs =
    let er : r ≡ 0 = omega arith in
    let es : s ≡ 0 = omega arith in ground (arith, ap (λ (t : ℕ). bit_and t s) er)
and-split (suc k) a b r s hr hs = ground (
  arith,
  and_step (a * 2 ^ suc k + r) (b * 2 ^ suc k + s),
  and_step r s,
  times-double a k,
  times-double b k,
  times-double (bit_and a b) k,
  pow-suc 2 k,
  and-split k a b (r / 2) (s / 2),
)

pub or-split :
    (k a b r s : ℕ)
    → r < 2 ^ k
    → s < 2 ^ k
    → bit_or (a * 2 ^ k + r) (b * 2 ^ k + s) ≡ bit_or a b * 2 ^ k + bit_or r s
or-split zero a b r s hr hs =
    let er : r ≡ 0 = omega arith in
    let es : s ≡ 0 = omega arith in ground (arith, ap (λ (t : ℕ). bit_or t s) er)
or-split (suc k) a b r s hr hs = ground (
  arith,
  or_step (a * 2 ^ suc k + r) (b * 2 ^ suc k + s),
  or_step r s,
  times-double a k,
  times-double b k,
  times-double (bit_or a b) k,
  pow-suc 2 k,
  or-split k a b (r / 2) (s / 2),
)

-- A mask of `k` ones keeps the low `k` bits.
pub and-ones : (k r : ℕ) → r < 2 ^ k → bit_and r (2 ^ k - 1) ≡ r
and-ones zero r h = let e : r ≡ 0 = omega arith in ground (arith, ap (λ (t : ℕ). bit_and t 0) e)
and-ones (suc k) r h =
    ground (arith, and_step r (2 ^ suc k - 1), pow-suc 2 k, pow-pos k, and-ones k (r / 2))

-- No bit is set that is not set in the mask.
and-le-right_below : (n a b : ℕ) → a ≤ n → bit_and a b ≤ b
and-le-right_below zero a b h =
    let e : a ≡ 0 = omega arith in
    ground (arith, ap (λ (t : ℕ). bit_and t b) e, bit_and-bitwise 0 b)
and-le-right_below (suc n) a b h =
    ground (arith, and_step a b, and-le-right_below n (a / 2) (b / 2))

pub and-le-right : (a b : ℕ) → bit_and a b ≤ b
and-le-right a b = and-le-right_below a a b (omega arith)

pub or-zero-left : (b : ℕ) → bit_or 0 b ≡ b
or-zero-left b = bit_or-bitwise 0 b

or-zero-right-below : (n a : ℕ) → a ≤ n → bit_or a 0 ≡ a
or-zero-right-below zero a h =
    let e : a ≡ 0 = omega arith in ground (arith, ap (λ (t : ℕ). bit_or t 0) e)
or-zero-right-below (suc n) a h = ground (arith, or_step a 0, or-zero-right-below n (a / 2))

pub or-zero-right : (a : ℕ) → bit_or a 0 ≡ a
or-zero-right a = or-zero-right-below a a (omega arith)
