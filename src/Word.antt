-- ===== src/Word.antt =====
-- Casts to the fixed widths of C, shifts, and the sign extension of `char`.
pub mod Bits
use kirenenko.Prelude.{ℕ, ◌+◌, ◌-◌, ◌*◌, ◌/◌, ◌%◌, ◌^◌, ltb, if◌then◌else◌}

abbrev pub u8 : ℕ → ℕ
u8 n = n % 2 ^ 8

abbrev pub u16 : ℕ → ℕ
u16 n = n % 2 ^ 16

abbrev pub u32 : ℕ → ℕ
u32 n = n % 2 ^ 32

abbrev pub u64 : ℕ → ℕ
u64 n = n % 2 ^ 64

-- `x << k` before the cast, and `x >> k` on an unsigned type.
abbrev pub shl : ℕ → ℕ → ℕ
shl x k = x * 2 ^ k

abbrev pub shr : ℕ → ℕ → ℕ
shr x k = x / 2 ^ k

-- A signed `char` with the byte `c`, converted to `u64`.
abbrev pub sign_extend_char : ℕ → ℕ
sign_extend_char c = if ltb c 128 then c else c + 2 ^ 64 - 256
