-- ===== src/Mapping.antt =====
-- dfsan_platform.h and the address functions of dfsan.h: where application memory, shadow
-- memory and the tables lie, and how an application address leads to its shadow.
pub mod RoundTrip
use kirenenko.Prelude.{ℕ, ◌+◌, ◌-◌, ◌^◌, bit_and, bit_or}
use kirenenko.Word.{u64, shl, shr}

pub record Mapping : Type 0 where
  pub shadow_addr : ℕ
  pub union_table_addr : ℕ
  pub hash_table_addr : ℕ
  pub app_addr : ℕ
  pub app_base_addr : ℕ
  pub shadow_mask : ℕ

-- `~x` as a `uptr`.
abbrev pub complement : ℕ → ℕ
complement x = 2 ^ 64 - 1 - x

abbrev pub x86_64 : Mapping
x86_64 = record {
  shadow_addr = 0x10000;
  union_table_addr = 0x400000000000;
  hash_table_addr = 0x400c00000000;
  app_addr = 0x700000040000;
  app_base_addr = 0x700000000000;
  shadow_mask = complement 0x700000000000;
}

abbrev pub mips64 : Mapping
mips64 = record {
  shadow_addr = 0x10000;
  union_table_addr = 0x2000000000;
  hash_table_addr = 0x3000000000;
  app_addr = 0xF000008000;
  app_base_addr = 0xF000000000;
  shadow_mask = complement 0xF000000000;
}

-- `((uptr) ptr & ShadowMask()) << 2`
unfoldable pub shadow_for_in : Mapping → ℕ → ℕ
shadow_for_in m ptr = u64 (shl (bit_and ptr m.shadow_mask) 2)

-- `((uptr) l >> 2) | AppBaseAddr()`
unfoldable pub app_for_in : Mapping → ℕ → ℕ
app_for_in m l = bit_or (shr l 2) m.app_base_addr

-- The runtime is modelled on Linux/x86_64.
unfoldable pub shadow_for : ℕ → ℕ
shadow_for ptr = shadow_for_in x86_64 ptr

unfoldable pub app_for : ℕ → ℕ
app_for l = app_for_in x86_64 l
