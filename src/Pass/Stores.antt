-- ===== src/Pass/Stores.antt =====
-- The code that TaintPass.cc inserts for a shadow that it knows to be zero, against the calls of
-- the runtime that it saves.
use kirenenko.Prelude.{
  ℕ, zero, suc, ◌+◌, ◌*◌, ◌^◌, ◌≤◌, ◌<◌, bit_or, ◌≡◌, ◌≢◌, refl, fun_ext, arith, update,
}
use kirenenko.Word.{u16, shl}
use kirenenko.Word.Bits.{or-split, or-zero-left, or-zero-right}
use kirenenko.Run.{ok}
use kirenenko.Operators.{Opcodes, op_fsize}
use kirenenko.Mapping.{shadow_for, shadow_for_in}
use kirenenko.Runtime.{Runtime}
use kirenenko.Shadow.{fill, taint_union_store}
use kirenenko.Pass.Machine.{get_shadow_address, store_wide_zero}

-- The pass and the runtime find the shadow of an address at the same place.
pub get_shadow_address-shadow_for : (addr : ℕ) → get_shadow_address addr ≡ shadow_for addr
unfolding get_shadow_address shadow_for shadow_for_in
get_shadow_address-shadow_for addr = refl

-- The first label of the range, then the rest.
store_wide_zero-none : (ls : ℕ) (shadow : ℕ → ℕ) → store_wide_zero ls 0 shadow ≡ shadow
unfolding store_wide_zero
store_wide_zero-none ls shadow = fun_ext (λ a. ground arith)

store_wide_zero-first :
    (ls n : ℕ) (shadow : ℕ → ℕ)
    → store_wide_zero (ls + 4) n (update shadow ls 0) ≡ store_wide_zero ls (suc n) shadow
unfolding store_wide_zero
store_wide_zero-first ls n shadow = fun_ext (λ a. ground arith)

fill-zeros :
    (ls i n : ℕ) (r : Runtime)
    → fill 0 ls i n r ≡ ok tt (record r { shadow = store_wide_zero (ls + 4 * i) n r.shadow })
unfolding fill
fill-zeros ls i zero r = rw (store_wide_zero-none (ls + 4 * i) r.shadow) refl
fill-zeros ls i (suc n) r =
    let next : ls + 4 * (i + 1) ≡ ls + 4 * i + 4 = omega arith in
    let rest = fill-zeros ls (i + 1) n (record r { shadow = update r.shadow (ls + 4 * i) 0 }) in
    rw (next, store_wide_zero-first (ls + 4 * i) n r.shadow) at rest

-- One store of a wide zero does what a store of the label zero does.
pub store_wide_zero-taint_union_store :
    ⦃ops : Opcodes⦄ (ls n : ℕ) (r : Runtime)
    → taint_union_store 0 ls n r ≡ ok tt (record r { shadow = store_wide_zero ls n r.shadow })
unfolding taint_union_store
store_wide_zero-taint_union_store ls n r = let h = fill-zeros ls 0 n r in ground (arith, h)

-- A comparison's operator keeps the number of the instruction in its low byte.
pub compare_op-fsize :
    ⦃ops : Opcodes⦄ (op p : ℕ)
    → op ≤ ops.last_llvm_op
    → p < 64
    → u16 (bit_or op (shl p 8)) ≢ op_fsize
compare_op-fsize ⦃ops⦄ op p h h' =
    let low : 0 * 2 ^ 8 + op ≡ op = omega arith in
    let high : p * 2 ^ 8 + 0 ≡ p * 2 ^ 8 = omega arith in
    let e = or-split 8 0 p op 0 (omega (arith, ops.fits_byte)) (omega arith) in
    let e' = rw (low, high, or-zero-left p, or-zero-right op) at e in
    omega (arith, e', ops.fits_byte)
