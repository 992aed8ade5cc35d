-- ===== src/Expressions/Meaning.antt =====
-- What the expressions of labels mean. The values of Z3's expressions, for one input, are a
-- parameter with the laws that Z3 documents for bit vectors.
use kirenenko.Prelude.{
  ℕ, ◌^◌, ◌≤◌, ◌<◌, ◌≡◌, ◌⊎◌, Bool, true, false, Option, none, some, ◌==◌, if◌then◌else◌,
}
use kirenenko.Operators.{Opcodes, is_commutative}
use kirenenko.Runtime.{Runtime}
use kirenenko.Z3.{Z3, Binary}
use kirenenko.Expressions.Plain.{expr_of}

-- The operations of Z3 on two bit vectors of one width, with a bit vector for their result.
abbrev pub is_arithmetic : Binary → Bool
is_arithmetic Binary.bit_and = true
is_arithmetic Binary.bit_or = true
is_arithmetic Binary.bit_xor = true
is_arithmetic Binary.shift_left = true
is_arithmetic Binary.logical_shift_right = true
is_arithmetic Binary.arithmetic_shift_right = true
is_arithmetic Binary.add = true
is_arithmetic Binary.sub = true
is_arithmetic Binary.mul = true
is_arithmetic Binary.unsigned_div = true
is_arithmetic Binary.signed_div = true
is_arithmetic Binary.unsigned_rem = true
is_arithmetic Binary.signed_rem = true
is_arithmetic b = false

-- The operation for the number of an LLVM instruction on integers.
unfoldable pub operation_of : ⦃ops : Opcodes⦄ → ℕ → Option Binary
operation_of ⦃ops⦄ op =
    if op == ops.op_and
    then some Binary.bit_and
    else if op == ops.op_or
    then some Binary.bit_or
    else if op == ops.op_xor
    then some Binary.bit_xor
    else if op == ops.op_shl
    then some Binary.shift_left
    else if op == ops.op_lshr
    then some Binary.logical_shift_right
    else if op == ops.op_ashr
    then some Binary.arithmetic_shift_right
    else if op == ops.op_add
    then some Binary.add
    else if op == ops.op_sub
    then some Binary.sub
    else if op == ops.op_mul
    then some Binary.mul
    else if op == ops.op_udiv
    then some Binary.unsigned_div
    else if op == ops.op_sdiv
    then some Binary.signed_div
    else if op == ops.op_urem
    then some Binary.unsigned_rem
    else if op == ops.op_srem
    then some Binary.signed_rem
    else none

-- `eval` is the value of an expression, for one input; `compute` is what the processor computes on
-- operands of a width.
pub record Semantics ⦃ops : Opcodes⦄ (z : Z3) : Type 0 where
  pub eval : z.Expr → ℕ
  pub compute : Binary → ℕ → ℕ → ℕ → ℕ
  pub bv_val-eval :
      (value width : ℕ)
      → 0 < width
      → value < 2 ^ width
      → (e : z.Expr) × (z.bv_val value width ≡ some e)
        × (z.bv_size e ≡ some width)
        × (eval e ≡ value)
  pub simplify-eval :
      (e : z.Expr) → (eval (z.simplify e) ≡ eval e) × (z.bv_size (z.simplify e) ≡ z.bv_size e)
  pub binary-eval :
      (b : Binary) (x y : z.Expr) (width : ℕ)
      → is_arithmetic b ≡ true
      → z.bv_size x ≡ some width
      → z.bv_size y ≡ some width
      → (e : z.Expr) × (z.binary b x y ≡ some e)
        × (z.bv_size e ≡ some width)
        × (eval e ≡ compute b width (eval x) (eval y))
  pub compute_comm :
      (op : ℕ) (b : Binary) (width x y : ℕ)
      → is_commutative op ≡ true
      → operation_of op ≡ some b
      → compute b width x y ≡ compute b width y x

module _ ⦃ops : Opcodes⦄ {z : Z3} (s : Semantics z) (r : Runtime) where
  -- The label has an expression of `width` bits with that value.
  abbrev pub Means : ℕ → ℕ → ℕ → Type 0
  Means label width value =
      (e : z.Expr) × (expr_of z r.label_info r.memory label ≡ some e)
      × (z.bv_size e ≡ some width)
      × (s.eval e ≡ value)

  -- An operand is the value itself, without a label, or a label that means it.
  abbrev pub OperandMeans : ℕ → ℕ → ℕ → Type 0
  OperandMeans label width value =
      ((label ≡ 0) × (value < 2 ^ width))
      ⊎ ((0 < label) × (label ≤ r.last_label) × Means label width value)
