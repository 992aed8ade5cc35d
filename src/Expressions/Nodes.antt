-- ===== src/Expressions/Nodes.antt =====
-- dfsan.cc: the expression of one label from those of its operands, as `serialize` builds it.
use kirenenko.Prelude.{
  ℕ, zero, suc, ◌+◌, ◌-◌, ◌/◌, ◌%◌, ◌^◌, Option, none, some, ◌==◌, if◌then◌else◌,
}
use kirenenko.Word.{u8, u32}
use kirenenko.Operators.{Opcodes, op_concat}
use kirenenko.LabelInfo.{LabelInfo}
use kirenenko.Z3.{Z3, Unary, Binary}

infixl 5 ◌>>=◌
abbrev pub ◌>>=◌ {ℓ} : {A B : Type ℓ} → Option A → (A → Option B) → Option B
o >>= f = elim o [ none ↦ none | some a ↦ f a ]

module _ (z : Z3) where
  -- The bytes at `addr + i` and further on, put in front of what was read; the first byte is the
  -- lowest.
  unfoldable pub read_bytes : (ℕ → ℕ) → ℕ → ℕ → ℕ → z.Expr → Option z.Expr
  read_bytes memory addr i zero val = some val
  read_bytes memory addr i (suc rounds) val = do
    byte ← z.bv_val (memory (addr + i)) 8
    joined ← z.binary Binary.concat byte val
    read_bytes memory addr (i + 1) rounds joined

  unfoldable pub read_concrete : (ℕ → ℕ) → ℕ → ℕ → Option z.Expr
  unfolding read_bytes
  read_concrete memory addr size =
      if addr == 0
      then none
      else (do val ← z.bv_val (memory addr) 8; read_bytes memory addr 1 (size - 1) val)

  unfoldable pub predicate_of : ℕ → Option Binary
  predicate_of predicate =
      if predicate == 32
      then some Binary.equal
      else if predicate == 33
      then some Binary.not_equal
      else if predicate == 34
      then some Binary.ugt
      else if predicate == 35
      then some Binary.uge
      else if predicate == 36
      then some Binary.ult
      else if predicate == 37
      then some Binary.ule
      else if predicate == 38
      then some Binary.sgt
      else if predicate == 39
      then some Binary.sge
      else if predicate == 40
      then some Binary.slt
      else if predicate == 41
      then some Binary.sle
      else none

  unfoldable pub get_cmd : z.Expr → z.Expr → ℕ → Option z.Expr
  unfolding predicate_of
  get_cmd lhs rhs predicate = do p ← predicate_of predicate; z.binary p lhs rhs

  -- The bytes of the input at `offset + i` and further on, in front of what there is.
  unfoldable pub load_bytes : ℕ → ℕ → ℕ → z.Expr → Option z.Expr
  load_bytes offset i zero out = some out
  load_bytes offset i (suc rounds) out = do
    joined ← z.binary Binary.concat (z.input (u32 (offset + i))) out
    load_bytes offset (i + 1) rounds joined

  unfoldable pub load_expr : ℕ → ℕ → Option z.Expr
  unfolding load_bytes
  load_expr offset n = load_bytes offset 1 (n - 1) (z.input (u32 offset))

  -- LLVM has no type of Booleans: a comparison that is extended becomes one bit.
  unfoldable pub bit_of_bool : z.Expr → Option z.Expr
  bit_of_bool base =
      if z.is_bool base
      then (do one ← z.bv_val 1 1; nought ← z.bv_val 0 1; z.ite base one nought)
      else some base

  -- What an extension takes from its operand before it is built: the bits and their number.
  unfoldable pub zext_base : z.Expr → Option (z.Expr × ℕ)
  unfolding bit_of_bool
  zext_base base = do bits ← bit_of_bool base; base_size ← z.bv_size bits; some (bits, base_size)

  unfoldable pub sext_base : z.Expr → Option (z.Expr × ℕ)
  sext_base base = do base_size ← z.bv_size base; some (base, base_size)

  -- `info->size - base_size` is computed on 32 bits.
  unfoldable pub zext_expr : LabelInfo → z.Expr × ℕ → Option z.Expr
  zext_expr info (base, base_size) =
      z.unary (Unary.zero_extend (u32 (info.size + 2 ^ 32 - base_size))) base

  unfoldable pub sext_expr : LabelInfo → z.Expr × ℕ → Option z.Expr
  sext_expr info (base, base_size) =
      z.unary (Unary.sign_extend (u32 (info.size + 2 ^ 32 - base_size))) base

  unfoldable pub trunc_expr : LabelInfo → z.Expr × ℕ → Option z.Expr
  trunc_expr info (base, _) = z.unary (Unary.extract (u32 (info.size + 2 ^ 32 - 1)) 0) base

  unfoldable pub extract_expr : LabelInfo → z.Expr × ℕ → Option z.Expr
  extract_expr info (base, _) =
      z.unary (Unary.extract (u32 (info.op2 + info.size + 2 ^ 32 - 1)) (u32 info.op2)) base

  unfoldable pub not_expr : z.Expr × ℕ → Option z.Expr
  not_expr (e, _) = if z.is_bool e then z.unary Unary.logical_not e else none

  unfoldable pub neg_expr : z.Expr × ℕ → Option z.Expr
  neg_expr (e, _) = z.unary Unary.negate e

  unfoldable pub memcmp_expr : z.Expr → z.Expr → Option z.Expr
  memcmp_expr op1 op2 = do
    equal ← z.binary Binary.equal op1 op2
    nought ← z.bv_val 0 32
    one ← z.bv_val 1 32
    z.ite equal nought one

  unfoldable pub fsize_expr : LabelInfo → z.Expr → Option z.Expr
  fsize_expr info base =
      if info.op1 == 0
      then some base
      else (do offset ← z.bv_val info.op1 info.size; z.binary Binary.sub base offset)

module _ ⦃ops : Opcodes⦄ (z : Z3) where
  -- The switch on the low byte of the operator.
  unfoldable pub common_expr : LabelInfo → z.Expr → z.Expr → Option z.Expr
  common_expr info op1 op2 =
      let op = info.op % 2 ^ 8 in
      if op == ops.op_and
      then z.binary (if info.size == 1 then Binary.logical_and else Binary.bit_and) op1 op2
      else if op == ops.op_or
      then z.binary (if info.size == 1 then Binary.logical_or else Binary.bit_or) op1 op2
      else if op == ops.op_xor
      then z.binary Binary.bit_xor op1 op2
      else if op == ops.op_shl
      then z.binary Binary.shift_left op1 op2
      else if op == ops.op_lshr
      then z.binary Binary.logical_shift_right op1 op2
      else if op == ops.op_ashr
      then z.binary Binary.arithmetic_shift_right op1 op2
      else if op == ops.op_add
      then z.binary Binary.add op1 op2
      else if op == ops.op_sub
      then z.binary Binary.sub op1 op2
      else if op == ops.op_mul
      then z.binary Binary.mul op1 op2
      else if op == ops.op_udiv
      then z.binary Binary.unsigned_div op1 op2
      else if op == ops.op_sdiv
      then z.binary Binary.signed_div op1 op2
      else if op == ops.op_urem
      then z.binary Binary.unsigned_rem op1 op2
      else if op == ops.op_srem
      then z.binary Binary.signed_rem op1 op2
      else if op == ops.op_icmp
      then get_cmd z op1 op2 (info.op / 2 ^ 8)
      else if op == op_concat
      then z.binary Binary.concat op2 op1
      else none

-- The value of a concrete operand: a Boolean where the result has one bit.
unfoldable pub constant_expr : (z : Z3) → LabelInfo → ℕ → z.Expr → z.Expr
constant_expr z info value bits = if info.size == 1 then z.bool_val (value == 1) else bits

-- `u8 size`, and what is left of it for the concrete operand of a `Concat`.
unfoldable pub rest_size : LabelInfo → LabelInfo → ℕ
rest_size info operand = u8 (info.size + 2 ^ 16 - operand.size)
