-- ===== src/Operators.antt =====
-- dfsan.h: the operators of a label. The numbers of the LLVM instructions come from
-- `llvm/IR/Instruction.def`, which is not part of the repository, so they are a parameter.
use kirenenko.Prelude.{ℕ, ◌+◌, ◌≤◌, ◌<◌, Bool, ◌||◌, ◌==◌}
use kirenenko.Word.{u8}

-- What the code relies on: 1 and 2 are numbers of terminators, not of these instructions, and
-- `last_llvm_op + 8` still fits the low byte of `op`.
pub record Opcodes : Type 0 where
  pub op_add : ℕ
  pub op_sub : ℕ
  pub op_mul : ℕ
  pub op_udiv : ℕ
  pub op_sdiv : ℕ
  pub op_urem : ℕ
  pub op_srem : ℕ
  pub op_shl : ℕ
  pub op_lshr : ℕ
  pub op_ashr : ℕ
  pub op_and : ℕ
  pub op_or : ℕ
  pub op_xor : ℕ
  pub op_trunc : ℕ
  pub op_zext : ℕ
  pub op_sext : ℕ
  pub op_icmp : ℕ
  pub last_llvm_op : ℕ
  pub above_terminators :
      (2 < op_add)
      × (2 < op_mul)
      × (2 < op_and)
      × (2 < op_or)
      × (2 < op_xor)
      × (2 < op_trunc)
      × (2 < op_icmp)
  pub below_last :
      (op_add ≤ last_llvm_op)
      × (op_mul ≤ last_llvm_op)
      × (op_and ≤ last_llvm_op)
      × (op_or ≤ last_llvm_op)
      × (op_xor ≤ last_llvm_op)
      × (op_trunc ≤ last_llvm_op)
      × (op_icmp ≤ last_llvm_op)
  pub fits_byte : last_llvm_op + 8 < 256

abbrev pub op_not : ℕ
op_not = 1

abbrev pub op_neg : ℕ
op_neg = 2

module _ ⦃ops : Opcodes⦄ where
  abbrev pub op_load : ℕ
  op_load = ops.last_llvm_op + 3

  abbrev pub op_extract : ℕ
  op_extract = ops.last_llvm_op + 4

  abbrev pub op_concat : ℕ
  op_concat = ops.last_llvm_op + 5

  abbrev pub op_fmemcmp : ℕ
  op_fmemcmp = ops.last_llvm_op + 6

  abbrev pub op_fsize : ℕ
  op_fsize = ops.last_llvm_op + 7

  -- The parameter is an `unsigned char`, so only the low byte of a 16-bit operator is seen.
  unfoldable pub is_commutative : ℕ → Bool
  is_commutative op =
      let c = u8 op in
      c == op_not
      || c == ops.op_and
      || c == ops.op_or
      || c == ops.op_xor
      || c == ops.op_add
      || c == ops.op_mul
      || c == op_fmemcmp
