-- ===== src/Pass/Combine.antt =====
-- TaintPass.cc: the members of `TaintFunction` that make the code for an operation, a load, a
-- store and a condition.
use kirenenko.Prelude.{
  ℕ, bit_or, Bool, true, false, ◌&&◌, ◌||◌, not, Option, none, some, List, [], ◌∷◌, ◌==◌, leb,
  if◌then◌else◌,
}
use kirenenko.Word.{u8, u16, shl}
use kirenenko.Operators.{op_not, Opcodes}
use kirenenko.Pass.{
  IrType, size_in_bits, Value, type_of, Object, Shadow, zero_shadow, of_instruction, is_zero, Code,
  Options, TaintFunction, get_shadow, is_constant_one, all_constants,
}

-- What `combineShadows` reads of an instruction; a comparison has a predicate.
pub record Operation : Type 0 where
  pub result : IrType
  pub operand0 : Value
  pub operand1 : Option Value
  pub predicate : Option ℕ

unfoldable pub is_traced_type : Options → IrType → Bool
is_traced_type o (IrType.integer n) = true
is_traced_type o IrType.pointer = true
is_traced_type o (IrType.vector n) = false
is_traced_type o (IrType.other n) = false
is_traced_type o _ = o.trace_fp

-- The filters on the type and on the size.
unfoldable pub is_traced : Options → Operation → Bool
is_traced o i = is_traced_type o (type_of i.operand0) && leb (size_in_bits i.result) 64

-- `Op` and `Size`: a comparison has its predicate in the high byte, and the size of its operands.
unfoldable pub union_op : ℕ → Operation → ℕ
union_op op i = elim i.predicate [ none ↦ op | some p ↦ u16 (bit_or op (shl p 8)) ]

unfoldable pub union_size : Operation → ℕ
union_size i =
    u8 (elim i.predicate [
      | none ↦ size_in_bits i.result
      | some p ↦ size_in_bits (type_of i.operand0)
    ])

unfoldable pub combine_shadows : Options → ℕ → Shadow → Shadow → ℕ → Operation → List Code × Shadow
combine_shadows o n v1 v2 op i =
    if is_zero v1 && is_zero v2
    then ([], v1)
    else if not (is_traced o i)
    then ([], zero_shadow)
    else (
      Code.call_union n v1 v2 (union_op op i) (union_size i) i.operand0 i.operand1 ∷ [],
      of_instruction n,
    )

abbrev pub binary_operation : Value → Value → Operation
binary_operation a b = record {
  result = type_of a;
  operand0 = a;
  operand1 = some b;
  predicate = none;
}

abbrev pub cast_operation : Value → IrType → Operation
cast_operation a t = record { result = t; operand0 = a; operand1 = none; predicate = none }

abbrev pub compare_operation : ℕ → Value → Value → Operation
compare_operation p a b = record {
  result = IrType.integer 1;
  operand0 = a;
  operand1 = some b;
  predicate = some p;
}

-- An exclusive or of a Boolean with `true` is a negation.
unfoldable pub binary_op : ⦃ops : Opcodes⦄ → ℕ → Value → Value → ℕ
binary_op ⦃ops⦄ op a b =
    if size_in_bits (type_of a) == 1 && op == ops.op_xor && (is_constant_one b || is_constant_one a)
    then op_not
    else op

-- The `alloca` that a pointer is, when its shadow is a variable.
unfoldable pub tracked_alloca : (ℕ → Bool) → Value → Option ℕ
tracked_alloca tracked (Value.instruction k t) = if tracked k then some k else none
tracked_alloca tracked _ = none

unfoldable pub load_shadow : TaintFunction → ℕ → Value → ℕ → List Object → List Code × Shadow
load_shadow tf n addr size objects = elim (tracked_alloca tf.alloca_shadow_map addr) [
  | some k ↦ (Code.load_alloca n k ∷ [], of_instruction n)
  | none ↦
      if all_constants objects
      then ([], zero_shadow)
      else if size == 0
      then ([], zero_shadow)
      else (Code.call_union_load n addr size ∷ [], of_instruction n)
]

unfoldable pub store_shadow : TaintFunction → Value → ℕ → Shadow → List Code
store_shadow tf addr size s = elim (tracked_alloca tf.alloca_shadow_map addr) [
  | some k ↦ Code.store_alloca s k ∷ []
  | none ↦
      if is_zero s then Code.store_zeros addr size ∷ [] else Code.call_union_store s addr size ∷ []
]

unfoldable pub visit_condition : Options → TaintFunction → Value → List Code
visit_condition o tf c =
    if is_zero (get_shadow o tf c) then [] else Code.call_trace_cond (get_shadow o tf c) c ∷ []
