-- ===== src/Pass/Negation.antt =====
-- TaintPass.cc: the exclusive or of a Boolean with `true`, which becomes a negation.
use kirenenko.Prelude.{ℕ, ◌≡◌, refl, arith, true, false, Bool-cases, inl, inr, some, [], ◌∷◌, ltb}
use kirenenko.Operators.{Opcodes, op_not, is_commutative}
use kirenenko.Runtime.{Runtime}
use kirenenko.Labels.{taint_union, union_ordered}
use kirenenko.Pass.{
  IrType, Value, type_of, Inst, zero_shadow, is_zero, Code, Options, TaintFunction, get_shadow,
  is_constant_one,
}
use kirenenko.Pass.Combine.{
  is_traced, is_traced_type, union_op, union_size, combine_shadows, binary_op,
}
use kirenenko.Pass.Visit.{visit_inst}
use kirenenko.Pass.Machine.{
  Machine, Application, value_of, operand_bits, optional_operand_bits, exec_code, exec, label_of,
}

abbrev pub true_constant : Value
true_constant = Value.constant_int 1 1

-- The runtime puts the constant first.
taint_union-not :
    ⦃ops : Opcodes⦄ (l x : ℕ) (r : Runtime)
    → taint_union l 0 op_not 1 x 1 r ≡ taint_union 0 l op_not 1 1 x r
unfolding taint_union union_ordered is_commutative
taint_union-not l x r = elim (Bool-cases (ltb 0 l)) [
  | inl e ↦ ground (arith, e)
  | inr e ↦ ground (arith, e)
]

module _ ⦃ops : Opcodes⦄ (o : Options) (n : ℕ) (tf : TaintFunction) (v : Value) where
  -- The code for a tainted Boolean, with the constant on the right and on the left.
  not-right :
      type_of v ≡ IrType.integer 1
      → is_zero (get_shadow o tf v) ≡ false
      → (visit_inst o n tf false (Inst.binary ops.op_xor v true_constant)).0
        ≡ Code.call_union n (get_shadow o tf v) zero_shadow op_not 1 v (some true_constant) ∷ []
  unfolding visit_inst combine_shadows binary_op union_op union_size is_traced is_traced_type
      is_constant_one get_shadow
  not-right t z = ground (arith, t, z)

  not-left :
      type_of v ≡ IrType.integer 1
      → is_zero (get_shadow o tf v) ≡ false
      → (visit_inst o n tf false (Inst.binary ops.op_xor true_constant v)).0
        ≡ Code.call_union n zero_shadow (get_shadow o tf v) op_not 1 true_constant (some v) ∷ []
  unfolding visit_inst combine_shadows binary_op union_op union_size is_traced is_traced_type
      is_constant_one get_shadow
  not-left t z = ground (arith, t, z)

  not-untainted :
      type_of v ≡ IrType.integer 1
      → is_zero (get_shadow o tf v) ≡ true
      → ((visit_inst o n tf false (Inst.binary ops.op_xor v true_constant)).0 ≡ [])
        × ((visit_inst o n tf false (Inst.binary ops.op_xor true_constant v)).0 ≡ [])
  unfolding visit_inst combine_shadows get_shadow
  not-untainted t z = ground (arith, t, z)

-- Whichever operand of an exclusive or of Booleans is the constant `true`, the inserted code does
-- the same.
pub visit_inst-not :
    ⦃ops : Opcodes⦄ (o : Options) (n : ℕ) (tf : TaintFunction) (a : Application) (v : Value)
    (m : Machine)
    → type_of v ≡ IrType.integer 1
    → exec a (visit_inst o n tf false (Inst.binary ops.op_xor v true_constant)).0 m
      ≡ exec a (visit_inst o n tf false (Inst.binary ops.op_xor true_constant v)).0 m
unfolding exec exec_code optional_operand_bits value_of label_of
visit_inst-not o n tf a v m t =
    let s = get_shadow o tf v in
    elim (Bool-cases (is_zero s)) [
      | inl z ↦ let (e, e') = not-untainted o n tf v t z in rw (e, e') refl
      | inr z ↦
          rw (not-right o n tf v t z, not-left o n tf v t z)
            (ground (arith, taint_union-not (label_of a m s) (operand_bits a v) m.runtime))
    ]
