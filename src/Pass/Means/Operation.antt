-- ===== src/Pass/Means/Operation.antt =====
-- TaintPass.cc and dfsan.cc together: what the label of one instrumented operation
-- means.
use kirenenko.Prelude.{
  ◌+◌, ℕ, ◌^◌, ◌≤◌, ◌<◌, ◌≡◌, ◌≢◌, refl, ap, ◌∙◌, subst, arith, Bool, true, false, Bool-cases, ◌⊎◌,
  inl, inr, some, ◌==◌, update,
}
use native.Mathlib.Nat.{pow-le-pow_right}
use kirenenko.Run.{Fault, Step-cases, ok, died, ◌>>=◌}
use kirenenko.Operators.{Opcodes, op_fsize}
use kirenenko.Runtime.{Runtime}
use kirenenko.Labels.{taint_union}
use kirenenko.Labels.Invariant.{Valid}
use kirenenko.Labels.Union.{Keeps, taint_union-Keeps}
use kirenenko.Z3.{Z3, Binary}
use kirenenko.Expressions.Meaning.{Semantics, OperandMeans, operation_of}
use kirenenko.Expressions.Sound.{IsPlainOp}
use kirenenko.Pass.{is_floating_point, size_in_bits, IrType, Value, type_of, Inst, Options}
use kirenenko.Pass.Combine.{
  is_traced, is_traced_type, union_op, union_size, binary_op, binary_operation,
}
use kirenenko.Pass.Machine.{
  Machine, Application, value_of, operand_bits, optional_operand_bits, on_runtime, set_register,
  step_application,
}
use kirenenko.Labels.Returns.{HasSpaceFor, taint_union-HasSpaceFor}
use kirenenko.Pass.Reference.{value_label, propagate, propagate_inst}
use kirenenko.Pass.Means.{IsOperand, IsRegistersOnly}
use kirenenko.Pass.Means.Operand.{OperandMeans-Extends, taint_union-OperandMeans}

module _ ⦃ops : Opcodes⦄ {z : Z3} (s : Semantics z) (o : Options) (a : Application) (w : ℕ) where
  -- Every argument and every result is a value of `w` bits, or has a label that means it.
  pub record AllMean (m : Machine) : Type 0 where
    pub valid : Valid m.runtime
    pub arguments : (i : ℕ) → OperandMeans s m.runtime (a.argument_labels i) w (a.arguments i)
    pub results : (k : ℕ) → OperandMeans s m.runtime (m.labels k) w (a.results k)

  pub value-Means :
      (m : Machine) (v : Value)
      → o.is_native_abi ≡ false
      → AllMean m
      → IsOperand w v
      → OperandMeans s m.runtime (value_label o a m v) w (value_of a v)
  unfolding value_label value_of
  value-Means m (Value.argument i t) native h v = rw (native) (h.arguments i)
  value-Means m (Value.instruction k t) native h v = h.results k
  value-Means m (Value.constant_int c n) native h v = inl (refl, v.1)
  value-Means m (Value.constant c t) native h v = absurd v

  value-small :
      (m : Machine) (v : Value) → value_of a v < 2 ^ w → w ≤ 64 → operand_bits a v ≡ value_of a v
  value-small m v small le =
      let q : 2 ^ w ≤ 2 ^ 64 = pow-le-pow_right (omega arith) le in ground (arith, q)

  IsOperand-type_of : (x : Value) → IsOperand w x → type_of x ≡ IrType.integer w
  IsOperand-type_of (Value.argument i t) h = h
  IsOperand-type_of (Value.instruction k t) h = h
  IsOperand-type_of (Value.constant_int c n) h = ap IrType.integer h.0
  IsOperand-type_of (Value.constant c t) h = absurd h

  binary_op-wide : (op : ℕ) (x y : Value) → IsOperand w x → 1 < w → binary_op op x y ≡ op
  unfolding binary_op
  binary_op-wide op x y h wide =
      let e : size_in_bits (type_of x) ≡ w = rw (IsOperand-type_of x h) refl in ground (arith, e)

  binary-is_traced :
      (x y : Value) → IsOperand w x → w ≤ 64 → is_traced o (binary_operation x y) ≡ true
  unfolding is_traced is_traced_type
  binary-is_traced x y h le = rw (IsOperand-type_of x h) (ground arith)

  binary-union_size : (x y : Value) → IsOperand w x → w ≤ 64 → union_size (binary_operation x y) ≡ w
  unfolding union_size
  binary-union_size x y h le = rw (IsOperand-type_of x h) (omega (arith, le))

  propagate_inst-binary :
      (tracked : ℕ → Bool) (n op : ℕ) (x y : Value) (m : Machine)
      → IsOperand w x
      → 1 < w
      → w ≤ 64
      → value_of a x < 2 ^ w
      → value_of a y < 2 ^ w
      → propagate_inst o a tracked n false (Inst.binary op x y) m
        ≡ (on_runtime (
                taint_union
                  (value_label o a m x)
                  (value_label o a m y)
                  op
                  w
                  (value_of a x)
                  (value_of a y))
              >>= set_register n)
            m
  unfolding propagate_inst propagate union_op optional_operand_bits
  propagate_inst-binary tracked n op x y m operand wide small sx sy =
      let t = binary-is_traced x y operand small in
      let f : is_floating_point (type_of x) ≡ false = rw (IsOperand-type_of x operand) refl in
      rw
        (
          f,
          t,
          binary_op-wide op x y operand wide,
          binary-union_size x y operand small,
          value-small m x sx small,
          value-small m y sy small,
        )
        refl

  value_of-small : (v : Value) → IsRegistersOnly a w → IsOperand w v → value_of a v < 2 ^ w
  unfolding value_of
  value_of-small (Value.argument i t) h v = h.arguments i
  value_of-small (Value.instruction k t) h v = h.results k
  value_of-small (Value.constant_int c n) h v = v.1
  value_of-small (Value.constant c t) h v = absurd v

  pub AllMean-update :
      (m : Machine) (n label : ℕ) (r : Runtime)
      → AllMean m
      → Keeps m.runtime r
      → OperandMeans s r label w (a.results n)
      → AllMean (record m { runtime = r; labels = update m.labels n label })
  AllMean-update m n label r h k means = record {
    valid = k.valid;
    arguments = λ i. OperandMeans-Extends s m.runtime r _ w _ h.valid k.extends (h.arguments i);
    results = λ j. elim (Bool-cases (j == n)) [
      | inl here ↦ let e : j ≡ n = ground (arith, here) in rw (here, e) means
      | inr other ↦ rw (other) (
          OperandMeans-Extends s m.runtime r (m.labels j) w (a.results j) h.valid k.extends
            (h.results j))
    ];
  }

  pub step_application-same :
      (n : ℕ) (m : Machine) → IsRegistersOnly a w → step_application a n m ≡ ok tt m
  unfolding step_application
  step_application-same n m h = rw (h.memory n m.runtime.memory) refl

  module _ (only : IsRegistersOnly a w) (native : o.is_native_abi ≡ false) (wide : 1 < w)
      (small : w ≤ 64) where
    -- One operation keeps the meaning of everything, or ends the process.
    pub propagate_inst-Means :
        (n op : ℕ) (x y : Value) (c : Binary) (tracked : ℕ → Bool) (m : Machine)
        → IsOperand w x
        → IsOperand w y
        → IsPlainOp op
        → operation_of op ≡ some c
        → a.results n ≡ s.compute c w (value_of a x) (value_of a y)
        → AllMean m
        → ((m' : Machine) × (propagate_inst o a tracked n false (Inst.binary op x y) m ≡ ok tt m')
            × AllMean m')
          ⊎ ((e : Fault) × (m' : Machine) × (propagate_inst o a tracked n false
                  (Inst.binary op x y)
                  m
                ≡ died e m'))
    propagate_inst-Means n op x y c tracked m hx hy plain_op operation result h =
        let sx = value_of-small x only hx in
        let sy = value_of-small y only hy in
        let run = propagate_inst-binary tracked n op x y m hx wide small sx sy in
        let l1 = value_label o a m x in
        let l2 = value_label o a m y in
        elim (Step-cases (taint_union l1 l2 op w (value_of a x) (value_of a y) m.runtime)) [
          | inl (label, r, e) ↦
              let bound = subst (λ k. k < 2 ^ w) result (only.results n) in
              let means =
                taint_union-OperandMeans s l1 l2 op w (value_of a x) (value_of a y) c m.runtime
                  h.valid plain_op operation wide small bound e (value-Means m x native h hx)
                  (value-Means m y native h hy) in
              let keeps =
                taint_union-Keeps l1 l2 op w (value_of a x) (value_of a y) m.runtime h.valid e in
              inl (
                record m { runtime = r; labels = update m.labels n label },
                run ∙ ground (arith, e),
                AllMean-update m n label r h keeps (rw (result) means),
              )
          | inr (e, r, d) ↦ inr (e, record m { runtime = r }, run ∙ ground (arith, d))
        ]

    -- One operation comes back while there is room, and uses up one label and node at most.
    pub propagate_inst-returns :
        (n op k : ℕ) (x y : Value) (c : Binary) (tracked : ℕ → Bool) (m : Machine)
        → IsOperand w x
        → IsOperand w y
        → IsPlainOp op
        → operation_of op ≡ some c
        → a.results n ≡ s.compute c w (value_of a x) (value_of a y)
        → AllMean m
        → HasSpaceFor (k + 1) m.runtime
        → (m' : Machine) × (propagate_inst o a tracked n false (Inst.binary op x y) m ≡ ok tt m')
          × AllMean m'
          × HasSpaceFor k m'.runtime
    propagate_inst-returns n op k x y c tracked m hx hy plain_op operation result h space =
        let run =
          propagate_inst-binary tracked n op x y m hx wide small (value_of-small x only hx)
            (value_of-small y only hy) in
        let l1 = value_label o a m x in
        let l2 = value_label o a m y in
        let h1 = value-Means m x native h hx in
        let h2 = value-Means m y native h hy in
        let other : op ≢ op_fsize = omega (arith, plain_op, ops.below_last, ops.fits_byte) in
        let le1 : l1 ≤ m.runtime.last_label = ground (arith, h1) in
        let le2 : l2 ≤ m.runtime.last_label = ground (arith, h2) in
        let (label, r, e, left) =
          taint_union-HasSpaceFor l1 l2 op w (value_of a x) (value_of a y) k m.runtime h.valid space
            other le1 le2 in
        let here : propagate_inst o a tracked n false (Inst.binary op x y) m
            ≡ ok tt (record m { runtime = r; labels = update m.labels n label }) =
          run ∙ ground (arith, e) in
        elim (propagate_inst-Means n op x y c tracked m hx hy plain_op operation result h) [
          | inl (m', run', h') ↦
              let same : record m { runtime = r; labels = update m.labels n label } ≡ m' = cc in
              (m', run', h', subst (λ (q : Machine). HasSpaceFor k q.runtime) same left)
          | inr (e', m', died') ↦ absurd (ground (arith, here, died'))
        ]
