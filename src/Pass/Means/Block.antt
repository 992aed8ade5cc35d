-- ===== src/Pass/Means/Block.antt =====
-- TaintPass.cc and dfsan.cc together: what the labels of an instrumented block mean.
use kirenenko.Labels.Returns.{HasSpaceFor}
use kirenenko.Prelude.{
  ap, length, ℕ, ◌+◌, ◌≤◌, ◌<◌, ◌≡◌, refl, sym, ◌∙◌, subst, arith, Bool, false, inl, inr, none,
  some, List, [], ◌∷◌, ◌++◌, All,
}
use kirenenko.Run.{Fault, ok, died, >>=-ok}
use kirenenko.Operators.{Opcodes}
use kirenenko.Labels.Invariant.{Valid}
use kirenenko.Z3.{Z3}
use kirenenko.Expressions.Meaning.{Semantics, OperandMeans}
use kirenenko.Pass.{Value, Inst, Options}
use kirenenko.Pass.Machine.{Machine, Application, Observed, observe, value_of, step_application}
use kirenenko.Pass.Reference.{value_label, propagate_inst, tracked_after, propagate_block}
use kirenenko.Pass.Reference.Insts.{IsLlvm}
use kirenenko.Pass.Reference.Block.{instrument-propagate_block}
use kirenenko.Pass.Means.{IsOperand, IsRegistersOnly, IsArithmeticBlock, returned}
use kirenenko.Pass.Means.Operation.{
  AllMean, value-Means, step_application-same, propagate_inst-Means, propagate_inst-returns,
}

module _ ⦃ops : Opcodes⦄ {z : Z3} (s : Semantics z) (o : Options) (a : Application) (w : ℕ) where
  IsArithmeticBlock-IsLlvm :
      (is : List (Bool × Inst)) (n : ℕ) (v : Value)
      → IsArithmeticBlock s a w n is
      → All (λ i. IsLlvm i.1) (is ++ (false, Inst.ret (some v)) ∷ [])
  IsArithmeticBlock-IsLlvm [] n v block = (tt, tt)
  IsArithmeticBlock-IsLlvm ((b, Inst.binary op x y) ∷ is) n v ((e, hx, hy, plain_op), c, block) =
      (plain_op.1, IsArithmeticBlock-IsLlvm is (n + 1) v block)
  IsArithmeticBlock-IsLlvm ((b, i) ∷ is) n v block = absurd block

  -- The label of the result means the result, when the process is still there.
  abbrev ResultMeans : Value → Observed → Type 0
  ResultMeans v x = x.fault ≡ none → OperandMeans s x.runtime x.retval_tls w (value_of a v)

  propagate_block-ret :
      (n : ℕ) (v : Value) (tracked : ℕ → Bool) (m : Machine)
      → IsRegistersOnly a w
      → o.is_native_abi ≡ false
      → propagate_block o a tracked n ((false, Inst.ret (some v)) ∷ []) m
        ≡ ok tt (record m { retval_tls = value_label o a m v })
  unfolding propagate_block propagate_inst
  propagate_block-ret n v tracked m only native =
      let same =
        step_application-same s o a w n (record m { retval_tls = value_label o a m v }) only in
      ground (arith, native, same)

  propagate_block-ok :
      (is : List (Bool × Inst)) (n op : ℕ) (x y : Value) (tracked : ℕ → Bool) (m m' : Machine)
      → IsRegistersOnly a w
      → propagate_inst o a tracked n false (Inst.binary op x y) m ≡ ok tt m'
      → propagate_block o a tracked n ((false, Inst.binary op x y) ∷ is) m
        ≡ propagate_block o a tracked (n + 1) is m'
  unfolding propagate_block tracked_after
  propagate_block-ok is n op x y tracked m m' only run =
      >>=-ok (propagate_inst o a tracked n false (Inst.binary op x y)) _ run
      ∙ >>=-ok (step_application a n) _ (step_application-same s o a w n m' only)

  propagate_block-died :
      (is : List (Bool × Inst)) (n op : ℕ) (x y : Value) (tracked : ℕ → Bool) (m m' : Machine)
      (e : Fault)
      → propagate_inst o a tracked n false (Inst.binary op x y) m ≡ died e m'
      → propagate_block o a tracked n ((false, Inst.binary op x y) ∷ is) m ≡ died e m'
  unfolding propagate_block
  propagate_block-died is n op x y tracked m m' e run = ground (arith, run)

  module _ (only : IsRegistersOnly a w) (native : o.is_native_abi ≡ false) (wide : 1 < w)
      (small : w ≤ 64) where
    propagate_block-Means :
        (is : List (Bool × Inst)) (n : ℕ) (v : Value) (tracked : ℕ → Bool) (m : Machine)
        → IsArithmeticBlock s a w n is
        → IsOperand w v
        → AllMean s o a w m
        → ResultMeans v
            (observe (propagate_block o a tracked n (is ++ (false, Inst.ret (some v)) ∷ []) m))
    unfolding observe
    propagate_block-Means [] n v tracked m block operand h =
        rw (propagate_block-ret n v tracked m only native)
          (λ none'. value-Means s o a w m v native h operand)
    propagate_block-Means ((b, Inst.binary op x y) ∷ is) n v tracked m
          ((e, hx, hy, plain_op), (c, operation, result), block) operand h =
        let rest = is ++ (false, Inst.ret (some v)) ∷ [] in
        rw (e)
          (elim (propagate_inst-Means s o a w only native wide small n op x y c tracked m hx hy
            plain_op operation result h) [
              | inl (m', run, h') ↦
                  rw (propagate_block-ok rest n op x y tracked m m' only run)
                    (propagate_block-Means is (n + 1) v tracked m' block operand h')
              | inr (e, m', run) ↦
                  rw (propagate_block-died rest n op x y tracked m m' e run)
                    (λ none'. absurd (ground (arith, none')))
            ])
    propagate_block-Means ((b, i) ∷ is) n v tracked m block operand h = absurd block

    propagate_block-returns :
        (is : List (Bool × Inst)) (n : ℕ) (v : Value) (tracked : ℕ → Bool) (m : Machine)
        → IsArithmeticBlock s a w n is
        → AllMean s o a w m
        → HasSpaceFor (length is) m.runtime
        → (observe (propagate_block o a tracked n (is ++ (false, Inst.ret (some v)) ∷ []) m)).fault
          ≡ none
    unfolding observe
    propagate_block-returns [] n v tracked m block h space =
        rw (propagate_block-ret n v tracked m only native) refl
    propagate_block-returns ((b, Inst.binary op x y) ∷ is) n v tracked m
          ((e, hx, hy, plain_op), (c, operation, result), block) h space =
        let rest = is ++ (false, Inst.ret (some v)) ∷ [] in
        let (m', run, h', left) =
          propagate_inst-returns s o a w only native wide small n op (length is) x y c tracked m hx
            hy plain_op operation result h space in
        rw (e, propagate_block-ok rest n op x y tracked m m' only run)
          (propagate_block-returns is (n + 1) v tracked m' block h' left)
    propagate_block-returns ((b, i) ∷ is) n v tracked m block h space = absurd block

    unlabelled-AllMean :
        (m : Machine)
        → Valid m.runtime
        → ((i : ℕ) → OperandMeans s m.runtime (a.argument_labels i) w (a.arguments i))
        → AllMean s o a w (record m { labels = λ k. 0 })
    unlabelled-AllMean m valid arguments = record {
      valid = valid;
      arguments = arguments;
      results = λ k. inl (refl, only.results k);
    }

    -- For a block of binary operations, all of them on integers of one width of 2 to 64 bits, which
    -- is also the width of all arguments, that ends with the return of a value of this width, in a
    -- function that has labels, on an execution that leaves the memory alone and whose results are
    -- what the operations compute: from a valid state in which the label of each argument means the
    -- argument or is zero, if the instrumented code ends without a fault, the label of the result
    -- means the result of the block or is zero. The laws of Semantics are assumed of Z3.
    pub instrument-Means :
        (is : List (Bool × Inst)) (v : Value) (m : Machine)
        → IsArithmeticBlock s a w 0 is
        → IsOperand w v
        → Valid m.runtime
        → ((i : ℕ) → OperandMeans s m.runtime (a.argument_labels i) w (a.arguments i))
        → (returned o a is v m).fault ≡ none
        → OperandMeans s
            (returned o a is v m).runtime
            (returned o a is v m).retval_tls
            w
            (value_of a v)
    instrument-Means is v m block operand valid arguments =
        let whole = is ++ (false, Inst.ret (some v)) ∷ [] in
        let same = instrument-propagate_block o a whole m (IsArithmeticBlock-IsLlvm is 0 v block) in
        subst (ResultMeans v) (sym same) (
          propagate_block-Means is 0 v (λ k. false) (record m { labels = λ k. 0 }) block operand
            (unlabelled-AllMean m valid arguments))

    -- The instrumented code of a block of binary operations, all of them on integers of one width
    -- of 2 to 64 bits, which is also the width of all arguments, that ends with the return of a
    -- value, in a function that has labels, on an execution that leaves the memory alone and whose
    -- results are what the operations compute, ends without a fault, from a valid state that has
    -- room for one more label and node for each of the operations, and in which the label of each
    -- argument means the argument or is zero. The laws of Semantics are assumed of Z3.
    pub instrument-returns :
        (is : List (Bool × Inst)) (v : Value) (m : Machine)
        → IsArithmeticBlock s a w 0 is
        → Valid m.runtime
        → ((i : ℕ) → OperandMeans s m.runtime (a.argument_labels i) w (a.arguments i))
        → HasSpaceFor (length is) m.runtime
        → (returned o a is v m).fault ≡ none
    instrument-returns is v m block valid arguments space =
        let whole = is ++ (false, Inst.ret (some v)) ∷ [] in
        let same = instrument-propagate_block o a whole m (IsArithmeticBlock-IsLlvm is 0 v block) in
        ap (λ (x : Observed). x.fault) same
        ∙ propagate_block-returns is 0 v (λ k. false) (record m { labels = λ k. 0 }) block
            (unlabelled-AllMean m valid arguments) space
