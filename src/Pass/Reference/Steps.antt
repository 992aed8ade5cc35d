-- ===== src/Pass/Reference/Steps.antt =====
-- Each piece of code that TaintPass.cc inserts, against the propagation of every label.
use kirenenko.Prelude.{
  ℕ, ◌+◌, ◌≡◌, ◌≢◌, refl, arith, Bool-cases, true, false, ◌&&◌, ◌⊎◌, inl, inr, [], ◌∷◌,
}
use kirenenko.Run.{Step, Run, Step-cases, ok, pure, ◌>>=◌, ◌>>◌}
use kirenenko.Operators.{Opcodes, op_fsize}
use kirenenko.Runtime.{Runtime}
use kirenenko.Labels.{taint_union}
use kirenenko.Pass.{
  Shadow, zero_shadow, of_argument, of_instruction, is_zero, Code, Options, TaintFunction,
  set_shadow,
}
use kirenenko.Pass.Combine.{Operation, is_traced, union_op, union_size, combine_shadows}
use kirenenko.Pass.Machine.{
  Machine, Application, label_of, operand_bits, optional_operand_bits, on_runtime, set_register,
  exec_code, exec,
}
use kirenenko.Labels.Returns.{taint_union-zero}
use kirenenko.Pass.Reference.{propagate}
use kirenenko.Pass.Reference.Relation.{
  Agrees, EndAlike, EndAlike-ok, EndAlike-died, Agrees-register, Agrees-shadow,
}

pub is_zero-eq : (s : Shadow) → is_zero s ≡ true → s ≡ zero_shadow
is_zero-eq zero_shadow h = refl
is_zero-eq (of_instruction k) h = cc
is_zero-eq (of_argument k) h = cc

-- The three ways in which `combine_shadows` ends.
combine_shadows-cases :
    (o : Options) (n : ℕ) (v1 v2 : Shadow) (op : ℕ) (i : Operation)
    → let call = Code.call_union n v1 v2 (union_op op i) (union_size i) i.operand0 i.operand1 in
      ((v1 ≡ zero_shadow)
        × (v2 ≡ zero_shadow)
        × (combine_shadows o n v1 v2 op i ≡ ([], zero_shadow)))
      ⊎ ((is_traced o i ≡ false) × (combine_shadows o n v1 v2 op i ≡ ([], zero_shadow)))
      ⊎ ((is_traced o i ≡ true) × (combine_shadows o n v1 v2 op i ≡ (call ∷ [], of_instruction n)))
unfolding combine_shadows
combine_shadows-cases o n v1 v2 op i = elim (Bool-cases (is_zero v1 && is_zero v2)) [
  | inl e ↦
      let e1 = is_zero-eq v1 (ground (arith, e)) in
      inl (e1, is_zero-eq v2 (ground (arith, e)), ground (arith, e, e1))
  | inr e ↦ elim (Bool-cases (is_traced o i)) [
    | inl t ↦ inr (inr (t, ground (arith, e)))
    | inr t ↦ inr (inl (t, ground (arith, e)))
  ]
]

module _ ⦃ops : Opcodes⦄ {o : Options} {a : Application} {tf : TaintFunction} {n : ℕ}
    {m r : Machine} (h : Agrees o a tf n m r) where
  -- A call of the runtime whose result is the label of the instruction.
  pub call-EndAlike :
      (f : Run Runtime ℕ)
      → EndAlike o a
          (set_shadow n (of_instruction n) tf)
          (n + 1)
          (((on_runtime f >>= set_register n) >> pure tt) m)
          ((on_runtime f >>= set_register n) r)
  call-EndAlike f = elim (Step-cases (f m.runtime)) [
    | inl (l, run, e) ↦
        EndAlike-ok (ground (arith, e)) (ground (arith, e, h.runtime)) (Agrees-register h run l)
    | inr (x, run, e) ↦
        EndAlike-died o a (set_shadow n (of_instruction n) tf) (n + 1) (record m { runtime = run })
          (record r { runtime = run }) x (ground (arith, e)) (ground (arith, e, h.runtime)) refl
  ]

  -- A label of the instruction that needs no call here.
  pub zero-EndAlike :
      {y : Step Machine (Unit {0})}
      → y ≡ set_register n 0 r
      → EndAlike o a (set_shadow n zero_shadow tf) (n + 1) (ok tt m) y
  unfolding label_of
  zero-EndAlike e = EndAlike-ok refl e (Agrees-shadow h zero_shadow 0 tt refl)

  -- Where nothing is tainted the runtime would answer zero, too.
  propagate-zero :
      (op : ℕ) (i : Operation)
      → union_op op i ≢ op_fsize
      → propagate o a n 0 0 op i r ≡ set_register n 0 r
  unfolding propagate
  propagate-zero op i known =
      let e =
        taint_union-zero (union_op op i) (union_size i) (operand_bits a i.operand0)
          (optional_operand_bits a i.operand1) r.runtime known in
      elim (Bool-cases (is_traced o i)) [ inl t ↦ ground (arith, e) | inr t ↦ ground arith ]

  pub combine_shadows-EndAlike :
      (v1 v2 : Shadow) (op : ℕ) (i : Operation)
      → union_op op i ≢ op_fsize
      → EndAlike o a
          (set_shadow n (combine_shadows o n v1 v2 op i).1 tf)
          (n + 1)
          (exec a (combine_shadows o n v1 v2 op i).0 m)
          (propagate o a n (label_of a m v1) (label_of a m v2) op i r)
  unfolding exec exec_code propagate label_of
  combine_shadows-EndAlike v1 v2 op i known = elim (combine_shadows-cases o n v1 v2 op i) [
    | inl (e1, e2, e) ↦ rw (e, e1, e2) (zero-EndAlike (propagate-zero op i known))
    | inr (inl (t, e)) ↦ rw (e) (zero-EndAlike (ground (arith, t)))
    | inr (inr (t, e)) ↦
        rw (e, t)
          (call-EndAlike (
            taint_union (label_of a m v1) (label_of a m v2) (union_op op i) (union_size i)
              (operand_bits a i.operand0) (optional_operand_bits a i.operand1)))
  ]
