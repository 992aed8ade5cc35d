-- ===== src/Pass/Reference/Traces.antt =====
-- The calls that trace branches, cases and indices, `select`, and the calls on blocks of memory,
-- as TaintPass.cc inserts them.
use kirenenko.Prelude.{
  ℕ, ◌+◌, ◌≡◌, refl, sym, ap, ◌∙◌, subst, arith, Bool, Bool-cases, true, false, not, ◌&&◌, inl, inr,
  List, [], ◌∷◌, ◌==◌, if◌then◌else◌, update,
}
use kirenenko.Run.{ok}
use kirenenko.Operators.{Opcodes}
use kirenenko.Pass.{
  Value, type_of, size_in_bits, Shadow, zero_shadow, of_argument, of_instruction, is_zero,
  is_same_shadow, Code, Options, TaintFunction, get_shadow, set_shadow,
}
use kirenenko.Pass.Combine.{visit_condition}
use kirenenko.Pass.Visit.{
  trace_cases, visit_switch_inst, trace_indices, is_vector, visit_select_inst,
}
use kirenenko.Pass.Machine.{
  Machine, Application, Event, traced_cond, traced_cmp, traced_gep, report, label_of, value_of,
  operand_bits, exec_code, exec,
}
use kirenenko.Pass.Reference.{
  value_label, trace_condition, trace_each_case, trace_each_index, select_label,
}
use kirenenko.Pass.Reference.Relation.{
  Agrees, EndAlike, EndAlike-ok, Agrees-label, Agrees-label_register, Agrees-shadow, Agrees-rest,
  get_shadow-IsBefore, label_of-update, label_of-labels,
}
use kirenenko.Pass.Reference.Steps.{zero-EndAlike, is_zero-eq}

-- Both report the same event.
report-Agrees :
    {o : Options} {a : Application} {tf : TaintFunction} {n : ℕ} {m r : Machine}
    → Agrees o a tf n m r
    → (tainted : Bool) (e : Event)
    → Agrees o a tf n
        (record m { events = if tainted then e ∷ m.events else m.events })
        (record r { events = if tainted then e ∷ r.events else r.events })
report-Agrees {m = m} {r} h tainted e =
    Agrees-rest h (record m { events = if tainted then e ∷ m.events else m.events })
      (record r { events = if tainted then e ∷ r.events else r.events }) refl refl
      (
        h.runtime,
        h.alloca_labels,
        h.retval_tls,
        ap (λ (es : List Event). if tainted then e ∷ es else es) h.events,
      )

-- What is not tainted for the pass has the label zero.
zero-label :
    {o : Options} {a : Application} {tf : TaintFunction} {n : ℕ} {m r : Machine} (v : Value)
    → Agrees o a tf n m r
    → is_zero (get_shadow o tf v) ≡ true
    → value_label o a r v ≡ 0
unfolding label_of
zero-label {o} {a} {tf} {n} {m} {r} v h z =
    sym (Agrees-label h v) ∙ ap (label_of a m) (is_zero-eq (get_shadow o tf v) z)

and_true : (b : Bool) → (b && true) ≡ b
and_true true = refl
and_true false = refl

is_same_shadow-eq : (s s' : Shadow) → is_same_shadow s s' ≡ true → s ≡ s'
is_same_shadow-eq zero_shadow zero_shadow h = refl
is_same_shadow-eq zero_shadow (of_argument k) h = cc
is_same_shadow-eq zero_shadow (of_instruction k) h = cc
is_same_shadow-eq (of_argument i) zero_shadow h = cc
is_same_shadow-eq (of_argument i) (of_argument k) h = ground arith
is_same_shadow-eq (of_argument i) (of_instruction k) h = cc
is_same_shadow-eq (of_instruction i) zero_shadow h = cc
is_same_shadow-eq (of_instruction i) (of_argument k) h = cc
is_same_shadow-eq (of_instruction i) (of_instruction k) h = ground arith

module _ ⦃ops : Opcodes⦄ (o : Options) (a : Application) (tf : TaintFunction) (n : ℕ) where
  -- The code for a condition whose shadow stands for the label `l`.
  visit_condition-exec :
      (c : Value) (m : Machine) (l : ℕ)
      → label_of a m (get_shadow o tf c) ≡ l
      → exec a (visit_condition o tf c) m ≡ report (not (l == 0)) (traced_cond l (value_of a c)) m
  unfolding visit_condition exec exec_code label_of
  visit_condition-exec c m l e = elim (Bool-cases (is_zero (get_shadow o tf c))) [
    | inl z ↦
        let zero_label : l ≡ 0 = sym e ∙ ap (label_of a m) (is_zero-eq (get_shadow o tf c) z) in
        ground (arith, z, zero_label)
    | inr z ↦ ground (arith, z, e)
  ]

  pub visit_condition-EndAlike :
      (c : Value) (m r : Machine)
      → Agrees o a tf n m r
      → EndAlike o a tf n (exec a (visit_condition o tf c) m) (trace_condition o a c r)
  unfolding trace_condition
  visit_condition-EndAlike c m r h =
      EndAlike-ok (visit_condition-exec c m (value_label o a r c) (Agrees-label h c)) refl (
        report-Agrees h (not (value_label o a r c == 0))
          (traced_cond (value_label o a r c) (value_of a c)))

  trace_each_case-zero :
      (c : Value) (cases : List ℕ) (r : Machine)
      → value_label o a r c ≡ 0
      → trace_each_case o a c cases r ≡ ok tt r
  unfolding trace_each_case
  trace_each_case-zero c [] r z = refl
  trace_each_case-zero c (v ∷ cases) r z = rw (z) (trace_each_case-zero c cases r z)

  trace_cases-EndAlike :
      (c : Value) (cases : List ℕ) (m r : Machine)
      → Agrees o a tf n m r
      → EndAlike o a tf n
          (exec a (trace_cases (get_shadow o tf c) c cases) m)
          (trace_each_case o a c cases r)
  unfolding trace_cases trace_each_case exec exec_code label_of
  trace_cases-EndAlike c [] m r h = h
  trace_cases-EndAlike c (v ∷ cases) m r h =
      let l = value_label o a r c in
      let w = size_in_bits (type_of c) in
      let e = traced_cmp l w 32 (operand_bits a c) (operand_bits a (Value.constant_int v w)) in
      rw (Agrees-label h c, and_true (l == 0))
        (trace_cases-EndAlike c cases
          (record m { events = if not (l == 0) then e ∷ m.events else m.events })
          (record r { events = if not (l == 0) then e ∷ r.events else r.events })
          (report-Agrees h (not (l == 0)) e))

  pub visit_switch_inst-EndAlike :
      (c : Value) (cases : List ℕ) (m r : Machine)
      → Agrees o a tf n m r
      → EndAlike o a tf n
          (exec a (visit_switch_inst o tf c cases) m)
          (trace_each_case o a c cases r)
  unfolding visit_switch_inst exec
  visit_switch_inst-EndAlike c cases m r h = elim (Bool-cases (is_zero (get_shadow o tf c))) [
    | inl z ↦ EndAlike-ok (ground (arith, z)) (trace_each_case-zero c cases r (zero-label c h z)) h
    | inr z ↦
        subst (λ (x : List Code). EndAlike o a tf n (exec a x m) (trace_each_case o a c cases r))
          (ground (arith, z)) (trace_cases-EndAlike c cases m r h)
  ]

  pub trace_indices-EndAlike :
      (is : List Value) (m r : Machine)
      → Agrees o a tf n m r
      → EndAlike o a tf n (exec a (trace_indices o tf is) m) (trace_each_index o a is r)
  unfolding trace_indices trace_each_index exec exec_code
  trace_indices-EndAlike [] m r h = h
  trace_indices-EndAlike (i ∷ is) m r h =
      let l = value_label o a r i in
      let e = traced_gep l (operand_bits a i) in
      elim (Bool-cases (is_zero (get_shadow o tf i))) [
        | inl z ↦ rw (z, zero-label i h z) (trace_indices-EndAlike is m r h)
        | inr z ↦
            rw (z, Agrees-label h i)
              (trace_indices-EndAlike is
                (record m { events = if not (l == 0) then e ∷ m.events else m.events })
                (record r { events = if not (l == 0) then e ∷ r.events else r.events })
                (report-Agrees h (not (l == 0)) e))
      ]

  -- The label of the operand that the condition selects.
  selected-label :
      (c t f : Value) (m r : Machine)
      → Agrees o a tf n m r
      → (if value_of a c == 1
          then label_of a m (get_shadow o tf t)
          else label_of a m (get_shadow o tf f))
        ≡ value_label o a r (if value_of a c == 1 then t else f)
  selected-label c t f m r h = elim (Bool-cases (value_of a c == 1)) [
    | inl e ↦ rw (e) (Agrees-label h t)
    | inr e ↦ rw (e) (Agrees-label h f)
  ]

  -- As before, where both operands have the same shadow.
  same-label :
      (c t f : Value) (m r : Machine)
      → Agrees o a tf n m r
      → get_shadow o tf t ≡ get_shadow o tf f
      → label_of a m (get_shadow o tf t) ≡ value_label o a r (if value_of a c == 1 then t else f)
  same-label c t f m r h same = elim (Bool-cases (value_of a c == 1)) [
    | inl e ↦ rw (e) (Agrees-label h t)
    | inr e ↦ rw (e) (ap (label_of a m) same ∙ Agrees-label h f)
  ]

  pub visit_select_inst-EndAlike :
      (c t f : Value) (m r : Machine)
      → Agrees o a tf n m r
      → EndAlike o a
          (set_shadow n (visit_select_inst o tf n c t f).1 tf)
          (n + 1)
          (exec a (visit_select_inst o tf n c t f).0 m)
          (select_label o a n c t f r)
  unfolding visit_select_inst select_label trace_condition exec exec_code
  visit_select_inst-EndAlike c t f m r h =
      let s = get_shadow o tf t in
      let s' = get_shadow o tf f in
      let l = value_label o a r c in
      let e = traced_cond l (value_of a c) in
      let g = report-Agrees h (not (l == 0)) e in
      let m' = record m { events = if not (l == 0) then e ∷ m.events else m.events } in
      let chosen = selected-label c t f m r h in
      elim (Bool-cases (is_vector (type_of c))) [
        | inl v ↦ rw (v) (zero-EndAlike h refl)
        | inr v ↦ elim (Bool-cases (is_same_shadow s s')) [
          | inl same ↦
              rw (v, same)
                (EndAlike-ok (visit_condition-exec c m l (Agrees-label h c)) refl (
                  Agrees-shadow g s (value_label o a r (if value_of a c == 1 then t else f))
                    (get_shadow-IsBefore h t)
                    (label_of-labels a m m' s refl
                      ∙ same-label c t f m r h (is_same_shadow-eq s s' same))))
          | inr other ↦
              rw (v, other)
                (EndAlike-ok
                  (visit_condition-exec c
                    (record m {
                      labels =
                          update m.labels n
                            (if value_of a c == 1 then label_of a m s else label_of a m s');
                    })
                    l
                    (label_of-update a n m m.runtime
                        (if value_of a c == 1 then label_of a m s else label_of a m s')
                        (get_shadow o tf c) (get_shadow-IsBefore h c)
                      ∙ Agrees-label h c))
                  refl (Agrees-label_register g chosen))
        ]
      ]
