-- ===== src/Shadow/Slow.antt =====
-- dfsan.cc: the rounds of the slow path of a load.
use kirenenko.Prelude.{
  ℕ, zero, suc, ◌+◌, ◌-◌, ◌*◌, ◌/◌, ◌≤◌, ◌<◌, ◌≡◌, ◌≢◌, ap, ◌⊎◌, inl, inr, arith, ltb, Bool-cases,
  leb, ltb→lt, ◌==◌,
}
use kirenenko.Word.{u16, sign_extend_char}
use kirenenko.Run.{Step, Fault, ok, died, out_of_fuel, Step-cases, ◌>>=◌}
use kirenenko.Operators.{Opcodes, op_concat}
use kirenenko.Mapping.{app_for}
use kirenenko.UnionTable.{insert}
use kirenenko.Allocator.{allocator_alloc}
use kirenenko.LabelInfo.{LabelInfo}
use kirenenko.Runtime.{Runtime, label_at, dfsan_check_label}
use kirenenko.Labels.{taint_union, union_ordered, intern, new_union, table_insert, union_info}
use kirenenko.Labels.Invariant.{Valid}
use kirenenko.Labels.Union.{Keeps, taint_union-Keeps}
use kirenenko.Shadow.{slow_path}

new_union-ends :
    (info : LabelInfo) (r : Runtime) (e : Fault) (r' : Runtime)
    → new_union info r ≡ died e r'
    → e ≢ out_of_fuel
unfolding new_union table_insert insert allocator_alloc dfsan_check_label
new_union-ends info r e r' run = λ h. ground arith

module _ ⦃ops : Opcodes⦄ where
  taint_union-ends :
      (l1 l2 op size op1 op2 : ℕ) (r : Runtime) (e : Fault) (r' : Runtime)
      → taint_union l1 l2 op size op1 op2 r ≡ died e r'
      → e ≢ out_of_fuel
  unfolding taint_union union_ordered intern
  taint_union-ends l1 l2 op size op1 op2 r e r' run = ground (
    arith,
    new_union-ends (union_info l1 l2 op size op1 op2) r e r',
    new_union-ends (union_info l2 l1 op size op2 op1) r e r',
  )

-- Each label in the shadow of the bytes exists and covers a byte or more.
abbrev pub HasBytes : Runtime → ℕ → ℕ → Type 0
HasBytes r ls n =
    (j : ℕ) → j < n → (label_at r ls j ≤ r.last_label) × (8 ≤ (r.label_info (label_at r ls j)).size)

HasBytes-Keeps : {r r' : Runtime} (ls n : ℕ) → HasBytes r ls n → Keeps r r' → HasBytes r' ls n
HasBytes-Keeps {r} {r'} ls n h k j lt =
    let (le, size) = h j lt in
    let same_label : label_at r' ls j ≡ label_at r ls j =
      ap (λ (f : ℕ → ℕ). f (ls + 4 * j)) k.shadow in
    rw (same_label, k.extends.infos (label_at r ls j) le) (omega (arith, k.extends.last), size)

module _ ⦃ops : Opcodes⦄ where
  slow_path-tail :
      (ls n label x size byte op : ℕ) (r : Runtime) (e : Fault) (r' : Runtime)
      (more : ℕ → Runtime → Step Runtime ℕ)
      → Valid r
      → HasBytes r ls n
      → ((l : ℕ) (s : Runtime) → Valid s → HasBytes s ls n → more l s ≡ died e r' → e ≢ out_of_fuel)
      → (taint_union label x op size 0 byte >>= more) r ≡ died e r'
      → e ≢ out_of_fuel
  slow_path-tail ls n label x size byte op r e r' more v h next run =
      elim (Step-cases (taint_union label x op size 0 byte r)) [
        | inl (l, s, made) ↦
            let k = taint_union-Keeps label x op size 0 byte r v made in
            next l s k.valid (HasBytes-Keeps ls n h k) (rw (made, ◌>>=◌) at run)
        | inr (f, s, ended) ↦
            ground (arith, taint_union-ends label x op size 0 byte r f s ended, ended)
      ]

  slow_path-ends :
      (fuel ls n i label : ℕ) (r : Runtime) (e : Fault) (r' : Runtime)
      → Valid r
      → HasBytes r ls n
      → n ≤ i + fuel
      → slow_path fuel ls n i label r ≡ died e r'
      → e ≢ out_of_fuel
  unfolding slow_path
  slow_path-ends zero ls n i label r e r' v h enough run = absurd (ground arith)
  slow_path-ends (suc fuel) ls n i label r e r' v h enough run =
      let x = label_at r ls i in
      let size = (r.label_info x).size in
      let taken = i + size / 8 in
      let byte = sign_extend_char (r.memory (app_for (ls + 4 * i))) in
      elim (Bool-cases (ltb i n)) [
        | inr done ↦ absurd (ground arith)
        | inl lt ↦ elim (Bool-cases (x == 0)) [
          | inl constant ↦
              slow_path-tail ls n label 0 (u16 ((i + 1) * 8)) byte op_concat r e r'
                (slow_path fuel ls n (i + 1)) v h
                (λ l s w k. slow_path-ends fuel ls n (i + 1) l s e r' w k (omega arith))
                (ground arith)
          | inr tainted ↦ elim (Bool-cases (leb size ((n - i) * 8))) [
            | inl fits ↦
                slow_path-tail ls n label x (u16 (taken * 8)) 0 op_concat r e r'
                  (slow_path fuel ls n taken) v h
                  (λ l s w k.
                    slow_path-ends fuel ls n taken l s e r' w k
                      (omega (arith, h i (omega (arith, ltb→lt i n lt)))))
                  (ground arith)
            | inr wide ↦
                slow_path-tail ls n x 0 (u16 ((n - i) * 8)) 0 ops.op_trunc r e r'
                  (λ trunc. taint_union label trunc op_concat (u16 (n * 8)) 0 0) v h
                  (λ l s w k. taint_union-ends label l op_concat (u16 (n * 8)) 0 0 s e r')
                  (ground arith)
          ]
        ]
      ]

  -- With as many rounds as bytes that are left, and labels that cover a byte or more, the loop
  -- comes to its end: it returns a label, or the process dies, and not for want of rounds.
  pub slow_path-total :
      (fuel ls n i label : ℕ) (r : Runtime)
      → Valid r
      → HasBytes r ls n
      → n ≤ i + fuel
      → ((l : ℕ) × (s : Runtime) × (slow_path fuel ls n i label r ≡ ok l s))
        ⊎ ((e : Fault) × (s : Runtime) × (slow_path fuel ls n i label r ≡ died e s)
            × (e ≢ out_of_fuel))
  slow_path-total fuel ls n i label r v h enough =
      elim (Step-cases (slow_path fuel ls n i label r)) [
        | inl returned ↦ inl returned
        | inr (e, s, run) ↦ inr (e, s, run, slow_path-ends fuel ls n i label r e s v h enough run)
      ]
