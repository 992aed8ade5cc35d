-- ===== src/Labels/Has.antt =====
-- dfsan.cc: `dfsan_has_label`, the search of a label for another one in it.
use kirenenko.Prelude.{
  ℕ, zero, suc, ◌+◌, ◌≤◌, ◌<◌, ◌≡◌, ◌≢◌, ◌↔◌, ◌⊎◌, refl, inl, inr, arith, Bool, Bool-cases, true,
  false, not, Option, some, none, ◌==◌, if◌then◌else◌,
}
use kirenenko.Runtime.{Runtime}
use kirenenko.Labels.Invariant.{Valid}

-- With a bound on the depth of its recursion.
unfoldable pub dfsan_has_label : ℕ → Runtime → ℕ → ℕ → Option Bool
dfsan_has_label zero r label elem = none
dfsan_has_label (suc fuel) r label elem =
    let info = r.label_info label in
    let in_l1 = dfsan_has_label fuel r info.l1 elem in
    let in_l2 = dfsan_has_label fuel r info.l2 elem in
    if label == elem
    then some true
    else if not (info.l1 == 0)
    then in_l1
    else if not (info.l2 == 0)
    then in_l2
    else some false

-- The labels on the path that leads to the first operand where that is a label, and to the second
-- one only where it is not.
pub data OnPath (r : Runtime) : ℕ → ℕ → Type 0 where
  here : {l : ℕ} → OnPath r l l
  first :
      {l elem : ℕ} → (r.label_info l).l1 ≢ 0 → OnPath r (r.label_info l).l1 elem → OnPath r l elem
  second :
      {l elem : ℕ}
      → (r.label_info l).l1 ≡ 0
      → (r.label_info l).l2 ≢ 0
      → OnPath r (r.label_info l).l2 elem
      → OnPath r l elem

-- The step from a label that is not the one that is looked for.
OnPath-step :
    (r : Runtime) (l elem : ℕ)
    → OnPath r l elem
    → l ≢ elem
    → (((r.label_info l).l1 ≢ 0) × OnPath r (r.label_info l).l1 elem)
      ⊎ (((r.label_info l).l1 ≡ 0) × ((r.label_info l).l2 ≢ 0) × OnPath r (r.label_info l).l2 elem)
OnPath-step r l elem here ne = absurd (ne refl)
OnPath-step r l elem (first h p) ne = inl (h, p)
OnPath-step r l elem (second h1 h2 p) ne = inr (h1, h2, p)

-- The constant label has no operands.
has_operand-pos :
    (label : ℕ) (r : Runtime)
    → Valid r
    → 0 < (r.label_info label).l1 + (r.label_info label).l2
    → 0 < label
has_operand-pos zero r v h =
    let (c1, c2, _, _, _, _) = v.constant in absurd (omega (arith, c1, c2, h))
has_operand-pos (suc label) r v h = omega arith

-- In a valid state, with more fuel than the number of an existing label, `dfsan_has_label` returns,
-- and says that the label has another one exactly when that is on the path from the label which
-- goes to the second operand only where the first one is no label.
pub dfsan_has_label-OnPath :
    (fuel label elem : ℕ) (r : Runtime)
    → Valid r
    → label ≤ r.last_label
    → label < fuel
    → (b : Bool) × (dfsan_has_label fuel r label elem ≡ some b) × ((b ≡ true) ↔ OnPath r label elem)
unfolding dfsan_has_label
dfsan_has_label-OnPath zero label elem r v le lt = absurd (omega arith)
dfsan_has_label-OnPath (suc fuel) label elem r v le lt = elim (Bool-cases (label == elem)) [
  | inl same ↦
      let q : label ≡ elem = ground (arith, same) in
      (true, ground (arith, same), (λ _. rw q here, λ _. refl))
  | inr other ↦
      let ne : label ≢ elem = ground (arith, other) in
      let info = r.label_info label in
      elim (Bool-cases (info.l1 == 0)) [
        | inr labelled ↦
            let pos : 0 < label = has_operand-pos label r v (ground (arith, labelled)) in
            let (o1, o2) = v.older label pos le in
            let (b, e, f) =
              dfsan_has_label-OnPath fuel info.l1 elem r v (omega arith) (omega arith) in
            (
              b,
              ground (arith, e, other, labelled),
              (
                λ h. first (ground (arith, labelled)) (f.0 h),
                λ p. elim (OnPath-step r label elem p ne) [
                  | inl (_, p2) ↦ f.1 p2
                  | inr (h1, _, _) ↦ absurd (ground (arith, h1, labelled))
                ],
              ),
            )
        | inl none1 ↦ elim (Bool-cases (info.l2 == 0)) [
          | inr labelled ↦
              let pos : 0 < label = has_operand-pos label r v (ground (arith, labelled)) in
              let (o1, o2) = v.older label pos le in
              let (b, e, f) =
                dfsan_has_label-OnPath fuel info.l2 elem r v (omega arith) (omega arith) in
              (
                b,
                ground (arith, e, other, none1, labelled),
                (
                  λ h. second (ground (arith, none1)) (ground (arith, labelled)) (f.0 h),
                  λ p. elim (OnPath-step r label elem p ne) [
                    | inl (h1, _) ↦ absurd (ground (arith, h1, none1))
                    | inr (_, _, p2) ↦ f.1 p2
                  ],
                ),
              )
          | inl none2 ↦ (
            false,
            ground (arith, other, none1, none2),
            (
              λ h. absurd (ground (arith, h)),
              λ p. elim (OnPath-step r label elem p ne) [
                | inl (h1, _) ↦ absurd (ground (arith, h1, none1))
                | inr (_, h2, _) ↦ absurd (ground (arith, h2, none2))
              ],
            ),
          )
        ]
      ]
]
