-- ===== src/Branches/Closure.antt =====
-- dfsan.cc: the set of offsets that `__solve_cond` collects, against the least closed set.
use kirenenko.Prelude.{
  ℕ, zero, suc, ◌+◌, ◌≤◌, ◌<◌, ◌≡◌, refl, ap, subst, ◌∙◌, ◌⊎◌, inl, inr, arith, Bool-cases, true,
  false, Option, none, some, Option-cases, List, [], ◌∷◌, ◌==◌,
}
use kirenenko.Run.{Step, ok, died}
use kirenenko.Z3.{Z3}
use kirenenko.Process.{count}
use kirenenko.Branches.{BranchDep, Session, member, resized, get_branch_dep, push_new, close_inputs}
use kirenenko.Branches.Pushed.{Sub, Below, missing, missing-le, Pushed, push_new-Pushed}

module _ {z : Z3} where
  -- The offsets that the pointer of an offset names.
  abbrev inputs_in : Option (BranchDep z) → List ℕ
  inputs_in none = []
  inputs_in (some dep) = dep.input_deps

  abbrev pub deps_of : Session z → ℕ → List ℕ
  deps_of s off = inputs_in (s.branch_deps off)

  -- The input is a file, and the dependencies of its offsets are offsets of it.
  pub record HasDeps (s : Session z) : Type 0 where
    pub file : s.is_stdin ≡ false
    pub inside : (off : ℕ) → off < s.slots → Below s.slots (deps_of s off)

  abbrev pub Closed : Session z → List ℕ → Type 0
  Closed s xs = (x : ℕ) → member x xs ≡ true → Sub (deps_of s x) xs

  -- The least set that is closed and has `inputs`.
  pub record IsClosure (s : Session z) (inputs r : List ℕ) : Type 0 where
    pub has : Sub inputs r
    pub closed : Closed s r
    pub least : (ys : List ℕ) → Sub inputs ys → Closed s ys → Sub r ys

  -- What holds at the head of the loop.
  record IsPending (s : Session z) (worklist inputs : List ℕ) : Type 0 where
    pub stack : Sub worklist inputs
    pub below : Below s.slots inputs
    pub pending :
        (x : ℕ) → member x inputs ≡ true → (member x worklist ≡ true) ⊎ Sub (deps_of s x) inputs

  get_branch_dep-file :
      (off : ℕ) (s : Session z)
      → HasDeps s
      → off < s.slots
      → get_branch_dep off s ≡ ok (s.branch_deps off) s
  unfolding get_branch_dep resized
  get_branch_dep-file off s h lt = let f = h.file in ground arith

  none-empty :
      (off : ℕ) (s : Session z)
      → s.branch_deps off ≡ none
      → (y : ℕ) → member y (deps_of s off) ≡ true
      → ⊥
  none-empty off s e y k =
      let n : deps_of s off ≡ [] = ap inputs_in e in
      let k2 : member y [] ≡ true = subst (λ l. member y l ≡ true) n k in ground (arith, k2)

  none-step :
      (fuel off : ℕ) (worklist inputs : List ℕ) (s : Session z)
      → get_branch_dep off s ≡ ok none s
      → close_inputs (suc fuel) (off ∷ worklist) inputs s ≡ close_inputs fuel worklist inputs s
  unfolding close_inputs
  none-step fuel off worklist inputs s got =
      ap
        (λ (r : Step (Session z) (Option (BranchDep z))). elim r [
          | died e s' ↦ died e s'
          | ok none s' ↦ close_inputs fuel worklist inputs s'
          | ok (some dep) s' ↦
              close_inputs fuel (push_new dep.input_deps worklist inputs).0
                (push_new dep.input_deps worklist inputs).1 s'
        ])
        got

  some-step :
      (fuel off : ℕ) (worklist inputs : List ℕ) (dep : BranchDep z) (s : Session z)
      → get_branch_dep off s ≡ ok (some dep) s
      → close_inputs (suc fuel) (off ∷ worklist) inputs s
        ≡ close_inputs fuel
            (push_new dep.input_deps worklist inputs).0
            (push_new dep.input_deps worklist inputs).1
            s
  unfolding close_inputs
  some-step fuel off worklist inputs dep s got =
      ap
        (λ (r : Step (Session z) (Option (BranchDep z))). elim r [
          | died e s' ↦ died e s'
          | ok none s' ↦ close_inputs fuel worklist inputs s'
          | ok (some d) s' ↦
              close_inputs fuel (push_new d.input_deps worklist inputs).0
                (push_new d.input_deps worklist inputs).1 s'
        ])
        got

  end-step :
      (fuel : ℕ) (inputs : List ℕ) (s : Session z) → close_inputs fuel [] inputs s ≡ ok inputs s
  unfolding close_inputs
  end-step zero inputs s = refl
  end-step (suc fuel) inputs s = refl

  none-IsPending :
      (off : ℕ) (worklist inputs : List ℕ) (s : Session z)
      → s.branch_deps off ≡ none
      → IsPending s (off ∷ worklist) inputs
      → IsPending s worklist inputs
  none-IsPending off worklist inputs s e i = record {
    stack = λ x h. i.stack x (ground (arith, h));
    below = i.below;
    pending = λ x h. elim (Bool-cases (x == off)) [
      | inl same ↦
          let q : x ≡ off = ground (arith, same) in
          inr (rw q (λ y k. absurd (none-empty off s e y k)))
      | inr other ↦ elim (i.pending x h) [ inl a ↦ inl (ground (arith, a, other)) | inr b ↦ inr b ]
    ];
  }

  some-IsPending :
      (off : ℕ) (worklist inputs w j : List ℕ) (s : Session z)
      → HasDeps s
      → off < s.slots
      → Pushed s.slots (deps_of s off) worklist inputs w j
      → IsPending s (off ∷ worklist) inputs
      → IsPending s w j
  some-IsPending off worklist inputs w j s h lt p i = record {
    stack =
        λ x m. elim (p.from x m) [ inl a ↦ p.grows x (i.stack x (ground (arith, a))) | inr b ↦ b ];
    below = λ x m. elim (p.only x m) [ inl a ↦ i.below x a | inr b ↦ h.inside off lt x b ];
    pending = λ x m. elim (p.stacked x m) [
      | inr b ↦ inl b
      | inl a ↦ elim (Bool-cases (x == off)) [
        | inl same ↦ let q : x ≡ off = ground (arith, same) in inr (rw q p.has)
        | inr other ↦ elim (i.pending x a) [
          | inl c ↦ inl (p.stack x (ground (arith, c, other)))
          | inr d ↦ inr (λ y k. p.grows y (d y k))
        ]
      ]
    ];
  }

  close_inputs-from :
      (fuel : ℕ) (worklist inputs : List ℕ) (s : Session z)
      → HasDeps s
      → IsPending s worklist inputs
      → count worklist + missing s.slots inputs ≤ fuel
      → (r : List ℕ) × (close_inputs fuel worklist inputs s ≡ ok r s) × IsClosure s inputs r
  close_inputs-from fuel [] inputs s h i enough = (
    inputs,
    end-step fuel inputs s,
    record {
      has = λ x m. m;
      closed = λ x m. elim (i.pending x m) [ inl a ↦ absurd (ground (arith, a)) | inr b ↦ b ];
      least = λ ys sub c. sub;
    },
  )
  close_inputs-from zero (off ∷ worklist) inputs s h i enough = absurd (omega arith)
  close_inputs-from (suc fuel) (off ∷ worklist) inputs s h i enough =
      let here : member off inputs ≡ true = i.stack off (ground arith) in
      let lt = i.below off here in
      let got = get_branch_dep-file off s h lt in
      elim (Option-cases (s.branch_deps off)) [
        | inl e ↦
            let (r, run, c) =
              close_inputs-from fuel worklist inputs s h (none-IsPending off worklist inputs s e i)
                (omega arith) in
            (r, none-step fuel off worklist inputs s (got ∙ ap (λ o. ok o s) e) ∙ run, c)
        | inr (dep, e) ↦
            let named : deps_of s off ≡ dep.input_deps = ap inputs_in e in
            let p =
              push_new-Pushed s.slots dep.input_deps worklist inputs
                (rw (← named) (h.inside off lt)) in
            let p2 : Pushed s.slots (deps_of s off) worklist inputs
                (push_new dep.input_deps worklist inputs).0
                (push_new dep.input_deps worklist inputs).1 =
              rw named p in
            let (r, run, c) =
              close_inputs-from fuel (push_new dep.input_deps worklist inputs).0
                (push_new dep.input_deps worklist inputs).1 s h
                (some-IsPending off worklist inputs _ _ s h lt p2 i) (omega (arith, p.measure)) in
            (
              r,
              some-step fuel off worklist inputs dep s (got ∙ ap (λ o. ok o s) e) ∙ run,
              record {
                has = λ x m. c.has x (p.grows x m);
                closed = c.closed;
                least = λ ys sub cl.
                    c.least ys
                      (λ x m. elim (p2.only x m) [
                        | inl a ↦ sub x a
                        | inr b ↦ cl off (sub off here) x b
                      ])
                      cl;
              },
            )
      ]

  -- Where the input is a file, the dependencies name offsets of it, and the condition depends on
  -- offsets of it, the loop ends after as many rounds as there are such offsets and offsets in
  -- the file, changes no state, and collects the least set of offsets that has the given ones
  -- and, with an offset, all that its dependencies name.
  pub close_inputs-IsClosure :
      (fuel : ℕ) (inputs : List ℕ) (s : Session z)
      → HasDeps s
      → Below s.slots inputs
      → count inputs + s.slots ≤ fuel
      → (r : List ℕ) × (close_inputs fuel inputs inputs s ≡ ok r s) × IsClosure s inputs r
  close_inputs-IsClosure fuel inputs s h below enough =
      close_inputs-from fuel inputs inputs s h
        (record { stack = λ x m. m; below = below; pending = λ x m. inl m })
        (omega (arith, missing-le s.slots inputs))
