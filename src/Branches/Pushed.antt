-- ===== src/Branches/Pushed.antt =====
-- dfsan.cc: what the inputs of one pointer do to the stack and the set of `__solve_cond`.
use kirenenko.Prelude.{
  ℕ, zero, suc, ◌+◌, ◌≤◌, ◌<◌, ◌≡◌, refl, ◌⊎◌, inl, inr, arith, Bool-cases, true, false, List, [],
  ◌∷◌, ◌==◌, if◌then◌else◌,
}
use kirenenko.Process.{count}
use kirenenko.Branches.{member, push_new}

abbrev pub Sub : List ℕ → List ℕ → Type 0
Sub xs ys = (x : ℕ) → member x xs ≡ true → member x ys ≡ true

-- All elements of a list are below a bound.
abbrev pub Below : ℕ → List ℕ → Type 0
Below bound xs = (x : ℕ) → member x xs ≡ true → x < bound

-- How many numbers below a bound are not in a list.
pub missing : ℕ → List ℕ → ℕ
missing zero xs = 0
missing (suc n) xs = (if member n xs then 0 else 1) + missing n xs

missing-above : (n x : ℕ) (xs : List ℕ) → n ≤ x → missing n (x ∷ xs) ≡ missing n xs
unfolding missing
missing-above zero x xs le = refl
missing-above (suc n) x xs le = ground (arith, missing-above n x xs (omega arith))

missing-new :
    (n x : ℕ) (xs : List ℕ) → x < n → member x xs ≡ false → missing n (x ∷ xs) + 1 ≡ missing n xs
unfolding missing
missing-new zero x xs lt h = absurd (omega arith)
missing-new (suc n) x xs lt h = elim (Bool-cases (n == x)) [
  | inl e ↦
      let q : x ≡ n = ground (arith, e) in
      let h2 : member n xs ≡ false = rw q at h in
      ground (arith, missing-above n x xs (omega (arith, q)), h2, e)
  | inr e ↦ ground (arith, missing-new n x xs (ground (arith, e)) h, e)
]

-- What one pointer's inputs do to the stack and the set.
pub record Pushed (bound : ℕ) (deps worklist inputs : List ℕ) (w i : List ℕ) : Type 0 where
  pub grows : Sub inputs i
  pub has : Sub deps i
  pub only : (x : ℕ) → member x i ≡ true → (member x inputs ≡ true) ⊎ (member x deps ≡ true)
  pub stack : Sub worklist w
  pub stacked : (x : ℕ) → member x i ≡ true → (member x inputs ≡ true) ⊎ (member x w ≡ true)
  pub from : (x : ℕ) → member x w ≡ true → (member x worklist ≡ true) ⊎ (member x i ≡ true)
  pub measure : count w + missing bound i ≡ count worklist + missing bound inputs

pub push_new-Pushed :
    (bound : ℕ) (deps worklist inputs : List ℕ)
    → Below bound deps
    → Pushed bound deps worklist inputs
        (push_new deps worklist inputs).0
        (push_new deps worklist inputs).1
unfolding push_new
push_new-Pushed bound [] worklist inputs b = record {
  grows = λ x h. h;
  has = λ x h. absurd (ground (arith, h));
  only = λ x h. inl h;
  stack = λ x h. h;
  stacked = λ x h. inl h;
  from = λ x h. inl h;
  measure = refl;
}
push_new-Pushed bound (d ∷ deps) worklist inputs b = elim (Bool-cases (member d inputs)) [
  | inl old ↦
      let p = push_new-Pushed bound deps worklist inputs (λ x h. b x (ground (arith, h))) in
      rw old (record {
        grows = p.grows;
        has = λ x h. elim (Bool-cases (x == d)) [
          | inl e ↦ p.grows x (let q : x ≡ d = ground (arith, e) in rw q old)
          | inr e ↦ p.has x (ground (arith, h, e))
        ];
        only = λ x h. ground (arith, p.only x h);
        stack = p.stack;
        stacked = p.stacked;
        from = p.from;
        measure = p.measure;
      })
  | inr new ↦
      let p =
        push_new-Pushed bound deps (d ∷ worklist) (d ∷ inputs) (λ x h. b x (ground (arith, h))) in
      rw new (record {
        grows = λ x h. p.grows x (ground (arith, h));
        has = λ x h. elim (Bool-cases (x == d)) [
          | inl e ↦ p.grows x (ground (arith, e))
          | inr e ↦ p.has x (ground (arith, h, e))
        ];
        only = λ x h. ground (arith, p.only x h);
        stack = λ x h. p.stack x (ground (arith, h));
        stacked = λ x h. elim (p.stacked x h) [
          | inl a ↦ elim (Bool-cases (x == d)) [
            | inl e ↦ inr (p.stack x (ground (arith, e)))
            | inr e ↦ inl (ground (arith, a, e))
          ]
          | inr a ↦ inr a
        ];
        from = λ x h. elim (p.from x h) [
          | inl a ↦ elim (Bool-cases (x == d)) [
            | inl e ↦ inr (p.grows x (ground (arith, e)))
            | inr e ↦ inl (ground (arith, a, e))
          ]
          | inr a ↦ inr a
        ];
        measure = omega (arith, p.measure, missing-new bound d inputs (b d (ground arith)) new);
      })
]

pub missing-le : (n : ℕ) (xs : List ℕ) → missing n xs ≤ n
unfolding missing
missing-le zero xs = omega arith
missing-le (suc n) xs = ground (arith, missing-le n xs)
