-- ===== src/Branches/Flipped.antt =====
-- dfsan.cc: the mark that `__solve_cond` and `add_constraints` leave on a label.
use kirenenko.Prelude.{
  ℕ, ◌+◌, ◌*◌, ◌/◌, ◌%◌, ◌^◌, ◌≡◌, refl, ap, inl, inr, arith, bit_or, Bool, Bool-cases, true,
  Option, none, some, [], ◌==◌, if◌then◌else◌,
}
use kirenenko.Word.Bits.{or-split}
use kirenenko.Run.{Step, ok, died, Step-cases}
use kirenenko.Operators.{Opcodes}
use kirenenko.Z3.{Z3, Binary}
use kirenenko.Branches.{Session, close_inputs}
use kirenenko.Expressions.{serialize}
use kirenenko.Branches.Solve.{
  Attempt, ◌>>=◌, in_world, plainly, give, flip, add_deps, Solver, is_flipped, mark_flipped,
  constrain, add_constraints, solve, solve_cond,
}

or-one-odd : (f : ℕ) → bit_or f 1 % 2 ≡ 1
or-one-odd f = elim (Bool-cases (f % 2 == 0)) [
  | inl e ↦
      let p : f ≡ (f / 2) * 2 ^ 1 + 0 = ground (arith, e) in
      ground (arith, ap (λ t. bit_or t 1) p, or-split 1 (f / 2) 0 0 1 (omega arith) (omega arith))
  | inr e ↦
      let p : f ≡ (f / 2) * 2 ^ 1 + 1 = ground (arith, e) in
      ground (arith, ap (λ t. bit_or t 1) p, or-split 1 (f / 2) 0 1 1 (omega arith) (omega arith))
]

-- The rest of a bind that came to its end.
after-bind :
    {z : Z3} {A B : Type 0} (m : Attempt z A) (f : A → Attempt z B) (s : Session z)
    {s'' : Session z} {b : B}
    → (m >>= f) s ≡ ok (some b) s''
    → (a : A) × (s' : Session z) × (f a s' ≡ ok (some b) s'')
after-bind m f s {s''} {b} h = on (m s) h
  where
    on :
        (r : Step (Session _) (Option _))
        → (elim r [ ok (some a) s' ↦ f a s' | ok none s' ↦ ok none s' | died e s' ↦ died e s' ])
          ≡ ok (some b) s''
        → (a : _) × (s' : Session _) × (f a s' ≡ ok (some b) s'')
    on (ok (some a) s') e = (a, s', e)
    on (ok none s') e = absurd (ground (arith, e))
    on (died x s') e = absurd (ground (arith, e))

module _ {z : Z3} where
  is_flipped-mark : (label : ℕ) (s : Session z) → is_flipped label (mark_flipped label s) ≡ true
  unfolding is_flipped mark_flipped
  is_flipped-mark label s = ground (arith, or-one-odd (s.world.runtime.label_info label).flags)

module _ {z : Z3} (solver : Solver z) ⦃ops : Opcodes⦄ where
  solve-flips :
      (fuel rounds label : ℕ) (result : z.Expr) (nested : Bool) (s s' : Session z)
      → solve solver fuel rounds label result nested s ≡ ok (some tt) s'
      → is_flipped label s' ≡ true
  unfolding solve
  solve-flips fuel rounds label result nested s s' h =
      let ((cond, direct), s1, h1) = after-bind (in_world (serialize z fuel label [])) _ s h in
      let (inputs, s2, h2) = after-bind (plainly (close_inputs rounds direct direct)) _ s1 h1 in
      let (target, s3, h3) = after-bind (give (z.binary Binary.not_equal cond result)) _ s2 h2 in
      let (_, s4, h4) = after-bind (flip solver target inputs) _ s3 h3 in
      let (_, t, h5) =
        after-bind
          (if nested
            then add_deps solver inputs inputs (z.binary Binary.equal cond result)
            else give (some tt))
          _ s4 h4 in
      let e : mark_flipped label t ≡ s' = cc h5 in rw e at (is_flipped-mark label t)

  -- When an attempt to solve a condition came to its end without an exception, `__solve_cond` does
  -- nothing more for its label.
  pub solve_cond-once :
      (fuel rounds label : ℕ) (result : z.Expr) (nested : Bool) (s s' : Session z)
      → solve solver fuel rounds label result nested s ≡ ok (some tt) s'
      → (fuel' rounds' : ℕ) (result' : z.Expr) (nested' : Bool)
      → solve_cond solver fuel' rounds' label result' nested' s' ≡ ok tt s'
  unfolding solve_cond
  solve_cond-once fuel rounds label result nested s s' h fuel' rounds' result' nested' =
      rw (solve-flips fuel rounds label result nested s s' h) refl

  -- After `add_constraints` has returned for a label, neither it nor `__solve_cond` does anything
  -- more for that label.
  pub add_constraints-once :
      (fuel label : ℕ) (s s' : Session z)
      → add_constraints solver fuel label s ≡ ok tt s'
      → (fuel' rounds' : ℕ) (result' : z.Expr) (nested' : Bool)
      → (add_constraints solver fuel' label s' ≡ ok tt s')
        × (solve_cond solver fuel' rounds' label result' nested' s' ≡ ok tt s')
  unfolding solve_cond add_constraints
  add_constraints-once fuel label s s' h fuel' rounds' result' nested' =
      let flipped : is_flipped label s' ≡ true = elim (Bool-cases (is_flipped label s)) [
        | inl y ↦ let e : s ≡ s' = ground (arith, h, y) in rw e at y
        | inr n ↦ elim (Step-cases (constrain solver fuel label s)) [
          | inl (o, t, run) ↦
              let e : mark_flipped label t ≡ s' = ground (arith, h, n, run) in
              rw e at (is_flipped-mark label t)
          | inr (x, t, run) ↦ absurd (ground (arith, h, n, run))
        ]
      ] in
      (rw flipped refl, rw flipped refl)
