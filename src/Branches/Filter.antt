-- ===== src/Branches/Filter.antt =====
-- dfsan.cc: the filter on branches, over sequences of branches in their contexts.
use kirenenko.Prelude.{
  ℕ, ◌+◌, ◌≤◌, ◌≡◌, refl, inl, inr, arith, Bool-cases, ◌&&◌, List, [], ◌∷◌, ◌==◌, ltb, leb,
  if◌then◌else◌,
}
use kirenenko.Branches.{visit, max_branch_count}

-- The count that a branch has in a context.
count_of : ℕ → ℕ → List ((ℕ × ℕ) × ℕ) → ℕ
count_of callstack addr [] = 0
count_of callstack addr (((c, a), n) ∷ rest) =
    if c == callstack && a == addr then n else count_of callstack addr rest

visit-passes :
    (callstack addr : ℕ) (b : List ((ℕ × ℕ) × ℕ))
    → (visit callstack addr b).0 ≡ ltb (count_of callstack addr b) max_branch_count
unfolding visit count_of
visit-passes callstack addr [] = refl
visit-passes callstack addr (((c, a), n) ∷ rest) = ground (arith, visit-passes callstack addr rest)

visit-count :
    (callstack addr c' a' : ℕ) (b : List ((ℕ × ℕ) × ℕ))
    → count_of c' a' (visit callstack addr b).1 ≡ (
        if (callstack == c' && addr == a') && ltb (count_of callstack addr b) max_branch_count
        then count_of c' a' b + 1
        else count_of c' a' b)
unfolding visit count_of
visit-count callstack addr c' a' [] = ground arith
visit-count callstack addr c' a' (((c, a), n) ∷ rest) =
    ground (arith, visit-count callstack addr c' a' rest)

-- How often a branch comes in a sequence of branches, and how often it passes the filter.
pub occurrences : ℕ → ℕ → List (ℕ × ℕ) → ℕ
occurrences callstack addr [] = 0
occurrences callstack addr ((c, a) ∷ rest) =
    (if c == callstack && a == addr then 1 else 0) + occurrences callstack addr rest

pub solved : ℕ → ℕ → List (ℕ × ℕ) → List ((ℕ × ℕ) × ℕ) → ℕ
solved callstack addr [] b = 0
solved callstack addr ((c, a) ∷ rest) b =
    (if (c == callstack && a == addr) && (visit c a b).0 then 1 else 0)
    + solved callstack addr rest (visit c a b).1

solved-from :
    (callstack addr : ℕ) (trace : List (ℕ × ℕ)) (b : List ((ℕ × ℕ) × ℕ))
    → count_of callstack addr b ≤ max_branch_count
    → solved callstack addr trace b + count_of callstack addr b ≡ (
        if leb (occurrences callstack addr trace + count_of callstack addr b) max_branch_count
        then occurrences callstack addr trace + count_of callstack addr b
        else max_branch_count)
unfolding solved occurrences
solved-from callstack addr [] b h = ground arith
solved-from callstack addr ((c, a) ∷ rest) b h =
    let e1 = visit-passes c a b in
    let e2 = visit-count c a callstack addr b in
    elim (Bool-cases (c == callstack && a == addr)) [
      | inl same ↦
          let (q1, q2) : (c ≡ callstack) × (a ≡ addr) = ground (arith, same) in
          let f1 : (visit c a b).0 ≡ ltb (count_of callstack addr b) max_branch_count =
            rw (← q1, ← q2) e1 in
          let f2 : count_of callstack addr (visit c a b).1 ≡ (
              if ltb (count_of callstack addr b) max_branch_count
              then count_of callstack addr b + 1
              else count_of callstack addr b) =
            let n : count_of c a b ≡ count_of callstack addr b = rw (q1, q2) refl in
            ground (arith, e2, same, n) in
          ground (
            arith,
            solved-from callstack addr rest (visit c a b).1 (ground (arith, f2, h)),
            f1,
            f2,
            same,
          )
      | inr other ↦
          let f2 : count_of callstack addr (visit c a b).1 ≡ count_of callstack addr b =
            ground (arith, e2, other) in
          ground
            (arith, solved-from callstack addr rest (visit c a b).1 (omega (arith, f2)), f2, other)
    ]

-- In every sequence of branches, each in its context, a branch passes the filter as often as it
-- comes in one context, but at most sixteen times.
pub solved-bounded :
    (callstack addr : ℕ) (trace : List (ℕ × ℕ))
    → solved callstack addr trace [] ≡ (
        if leb (occurrences callstack addr trace) max_branch_count
        then occurrences callstack addr trace
        else max_branch_count)
unfolding count_of
solved-bounded callstack addr trace =
    ground (arith, solved-from callstack addr trace [] (omega arith))
