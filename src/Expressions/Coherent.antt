-- ===== src/Expressions/Coherent.antt =====
-- dfsan.cc: when the caches in the label table agree with the plain expressions.
use kirenenko.Prelude.{
  ℕ, ◌<◌, ◌≡◌, ◌≢◌, refl, sym, ◌⊎◌, inl, inr, arith, Bool-cases, ==_iff, Option, none, some, List,
  [], ◌∷◌, ◌++◌, ◌==◌,
}
use kirenenko.Run.{ok, died}
use kirenenko.Operators.{Opcodes}
use kirenenko.LabelInfo.{LabelInfo}
use kirenenko.UnionTable.Laws.{SameFields}
use kirenenko.Z3.{Z3}
use kirenenko.Expressions.{World, info_of, set_info, cache_expr}
use kirenenko.Expressions.Plain.{expr_of, inputs_of}

-- Membership in a set that is listed, and inclusion.
abbrev pub In : ℕ → List ℕ → Type 0
In x [] = ⊥
In x (y ∷ ys) = (x ≡ y) ⊎ In x ys

abbrev pub Includes : List ℕ → List ℕ → Type 0
Includes xs ys = (x : ℕ) → In x xs → In x ys

pub In-append_left : (x : ℕ) (xs ys : List ℕ) → In x xs → In x (xs ++ ys)
In-append_left x [] ys h = elim h [ ]
In-append_left x (y ∷ xs) ys (inl e) = inl e
In-append_left x (y ∷ xs) ys (inr h) = inr (In-append_left x xs ys h)

pub In-append_right : (x : ℕ) (xs ys : List ℕ) → In x ys → In x (xs ++ ys)
In-append_right x [] ys h = h
In-append_right x (y ∷ xs) ys h = inr (In-append_right x xs ys h)

pub In-append-cases : (x : ℕ) (xs ys : List ℕ) → In x (xs ++ ys) → In x xs ⊎ In x ys
In-append-cases x [] ys h = inr h
In-append-cases x (y ∷ xs) ys (inl e) = inl (inl e)
In-append-cases x (y ∷ xs) ys (inr h) = elim (In-append-cases x xs ys h) [
  | inl l ↦ inl (inr l)
  | inr r ↦ inr r
]

abbrev pub first {ℓ} : {A B : Type ℓ} → Option (A × B) → Option A
first none = none
first (some (a, b)) = some a

-- The state in which `cache_expr` ends.
abbrev pub cache_state : {z : Z3} → ℕ → z.Expr → List ℕ → World z → World z
cache_state label e deps w = elim (cache_expr label e deps w) [ ok _ w' ↦ w' | died _ w' ↦ w' ]

module _ ⦃ops : Opcodes⦄ (z : Z3) (infos : ℕ → LabelInfo) (memory : ℕ → ℕ) where
  -- The cache of a label leads to its plain expression, and to a set that holds its offsets.
  pub record IsCached (w : World z) (l : ℕ) : Type 0 where
    pub e : z.Expr
    pub d : List ℕ
    pub expr : w.exprs (info_of w l).expr ≡ some e
    pub set : w.sets (info_of w l).deps ≡ some d
    pub value : expr_of z infos memory l ≡ some e
    pub covers : Includes (inputs_of z infos memory l) d
    pub pointers : ((info_of w l).expr < w.next_pointer) × ((info_of w l).deps < w.next_pointer)

  pub record Coherent (w : World z) : Type 0 where
    pub frame : (l : ℕ) → SameFields (info_of w l) (infos l)
    pub memory_kept : w.runtime.memory ≡ memory
    pub positive : 0 < w.next_pointer
    pub cache : (l : ℕ) → (info_of w l).expr ≢ 0 → IsCached w l

  -- What a run leaves that is to find the expression `x`, or an exception where there is none,
  -- and to collect the offsets `inputs` in a set that begins as `deps`.
  pub record Answers (x : Option z.Expr) (inputs : List ℕ) (deps : List ℕ)
      (o : Option (z.Expr × List ℕ)) (w' : World z) : Type 0 where
    pub coherent : Coherent w'
    pub value : first o ≡ x
    pub covers : (e : z.Expr) (d : List ℕ) → o ≡ some (e, d) → Includes deps d × Includes inputs d

  -- Nothing is cached yet.
  pub Coherent-cold :
      (w : World z)
      → 0 < w.next_pointer
      → ((l : ℕ) → (info_of w l).expr ≡ 0)
      → infos ≡ w.runtime.label_info
      → memory ≡ w.runtime.memory
      → Coherent w
  Coherent-cold w pos cold e1 e2 = record {
    frame = λ l. rw e1 (refl, refl, refl, refl, refl, refl);
    memory_kept = sym e2;
    positive = pos;
    cache = λ l p. absurd (p (cold l));
  }

  pub set_tree_size-Coherent :
      (label n : ℕ) (w : World z)
      → Coherent w
      → Coherent (set_info w label (record (info_of w label) { tree_size = n }))
  set_tree_size-Coherent label n w c = record {
    frame = λ l. let f = c.frame l in ground arith;
    memory_kept = c.memory_kept;
    positive = c.positive;
    cache = λ l p.
        let k = c.cache l (ground arith) in
        record {
          e = k.e;
          d = k.d;
          expr = let h = k.expr in ground arith;
          set = let h = k.set in ground arith;
          value = k.value;
          covers = k.covers;
          pointers = let h = k.pointers in ground arith;
        };
  }

  pub cache_expr-Coherent :
      (label : ℕ) (e : z.Expr) (deps : List ℕ) (w : World z)
      → Coherent w
      → expr_of z infos memory label ≡ some e
      → Includes (inputs_of z infos memory label) deps
      → Coherent (cache_state label e deps w)
  unfolding cache_expr
  cache_expr-Coherent label e deps w c value covers = record {
    frame = λ l. let f = c.frame l in ground arith;
    memory_kept = c.memory_kept;
    positive = omega arith;
    cache = λ l p. elim (Bool-cases (l == label)) [
      | inl same ↦ record {
        e = e;
        d = deps;
        expr = ground arith;
        set = ground arith;
        value = rw ((==_iff l label).0 same) value;
        covers = rw ((==_iff l label).0 same) covers;
        pointers = ground arith;
      }
      | inr other ↦
          let k = c.cache l (ground arith) in
          record {
            e = k.e;
            d = k.d;
            expr = let h = k.expr in let q = k.pointers in ground arith;
            set = let h = k.set in let q = k.pointers in ground arith;
            value = k.value;
            covers = k.covers;
            pointers = let h = k.pointers in ground arith;
          }
    ];
  }
