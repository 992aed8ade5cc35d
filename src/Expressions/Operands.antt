-- ===== src/Expressions/Operands.antt =====
-- What a part of `serialize` leaves behind, when the calls on the operands answer as they are to.
use kirenenko.Prelude.{
  ℕ, ◌≡◌, refl, sym, inl, inr, arith, Bool-cases, Option, none, some, List, [], ◌++◌, leb,
  if◌then◌else◌,
}
use kirenenko.Run.{Step, ok, died}
use kirenenko.Operators.{Opcodes}
use kirenenko.LabelInfo.{LabelInfo, const_offset}
use kirenenko.Z3.{Z3}
use kirenenko.Expressions.{
  World, Try, ◌>>=◌, info_of, give, set_tree_size, copy_tree_size, cache_expr, cached, one_operand,
  operand,
}
use kirenenko.Expressions.Plain.{one, expr_of, inputs_of, operand_expr}
use kirenenko.Expressions.Coherent.{
  Includes, In-append_left, In-append_right, IsCached, Coherent, Answers, set_tree_size-Coherent,
  cache_expr-Coherent,
}

-- The run ends normally, in a result and a state that satisfy `P`.
abbrev pub Ends :
    {z : Z3} {A : Type 0} → (Option A → World z → Type 0) → Step (World z) (Option A) → Type 0
Ends P (ok o w) = P o w
Ends P (died x w) = ⊥

pub Ends->>= :
    {z : Z3} {A B : Type 0} (P : Option A → World z → Type 0) (Q : Option B → World z → Type 0)
    (m : Try z A) (f : A → Try z B) (w : World z)
    → Ends P (m w)
    → ((w' : World z) → P none w' → Q none w')
    → ((a : A) (w' : World z) → P (some a) w' → Ends Q (f a w'))
    → Ends Q ((m >>= f) w)
Ends->>= P Q m f w h failed next = on (m w) h
  where
    on :
        (r : Step (World _) (Option _))
        → Ends P r
        → Ends Q
            (elim r [ ok (some a) w' ↦ f a w' | ok none w' ↦ ok none w' | died e w' ↦ died e w' ])
    on (ok (some a) w') p = next a w' p
    on (ok none w') p = failed w' p
    on (died x w') p = absurd p

pub Ends-give :
    {z : Z3} {A B : Type 0} (Q : Option B → World z → Type 0) (o : Option A) (f : A → Try z B)
    (w : World z)
    → (o ≡ none → Q none w)
    → ((a : A) → o ≡ some a → Ends Q (f a w))
    → Ends Q ((give o >>= f) w)
Ends-give Q none f w failed next = failed refl
Ends-give Q (some a) f w failed next = next a refl

module _ ⦃ops : Opcodes⦄ (z : Z3) (infos : ℕ → LabelInfo) (memory : ℕ → ℕ) where
  abbrev pub Coh : World z → Type 0
  Coh = Coherent z infos memory

  abbrev pub Ans : ℕ → List ℕ → Option (z.Expr × List ℕ) → World z → Type 0
  Ans l = Answers z infos memory (expr_of z infos memory l) (inputs_of z infos memory l)

  pub failed :
      (x : Option z.Expr) (inputs deps : List ℕ) (w : World z)
      → Coh w
      → x ≡ none
      → Answers z infos memory x inputs deps none w
  failed x inputs deps w c value = record {
    coherent = c;
    value = sym value;
    covers = λ e d p. absurd (ground arith);
  }

  pub found :
      (x : Option z.Expr) (inputs deps : List ℕ) (e : z.Expr) (d : List ℕ) (w : World z)
      → Coh w
      → x ≡ some e
      → Includes deps d
      → Includes inputs d
      → Answers z infos memory x inputs deps (some (e, d)) w
  found x inputs deps e d w c value i1 i2 = record {
    coherent = c;
    value = sym value;
    covers = λ e' d' p. let q : d ≡ d' = ground arith in (rw q at i1, rw q at i2);
  }

  pub cached-Answers :
      (label : ℕ) (deps : List ℕ) (w : World z)
      → Coh w
      → IsCached z infos memory w label
      → Ends (Ans label deps) (cached (info_of w label) deps w)
  unfolding cached
  cached-Answers label deps w c k =
      let h : cached (info_of w label) deps w ≡ ok (some (k.e, k.d ++ deps)) w =
        let h1 = k.expr in let h2 = k.set in ground arith in
      rw h (
        found _ _ deps k.e (k.d ++ deps) w c k.value (λ x i. In-append_right x k.d deps i)
          (λ x i. In-append_left x k.d deps (k.covers x i)))

  -- The state that `cache_expr` leaves, and its result.
  pub cache_expr-Answers :
      (label : ℕ) (e : z.Expr) (deps d : List ℕ) (w : World z)
      → Coh w
      → expr_of z infos memory label ≡ some e
      → Includes deps d
      → Includes (inputs_of z infos memory label) d
      → Ends (Ans label deps) (cache_expr label e d w)
  unfolding cache_expr
  cache_expr-Answers label e deps d w c value i1 i2 =
      found _ _ deps e d _ (cache_expr-Coherent z infos memory label e d w c value i2) value i1 i2

  -- A run finds an expression from any set and any coherent state.
  abbrev pub Finds : Option z.Expr → List ℕ → (List ℕ → Try z (z.Expr × List ℕ)) → Type 0
  Finds x inputs m =
      (deps : List ℕ) (w : World z) → Coh w → Ends (Answers z infos memory x inputs deps) (m deps w)

  abbrev pub Calls : (ℕ → List ℕ → Try z (z.Expr × List ℕ)) → ℕ → Type 0
  Calls self l = Finds (expr_of z infos memory l) (inputs_of z infos memory l) (self l)

  pub Ends-Finds :
      {B : Type 0} (Q : Option B → World z → Type 0) (x : Option z.Expr) (inputs : List ℕ)
      (m : List ℕ → Try z (z.Expr × List ℕ)) (deps : List ℕ) (f : z.Expr × List ℕ → Try z B)
      (w : World z)
      → Coh w
      → Finds x inputs m
      → ((w' : World z) → Coh w' → x ≡ none → Q none w')
      → ((e : z.Expr) (d : List ℕ) (w' : World z)
          → Coh w'
          → x ≡ some e
          → Includes deps d
          → Includes inputs d
          → Ends Q (f (e, d) w'))
      → Ends Q ((m deps >>= f) w)
  Ends-Finds Q x inputs m deps f w c calls no_value next =
      Ends->>= (Answers z infos memory x inputs deps) Q (m deps) f w (calls deps w c)
        (λ w' a. no_value w' a.coherent (sym a.value))
        (λ (e, d) w' a.
          next e d w' a.coherent (sym a.value) (a.covers e d refl).0 (a.covers e d refl).1)

  pub one_operand-Answers :
      (self : ℕ → List ℕ → Try z (z.Expr × List ℕ)) (label l : ℕ)
      (base : z.Expr → Option (z.Expr × ℕ)) (build : z.Expr × ℕ → Option z.Expr) (deps : List ℕ)
      (w : World z)
      → Coh w
      → Calls self l
      → expr_of z infos memory label ≡ one z infos memory (expr_of z infos memory l) base build
      → inputs_of z infos memory label ≡ inputs_of z infos memory l
      → Ends (Ans label deps) (one_operand self label l base build deps w)
  unfolding one_operand copy_tree_size set_tree_size
  one_operand-Answers self label l base build deps w c calls value inputs =
      Ends-Finds (Ans label deps) _ _ (self l) deps _ w c calls
        (λ w' c' v. failed _ _ deps w' c' (ground (arith, value, v)))
        (λ e d w' c' v i1 i2.
          Ends-give (Ans label deps) (base e) _ w'
            (λ p. failed _ _ deps w' c' (ground (arith, value, v, p)))
            (λ b p.
              let c2 = set_tree_size-Coherent z infos memory label (info_of w' l).tree_size w' c' in
              Ends-give (Ans label deps) (build b) _ _
                (λ q. failed _ _ deps _ c2 (ground (arith, value, v, p, q)))
                (λ e' q.
                  cache_expr-Answers label e' deps d _ c2 (ground (arith, value, v, p, q)) i1
                    (rw inputs i2))))

  -- What an operand adds to the set: nothing when it is concrete.
  abbrev pub operand_inputs : ℕ → List ℕ
  operand_inputs l = if leb const_offset l then inputs_of z infos memory l else []

  pub operand-Finds :
      (self : ℕ → List ℕ → Try z (z.Expr × List ℕ)) (info : LabelInfo) (l value : ℕ) (bits : z.Expr)
      → Calls self l
      → Finds
          (operand_expr z infos memory info l value bits (expr_of z infos memory l))
          (operand_inputs l)
          (operand z self info l value bits)
  unfolding operand operand_expr
  operand-Finds self info l value bits calls deps w c = elim (Bool-cases (leb const_offset l)) [
    | inl labelled ↦ rw labelled (
        Ends-Finds _ _ _ (self l) deps _ w c calls
          (λ w' c' v. failed _ _ deps w' c' (ground (arith, v)))
          (λ e d w' c' v i1 i2. found _ _ deps (z.simplify e) d w' c' (ground (arith, v)) i1 i2))
    | inr concrete ↦ rw concrete (found _ _ deps _ deps w c refl (λ x i. i) (λ x i. absurd i))
  ]
