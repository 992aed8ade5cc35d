-- ===== src/Expressions/Nodewise.antt =====
-- `serialize` of one label against the plain expression of one label, when the calls on its
-- operands answer as they are to.
use kirenenko.Prelude.{
  ℕ, ◌+◌, ◌<◌, ◌≡◌, refl, sym, subst, inl, inr, arith, Bool-cases, true, Option, none, some, List,
  [], ◌++◌, ◌==◌, ltb, leb, if◌then◌else◌, not, ◌&&◌, ◌||◌, Bool,
}
use mathlib.Core.Option
use kirenenko.Word.{u8, u32}
use kirenenko.Operators.{Opcodes, op_concat}
use kirenenko.LabelInfo.{LabelInfo, const_offset}
use kirenenko.Z3.{Z3}
use kirenenko.Expressions.{
  World, Try, ◌>>=◌, info_of, give, check, set_tree_size, operand, two_operands, memcmp_node,
  size_of_first, size_of_second,
}
use kirenenko.Expressions.Nodes.{memcmp_expr, read_concrete, common_expr, rest_size}
use kirenenko.Expressions.Plain.{expr_of, inputs_of, two_expr, compare_expr}
use kirenenko.Expressions.Coherent.{
  Includes, In-append_left, In-append_right, In-append-cases, Answers, set_tree_size-Coherent,
}
use kirenenko.Expressions.Operands.{
  Ends, Ends-give, Coh, Ans, failed, found, Finds, Calls, Ends-Finds, operand_inputs, operand-Finds,
  cache_expr-Answers,
}

pub Ends-check :
    ⦃ops : Opcodes⦄ {z : Z3} {A : Type 0} (Q : Option A → World z → Type 0) (b : Bool)
    (f : Unit {0} → Try z A) (w : World z)
    → b ≡ true
    → Ends Q (f tt w)
    → Ends Q ((check z b >>= f) w)
Ends-check Q b f w e h = rw e h

-- A `Concat` has a symbolic operand.
abbrev pub HasSymbolic : ⦃ops : Opcodes⦄ → LabelInfo → Type 0
HasSymbolic info = info.op ≡ op_concat → 0 < info.l1 + info.l2

-- Both operands' offsets are in the set that is joined of theirs.
Includes-join :
    (deps xs ys d1 d2 : List ℕ)
    → Includes deps d1
    → Includes xs d1
    → Includes ys d2
    → Includes deps (d2 ++ d1) × Includes (xs ++ ys) (d2 ++ d1)
Includes-join deps xs ys d1 d2 h1 h2 h3 = (
  λ x i. In-append_right x d2 d1 (h1 x i),
  λ x i. elim (In-append-cases x xs ys i) [
    | inl l ↦ In-append_right x d2 d1 (h2 x l)
    | inr r ↦ In-append_left x d2 d1 (h3 x r)
  ],
)

module _ ⦃ops : Opcodes⦄ (z : Z3) (infos : ℕ → LabelInfo) (memory : ℕ → ℕ) where
  size_of_first-same :
      (info a b : LabelInfo) → a.size ≡ b.size → size_of_first z info a ≡ size_of_first z info b
  unfolding size_of_first rest_size
  size_of_first-same info a b e = ground (arith, e)

  size_of_second-same :
      (info a b a' b' : LabelInfo)
      → a.size ≡ a'.size
      → b.size ≡ b'.size
      → size_of_second z info a b ≡ size_of_second z info a' b'
  unfolding size_of_second size_of_first rest_size
  size_of_second-same info a b a' b' e1 e2 = ground (arith, e1, e2)

  pub two_operands-Answers :
      (self : ℕ → List ℕ → Try z (z.Expr × List ℕ)) (label : ℕ) (info : LabelInfo) (deps : List ℕ)
      (w : World z)
      → Coh z infos memory w
      → HasSymbolic info
      → Calls z infos memory self info.l1
      → Calls z infos memory self info.l2
      → expr_of z infos memory label
        ≡ two_expr z infos memory info
            (expr_of z infos memory info.l1)
            (expr_of z infos memory info.l2)
      → inputs_of z infos memory label
        ≡ operand_inputs z infos memory info.l1 ++ operand_inputs z infos memory info.l2
      → Ends (Ans z infos memory label deps) (two_operands z self label info deps w)
  unfolding two_operands set_tree_size two_expr
  two_operands-Answers self label info deps w c symbolic calls1 calls2 value inputs =
      let f2 =
        size_of_second-same info (info_of w info.l1) (info_of w info.l2) (infos info.l1)
          (infos info.l2) ((c.frame info.l1).3) ((c.frame info.l2).3) in
      let Q = Ans z infos memory label deps in
      let f1 = size_of_first-same info (info_of w info.l2) (infos info.l2) ((c.frame info.l2).3) in
      Ends-check Q (not (info.op == op_concat && info.l1 == 0) || leb const_offset info.l2) _ w
        (ground (arith, symbolic))
        (Ends-give Q (z.bv_val info.op1 (size_of_first z info (info_of w info.l2))) _ w
          (λ p. failed z infos memory _ _ deps w c (ground (arith, value, f1, p)))
          (λ bits1 p.
            Ends-Finds z infos memory Q _ _ (operand z self info info.l1 info.op1 bits1) deps _ w c
              (operand-Finds z infos memory self info info.l1 info.op1 bits1 calls1)
              (λ w1 c1 v1. failed z infos memory _ _ deps w1 c1 (ground (arith, value, f1, p, v1)))
              (λ e1 d1 w1 c1 v1 i1 j1.
                Ends-check Q
                  (not (info.op == op_concat && info.l2 == 0) || leb const_offset info.l1) _ w1
                  (ground (arith, symbolic))
                  (Ends-give Q
                    (z.bv_val info.op2
                      (size_of_second z info (info_of w info.l1) (info_of w info.l2)))
                    _ w1
                    (λ p2.
                      failed z infos memory _ _ deps w1 c1
                        (ground (arith, value, f1, p, v1, f2, p2)))
                    (λ bits2 p2.
                      Ends-Finds z infos memory Q _ _ (operand z self info info.l2 info.op2 bits2)
                        [] _ w1 c1
                        (operand-Finds z infos memory self info info.l2 info.op2 bits2 calls2)
                        (λ w2 c2 v2.
                          failed z infos memory _ _ deps w2 c2
                            (ground (arith, value, f1, p, v1, f2, p2, v2)))
                        (λ e2 d2 w2 c2 v2 i2 j2.
                          let c3 =
                            set_tree_size-Coherent z infos memory label
                              (u32
                                ((info_of w2 info.l1).tree_size + (info_of w2 info.l2).tree_size))
                              w2 c2 in
                          let join = Includes-join deps _ _ d1 d2 i1 j1 j2 in
                          Ends-give Q (common_expr z info e1 e2) _ _
                            (λ p3.
                              failed z infos memory _ _ deps _ c3
                                (ground (arith, value, f1, p, v1, f2, p2, v2, p3)))
                            (λ e p3.
                              cache_expr-Answers z infos memory label e deps (d2 ++ d1) _ c3
                                (ground (arith, value, f1, p, v1, f2, p2, v2, p3)) join.0
                                (rw inputs join.1))))))))

  abbrev first_of :
      (ℕ → List ℕ → Try z (z.Expr × List ℕ)) → LabelInfo → List ℕ → Try z (z.Expr × List ℕ)
  first_of self info deps = if leb const_offset info.l1 then self info.l1 deps else λ w.
      give (Option.map (λ e. (e, deps)) (read_concrete z w.runtime.memory info.op1 (u8 info.size)))
        w

  first_of-Finds :
      (self : ℕ → List ℕ → Try z (z.Expr × List ℕ)) (info : LabelInfo)
      → Calls z infos memory self info.l1
      → Finds z infos memory
          (if leb const_offset info.l1
            then expr_of z infos memory info.l1
            else read_concrete z memory info.op1 (u8 info.size))
          (operand_inputs z infos memory info.l1)
          (first_of self info)
  first_of-Finds self info calls deps w c = elim (Bool-cases (leb const_offset info.l1)) [
    | inl labelled ↦ rw labelled (calls deps w c)
    | inr concrete ↦ rw concrete (
        subst
          (λ m.
            Ends (Answers z infos memory (read_concrete z memory info.op1 (u8 info.size)) [] deps)
              (give (Option.map (λ e. (e, deps)) (read_concrete z m info.op1 (u8 info.size))) w))
          (sym c.memory_kept) (given (read_concrete z memory info.op1 (u8 info.size))))
  ]
    where
      given :
          (x : Option z.Expr)
          → Ends (Answers z infos memory x [] deps) (give (Option.map (λ e. (e, deps)) x) w)
      given none = failed z infos memory none [] deps w c refl
      given (some e) =
          found z infos memory (some e) [] deps e deps w c refl (λ x i. i) (λ x i. absurd i)

  second_of-Finds :
      (self : ℕ → List ℕ → Try z (z.Expr × List ℕ)) (info : LabelInfo)
      → Calls z infos memory self info.l2
      → Finds z infos memory
          (if ltb info.l2 const_offset then none else expr_of z infos memory info.l2)
          (operand_inputs z infos memory info.l2)
          (λ deps. if ltb info.l2 const_offset then give none else self info.l2 deps)
  second_of-Finds self info calls deps w c = elim (Bool-cases (ltb info.l2 const_offset)) [
    | inl concrete ↦ rw concrete (failed z infos memory _ _ deps w c refl)
    | inr labelled ↦
        let h : leb const_offset info.l2 ≡ true = ground (arith, labelled) in
        rw (labelled, h) (calls deps w c)
  ]

  pub memcmp_node-Answers :
      (self : ℕ → List ℕ → Try z (z.Expr × List ℕ)) (label : ℕ) (info : LabelInfo) (deps : List ℕ)
      (w : World z)
      → Coh z infos memory w
      → Calls z infos memory self info.l1
      → Calls z infos memory self info.l2
      → expr_of z infos memory label
        ≡ compare_expr z infos memory info
            (expr_of z infos memory info.l1)
            (expr_of z infos memory info.l2)
      → inputs_of z infos memory label
        ≡ operand_inputs z infos memory info.l1 ++ operand_inputs z infos memory info.l2
      → Ends (Ans z infos memory label deps) (memcmp_node z self label info deps w)
  unfolding memcmp_node set_tree_size compare_expr
  memcmp_node-Answers self label info deps w c calls1 calls2 value inputs =
      let Q = Ans z infos memory label deps in
      Ends-Finds z infos memory Q _ _ (first_of self info) deps _ w c
        (first_of-Finds self info calls1)
        (λ w1 c1 v1. failed z infos memory _ _ deps w1 c1 (ground (arith, value, v1)))
        (λ e1 d1 w1 c1 v1 i1 j1.
          Ends-Finds z infos memory Q _ _
            (λ deps. if ltb info.l2 const_offset then give none else self info.l2 deps) d1 _ w1 c1
            (second_of-Finds self info calls2)
            (λ w2 c2 v2. failed z infos memory _ _ deps w2 c2 (ground (arith, value, v1, v2)))
            (λ e2 d2 w2 c2 v2 i2 j2.
              let c3 = set_tree_size-Coherent z infos memory label 1 w2 c2 in
              Ends-give Q (memcmp_expr z e1 e2) _ _
                (λ p. failed z infos memory _ _ deps _ c3 (ground (arith, value, v1, v2, p)))
                (λ e p.
                  found z infos memory _ _ deps e d2 _ c3 (ground (arith, value, v1, v2, p))
                    (λ x i. i2 x (i1 x i))
                    (rw inputs (λ x i. elim (In-append-cases x _ _ i) [
                      | inl l ↦ i2 x (j1 x l)
                      | inr r ↦ j2 x r
                    ])))))
