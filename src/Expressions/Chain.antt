-- ===== src/Expressions/Chain.antt =====
-- dfsan.cc: the cases of `serialize` by operator, when the calls on the operands answer as they
-- are to.
use kirenenko.Prelude.{
  ℕ, ◌-◌, ◌≡◌, refl, inl, inr, arith, Bool-cases, true, false, Option, List, [], ◌∷◌, ◌++◌, ◌==◌,
  not, ◌||◌,
}
use kirenenko.Word.{u32}
use kirenenko.Operators.{Opcodes, op_not, op_neg, op_load, op_extract, op_fmemcmp, op_fsize}
use kirenenko.LabelInfo.{LabelInfo}
use kirenenko.UnionTable.Laws.{SameFields}
use kirenenko.Z3.{Z3}
use kirenenko.Expressions.{
  World, Try, info_of, plain, load_offsets, set_tree_size, serialize_node, size_of_first,
  size_of_second,
}
use kirenenko.Expressions.Nodes.{
  load_expr, common_expr, rest_size, zext_base, zext_expr, sext_base, sext_expr, trunc_expr,
  extract_expr, not_expr, neg_expr, fsize_expr, constant_expr,
}
use kirenenko.Expressions.Plain.{
  expr_of, inputs_of, operand_expr, two_expr, compare_expr, node_expr, node_inputs,
}
use kirenenko.Expressions.Coherent.{In-append_left, In-append_right, set_tree_size-Coherent}
use kirenenko.Expressions.Operands.{
  Ends, Ends-give, Coh, Ans, failed, found, Calls, cache_expr-Answers, one_operand-Answers,
}
use kirenenko.Expressions.Nodewise.{HasSymbolic, two_operands-Answers, memcmp_node-Answers}

module _ ⦃ops : Opcodes⦄ (z : Z3) (infos : ℕ → LabelInfo) (memory : ℕ → ℕ) where
  pub node_expr-same :
      (a b : LabelInfo) (x1 x2 : Option z.Expr)
      → SameFields a b
      → node_expr z infos memory a x1 x2 ≡ node_expr z infos memory b x1 x2
  unfolding node_expr zext_expr sext_expr trunc_expr extract_expr compare_expr fsize_expr two_expr
      operand_expr common_expr constant_expr size_of_first size_of_second rest_size
  node_expr-same a b x1 x2 (e1, e2, e3, e4, e5, e6) = rw (e1, e2, e3, e4, e5, e6) refl

  pub node_inputs-same :
      (a b : LabelInfo) (d1 d2 : List ℕ)
      → SameFields a b
      → node_inputs z infos memory a d1 d2 ≡ node_inputs z infos memory b d1 d2
  unfolding node_inputs
  node_inputs-same a b d1 d2 (e1, e2, e3, e4, e5, e6) = rw (e1, e2, e3) (rw e5 refl)

  module _ (self : ℕ → List ℕ → Try z (z.Expr × List ℕ)) (label : ℕ) (info : LabelInfo)
      (calls1 : Calls z infos memory self info.l1) (calls2 : Calls z infos memory self info.l2)
      (value : expr_of z infos memory label
        ≡ node_expr z infos memory info
            (expr_of z infos memory info.l1)
            (expr_of z infos memory info.l2))
      (inputs : inputs_of z infos memory label
        ≡ node_inputs z infos memory info
            (inputs_of z infos memory info.l1)
            (inputs_of z infos memory info.l2))
      (symbolic : HasSymbolic info) (deps : List ℕ) (w : World z) (c : Coh z infos memory w) where
    abbrev Q : Option (z.Expr × List ℕ) → World z → Type 0
    Q = Ans z infos memory label deps

    input_lem : info.op == 0 ≡ true → Ends Q (serialize_node z self label info deps w)
    unfolding serialize_node set_tree_size node_expr node_inputs
    input_lem e0 =
        let i : inputs_of z infos memory label ≡ u32 info.op1 ∷ [] = ground (arith, inputs, e0) in
        rw e0 (
          found z infos memory _ _ deps (z.input (u32 info.op1)) (u32 info.op1 ∷ deps) _
            (set_tree_size-Coherent z infos memory label 1 w c) (ground (arith, value, e0))
            (λ x h. inr h) (rw i (λ x h. elim h [ inl e ↦ inl e | inr n ↦ absurd n ])))

    load_lem :
        info.op == 0 ≡ false
        → info.op == op_load ≡ true
        → Ends Q (serialize_node z self label info deps w)
    unfolding serialize_node set_tree_size node_expr node_inputs
    load_lem n0 e1 =
        let offset = (infos info.l1).op1 in
        let same : (info_of w info.l1).op1 ≡ offset = (c.frame info.l1).4 in
        let more = load_offsets offset 1 (info.l2 - 1) in
        let i : inputs_of z infos memory label ≡ u32 offset ∷ more =
          ground (arith, inputs, n0, e1) in
        rw (n0, e1, same)
          (Ends-give Q (load_expr z offset info.l2) _ w
            (λ p. failed z infos memory _ _ deps w c (ground (arith, value, n0, e1, p)))
            (λ e p.
              cache_expr-Answers z infos memory label e deps (u32 offset ∷ more ++ deps) _
                (set_tree_size-Coherent z infos memory label 1 w c)
                (ground (arith, value, n0, e1, p)) (λ x h. inr (In-append_right x more deps h))
                (rw i (λ x h. In-append_left x (u32 offset ∷ more) deps h))))

    binary_lem :
        info.op == 0 ≡ false
        → info.op == op_load ≡ false
        → info.op == ops.op_zext ≡ false
        → info.op == ops.op_sext ≡ false
        → info.op == ops.op_trunc ≡ false
        → info.op == op_extract ≡ false
        → info.op == op_not ≡ false
        → info.op == op_neg ≡ false
        → Ends Q (serialize_node z self label info deps w)
    unfolding serialize_node set_tree_size node_expr node_inputs
    binary_lem n0 n1 n2 n3 n4 n5 n6 n7 = elim (Bool-cases (info.op == op_fmemcmp)) [
      | inl e8 ↦
          rw (n0, n1, n2, n3, n4, n5, n6, n7, e8)
            (memcmp_node-Answers z infos memory self label info deps w c calls1 calls2
              (ground (arith, value, n0, n1, n2, n3, n4, n5, n6, n7, e8))
              (ground (arith, inputs, n0, n1, n2, n3, n4, n5, n6, n7, e8)))
      | inr n8 ↦ elim (Bool-cases (info.op == op_fsize)) [
        | inl e9 ↦
            rw (n0, n1, n2, n3, n4, n5, n6, n7, n8, e9)
              (Ends-give Q (z.file_size info.size) _ w
                (λ p.
                  failed z infos memory _ _ deps w c
                    (ground (arith, value, n0, n1, n2, n3, n4, n5, n6, n7, n8, e9, p)))
                (λ base p.
                  Ends-give Q (fsize_expr z info base) _ _
                    (λ q.
                      failed z infos memory _ _ deps _
                        (set_tree_size-Coherent z infos memory label 1 w c)
                        (ground (arith, value, n0, n1, n2, n3, n4, n5, n6, n7, n8, e9, p, q)))
                    (λ e q.
                      let i : inputs_of z infos memory label ≡ [] =
                        (ground (arith, inputs, n0, n1, n2, n3, n4, n5, n6, n7, n8, e9)) in
                      found z infos memory _ _ deps e deps _
                        (set_tree_size-Coherent z infos memory label 1 w c)
                        (ground (arith, value, n0, n1, n2, n3, n4, n5, n6, n7, n8, e9, p, q))
                        (λ x h. h) (rw i (λ x h. absurd h)))))
        | inr n9 ↦
            rw (n0, n1, n2, n3, n4, n5, n6, n7, n8, n9)
              (two_operands-Answers z infos memory self label info deps w c symbolic calls1 calls2
                (ground (arith, value, n0, n1, n2, n3, n4, n5, n6, n7, n8, n9))
                (ground (arith, inputs, n0, n1, n2, n3, n4, n5, n6, n7, n8, n9)))
      ]
    ]

    sign_lem :
        info.op == 0 ≡ false
        → info.op == op_load ≡ false
        → info.op == ops.op_zext ≡ false
        → info.op == ops.op_sext ≡ false
        → info.op == ops.op_trunc ≡ false
        → info.op == op_extract ≡ false
        → Ends Q (serialize_node z self label info deps w)
    unfolding serialize_node set_tree_size node_expr node_inputs
    sign_lem n0 n1 n2 n3 n4 n5 = elim (Bool-cases (info.op == op_not)) [
      | inl e6 ↦ elim (Bool-cases (info.l2 == 0 || not (info.size == 1))) [
        | inl bad ↦
            rw (n0, n1, n2, n3, n4, n5, e6, bad)
              (failed z infos memory _ _ deps w c
                (ground (arith, value, n0, n1, n2, n3, n4, n5, e6, bad)))
        | inr good ↦
            rw (n0, n1, n2, n3, n4, n5, e6, good)
              (one_operand-Answers z infos memory self label info.l2 (plain z) (not_expr z) deps w c
                calls2 (ground (arith, value, n0, n1, n2, n3, n4, n5, e6, good))
                (ground (arith, inputs, n0, n1, n2, n3, n4, n5, e6)))
      ]
      | inr n6 ↦ elim (Bool-cases (info.op == op_neg)) [
        | inl e7 ↦ elim (Bool-cases (info.l2 == 0)) [
          | inl bad ↦
              rw (n0, n1, n2, n3, n4, n5, n6, e7, bad)
                (failed z infos memory _ _ deps w c
                  (ground (arith, value, n0, n1, n2, n3, n4, n5, n6, e7, bad)))
          | inr good ↦
              rw (n0, n1, n2, n3, n4, n5, n6, e7, good)
                (one_operand-Answers z infos memory self label info.l2 (plain z) (neg_expr z) deps w
                  c calls2 (ground (arith, value, n0, n1, n2, n3, n4, n5, n6, e7, good))
                  (ground (arith, inputs, n0, n1, n2, n3, n4, n5, n6, e7)))
        ]
        | inr n7 ↦ binary_lem n0 n1 n2 n3 n4 n5 n6 n7
      ]
    ]

    width_lem :
        info.op == 0 ≡ false
        → info.op == op_load ≡ false
        → Ends Q (serialize_node z self label info deps w)
    unfolding serialize_node set_tree_size node_expr node_inputs
    width_lem n0 n1 = elim (Bool-cases (info.op == ops.op_zext)) [
      | inl e2 ↦
          rw (n0, n1, e2)
            (one_operand-Answers z infos memory self label info.l1 (zext_base z) (zext_expr z info)
              deps w c calls1 (ground (arith, value, n0, n1, e2))
              (ground (arith, inputs, n0, n1, e2)))
      | inr n2 ↦ elim (Bool-cases (info.op == ops.op_sext)) [
        | inl e3 ↦
            rw (n0, n1, n2, e3)
              (one_operand-Answers z infos memory self label info.l1 (sext_base z)
                (sext_expr z info) deps w c calls1 (ground (arith, value, n0, n1, n2, e3))
                (ground (arith, inputs, n0, n1, n2, e3)))
        | inr n3 ↦ elim (Bool-cases (info.op == ops.op_trunc)) [
          | inl e4 ↦
              rw (n0, n1, n2, n3, e4)
                (one_operand-Answers z infos memory self label info.l1 (plain z) (trunc_expr z info)
                  deps w c calls1 (ground (arith, value, n0, n1, n2, n3, e4))
                  (ground (arith, inputs, n0, n1, n2, n3, e4)))
          | inr n4 ↦ elim (Bool-cases (info.op == op_extract)) [
            | inl e5 ↦
                rw (n0, n1, n2, n3, n4, e5)
                  (one_operand-Answers z infos memory self label info.l1 (plain z)
                    (extract_expr z info) deps w c calls1
                    (ground (arith, value, n0, n1, n2, n3, n4, e5))
                    (ground (arith, inputs, n0, n1, n2, n3, n4, e5)))
            | inr n5 ↦ sign_lem n0 n1 n2 n3 n4 n5
          ]
        ]
      ]
    ]

    pub serialize_node-Answers : Ends Q (serialize_node z self label info deps w)
    serialize_node-Answers = elim (Bool-cases (info.op == 0)) [
      | inl e0 ↦ input_lem e0
      | inr n0 ↦ elim (Bool-cases (info.op == op_load)) [
        | inl e1 ↦ load_lem n0 e1
        | inr n1 ↦ width_lem n0 n1
      ]
    ]
