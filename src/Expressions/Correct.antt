-- ===== src/Expressions/Correct.antt =====
-- dfsan.cc: `serialize` against the plain expression of a label.
use kirenenko.Prelude.{ℕ, zero, suc, ◌≤◌, ◌<◌, ◌≢◌, inl, inr, arith, Bool-cases, List, ◌==◌, not}
use kirenenko.Operators.{Opcodes}
use kirenenko.LabelInfo.{LabelInfo, initializing_label}
use kirenenko.Labels.Invariant.{HasOlder}
use kirenenko.Z3.{Z3}
use kirenenko.Expressions.{World, info_of, serialize}
use kirenenko.Expressions.Plain.{
  expr_of, inputs_of, expr_of-node, inputs_of-node, expr_of-no_label, is_no_label,
}
use kirenenko.Expressions.Operands.{Ends, Coh, Ans, failed, cached-Answers}
use kirenenko.Expressions.Nodewise.{HasSymbolic}
use kirenenko.Expressions.Chain.{node_expr-same, node_inputs-same, serialize_node-Answers}

module _ ⦃ops : Opcodes⦄ (z : Z3) (infos : ℕ → LabelInfo) (memory : ℕ → ℕ) where
  -- Labels are older than those that refer to them, and each `Concat` has a symbolic operand.
  pub record Graph (last : ℕ) : Type 0 where
    pub older : (l : ℕ) → 0 < l → l ≤ last → HasOlder l (infos l)
    pub symbolic : (l : ℕ) → 0 < l → l ≤ last → HasSymbolic (infos l)

  -- In a table of which the caches are coherent, and whose labels are older than those that refer
  -- to them, with a `Concat` only of something symbolic, `serialize` of a label up to the last,
  -- with more fuel than the label's number, returns: what it finds is the plain expression of the
  -- label, an exception where that has none, the set has the given offsets and all on which the
  -- label depends, and the caches are coherent still.
  pub serialize-Answers :
      (last : ℕ)
      → Graph last
      → (fuel label : ℕ) (deps : List ℕ) (w : World z) → label < fuel
      → label ≤ last
      → Coh z infos memory w
      → Ends (Ans z infos memory label deps) (serialize z fuel label deps w)
  unfolding serialize
  serialize-Answers last g zero label deps w p le c = absurd (omega arith)
  serialize-Answers last g (suc fuel) label deps w p le c =
      elim (Bool-cases (is_no_label z infos memory label)) [
        | inl nope ↦
            rw nope
              (failed z infos memory _ _ deps w c (expr_of-no_label z infos memory label nope))
        | inr proper ↦ elim (Bool-cases (not ((info_of w label).expr == 0))) [
          | inl yes1 ↦
              rw (proper, yes1)
                (cached-Answers z infos memory label deps w c
                  (c.cache label (ground (arith, yes1))))
          | inr no1 ↦
              let pos : 0 < label = ground (arith, proper) in
              let ne : label ≢ initializing_label = ground (arith, proper) in
              let (o1, o2) = g.older label pos le in
              let same = c.frame label in
              let info = info_of w label in
              let (s1, s2, s3, _, _, _) = same in
              let x1 = expr_of z infos memory info.l1 in
              let x2 = expr_of z infos memory info.l2 in
              let d1 = inputs_of z infos memory info.l1 in
              let d2 = inputs_of z infos memory info.l2 in
              rw (proper, no1)
                (serialize_node-Answers z infos memory (serialize z fuel) label info
                  (λ d w' c'.
                    serialize-Answers last g fuel info.l1 d w' (omega arith) (omega arith) c')
                  (λ d w' c'.
                    serialize-Answers last g fuel info.l2 d w' (omega arith) (omega arith) c')
                  (cc (
                    expr_of-node z infos memory last g.older label le pos ne,
                    node_expr-same z infos memory info (infos label) x1 x2 same,
                    s1,
                    s2,
                  ))
                  (cc (
                    inputs_of-node z infos memory last g.older label le pos ne,
                    node_inputs-same z infos memory info (infos label) d1 d2 same,
                    s1,
                    s2,
                  ))
                  (rw (s1, s2, s3) (g.symbolic label pos le)) deps w c)
        ]
      ]
