-- ===== src/Expressions/Plain/Frame.antt =====
-- The plain expression of a label needs no more of the table than the labels up to it.
use kirenenko.Prelude.{ℕ, zero, suc, ◌≤◌, ◌<◌, ◌≡◌, refl, arith, Option}
use kirenenko.Operators.{Opcodes}
use kirenenko.LabelInfo.{LabelInfo}
use kirenenko.Labels.Invariant.{HasOlder}
use kirenenko.Z3.{Z3}
use kirenenko.Expressions.Plain.{
  node_expr, two_expr, operand_expr, compare_expr, expr_within, expr_of,
}

module _ ⦃ops : Opcodes⦄ (z : Z3) (infos infos' : ℕ → LabelInfo) (memory : ℕ → ℕ) where
  node_expr-frame :
      (info : LabelInfo) (x1 x2 : Option z.Expr)
      → infos' info.l1 ≡ infos info.l1
      → infos' info.l2 ≡ infos info.l2
      → node_expr z infos' memory info x1 x2 ≡ node_expr z infos memory info x1 x2
  unfolding node_expr two_expr operand_expr compare_expr
  node_expr-frame info x1 x2 e1 e2 = rw (e1, e2) refl

  module _ (last : ℕ) (older : (l : ℕ) → 0 < l → l ≤ last → HasOlder l (infos l))
      (agree : (l : ℕ) → l ≤ last → infos' l ≡ infos l) where
    expr_within-frame :
        (fuel label : ℕ)
        → label ≤ last
        → expr_within z infos' memory fuel label ≡ expr_within z infos memory fuel label
    unfolding expr_within
    expr_within-frame zero label le = refl
    expr_within-frame (suc fuel) zero le = refl
    expr_within-frame (suc fuel) (suc k) le =
        let (h1, h2) = older (suc k) (omega arith) le in
        let info = infos (suc k) in
        let x1 = expr_within-frame fuel info.l1 (omega arith) in
        let x2 = expr_within-frame fuel info.l2 (omega arith) in
        rw
          (
            agree (suc k) le,
            x1,
            x2,
            node_expr-frame info (expr_within z infos memory fuel info.l1)
                (expr_within z infos memory fuel info.l2) (agree info.l1 (omega arith))
                (agree info.l2 (omega arith)),
          )
          refl

    -- A larger table that has the labels up to `last` unchanged gives them the same expressions.
    pub expr_of-frame :
        (label : ℕ) → label ≤ last → expr_of z infos' memory label ≡ expr_of z infos memory label
    unfolding expr_of
    expr_of-frame label le = expr_within-frame (suc label) label le
