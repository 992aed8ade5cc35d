-- ===== src/Expressions/Plain.antt =====
-- The expression of a label and the offsets that it depends on, without caches, state or sets
-- that are passed along: what `serialize` is to compute.
pub mod Frame
use kirenenko.Prelude.{
  ℕ, zero, suc, ◌-◌, ◌≤◌, ◌<◌, ◌≡◌, ◌≢◌, refl, arith, Bool, true, ◌||◌, not, Option, none, some,
  List, [], ◌∷◌, ◌++◌, ◌==◌, ltb, leb, if◌then◌else◌,
}
use kirenenko.Word.{u8, u32}
use kirenenko.Operators.{Opcodes, op_not, op_neg, op_load, op_extract, op_fmemcmp, op_fsize}
use kirenenko.LabelInfo.{LabelInfo, const_offset, initializing_label}
use kirenenko.Labels.Invariant.{HasOlder}
use kirenenko.Z3.{Z3}
use kirenenko.Expressions.{plain, load_offsets, size_of_first, size_of_second}
use kirenenko.Expressions.Nodes.{
  ◌>>=◌, load_expr, zext_base, sext_base, zext_expr, sext_expr, trunc_expr, extract_expr, not_expr,
  neg_expr, memcmp_expr, fsize_expr, read_concrete, common_expr, constant_expr,
}

module _ ⦃ops : Opcodes⦄ (z : Z3) (infos : ℕ → LabelInfo) (memory : ℕ → ℕ) where
  abbrev pub one :
      Option z.Expr → (z.Expr → Option (z.Expr × ℕ)) → (z.Expr × ℕ → Option z.Expr) → Option z.Expr
  one x base build = do e ← x; b ← base e; build b

  unfoldable pub operand_expr : LabelInfo → ℕ → ℕ → z.Expr → Option z.Expr → Option z.Expr
  operand_expr info l value bits x =
      if leb const_offset l
      then (do e ← x; some (z.simplify e))
      else some (constant_expr z info value bits)

  unfoldable pub two_expr : LabelInfo → Option z.Expr → Option z.Expr → Option z.Expr
  two_expr info x1 x2 = do
    bits1 ← z.bv_val info.op1 (size_of_first z info (infos info.l2))
    op1 ← operand_expr info info.l1 info.op1 bits1 x1
    bits2 ← z.bv_val info.op2 (size_of_second z info (infos info.l1) (infos info.l2))
    op2 ← operand_expr info info.l2 info.op2 bits2 x2
    common_expr z info op1 op2

  unfoldable pub compare_expr : LabelInfo → Option z.Expr → Option z.Expr → Option z.Expr
  compare_expr info x1 x2 = do
    op1 ← if leb const_offset info.l1 then x1 else read_concrete z memory info.op1 (u8 info.size)
    op2 ← if ltb info.l2 const_offset then none else x2
    memcmp_expr z op1 op2

  -- The expression of a label from those of its operands.
  unfoldable pub node_expr : LabelInfo → Option z.Expr → Option z.Expr → Option z.Expr
  node_expr info x1 x2 =
      if info.op == 0
      then some (z.input (u32 info.op1))
      else if info.op == op_load
      then load_expr z (infos info.l1).op1 info.l2
      else if info.op == ops.op_zext
      then one x1 (zext_base z) (zext_expr z info)
      else if info.op == ops.op_sext
      then one x1 (sext_base z) (sext_expr z info)
      else if info.op == ops.op_trunc
      then one x1 (plain z) (trunc_expr z info)
      else if info.op == op_extract
      then one x1 (plain z) (extract_expr z info)
      else if info.op == op_not
      then (if info.l2 == 0 || not (info.size == 1) then none else one x2 (plain z) (not_expr z))
      else if info.op == op_neg
      then (if info.l2 == 0 then none else one x2 (plain z) (neg_expr z))
      else if info.op == op_fmemcmp
      then compare_expr info x1 x2
      else if info.op == op_fsize
      then (do base ← z.file_size info.size; fsize_expr z info base)
      else two_expr info x1 x2

  -- The offsets of a label from those of its operands.
  unfoldable pub node_inputs : LabelInfo → List ℕ → List ℕ → List ℕ
  node_inputs info d1 d2 =
      if info.op == 0
      then u32 info.op1 ∷ []
      else if info.op == op_load
      then u32 (infos info.l1).op1 ∷ load_offsets (infos info.l1).op1 1 (info.l2 - 1)
      else if info.op == ops.op_zext
          || info.op == ops.op_sext
          || info.op == ops.op_trunc
          || info.op == op_extract
      then d1
      else if info.op == op_not || info.op == op_neg
      then d2
      else if info.op == op_fsize
      then []
      else (if leb const_offset info.l1 then d1 else [])
        ++ (if leb const_offset info.l2 then d2 else [])

  abbrev pub is_no_label : ℕ → Bool
  is_no_label label = ltb label const_offset || label == initializing_label

  expr_within : ℕ → ℕ → Option z.Expr
  expr_within zero label = none
  expr_within (suc fuel) label =
      let info = infos label in
      let node = node_expr info (expr_within fuel info.l1) (expr_within fuel info.l2) in
      if is_no_label label then none else node

  inputs_within : ℕ → ℕ → List ℕ
  inputs_within zero label = []
  inputs_within (suc fuel) label =
      let info = infos label in
      let node = node_inputs info (inputs_within fuel info.l1) (inputs_within fuel info.l2) in
      if is_no_label label then [] else node

  unfoldable pub expr_of : ℕ → Option z.Expr
  unfolding expr_within
  expr_of label = expr_within (suc label) label

  unfoldable pub inputs_of : ℕ → List ℕ
  unfolding inputs_within
  inputs_of label = inputs_within (suc label) label

  -- The depth does not matter once it passes the label, since operands are older.
  module _ (last : ℕ) (older : (l : ℕ) → 0 < l → l ≤ last → HasOlder l (infos l)) where
    expr_within-deep :
        (f g label : ℕ)
        → label ≤ last
        → label < f
        → label < g
        → expr_within f label ≡ expr_within g label
    unfolding expr_within
    expr_within-deep zero g label le p q = absurd (omega arith)
    expr_within-deep (suc f) zero label le p q = absurd (omega arith)
    expr_within-deep (suc f) (suc g) zero le p q = refl
    expr_within-deep (suc f) (suc g) (suc k) le p q =
        let (h1, h2) = older (suc k) (omega arith) le in
        let info = infos (suc k) in
        cc (
          expr_within-deep f g info.l1 (omega arith) (omega arith) (omega arith),
          expr_within-deep f g info.l2 (omega arith) (omega arith) (omega arith),
        )

    inputs_within-deep :
        (f g label : ℕ)
        → label ≤ last
        → label < f
        → label < g
        → inputs_within f label ≡ inputs_within g label
    unfolding inputs_within
    inputs_within-deep zero g label le p q = absurd (omega arith)
    inputs_within-deep (suc f) zero label le p q = absurd (omega arith)
    inputs_within-deep (suc f) (suc g) zero le p q = refl
    inputs_within-deep (suc f) (suc g) (suc k) le p q =
        let (h1, h2) = older (suc k) (omega arith) le in
        let info = infos (suc k) in
        cc (
          inputs_within-deep f g info.l1 (omega arith) (omega arith) (omega arith),
          inputs_within-deep f g info.l2 (omega arith) (omega arith) (omega arith),
        )

    module _ (label : ℕ) (le : label ≤ last) (pos : 0 < label)
        (proper : label ≢ initializing_label) where
      pub expr_of-node :
          expr_of label
          ≡ node_expr (infos label) (expr_of (infos label).l1) (expr_of (infos label).l2)
      unfolding expr_of expr_within
      expr_of-node =
          let info = infos label in
          let (h1, h2) = older label pos le in
          ground (
            arith,
            expr_within-deep label (suc info.l1) info.l1 (omega arith) h1 (omega arith),
            expr_within-deep label (suc info.l2) info.l2 (omega arith) h2 (omega arith),
          )

      pub inputs_of-node :
          inputs_of label
          ≡ node_inputs (infos label) (inputs_of (infos label).l1) (inputs_of (infos label).l2)
      unfolding inputs_of inputs_within
      inputs_of-node =
          let info = infos label in
          let (h1, h2) = older label pos le in
          ground (
            arith,
            inputs_within-deep label (suc info.l1) info.l1 (omega arith) h1 (omega arith),
            inputs_within-deep label (suc info.l2) info.l2 (omega arith) h2 (omega arith),
          )

  pub expr_of-no_label : (label : ℕ) → is_no_label label ≡ true → expr_of label ≡ none
  unfolding expr_of expr_within
  expr_of-no_label label h = rw h
