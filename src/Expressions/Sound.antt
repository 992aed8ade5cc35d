-- ===== src/Expressions/Sound.antt =====
-- dfsan.cc: the expression of a new label stands for what the program computes.
use kirenenko.Prelude.{
  ℕ, ◌%◌, ◌^◌, ◌≤◌, ◌<◌, ◌≡◌, ◌≢◌, refl, ap, ◌∙◌, arith, true, Bool-cases, ◌⊎◌, inl, inr, ◌&&◌,
  Option, some, ltb, leb, if◌then◌else◌,
}
use native.Mathlib.Nat.{one-le-pow}
use kirenenko.Run.{ok}
use kirenenko.Operators.{Opcodes, is_commutative}
use kirenenko.LabelInfo.{LabelInfo, const_offset, initializing_label}
use kirenenko.UnionTable.Laws.{SameFields, same_iff}
use kirenenko.Runtime.{Runtime}
use kirenenko.Labels.{taint_union, union_info}
use kirenenko.Labels.Invariant.{Valid, HasOlder}
use kirenenko.Labels.Union.{Extends, IsTracked, union_key, taint_union-IsInterned}
use kirenenko.Z3.{Z3, Binary}
use kirenenko.Expressions.{size_of_first, size_of_second}
use kirenenko.Expressions.Nodes.{common_expr, constant_expr}
use kirenenko.Expressions.Plain.{node_expr, two_expr, operand_expr, expr_of, expr_of-node}
use kirenenko.Expressions.Plain.Frame.{expr_of-frame}
use kirenenko.Expressions.Chain.{node_expr-same}
use kirenenko.Expressions.Meaning.{Semantics, Means, OperandMeans, is_arithmetic, operation_of}

module _ ⦃ops : Opcodes⦄ where
  -- The number of an LLVM instruction that is no conversion.
  abbrev pub IsPlainOp : ℕ → Type 0
  IsPlainOp op =
      (2 < op)
      × (op ≤ ops.last_llvm_op)
      × (op ≢ ops.op_zext)
      × (op ≢ ops.op_sext)
      × (op ≢ ops.op_trunc)

  operation_of-arithmetic :
      (op : ℕ) (b : Binary) → operation_of op ≡ some b → is_arithmetic b ≡ true
  unfolding operation_of
  operation_of-arithmetic op b h = ground (arith, h)

  module _ (z : Z3) (info : LabelInfo) where
    common_expr-operation :
        (b : Binary) (x y : z.Expr)
        → IsPlainOp info.op
        → 1 < info.size
        → operation_of info.op ≡ some b
        → common_expr z info x y ≡ z.binary b x y
    unfolding common_expr operation_of
    common_expr-operation b x y plain_op wide h =
        let low : info.op % 2 ^ 8 ≡ info.op = omega (arith, plain_op, ops.fits_byte) in
        ground (arith, low, h, wide)

    node_expr-two :
        (infos : ℕ → LabelInfo) (memory : ℕ → ℕ) (x1 x2 : Option z.Expr)
        → IsPlainOp info.op
        → node_expr z infos memory info x1 x2 ≡ two_expr z infos memory info x1 x2
    unfolding node_expr
    node_expr-two infos memory x1 x2 plain_op = ground (arith, plain_op)

    sizes-plain :
        (info1 info2 : LabelInfo)
        → IsPlainOp info.op
        → info.size ≤ 64
        → (size_of_first z info info2 ≡ info.size) × (size_of_second z info info1 info2 ≡ info.size)
    unfolding size_of_first size_of_second
    sizes-plain info1 info2 plain_op small = ground (arith, plain_op)

  module _ {z : Z3} (s : Semantics z) (infos : ℕ → LabelInfo) (memory : ℕ → ℕ) where
    -- An expression of `width` bits with the value `v`.
    abbrev pub Stands : Option z.Expr → ℕ → ℕ → Type 0
    Stands x width v = (e : z.Expr) × (x ≡ some e) × (z.bv_size e ≡ some width) × (s.eval e ≡ v)

    -- An operand of a label: a value, or a label with an expression that stands for it.
    abbrev pub OperandStands : ℕ → ℕ → ℕ → Type 0
    OperandStands l width v =
        ((l ≡ 0) × (v < 2 ^ width)) ⊎ ((0 < l) × Stands (expr_of z infos memory l) width v)

    operand_expr-Stands :
        (info : LabelInfo) (l width v : ℕ)
        → 1 < info.size
        → 0 < width
        → OperandStands l width v
        → (bits : z.Expr) × (z.bv_val (if leb const_offset l then 0 else v) width ≡ some bits)
          × Stands
              (operand_expr z infos memory info l
                (if leb const_offset l then 0 else v)
                bits
                (expr_of z infos memory l))
              width
              v
    unfolding operand_expr constant_expr
    operand_expr-Stands info l width v wide pos (inl (none', small)) =
        let (bits, e, size, value) = s.bv_val-eval v width pos small in
        (bits, ground (arith, none', e), (bits, ground (arith, none', wide), size, value))
    operand_expr-Stands info l width v wide pos (inr (is_label, (x, e, size, value))) =
        let (bits, e0, size0, value0) =
          s.bv_val-eval 0 width pos (one-le-pow width 2 (omega arith)) in
        let (same_value, same_size) = s.simplify-eval x in
        (
          bits,
          ground (arith, is_label, e0),
          (z.simplify x, ground (arith, is_label, e), same_size ∙ size, same_value ∙ value),
        )

    two_expr-Stands :
        (l1 l2 op size v1 v2 : ℕ) (b : Binary)
        → IsPlainOp op
        → operation_of op ≡ some b
        → 1 < size
        → size ≤ 64
        → OperandStands l1 size v1
        → OperandStands l2 size v2
        → Stands
            (two_expr z infos memory
              (union_info l1 l2 op size v1 v2)
              (expr_of z infos memory l1)
              (expr_of z infos memory l2))
            size
            (s.compute b size v1 v2)
    unfolding two_expr union_info
    two_expr-Stands l1 l2 op size v1 v2 b plain_op operation wide small h1 h2 =
        let info = union_info l1 l2 op size v1 v2 in
        let (bits1, e1, (x1, f1, size1, value1)) =
          operand_expr-Stands info l1 size v1 wide (omega (arith, wide)) h1 in
        let (bits2, e2, (x2, f2, size2, value2)) =
          operand_expr-Stands info l2 size v2 wide (omega (arith, wide)) h2 in
        let (e, found, size', value) =
          s.binary-eval b x1 x2 size (operation_of-arithmetic op b operation) size1 size2 in
        let (w1, w2) = sizes-plain z info (infos l1) (infos l2) plain_op small in
        let c = common_expr-operation z info b x1 x2 plain_op wide operation in
        (
          e,
          ground (arith, w1, w2, e1, f1, e2, f2, c, found),
          size',
          value ∙ rw (value1, value2) refl,
        )

    -- The expression of a label whose entry is that of a union.
    union-Stands :
        (last label l1 l2 op size v1 v2 : ℕ) (b : Binary)
        → ((l : ℕ) → 0 < l → l ≤ last → HasOlder l (infos l))
        → label ≤ last
        → 0 < label
        → label ≢ initializing_label
        → SameFields (infos label) (union_info l1 l2 op size v1 v2)
        → IsPlainOp op
        → operation_of op ≡ some b
        → 1 < size
        → size ≤ 64
        → OperandStands l1 size v1
        → OperandStands l2 size v2
        → Stands (expr_of z infos memory label) size (s.compute b size v1 v2)
    unfolding union_info
    union-Stands last label l1 l2 op size v1 v2 b older le pos proper fields plain_op operation wide
          small h1 h2 =
        let info = union_info l1 l2 op size v1 v2 in
        let x1 = expr_of z infos memory l1 in
        let x2 = expr_of z infos memory l2 in
        let node = expr_of-node z infos memory last older label le pos proper in
        let entry =
          node_expr-same z infos memory (infos label) info (expr_of z infos memory (infos label).l1)
            (expr_of z infos memory (infos label).l2) fields in
        let (e1, e2, _, _, _, _) = fields in
        let operands : node_expr z infos memory info (expr_of z infos memory (infos label).l1)
              (expr_of z infos memory (infos label).l2)
            ≡ node_expr z infos memory info x1 x2 =
          rw (e1, e2) refl in
        let two = node_expr-two z info infos memory x1 x2 plain_op in
        rw (node ∙ entry ∙ operands ∙ two)
          (two_expr-Stands l1 l2 op size v1 v2 b plain_op operation wide small h1 h2)

  -- An operand keeps its meaning in every later state.
  pub OperandMeans-later :
      {z : Z3} (s : Semantics z) (r r' : Runtime) (l width v : ℕ)
      → Valid r
      → Extends r r'
      → OperandMeans s r l width v
      → OperandStands s r'.label_info r'.memory l width v
  OperandMeans-later s r r' l width v valid later (inl h) = inl h
  OperandMeans-later {z} s r r' l width v valid later (inr (pos, le, (e, found, size, value))) =
      let same =
        expr_of-frame z r.label_info r'.label_info r'.memory r.last_label valid.older later.infos l
          le in
      let here = ap (λ (memory : ℕ → ℕ). expr_of z r.label_info memory l) later.memory in
      inr (pos, (e, same ∙ here ∙ found, size, value))

  -- In a valid state, let the operands of a tracked union be values or labels that mean them, on
  -- 2 to 64 bits. If the union for an operation of LLVM on integers returns, its label means, in
  -- the new state, what the operation computes from the values. The laws of Semantics are assumed
  -- of Z3.
  pub taint_union-Means :
      {z : Z3} (s : Semantics z) (l1 l2 op size v1 v2 : ℕ) (b : Binary) (r : Runtime) {label : ℕ}
      {r' : Runtime}
      → Valid r
      → IsTracked l1 l2 op
      → IsPlainOp op
      → operation_of op ≡ some b
      → 1 < size
      → size ≤ 64
      → taint_union l1 l2 op size v1 v2 r ≡ ok label r'
      → OperandMeans s r l1 size v1
      → OperandMeans s r l2 size v2
      → Means s r' label size (s.compute b size v1 v2)
  taint_union-Means s l1 l2 op size v1 v2 b r {label} {r'} valid tracked plain_op operation wide
        small run m1 m2 =
      let i = taint_union-IsInterned l1 l2 op size v1 v2 r valid tracked run in
      let fields = (same_iff (r'.label_info label) (union_key l1 l2 op size v1 v2)).0 i.entry in
      let h1 = OperandMeans-later s r r' l1 size v1 valid i.extends m1 in
      let h2 = OperandMeans-later s r r' l2 size v2 valid i.extends m2 in
      let (pos, le) = i.range in
      let proper : label ≢ initializing_label = omega (arith, i.valid.room, le) in
      elim (Bool-cases (ltb l2 l1 && is_commutative op)) [
        | inl swapped ↦
            let comm = s.compute_comm op b size v1 v2 (ground (arith, swapped)) operation in
            rw (comm) (
              union-Stands s r'.label_info r'.memory r'.last_label label l2 l1 op size v2 v1 b
                i.valid.older le pos proper (rw (swapped) at fields) plain_op operation wide small
                h2 h1)
        | inr kept ↦
            union-Stands s r'.label_info r'.memory r'.last_label label l1 l2 op size v1 v2 b
              i.valid.older le pos proper (rw (kept) at fields) plain_op operation wide small h1 h2
      ]
