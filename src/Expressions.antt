-- ===== src/Expressions.antt =====
-- dfsan.cc: `serialize`, which makes the Z3 expression of a label and collects the offsets of the
-- input that it depends on. Expressions are cached in the label table. A `z3::exception` is the
-- result `none`; what was written to the table before stays written.
pub mod Nodes
pub mod Plain
pub mod Coherent
pub mod Operands
pub mod Nodewise
pub mod Chain
pub mod Correct
pub mod Meaning
pub mod Sound
use kirenenko.Prelude.{
  ℕ, zero, suc, ◌+◌, ◌-◌, ◌*◌, ◌%◌, Bool, true, false, ◌&&◌, ◌||◌, not, Option, none, some, List,
  [], ◌∷◌, ◌++◌, ◌==◌, ltb, leb, if◌then◌else◌, update,
}
use mathlib.Core.Option
use kirenenko.Word.{u8, u32}
use kirenenko.Run.{Step, ok, died, dangling_pointer, assertion_failed, out_of_fuel}
use kirenenko.Operators.{
  Opcodes, op_not, op_neg, op_load, op_extract, op_concat, op_fmemcmp, op_fsize,
}
use kirenenko.LabelInfo.{LabelInfo, const_offset, initializing_label}
use kirenenko.Runtime.{Runtime}
use kirenenko.Z3.{Z3}
use Nodes.{
  load_expr, zext_base, sext_base, zext_expr, sext_expr, trunc_expr, extract_expr, not_expr,
  neg_expr, memcmp_expr, fsize_expr, read_concrete, common_expr, constant_expr, rest_size,
}

-- The heap of expressions and of sets of offsets, which `expr` and `deps` of an entry lead into.
pub record World (z : Z3) : Type 0 where
  pub runtime : Runtime
  pub exprs : ℕ → Option z.Expr
  pub sets : ℕ → Option (List ℕ)
  pub next_pointer : ℕ

abbrev pub Try : Z3 → Type 0 → Type 0
Try z A = World z → Step (World z) (Option A)

infixl 5 ◌>>=◌ ◌>>◌
abbrev pub ◌>>=◌ : {z : Z3} {A B : Type 0} → Try z A → (A → Try z B) → Try z B
◌>>=◌ m f w = elim (m w) [
  | ok (some a) w' ↦ f a w'
  | ok none w' ↦ ok none w'
  | died e w' ↦ died e w'
]

abbrev pub ◌>>◌ : {z : Z3} {A B : Type 0} → Try z A → Try z B → Try z B
m >> k = m >>= λ _. k

abbrev pub plain : (z : Z3) → z.Expr → Option (z.Expr × ℕ)
plain z e = some (e, 0)

module _ {z : Z3} where
  abbrev pub give : {A : Type 0} → Option A → Try z A
  give o w = ok o w

  abbrev pub info_of : World z → ℕ → LabelInfo
  info_of w label = w.runtime.label_info label

  abbrev pub set_info : World z → ℕ → LabelInfo → World z
  set_info w label info = record w {
    runtime = record w.runtime { label_info = update w.runtime.label_info label info };
  }

  unfoldable pub set_tree_size : ℕ → ℕ → Try z (Unit {0})
  set_tree_size label n w =
      ok (some tt) (set_info w label (record (info_of w label) { tree_size = n }))

  -- `info->tree_size = get_label_info(operand)->tree_size`
  unfoldable pub copy_tree_size : ℕ → ℕ → Try z (Unit {0})
  unfolding set_tree_size
  copy_tree_size label operand w = set_tree_size label (info_of w operand).tree_size w

  -- `cache_expr`: copies of the expression and of the set on the heap, and pointers to them.
  unfoldable pub cache_expr : ℕ → z.Expr → List ℕ → Try z (z.Expr × List ℕ)
  cache_expr label e deps w =
      let p = w.next_pointer in
      let w' = set_info w label (record (info_of w label) { expr = p; deps = p + 1 }) in
      ok (some (e, deps)) (record w' {
        exprs = update w.exprs p (some e);
        sets = update w.sets (p + 1) (some deps);
        next_pointer = p + 2;
      })

  -- The cached expression, and its set inserted into `deps`.
  unfoldable pub cached : LabelInfo → List ℕ → Try z (z.Expr × List ℕ)
  cached info deps w = elim (w.exprs info.expr) [
    | none ↦ died dangling_pointer w
    | some e ↦ elim (w.sets info.deps) [
      | none ↦ died dangling_pointer w
      | some d ↦ ok (some (e, d ++ deps)) w
    ]
  ]

  -- A label with one operand. `base` reads the expression of the operand, `build` makes the new
  -- one; the size of the tree is set between them.
  unfoldable pub one_operand :
      (ℕ → List ℕ → Try z (z.Expr × List ℕ))
      → ℕ
      → ℕ
      → (z.Expr → Option (z.Expr × ℕ))
      → (z.Expr × ℕ → Option z.Expr)
      → List ℕ
      → Try z (z.Expr × List ℕ)
  one_operand self label operand base build deps = do
    (e, deps') ← self operand deps
    b ← give (base e)
    copy_tree_size label operand
    e' ← give (build b)
    cache_expr label e' deps'

-- The offsets `offset + i`, … of a `Load`.
unfoldable pub load_offsets : ℕ → ℕ → ℕ → List ℕ
load_offsets offset i zero = []
load_offsets offset i (suc rounds) = u32 (offset + i) ∷ load_offsets offset (i + 1) rounds

module _ ⦃ops : Opcodes⦄ (z : Z3) where
  -- `assert` in a function that may throw.
  abbrev pub check : Bool → Try z (Unit {0})
  check b w = if b then ok (some tt) w else died assertion_failed w

  -- An operand of a common operator: its simplified expression, or its concrete value.
  unfoldable pub operand :
      (ℕ → List ℕ → Try z (z.Expr × List ℕ))
      → LabelInfo
      → ℕ
      → ℕ
      → z.Expr
      → List ℕ
      → Try z (z.Expr × List ℕ)
  operand self info l value bits deps =
      if leb const_offset l
      then (do (e, deps') ← self l deps; give (some (z.simplify e, deps')))
      else give (some (constant_expr z info value bits, deps))

  -- The size of a concrete first operand, and that of a concrete second operand.
  unfoldable pub size_of_first : LabelInfo → LabelInfo → ℕ
  size_of_first info info2 =
      if info.op == op_concat && info.l1 == 0 then rest_size info info2 else u8 info.size

  unfoldable pub size_of_second : LabelInfo → LabelInfo → LabelInfo → ℕ
  unfolding size_of_first
  size_of_second info info1 info2 =
      if info.op == op_concat && info.l2 == 0
      then rest_size info info1
      else size_of_first info info2

  -- A label with two operands. The second one collects its offsets in a set of its own.
  unfoldable pub two_operands :
      (ℕ → List ℕ → Try z (z.Expr × List ℕ)) → ℕ → LabelInfo → List ℕ → Try z (z.Expr × List ℕ)
  unfolding size_of_first size_of_second
  two_operands self label info deps w =
      (do
        check (not (info.op == op_concat && info.l1 == 0) || leb const_offset info.l2)
        bits1 ← give (z.bv_val info.op1 (size_of_first info (info_of w info.l2)))
        (op1, deps1) ← operand self info info.l1 info.op1 bits1 deps
        check (not (info.op == op_concat && info.l2 == 0) || leb const_offset info.l1)
        bits2 ←
            give (z.bv_val info.op2 (size_of_second info (info_of w info.l1) (info_of w info.l2)))
        (op2, deps2) ← operand self info info.l2 info.op2 bits2 []
        λ w'.
            set_tree_size label
              (u32 ((info_of w' info.l1).tree_size + (info_of w' info.l2).tree_size)) w'
        e ← give (common_expr z info op1 op2)
        cache_expr label e (deps2 ++ deps1))
        w

  unfoldable pub memcmp_node :
      (ℕ → List ℕ → Try z (z.Expr × List ℕ)) → ℕ → LabelInfo → List ℕ → Try z (z.Expr × List ℕ)
  memcmp_node self label info deps = do
    (op1, deps1) ← if leb const_offset info.l1 then self info.l1 deps else λ w.
        give
          (Option.map (λ e. (e, deps)) (read_concrete z w.runtime.memory info.op1 (u8 info.size))) w
    (op2, deps2) ← if ltb info.l2 const_offset then give none else self info.l2 deps1
    set_tree_size label 1
    e ← give (memcmp_expr z op1 op2)
    give (some (e, deps2))

  unfoldable pub serialize_node :
      (ℕ → List ℕ → Try z (z.Expr × List ℕ)) → ℕ → LabelInfo → List ℕ → Try z (z.Expr × List ℕ)
  serialize_node self label info deps =
      if info.op == 0
      then (do set_tree_size label 1; give (some (z.input (u32 info.op1), u32 info.op1 ∷ deps)))
      else if info.op == op_load
      then (λ w.
          let offset = (info_of w info.l1).op1 in
          (do
            e ← give (load_expr z offset info.l2)
            set_tree_size label 1
            cache_expr label e (u32 offset ∷ load_offsets offset 1 (info.l2 - 1) ++ deps))
            w)
      else if info.op == ops.op_zext
      then one_operand self label info.l1 (zext_base z) (zext_expr z info) deps
      else if info.op == ops.op_sext
      then one_operand self label info.l1 (sext_base z) (sext_expr z info) deps
      else if info.op == ops.op_trunc
      then one_operand self label info.l1 (plain z) (trunc_expr z info) deps
      else if info.op == op_extract
      then one_operand self label info.l1 (plain z) (extract_expr z info) deps
      else if info.op == op_not
      then (if info.l2 == 0 || not (info.size == 1)
          then give none
          else one_operand self label info.l2 (plain z) (not_expr z) deps)
      else if info.op == op_neg
      then (if info.l2 == 0
          then give none
          else one_operand self label info.l2 (plain z) (neg_expr z) deps)
      else if info.op == op_fmemcmp
      then memcmp_node self label info deps
      else if info.op == op_fsize
      then (do
        base ← give (z.file_size info.size)
        set_tree_size label 1
        e ← give (fsize_expr z info base)
        give (some (e, deps)))
      else two_operands self label info deps

  -- `serialize`, with a bound on the depth of its recursion.
  unfoldable pub serialize : ℕ → ℕ → List ℕ → Try z (z.Expr × List ℕ)
  serialize zero label deps w = died out_of_fuel w
  serialize (suc fuel) label deps w =
      let info = info_of w label in
      let node = serialize_node (serialize fuel) label info deps in
      if ltb label const_offset || label == initializing_label
      then ok none w
      else if not (info.expr == 0)
      then cached info deps w
      else node w
