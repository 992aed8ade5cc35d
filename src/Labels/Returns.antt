-- ===== src/Labels/Returns.antt =====
-- dfsan.cc: when `__taint_union` comes back, by the room that is left.
use kirenenko.Prelude.{
  ◌*◌, ◌≢◌, ◌⊎◌, ℕ, ◌+◌, ◌≤◌, ◌<◌, ◌≡◌, inl, inr, ◌∙◌, arith, update, Bool-cases,
}
use kirenenko.Run.{Returns, ok}
use kirenenko.Operators.{Opcodes, op_fsize}
use kirenenko.Allocator.{allocator_alloc}
use kirenenko.LabelInfo.{LabelInfo, option_eq}
use kirenenko.UnionTable.{hash, link, insert, lookup}
use kirenenko.Runtime.{Runtime, dfsan_check_label}
use kirenenko.Labels.{table_insert, new_union, intern, union_info, union_ordered, taint_union}
use kirenenko.Labels.Fresh.{HasRoom, stored, node_of}
use kirenenko.Labels.Invariant.{Valid}
use kirenenko.Labels.Union.{
  IsTracked, IsInterned, union_key, taint_union-intern, taint_union-IsInterned,
}

-- There is room for one more label and for one more node of the table.
pub record HasSpace (r : Runtime) : Type 0 where
  pub label : HasRoom (r.last_label + 1)
  pub node : r.allocator.next_usable_byte + 24 < r.allocator.end_addr

-- There is room for `n` more labels and nodes.
pub record HasSpaceFor (n : ℕ) (r : Runtime) : Type 0 where
  pub label : HasRoom (r.last_label + n)
  pub node : r.allocator.next_usable_byte + 24 * n < r.allocator.end_addr

new_union-returns :
    (info : LabelInfo) (n : ℕ) (r : Runtime)
    → Valid r
    → HasSpaceFor (n + 1) r
    → info.l1 ≤ r.last_label
    → info.l2 ≤ r.last_label
    → Returns (new_union info r) λ label r'. HasSpaceFor n r'
unfolding new_union table_insert insert allocator_alloc dfsan_check_label
new_union-returns info n r v space h1 h2 = (
  r.last_label + 1,
  record r {
    last_label = r.last_label + 1;
    label_info = update r.label_info (r.last_label + 1) (stored info r);
    allocator = record r.allocator { next_usable_byte = r.allocator.next_usable_byte + 24 };
    union_table =
        link r.union_table (hash r.union_table (stored info r)) (node_of (r.last_label + 1) r);
  },
  ground (arith, space.label, space.node),
  record { label = omega (arith, space.label); node = omega (arith, space.node) },
)

HasSpaceFor-less : (n : ℕ) (r : Runtime) → HasSpaceFor (n + 1) r → HasSpaceFor n r
HasSpaceFor-less n r space = record {
  label = omega (arith, space.label);
  node = omega (arith, space.node);
}

intern-returns :
    (info : LabelInfo) (n : ℕ) (r : Runtime)
    → Valid r
    → HasSpaceFor (n + 1) r
    → info.l1 ≤ r.last_label
    → info.l2 ≤ r.last_label
    → Returns (intern info r) λ label r'. HasSpaceFor n r'
unfolding intern option_eq
intern-returns info n r v space h1 h2 =
    let (label, r', run, left) = new_union-returns info n r v space h1 h2 in
    elim (Bool-cases (lookup r.label_info r.union_table info).isa) [
      | inl hit ↦ (
        (lookup r.label_info r.union_table info).content,
        r,
        ground arith,
        HasSpaceFor-less n r space,
      )
      | inr miss ↦ (label, r', ground arith, left)
    ]

module _ ⦃ops : Opcodes⦄ where
  pub taint_union-zero :
      (op size x y : ℕ) (r : Runtime) → op ≢ op_fsize → taint_union 0 0 op size x y r ≡ ok 0 r
  unfolding taint_union union_ordered
  taint_union-zero op size x y r h = ground (arith, h)

  -- A tracked union of existing labels returns while there is room for one more label, and then
  -- its label is interned.
  pub taint_union-returns :
      (l1 l2 op size op1 op2 : ℕ) (r : Runtime)
      → Valid r
      → HasSpace r
      → IsTracked l1 l2 op
      → l1 ≤ r.last_label
      → l2 ≤ r.last_label
      → Returns
          (taint_union l1 l2 op size op1 op2 r)
          λ label r'. IsInterned (union_key l1 l2 op size op1 op2) r label r'
  unfolding union_info
  taint_union-returns l1 l2 op size op1 op2 r v space t h1 h2 =
      let key = union_key l1 l2 op size op1 op2 in
      let one : HasSpaceFor (0 + 1) r = record { label = space.label; node = space.node } in
      let (label, r', run, _) = intern-returns key 0 r v one (ground arith) (ground arith) in
      let ran = taint_union-intern l1 l2 op size op1 op2 r t ∙ run in
      (label, r', ran, taint_union-IsInterned l1 l2 op size op1 op2 r v t ran)

  -- A union on existing labels returns while there is room, and uses up one label and node at most.
  pub taint_union-HasSpaceFor :
      (l1 l2 op size op1 op2 n : ℕ) (r : Runtime)
      → Valid r
      → HasSpaceFor (n + 1) r
      → op ≢ op_fsize
      → l1 ≤ r.last_label
      → l2 ≤ r.last_label
      → Returns (taint_union l1 l2 op size op1 op2 r) λ label r'. HasSpaceFor n r'
  unfolding union_info
  taint_union-HasSpaceFor l1 l2 op size op1 op2 n r v space other h1 h2 =
      let key = union_key l1 l2 op size op1 op2 in
      let t : IsTracked l1 l2 op ⊎ ((l1 ≡ 0) × (l2 ≡ 0)) = ground (arith, v.room, other) in
      elim t [
        | inl tracked ↦
            let (label, r', run, left) =
              intern-returns key n r v space (ground arith) (ground arith) in
            (label, r', taint_union-intern l1 l2 op size op1 op2 r tracked ∙ run, left)
        | inr (e1, e2) ↦ (
          0,
          r,
          rw (e1, e2) (taint_union-zero op size op1 op2 r other),
          HasSpaceFor-less n r space,
        )
      ]
