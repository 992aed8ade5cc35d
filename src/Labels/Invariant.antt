-- ===== src/Labels/Invariant.antt =====
-- dfsan.cc: the invariant of the label table and the union table, and the two ways to make a
-- label.
use kirenenko.Prelude.{
  ℕ, ◌+◌, ◌≤◌, ◌<◌, ◌≡◌, refl, sym, ◌⊎◌, inl, inr, le_add_one-cases, arith, false, All-map, ◌==◌,
  if◌then◌else◌, Bool-cases,
}
use kirenenko.Run.{ok}
use kirenenko.Allocator.Blocks.{IsValid, alloc-IsValid}
use kirenenko.LabelInfo.{LabelInfo, constant_info, same, some_dfsan_label}
use kirenenko.UnionTable.{Node, UnionTable, link, lookup}
use kirenenko.UnionTable.Laws.{SameFields, same_refl, lookup-link, lookup-same, bucket-link}
use kirenenko.UnionTable.Frame.{IsNode, HasNodes, Agree, lookup-frame}
use kirenenko.Runtime.{Runtime}
use kirenenko.Labels.{dfsan_create_label}
use kirenenko.Labels.Fresh.{
  HasRoom, IsFresh, IsFresh-old, IsFresh-new, IsNewUnion, stored, node_of,
  dfsan_create_label-IsFresh,
}

-- The entry of an input byte: no operator and no operands.
abbrev pub IsInput : LabelInfo → Type 0
IsInput info = (info.op ≡ 0) × (info.l1 ≡ 0) × (info.l2 ≡ 0)

-- A label is an input byte, or the union table returns it for its own entry.
abbrev pub IsKnown : Runtime → ℕ → Type 0
IsKnown r l =
    IsInput (r.label_info l)
    ⊎ (lookup r.label_info r.union_table (r.label_info l) ≡ some_dfsan_label l)

-- The operands of a label are older labels.
abbrev pub HasOlder : ℕ → LabelInfo → Type 0
HasOlder l info = (info.l1 < l) × (info.l2 < l)

pub record Valid (r : Runtime) : Type 0 where
  pub room : HasRoom r.last_label
  pub nodes : HasNodes r.last_label r.union_table
  pub known : (l : ℕ) → 0 < l → l ≤ r.last_label → IsKnown r l
  pub older : (l : ℕ) → 0 < l → l ≤ r.last_label → HasOlder l (r.label_info l)
  pub constant : SameFields (r.label_info 0) constant_info
  pub blocks : IsValid r.allocator

HasNodes-link :
    (last l i : ℕ) (t : UnionTable) (n : Node)
    → last ≤ l
    → IsNode l n
    → HasNodes last t
    → HasNodes l (link t i n)
HasNodes-link last l i t n le here h j =
    let older =
      λ (k : ℕ). All-map {Q = IsNode l} (λ m p. (p.0, p.1, omega arith)) (t.bucket k) (h k) in
    rw bucket-link
      (elim (Bool-cases (j == i)) [ inl e ↦ rw e (here, older i) | inr e ↦ rw e (older j) ])

Agree-fresh :
    {info : LabelInfo} {r r' : Runtime} {label : ℕ}
    → IsFresh info r label r'
    → Agree r.last_label r.label_info r'.label_info
Agree-fresh f l le = rw (IsFresh-old f l le) (refl, refl, refl, refl, refl, refl)

pub same-stored :
    (info : LabelInfo) (r : Runtime) (key : LabelInfo) → same (stored info r) key ≡ same info key
unfolding same
same-stored info r key = refl

module _ (info : LabelInfo) (r : Runtime) (v : Valid r) {label : ℕ} {r' : Runtime} where
  -- What the table returns after a new union.
  pub lookup-new_union :
      IsNewUnion info r label r'
      → (key : LabelInfo)
      → lookup r'.label_info r'.union_table key ≡ (
          if same info key
          then some_dfsan_label (r.last_label + 1)
          else lookup r.label_info r.union_table key)
  lookup-new_union n key =
      let entry = IsFresh-new n.made in
      let linked = lookup-link r'.label_info r.union_table (node_of (r.last_label + 1) r) key in
      let frame =
        lookup-frame r.label_info r'.label_info r.last_label r.union_table key v.nodes
          (Agree-fresh n.made) in
      rw (n.table, ← entry, linked, entry, same-stored, ← frame)

  module _ (n : IsNewUnion info r label r')
      (miss : (lookup r.label_info r.union_table info).isa ≡ false) where
    new_union-IsKnown_old : (l : ℕ) → 0 < l → l ≤ r.last_label → IsKnown r' l
    unfolding some_dfsan_label
    new_union-IsKnown_old l pos le = rw (IsFresh-old n.made l le) (elim (v.known l pos le) [
      | inl input ↦ inl input
      | inr hit ↦ inr (
          ground (
            arith,
            lookup-new_union n (r.label_info l),
            lookup-same r.label_info r.union_table info (r.label_info l),
            miss,
            hit,
          ))
    ])

    new_union-IsKnown : (l : ℕ) → 0 < l → l ≤ r.last_label + 1 → IsKnown r' l
    new_union-IsKnown l pos le = elim (le_add_one-cases l r.last_label le) [
      | inl old ↦ new_union-IsKnown_old l pos old
      | inr new ↦
          rw (new, IsFresh-new n.made)
            (inr (
              ground (
                arith,
                lookup-new_union n (stored info r),
                same-stored info r (stored info r),
                same_refl (stored info r),
              )))
    ]

    new_union-HasOlder : (l : ℕ) → 0 < l → l ≤ r.last_label + 1 → HasOlder l (r'.label_info l)
    new_union-HasOlder l pos le = elim (le_add_one-cases l r.last_label le) [
      | inl old ↦ rw (IsFresh-old n.made l old) (v.older l pos old)
      | inr new ↦ rw (new, IsFresh-new n.made) (omega (arith, n.operands))
    ]

pub new_union-Valid :
    (info : LabelInfo) (r : Runtime) {label : ℕ} {r' : Runtime}
    → Valid r
    → (lookup r.label_info r.union_table info).isa ≡ false
    → IsNewUnion info r label r'
    → Valid r'
new_union-Valid info r {r'} v miss n = record {
  room = rw n.made.last n.made.room;
  nodes =
      rw (n.made.last, n.table)
        (HasNodes-link r.last_label (r.last_label + 1) _ r.union_table _ (omega arith) (omega arith)
          v.nodes);
  known = λ l pos le. new_union-IsKnown info r v n miss l pos (omega (arith, n.made.last));
  older = λ l pos le. new_union-HasOlder info r v n miss l pos (omega (arith, n.made.last));
  constant = rw (IsFresh-old n.made 0 (omega arith)) v.constant;
  blocks = (alloc-IsValid 24 v.blocks (omega arith) n.allocator).0;
}

-- An input label is not in the table, and every lookup stays what it was.
module _ (offset : ℕ) (r : Runtime) (v : Valid r) {label : ℕ} {r' : Runtime} where
  create-lookup :
      dfsan_create_label offset r ≡ ok label r'
      → (key : LabelInfo)
      → lookup r'.label_info r'.union_table key ≡ lookup r.label_info r.union_table key
  create-lookup run key =
      let (f, table, _) = dfsan_create_label-IsFresh offset r v.room run in
      rw table (
        sym (
          lookup-frame r.label_info r'.label_info r.last_label r.union_table key v.nodes
            (Agree-fresh f)))

  create-IsKnown :
      dfsan_create_label offset r ≡ ok label r'
      → (l : ℕ) → 0 < l
      → l ≤ r.last_label + 1
      → IsKnown r' l × HasOlder l (r'.label_info l)
  create-IsKnown run l pos le =
      let f = (dfsan_create_label-IsFresh offset r v.room run).0 in
      elim (le_add_one-cases l r.last_label le) [
        | inl old ↦
            rw (IsFresh-old f l old, create-lookup run (r.label_info l))
              (v.known l pos old, v.older l pos old)
        | inr new ↦ rw (new, IsFresh-new f) (inl (refl, refl, refl), omega arith)
      ]

  -- When `dfsan_create_label` returns, it has kept the invariant of the label table and the union
  -- table.
  pub dfsan_create_label-Valid : dfsan_create_label offset r ≡ ok label r' → Valid r'
  dfsan_create_label-Valid run =
      let (f, table, allocator) = dfsan_create_label-IsFresh offset r v.room run in
      record {
        room = rw f.last f.room;
        nodes = λ i.
            rw (f.last, table)
              (All-map {Q = IsNode (r.last_label + 1)} (λ m p. (p.0, p.1, omega arith)) _
                (v.nodes i));
        known = λ l pos le. (create-IsKnown run l pos (omega (arith, f.last))).0;
        older = λ l pos le. (create-IsKnown run l pos (omega (arith, f.last))).1;
        constant = rw (IsFresh-old f 0 (omega arith)) v.constant;
        blocks = rw allocator v.blocks;
      }

-- The invariant does not speak of shadow memory.
pub Valid-shadow : {r : Runtime} (shadow : ℕ → ℕ) → Valid r → Valid (record r { shadow = shadow })
Valid-shadow shadow v = record {
  room = v.room;
  nodes = v.nodes;
  known = v.known;
  older = v.older;
  constant = v.constant;
  blocks = v.blocks;
}
