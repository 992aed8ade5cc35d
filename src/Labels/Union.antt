-- ===== src/Labels/Union.antt =====
-- dfsan.cc: `__taint_union` as hash consing.
use kirenenko.Prelude.{
  ℕ, ◌+◌, ◌≤◌, ◌<◌, ◌≡◌, ◌≢◌, refl, sym, ap, ◌∙◌, ◌⊎◌, inl, inr, lt_trichotomy, arith, true, false,
  Bool-cases, ◌&&◌, ltb, if◌then◌else◌,
}
use kirenenko.Run.{ok}
use kirenenko.Operators.{Opcodes, is_commutative, op_fsize}
use kirenenko.LabelInfo.{
  LabelInfo, LabelOption, same, some_dfsan_label, option_eq, initializing_label,
}
use kirenenko.UnionTable.{lookup}
use kirenenko.UnionTable.Laws.{SameFields, same_iff, same_refl, same_symm, same_trans, lookup-same}
use kirenenko.UnionTable.Frame.{lookup-IsHit}
use kirenenko.Runtime.{Runtime}
use kirenenko.Labels.{new_union, intern, union_info, union_ordered, taint_union}
use kirenenko.Labels.Fresh.{new_union-IsNewUnion, IsFresh-old, IsFresh-new}
use kirenenko.Labels.Invariant.{Valid, new_union-Valid, lookup-new_union, same-stored}

-- What a lookup answers, as an optional label.
abbrev pub Finds : Runtime → LabelInfo → ℕ → Type 0
Finds r key label = lookup r.label_info r.union_table key ≡ some_dfsan_label label

-- `r'` may have more labels than `r`; all labels and lookups of `r` are still there.
pub record Extends (r r' : Runtime) : Type 0 where
  pub last : r.last_label ≤ r'.last_label
  pub infos : (l : ℕ) → l ≤ r.last_label → r'.label_info l ≡ r.label_info l
  pub lookups : (key : LabelInfo) (label : ℕ) → Finds r key label → Finds r' key label
  pub memory : r'.memory ≡ r.memory

-- The labels and lookups of `r` are still there, whatever happened to the memory.
pub record Remembers (r r' : Runtime) : Type 0 where
  pub last : r.last_label ≤ r'.last_label
  pub infos : (l : ℕ) → l ≤ r.last_label → r'.label_info l ≡ r.label_info l
  pub lookups : (key : LabelInfo) (label : ℕ) → Finds r key label → Finds r' key label

pub Extends-Remembers :
    {r s : Runtime} (shadow memory : ℕ → ℕ)
    → Extends r s
    → Remembers r (record s { shadow = shadow; memory = memory })
Extends-Remembers shadow memory e = record { last = e.last; infos = e.infos; lookups = e.lookups }

pub Extends-refl : (r : Runtime) → Extends r r
Extends-refl r = record {
  last = omega arith;
  infos = λ l le. refl;
  lookups = λ key label h. h;
  memory = refl;
}

pub Extends-trans : {r s t : Runtime} → Extends r s → Extends s t → Extends r t
Extends-trans p q = record {
  last = omega (arith, p.last, q.last);
  infos = λ l le. q.infos l (omega (arith, p.last)) ∙ p.infos l le;
  lookups = λ key label h. q.lookups key label (p.lookups key label h);
  memory = q.memory ∙ p.memory;
}

pub Extends-shadow :
    {r s : Runtime} (shadow : ℕ → ℕ) → Extends r s → Extends r (record s { shadow = shadow })
Extends-shadow shadow e = record {
  last = e.last;
  infos = e.infos;
  lookups = e.lookups;
  memory = e.memory;
}

-- `label` stands for the key `info` in the state `r'` after the call.
pub record IsInterned (info : LabelInfo) (r : Runtime) (label : ℕ) (r' : Runtime) : Type 0 where
  pub valid : Valid r'
  pub extends : Extends r r'
  pub shadow : r'.shadow ≡ r.shadow
  pub range : (0 < label) × (label ≤ r'.last_label)
  pub grows : r'.last_label ≤ r.last_label + 1
  pub entry : same (r'.label_info label) info ≡ true
  pub finds : Finds r' info label

new_union-IsInterned :
    (info : LabelInfo) (r : Runtime) {label : ℕ} {r' : Runtime}
    → Valid r
    → (lookup r.label_info r.union_table info).isa ≡ false
    → new_union info r ≡ ok label r'
    → IsInterned info r label r'
unfolding some_dfsan_label
new_union-IsInterned info r {label} {r'} v miss run =
    let n = new_union-IsNewUnion info r v.room run in
    record {
      valid = new_union-Valid info r v miss n;
      extends = record {
        last = omega (arith, n.made.last);
        infos = IsFresh-old n.made;
        lookups = λ key label h. ground (
          arith,
          lookup-new_union info r v n key,
          lookup-same r.label_info r.union_table info key,
        );
        memory = n.made.memory;
      };
      shadow = n.made.shadow;
      range = omega (arith, n.made.last, n.made.fresh);
      grows = omega (arith, n.made.last);
      entry = rw (n.made.fresh, IsFresh-new n.made, same-stored) (same_refl info);
      finds = ground (arith, lookup-new_union info r v n info, same_refl info, n.made.fresh);
    }

-- Either the table has the key and nothing changes, or a new label is made.
intern-cases :
    (info : LabelInfo) (r : Runtime) {label : ℕ} {r' : Runtime}
    → intern info r ≡ ok label r'
    → (Finds r info label × (r' ≡ r))
      ⊎ (((lookup r.label_info r.union_table info).isa ≡ false) × (new_union info r ≡ ok label r'))
unfolding intern option_eq some_dfsan_label
intern-cases info r run = elim (Bool-cases (lookup r.label_info r.union_table info).isa) [
  | inl hit ↦ inl (ground arith, ground arith)
  | inr miss ↦ inr (miss, ground arith)
]

intern-Finds :
    (info : LabelInfo) (r : Runtime) (label : ℕ) → Finds r info label → intern info r ≡ ok label r
unfolding intern option_eq some_dfsan_label
intern-Finds info r label h = ground arith

pub intern-IsInterned :
    (info : LabelInfo) (r : Runtime) {label : ℕ} {r' : Runtime}
    → Valid r
    → intern info r ≡ ok label r'
    → IsInterned info r label r'
unfolding some_dfsan_label
intern-IsInterned info r {label} {r'} v run = elim (intern-cases info r run) [
  | inr (miss, made) ↦ new_union-IsInterned info r v miss made
  | inl (finds, e) ↦
      let hit = lookup-IsHit r.label_info r.last_label r.union_table info v.nodes in
      let (pos, le, entry) = hit (ap (λ (o : LabelOption). o.isa) finds) in
      let content : (lookup r.label_info r.union_table info).content ≡ label =
        ap (λ (o : LabelOption). o.content) finds in
      rw e (record {
        valid = v;
        extends = Extends-refl r;
        shadow = refl;
        range = omega arith;
        grows = omega arith;
        entry = rw content at entry;
        finds = finds;
      })
]

-- What holds after every union that returns, tracked or not.
pub record Keeps (r r' : Runtime) : Type 0 where
  pub valid : Valid r'
  pub extends : Extends r r'
  pub shadow : r'.shadow ≡ r.shadow

module _ ⦃ops : Opcodes⦄ where
  -- The key under which a union is interned, after the operands were put in order.
  abbrev pub union_key : ℕ → ℕ → ℕ → ℕ → ℕ → ℕ → LabelInfo
  union_key l1 l2 op size op1 op2 =
      if ltb l2 l1 && is_commutative op
      then union_info l2 l1 op size op2 op1
      else union_info l1 l2 op size op1 op2

  -- Both operands are labels or constants, and one is tracked or the operator is `fsize`.
  abbrev pub IsTracked : ℕ → ℕ → ℕ → Type 0
  IsTracked l1 l2 op =
      ((l1 ≢ 0) ⊎ (l2 ≢ 0) ⊎ (op ≡ op_fsize))
      × (l1 ≢ initializing_label)
      × (l2 ≢ initializing_label)

  -- An operand: a label, or a value where there is none.
  abbrev pub SameOperand : ℕ → ℕ → ℕ → ℕ → Type 0
  SameOperand l x m y = (l ≡ m) × (l ≡ 0 → x ≡ y)

  -- One operator, size and pair of operands, in any order where the operator allows that.
  abbrev pub SameUnion : ℕ → ℕ → ℕ → ℕ → ℕ → ℕ → ℕ → ℕ → ℕ → ℕ → ℕ → ℕ → Type 0
  SameUnion l1 l2 op size op1 op2 m1 m2 op' size' op1' op2' =
      (op ≡ op')
      × (size ≡ size')
      × ((SameOperand l1 op1 m1 op1' × SameOperand l2 op2 m2 op2')
          ⊎ ((is_commutative op ≡ true) × SameOperand l1 op1 m2 op2' × SameOperand l2 op2 m1 op1'))

  pub union_key-ordered :
      (l1 l2 op size op1 op2 : ℕ)
      → is_commutative op ≡ false
      → union_key l1 l2 op size op1 op2 ≡ union_info l1 l2 op size op1 op2
  union_key-ordered l1 l2 op size op1 op2 h = ground arith

  commutative-ne-fsize : (op : ℕ) → is_commutative op ≡ true → op ≢ op_fsize
  unfolding is_commutative
  commutative-ne-fsize op h e = absurd (ground (arith, ops.below_last, ops.fits_byte))

  union_ordered_diagonal :
      (l op size op1 op2 : ℕ) (r : Runtime)
      → op ≢ op_fsize
      → union_ordered l l op size op1 op2 r ≡ union_ordered l l op size op2 op1 r
  unfolding union_ordered union_info
  union_ordered_diagonal l op size op1 op2 r h = ground arith

  -- Swapping the operands of a commutative operator, values included, changes nothing at all:
  -- neither the label nor the state nor whether the process dies.
  pub taint_union_comm :
      (l1 l2 op size op1 op2 : ℕ) (r : Runtime)
      → is_commutative op ≡ true
      → taint_union l1 l2 op size op1 op2 r ≡ taint_union l2 l1 op size op2 op1 r
  unfolding taint_union
  taint_union_comm l1 l2 op size op1 op2 r h = elim (lt_trichotomy l1 l2) [
    | inl lt ↦ ground arith
    | inr (inl e) ↦
        rw e
          (ground (arith, union_ordered_diagonal l2 op size op1 op2 r (commutative-ne-fsize op h)))
    | inr (inr gt) ↦ ground arith
  ]

  pub taint_union-intern :
      (l1 l2 op size op1 op2 : ℕ) (r : Runtime)
      → IsTracked l1 l2 op
      → taint_union l1 l2 op size op1 op2 r ≡ intern (union_key l1 l2 op size op1 op2) r
  unfolding taint_union union_ordered
  taint_union-intern l1 l2 op size op1 op2 r h = ground arith

  -- A tracked union that returns keeps the invariant, all older labels and all older lookups; its
  -- label is in range, has the union's key for its entry, and is what the table has for the key.
  pub taint_union-IsInterned :
      (l1 l2 op size op1 op2 : ℕ) (r : Runtime) {label : ℕ} {r' : Runtime}
      → Valid r
      → IsTracked l1 l2 op
      → taint_union l1 l2 op size op1 op2 r ≡ ok label r'
      → IsInterned (union_key l1 l2 op size op1 op2) r label r'
  taint_union-IsInterned l1 l2 op size op1 op2 r v t run =
      intern-IsInterned _ r v (sym (taint_union-intern l1 l2 op size op1 op2 r t) ∙ run)

  -- In a valid state, once a tracked union has a label, the same union returns that label in every
  -- later state that still has the earlier labels and lookups, whatever is in the memory then, and
  -- changes nothing.
  pub taint_union-again :
      (l1 l2 op size op1 op2 : ℕ) (r : Runtime) {label : ℕ} {r' : Runtime} (later : Runtime)
      → Valid r
      → IsTracked l1 l2 op
      → taint_union l1 l2 op size op1 op2 r ≡ ok label r'
      → Remembers r' later
      → taint_union l1 l2 op size op1 op2 later ≡ ok label later
  taint_union-again l1 l2 op size op1 op2 r {label} later v t run ext =
      let i = taint_union-IsInterned l1 l2 op size op1 op2 r v t run in
      taint_union-intern l1 l2 op size op1 op2 later t
      ∙ intern-Finds _ later label (ext.lookups _ label i.finds)

  SameFields-union_key :
      (l1 l2 op size op1 op2 m1 m2 op' size' op1' op2' : ℕ)
      → SameFields (union_key l1 l2 op size op1 op2) (union_key m1 m2 op' size' op1' op2')
      → SameUnion l1 l2 op size op1 op2 m1 m2 op' size' op1' op2'
  unfolding union_info
  SameFields-union_key l1 l2 op size op1 op2 m1 m2 op' size' op1' op2' h =
      elim (Bool-cases (ltb l2 l1 && is_commutative op)) [
        | inl x ↦ elim (Bool-cases (ltb m2 m1 && is_commutative op')) [
          | inl y ↦ ground (arith, rw (x, y) at h)
          | inr y ↦ ground (arith, rw (x, y) at h)
        ]
        | inr x ↦ elim (Bool-cases (ltb m2 m1 && is_commutative op')) [
          | inl y ↦ ground (arith, rw (x, y) at h)
          | inr y ↦ ground (arith, rw (x, y) at h)
        ]
      ]

  -- Let a tracked union return a label from a valid state, and another one the same label from a
  -- valid later state that has the labels and lookups behind the first. Then both have the same
  -- operator, size and operands, where the operands of a commutative operator may be swapped. An
  -- operand is a label, or a value where the label is zero: the value of a labelled operand is not
  -- part of a union.
  pub taint_union-injective :
      (l1 l2 op size op1 op2 m1 m2 op' size' op1' op2' : ℕ) (r : Runtime) {label : ℕ} {r' : Runtime}
      (later : Runtime) {last : Runtime}
      → Valid r
      → Valid later
      → IsTracked l1 l2 op
      → IsTracked m1 m2 op'
      → taint_union l1 l2 op size op1 op2 r ≡ ok label r'
      → Remembers r' later
      → taint_union m1 m2 op' size' op1' op2' later ≡ ok label last
      → SameUnion l1 l2 op size op1 op2 m1 m2 op' size' op1' op2'
  taint_union-injective l1 l2 op size op1 op2 m1 m2 op' size' op1' op2' r {label} {r'} later {last}
        v w t u run ext run' =
      let i = taint_union-IsInterned l1 l2 op size op1 op2 r v t run in
      let k = taint_union-IsInterned m1 m2 op' size' op1' op2' later w u run' in
      let here =
        k.extends.infos label (omega (arith, i.range, ext.last)) ∙ ext.infos label i.range.1 in
      let entry : same (r'.label_info label) _ ≡ true = rw here at k.entry in
      SameFields-union_key l1 l2 op size op1 op2 m1 m2 op' size' op1' op2'
        ((same_iff _ _).0 (same_trans _ (r'.label_info label) _ (same_symm _ _ ∙ i.entry) entry))

  taint_union-untracked :
      (l1 l2 op size op1 op2 : ℕ) (r : Runtime) {label : ℕ} {r' : Runtime}
      → ((l1 ≡ 0) × (l2 ≡ 0) × (op ≢ op_fsize))
        ⊎ (l1 ≡ initializing_label)
        ⊎ (l2 ≡ initializing_label)
      → taint_union l1 l2 op size op1 op2 r ≡ ok label r'
      → r' ≡ r
  unfolding taint_union union_ordered
  taint_union-untracked l1 l2 op size op1 op2 r h run = ground arith

  IsTracked-cases :
      (l1 l2 op : ℕ)
      → IsTracked l1 l2 op
        ⊎ ((l1 ≡ 0) × (l2 ≡ 0) × (op ≢ op_fsize))
        ⊎ (l1 ≡ initializing_label)
        ⊎ (l2 ≡ initializing_label)
  IsTracked-cases l1 l2 op = ground arith

  -- In a valid state, every union that returns, tracked or not, keeps the invariant, the older
  -- labels and lookups, and shadow memory.
  pub taint_union-Keeps :
      (l1 l2 op size op1 op2 : ℕ) (r : Runtime) {label : ℕ} {r' : Runtime}
      → Valid r
      → taint_union l1 l2 op size op1 op2 r ≡ ok label r'
      → Keeps r r'
  taint_union-Keeps l1 l2 op size op1 op2 r v run = elim (IsTracked-cases l1 l2 op) [
    | inl t ↦
        let i = taint_union-IsInterned l1 l2 op size op1 op2 r v t run in
        record { valid = i.valid; extends = i.extends; shadow = i.shadow }
    | inr rest ↦
        rw (taint_union-untracked l1 l2 op size op1 op2 r rest run)
          (record { valid = v; extends = Extends-refl r; shadow = refl })
  ]
