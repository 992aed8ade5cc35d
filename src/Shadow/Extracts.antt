-- ===== src/Shadow/Extracts.antt =====
-- dfsan.cc: a label that is stored byte by byte, as extracts, and loaded again.
use kirenenko.Prelude.{
  ℕ, zero, suc, ◌+◌, ◌-◌, ◌*◌, ◌^◌, ◌≤◌, ◌<◌, ◌≡◌, ◌≢◌, refl, ap, ◌∙◌, inl, inr, arith, false,
  update, lt_trichotomy,
}
use kirenenko.Word.{u64}
use kirenenko.Run.{ok, >>=-eq-ok}
use kirenenko.Operators.{Opcodes, op_load, op_extract, is_commutative}
use kirenenko.LabelInfo.{LabelInfo, const_label, initializing_label}
use kirenenko.UnionTable.Laws.{same_iff}
use kirenenko.Runtime.{Runtime, label_at}
use kirenenko.Labels.{taint_union, union_info}
use kirenenko.Labels.Invariant.{Valid, Valid-shadow}
use kirenenko.Labels.Union.{
  Extends, Extends-refl, Extends-trans, Extends-shadow, IsInterned, IsTracked, union_key-ordered,
  taint_union-IsInterned,
}
use kirenenko.Shadow.{
  fill_extracts, taint_union_store, taint_union_load, extracted, is_whole, shape, load_tainted,
}

module _ ⦃ops : Opcodes⦄ where
  -- `x` is an existing label, for the byte `j` of `l`.
  record IsExtract (r : Runtime) (l j x : ℕ) : Type 0 where
    exists : (0 < x) × (x ≤ r.last_label)
    op : (r.label_info x).op ≡ op_extract
    l1 : (r.label_info x).l1 ≡ l
    op2 : (r.label_info x).op2 ≡ u64 (j * 8)
    size : (r.label_info x).size ≡ 8

  IsExtract-Extends :
      {r r' : Runtime} {l j x : ℕ} → IsExtract r l j x → Extends r r' → IsExtract r' l j x
  IsExtract-Extends {x} e ext =
      let kept = ext.infos x e.exists.1 in
      record {
        exists = omega (arith, e.exists, ext.last);
        op = ap (λ (i : LabelInfo). i.op) kept ∙ e.op;
        l1 = ap (λ (i : LabelInfo). i.l1) kept ∙ e.l1;
        op2 = ap (λ (i : LabelInfo). i.op2) kept ∙ e.op2;
        size = ap (λ (i : LabelInfo). i.size) kept ∙ e.size;
      }

  extract-not-commutative : is_commutative op_extract ≡ false
  unfolding is_commutative
  extract-not-commutative = ground (arith, ops.below_last, ops.fits_byte)

  taint_union-IsExtract :
      (l j : ℕ) (r : Runtime) {x : ℕ} {r' : Runtime}
      → Valid r
      → 0 < l
      → l ≢ initializing_label
      → taint_union l const_label op_extract 8 0 (u64 (j * 8)) r ≡ ok x r'
      → IsInterned (union_info l 0 op_extract 8 0 (u64 (j * 8))) r x r' × IsExtract r' l j x
  unfolding union_info
  taint_union-IsExtract l j r v pos proper run =
      let tracked : IsTracked l 0 op_extract = (inl (ground arith), proper, ground arith) in
      let i = taint_union-IsInterned l 0 op_extract 8 0 (u64 (j * 8)) r v tracked run in
      let key = union_key-ordered l 0 op_extract 8 0 (u64 (j * 8)) extract-not-commutative in
      let (e1, e2, e3, e4, e5, e6) = (same_iff _ _).0 (rw key at i.entry) in
      (rw key at i, record { exists = i.range; op = e3; l1 = e1; op2 = e6; size = e4 })

  -- The loop of the store puts an extract for each byte, and changes no other label of the shadow.
  record IsStored (l ls i rounds : ℕ) (r r' : Runtime) : Type 0 where
    valid : Valid r'
    extends : Extends r r'
    inside : (j : ℕ) → i ≤ j → j < i + rounds → IsExtract r' l j (label_at r' ls j)
    outside : (a : ℕ) → ((j : ℕ) → i ≤ j → a ≢ ls + 4 * j) → r'.shadow a ≡ r.shadow a

  IsStored-suc :
      (l ls i rounds x : ℕ) {r s r' : Runtime}
      → Extends r s
      → s.shadow ≡ r.shadow
      → IsExtract s l i x
      → IsStored l ls (i + 1) rounds (record s { shadow = update s.shadow (ls + 4 * i) x }) r'
      → IsStored l ls i (suc rounds) r r'
  IsStored-suc l ls i rounds x {r} {s} {r'} ext kept extract rest =
      let over =
        Extends-trans (Extends-shadow (update s.shadow (ls + 4 * i) x) (Extends-refl s))
          rest.extends in
      let here : label_at r' ls i ≡ x =
        rest.outside (ls + 4 * i) (λ j lo. omega arith) ∙ ground arith in
      record {
        valid = rest.valid;
        extends = Extends-trans ext over;
        inside = λ j lo hi. elim (lt_trichotomy i j) [
          | inl lt ↦ rest.inside j (omega arith) (omega arith)
          | inr (inl e) ↦ rw (← e, here) (IsExtract-Extends extract over)
          | inr (inr gt) ↦ absurd (omega arith)
        ];
        outside = λ a h. ground (
          arith,
          rest.outside a (λ j lo. h j (omega arith)),
          h i (omega arith),
          ap (λ (f : ℕ → ℕ). f a) kept,
        );
      }

  fill_extracts-IsStored :
      (l ls i rounds : ℕ) (r r' : Runtime)
      → Valid r
      → 0 < l
      → l ≢ initializing_label
      → fill_extracts l ls i rounds r ≡ ok tt r'
      → IsStored l ls i rounds r r'
  unfolding fill_extracts
  fill_extracts-IsStored l ls i zero r r' v pos proper run =
      let e : r ≡ r' = cc in
      rw (← e) (record {
        valid = v;
        extends = Extends-refl r;
        inside = λ j lo hi. absurd (omega arith);
        outside = λ a h. refl;
      })
  fill_extracts-IsStored l ls i (suc rounds) r r' v pos proper run =
      let (x, s, made, next) =
        >>=-eq-ok (taint_union l const_label op_extract 8 0 (u64 (i * 8))) _ run in
      let (interned, extract) = taint_union-IsExtract l i r v pos proper made in
      let t = Valid-shadow (update s.shadow (ls + 4 * i) x) interned.valid in
      IsStored-suc l ls i rounds x interned.extends interned.shadow extract
        (fill_extracts-IsStored l ls (i + 1) rounds _ r' t pos proper next)

  extracted-all :
      (r : Runtime) (ls l i rounds : ℕ)
      → ((j : ℕ) → i ≤ j → j < i + rounds → IsExtract r l j (label_at r ls j))
      → (i + rounds) * 8 < 2 ^ 64
      → extracted r ls l (i * 8) i rounds ≡ (i + rounds) * 8
  unfolding extracted
  extracted-all r ls l i zero h small = omega arith
  extracted-all r ls l i (suc rounds) h small =
      let here = h i (omega arith) (omega arith) in
      let rest =
        extracted-all r ls l (i + 1) rounds (λ j lo hi. h j (omega arith) (omega arith))
          (omega arith) in
      let next : u64 (i * 8 + 8) ≡ (i + 1) * 8 = omega arith in
      ground (
        arith,
        here.op,
        here.l1,
        here.op2,
        here.size,
        rest,
        ap (λ (t : ℕ). extracted r ls l t (i + 1) rounds) next,
      )

  extracts-load :
      (l ls m fuel : ℕ) (r : Runtime)
      → Valid r
      → ((j : ℕ) → j < suc m → IsExtract r l j (label_at r ls j))
      → (r.label_info l).size ≡ suc m * 8
      → suc m < 2 ^ 13
      → taint_union_load fuel ls (suc m) r ≡ ok l r
  unfolding taint_union_load load_tainted is_whole shape
  extracts-load l ls m fuel r v h size small =
      let first = h 0 (omega arith) in
      let all = extracted-all r ls l 0 (suc m) (λ j lo hi. h j (omega arith)) (omega arith) in
      ground (arith, v.room, first.exists, first.op, first.l1, first.size, all)

  -- In a valid state, storing a label of `n` bytes that is no union load, for `2 ≤ n < 2 ^ 13`, and
  -- loading these bytes, gives the label again and changes nothing.
  pub store-load :
      (l ls n fuel : ℕ) (r r' : Runtime)
      → Valid r
      → 0 < l
      → l ≤ r.last_label
      → (r.label_info l).op ≢ op_load
      → (r.label_info l).size ≡ n * 8
      → 2 ≤ n
      → n < 2 ^ 13
      → taint_union_store l ls n r ≡ ok tt r'
      → taint_union_load fuel ls n r' ≡ ok l r'
  store-load l ls n fuel r r' v pos le op size lo hi run =
      let proper : l ≢ initializing_label = omega (arith, v.room) in
      let filled : fill_extracts l ls 0 n r ≡ ok tt r' = unfold taint_union_store in ground arith in
      let st = fill_extracts-IsStored l ls 0 n r r' v pos proper filled in
      let kept : (r'.label_info l).size ≡ n * 8 =
        ap (λ (i : LabelInfo). i.size) (st.extends.infos l le) ∙ size in
      let e : n ≡ suc (n - 1) = omega arith in
      rw e (
        extracts-load l ls (n - 1) fuel r' st.valid
          (λ j lt. st.inside j (omega arith) (omega arith)) (omega (arith, kept)) (omega arith))
