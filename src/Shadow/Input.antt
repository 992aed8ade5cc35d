-- ===== src/Shadow/Input.antt =====
-- dfsan.cc: loads of consecutive bytes of the input, and stores of what they give.
use kirenenko.Prelude.{
  ℕ, zero, suc, ◌+◌, ◌-◌, ◌*◌, ◌^◌, ◌≤◌, ◌<◌, ◌≡◌, ◌≢◌, refl, sym, ap, ◌∙◌, inl, inr, arith, false,
  update, lt_trichotomy,
}
use kirenenko.Word.{u16, u32, u64}
use kirenenko.Run.{ok}
use kirenenko.Operators.{Opcodes, op_load, is_commutative}
use kirenenko.LabelInfo.{initializing_label}
use kirenenko.UnionTable.Laws.{same_iff}
use kirenenko.Runtime.{Runtime, label_at}
use kirenenko.Labels.{taint_union, union_info}
use kirenenko.Labels.Invariant.{Valid}
use kirenenko.Labels.Union.{IsTracked, taint_union-IsInterned, union_key-ordered}
use kirenenko.Shadow.{
  shaped, shape_from, shape, load_tainted, taint_union_load, fill_consecutive, taint_union_store,
}

-- The labels from `ls[i]` on are labels of the input bytes from `offset + i` on.
abbrev pub Continues : Runtime → ℕ → ℕ → ℕ → ℕ → Type 0
Continues r ls offset i rounds =
    (j : ℕ)
    → i ≤ j
    → j < i + rounds
    → (label_at r ls j ≢ initializing_label)
      × ((r.label_info (label_at r ls j)).op1 ≡ u64 (offset + j))

pub shape_from-Continues :
    (r : Runtime) (ls offset i rounds : ℕ)
    → Continues r ls offset i rounds
    → shape_from r ls offset i rounds ≡ shaped
unfolding shape_from
shape_from-Continues r ls offset i zero h = refl
shape_from-Continues r ls offset i (suc rounds) h =
    let here = h i (omega arith) (omega arith) in
    ground (
      arith,
      here,
      shape_from-Continues r ls offset (i + 1) rounds (λ j lo hi. h j (omega arith) (omega arith)),
    )

-- The shadow of `n` bytes holds the labels `label0`, `label0 + 1`, …, which stand for
-- consecutive bytes of the input.
pub record IsInputRun (r : Runtime) (ls label0 n : ℕ) : Type 0 where
  pub exists : (0 < label0) × (label0 + n ≤ r.last_label + 1)
  pub input : (r.label_info label0).op ≡ 0
  pub sized : (r.label_info label0).size ≢ 0
  pub offset_fits : (r.label_info label0).op1 + n < 2 ^ 64
  pub labels : (j : ℕ) → j < n → label_at r ls j ≡ label0 + j
  pub offsets : (j : ℕ) → j < n → (r.label_info (label0 + j)).op1 ≡ (r.label_info label0).op1 + j

fill_consecutive-fills :
    (label0 ls i rounds : ℕ) (r r' : Runtime)
    → label0 + i + rounds < 2 ^ 32
    → fill_consecutive label0 ls i rounds r ≡ ok tt r'
    → ((j : ℕ) → i ≤ j → j < i + rounds → label_at r' ls j ≡ label0 + j)
      × ((a : ℕ) → ((j : ℕ) → i ≤ j → a ≢ ls + 4 * j) → r'.shadow a ≡ r.shadow a)
unfolding fill_consecutive
fill_consecutive-fills label0 ls i zero r r' small run =
    let e : r ≡ r' = cc in
    (λ j lo hi. absurd (omega arith), λ a h. ap (λ (s : Runtime). s.shadow a) (sym e))
fill_consecutive-fills label0 ls i (suc rounds) r r' small run =
    let t = record r { shadow = update r.shadow (ls + 4 * i) (u32 (label0 + i)) } in
    let (inside, outside) =
      fill_consecutive-fills label0 ls (i + 1) rounds t r' (omega arith) run in
    let here : label_at r' ls i ≡ label0 + i =
      outside (ls + 4 * i) (λ j lo. omega arith) ∙ ground arith in
    (
      λ j lo hi. elim (lt_trichotomy i j) [
        | inl lt ↦ inside j (omega arith) (omega arith)
        | inr (inl e) ↦ rw (← e) here
        | inr (inr gt) ↦ absurd (omega arith)
      ],
      λ a h. ground (arith, outside a (λ j lo. h j (omega arith)), h i (omega arith)),
    )

module _ ⦃ops : Opcodes⦄ (r : Runtime) (v : Valid r) (ls label0 n fuel : ℕ)
    (run : IsInputRun r ls label0 n) where
  run-shaped : 2 ≤ n → shape r ls n ≡ shaped
  unfolding shape
  run-shaped two =
      let first = run.labels 0 (omega arith) in
      let continues : Continues r ls (r.label_info (label_at r ls 0)).op1 1 (n - 1) = λ j lo hi.
        let here = run.labels j (omega arith) in
        (
          omega (arith, here, run.exists, v.room),
          ground (arith, run.offsets j (omega arith), here, first, run.offset_fits),
        ) in
      ground (arith, first, run.input, shape_from-Continues r ls _ 1 (n - 1) continues)

  -- In a valid state, two or more consecutive input bytes load as a `Load` of the first label and
  -- their number.
  pub load-input :
      2 ≤ n → taint_union_load fuel ls n r ≡ taint_union label0 (u32 n) op_load (u16 (n * 8)) 0 0 r
  unfolding taint_union_load load_tainted
  load-input two =
      let e : n ≡ suc (n - 1) = omega arith in
      let first = run.labels 0 (omega arith) in
      let shaped_n : shape r ls (suc (n - 1)) ≡ shaped = rw (← e) (run-shaped two) in
      rw e (ground (arith, shaped_n, first, run.exists, run.sized, v.room))

  load-not-commutative : is_commutative op_load ≡ false
  unfolding is_commutative
  load-not-commutative = ground (arith, ops.below_last, ops.fits_byte)

  -- In a valid state, loading the bytes of a run of two or more consecutive input labels and
  -- storing the label that came out, anywhere, puts the label of each byte into its place.
  pub load-store :
      (to : ℕ) (r₁ r₂ : Runtime) {label : ℕ}
      → 2 ≤ n
      → taint_union_load fuel ls n r ≡ ok label r₁
      → taint_union_store label to n r₁ ≡ ok tt r₂
      → (j : ℕ) → j < n
      → label_at r₂ to j ≡ label_at r ls j
  unfolding union_info
  load-store to r₁ r₂ {label} two load store j lt =
      let tracked : IsTracked label0 (u32 n) op_load = (
        inl (omega (arith, run.exists)),
        omega (arith, run.exists, v.room),
        omega (arith, run.exists, v.room),
      ) in
      let made = sym (load-input two) ∙ load in
      let i = taint_union-IsInterned label0 (u32 n) op_load (u16 (n * 8)) 0 0 r v tracked made in
      let key = union_key-ordered label0 (u32 n) op_load (u16 (n * 8)) 0 0 load-not-commutative in
      let fields = (same_iff _ _).0 (rw key at i.entry) in
      let filled : fill_consecutive label0 to 0 n r₁ ≡ ok tt r₂ =
        unfold taint_union_store in ground (arith, fields.0, fields.2, i.range, i.valid.room) in
      (fill_consecutive-fills label0 to 0 n r₁ r₂ (omega (arith, run.exists, v.room)) filled).0 j
        (omega arith) (omega arith)
      ∙ sym (run.labels j lt)
