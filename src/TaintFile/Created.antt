-- ===== src/TaintFile/Created.antt =====
-- dfsan.cc: the labels of the input that are made before the program starts.
use kirenenko.Prelude.{
  ℕ, zero, suc, ◌+◌, ◌≤◌, ◌<◌, ◌≡◌, refl, ◌∙◌, inl, inr, arith, ◌==◌, update, Bool-cases,
}
use kirenenko.Run.{ok, Returns, >>=-ok}
use kirenenko.LabelInfo.{LabelInfo, zero_info}
use kirenenko.Runtime.{Runtime, dfsan_check_label}
use kirenenko.Labels.{dfsan_create_label}
use kirenenko.Labels.Fresh.{HasRoom, IsFresh-old, IsFresh-new, dfsan_create_label-IsFresh}
use kirenenko.Labels.Invariant.{Valid, dfsan_create_label-Valid}
use kirenenko.TaintFile.{create_labels}

-- The entry of the input byte at an offset.
abbrev pub input_entry : ℕ → LabelInfo
input_entry offset = record zero_info { size = 8; op1 = offset }

pub dfsan_create_label-returns :
    (offset : ℕ) (r : Runtime)
    → HasRoom (r.last_label + 1)
    → Returns (dfsan_create_label offset r) λ label r'. label ≡ r.last_label + 1
unfolding dfsan_create_label dfsan_check_label
dfsan_create_label-returns offset r room = (
  r.last_label + 1,
  record r {
    last_label = r.last_label + 1;
    label_info = update r.label_info (r.last_label + 1) (input_entry offset);
  },
  ground arith,
  refl,
)

check-passes : (label : ℕ) (r : Runtime) → HasRoom label → dfsan_check_label label r ≡ ok tt r
unfolding dfsan_check_label
check-passes label r room = ground arith

-- Labels for the bytes from `offset` to `n`, which are the next labels.
pub record Created (offset n : ℕ) (r r' : Runtime) : Type 0 where
  pub valid : Valid r'
  pub last : r'.last_label ≡ n
  pub old : (l : ℕ) → l ≤ offset → r'.label_info l ≡ r.label_info l
  pub new : (k : ℕ) → offset ≤ k → k < n → r'.label_info (k + 1) ≡ input_entry k

create_labels-step :
    (offset rounds label : ℕ) (r r1 r2 : Runtime)
    → dfsan_create_label offset r ≡ ok label r1
    → dfsan_check_label label r1 ≡ ok tt r1
    → create_labels (offset + 1) rounds r1 ≡ ok tt r2
    → create_labels offset (suc rounds) r ≡ ok tt r2
unfolding create_labels
create_labels-step offset rounds label r r1 r2 h1 h2 h3 =
    >>=-ok (dfsan_create_label offset) _ h1 ∙ >>=-ok (dfsan_check_label label) _ h2 ∙ h3

-- When there are `offset` labels so far, and room for `n` more, making labels for the `n` bytes
-- from `offset` on returns: the invariant holds then, there are `offset + n` labels, old entries
-- are the same, and the label after each offset has that input byte for its entry.
pub create_labels-Created :
    (offset n : ℕ) (r : Runtime)
    → Valid r
    → r.last_label ≡ offset
    → HasRoom (offset + n)
    → Returns (create_labels offset n r) λ _ r'. Created offset (offset + n) r r'
unfolding create_labels
create_labels-Created offset zero r v e room = (
  tt,
  r,
  refl,
  record {
    valid = v;
    last = ground (arith, e);
    old = λ l le. refl;
    new = λ k le lt. absurd (omega arith);
  },
)
create_labels-Created offset (suc n) r v e room =
    let (label, r1, run1, fresh) = dfsan_create_label-returns offset r (omega arith) in
    let v1 = dfsan_create_label-Valid offset r v run1 in
    let f = (dfsan_create_label-IsFresh offset r v.room run1).0 in
    let (_, r2, run2, c) =
      create_labels-Created (offset + 1) n r1 v1 (omega (arith, f.last)) (omega arith) in
    (
      tt,
      r2,
      create_labels-step offset n label r r1 r2 run1 (check-passes label r1 (omega arith)) run2,
      record {
        valid = c.valid;
        last = omega (arith, c.last);
        old = λ l le. c.old l (omega arith) ∙ IsFresh-old f l (omega arith);
        new = λ k le lt. elim (Bool-cases (k == offset)) [
          | inl same ↦
              let q : k ≡ r.last_label = ground (arith, same) in
              rw q (c.old (r.last_label + 1) (omega arith) ∙ ground (arith, IsFresh-new f))
          | inr other ↦ c.new k (ground (arith, other)) (omega arith)
        ];
      },
    )
