-- ===== src/UnionTable/Laws.antt =====
-- union_hashtable.cc: the table as a map up to `same`.
use kirenenko.Prelude.{
  ℕ, ◌^◌, ◌≤◌, ◌<◌, ◌≡◌, refl, arith, true, List, [], ◌∷◌, ◌↔◌, inl, inr, Bool-cases, ◌==◌,
  if◌then◌else◌,
}
use kirenenko.Word.Bits.{and-le-right}
use kirenenko.LabelInfo.{LabelInfo, same, some_dfsan_label}
use kirenenko.UnionTable.{Node, UnionTable, hash, link, find, lookup}

pub same_refl : (a : LabelInfo) → same a a ≡ true
unfolding same
same_refl a = ground arith

pub same_symm : (a b : LabelInfo) → same a b ≡ same b a
unfolding same
same_symm a b = ground arith

pub same_trans : (a b c : LabelInfo) → same a b ≡ true → same b c ≡ true → same a c ≡ true
unfolding same
same_trans a b c p q = ground arith

-- The fields that `same` compares.
abbrev pub SameFields : LabelInfo → LabelInfo → Type 0
SameFields a b =
    (a.l1 ≡ b.l1)
    × (a.l2 ≡ b.l2)
    × (a.op ≡ b.op)
    × (a.size ≡ b.size)
    × (a.op1 ≡ b.op1)
    × (a.op2 ≡ b.op2)

pub same_iff : (a b : LabelInfo) → (same a b ≡ true) ↔ SameFields a b
unfolding same
same_iff a b = (λ h. ground arith, λ h. ground arith)

-- Equal keys have one hash.
pub hash-same : (t : UnionTable) (a b : LabelInfo) → same a b ≡ true → hash t a ≡ hash t b
unfolding hash
hash-same t a b p = let (e1, e2, e3, e4, e5, e6) = (same_iff a b).0 p in rw (e1, e2, e3, e4, e5, e6)

-- The hash of a key is an index into the array of buckets, when that has at least one and at most
-- 2^63 of them.
hash-lt :
    (t : UnionTable) (key : LabelInfo)
    → 0 < t.bucket_size
    → t.bucket_size ≤ 2 ^ 63
    → hash t key < t.bucket_size
unfolding hash
hash-lt t key pos small = omega (arith, and-le-right)

hash-link :
    (t : UnionTable) (i : ℕ) (n : Node) (key : LabelInfo) → hash (link t i n) key ≡ hash t key
unfolding hash link
hash-link t i n key = refl

pub bucket-link :
    (t : UnionTable) (i j : ℕ) (n : Node)
    → (link t i n).bucket j ≡ (if j == i then n ∷ t.bucket i else t.bucket j)
unfolding link
bucket-link t i j n = refl

-- After a node was linked in at the hash of its entry, a lookup finds its label under every equal
-- key, and under every other key what it found before.
pub lookup-link :
    (infos : ℕ → LabelInfo) (t : UnionTable) (n : Node) (key : LabelInfo)
    → lookup infos (link t (hash t (infos n.key)) n) key
      ≡ (if same (infos n.key) key then some_dfsan_label n.entry else lookup infos t key)
unfolding lookup find
lookup-link infos t n key =
    let k = infos n.key in
    rw (hash-link, bucket-link)
      (elim (Bool-cases (hash t key == hash t k)) [
        | inl e ↦ ground (arith, hash-same t k key)
        | inr e ↦ ground (arith, hash-same t k key)
      ])

find-same :
    (infos : ℕ → LabelInfo) (a b : LabelInfo) (nodes : List Node)
    → same a b ≡ true
    → find infos a nodes ≡ find infos b nodes
unfolding find
find-same infos a b [] p = refl
find-same infos a b (n ∷ nodes) p = ground (
  arith,
  find-same infos a b nodes p,
  same_trans (infos n.key) a b,
  same_trans (infos n.key) b a,
  same_symm a b,
)

-- Equal keys lead to the same label.
pub lookup-same :
    (infos : ℕ → LabelInfo) (t : UnionTable) (a b : LabelInfo)
    → same a b ≡ true
    → lookup infos t a ≡ lookup infos t b
unfolding lookup
lookup-same infos t a b p = rw (hash-same t a b p) (find-same infos a b _ p)
