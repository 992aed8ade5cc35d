-- ===== src/UnionTable/Frame.antt =====
-- What a lookup may return, and that it reads the label table only at the labels of its nodes.
use kirenenko.Prelude.{ℕ, ◌≤◌, ◌<◌, ◌≡◌, refl, ap, arith, true, All, List, [], ◌∷◌}
use kirenenko.LabelInfo.{LabelInfo, same, LabelOption, some_dfsan_label, no_dfsan_label}
use kirenenko.UnionTable.{Node, UnionTable, hash, find, lookup}
use kirenenko.UnionTable.Laws.{SameFields}

-- A node of a table whose labels do not pass `last`: its key is the entry of its own label.
abbrev pub IsNode : ℕ → Node → Type 0
IsNode last n = (n.key ≡ n.entry) × (0 < n.entry) × (n.entry ≤ last)

abbrev pub HasNodes : ℕ → UnionTable → Type 0
HasNodes last t = (i : ℕ) → All (IsNode last) (t.bucket i)

-- A label that a lookup returns is in range, and its entry is equal to the key.
abbrev pub IsHit : (ℕ → LabelInfo) → ℕ → LabelInfo → LabelOption → Type 0
IsHit infos last key o =
    o.isa ≡ true → (0 < o.content) × (o.content ≤ last) × (same (infos o.content) key ≡ true)

find-IsHit :
    (infos : ℕ → LabelInfo) (last : ℕ) (key : LabelInfo) (nodes : List Node)
    → All (IsNode last) nodes
    → IsHit infos last key (find infos key nodes)
unfolding find some_dfsan_label no_dfsan_label
find-IsHit infos last key [] h found = absurd (cc)
find-IsHit infos last key (n ∷ nodes) h found =
    ground (arith, h.0, find-IsHit infos last key nodes h.1, ap infos h.0.0)

pub lookup-IsHit :
    (infos : ℕ → LabelInfo) (last : ℕ) (t : UnionTable) (key : LabelInfo)
    → HasNodes last t
    → IsHit infos last key (lookup infos t key)
unfolding lookup
lookup-IsHit infos last t key h = find-IsHit infos last key _ (h (hash t key))

-- Two label tables that agree, up to what `same` compares, on the labels up to `last`.
abbrev pub Agree : ℕ → (ℕ → LabelInfo) → (ℕ → LabelInfo) → Type 0
Agree last infos infos' = (l : ℕ) → l ≤ last → SameFields (infos l) (infos' l)

same_congr : (a b key : LabelInfo) → SameFields a b → same a key ≡ same b key
unfolding same
same_congr a b key (e1, e2, e3, e4, e5, e6) = rw (e1, e2, e3, e4, e5, e6)

find-frame :
    (infos infos' : ℕ → LabelInfo) (last : ℕ) (key : LabelInfo) (nodes : List Node)
    → All (IsNode last) nodes
    → Agree last infos infos'
    → find infos key nodes ≡ find infos' key nodes
unfolding find
find-frame infos infos' last key [] h agree = refl
find-frame infos infos' last key (n ∷ nodes) h agree = rw (
  same_congr (infos n.key) (infos' n.key) key (agree n.key (omega (arith, h.0))),
  find-frame infos infos' last key nodes h.1 agree,
)

pub lookup-frame :
    (infos infos' : ℕ → LabelInfo) (last : ℕ) (t : UnionTable) (key : LabelInfo)
    → HasNodes last t
    → Agree last infos infos'
    → lookup infos t key ≡ lookup infos' t key
unfolding lookup
lookup-frame infos infos' last t key h agree =
    find-frame infos infos' last key _ (h (hash t key)) agree
