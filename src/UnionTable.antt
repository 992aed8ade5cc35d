-- ===== src/UnionTable.antt =====
-- union_hashtable.cc: the chained hash table from the operands of a union to its label. A node
-- holds a pointer into the label table, so a lookup reads that table: `infos` below.
pub mod Laws
pub mod Frame
use kirenenko.Prelude.{
  ℕ, ◌+◌, ◌*◌, ◌-◌, ◌^◌, bit_and, bit_xor, Bool, List, [], ◌∷◌, if◌then◌else◌, update,
}
use kirenenko.Word.{u32, u64, shl}
use kirenenko.Run.{Run, pure, ◌>>=◌, ◌>>◌}
use kirenenko.Allocator.{Allocator, allocator_alloc}
use kirenenko.LabelInfo.{LabelInfo, same, LabelOption, some_dfsan_label, no_dfsan_label}

-- `key` is the index of the entry that the pointer leads to, `address` where the node lies; the
-- rest of the list is behind `next`.
pub record Node : Type 0 where
  pub address : ℕ
  pub key : ℕ
  pub entry : ℕ

pub record UnionTable : Type 0 where
  pub bucket : ℕ → List Node
  pub bucket_size : ℕ

-- The array of bucket heads is allocated and zeroed.
unfoldable pub new_table : ℕ → Run Allocator UnionTable
new_table n = do allocator_alloc (n * 8); pure (record { bucket = λ _. []; bucket_size = n })

unfoldable pub hash : UnionTable → LabelInfo → ℕ
hash t key =
    bit_and
      (bit_xor (bit_xor (u64 (u64 (u32 (key.l1 + key.l2) + key.op1) + key.op2)) (shl key.op 3))
        key.size)
      (u64 (t.bucket_size + 2 ^ 64 - 1))

unfoldable pub link : UnionTable → ℕ → Node → UnionTable
link t index curr = record t { bucket = update t.bucket index (curr ∷ t.bucket index) }

-- sizeof(struct union_hashtable_entry) is 24
unfoldable pub insert : (ℕ → LabelInfo) → UnionTable → ℕ → ℕ → Run Allocator UnionTable
unfolding link
insert infos t key entry = do
  address ← allocator_alloc 24
  pure (link t (hash t (infos key)) (record { address = address; key = key; entry = entry }))

unfoldable pub find : (ℕ → LabelInfo) → LabelInfo → List Node → LabelOption
find infos key [] = no_dfsan_label
find infos key (curr ∷ rest) =
    if same (infos curr.key) key then some_dfsan_label curr.entry else find infos key rest

unfoldable pub lookup : (ℕ → LabelInfo) → UnionTable → LabelInfo → LabelOption
unfolding find
lookup infos t key = find infos key (t.bucket (hash t key))
