-- ===== src/Labels/Fresh.antt =====
-- What a call leaves behind when it makes a new label.
use kirenenko.Prelude.{ℕ, ◌+◌, ◌≤◌, ◌<◌, ◌≡◌, arith, update}
use kirenenko.Run.{ok}
use kirenenko.Mapping.{x86_64}
use kirenenko.Allocator.{allocator_alloc}
use kirenenko.LabelInfo.{LabelInfo, zero_info}
use kirenenko.UnionTable.{Node, hash, link, insert}
use kirenenko.Runtime.{Runtime, info_address, dfsan_check_label}
use kirenenko.Labels.{tree_hash, table_insert, new_union, dfsan_create_label}

abbrev pub HasRoom : ℕ → Type 0
HasRoom label = info_address label < x86_64.hash_table_addr

-- `label` is new in `r'`, with the entry `info`, and nothing else of the label table changed.
pub record IsFresh (info : LabelInfo) (r : Runtime) (label : ℕ) (r' : Runtime) : Type 0 where
  pub fresh : label ≡ r.last_label + 1
  pub last : r'.last_label ≡ r.last_label + 1
  pub room : HasRoom (r.last_label + 1)
  pub infos : r'.label_info ≡ update r.label_info (r.last_label + 1) info
  pub shadow : r'.shadow ≡ r.shadow
  pub memory : r'.memory ≡ r.memory

abbrev pub stored : LabelInfo → Runtime → LabelInfo
stored info r = record info { hash = tree_hash r.label_info info }

abbrev pub node_of : ℕ → Runtime → Node
node_of label r = record { address = r.allocator.next_usable_byte; key = label; entry = label }

-- The new label of a union: its operands are old labels, and it was put into the table.
pub record IsNewUnion (info : LabelInfo) (r : Runtime) (label : ℕ) (r' : Runtime) : Type 0 where
  pub made : IsFresh (stored info r) r label r'
  pub operands : (info.l1 ≤ r.last_label) × (info.l2 ≤ r.last_label)
  pub table :
      r'.union_table
      ≡ link r.union_table (hash r.union_table (stored info r)) (node_of (r.last_label + 1) r)
  pub allocator : allocator_alloc 24 r.allocator ≡ ok r.allocator.next_usable_byte r'.allocator

pub new_union-IsNewUnion :
    (info : LabelInfo) (r : Runtime) {label : ℕ} {r' : Runtime}
    → HasRoom r.last_label
    → new_union info r ≡ ok label r'
    → IsNewUnion info r label r'
unfolding new_union insert allocator_alloc table_insert dfsan_check_label
new_union-IsNewUnion info r room run = ground arith

pub dfsan_create_label-IsFresh :
    (offset : ℕ) (r : Runtime) {label : ℕ} {r' : Runtime}
    → HasRoom r.last_label
    → dfsan_create_label offset r ≡ ok label r'
    → IsFresh (record zero_info { size = 8; op1 = offset }) r label r'
      × (r'.union_table ≡ r.union_table)
      × (r'.allocator ≡ r.allocator)
unfolding dfsan_create_label dfsan_check_label
dfsan_create_label-IsFresh offset r room run = ground arith

-- The entries of older labels stay as they are, and the new label has its entry.
module _ {info : LabelInfo} {r r' : Runtime} {label : ℕ} (f : IsFresh info r label r') where
  pub IsFresh-old : (l : ℕ) → l ≤ r.last_label → r'.label_info l ≡ r.label_info l
  IsFresh-old l le = rw f.infos (ground arith)

  pub IsFresh-new : r'.label_info (r.last_label + 1) ≡ info
  IsFresh-new = rw f.infos (ground arith)
