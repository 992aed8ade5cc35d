-- ===== src/Labels.antt =====
-- dfsan.cc: how labels are made. `__taint_union` interns its operands: equal operands get the
-- label that they got before.
pub mod Fresh
pub mod Invariant
pub mod Union
pub mod Returns
pub mod Has
use kirenenko.Prelude.{
  ℕ, ◌+◌, ◌*◌, ◌-◌, ◌^◌, bit_or, bit_xor, Bool, ◌&&◌, ◌||◌, not, ◌==◌, ltb, leb, if◌then◌else◌,
}
use kirenenko.Word.{u32, shl, shr}
use kirenenko.Run.{Step, Run, ok, died, pure, assert, ◌>>=◌, ◌>>◌}
use kirenenko.Operators.{Opcodes, is_commutative, op_fsize}
use kirenenko.LabelInfo.{
  LabelInfo, zero_info, const_offset, initializing_label, option_ne, option_deref, no_dfsan_label,
}
use kirenenko.UnionTable.{insert, lookup}
use kirenenko.Runtime.{Runtime, dfsan_check_label, load_last_label, next_label, write_info}

unfoldable pub rotl32 : ℕ → ℕ → ℕ
rotl32 x r = bit_or (u32 (shl x r)) (shr x (32 - r))

-- One round over a word of the input.
unfoldable pub xxhash_round : ℕ → ℕ → ℕ
unfolding rotl32
xxhash_round h32 h = u32 (rotl32 (u32 (h32 + u32 (h * 3266489917))) 17 * 668265263)

unfoldable pub xxhash : ℕ → ℕ → ℕ → ℕ
unfolding xxhash_round
xxhash h1 h2 h3 =
    let a = xxhash_round (xxhash_round (xxhash_round 374761393 h1) h2) h3 in
    let b = u32 (bit_xor a (shr a 15) * 2246822519) in
    let c = u32 (bit_xor b (shr b 13) * 3266489917) in bit_xor c (shr c 16)

unfoldable pub tree_hash : (ℕ → LabelInfo) → LabelInfo → ℕ
tree_hash infos info =
    let h1 = if info.l1 == 0 then 0 else (infos info.l1).hash in
    let h2 = if info.l2 == 0 then 0 else (infos info.l2).hash in
    let h3 = bit_or (u32 (shl info.op 16)) info.size in xxhash h1 h2 h3

-- The key of a union: where an operand has a label, its concrete value is dropped.
unfoldable pub union_info : ℕ → ℕ → ℕ → ℕ → ℕ → ℕ → LabelInfo
union_info l1 l2 op size op1 op2 = record zero_info {
  l1 = l1;
  l2 = l2;
  op1 = if leb const_offset l1 then 0 else op1;
  op2 = if leb const_offset l2 then 0 else op2;
  op = op;
  size = size;
}

-- `__union_table.insert(&__dfsan_label_info[label], label)`
unfoldable pub table_insert : ℕ → Run Runtime (Unit {0})
table_insert label r = elim (insert r.label_info r.union_table label label r.allocator) [
  | ok t a ↦ ok tt (record r { union_table = t; allocator = a })
  | died e a ↦ died e (record r { allocator = a })
]

-- The second half of `__taint_union`: no label has this key yet.
unfoldable pub new_union : LabelInfo → Run Runtime ℕ
new_union info = do
  l ← load_last_label
  assert (leb info.l1 l && leb info.l2 l)
  label ← next_label
  dfsan_check_label label
  assert (ltb info.l1 label && ltb info.l2 label)
  λ r. write_info label (record info { hash = tree_hash r.label_info info }) r
  table_insert label
  pure label

unfoldable pub intern : LabelInfo → Run Runtime ℕ
unfolding option_ne option_deref no_dfsan_label
intern info r =
    let res = lookup r.label_info r.union_table info in
    if option_ne res no_dfsan_label then ok (option_deref res) r else new_union info r

module _ ⦃ops : Opcodes⦄ where
  unfoldable pub union_ordered : ℕ → ℕ → ℕ → ℕ → ℕ → ℕ → Run Runtime ℕ
  union_ordered l1 l2 op size op1 op2 r =
      if l1 == 0 && ltb l2 const_offset && not (op == op_fsize)
      then ok 0 r
      else if l1 == initializing_label || l2 == initializing_label
      then ok initializing_label r
      else intern (union_info l1 l2 op size op1 op2) r

  -- `__taint_union`, which first puts the operands of a commutative operator in order.
  unfoldable pub taint_union : ℕ → ℕ → ℕ → ℕ → ℕ → ℕ → Run Runtime ℕ
  taint_union l1 l2 op size op1 op2 =
      if ltb l2 l1 && is_commutative op
      then union_ordered l2 l1 op size op2 op1
      else union_ordered l1 l2 op size op1 op2

-- A label for the input byte at `offset`.
unfoldable pub dfsan_create_label : ℕ → Run Runtime ℕ
dfsan_create_label offset = do
  label ← next_label
  dfsan_check_label label
  write_info label (record zero_info { size = 8; op1 = offset })
  pure label
