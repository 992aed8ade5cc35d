-- ===== src/Runtime.antt =====
-- The global state of dfsan.cc, dfsan_check_label, and the accesses to shadow memory.
use kirenenko.Prelude.{ℕ, ◌+◌, ◌*◌, ◌==◌, leb, if◌then◌else◌, update}
use kirenenko.Word.{u32}
use kirenenko.Run.{Run, ok, died, out_of_labels, exhausted_labels}
use kirenenko.Mapping.{x86_64}
use kirenenko.Allocator.{Allocator}
use kirenenko.LabelInfo.{LabelInfo, initializing_label, label_info_bytes}
use kirenenko.UnionTable.{UnionTable}

-- `shadow` holds a label at each address that `shadow_for` returns, `memory` the bytes of the
-- application.
pub record Runtime : Type 0 where
  pub last_label : ℕ
  pub label_info : ℕ → LabelInfo
  pub allocator : Allocator
  pub union_table : UnionTable
  pub shadow : ℕ → ℕ
  pub memory : ℕ → ℕ

-- The address of an entry of the label table.
abbrev pub info_address : ℕ → ℕ
info_address label = x86_64.union_table_addr + label * label_info_bytes

unfoldable pub dfsan_check_label : ℕ → Run Runtime (Unit {0})
dfsan_check_label label r =
    if label == initializing_label
    then died out_of_labels r
    else if leb x86_64.hash_table_addr (info_address label)
    then died exhausted_labels r
    else ok tt r

-- atomic_load(&__dfsan_last_label)
abbrev pub load_last_label : Run Runtime ℕ
load_last_label r = ok r.last_label r

-- atomic_fetch_add(&__dfsan_last_label, 1) + 1, on 32 bits
abbrev pub next_label : Run Runtime ℕ
next_label r = ok (u32 (r.last_label + 1)) (record r { last_label = u32 (r.last_label + 1) })

abbrev pub write_info : ℕ → LabelInfo → Run Runtime (Unit {0})
write_info label info r = ok tt (record r { label_info = update r.label_info label info })

-- `ls[i]` of a pointer `ls` into shadow memory, read and written.
abbrev pub label_at : Runtime → ℕ → ℕ → ℕ
label_at r ls i = r.shadow (ls + 4 * i)

abbrev pub set_label_at : ℕ → ℕ → ℕ → Run Runtime (Unit {0})
set_label_at ls i label r = ok tt (record r { shadow = update r.shadow (ls + 4 * i) label })
