-- ===== src/Tests/Memory.antt =====
-- The theorems on the allocator, the table and the address maps at concrete inputs.
use kirenenko.Prelude.{◌+◌, ◌≤◌, ◌<◌, ◌≡◌, ◌↔◌, refl, arith, [], ◌∷◌, if◌then◌else◌}
use kirenenko.Run.{Returns}
use kirenenko.Mapping.{x86_64, shadow_for, app_for}
use kirenenko.Mapping.RoundTrip.{app_for-shadow_for, shadow_for_bounds}
use kirenenko.Allocator.{allocator_alloc, alloc_all}
use kirenenko.Allocator.Blocks.{Apart, alloc_all-Apart, alloc_all-grants_iff}
use kirenenko.LabelInfo.{same, some_dfsan_label}
use kirenenko.UnionTable.{hash, link, lookup}
use kirenenko.UnionTable.Laws.{lookup-link}
use kirenenko.Tests.{start, start-Valid}

app_for-shadow_for_example : app_for (shadow_for 0x7fff12345678) ≡ 0x7fff12345678
app_for-shadow_for_example = app_for-shadow_for 0x7fff12345678 (omega arith)

shadow_for_bounds_example :
    (x86_64.shadow_addr ≤ shadow_for 0x7fff12345678)
    × (shadow_for 0x7fff12345678 + 4 ≤ x86_64.union_table_addr)
shadow_for_bounds_example = shadow_for_bounds 0x7fff12345678 (omega arith) (omega arith)

alloc_all-Apart_example :
    Apart 0x400c00200000 ((0x400c00200000, 24) ∷ (0x400c00200018, 24) ∷ []) 0x400d00000000
unfolding alloc_all allocator_alloc
alloc_all-Apart_example =
    alloc_all-Apart (24 ∷ 24 ∷ []) start.allocator _ start-Valid.blocks (omega arith) refl

alloc_all-grants_iff_example : (0x400c00200000 + (24 + (24 + 0)) < 0x400d00000000) ↔ (
    Returns
      (alloc_all (24 ∷ 24 ∷ []) start.allocator)
      λ blocks a'. a' ≡ record start.allocator { next_usable_byte = 0x400c00200030 })
alloc_all-grants_iff_example =
    alloc_all-grants_iff (24 ∷ 24 ∷ []) start.allocator start-Valid.blocks (omega arith)

lookup-link_example :
    lookup start.label_info
      (link start.union_table
        (hash start.union_table (start.label_info 2))
        (record { address = 0x400c00200000; key = 2; entry = 2 }))
      (start.label_info 3)
    ≡ (if same (start.label_info 2) (start.label_info 3)
        then some_dfsan_label 2
        else lookup start.label_info start.union_table (start.label_info 3))
lookup-link_example =
    lookup-link start.label_info start.union_table
      (record { address = 0x400c00200000; key = 2; entry = 2 }) (start.label_info 3)
