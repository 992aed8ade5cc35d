-- ===== src/Allocator.antt =====
-- taint_allocator.cc: the bump allocator that the union table takes its memory from. `uptr`
-- arithmetic wraps at 2 ^ 64.
pub mod Blocks
use kirenenko.Prelude.{ℕ, ◌+◌, List, [], ◌∷◌, ◌==◌, leb, if◌then◌else◌}
use kirenenko.Word.{u64}
use kirenenko.Run.{
  Step, Run, ok, died, allocator_not_initialized, allocate_size_exceeded, pure, ◌>>=◌,
}

pub record Allocator : Type 0 where
  pub begin_addr : ℕ
  pub next_usable_byte : ℕ
  pub end_addr : ℕ

unfoldable pub allocator_init : ℕ → ℕ → Allocator
allocator_init begin end = record { begin_addr = begin; next_usable_byte = begin; end_addr = end }

-- `atomic_fetch_add` has moved the pointer also when the size is then refused.
unfoldable pub allocator_alloc : ℕ → Run Allocator ℕ
allocator_alloc size a =
    if a.begin_addr == 0
    then died allocator_not_initialized a
    else let retval = a.next_usable_byte in
      let a' = record a { next_usable_byte = u64 (retval + size) } in
      if leb a.end_addr (u64 (retval + size)) then died allocate_size_exceeded a' else ok retval a'

-- Calls one after another; the blocks in the order of the calls, each with its size.
unfoldable pub alloc_all : List ℕ → Run Allocator (List (ℕ × ℕ))
alloc_all [] = pure []
alloc_all (size ∷ sizes) = do
  block ← allocator_alloc size
  blocks ← alloc_all sizes
  pure ((block, size) ∷ blocks)
