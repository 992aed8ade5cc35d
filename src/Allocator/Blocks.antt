-- ===== src/Allocator/Blocks.antt =====
-- taint_allocator.cc: the blocks that the allocator hands out, by their bounds.
use kirenenko.Prelude.{ℕ, ◌+◌, ◌^◌, ◌≤◌, ◌<◌, ◌≡◌, List, [], ◌∷◌, ◌↔◌, refl, arith, All, ◌∙◌}
use kirenenko.Run.{ok, Returns, >>=-eq-ok}
use kirenenko.Allocator.{Allocator, allocator_alloc, alloc_all}

-- The pointer has not passed the end, and the end leaves room for a size without wrap-around.
pub record IsValid (a : Allocator) : Type 0 where
  pub initialized : 0 < a.begin_addr
  pub above : a.begin_addr ≤ a.next_usable_byte
  pub below : a.next_usable_byte < a.end_addr
  pub addressable : a.end_addr < 2 ^ 63

abbrev pub Apart : ℕ → List (ℕ × ℕ) → ℕ → Type 0
Apart lo [] hi = lo < hi
Apart lo ((block, size) ∷ blocks) hi = (lo ≤ block) × Apart (block + size) blocks hi

pub alloc-IsValid :
    {a a' : Allocator} {block : ℕ} (size : ℕ)
    → IsValid a
    → size < 2 ^ 63
    → allocator_alloc size a ≡ ok block a'
    → IsValid a'
      × (block ≡ a.next_usable_byte)
      × (a'.next_usable_byte ≡ block + size)
      × (a'.end_addr ≡ a.end_addr)
      × (a'.begin_addr ≡ a.begin_addr)
unfolding allocator_alloc
alloc-IsValid size v small run = ground arith

-- From a valid state, the blocks that a run of calls for sizes below 2^63 returned lie in the rest
-- of the region, one behind the other without overlap.
pub alloc_all-Apart :
    (sizes : List ℕ) (a : Allocator) {a' : Allocator} (blocks : List (ℕ × ℕ))
    → IsValid a
    → All (λ size. size < 2 ^ 63) sizes
    → alloc_all sizes a ≡ ok blocks a'
    → Apart a.next_usable_byte blocks a.end_addr
unfolding alloc_all
alloc_all-Apart [] a blocks v small run = rw (← blocks_of run) v.below
  where
    blocks_of : {a' : Allocator} → alloc_all [] a ≡ ok blocks a' → [] ≡ blocks
    blocks_of h = cc
alloc_all-Apart (size ∷ sizes) a blocks v small run =
    let (block, a₁, first, rest) = >>=-eq-ok (allocator_alloc size) _ run in
    let (others, a₂, later, last) = >>=-eq-ok (alloc_all sizes) _ rest in
    let step = alloc-IsValid size v small.0 first in
    let e : (block, size) ∷ others ≡ blocks = cc last in
    rw (← e) (
      omega (arith, step),
      ground (arith, step, alloc_all-Apart sizes a₁ others step.0 small.1 later),
    )

-- One size.
alloc-grants :
    (size : ℕ) (a : Allocator)
    → IsValid a
    → a.next_usable_byte + size < a.end_addr
    → allocator_alloc size a
      ≡ ok a.next_usable_byte (record a { next_usable_byte = a.next_usable_byte + size })
unfolding allocator_alloc
alloc-grants size a v fits = ground arith

abbrev pub total : List ℕ → ℕ
total [] = 0
total (size ∷ sizes) = size + total sizes

alloc_all-granted :
    (sizes : List ℕ) (a : Allocator)
    → IsValid a
    → a.next_usable_byte + total sizes < a.end_addr
    → Returns
        (alloc_all sizes a)
        λ blocks a'. a' ≡ record a { next_usable_byte = a.next_usable_byte + total sizes }
unfolding alloc_all
alloc_all-granted [] a v fits =
    let q : a.next_usable_byte + 0 ≡ a.next_usable_byte = omega arith in ([], a, refl, rw (q) refl)
alloc_all-granted (size ∷ sizes) a v fits =
    let first = alloc-grants size a v (omega (arith, fits)) in
    let b : Allocator = record a { next_usable_byte = a.next_usable_byte + size } in
    let valid : IsValid b = record {
      initialized = v.initialized;
      above = omega (arith, v.above);
      below = omega (arith, fits);
      addressable = v.addressable;
    } in
    let (blocks, a', run, e) = alloc_all-granted sizes b valid (omega (arith, fits)) in
    let q : a.next_usable_byte + size + total sizes ≡ a.next_usable_byte + (size + total sizes) =
      omega arith in
    ((a.next_usable_byte, size) ∷ blocks, a', ground (arith, first, run), e ∙ rw (q) refl)

total-lt :
    (sizes : List ℕ) (a : Allocator) {a' : Allocator} {blocks : List (ℕ × ℕ)}
    → IsValid a
    → All (λ size. size < 2 ^ 63) sizes
    → alloc_all sizes a ≡ ok blocks a'
    → a.next_usable_byte + total sizes < a.end_addr
unfolding alloc_all
total-lt [] a v small run = omega (arith, v.below)
total-lt (size ∷ sizes) a v small run =
    let (block, a₁, first, rest) = >>=-eq-ok (allocator_alloc size) _ run in
    let (others, a₂, later, last) = >>=-eq-ok (alloc_all sizes) _ rest in
    let step = alloc-IsValid size v small.0 first in
    omega (arith, step, total-lt sizes a₁ step.0 small.1 later)

-- From a valid state, a run of calls for sizes below 2^63 is granted as a whole exactly when the
-- sum of the sizes ends below end_addr, and then the next usable byte moves by that sum.
pub alloc_all-grants_iff :
    (sizes : List ℕ) (a : Allocator)
    → IsValid a
    → All (λ size. size < 2 ^ 63) sizes
    → (a.next_usable_byte + total sizes < a.end_addr) ↔ (
        Returns
          (alloc_all sizes a)
          λ blocks a'. a' ≡ record a { next_usable_byte = a.next_usable_byte + total sizes })
alloc_all-grants_iff sizes a v small =
    (λ fits. alloc_all-granted sizes a v fits, λ run. total-lt sizes a v small run.2)
