-- ===== src/Tests/Labels.antt =====
-- The theorems on unions at the sum of two input bytes.
use kirenenko.Prelude.{◌≡◌, ◌↔◌, refl, arith, Bool, true, some}
use kirenenko.Labels.Has.{dfsan_has_label, OnPath, dfsan_has_label-OnPath}
use kirenenko.Runtime.{Runtime}
use kirenenko.Run.{ok, Returns}
use kirenenko.Labels.{taint_union, dfsan_create_label}
use kirenenko.Labels.Invariant.{Valid, dfsan_create_label-Valid}
use kirenenko.Labels.Union.{
  SameUnion, Remembers, Extends-Remembers, Extends-refl, IsInterned, Keeps, union_key,
  taint_union_comm, taint_union-Keeps, taint_union-IsInterned, taint_union-again,
  taint_union-injective,
}
use kirenenko.Labels.Returns.{HasSpace, taint_union-returns}
use kirenenko.Tests.{llvm_6, start, start-Valid, program, state_of, sum, sum_label}

taint_union_comm_example : taint_union 1 2 11 16 7 9 start ≡ taint_union 2 1 11 16 9 7 start
taint_union_comm_example = taint_union_comm 1 2 11 16 7 9 start (unfold program in refl)

taint_union-IsInterned_example : IsInterned (union_key 1 2 11 16 7 9) start 5 (state_of sum)
taint_union-IsInterned_example =
    taint_union-IsInterned 1 2 11 16 7 9 start start-Valid (omega arith) sum_label

start-HasSpace : HasSpace start
start-HasSpace = record { label = omega arith; node = omega arith }

taint_union-returns_example :
    Returns
      (taint_union 1 2 11 16 7 9 start)
      λ label r'. IsInterned (union_key 1 2 11 16 7 9) start label r'
taint_union-returns_example =
    taint_union-returns 1 2 11 16 7 9 start start-Valid start-HasSpace (omega arith) (omega arith)
      (omega arith)

-- The sum of the bytes, in a state with another memory.
abbrev later : Runtime
later = record (state_of sum) { memory = λ a. 3 }

later-Remembers : Remembers (state_of sum) later
later-Remembers = Extends-Remembers (state_of sum).shadow (λ a. 3) (Extends-refl (state_of sum))

taint_union-again_example : taint_union 1 2 11 16 7 9 later ≡ ok 5 later
taint_union-again_example =
    taint_union-again 1 2 11 16 7 9 start later start-Valid (omega arith) sum_label later-Remembers

same_sum : taint_union 2 1 11 16 0 0 (state_of sum) ≡ ok 5 (state_of sum)
unfolding program
same_sum = refl

taint_union-injective_example : SameUnion 1 2 11 16 7 9 2 1 11 16 0 0
taint_union-injective_example =
    taint_union-injective 1 2 11 16 7 9 2 1 11 16 0 0 start (state_of sum) start-Valid
      taint_union-IsInterned_example.valid (omega arith) (omega arith) sum_label
      (Extends-Remembers (state_of sum).shadow (state_of sum).memory (Extends-refl (state_of sum)))
      same_sum

created : dfsan_create_label 9 start ≡ ok 5 (state_of (dfsan_create_label 9 start))
unfolding program
created = refl

dfsan_create_label-Valid_example : Valid (state_of (dfsan_create_label 9 start))
dfsan_create_label-Valid_example = dfsan_create_label-Valid 9 start start-Valid created

taint_union-Keeps_example : Keeps start (state_of sum)
taint_union-Keeps_example = taint_union-Keeps 1 2 11 16 7 9 start start-Valid sum_label

dfsan_has_label-OnPath_example :
    (b : Bool) × (dfsan_has_label 6 (state_of sum) 5 2 ≡ some b)
    × ((b ≡ true) ↔ OnPath (state_of sum) 5 2)
dfsan_has_label-OnPath_example =
    dfsan_has_label-OnPath 6 5 2 (state_of sum) taint_union-IsInterned_example.valid
      taint_union-IsInterned_example.range.1 (omega arith)
