-- ===== src/Tests/Shadow.antt =====
-- The theorems on loads and stores at a sum of two bytes and at the bytes of the input.
use kirenenko.Prelude.{ℕ, ◌*◌, ◌≡◌, ◌≢◌, refl, arith, ◌⊎◌, ◌==◌, if◌then◌else◌}
use kirenenko.Word.{u16, u32}
use kirenenko.Run.{Fault, ok, died, out_of_fuel}
use kirenenko.Operators.{op_load}
use kirenenko.Runtime.{Runtime, label_at}
use kirenenko.Labels.{taint_union}
use kirenenko.Labels.Invariant.{Valid, Valid-shadow}
use kirenenko.Labels.Union.{taint_union-IsInterned}
use kirenenko.Shadow.{taint_union_load, taint_union_store, slow_path}
use kirenenko.Shadow.Extracts.{store-load}
use kirenenko.Shadow.Input.{IsInputRun, load-input, load-store}
use kirenenko.Shadow.Mixed.{load-mixed_as_input}
use kirenenko.Shadow.Slow.{HasBytes, slow_path-total}
use kirenenko.Tests.{llvm_6, start, start-Valid, program, state_of, sum, sum_label}

sum-Valid : Valid (state_of sum)
sum-Valid = (taint_union-IsInterned 1 2 11 16 7 9 start start-Valid (omega arith) sum_label).valid

abbrev stored : Runtime
stored = state_of (taint_union_store 5 0x2000 2 (state_of sum))

sum_is_stored : taint_union_store 5 0x2000 2 (state_of sum) ≡ ok tt stored
unfolding program
sum_is_stored = refl

store-load_example : taint_union_load 4 0x2000 2 stored ≡ ok 5 stored
store-load_example =
    store-load 5 0x2000 2 4 (state_of sum) stored sum-Valid (omega arith)
      (unfold program in omega arith) (unfold program in omega arith) (unfold program in refl)
      (omega arith) (omega arith) sum_is_stored

-- The shadow of `start` at 0x1000 holds the labels of the first three bytes.
start-IsInputRun : IsInputRun start 0x1000 1 3
start-IsInputRun = record {
  exists = omega arith;
  input = refl;
  sized = omega arith;
  offset_fits = omega arith;
  labels = λ j lt. ground arith;
  offsets = λ j lt. ground arith;
}

load-input_example :
    taint_union_load 4 0x1000 3 start ≡ taint_union 1 (u32 3) op_load (u16 (3 * 8)) 0 0 start
load-input_example = load-input start start-Valid 0x1000 1 3 4 start-IsInputRun (omega arith)

abbrev loaded : Runtime
loaded = state_of (taint_union_load 4 0x1000 3 start)

abbrev copied : Runtime
copied = state_of (taint_union_store 5 0x2000 3 loaded)

loaded_bytes : taint_union_load 4 0x1000 3 start ≡ ok 5 loaded
unfolding program
loaded_bytes = refl

copied_bytes : taint_union_store 5 0x2000 3 loaded ≡ ok tt copied
unfolding program
copied_bytes = refl

load-store_example : label_at copied 0x2000 2 ≡ label_at start 0x1000 2
load-store_example =
    load-store start start-Valid 0x1000 1 3 4 start-IsInputRun 0x2000 loaded copied (omega arith)
      loaded_bytes copied_bytes 2 (omega arith)

-- A concrete byte before the second byte of the input.
abbrev mixed : Runtime
mixed = record start { shadow = λ a. if a == 0x1004 then 2 else 0 }

load-mixed_as_input_example :
    taint_union_load 4 0x1000 2 mixed ≡ taint_union 0 (u32 2) op_load (u16 (2 * 8)) 0 0 mixed
load-mixed_as_input_example =
    load-mixed_as_input mixed (Valid-shadow mixed.shadow start-Valid) 0x1000 2 4 (omega arith) refl
      (λ j lo hi. ground arith)

-- A concrete byte before the third byte of the input.
abbrev prefixed : Runtime
prefixed = record start { shadow = λ a. if a == 0x1004 then 3 else 0 }

start-HasBytes : HasBytes start 0x1000 3
start-HasBytes j lt = ground arith

slow_path-total_example :
    ((l : ℕ) × (s : Runtime) × (slow_path 3 0x1000 3 1 1 start ≡ ok l s))
    ⊎ ((e : Fault) × (s : Runtime) × (slow_path 3 0x1000 3 1 1 start ≡ died e s)
        × (e ≢ out_of_fuel))
slow_path-total_example =
    slow_path-total 3 0x1000 3 1 1 start start-Valid start-HasBytes (omega arith)
