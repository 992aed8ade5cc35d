-- ===== src/Branches.antt =====
-- dfsan.cc: branches on symbolic conditions. Here are the state that they share, the filter that
-- bounds how often a branch is solved, and the dependencies between offsets of the input. A
-- `z3::exception` is the result `none`.
pub mod Solve
pub mod Filter
pub mod Pushed
pub mod Closure
pub mod Trace
pub mod Flipped
use kirenenko.Prelude.{
  ℕ, zero, suc, ◌+◌, ◌-◌, ◌*◌, Bool, true, false, not, ◌&&◌, ◌||◌, Option, none, some, List, [],
  ◌∷◌, ◌++◌, ◌==◌, ltb, leb, if◌then◌else◌, update,
}
use kirenenko.Run.{Step, ok, died, out_of_range, out_of_fuel}
use kirenenko.Z3.{Z3}
use kirenenko.Expressions.{World}

pub record BranchDep (z : Z3) : Type 0 where
  pub expr_deps : List z.Expr
  pub input_deps : List ℕ

-- How the solver's answer is written to a new input: a byte, or another size.
pub data Edit : Type 0 where
  set_byte : ℕ → ℕ → Edit
  grow truncate : ℕ → Edit

-- A new input: its number, and the edits of a copy of the input.
pub record Output : Type 0 where
  pub number : ℕ
  pub edits : List Edit

-- `branch_deps` is the vector, with `slots` elements, of pointers to dependencies.
pub record Session (z : Z3) : Type 0 where
  pub world : World z
  pub is_stdin : Bool
  pub input_size : ℕ
  pub branch_deps : ℕ → Option (BranchDep z)
  pub slots : ℕ
  pub branches : List ((ℕ × ℕ) × ℕ)
  pub current_index : ℕ
  pub outputs : List Output

abbrev pub max_branch_count : ℕ
max_branch_count = 16

-- The filter on a branch, by the hash of the call stack and the address of the branch: whether it
-- passes, and the counts then.
unfoldable pub visit : ℕ → ℕ → List ((ℕ × ℕ) × ℕ) → Bool × List ((ℕ × ℕ) × ℕ)
visit callstack addr [] = (true, ((callstack, addr), 1) ∷ [])
visit callstack addr (((c, a), n) ∷ rest) =
    let (passes, rest') = visit callstack addr rest in
    if c == callstack && a == addr
    then (if ltb n max_branch_count
        then (true, ((c, a), n + 1) ∷ rest)
        else (false, ((c, a), n) ∷ rest))
    else (passes, ((c, a), n) ∷ rest')

abbrev pub member : ℕ → List ℕ → Bool
member x [] = false
member x (y ∷ ys) = x == y || member x ys

abbrev pub insert_new : ℕ → List ℕ → List ℕ
insert_new x xs = if member x xs then xs else x ∷ xs

abbrev pub insert_all : List ℕ → List ℕ → List ℕ
insert_all [] ys = ys
insert_all (x ∷ xs) ys = insert_new x (insert_all xs ys)

module _ {z : Z3} where
  -- On a pipe the vector grows when it is too short; elsewhere `at` throws, and nothing catches
  -- that.
  unfoldable pub resized : ℕ → Session z → Session z
  resized n s =
      if s.is_stdin && leb s.slots n
      then record s {
        slots = n + 1;
        branch_deps = λ k. if ltb k s.slots then s.branch_deps k else none;
      }
      else s

  unfoldable pub get_branch_dep : ℕ → Session z → Step (Session z) (Option (BranchDep z))
  get_branch_dep n s =
      let s' = resized n s in
      if ltb n s'.slots then ok (s'.branch_deps n) s' else died out_of_range s'

  unfoldable pub set_branch_dep : ℕ → BranchDep z → Session z → Step (Session z) (Unit {0})
  set_branch_dep n dep s =
      let s' = resized n s in
      if ltb n s'.slots
      then ok tt (record s' { branch_deps = update s'.branch_deps n (some dep) })
      else died out_of_range s'

-- One pointer's inputs: those that are new to the set are put on the stack too.
unfoldable pub push_new : List ℕ → List ℕ → List ℕ → List ℕ × List ℕ
push_new [] worklist inputs = (worklist, inputs)
push_new (i ∷ deps) worklist inputs =
    if member i inputs
    then push_new deps worklist inputs
    else push_new deps (i ∷ worklist) (i ∷ inputs)

module _ {z : Z3} where
  -- The loop that collects all offsets on which `inputs` depend. The head of the list is the back
  -- of the vector.
  unfoldable pub close_inputs : ℕ → List ℕ → List ℕ → Session z → Step (Session z) (List ℕ)
  close_inputs fuel [] inputs s = ok inputs s
  close_inputs zero (off ∷ worklist) inputs s = died out_of_fuel s
  close_inputs (suc fuel) (off ∷ worklist) inputs s = elim (get_branch_dep off s) [
    | died e s' ↦ died e s'
    | ok none s' ↦ close_inputs fuel worklist inputs s'
    | ok (some dep) s' ↦
        close_inputs fuel (push_new dep.input_deps worklist inputs).0
          (push_new dep.input_deps worklist inputs).1 s'
  ]
