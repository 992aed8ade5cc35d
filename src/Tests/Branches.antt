-- ===== src/Tests/Branches.antt =====
-- Branches on the condition of the test of `serialize`, with a solver that finds everything
-- satisfiable.
use kirenenko.Prelude.{
  ℕ, ◌≡◌, refl, arith, true, false, Option, none, some, List, [], ◌∷◌, ◌==◌, leb, if◌then◌else◌,
}
use kirenenko.Run.{Step, ok, died}
use kirenenko.Expressions.{
  set_tree_size, copy_tree_size, cache_expr, cached, one_operand, operand, two_operands,
  serialize_node, serialize, size_of_first, size_of_second,
}
use kirenenko.Expressions.Nodes.{common_expr, constant_expr, not_expr, get_cmd, predicate_of}
use kirenenko.Branches.{Session, resized, get_branch_dep, set_branch_dep, close_inputs, push_new}
use kirenenko.Branches.Solve.{
  Solver, sat, byte_at, is_flipped, mark_flipped, write_model, generate_input, add_dep, add_deps,
  gather, constrain, add_constraints, flip, solve, solve_cond,
}
use kirenenko.Branches.Filter.{occurrences, solved, solved-bounded}
use kirenenko.Branches.Closure.{HasDeps, IsClosure, close_inputs-IsClosure}
use kirenenko.Branches.Flipped.{solve_cond-once, add_constraints-once}
use kirenenko.Process.{libc}
use kirenenko.TaintFile.{taint_get_file, taint_set_offset_label}
use kirenenko.Custom.{dfsan_union}
use kirenenko.Custom.Seek.{Program, process_of, with_process, hold_offset, dfsw_lseek}
use kirenenko.Tests.{llvm_6, program as runtime_program}
use kirenenko.Tests.Custom.{small_libc, no_file}
use kirenenko.Tests.Expressions.{Tree, trees, world}

abbrev session : Session trees
session = record {
  world = world;
  is_stdin = false;
  input_size = 4;
  branch_deps =
      λ off. if off == 0 then some (record { expr_deps = []; input_deps = 2 ∷ [] }) else none;
  slots = 4;
  branches = [];
  current_index = 0;
  outputs = [];
}

abbrev solver : Solver trees
solver = record {
  same_expr = λ d e. false;
  check = λ es. sat;
  model = λ es. byte_at 0 7 ∷ [];
  opens = λ n. true;
  writes = λ n. true;
}

solved-bounded_example : solved 1 2 ((1, 2) ∷ (3, 4) ∷ (1, 2) ∷ []) [] ≡ (
    if leb (occurrences 1 2 ((1, 2) ∷ (3, 4) ∷ (1, 2) ∷ [])) 16
    then occurrences 1 2 ((1, 2) ∷ (3, 4) ∷ (1, 2) ∷ [])
    else 16)
solved-bounded_example = solved-bounded 1 2 ((1, 2) ∷ (3, 4) ∷ (1, 2) ∷ [])

session-HasDeps : HasDeps session
session-HasDeps = record { file = refl; inside = λ off lt x h. ground (arith, h) }

close_inputs-IsClosure_example :
    (r : List ℕ) × (close_inputs 8 (0 ∷ 1 ∷ []) (0 ∷ 1 ∷ []) session ≡ ok r session)
    × IsClosure session (0 ∷ 1 ∷ []) r
close_inputs-IsClosure_example =
    close_inputs-IsClosure 8 (0 ∷ 1 ∷ []) session session-HasDeps (λ x h. ground (arith, h))
      (omega arith)

abbrev ended : {A : Type 0} → Step (Session trees) A → Session trees
ended (ok a s) = s
ended (died e s) = s

program : Unit {0}
unfolding set_tree_size copy_tree_size cache_expr cached one_operand operand two_operands
    serialize_node serialize size_of_first size_of_second common_expr constant_expr not_expr get_cmd
    predicate_of resized get_branch_dep set_branch_dep close_inputs push_new is_flipped mark_flipped
    write_model generate_input add_dep add_deps gather constrain add_constraints flip solve
    solve_cond
program = tt

abbrev attempt : Step (Session trees) (Option (Unit {0}))
attempt = solve solver 8 8 7 (Tree.truth true) true session

solve_ends : attempt ≡ ok (some tt) (ended attempt)
unfolding program
solve_ends = refl

solve_cond-once_example :
    solve_cond solver 8 8 7 (Tree.truth false) false (ended attempt) ≡ ok tt (ended attempt)
solve_cond-once_example =
    solve_cond-once solver 8 8 7 (Tree.truth true) true session (ended attempt) solve_ends 8 8
      (Tree.truth false) false

abbrev added : Step (Session trees) (Unit {0})
added = add_constraints solver 8 7 session

added_ends : added ≡ ok tt (ended added)
unfolding program
added_ends = refl

add_constraints-once_example :
    (add_constraints solver 8 7 (ended added) ≡ ok tt (ended added))
    × (solve_cond solver 8 8 7 (Tree.truth true) true (ended added) ≡ ok tt (ended added))
add_constraints-once_example =
    add_constraints-once solver 8 7 session (ended added) added_ends 8 8 (Tree.truth true) true

-- A seek of the input to an offset that depends on its first byte.
abbrev before_seek : Program small_libc trees
before_seek = record { session = session; tainted = record no_file { fd = 3; size = 4 }; os = 2 }

abbrev sought : Step (Program small_libc trees) (ℕ × ℕ)
sought = dfsw_lseek solver 3 2 0 1 before_seek

abbrev labels_after : Step (Program small_libc trees) (ℕ × ℕ) → ℕ × ℕ
labels_after (ok a p) = (a.1, p.tainted.offset_label)
labels_after (died e p) = (0, 0)

sought_labels : labels_after sought ≡ (1, 1)
unfolding program runtime_program dfsw_lseek libc taint_get_file taint_set_offset_label dfsan_union
    process_of with_process hold_offset
sought_labels = refl
