-- ===== src/Branches/Trace.antt =====
-- dfsan.cc: the calls that instrumented branches make.
use kirenenko.Prelude.{ℕ, bit_or, true, not, ◌&&◌, Option, none, some, ◌==◌, if◌then◌else◌}
use kirenenko.Word.{u8, u16, shl}
use kirenenko.Run.{Step, ok, died, uncaught_exception}
use kirenenko.Operators.{Opcodes}
use kirenenko.Labels.{taint_union}
use kirenenko.Z3.{Z3}
use kirenenko.Expressions.Nodes.{get_cmd}
use kirenenko.Branches.{Session, visit}
use kirenenko.Branches.Solve.{Solver, solve_cond}

module _ (z : Z3) where
  -- The expected result of a comparison; an exception here is caught by nobody.
  unfoldable pub expected : ℕ → ℕ → ℕ → ℕ → Option z.Expr
  expected size predicate c1 c2 = elim (z.bv_val c1 size) [
    | none ↦ none
    | some b1 ↦ elim (z.bv_val c2 size) [
      | none ↦ none
      | some b2 ↦ elim (get_cmd z b1 b2 predicate) [ none ↦ none | some e ↦ some (z.simplify e) ]
    ]
  ]

module _ {z : Z3} (solver : Solver z) ⦃ops : Opcodes⦄ where
  -- `__taint_trace_cond`, at a branch that the call stack and the address name.
  unfoldable pub taint_trace_cond : ℕ → ℕ → ℕ → ℕ → ℕ → ℕ → Session z → Step (Session z) (Unit {0})
  taint_trace_cond fuel rounds callstack addr label r s =
      let (passes, branches) = visit callstack addr s.branches in
      let s' = record s { branches = branches } in
      if label == 0
      then ok tt s
      else if not passes
      then ok tt s
      else solve_cond solver fuel rounds label (z.bool_val (not (r == 0))) true s'

  unfoldable pub taint_trace_cmp :
      ℕ → ℕ → ℕ → ℕ → ℕ → ℕ → ℕ → ℕ → ℕ → ℕ → Session z → Step (Session z) (Unit {0})
  taint_trace_cmp fuel rounds callstack addr op1 op2 size predicate c1 c2 s =
      let (passes, branches) = visit callstack addr s.branches in
      let w = s.world in
      let op = u16 (bit_or (shl predicate 8) ops.op_icmp) in
      if op1 == 0 && op2 == 0
      then ok tt s
      else if not passes
      then ok tt s
      else elim (taint_union op1 op2 op (u8 size) c1 c2 w.runtime) [
        | died e r ↦ died e (record s { branches = branches; world = record w { runtime = r } })
        | ok temp r ↦
            let s' = record s { branches = branches; world = record w { runtime = r } } in
            elim (expected z size predicate c1 c2) [
              | none ↦ died uncaught_exception s'
              | some result ↦ solve_cond solver fuel rounds temp result (c1 == c2) s'
            ]
      ]

-- `__taint_trace_indcall` and `__taint_trace_gep` report a symbolic target or index, and change
-- nothing: the rest of the latter stands behind a `return`.
unfoldable pub taint_trace_gep : {z : Z3} → ℕ → ℕ → Session z → Step (Session z) (Unit {0})
taint_trace_gep label r s = ok tt s
