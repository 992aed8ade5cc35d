-- ===== src/Branches/Solve.antt =====
-- dfsan.cc: `generate_input`, `add_constraints`, `__solve_cond`. The solver and the files that are written are parameters.
use kirenenko.Prelude.{
  ℕ, ◌+◌, ◌%◌, bit_or, Bool, true, false, not, ◌||◌, Option, none, some, List, [], ◌∷◌, ◌++◌, ◌==◌,
  ltb, if◌then◌else◌,
}
use kirenenko.Word.{u8}
use kirenenko.Run.{Step, ok, died}
use kirenenko.Operators.{Opcodes}
use kirenenko.Z3.{Z3, Binary}
use kirenenko.Expressions.{Try, info_of, set_info, serialize}
use kirenenko.Branches.{
  BranchDep, Edit, Session, insert_all, get_branch_dep, set_branch_dep, close_inputs,
}

pub data CheckResult : Type 0 where
  sat unsat unknown : CheckResult

-- A constant of a model: named by an offset, named "fsize", or named by another string.
pub data Assignment : Type 0 where
  byte_at : ℕ → ℕ → Assignment
  file_size : ℕ → Assignment
  other_name : Assignment

pub record Solver (z : Z3) : Type 0 where
  -- expressions with one id
  pub same_expr : z.Expr → z.Expr → Bool
  pub check : List z.Expr → CheckResult
  pub model : List z.Expr → List Assignment
  -- whether the new file opens, and whether the copy of the input is written
  pub opens : ℕ → Bool
  pub writes : ℕ → Bool

abbrev pub Attempt : Z3 → Type 0 → Type 0
Attempt z A = Session z → Step (Session z) (Option A)

infixl 5 ◌>>=◌ ◌>>◌
abbrev pub ◌>>=◌ : {z : Z3} {A B : Type 0} → Attempt z A → (A → Attempt z B) → Attempt z B
◌>>=◌ m f s = elim (m s) [
  | ok (some a) s' ↦ f a s'
  | ok none s' ↦ ok none s'
  | died e s' ↦ died e s'
]

abbrev pub ◌>>◌ : {z : Z3} {A B : Type 0} → Attempt z A → Attempt z B → Attempt z B
m >> k = m >>= λ _. k

module _ {z : Z3} where
  abbrev pub give : {A : Type 0} → Option A → Attempt z A
  give o s = ok o s

  -- What throws nothing.
  abbrev pub plainly : {A : Type 0} → (Session z → Step (Session z) A) → Attempt z A
  plainly m s = elim (m s) [ ok a s' ↦ ok (some a) s' | died e s' ↦ died e s' ]

  abbrev pub in_world : {A : Type 0} → Try z A → Attempt z A
  in_world m s = elim (m s.world) [
    | ok o w ↦ ok o (record s { world = w })
    | died e w ↦ died e (record s { world = w })
  ]

  unfoldable pub is_flipped : ℕ → Session z → Bool
  is_flipped label s = not ((info_of s.world label).flags % 2 == 0)

  unfoldable pub mark_flipped : ℕ → Session z → Session z
  mark_flipped label s =
      let info = info_of s.world label in
      record s { world = set_info s.world label (record info { flags = bit_or info.flags 1 }) }

module _ {z : Z3} (solver : Solver z) where
  abbrev member_expr : z.Expr → List z.Expr → Bool
  member_expr e [] = false
  member_expr e (d ∷ ds) = solver.same_expr e d || member_expr e ds

  abbrev insert_expr : z.Expr → List z.Expr → List z.Expr
  insert_expr e ds = if member_expr e ds then ds else e ∷ ds

  abbrev insert_exprs : List z.Expr → List z.Expr → List z.Expr
  insert_exprs [] ds = ds
  insert_exprs (e ∷ es) ds = insert_expr e (insert_exprs es ds)

  -- Whether the constants were all written; the size of the file ends it by an exception.
  unfoldable pub write_model : ℕ → List Assignment → Bool × List Edit
  write_model size [] = (true, [])
  write_model size (byte_at offset value ∷ rest) =
      let (all, edits) = write_model size rest in (all, Edit.set_byte offset (u8 value) ∷ edits)
  write_model size (file_size n ∷ rest) =
      (false, (if ltb size n then Edit.grow n else Edit.truncate n) ∷ [])
  write_model size (other_name ∷ rest) = write_model size rest

  unfoldable pub generate_input : List Assignment → Attempt z (Unit {0})
  generate_input m s =
      let number = s.current_index in
      let s1 = record s { current_index = number + 1 } in
      let (all, edits) = write_model s.input_size m in
      let s2 = record s1 { outputs = record { number = number; edits = edits } ∷ s1.outputs } in
      if not (solver.opens number)
      then ok none s1
      else if s.is_stdin || not (solver.writes number)
      then ok none (record s1 { outputs = record { number = number; edits = [] } ∷ s1.outputs })
      else ok (if all then some tt else none) s2

  -- `inputs`, and then an expression, are added to the dependencies of one offset.
  unfoldable pub add_dep : ℕ → List ℕ → Option z.Expr → Attempt z (Unit {0})
  add_dep off inputs e = do
    found ← plainly (get_branch_dep off)
    with_inputs ← give (
        some (elim found as (λ _. BranchDep z) [
          | none ↦ record { expr_deps = []; input_deps = inputs }
          | some c ↦ record { expr_deps = c.expr_deps; input_deps = insert_all inputs c.input_deps }
        ]))
    plainly (set_branch_dep off with_inputs)
    made ← give e
    plainly (
        set_branch_dep off
          (record with_inputs { expr_deps = insert_expr made with_inputs.expr_deps }))

  unfoldable pub add_deps : List ℕ → List ℕ → Option z.Expr → Attempt z (Unit {0})
  add_deps [] inputs e = give (some tt)
  add_deps (off ∷ offs) inputs e = do add_dep off inputs e; add_deps offs inputs e

  -- The expressions on which the offsets depend, each once.
  unfoldable pub gather : List ℕ → List z.Expr → Attempt z (List z.Expr)
  gather [] added = give (some added)
  gather (off ∷ offs) added = do
    found ← plainly (get_branch_dep off)
    gather offs (elim found [ none ↦ added | some c ↦ insert_exprs c.expr_deps added ])

  module _ ⦃ops : Opcodes⦄ where
    -- What `add_constraints` tries.
    unfoldable pub constrain : ℕ → ℕ → Attempt z (Unit {0})
    constrain fuel label = do
      (cond, inputs) ← in_world (serialize z fuel label [])
      add_deps inputs inputs (some cond)

    unfoldable pub add_constraints : ℕ → ℕ → Session z → Step (Session z) (Unit {0})
    add_constraints fuel label s =
        if is_flipped label s then ok tt s else elim (constrain fuel label s) [
          | ok o s' ↦ ok tt (mark_flipped label s')
          | died e s' ↦ died e s'
        ]

    -- The new input, from a model of everything, or from one of the branch alone.
    unfoldable pub flip : z.Expr → List ℕ → Attempt z (Unit {0})
    flip target inputs = elim (solver.check (target ∷ [])) [
      | sat ↦ (do
        added ← gather inputs []
        elim (solver.check (added ++ (target ∷ []))) [
          | sat ↦ generate_input (solver.model (added ++ (target ∷ [])))
          | _ ↦ generate_input (solver.model (target ∷ []))
        ])
      | _ ↦ give (some tt)
    ]

    -- What `__solve_cond` tries.
    unfoldable pub solve : ℕ → ℕ → ℕ → z.Expr → Bool → Attempt z (Unit {0})
    solve fuel rounds label result add_nested = do
      (cond, direct) ← in_world (serialize z fuel label [])
      inputs ← plainly (close_inputs rounds direct direct)
      target ← give (z.binary Binary.not_equal cond result)
      flip target inputs
      if add_nested
          then add_deps inputs inputs (z.binary Binary.equal cond result)
          else give (some tt)
      λ s. ok (some tt) (mark_flipped label s)

    unfoldable pub solve_cond : ℕ → ℕ → ℕ → z.Expr → Bool → Session z → Step (Session z) (Unit {0})
    solve_cond fuel rounds label result add_nested s =
        if is_flipped label s then ok tt s else elim (solve fuel rounds label result add_nested s) [
          | ok o s' ↦ ok tt s'
          | died e s' ↦ died e s'
        ]
