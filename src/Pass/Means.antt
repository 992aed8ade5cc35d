-- ===== src/Pass/Means.antt =====
-- TaintPass.cc and dfsan.cc together: instrumented integer arithmetic.
pub mod Operand
pub mod Operation
pub mod Block
use kirenenko.Prelude.{ℕ, ◌+◌, ◌^◌, ◌<◌, ◌≡◌, Bool, false, some, List, [], ◌∷◌, ◌++◌}
use kirenenko.Operators.{Opcodes}
use kirenenko.Z3.{Z3, Binary}
use kirenenko.Expressions.Meaning.{Semantics, operation_of}
use kirenenko.Expressions.Sound.{IsPlainOp}
use kirenenko.Pass.{IrType, Value, Inst, Options, no_shadows}
use kirenenko.Pass.Visit.{instrument}
use kirenenko.Pass.Machine.{Machine, Application, Observed, observe, exec_block, value_of}

-- An operand of `w` bits.
abbrev pub IsOperand : ℕ → Value → Type 0
IsOperand w (Value.argument i t) = t ≡ IrType.integer w
IsOperand w (Value.instruction k t) = t ≡ IrType.integer w
IsOperand w (Value.constant_int c n) = (n ≡ w) × (c < 2 ^ w)
IsOperand w (Value.constant c t) = ⊥

-- The integers of the block, and a memory that it leaves alone.
pub record IsRegistersOnly (a : Application) (w : ℕ) : Type 0 where
  pub arguments : (i : ℕ) → a.arguments i < 2 ^ w
  pub results : (k : ℕ) → a.results k < 2 ^ w
  pub memory : (k : ℕ) (memory : ℕ → ℕ) → a.memory_after k memory ≡ memory

module _ ⦃ops : Opcodes⦄ {z : Z3} (s : Semantics z) (a : Application) (w : ℕ) where
  -- Binary operations on integers of `w` bits, from the instruction `n` on, whose results are
  -- what the operations compute.
  abbrev pub IsArithmeticBlock : ℕ → List (Bool × Inst) → Type 0
  IsArithmeticBlock n [] = Unit
  IsArithmeticBlock n ((b, Inst.binary op x y) ∷ is) =
      ((b ≡ false) × IsOperand w x × IsOperand w y × IsPlainOp op)
      × ((c : Binary) × (operation_of op ≡ some c)
          × (a.results n ≡ s.compute c w (value_of a x) (value_of a y)))
      × IsArithmeticBlock (n + 1) is
  IsArithmeticBlock n _ = ⊥

module _ ⦃ops : Opcodes⦄ (o : Options) (a : Application) where
  -- What is seen of the instrumented code of a block that returns `v`.
  abbrev pub returned : List (Bool × Inst) → Value → Machine → Observed
  returned is v m =
      observe (exec_block a 0 (instrument o 0 (is ++ (false, Inst.ret (some v)) ∷ []) no_shadows) m)
