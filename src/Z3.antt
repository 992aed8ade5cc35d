-- ===== src/Z3.antt =====
-- The part of Z3's C++ interface that dfsan.cc calls. Z3 is not part of the repository, so its
-- expressions and operations are a parameter; an operation that ends by a `z3::exception`, as on
-- operands of the wrong sorts, returns `none`.
use kirenenko.Prelude.{ℕ, Bool, Option}

pub data Unary : Type 0 where
  logical_not negate : Unary
  zero_extend sign_extend : ℕ → Unary
  -- the highest and the lowest bit that are kept
  extract : ℕ → ℕ → Unary

pub data Binary : Type 0 where
  bit_and bit_or logical_and logical_or bit_xor : Binary
  shift_left logical_shift_right arithmetic_shift_right : Binary
  add sub mul unsigned_div signed_div unsigned_rem signed_rem : Binary
  equal not_equal ugt uge ult ule sgt sge slt sle : Binary
  -- the high part first
  concat : Binary

pub record Z3 : Type 1 where
  pub Expr : Type 0
  -- value, number of bits
  pub bv_val : ℕ → ℕ → Option Expr
  pub bool_val : Bool → Expr
  -- the byte of the input at an offset: an 8-bit constant named by an integer
  pub input : ℕ → Expr
  -- the constant named "fsize", of so many bits
  pub file_size : ℕ → Option Expr
  pub is_bool : Expr → Bool
  pub bv_size : Expr → Option ℕ
  pub unary : Unary → Expr → Option Expr
  pub binary : Binary → Expr → Expr → Option Expr
  pub ite : Expr → Expr → Expr → Option Expr
  pub simplify : Expr → Expr
