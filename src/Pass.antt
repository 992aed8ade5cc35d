-- ===== src/Pass.antt =====
-- llvm_mode/pass/TaintPass.cc: the instrumentation pass. Here are the parts of LLVM's intermediate
-- representation that it looks at, what it remembers of a function, and the code that it inserts.
-- LLVM's types of more than 64 bits with a floating point stay outside the model.
pub mod Combine
pub mod Visit
pub mod Machine
pub mod Stores
pub mod Reference
pub mod Calls
pub mod Negation
pub mod Means
use kirenenko.Prelude.{
  ℕ, ◌+◌, ◌*◌, ◌/◌, Bool, true, false, ◌&&◌, Option, none, some, List, [], ◌∷◌, ◌==◌, if◌then◌else◌,
  update,
}

pub data IrType : Type 0 where
  integer vector other : ℕ → IrType
  half float double pointer : IrType

-- `DataLayout::getTypeSizeInBits` and `getTypeStoreSize` on x86_64.
abbrev pub size_in_bits : IrType → ℕ
size_in_bits (integer n) = n
size_in_bits (vector n) = n
size_in_bits (other n) = n
size_in_bits half = 16
size_in_bits float = 32
size_in_bits double = 64
size_in_bits pointer = 64

abbrev pub store_size : IrType → ℕ
store_size t = (size_in_bits t + 7) / 8

abbrev pub is_floating_point : IrType → Bool
is_floating_point half = true
is_floating_point float = true
is_floating_point double = true
is_floating_point _ = false

-- An instruction is known by its place in the order of the visit.
pub data Value : Type 0 where
  argument instruction : ℕ → IrType → Value
  constant_int : ℕ → ℕ → Value
  constant : ℕ → IrType → Value

abbrev pub type_of : Value → IrType
type_of (argument i t) = t
type_of (instruction k t) = t
type_of (constant_int c n) = integer n
type_of (constant c t) = t

abbrev pub is_constant : Value → Bool
is_constant (argument i t) = false
is_constant (instruction k t) = false
is_constant _ = true

-- What a pointer may be based on, as `GetUnderlyingObjects` tells.
pub data Object : Type 0 where
  function_object block_address : Object
  global_variable : Bool → Object
  other_object : Object

-- The users of an `alloca`. A store may have the place as its pointer or only as its value.
pub data User : Type 0 where
  loads stores_to stores_pointer other_user : User

-- The types along the indices of a `getelementptr`.
mutual
  pub data Layout : Type 0 where
    scalar : Layout
    pointer_to array_of vector_of : Layout → Layout
    struct_of : Layouts → Layout

  pub data Layouts : Type 0 where
    no_fields : Layouts
    field : Layout → Layouts → Layouts

pub data Inst : Type 0 where
  binary : ℕ → Value → Value → Inst
  cast : ℕ → Value → IrType → Inst
  icmp fcmp : ℕ → ℕ → Value → Value → Inst
  load : IrType → Value → List Object → Inst
  store : Value → Value → Inst
  alloca : List User → Inst
  select : Value → Value → Value → Inst
  branch : Option Value → Inst
  switch : Value → List ℕ → Inst
  get_element_ptr : Layout → List Value → Inst
  mem_set mem_transfer : Value → Value → Value → Inst
  ret : Option Value → Inst
  -- the instructions on vectors and aggregates, whose visitors are empty
  untracked : Inst

-- The shadow of a value in the instrumented code: the constant zero, or a value of the code.
pub data Shadow : Type 0 where
  zero_shadow : Shadow
  of_argument of_instruction : ℕ → Shadow

abbrev pub is_zero : Shadow → Bool
is_zero zero_shadow = true
is_zero _ = false

-- `TrueShadow == FalseShadow`, on pointers to values.
abbrev pub is_same_shadow : Shadow → Shadow → Bool
is_same_shadow zero_shadow zero_shadow = true
is_same_shadow (of_argument i) (of_argument k) = i == k
is_same_shadow (of_instruction i) (of_instruction k) = i == k
is_same_shadow _ _ = false

-- The code that the pass inserts. The first number of a form that has a result is the instruction
-- whose shadow the result is.
pub data Code : Type 0 where
  call_union : ℕ → Shadow → Shadow → ℕ → ℕ → Value → Option Value → Code
  load_alloca : ℕ → ℕ → Code
  call_union_load : ℕ → Value → ℕ → Code
  store_alloca : Shadow → ℕ → Code
  store_zeros : Value → ℕ → Code
  call_union_store : Shadow → Value → ℕ → Code
  call_trace_cmp : Shadow → Shadow → ℕ → ℕ → Value → Value → Code
  call_trace_cond : Shadow → Value → Code
  call_trace_gep : Shadow → Value → Code
  call_set_label : Shadow → Value → Value → Code
  transfer_shadow : Value → Value → Value → Code
  select_shadow : ℕ → Value → Shadow → Shadow → Code
  store_retval : Shadow → Code

-- `-taint-trace-float-pointer`, `-taint-trace-gep` and whether the function keeps its native ABI.
pub record Options : Type 0 where
  pub trace_fp : Bool
  pub trace_gep_offset : Bool
  pub is_native_abi : Bool

-- `ValShadowMap` and `AllocaShadowMap` of `TaintFunction`.
pub record TaintFunction : Type 0 where
  pub val_shadow_map : ℕ → Option Shadow
  pub alloca_shadow_map : ℕ → Bool

-- `getShadow`. The label of an argument is loaded at the entry of the function.
unfoldable pub get_shadow : Options → TaintFunction → Value → Shadow
get_shadow o tf (argument i t) = if o.is_native_abi then zero_shadow else of_argument i
get_shadow o tf (instruction k t) = elim (tf.val_shadow_map k) [ none ↦ zero_shadow | some s ↦ s ]
get_shadow o tf _ = zero_shadow

unfoldable pub set_shadow : ℕ → Shadow → TaintFunction → TaintFunction
set_shadow n s tf = record tf { val_shadow_map = update tf.val_shadow_map n (some s) }

unfoldable pub is_constant_one : Value → Bool
is_constant_one (constant_int c n) = c == 1
is_constant_one _ = false

-- `AllConstants` of `loadShadow`.
unfoldable pub all_constants : List Object → Bool
all_constants [] = true
all_constants (function_object ∷ rest) = all_constants rest
all_constants (block_address ∷ rest) = all_constants rest
all_constants (global_variable c ∷ rest) = c && all_constants rest
all_constants (other_object ∷ rest) = false

-- `AllLoadsStores` of `visitAllocaInst`.
unfoldable pub all_loads_stores : List User → Bool
all_loads_stores [] = true
all_loads_stores (loads ∷ rest) = all_loads_stores rest
all_loads_stores (stores_to ∷ rest) = all_loads_stores rest
all_loads_stores (_ ∷ rest) = false

-- The pass at the entry of a function.
unfoldable pub no_shadows : TaintFunction
no_shadows = record { val_shadow_map = λ k. none; alloca_shadow_map = λ k. false }
