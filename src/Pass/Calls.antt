-- ===== src/Pass/Calls.antt =====
-- TaintPass.cc: calls. `visitCallSite` and what it builds on: the kinds of wrappers, the type of a
-- custom function, the arguments of a call of one, and the labels that a call passes in
-- thread-local storage. The alternative ABI of `-taint-args-abi` stays outside.
pub mod Types
pub mod Passing
use kirenenko.Prelude.{
  ℕ, zero, suc, ◌+◌, Bool, true, false, ◌||◌, not, Option, none, some, List, [], ◌∷◌, ◌++◌, length,
  if◌then◌else◌, update,
}
use kirenenko.Pass.{
  IrType, type_of, Value, Shadow, zero_shadow, of_instruction, is_zero, Options, TaintFunction,
  get_shadow, set_shadow,
}

-- The type of a parameter. A pointer to a function has the number of the function's type.
pub data ParamType : Type 0 where
  plain_param : IrType → ParamType
  function_pointer_param : ℕ → ParamType

pub record FunctionType : Type 0 where
  pub params : List ParamType
  pub is_var_arg : Bool
  pub returns_value : Bool

-- A parameter of a custom function: one of the function, a trampoline with the pointer to the
-- original function, a label, or a pointer to labels.
pub data CustomParam : Type 0 where
  original_type : IrType → CustomParam
  trampoline_type : ℕ → CustomParam
  int8_pointer_type shadow_type shadow_pointer_type : CustomParam

-- The parameters from the function's own, beginning at the place `at`, and at which place each of
-- them stands.
unfoldable pub custom_params : ℕ → List ParamType → List CustomParam × List ℕ
custom_params at [] = ([], [])
custom_params at (ParamType.plain_param t ∷ ps) =
    let (ts, mapping) = custom_params (at + 1) ps in
    (CustomParam.original_type t ∷ ts, at ∷ mapping)
custom_params at (ParamType.function_pointer_param f ∷ ps) =
    let (ts, mapping) = custom_params (at + 2) ps in
    (CustomParam.trampoline_type f ∷ CustomParam.int8_pointer_type ∷ ts, at ∷ mapping)

abbrev pub repeat {ℓ} : {A : Type ℓ} → ℕ → A → List A
repeat zero x = []
repeat (suc n) x = x ∷ repeat n x

abbrev pub list_when {ℓ} : {A : Type ℓ} → Bool → List A → List A
list_when b xs = if b then xs else []

-- `getCustomFunctionType`: the parameters, and `ArgumentIndexMapping`.
unfoldable pub get_custom_function_type : FunctionType → List CustomParam × List ℕ
get_custom_function_type t =
    let (ts, mapping) = custom_params 0 t.params in
    (
      ts
          ++ repeat (length t.params) CustomParam.shadow_type
          ++ list_when t.is_var_arg (CustomParam.shadow_pointer_type ∷ [])
          ++ list_when t.returns_value (CustomParam.shadow_pointer_type ∷ []),
      mapping,
    )

pub data WrapperKind : Type 0 where
  wk_warning wk_discard wk_functional wk_custom : WrapperKind

-- In which categories of the ABI list a function stands.
pub record Categories : Type 0 where
  pub custom : Bool
  pub functional : Bool
  pub discard : Bool

unfoldable pub get_wrapper_kind : Categories → WrapperKind
get_wrapper_kind c =
    if c.custom
    then WrapperKind.wk_custom
    else if c.functional
    then WrapperKind.wk_functional
    else if c.discard
    then WrapperKind.wk_discard
    else WrapperKind.wk_warning

-- An argument of the call. A pointer to a function has the type of the function.
pub record CallArg : Type 0 where
  pub value : Value
  pub pointee : Option ℕ

abbrev pub arg_type : CallArg → ParamType
arg_type a = elim a.pointee [
  | none ↦ ParamType.plain_param (type_of a.value)
  | some f ↦ ParamType.function_pointer_param f
]

-- An argument of the call of a custom function. A trampoline has the number of its
-- parameter, which is in its name, and the type of the function that it calls.
pub data CustomArg : Type 0 where
  original_arg : Value → CustomArg
  trampoline_arg : ℕ → ℕ → CustomArg
  callback_data : Value → CustomArg
  shadow_arg : Shadow → CustomArg
  label_va label_return : CustomArg

-- The first loop over the arguments, of which `k` are done.
unfoldable pub value_args : ℕ → ℕ → List CallArg → List CustomArg
value_args zero k args = []
value_args (suc n) k [] = []
value_args (suc n) k (a ∷ args) =
    let rest = value_args n (k + 1) args in
    elim a.pointee [
      | none ↦ CustomArg.original_arg a.value ∷ rest
      | some f ↦ CustomArg.trampoline_arg k f ∷ CustomArg.callback_data a.value ∷ rest
    ]

-- The second loop: the labels of the first `n` arguments.
unfoldable pub shadow_args : Options → TaintFunction → ℕ → List CallArg → List CustomArg
shadow_args o tf zero args = []
shadow_args o tf (suc n) [] = []
shadow_args o tf (suc n) (a ∷ args) =
    CustomArg.shadow_arg (get_shadow o tf a.value) ∷ shadow_args o tf n args

-- What comes behind the first `n` arguments.
unfoldable pub variable_args : ℕ → List CallArg → List CallArg
variable_args zero args = args
variable_args (suc n) [] = []
variable_args (suc n) (a ∷ args) = variable_args n args

-- The labels that are stored in the array `labelva`.
unfoldable pub va_shadows : Options → TaintFunction → List CallArg → List Shadow
va_shadows o tf [] = []
va_shadows o tf (a ∷ args) = get_shadow o tf a.value ∷ va_shadows o tf args

unfoldable pub trailing_args : List CallArg → List CustomArg
trailing_args [] = []
trailing_args (a ∷ args) = CustomArg.original_arg a.value ∷ trailing_args args

-- The arguments for the wrapper `__dfsw_` of a function.
unfoldable pub custom_args : Options → TaintFunction → FunctionType → List CallArg → List CustomArg
custom_args o tf t args =
    let n = length t.params in
    value_args n 0 args
    ++ shadow_args o tf n args
    ++ list_when t.is_var_arg (CustomArg.label_va ∷ [])
    ++ list_when t.returns_value (CustomArg.label_return ∷ [])
    ++ trailing_args (variable_args n args)

-- The labels of the first `n` arguments, each at its place in `__dfsan_arg_tls`.
unfoldable pub arg_stores : Options → TaintFunction → ℕ → ℕ → List CallArg → List (ℕ × Shadow)
arg_stores o tf i zero args = []
arg_stores o tf i (suc n) [] = []
arg_stores o tf i (suc n) (a ∷ args) = (i, get_shadow o tf a.value) ∷ arg_stores o tf (i + 1) n args

-- `callee` is the called value of an indirect call; `wrapper` is the kind of the function, where
-- the call goes to a wrapper that the pass has made.
pub record CallSite : Type 0 where
  pub is_intrinsic : Bool
  pub is_vararg_wrapper : Bool
  pub is_invoke : Bool
  pub callee : Option Value
  pub wrapper : Option WrapperKind
  pub function_type : FunctionType
  pub args : List CallArg

-- What becomes of the call. A custom call gets its arguments and the labels of the variable ones;
-- an instrumented call stores labels and, for a result, loads the label of the result.
pub data CallCode : Type 0 where
  untouched warned direct : CallCode
  custom_call : List CustomArg → List Shadow → CallCode
  instrumented_call : List (ℕ × Shadow) → Bool → CallCode

pub record Call : Type 0 where
  -- the label for `__taint_trace_indirect_call`
  pub traced : Option Shadow
  pub code : CallCode

unfoldable pub traced_callee : Options → TaintFunction → CallSite → Option Shadow
traced_callee o tf c = elim c.callee [
  | none ↦ none
  | some v ↦ if is_zero (get_shadow o tf v) then none else some (get_shadow o tf v)
]

unfoldable pub visit_instrumented_call :
    Options → TaintFunction → ℕ → CallSite → CallCode × TaintFunction
visit_instrumented_call o tf n c =
    let t = c.function_type in
    (
      CallCode.instrumented_call (arg_stores o tf 0 (length t.params) c.args) t.returns_value,
      if t.returns_value then set_shadow n (of_instruction n) tf else tf,
    )

unfoldable pub visit_custom_call : Options → TaintFunction → ℕ → CallSite → CallCode × TaintFunction
visit_custom_call o tf n c =
    let t = c.function_type in
    if c.is_invoke then visit_instrumented_call o tf n c else (
      CallCode.custom_call (custom_args o tf t c.args)
          (if t.is_var_arg then va_shadows o tf (variable_args (length t.params) c.args) else []),
      if t.returns_value then set_shadow n (of_instruction n) tf else tf,
    )

unfoldable pub visit_wrapped_call :
    Options → TaintFunction → ℕ → CallSite → CallCode × TaintFunction
visit_wrapped_call o tf n c = elim c.wrapper [
  | none ↦ visit_instrumented_call o tf n c
  | some WrapperKind.wk_warning ↦ (CallCode.warned, set_shadow n zero_shadow tf)
  | some WrapperKind.wk_discard ↦ (CallCode.direct, set_shadow n zero_shadow tf)
  | some WrapperKind.wk_functional ↦ (CallCode.direct, tf)
  | some WrapperKind.wk_custom ↦ visit_custom_call o tf n c
]

unfoldable pub visit_call_site : Options → TaintFunction → ℕ → CallSite → Call × TaintFunction
visit_call_site o tf n c =
    let (code, tf') = visit_wrapped_call o tf n c in
    if c.is_intrinsic || c.is_vararg_wrapper
    then (record { traced = none; code = CallCode.untouched }, tf)
    else (record { traced = traced_callee o tf c; code = code }, tf')
