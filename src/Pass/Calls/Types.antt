-- ===== src/Pass/Calls/Types.antt =====
-- TaintPass.cc: the arguments of a call of a custom function against the type of that function.
use kirenenko.Prelude.{
  ℕ, zero, suc, ◌+◌, ◌<◌, ◌≡◌, refl, sym, ap, ◌∙◌, arith, Bool, true, false, none, some, List, [],
  ◌∷◌, ◌++◌, length, get_elem?,
}
use kirenenko.Pass.{type_of, get_shadow, Options, TaintFunction}
use kirenenko.Pass.Calls.{
  ParamType, FunctionType, CustomParam, custom_params, repeat, list_when, get_custom_function_type,
  CallArg, arg_type, CustomArg, value_args, shadow_args, variable_args, trailing_args, custom_args,
}

-- LLVM's rule for calls: the arguments have the types of the parameters.
abbrev pub IsTyped : List ParamType → List CallArg → Type 0
IsTyped [] args = Unit
IsTyped (p ∷ ps) [] = ⊥
IsTyped (p ∷ ps) (a ∷ args) = (arg_type a ≡ p) × IsTyped ps args

abbrev pub custom_arg_type : CustomArg → CustomParam
custom_arg_type (CustomArg.original_arg v) = CustomParam.original_type (type_of v)
custom_arg_type (CustomArg.trampoline_arg k f) = CustomParam.trampoline_type f
custom_arg_type (CustomArg.callback_data v) = CustomParam.int8_pointer_type
custom_arg_type (CustomArg.shadow_arg s) = CustomParam.shadow_type
custom_arg_type _ = CustomParam.shadow_pointer_type

abbrev pub custom_arg_types : List CustomArg → List CustomParam
custom_arg_types [] = []
custom_arg_types (a ∷ args) = custom_arg_type a ∷ custom_arg_types args

custom_arg_types-++ :
    (xs ys : List CustomArg)
    → custom_arg_types (xs ++ ys) ≡ custom_arg_types xs ++ custom_arg_types ys
custom_arg_types-++ [] ys = refl
custom_arg_types-++ (x ∷ xs) ys =
    ap (λ (l : List CustomParam). custom_arg_type x ∷ l) (custom_arg_types-++ xs ys)

++_assoc : (xs ys zs : List CustomParam) → (xs ++ ys) ++ zs ≡ xs ++ (ys ++ zs)
++_assoc [] ys zs = refl
++_assoc (x ∷ xs) ys zs = ap (λ (l : List CustomParam). x ∷ l) (++_assoc xs ys zs)

value_args-types :
    (ps : List ParamType) (args : List CallArg) (k at : ℕ)
    → IsTyped ps args
    → custom_arg_types (value_args (length ps) k args) ≡ (custom_params at ps).0
unfolding value_args custom_params
value_args-types [] args k at h = refl
value_args-types (ParamType.plain_param ty ∷ ps) [] k at h = absurd h
value_args-types (ParamType.plain_param ty ∷ ps) (a ∷ args) k at h =
    ground (arith, h.0, value_args-types ps args (k + 1) (at + 1) h.1)
value_args-types (ParamType.function_pointer_param f ∷ ps) [] k at h = absurd h
value_args-types (ParamType.function_pointer_param f ∷ ps) (a ∷ args) k at h =
    ground (arith, h.0, value_args-types ps args (k + 1) (at + 2) h.1)

shadow_args-types :
    (o : Options) (tf : TaintFunction) (ps : List ParamType) (args : List CallArg)
    → IsTyped ps args
    → custom_arg_types (shadow_args o tf (length ps) args)
      ≡ repeat (length ps) CustomParam.shadow_type
unfolding shadow_args
shadow_args-types o tf [] args h = refl
shadow_args-types o tf (p ∷ ps) [] h = absurd h
shadow_args-types o tf (p ∷ ps) (a ∷ args) h = ground (arith, shadow_args-types o tf ps args h.1)

-- The types of values as they are.
abbrev pub own_types : List CallArg → List CustomParam
own_types [] = []
own_types (a ∷ args) = CustomParam.original_type (type_of a.value) ∷ own_types args

trailing_args-types : (args : List CallArg) → custom_arg_types (trailing_args args) ≡ own_types args
unfolding trailing_args
trailing_args-types [] = refl
trailing_args-types (a ∷ args) = ground (arith, trailing_args-types args)

list_when-types :
    (b : Bool) (x : CustomArg)
    → custom_arg_types (list_when b (x ∷ [])) ≡ list_when b (custom_arg_type x ∷ [])
list_when-types true x = refl
list_when-types false x = refl

get_elem?-++ :
    {A : Type 0} (xs ys : List A) (i : ℕ) {x : A}
    → get_elem? xs i ≡ some x
    → get_elem? (xs ++ ys) i ≡ some x
get_elem?-++ [] ys i h = cc
get_elem?-++ (y ∷ xs) ys zero h = h
get_elem?-++ (y ∷ xs) ys (suc i) h = get_elem?-++ xs ys i h

get_elem?-behind :
    {A : Type 0} (xs ys : List A) (i : ℕ) → get_elem? (xs ++ ys) (length xs + i) ≡ get_elem? ys i
get_elem?-behind [] ys i = let q : 0 + i ≡ i = omega arith in rw (q) refl
get_elem?-behind (x ∷ xs) ys i =
    let q : length xs + 1 + i ≡ suc (length xs + i) = omega arith in
    rw (q) (get_elem?-behind xs ys i)

length-custom_arg_types : (xs : List CustomArg) → length (custom_arg_types xs) ≡ length xs
length-custom_arg_types [] = refl
length-custom_arg_types (x ∷ xs) = ap (λ (n : ℕ). n + 1) (length-custom_arg_types xs)

shadow_args-labels :
    (o : Options) (tf : TaintFunction) (n : ℕ) (args : List CallArg) (i : ℕ) (a : CallArg)
    → i < n
    → get_elem? args i ≡ some a
    → get_elem? (shadow_args o tf n args) i ≡ some (CustomArg.shadow_arg (get_shadow o tf a.value))
unfolding shadow_args
shadow_args-labels o tf zero args i a lt e = absurd (omega (arith, lt))
shadow_args-labels o tf (suc n) [] i a lt e = cc
shadow_args-labels o tf (suc n) (b ∷ args) zero a lt e = ground (arith, e)
shadow_args-labels o tf (suc n) (b ∷ args) (suc i) a lt e =
    shadow_args-labels o tf n args i a (omega (arith, lt)) e

custom_arg_types-custom_args :
    (o : Options) (tf : TaintFunction) (t : FunctionType) (args : List CallArg)
    → IsTyped t.params args
    → custom_arg_types (custom_args o tf t args)
      ≡ (get_custom_function_type t).0 ++ own_types (variable_args (length t.params) args)
unfolding custom_args get_custom_function_type
custom_arg_types-custom_args o tf t args h =
    let n = length t.params in
    let vs = value_args n 0 args in
    let ss = shadow_args o tf n args in
    let va = list_when t.is_var_arg (CustomArg.label_va ∷ []) in
    let lr = list_when t.returns_value (CustomArg.label_return ∷ []) in
    let rest = trailing_args (variable_args n args) in
    rw
      (
        custom_arg_types-++ (vs ++ ss ++ va ++ lr) rest,
        custom_arg_types-++ (vs ++ ss ++ va) lr,
        custom_arg_types-++ (vs ++ ss) va,
        custom_arg_types-++ vs ss,
        value_args-types t.params args 0 0 h,
        shadow_args-types o tf t.params args h,
        trailing_args-types (variable_args n args),
        list_when-types t.is_var_arg CustomArg.label_va,
        list_when-types t.returns_value CustomArg.label_return,
      )
      refl

-- The labels stand behind the arguments that stand for the parameters.
custom_args-labels :
    (o : Options) (tf : TaintFunction) (t : FunctionType) (args : List CallArg) (i : ℕ)
    (a : CallArg)
    → IsTyped t.params args
    → i < length t.params
    → get_elem? args i ≡ some a
    → get_elem? (custom_args o tf t args) (length (custom_params 0 t.params).0 + i)
      ≡ some (CustomArg.shadow_arg (get_shadow o tf a.value))
unfolding custom_args
custom_args-labels o tf t args i a h lt e =
    let n = length t.params in
    let vs = value_args n 0 args in
    let ss = shadow_args o tf n args in
    let va = list_when t.is_var_arg (CustomArg.label_va ∷ []) in
    let lr = list_when t.returns_value (CustomArg.label_return ∷ []) in
    let same : length vs ≡ length (custom_params 0 t.params).0 =
      sym (length-custom_arg_types vs)
      ∙ ap (λ (l : List CustomParam). length l) (value_args-types t.params args 0 0 h) in
    let place = length vs + i in
    let found = get_elem?-behind vs ss i ∙ shadow_args-labels o tf n args i a lt e in
    let there =
      get_elem?-++ (vs ++ ss ++ va ++ lr) (trailing_args (variable_args n args)) place
        (get_elem?-++ (vs ++ ss ++ va) lr place (get_elem?-++ (vs ++ ss) va place found)) in
    ap (λ (q : ℕ). get_elem? (custom_args o tf t args) (q + i)) (sym same) ∙ there

-- In a well-typed call the arguments that the pass builds for the custom function have the types of
-- its parameters, one by one, and the variable arguments follow with the types of their values.
-- Behind the arguments for the function's own parameters stand the labels of these, in their order.
pub custom_args-types :
    (o : Options) (tf : TaintFunction) (t : FunctionType) (args : List CallArg)
    → IsTyped t.params args
    → (custom_arg_types (custom_args o tf t args)
        ≡ (get_custom_function_type t).0 ++ own_types (variable_args (length t.params) args))
      × ((i : ℕ) (a : CallArg)
          → i < length t.params
          → get_elem? args i ≡ some a
          → get_elem? (custom_args o tf t args) (length (custom_params 0 t.params).0 + i)
            ≡ some (CustomArg.shadow_arg (get_shadow o tf a.value)))
custom_args-types o tf t args h = (
  custom_arg_types-custom_args o tf t args h,
  λ i a lt e. custom_args-labels o tf t args i a h lt e,
)

-- The argument that stands for the parameter `i` of the function.
abbrev pub stands_for : ℕ → CallArg → CustomArg
stands_for i a = elim a.pointee [
  | none ↦ CustomArg.original_arg a.value
  | some f ↦ CustomArg.trampoline_arg i f
]

-- `place` finds what stands for the parameter `k + i` among the arguments from the place `at` on.
custom_params-places :
    (ps : List ParamType) (args : List CallArg) (k at i place : ℕ) (a : CallArg)
    → IsTyped ps args
    → get_elem? (custom_params at ps).1 i ≡ some place
    → get_elem? args i ≡ some a
    → (j : ℕ) × (place ≡ at + j)
      × (get_elem? (value_args (length ps) k args) j ≡ some (stands_for (k + i) a))
unfolding custom_params value_args
custom_params-places [] args k at i place a h p e = absurd (ground (arith, p))
custom_params-places (b ∷ ps) [] k at i place a h p e = absurd h
custom_params-places (ParamType.plain_param ty ∷ ps) (b ∷ args) k at zero place a h p e =
    let q : k + 0 ≡ k = omega arith in rw (q) (0, ground (arith, p), ground (arith, h.0, e))
custom_params-places (ParamType.plain_param ty ∷ ps) (b ∷ args) k at (suc i) place a h p e =
    let (j, e1, e2) = custom_params-places ps args (k + 1) (at + 1) i place a h.1 p e in
    let q : k + suc i ≡ k + 1 + i = omega arith in
    rw (q) (j + 1, omega (arith, e1), ground (arith, h.0, e2))
custom_params-places (ParamType.function_pointer_param f ∷ ps) (b ∷ args) k at zero place a h p e =
    let q : k + 0 ≡ k = omega arith in rw (q) (0, ground (arith, p), ground (arith, h.0, e))
custom_params-places (ParamType.function_pointer_param f ∷ ps) (b ∷ args) k at (suc i) place a h p
      e =
    let (j, e1, e2) = custom_params-places ps args (k + 1) (at + 2) i place a h.1 p e in
    let q : k + suc i ≡ k + 1 + i = omega arith in
    rw (q) (j + 2, omega (arith, e1), ground (arith, h.0, e2))

-- In a well-typed call the place that `ArgumentIndexMapping` has for a parameter is the place of
-- its argument, or of its trampoline, in the call of the custom function.
pub custom_args-mapping :
    (o : Options) (tf : TaintFunction) (t : FunctionType) (args : List CallArg) (i place : ℕ)
    (a : CallArg)
    → IsTyped t.params args
    → get_elem? (get_custom_function_type t).1 i ≡ some place
    → get_elem? args i ≡ some a
    → get_elem? (custom_args o tf t args) place ≡ some (stands_for i a)
unfolding custom_args get_custom_function_type
custom_args-mapping o tf t args i place a h p e =
    let n = length t.params in
    let vs = value_args n 0 args in
    let ss = shadow_args o tf n args in
    let va = list_when t.is_var_arg (CustomArg.label_va ∷ []) in
    let lr = list_when t.returns_value (CustomArg.label_return ∷ []) in
    let (j, e1, e2) = custom_params-places t.params args 0 0 i place a h p e in
    let same : place ≡ j = omega (arith, e1) in
    let first : 0 + i ≡ i = omega arith in
    let here = e2 ∙ ap (λ (q : ℕ). some (stands_for q a)) first in
    let found = get_elem?-++ (vs ++ ss ++ va ++ lr) (trailing_args (variable_args n args)) j (
      get_elem?-++ (vs ++ ss ++ va) lr j
        (get_elem?-++ (vs ++ ss) va j (get_elem?-++ vs ss j here))) in
    ap (λ (q : ℕ). get_elem? (custom_args o tf t args) q) same ∙ found
