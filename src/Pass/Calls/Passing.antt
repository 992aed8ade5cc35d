-- ===== src/Pass/Calls/Passing.antt =====
-- TaintPass.cc: the labels of arguments, from the caller through `__dfsan_arg_tls` to the callee.
use kirenenko.Prelude.{
  ℕ, zero, suc, ◌+◌, ◌≤◌, ◌<◌, ◌≡◌, refl, sym, ap, ◌∙◌, arith, false, Bool-cases, inl, inr, Option,
  none, some, List, [], ◌∷◌, length, get_elem?, ltb, if◌then◌else◌, update,
}
use kirenenko.Pass.{Value, IrType, Shadow, Options, TaintFunction, get_shadow}
use kirenenko.Pass.Machine.{Machine, Application, label_of}
use kirenenko.Pass.Calls.{CallArg, arg_stores}

-- The number of labels in `__dfsan_arg_tls`.
abbrev pub arg_tls_size : ℕ
arg_tls_size = 64

-- The stores of a caller. `none` is a store past the end of the array.
unfoldable pub exec_arg_stores :
    Application → Machine → List (ℕ × Shadow) → (ℕ → ℕ) → Option (ℕ → ℕ)
exec_arg_stores a m [] tls = some tls
exec_arg_stores a m ((i, s) ∷ stores) tls =
    let rest = exec_arg_stores a m stores (update tls i (label_of a m s)) in
    if ltb i arg_tls_size then rest else none

-- The labels with which a callee begins.
unfoldable pub enter : Application → (ℕ → ℕ) → Application
enter a tls = record a { argument_labels = tls }

-- The label of the first argument, and those of the others.
passed-first :
    (o : Options) (tf : TaintFunction) (a : Application) (m : Machine) (n i : ℕ) (b : CallArg)
    (args : List CallArg) (tls' : ℕ → ℕ)
    → tls' i ≡ label_of a m (get_shadow o tf b.value)
    → ((k : ℕ) (c : CallArg)
        → k < n
        → get_elem? args k ≡ some c
        → tls' (i + 1 + k) ≡ label_of a m (get_shadow o tf c.value))
    → (k : ℕ) (c : CallArg) → k < suc n
    → get_elem? (b ∷ args) k ≡ some c
    → tls' (i + k) ≡ label_of a m (get_shadow o tf c.value)
passed-first o tf a m n i b args tls' first others zero c lt e =
    let q : i + 0 ≡ i = omega arith in
    let same : b ≡ c = ground (arith, e) in
    rw (q) (first ∙ ap (λ (x : CallArg). label_of a m (get_shadow o tf x.value)) same)
passed-first o tf a m n i b args tls' first others (suc k) c lt e =
    let q : i + suc k ≡ i + 1 + k = omega arith in rw (q) (others k c (omega (arith, lt)) e)

-- The stores for the arguments from the place `i` on keep what is stored before.
arg_stores-passed :
    (o : Options) (tf : TaintFunction) (a : Application) (m : Machine) (n i : ℕ)
    (args : List CallArg) (tls : ℕ → ℕ)
    → i + n ≤ arg_tls_size
    → (tls' : ℕ → ℕ) × (exec_arg_stores a m (arg_stores o tf i n args) tls ≡ some tls')
      × ((k : ℕ) → k < i → tls' k ≡ tls k)
      × ((k : ℕ) (c : CallArg)
          → k < n
          → get_elem? args k ≡ some c
          → tls' (i + k) ≡ label_of a m (get_shadow o tf c.value))
unfolding exec_arg_stores arg_stores
arg_stores-passed o tf a m zero i args tls h =
    (tls, refl, λ k lt. refl, λ k c lt e. absurd (omega (arith, lt)))
arg_stores-passed o tf a m (suc n) i [] tls h = (tls, refl, λ k lt. refl, λ k c lt e. cc)
arg_stores-passed o tf a m (suc n) i (b ∷ args) tls h =
    let l = label_of a m (get_shadow o tf b.value) in
    let (tls', e, kept, passed) =
      arg_stores-passed o tf a m n (i + 1) args (update tls i l) (omega (arith, h)) in
    (
      tls',
      ground (arith, h, e),
      λ k lt. ground (arith, kept k (omega (arith, lt)), lt),
      passed-first o tf a m n i b args tls' (kept i (omega arith) ∙ ground arith) passed,
    )

-- An instrumented call passes the labels of its first n arguments, where n is the number of the
-- function's parameters and at most 64, to a callee without the native ABI: where the callee asks
-- for the shadow of a parameter, it finds the label that the argument has in the caller.
pub arg_stores-enter :
    (o o' : Options) (tf tf' : TaintFunction) (a b : Application) (m m' : Machine) (n : ℕ)
    (args : List CallArg) (tls : ℕ → ℕ)
    → n ≤ arg_tls_size
    → o'.is_native_abi ≡ false
    → (tls' : ℕ → ℕ) × (exec_arg_stores a m (arg_stores o tf 0 n args) tls ≡ some tls')
      × ((k : ℕ) (c : CallArg) (t : IrType)
          → k < n
          → get_elem? args k ≡ some c
          → label_of (enter b tls') m' (get_shadow o' tf' (Value.argument k t))
            ≡ label_of a m (get_shadow o tf c.value))
unfolding enter get_shadow label_of
arg_stores-enter o o' tf tf' a b m m' n args tls h native =
    let (tls', e, kept, passed) = arg_stores-passed o tf a m n 0 args tls (omega (arith, h)) in
    (
      tls',
      e,
      λ k c t lt found.
          let first : 0 + k ≡ k = omega arith in
          let here = ap tls' (sym first) ∙ passed k c lt found in ground (arith, native, here),
    )

arg_stores-overflow_from :
    (o : Options) (tf : TaintFunction) (a : Application) (m : Machine) (n i : ℕ)
    (args : List CallArg) (tls : ℕ → ℕ)
    → n ≤ length args
    → i ≤ arg_tls_size
    → arg_tls_size < i + n
    → exec_arg_stores a m (arg_stores o tf i n args) tls ≡ none
unfolding exec_arg_stores arg_stores
arg_stores-overflow_from o tf a m zero i args tls h le lt = absurd (omega (arith, le, lt))
arg_stores-overflow_from o tf a m (suc n) i [] tls h le lt = absurd (omega (arith, h))
arg_stores-overflow_from o tf a m (suc n) i (b ∷ args) tls h le lt =
    elim (Bool-cases (ltb i arg_tls_size)) [
      | inl e ↦
          let l = label_of a m (get_shadow o tf b.value) in
          let rest =
            arg_stores-overflow_from o tf a m n (i + 1) args (update tls i l) (omega (arith, h))
              (ground (arith, e)) (omega (arith, lt)) in
          ground (arith, e, rest)
      | inr e ↦ ground (arith, e)
    ]

-- An instrumented call, which stores the labels of its first n arguments, where n is the number of
-- the function's parameters, stores past the end of __dfsan_arg_tls when n is more than 64 and the
-- call has n arguments or more.
pub arg_stores-overflow :
    (o : Options) (tf : TaintFunction) (a : Application) (m : Machine) (n : ℕ) (args : List CallArg)
    (tls : ℕ → ℕ)
    → n ≤ length args
    → arg_tls_size < n
    → exec_arg_stores a m (arg_stores o tf 0 n args) tls ≡ none
arg_stores-overflow o tf a m n args tls h lt =
    arg_stores-overflow_from o tf a m n 0 args tls h (omega arith) (omega (arith, lt))
