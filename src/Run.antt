-- ===== src/Run.antt =====
-- How a call of the runtime ends: normally, with a value and the new state, or by `Die()` or a
-- failed `assert`, which end the process.
use kirenenko.Prelude.{◌≡◌, refl, ap, ◌⊎◌, inl, inr, Bool, true, false, arith}

pub data Fault : Type 0 where
  out_of_labels : Fault
  exhausted_labels : Fault
  allocator_not_initialized : Fault
  allocate_size_exceeded : Fault
  assertion_failed : Fault
  dangling_pointer : Fault
  map_failed : Fault
  out_of_range : Fault
  uncaught_exception : Fault
  -- the model's bound on the rounds of a loop, not a way in which the program ends
  out_of_fuel : Fault
  -- `__taint_union_load` called with no byte, at a label of the input, reads past its argument
  empty_load : Fault

pub data Step {ℓ} (S A : Type ℓ) : Type ℓ where
  ok : A → S → Step S A
  died : Fault → S → Step S A

abbrev pub Run {ℓ} : Type ℓ → Type ℓ → Type ℓ
Run S A = S → Step S A

infixl 5 ◌>>=◌ ◌>>◌
abbrev pub ◌>>=◌ {ℓ} : {S A B : Type ℓ} → Run S A → (A → Run S B) → Run S B
◌>>=◌ m f s = elim (m s) [ ok a s' ↦ f a s' | died e s' ↦ died e s' ]

abbrev pub ◌>>◌ {ℓ} : {S A B : Type ℓ} → Run S A → Run S B → Run S B
m >> k = m >>= λ _. k

abbrev pub pure {ℓ} : {S A : Type ℓ} → A → Run S A
pure a s = ok a s

abbrev pub die {ℓ} : {S A : Type ℓ} → Fault → Run S A
die e s = died e s

abbrev pub assert : {S : Type 0} → Bool → Run S (Unit {0})
assert true s = ok tt s
assert false s = died assertion_failed s

-- The run ends normally, in a value and a state that satisfy `P`.
abbrev pub Returns {ℓ κ} : {S A : Type ℓ} → Step S A → (A → S → Type κ) → Type (ℓ ⊔ κ)
Returns {S} {A} r P = (a : A) × (s : S) × (r ≡ ok a s) × P a s

pub Step-cases {ℓ} :
    {S A : Type ℓ} (r : Step S A)
    → ((a : A) × (s : S) × (r ≡ ok a s)) ⊎ ((e : Fault) × (s : S) × (r ≡ died e s))
Step-cases (ok a s) = inl (a, s, refl)
Step-cases (died e s) = inr (e, s, refl)

-- Inversion of a bind that ended normally.
pub >>=-eq-ok {ℓ} :
    {S A B : Type ℓ} (m : Run S A) (f : A → Run S B) {s s'' : S} {b : B}
    → (m >>= f) s ≡ ok b s''
    → (a : A) × (s' : S) × (m s ≡ ok a s') × (f a s' ≡ ok b s'')
>>=-eq-ok m f {s} h = elim (Step-cases (m s)) [
  | inl (a, s', e) ↦ (a, s', e, rw (e, ◌>>=◌) at h)
  | inr (e, s', p) ↦ absurd (ground (arith, p))
]

-- A bind whose first part ends normally.
pub >>=-ok {ℓ} :
    {S A B : Type ℓ} (m : Run S A) (f : A → Run S B) {s s' : S} {a : A}
    → m s ≡ ok a s'
    → (m >>= f) s ≡ f a s'
>>=-ok m f h = ap (λ r. elim r [ ok a s ↦ f a s | died e s ↦ died e s ]) h
