-- ===== src/Prelude/Outcome.antt =====
-- A Python call that returns or raises, and the exception classes that the program tells apart.

use mathlib.Core.Path.{◌≡◌, refl}
use mathlib.Core.Logic.{◌⊎◌, inl, inr}

pub data Exn : Type 0 where
  type_error value_error overflow_error zero_division_error : Exn
  key_error runtime_error os_error http_error other_error : Exn

pub data Outcome {ℓ} (A : Type ℓ) : Type ℓ where
  ok : A → Outcome A
  raised : Exn → Outcome A

-- what follows a call that raised is not run
infixl 5 ◌>>=◌
abbrev pub ◌>>=◌ {ℓ κ} :
    {A : Type ℓ} {R : Type κ} (call : Outcome A) (next : A → Outcome R) → Outcome R
raised exn >>= next = raised exn
ok value >>= next = next value

-- To split on a call and keep the equation.
pub Outcome-cases {ℓ} :
    {A : Type ℓ} (o : Outcome A) → ((a : A) × (o ≡ ok a)) ⊎ ((e : Exn) × (o ≡ raised e))
Outcome-cases (ok a) = inl (a, refl)
Outcome-cases (raised e) = inr (e, refl)

-- Inversion of a bind that returned.
pub >>=-eq-ok {ℓ κ} :
    {R : Type κ} {r : R} {A : Type ℓ} (call : Outcome A) (next : A → Outcome R)
    → (call >>= next) ≡ ok r
    → (value : A) × (call ≡ ok value) × (next value ≡ ok r)
>>=-eq-ok (raised exn) next returned = cc
>>=-eq-ok (ok value) next returned = (value, refl, returned)
