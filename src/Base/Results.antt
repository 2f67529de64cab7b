-- ===== src/Base/Results.antt =====
-- Chains of steps that may fail: `none` is a panic of the Go code, such as a nil dereference.
use mathlib.Core.Path.{◌≡◌, refl}
use mathlib.Core.Bool.{Bool, true, false}
use mathlib.Core.List.{List, [], ◌∷◌}
use mathlib.Core.Option.{Option, none, some}
use cups.Base.Tests.{if◌then◌else◌}

infixl 5 ◌>>=◌
abbrev pub ◌>>=◌ {ℓ κ} : {A : Type ℓ} {B : Type κ} → Option A → (A → Option B) → Option B
none >>= f = none
some a >>= f = f a

-- Early returns: the error of the first test that finds a fault.
abbrev pub first_error {ℓ} : {E : Type ℓ} → List (Bool × E) → Option E
first_error [] = none
first_error ((bad, e) ∷ rest) = if bad then some e else first_error rest

abbrev pub AllClear {ℓ} : {E : Type ℓ} → List (Bool × E) → Type 0
AllClear [] = Unit
AllClear ((bad, e) ∷ rest) = (bad ≡ false) × AllClear rest

-- Where no error is returned, no test found a fault.
pub first_error-AllClear {ℓ} :
    {E : Type ℓ} (tests : List (Bool × E)) → first_error tests ≡ none → AllClear tests
first_error-AllClear [] h = tt
first_error-AllClear ((true, e) ∷ rest) h = cc
first_error-AllClear ((false, e) ∷ rest) h = (refl, first_error-AllClear rest h)

abbrev pub or_else {ℓ} : {A : Type ℓ} → Option A → Option A → Option A
or_else (some a) o = some a
or_else none o = o
