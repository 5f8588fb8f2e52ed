-- ===== src/Common/Runs.antt =====
-- What a run of C code that reads memory and divides may end in.
use mathlib.Core.Path.{◌≡◌, refl}
use mathlib.Core.Logic.{◌⊎◌, inl, inr}

-- A read through a NULL pointer, an access past the end of an array, and `% 0`; a signed result
-- that does not fit its type, which C does not define; and a loop that used up the rounds that the
-- model gives it.
pub data Fault : Type 0 where
  null_pointer : Fault
  out_of_range : Fault
  division_by_zero : Fault
  overflow : Fault
  unfinished : Fault

pub data Run {ℓ} (Value : Type ℓ) : Type ℓ where
  fault : (what : Fault) → Run Value
  ok : (result : Value) → Run Value

-- The run ends with no fault, in a result with the property.
abbrev pub Returns {ℓ κ} : {Value : Type ℓ} → Run Value → (Value → Type κ) → Type (ℓ ⊔ κ)
Returns {Value} run Holds = (result : Value) × (run ≡ ok result) × Holds result

infixl 5 ◌>>=◌
-- A fault ends the whole run.
abbrev pub ◌>>=◌ {ℓ κ} :
    {Value : Type ℓ} {Next : Type κ} → Run Value → (Value → Run Next) → Run Next
fault what >>= rest = fault what
ok result >>= rest = rest result

-- If the run ends with no fault, its result has the property.
abbrev pub Yields {ℓ} : {Value : Type ℓ} → Run Value → (Value → Type 0) → Type 0
Yields (fault what) Holds = Unit
Yields (ok result) Holds = Holds result

pub Run-cases {ℓ} :
    {Value : Type ℓ} (run : Run Value)
    → ((what : Fault) × (run ≡ fault what)) ⊎ ((result : Value) × (run ≡ ok result))
Run-cases (fault what) = inl (what, refl)
Run-cases (ok result) = inr (result, refl)
