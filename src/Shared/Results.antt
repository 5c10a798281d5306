-- ===== src/Shared/Results.antt =====
-- Exceptions as values: the classes that the modelled code raises, and the chain of fallible steps.
use mathlib.Core.Path.{◌≡◌, refl}
use mathlib.Core.Logic.{◌⊎◌, inl, inr}
use mathlib.Core.Bool.{Bool, true, false}
use mathlib.Core.Option.{Option, none, some}

-- The exception classes, without their texts.
pub data Error : Type 0 where
  value_error key_error capacity_error scheduler_closed runtime_error : Error
  admission_error no_egress stale_probe : Error
  contract_error scope_error source_error assertion_error type_error : Error

pub data Result {ℓ} (Value : Type ℓ) : Type ℓ where
  err : Error → Result Value
  ok : Value → Result Value

infixl 5 ◌>>◌ ◌>>=◌
abbrev pub ◌>>=◌ {ℓ κ} : {V : Type ℓ} {W : Type κ} → Result V → (V → Result W) → Result W
err raised >>= next = err raised
ok value >>= next = next value

abbrev pub ◌>>◌ {ℓ} : {W : Type ℓ} → Result (Unit {0}) → Result W → Result W
err raised >> second = err raised
ok _ >> second = second

-- `if test: raise error`
abbrev pub raise_if : Bool → Error → Result (Unit {0})
raise_if true e = err e
raise_if false e = ok tt

abbrev pub or_raise {ℓ} : {A : Type ℓ} → Option A → Error → Result A
or_raise none e = err e
or_raise (some a) e = ok a

-- A chain that succeeds has a first step that succeeds.
pub >>=-eq-ok {ℓ κ} :
    {V : Type ℓ} {W : Type κ} (first : Result V) (next : V → Result W) {final : W}
    → (first >>= next) ≡ ok final
    → (value : V) × (first ≡ ok value) × (next value ≡ ok final)
>>=-eq-ok (err raised) next h = cc
>>=-eq-ok (ok value) next h = (value, refl, h)

pub Result-cases {ℓ} :
    {A : Type ℓ} (r : Result A) → ((e : Error) × (r ≡ err e)) ⊎ ((a : A) × (r ≡ ok a))
Result-cases (ok a) = inr (a, refl)
Result-cases (err e) = inl (e, refl)

pub ok-injective {ℓ} : {A : Type ℓ} {a b : A} → ok a ≡ ok b → a ≡ b
ok-injective h = cc

pub >>-eq-ok {ℓ} :
    {W : Type ℓ} (first : Result (Unit {0})) (second : Result W) {final : W}
    → (first >> second) ≡ ok final
    → (first ≡ ok tt) × (second ≡ ok final)
>>-eq-ok (err raised) second h = cc
>>-eq-ok (ok _) second h = (refl, h)
