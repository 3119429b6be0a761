-- ===== src/Common/Result.antt =====
-- core/errors.py: the exceptions as values, and code that may raise.
-- An exception's message is not modelled, its class is.
use mathlib.Core.Path.{◌≡◌, refl}
use mathlib.Core.Logic.{◌⊎◌, inl, inr}
use mathlib.Core.Bool.{Bool, true, false}
use native.Mathlib.Omega.{arith}
use memcove.Common.Tests.{if◌then◌else◌}

-- the classes of errors.py; `value_error` and `type_error` are Python's, `key_error` a missing
-- dict key, `index_error` a missing element,
-- `flight_error` the FlightError of pyarrow, `backend_down` and `backend_error` what a database,
-- a catalog or an engine raises (unreachable; anything else)
pub data Error : Type 0 where
  memcove_error sql_guard_error object_not_found object_exists schema_mismatch : Error
  ingest_error tenancy_error ticket_error scratch_error : Error
  value_error key_error type_error index_error flight_error backend_down backend_error : Error

pub data Result {ℓ} (X : Type ℓ) : Type ℓ where
  ok : X → Result X
  err : Error → Result X

module _ {ℓ κ} {X : Type ℓ} {Y : Type κ} where
  infixl 5 ◌>>=◌ ◌>>◌
  -- the first exception ends the chain
  abbrev pub ◌>>=◌ : Result X → (X → Result Y) → Result Y
  ok value >>= then_do = then_do value
  err raised >>= then_do = err raised

  abbrev pub ◌>>◌ : Result X → Result Y → Result Y
  first >> second = first >>= λ _. second

  -- inversion of a chain that returned
  pub >>=-eq-ok :
      (first : Result X) (then_do : X → Result Y) {y : Y}
      → (first >>= then_do) ≡ ok y
      → (x : X) × (first ≡ ok x) × (then_do x ≡ ok y)
  >>=-eq-ok (err raised) then_do h = cc
  >>=-eq-ok (ok x) then_do h = (x, refl, h)

-- `if not test: raise e`
abbrev pub guard : Bool → Error → Result (Unit {0})
guard test e = if test then ok tt else err e

pub guard-ok : (b : Bool) (e : Error) (x : Unit {0}) → guard b e ≡ ok x → b ≡ true
guard-ok b e x h = ground arith

abbrev pub is_ok {ℓ} : {A : Type ℓ} → Result A → Bool
is_ok (err raised) = false
is_ok (ok value) = true

pub ok-injective {ℓ} : {A : Type ℓ} (a b : A) → ok a ≡ ok b → a ≡ b
ok-injective a b h = cc

-- a result returned or raised
pub Result-cases {ℓ} :
    {X : Type ℓ} (given : Result X)
    → ((x : X) × (given ≡ ok x)) ⊎ ((raised : Error) × (given ≡ err raised))
Result-cases (err raised) = inr (raised, refl)
Result-cases (ok x) = inl (x, refl)
