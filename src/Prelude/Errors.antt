-- ===== src/Prelude/Errors.antt =====
-- Python exceptions as values. A message is the text that the source passes to the exception.
use Prim.Native.Nat.{ℕ}
use Prim.Native.String.{String}
use mathlib.Core.Path.{◌≡◌, refl}
use mathlib.Core.Logic.{◌⊎◌, inl, inr}
use mathlib.Core.Bool.{Bool, true, false}
use mathlib.Core.Option.{Option, none, some}

-- `decimal_error` is `decimal.DivisionByZero` or `decimal.InvalidOperation`; `overflow_error`,
-- `index_error` and `concurrent_error` are `OverflowError`, `IndexError` and
-- `ConcurrentSelectionStateError` with any text; `port_error` is whatever an external component
-- raises, told apart by a number.
pub data Error : Type 0 where
  value_error : String → Error
  key_error : String → Error
  runtime_error : String → Error
  decimal_error : Error
  overflow_error : Error
  index_error : Error
  concurrent_error : Error
  port_error : ℕ → Error

pub data Result {ℓ} (A : Type ℓ) : Type ℓ where
  ok : A → Result A
  err : Error → Result A

module _ {ℓ κ} {A : Type ℓ} {B : Type κ} where
  infixl 5 ◌>>=◌
  abbrev pub ◌>>=◌ : Result A → (A → Result B) → Result B
  err e >>= next = err e
  ok a >>= next = next a

  -- What a chain of two calls that returned has returned on the way.
  pub >>=-eq-ok :
      (call : Result A) (next : A → Result B) {b : B}
      → (call >>= next) ≡ ok b
      → (a : A) × (call ≡ ok a) × (next a ≡ ok b)
  >>=-eq-ok (err e) next h = cc
  >>=-eq-ok (ok a) next h = (a, refl, h)

infixl 5 ◌>>◌
abbrev pub ◌>>◌ {κ} : {B : Type κ} → Result (Unit {0}) → Result B → Result B
check >> rest = check >>= λ _. rest

-- `if test: raise ValueError(message)`
abbrev pub refuse_if : Bool → String → Result (Unit {0})
refuse_if true message = err (value_error message)
refuse_if false message = ok tt

abbrev pub or_raise {ℓ} : {A : Type ℓ} → Option A → Error → Result A
or_raise none e = err e
or_raise (some a) e = ok a

pub Result-cases {ℓ} :
    {A : Type ℓ} (r : Result A) → ((a : A) × (r ≡ ok a)) ⊎ ((e : Error) × (r ≡ err e))
Result-cases (ok a) = inl (a, refl)
Result-cases (err e) = inr (e, refl)

-- The postcondition of a call that returns.
abbrev pub OnOk {ℓ κ} : {A : Type ℓ} → (A → Type κ) → Result A → Type κ
OnOk P (ok a) = P a
OnOk P (err e) = Unit

-- The call returns, and its value meets `P`.
abbrev pub Returns {ℓ} : {A : Type ℓ} → (A → Type 0) → Result A → Type 0
Returns P (ok a) = P a
Returns P (err e) = ⊥

pub Returns-map {ℓ} :
    {A : Type ℓ} {P Q : A → Type 0} (r : Result A)
    → ((a : A) → P a → Q a)
    → Returns P r
    → Returns Q r
Returns-map (ok a) f p = f a p
Returns-map (err e) f p = p

pub Returns-value {ℓ} :
    {A : Type ℓ} {P : A → Type 0} (r : Result A) → Returns P r → (a : A) × (r ≡ ok a) × P a
Returns-value (ok a) p = (a, refl, p)
Returns-value (err e) p = absurd p

-- A call that returns meets what holds of it whenever it returns.
pub OnOk-Returns {ℓ} :
    {A : Type ℓ} (P : A → Type 0) (r : Result A) (a : A) → r ≡ ok a → OnOk P r → Returns P r
OnOk-Returns P (ok x) a h p = p
OnOk-Returns P (err e) a h p = cc
