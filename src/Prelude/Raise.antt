-- ===== src/Prelude/Raise.antt =====
-- A function that may raise returns a `Result`: the exception, or the value of its return.
use mathlib.Core.Path.{◌≡◌, refl}
use mathlib.Core.Logic.{◌≢◌, ◌⊎◌, inl, inr}
use mathlib.Core.Bool.{Bool, true, false}
use native.Mathlib.Omega.{arith}

pub data Result {ℓe ℓv} (Exception : Type ℓe) (Value : Type ℓv) : Type (ℓe ⊔ ℓv) where
  err : Exception → Result Exception Value
  ok : Value → Result Exception Value

-- `if test: raise exception`
abbrev pub raise_if {ℓ} : {Exception : Type ℓ} → Bool → Exception → Result Exception (Unit {0})
raise_if test exception = elim test [ false ↦ ok tt | true ↦ err exception ]

pub raise_if-eq-ok {ℓ} :
    {Exception : Type ℓ} (test : Bool) (exception : Exception) {u : Unit {0}}
    → raise_if test exception ≡ ok u
    → test ≡ false
raise_if-eq-ok test exception passed = ground arith

module _ {ℓe ℓv ℓw} {Exception : Type ℓe} {Value : Type ℓv} {Next : Type ℓw} where
  infixl 10 ◌>>=◌ ◌>>◌
  -- A statement after one that may raise.
  abbrev pub ◌>>=◌ :
      Result Exception Value → (Value → Result Exception Next) → Result Exception Next
  err exception >>= body = err exception
  ok value >>= body = body value

  -- When both statements return, the first one's value is the second one's input.
  pub >>=-eq-ok :
      (first : Result Exception Value) (body : Value → Result Exception Next) {out : Next}
      → (first >>= body) ≡ ok out
      → (value : Value) × (first ≡ ok value) × (body value ≡ ok out)
  >>=-eq-ok (err exception) body returned = cc
  >>=-eq-ok (ok value) body returned = (value, refl, returned)

  abbrev pub ◌>>◌ : Result Exception Value → Result Exception Next → Result Exception Next
  first >> second = first >>= λ ignored. second

-- A check and what follows it both pass.
pub >>-eq-ok {ℓe ℓw} :
    {Exception : Type ℓe} {Next : Type ℓw} (check : Result Exception (Unit {0}))
    (second : Result Exception Next) {out : Next}
    → (check >> second) ≡ ok out
    → (check ≡ ok tt) × (second ≡ ok out)
>>-eq-ok (err exception) second returned = cc
>>-eq-ok (ok tt) second returned = (refl, returned)

-- To split on a computed result and keep the equation.
pub Result-cases {ℓe ℓv} :
    {Exception : Type ℓe} {Value : Type ℓv} (result : Result Exception Value)
    → ((value : Value) × (result ≡ ok value)) ⊎ ((exception : Exception) × (result ≡ err exception))
Result-cases (err exception) = inr (exception, refl)
Result-cases (ok value) = inl (value, refl)

pub ok-injective {ℓe ℓv} :
    (Exception : Type ℓe) {Value : Type ℓv} {x y : Value}
    → ◌≡◌ {A = Result Exception Value} (ok x) (ok y)
    → x ≡ y
ok-injective Exception same = cc

-- A result that is no exception is a value.
pub succeeds {ℓe ℓv} :
    {Exception : Type ℓe} {Value : Type ℓv} (result : Result Exception Value)
    → ((exception : Exception) → result ≢ err exception)
    → (value : Value) × (result ≡ ok value)
succeeds (err exception) never = absurd (never exception refl)
succeeds (ok value) never = (value, refl)
