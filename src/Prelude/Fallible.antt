-- ===== src/Prelude/Fallible.antt =====
-- Fallible code: `Result<A, E>` with `?` as bind, `require!` as a guard, and `ok_or`.
use mathlib.Core.Path.{◌≡◌, refl}
use mathlib.Core.Logic.{◌⊎◌, inl, inr}
use mathlib.Core.Bool.{Bool, true, false}
use mathlib.Core.Option.{Option, none, some}

pub data Result {ℓ} (Fault : Type 0) (Value : Type ℓ) : Type ℓ where
  ok : Value → Result Fault Value
  err : Fault → Result Fault Value

pub Result-cases {ℓ} :
    {Fault : Type 0} {Value : Type ℓ} (r : Result Fault Value)
    → ((v : Value) × (r ≡ ok v)) ⊎ ((fault : Fault) × (r ≡ err fault))
Result-cases (ok v) = inl (v, refl)
Result-cases (err fault) = inr (fault, refl)

abbrev pub ok_or {ℓ} : {Fault : Type 0} {Value : Type ℓ} → Option Value → Fault → Result Fault Value
ok_or none fault = err fault
ok_or (some v) fault = ok v

-- `require!(b, fault)`
abbrev pub require : {Fault : Type 0} → Bool → Fault → Result Fault (Unit {0})
require false fault = err fault
require true fault = ok tt

infixl 5 ◌>>=◌ ◌>>◌
abbrev pub ◌>>=◌ {ℓ κ} :
    {Fault : Type 0} {Value : Type ℓ} {Next : Type κ}
    → Result Fault Value
    → (Value → Result Fault Next)
    → Result Fault Next
err fault >>= next = err fault
ok v >>= next = next v

abbrev pub ◌>>◌ {ℓ} :
    {Fault : Type 0} {Next : Type ℓ}
    → Result Fault (Unit {0})
    → Result Fault Next
    → Result Fault Next
err fault >> next = err fault
ok done >> next = next

-- What a successful chain went through.
pub >>=-eq-ok {ℓ κ} :
    {Fault : Type 0} {Value : Type ℓ} {Next : Type κ} {w : Next}
    → (r : Result Fault Value) (next : Value → Result Fault Next) → (r >>= next) ≡ ok w
    → (v : Value) × (r ≡ ok v) × (next v ≡ ok w)
>>=-eq-ok (err fault) next went = cc
>>=-eq-ok (ok v) next went = (v, refl, went)

pub >>-eq-ok {ℓ} :
    {Fault : Type 0} {Next : Type ℓ} {w : Next} (r : Result Fault (Unit {0}))
    (next : Result Fault Next)
    → (r >> next) ≡ ok w
    → (r ≡ ok tt) × (next ≡ ok w)
>>-eq-ok (err fault) next went = cc
>>-eq-ok (ok done) next went = (refl, went)

pub ok_or-eq-ok {ℓ} :
    {Fault : Type 0} {Value : Type ℓ} {v : Value} (o : Option Value) (fault : Fault)
    → ok_or o fault ≡ ok v
    → o ≡ some v
ok_or-eq-ok none fault h = cc
ok_or-eq-ok (some v) fault h = cc
