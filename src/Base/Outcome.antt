-- ===== src/Base/Outcome.antt =====
-- What an asynchronous call settles to: a value, or the error that it throws.
use mathlib.Core.Path.{◌≡◌, refl}
use mathlib.Core.Logic.{◌⊎◌, inl, inr}
use mathlib.Core.Bool.{Bool, true, false}

-- `invalid` is the `Error` of a failed argument check, `conflict` a `StateConflictError` or the
-- `conflict(…)` of the server, `lost` the error of a refresh whose lease is gone, `unavailable` any other
-- error of a backend.
pub data Error : Type 0 where
  invalid conflict lost not_found unauthorized forbidden unavailable : Error

pub data Result {ℓ} (Value : Type ℓ) : Type ℓ where
  err : (reason : Error) → Result Value
  ok : (value : Value) → Result Value

-- The two continuations of a promise, as in `call.then(on_value, on_error)`.
abbrev pub settle {ℓ κ} :
    {Value : Type ℓ} {Answer : Type κ} → (Error → Answer) → (Value → Answer) → Result Value → Answer
settle on_error on_value (err reason) = on_error reason
settle on_error on_value (ok value) = on_value value

-- The state after a call: a call that throws leaves it as it was.
abbrev pub after {ℓ κ} : {Value : Type ℓ} {State : Type κ} → State → Result (Value × State) → State
after before = settle (λ _. before) (λ answer. answer.1)

-- `if (!test) throw …`
abbrev pub check : Bool → Error → Result (Unit {0})
check passes reason = elim passes [ false ↦ err reason | true ↦ ok tt ]

-- `await`: the rest of the body runs with the value of the call, and an error skips it.
infixl 5 ◌>>=◌
abbrev pub ◌>>=◌ {ℓ κ} :
    {Value : Type ℓ} {Answer : Type κ} → Result Value → (Value → Result Answer) → Result Answer
call >>= rest = settle err rest call

infixl 5 ◌>>◌
abbrev pub ◌>>◌ {ℓ} : {Answer : Type ℓ} → Result (Unit {0}) → Result Answer → Result Answer
call >> rest = settle err (λ _. rest) call

-- What a call that returned was made of: the awaited call returned, and so did the rest.
pub >>=-eq-ok {ℓ κ} :
    {Value : Type ℓ} {Answer : Type κ} (call : Result Value) (rest : Value → Result Answer)
    → {answer : Answer} → (call >>= rest) ≡ ok answer
    → (value : Value) × (call ≡ ok value) × (rest value ≡ ok answer)
>>=-eq-ok (err reason) rest returned = cc
>>=-eq-ok (ok value) rest returned = (value, refl, returned)

pub check-eq-ok : (b : Bool) (e : Error) → check b e ≡ ok tt → b ≡ true
check-eq-ok true e h = refl
check-eq-ok false e h = cc

pub Result-cases {ℓ} :
    {A : Type ℓ} (r : Result A) → ((e : Error) × (r ≡ err e)) ⊎ ((a : A) × (r ≡ ok a))
Result-cases (ok a) = inr (a, refl)
Result-cases (err e) = inl (e, refl)

pub >>-eq-ok {ℓ} :
    {B : Type ℓ} (m : Result (Unit {0})) (k : Result B) {b : B}
    → (m >> k) ≡ ok b
    → (m ≡ ok tt) × (k ≡ ok b)
>>-eq-ok (ok u) k h = (refl, h)
>>-eq-ok (err e) k h = cc

-- What a state and the end of a call have in common, the call has behind a check.
pub after-guard {ℓ κ μ} :
    {A : Type ℓ} {S : Type κ} (P : S → Type μ) (s : S) (m : Result (Unit {0})) (k : Result (A × S))
    → P s
    → P (after s k)
    → P (after s (m >> k))
after-guard P s (ok u) k h h' = h'
after-guard P s (err e) k h h' = h

pub ok-injective {ℓ} : {A : Type ℓ} {a b : A} → ok a ≡ ok b → a ≡ b
ok-injective e = cc
