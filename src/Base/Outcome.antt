-- ===== src/Base/Outcome.antt =====
-- A Go function that returns `(T, error)`: the value, or the error. A panic is an error of its own
-- in the types that can raise one.
use mathlib.Core.Path.{◌≡◌, refl}
use mathlib.Core.Logic.{◌⊎◌, inl, inr}

pub data Result {ℓ κ} (E : Type ℓ) (A : Type κ) : Type (ℓ ⊔ κ) where
  err : E → Result E A
  ok : A → Result E A

infixl 5 ◌>>=◌
-- `if err != nil { return err }`, and else the rest of the function on the value.
abbrev pub ◌>>=◌ {ℓ κ μ} :
    {E : Type κ} {A : Type ℓ} {B : Type μ} → Result E A → (A → Result E B) → Result E B
err failure >>= rest = err failure
ok value >>= rest = rest value

-- A function that returned a value went on past the call.
pub >>=-eq-ok {ℓ κ μ} :
    {E : Type κ} {A : Type ℓ} {B : Type μ} (first : Result E A) (rest : A → Result E B) {b : B}
    → (first >>= rest) ≡ ok b
    → (value : A) × (first ≡ ok value) × (rest value ≡ ok b)
>>=-eq-ok (err failure) rest e = cc
>>=-eq-ok (ok value) rest e = (value, refl, e)

pub Result-cases {ℓ κ} :
    {E : Type κ} {A : Type ℓ} (r : Result E A)
    → ((value : A) × (r ≡ ok value)) ⊎ ((failure : E) × (r ≡ err failure))
Result-cases (ok value) = inl (value, refl)
Result-cases (err failure) = inr (failure, refl)
