-- ===== src/Prelude/Results.antt =====
-- Go's `(value, error)`: a value, or an error and no value.
use mathlib.Core.Path.{◌≡◌, refl}
use mathlib.Core.Bool.{Bool, true, false}
use mathlib.Core.Option.{some}
use mathlib.Core.Logic.{◌⊎◌, inl, inr}

pub data Result {ℓ κ} (E : Type ℓ) (A : Type κ) : Type (ℓ ⊔ κ) where
  ok : A → Result E A
  err : E → Result E A

-- `if !test { return reason }`
abbrev pub guard {ℓ} : {E : Type ℓ} → Bool → E → Result E (Unit {0})
guard false reason = err reason
guard true reason = ok tt

-- `if err != nil { return err }`, before the rest.
abbrev pub ◌>>=◌ {ℓ κ μ} :
    {E : Type ℓ} {A : Type κ} {B : Type μ} → Result E A → (A → Result E B) → Result E B
err reason >>= rest = err reason
ok value >>= rest = rest value

infixl 5 ◌>>=◌ ◌>>◌
-- The same where there is no value to pass on.
abbrev pub ◌>>◌ {ℓ κ} : {E : Type ℓ} {B : Type κ} → Result E (Unit {0}) → Result E B → Result E B
first >> rest = first >>= λ _. rest

pub >>=_assoc {ℓ κ μ ν} :
    {E : Type ℓ} {A : Type κ} {B : Type μ} {C : Type ν} (m : Result E A) (f : A → Result E B)
    (g : B → Result E C)
    → ((m >>= f) >>= g) ≡ (m >>= λ a. f a >>= g)
>>=_assoc (err reason) f g = refl
>>=_assoc (ok value) f g = refl

pub >>=-eq-ok {ℓ κ μ} :
    {E : Type ℓ} {A : Type κ} {B : Type μ} (first : Result E A) (rest : A → Result E B) {b : B}
    → (first >>= rest) ≡ ok b
    → (a : A) × (first ≡ ok a) × (rest a ≡ ok b)
>>=-eq-ok (err reason) rest h = cc
>>=-eq-ok (ok value) rest h = (value, refl, h)

pub ok-eq {ℓ κ} : {E : Type ℓ} {A : Type κ} {x y : A} → ◌≡◌ {A = Result E A} (ok x) (ok y) → x ≡ y
ok-eq h = cc

pub some-eq {ℓ} : {A : Type ℓ} {x y : A} → some x ≡ some y → x ≡ y
some-eq h = cc

pub Result-cases {ℓ κ} :
    {E : Type ℓ} {A : Type κ} (r : Result E A)
    → ((reason : E) × (r ≡ err reason)) ⊎ ((a : A) × (r ≡ ok a))
Result-cases (ok a) = inr (a, refl)
Result-cases (err reason) = inl (reason, refl)
