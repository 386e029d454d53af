-- ===== src/Base/Outcome.antt =====
-- Go's `(value, error)` pair, with at most one of the two set, and its chaining.
use mathlib.Core.Path.{◌≡◌, refl}
use mathlib.Core.Logic.{◌⊎◌, inl, inr}

pub data Result {ℓ κ} (E : Type ℓ) (A : Type κ) : Type (ℓ ⊔ κ) where
  ok : A → Result E A
  err : E → Result E A

infixl 5 ◌>>=◌
abbrev pub ◌>>=◌ {ℓ κ ν} :
    {E : Type ℓ} {A : Type κ} {B : Type ν} → Result E A → (A → Result E B) → Result E B
ok a >>= f = f a
err e >>= f = err e

pub Result-cases {ℓ κ} :
    {E : Type ℓ} {A : Type κ} (r : Result E A) → ((a : A) × (r ≡ ok a)) ⊎ ((e : E) × (r ≡ err e))
Result-cases (ok a) = inl (a, refl)
Result-cases (err e) = inr (e, refl)

-- What a chain that succeeded went through.
pub >>=-eq-ok {ℓ κ ν} :
    {E : Type ℓ} {A : Type κ} {B : Type ν} {out : B} (first : Result E A) (rest : A → Result E B)
    → first >>= rest ≡ ok out
    → (mid : A) × (first ≡ ok mid) × (rest mid ≡ ok out)
>>=-eq-ok (err e) rest done = cc
>>=-eq-ok (ok mid) rest done = (mid, refl, done)

pub ok_injective {ℓ κ} :
    {E : Type ℓ} {A : Type κ} {a b : A} → ◌≡◌ {A = Result E A} (ok a) (ok b) → a ≡ b
ok_injective h = cc h
