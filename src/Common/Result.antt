-- ===== src/Common/Result.antt =====
-- A Python function that returns a value or raises: the error is a value of the model's own type.
use mathlib.Core.Path.{◌≡◌, refl}
use mathlib.Core.Logic.{◌≢◌, ◌⊎◌, inl, inr}

pub data Result {ℓ κ} (E : Type ℓ) (A : Type κ) : Type (ℓ ⊔ κ) where
  ok : A → Result E A
  err : E → Result E A

-- What follows a call that may raise: `do` blocks end at the first error.
infixl 5 ◌>>=◌
abbrev pub ◌>>=◌ {ℓ κ μ} :
    {A : Type κ} {B : Type μ} {E : Type ℓ} → Result E A → (A → Result E B) → Result E B
err why >>= next = err why
ok value >>= next = next value

-- A block that ends without an error had none at its first call.
pub >>=-ok {ℓ κ μ} :
    {A : Type κ} {B : Type μ} {E : Type ℓ} {last : B} (call : Result E A) (next : A → Result E B)
    → (call >>= next) ≡ ok last
    → (value : A) × (call ≡ ok value) × (next value ≡ ok last)
>>=-ok (err why) next e = cc
>>=-ok (ok value) next e = (value, refl, e)

module _ {ℓ κ} {E : Type ℓ} {A : Type κ} where
  abbrev same : Result E A → Result E A
  same r = r

  pub ok_inj : {x y : A} → same (ok x) ≡ same (ok y) → x ≡ y
  ok_inj h = cc

  pub err-ne-ok : {e : E} {x : A} → same (err e) ≢ same (ok x)
  err-ne-ok h = cc

  pub Result-cases : (r : Result E A) → ((e : E) × (r ≡ err e)) ⊎ ((x : A) × (r ≡ ok x))
  Result-cases (ok x) = inr (x, refl)
  Result-cases (err e) = inl (e, refl)
