-- ===== src/Base/Result.antt =====
-- A result or an error, with the bind that stops at the first error.
use mathlib.Core.Path.{◌≡◌, refl}
use mathlib.Core.Logic.{◌⊎◌, inl, inr}

pub data Result {κ ℓ} (E : Type κ) (A : Type ℓ) : Type (κ ⊔ ℓ) where
  ok : A → Result E A
  err : E → Result E A

infixl 5 ◌>>=◌
abbrev pub ◌>>=◌ {κ ℓ ι} :
    {E : Type κ} {A : Type ℓ} {B : Type ι} → Result E A → (A → Result E B) → Result E B
err problem >>= next = err problem
ok value >>= next = next value

module _ {κ ℓ ι} {E : Type κ} {A : Type ℓ} {B : Type ι} (next : A → Result E B) where
  pub >>=-eq-ok :
      (first : Result E A) {b : B}
      → (first >>= next) ≡ ok b
      → (a : A) × (first ≡ ok a) × (next a ≡ ok b)
  >>=-eq-ok (err problem) h = cc
  >>=-eq-ok (ok value) h = (value, refl, h)

  pub >>=-eq-err :
      (first : Result E A) {problem : E}
      → (first >>= next) ≡ err problem
      → (first ≡ err problem) ⊎ ((a : A) × (first ≡ ok a) × (next a ≡ err problem))
  >>=-eq-err (err problem) h = inl (cc)
  >>=-eq-err (ok value) h = inr (value, refl, h)

pub ok_inj {κ ℓ} : {E : Type κ} {A : Type ℓ} {a b : A} → ◌≡◌ {A = Result E A} (ok a) (ok b) → a ≡ b
ok_inj h = cc
