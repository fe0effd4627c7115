-- ===== src/Prelude/Results.antt =====
-- Code that returns a value or raises: `err` carries the exception.
use mathlib.Core.Path.{◌≡◌, refl}
use native.Mathlib.Omega.{arith}

pub data Result {ℓ} (X : Type 0) (A : Type ℓ) : Type ℓ where
  err : X → Result X A
  ok : A → Result X A

infixl 10 ◌>>=◌
abbrev pub ◌>>=◌ {ℓ κ} :
    {X : Type 0} {A : Type ℓ} {B : Type κ} → Result X A → (A → Result X B) → Result X B
ok a >>= f = f a
err x >>= f = err x

module _ {ℓ} {X : Type 0} {A : Type ℓ} where
  pub ok-injective : (a b : A) → Path (Result X A) (ok a) (ok b) → a ≡ b
  ok-injective a b h = ground arith

  pub err≢ok : {x : X} {a : A} → Path (Result X A) (err x) (ok a) → {C : Type ℓ} → C
  err≢ok h = ground arith

  pub bind-ok :
      {B : Type ℓ} (r : Result X A) (f : A → Result X B) (b : B)
      → r >>= f ≡ ok b
      → (a : A) × (r ≡ ok a) × (f a ≡ ok b)
  bind-ok (ok a) f b h = (a, refl, h)
  bind-ok (err x) f b h = ground arith
