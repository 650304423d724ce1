-- ===== src/Base/Results.antt =====
-- The result of a Go call.
use mathlib.Core.Path.{◌≡◌, refl}
use mysql_to_mssql.Base.Tests.{Bytes}

-- How a Go call ends: with a value and a nil error, with an error (its text), or in a panic.
pub data Result {ℓ} (A : Type ℓ) : Type ℓ where
  ok : A → Result A
  err : Bytes → Result A
  panic : Result A

infixl 5 ◌>>=◌
abbrev pub ◌>>=◌ {ℓ κ} : {A : Type ℓ} {B : Type κ} → Result A → (A → Result B) → Result B
ok a >>= f = f a
err e >>= f = err e
panic >>= f = panic

pub ok-injective {ℓ} : {A : Type ℓ} {a b : A} → ok a ≡ ok b → a ≡ b
ok-injective h = cc

-- Inversion of a chain that ends well.
pub >>=-eq-ok {ℓ κ} :
    {A : Type ℓ} {B : Type κ} (m : Result A) (k : A → Result B) {b : B}
    → (m >>= k) ≡ ok b
    → (a : A) × (m ≡ ok a) × (k a ≡ ok b)
>>=-eq-ok (ok a) k h = (a, refl, h)
>>=-eq-ok (err e) k h = cc
>>=-eq-ok panic k h = cc

-- A call that changes state `S`.
abbrev pub Call {ℓ} : Type ℓ → Type ℓ → Type ℓ
Call S A = S → Result A × S
