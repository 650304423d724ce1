-- ===== src/Base/Calls.antt =====
-- Calls that change state, in sequence: an error or a panic ends the sequence, and what was done to
-- the state before it stays done.
use mathlib.Core.Logic.{◌⊎◌, inl, inr}
use mathlib.Core.Path.{◌≡◌, refl, ap}
use mysql_to_mssql.Base.Tests.{Bytes}
use mysql_to_mssql.Base.Results.{Result, ok, err, panic, Call, ok-injective}

module _ {S A B : Type 0} where
  abbrev pub after : Result A × S → (A → Call S B) → Result B × S
  after (ok a, s) k = k a s
  after (err e, s) k = (err e, s)
  after (panic, s) k = (panic, s)

  infixl 5 ◌>>=◌
  abbrev pub ◌>>=◌ : Call S A → (A → Call S B) → Call S B
  ◌>>=◌ m k s = after (m s) k

-- A result that does not touch the state.
abbrev pub lift : {S A : Type 0} → Result A → Call S A
lift r s = (r, s)

-- A sequence goes on behind a call that ends well.
pub after-ok :
    {S A B : Type 0} (x : Result A × S) (k : A → Call S B) {a : A}
    → x.0 ≡ ok a
    → after x k ≡ k a x.1
after-ok (ok a, s) k h = ap (λ a. k a s) (ok-injective h)
after-ok (err e, s) k h = cc
after-ok (panic, s) k h = cc

-- Inversion of a sequence that ends well.
pub after-eq-ok :
    {S A B : Type 0} (x : Result A × S) (k : A → Call S B) {b : B}
    → (after x k).0 ≡ ok b
    → (a : A) × (x.0 ≡ ok a) × (after x k ≡ k a x.1)
after-eq-ok (ok a, s) k h = (a, refl, refl)
after-eq-ok (err e, s) k h = cc
after-eq-ok (panic, s) k h = cc

pub Result-cases :
    {A : Type 0} (r : Result A)
    → ((a : A) × (r ≡ ok a)) ⊎ (((e : Bytes) × (r ≡ err e)) ⊎ (r ≡ panic))
Result-cases (ok a) = inl (a, refl)
Result-cases (err e) = inr (inl (e, refl))
Result-cases panic = inr (inr refl)
