-- ===== src/Base/Tests.antt =====
-- Boolean tests on the native numbers and on bytes, and the conditional.
use Prim.Native.Nat.{ℕ, ◌≤◌, ◌<◌, compare, Ordering}
use mathlib.Core.Path.{◌≡◌, refl}
use mathlib.Core.Logic.{◌≢◌, ◌↔◌, ◌⊎◌, inl, inr}
use mathlib.Core.Bool.{Bool, true, false, ◌&&◌}
use mathlib.Core.List.{List, [], ◌∷◌}
use mathlib.Core.Option.{Option, none, some}
use native.Mathlib.Omega.{arith}

abbrev pub ltb : ℕ → ℕ → Bool
ltb a b = elim (compare a b) [ Ordering.lt ↦ true | _ ↦ false ]

abbrev pub leb : ℕ → ℕ → Bool
leb a b = elim (compare a b) [ Ordering.gt ↦ false | _ ↦ true ]

infix 50 ◌==◌
abbrev pub ◌==◌ : ℕ → ℕ → Bool
a == b = elim (compare a b) [ Ordering.eq ↦ true | _ ↦ false ]

infix 1 if◌then◌else◌
abbrev pub if◌then◌else◌ {ℓ} : {A : Type ℓ} → Bool → A → A → A
if true then x else y = x
if false then x else y = y

pub ltb→lt : (a b : ℕ) → ltb a b ≡ true → a < b
ltb→lt a b h = ground arith

pub leb→le : (a b : ℕ) → leb a b ≡ true → a ≤ b
leb→le a b h = ground arith

pub ==_iff : (a b : ℕ) → ((a == b) ≡ true) ↔ (a ≡ b)
==_iff a b = ground arith

pub Bool-cases : (b : Bool) → (b ≡ true) ⊎ (b ≡ false)
Bool-cases true = inl refl
Bool-cases false = inr refl

pub Option-cases {ℓ} : {A : Type ℓ} (o : Option A) → (o ≡ none) ⊎ ((a : A) × (o ≡ some a))
Option-cases none = inl refl
Option-cases (some a) = inr (a, refl)

pub some-injective {ℓ} : {A : Type ℓ} {a b : A} → some a ≡ some b → a ≡ b
some-injective h = cc

pub none_ne_some {ℓ} : {A : Type ℓ} {a : A} → none ≢ some a
none_ne_some h = cc

-- A Go string or byte slice.
abbrev pub Bytes : Type 0
Bytes = List ℕ

-- Go's `==` on strings.
unfoldable pub eqb : Bytes → Bytes → Bool
eqb [] [] = true
eqb [] (_ ∷ _) = false
eqb (_ ∷ _) [] = false
eqb (a ∷ s) (b ∷ t) = a == b && eqb s t

pub eqb_iff : (s t : Bytes) → (eqb s t ≡ true) ↔ (s ≡ t)
unfolding eqb
eqb_iff [] [] = ground arith
eqb_iff [] (b ∷ t) = ground arith
eqb_iff (a ∷ s) [] = ground arith
eqb_iff (a ∷ s) (b ∷ t) = ground (arith, eqb_iff s t)

pub eqb_refl : (s : Bytes) → eqb s s ≡ true
eqb_refl s = (eqb_iff s s).1 refl
