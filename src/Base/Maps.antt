-- ===== src/Base/Maps.antt =====
-- A Go map with string keys, as an association list with each key once. The order of `range` is
-- unspecified in Go: it is the order of the list here, and no theorem depends on which it is.
use mathlib.Core.Path.{◌≡◌, refl, sym, ap, ◌∙◌}
use mathlib.Core.Logic.{inl, inr}
use mathlib.Core.List.{List, [], ◌∷◌}
use mathlib.Core.Option.{Option, none, some}
use mysql_to_mssql.Base.Lists.{All}
use native.Mathlib.Omega.{arith}
use mysql_to_mssql.Base.Tests.{
  none_ne_some, Bytes, Bool-cases, eqb, eqb_iff, eqb_refl, if◌then◌else◌,
}

abbrev pub Dict {ℓ} : Type ℓ → Type ℓ
Dict V = List (Bytes × V)

module _ {ℓ} {V : Type ℓ} where
  unfoldable pub lookup : Bytes → Dict V → Option V
  lookup k [] = none
  lookup k ((j, v) ∷ m) = if eqb j k then some v else lookup k m

  -- m[k] = v
  unfoldable pub insert : Bytes → V → Dict V → Dict V
  insert k v [] = (k, v) ∷ []
  insert k v ((j, w) ∷ m) = if eqb j k then (j, v) ∷ m else (j, w) ∷ insert k v m

  -- delete(m, k)
  unfoldable pub erase : Bytes → Dict V → Dict V
  erase k [] = []
  erase k ((j, w) ∷ m) = let rest = erase k m in if eqb j k then rest else (j, w) ∷ rest

  pub lookup-insert :
      (k j : Bytes) (v : V) (m : Dict V)
      → lookup j (insert k v m) ≡ (if eqb k j then some v else lookup j m)
  unfolding lookup insert
  lookup-insert k j v [] = refl
  lookup-insert k j v ((i, w) ∷ m) =
      ground (arith, eqb_iff k j, eqb_iff i k, eqb_iff i j, lookup-insert k j v m)

  pub lookup-erase :
      (k j : Bytes) (m : Dict V) → lookup j (erase k m) ≡ (if eqb k j then none else lookup j m)
  unfolding lookup erase
  lookup-erase k j [] = ground arith
  lookup-erase k j ((i, w) ∷ m) =
      ground (arith, eqb_iff k j, eqb_iff i k, eqb_iff i j, lookup-erase k j m)

pub lookup-nil {ℓ} : {V : Type ℓ} (k : Bytes) → lookup {V = V} k [] ≡ none
unfolding lookup
lookup-nil k = refl

pub ruleset dict_laws = (lookup-insert, lookup-erase, lookup-nil)

module _ {W : Type 0} where
  -- Each key of a map stands once in it.
  abbrev pub Distinct : Dict W → Type 0
  Distinct [] = Unit
  Distinct ((k, _) ∷ d) = (lookup k d ≡ none) × Distinct d

  pub insert-Distinct : (k : Bytes) (w : W) (d : Dict W) → Distinct d → Distinct (insert k w d)
  unfolding insert lookup
  insert-Distinct k w [] h = (refl, tt)
  insert-Distinct k w ((j, x) ∷ d) h = elim (Bool-cases (eqb j k)) [
    | inl e ↦ rw e h
    | inr e ↦ rw e (
      ground (arith, lookup-insert k j w d, h.0, eqb_iff k j, eqb_iff j k),
      insert-Distinct k w d h.1,
    )
  ]

  -- What holds of what is found holds of all entries.
  pub Distinct-All :
      (P : Bytes → W → Type 0) (d : Dict W)
      → Distinct d
      → ((k : Bytes) (w : W) → lookup k d ≡ some w → P k w)
      → All (λ (e : Bytes × W). P e.0 e.1) d
  unfolding lookup
  Distinct-All P [] h f = tt
  Distinct-All P ((k, w) ∷ d) h f = (
    f k w (rw (eqb_refl k) refl),
    Distinct-All P d h.1 (λ j x q. f j x (elim (Bool-cases (eqb k j)) [
      | inl e ↦ absurd (none_ne_some (sym (h.0) ∙ ap (λ k. lookup k d) ((eqb_iff k j).0 e) ∙ q))
      | inr e ↦ rw e q
    ])),
  )
