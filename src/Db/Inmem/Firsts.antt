-- ===== src/Db/Inmem/Firsts.antt =====
-- db/inmemdb.go: the entries that GetAll returns, the first value of each list.
use mysql_to_mssql.Base.{
  Distinct, ◌≡◌, refl, sym, ap, ◌∙◌, false, Bool-cases, inl, inr, List, [], ◌∷◌, ◌++◌, append-nil,
  append_assoc, Option, none, some, All, Bytes, eqb, eqb_iff, eqb_refl, Dict, lookup, ok,
  ok-injective, arith,
}
use mysql_to_mssql.Db.Interface.{Entry}
use mysql_to_mssql.Db.Saves.{has_key}
use mysql_to_mssql.Db.Inmem.{first_values}

module _ {V : Type 0} where
  abbrev pub first : List V → Option V
  first [] = none
  first (v ∷ vs) = some v

  -- The entries that GetAll returns for a bucket without an empty list.
  abbrev pub firsts : Dict (List V) → List (Entry V)
  firsts [] = []
  firsts ((k, []) ∷ d) = firsts d
  firsts ((k, v ∷ _) ∷ d) = record { key = k; value = v } ∷ firsts d

  pub first_values-eq-firsts :
      (d : Dict (List V)) (entries : List (Entry V)) (l : List (Entry V))
      → first_values d entries ≡ ok l
      → l ≡ entries ++ firsts d
  unfolding first_values
  first_values-eq-firsts [] entries l h = sym (ok-injective h) ∙ sym (append-nil entries)
  first_values-eq-firsts ((k, []) ∷ d) entries l h = absurd (ground arith)
  first_values-eq-firsts ((k, v ∷ vs) ∷ d) entries l h =
      first_values-eq-firsts d (entries ++ record { key = k; value = v } ∷ []) l h
      ∙ append_assoc entries (record { key = k; value = v } ∷ []) (firsts d)

  abbrev pub first_at : Dict (List V) → Bytes → Option V
  first_at d k = elim (lookup k d) [ none ↦ none | some l ↦ first l ]

  abbrev pub AllSaved : Dict (List V) → List (Entry V) → Type 0
  AllSaved d = All (λ (e : Entry V). first_at d e.key ≡ some e.value)

  saved_tail :
      (j : Bytes) (l : List V) (d : Dict (List V)) (es : List (Entry V))
      → lookup j d ≡ none
      → AllSaved d es
      → AllSaved ((j, l) ∷ d) es
  unfolding lookup
  saved_tail j l d [] h a = tt
  saved_tail j l d (e ∷ es) h a = (
    elim (Bool-cases (eqb j e.key)) [
      | inl i ↦ absurd (ground (arith, ap (λ x. lookup x d) ((eqb_iff j e.key).0 i)))
      | inr i ↦ ground arith
    ],
    saved_tail j l d es h a.1,
  )

  pub firsts_saved : (d : Dict (List V)) → Distinct d → AllSaved d (firsts d)
  unfolding lookup
  firsts_saved [] h = tt
  firsts_saved ((j, []) ∷ d) h = saved_tail j [] d (firsts d) h.0 (firsts_saved d h.1)
  firsts_saved ((j, v ∷ vs) ∷ d) h =
      (ground (arith, eqb_refl j), saved_tail j (v ∷ vs) d (firsts d) h.0 (firsts_saved d h.1))

  pub firsts_all :
      (k : Bytes) (d : Dict (List V)) → has_key k (firsts d) ≡ false → first_at d k ≡ none
  unfolding lookup
  firsts_all k [] h = refl
  firsts_all k ((j, []) ∷ d) h = ground (arith, firsts_all k d h)
  firsts_all k ((j, v ∷ vs) ∷ d) h = elim (Bool-cases (eqb j k)) [
    | inl e ↦ absurd (ground arith)
    | inr e ↦ ground (arith, firsts_all k d (ground arith))
  ]
