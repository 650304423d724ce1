-- ===== src/Api/Reload.antt =====
-- The data models that Put saves, and what LoadDataModels makes of them.
pub mod Kept
pub mod Reachable
use mysql_to_mssql.Base.{
  ◌≡◌, refl, sym, ap, ◌∙◌, Bool, true, false, ◌||◌, if◌then◌else◌, Bool-cases, inl, inr, List, [],
  ◌∷◌, Option, none, some, All, Bytes, Dict, lookup, insert, lookup-insert, eqb, eqb_iff, eqb_refl,
  Result, ok, ok-injective,
}
use mysql_to_mssql.Base.Calls.{after, after-eq-ok}
use mathlib.Core.Path.{subst}
use mysql_to_mssql.Reflect.{Foreign, Struct}
use mysql_to_mssql.Db.Interface.{Entry, Interface, same}
use mysql_to_mssql.Db.Saves.{has_key, Saves}
use mysql_to_mssql.Server.Param.{StructRequest}
use mysql_to_mssql.Syncer.Gob.{Gob, layout}
use mysql_to_mssql.Syncer.Target.{Target}
use mysql_to_mssql.Api.Models.{Dynamic, generate_struct}
use mysql_to_mssql.Api
use mysql_to_mssql.Api.{
  Packages, bucket, bytes_of, put_bytes, store_to_db, put, load_entries, load_from,
  load_data_models,
}

either_true : (x y : Bool) → y ≡ true → x || y ≡ false → ⊥
either_true true y q n = cc
either_true false y q n = cc

left_true : (x y : Bool) → y ≡ false → x || y ≡ true → x ≡ true
left_true true y q n = refl
left_true false y q n = cc

left_false : (x y : Bool) → x || y ≡ false → x ≡ false
left_false true y n = cc
left_false false y n = refl

module _ {f : Foreign} (g : Gob f) (i : Interface g.Wire) (t : Target f) (d : Dynamic)
    (k : Packages g.Wire) (v : Saves i)
    (marshal_ok : (p : StructRequest) → (b : g.Wire) × (k.marshal p ≡ ok b))
    (unmarshal_lem : (p : StructRequest) (b : g.Wire)
      → k.marshal p ≡ ok b
      → k.unmarshal b ≡ ok p) where
  -- What is saved makes a model of the given type.
  abbrev Makes : Option g.Wire → Struct f → Type 0
  Makes none m = ⊥
  Makes (some b) m =
      (p : StructRequest) × (m₀ : Struct f) × (k.unmarshal b ≡ ok p)
      × (generate_struct d p.columns ≡ ok m₀)
      × (layout m₀ ≡ layout m)

  -- A table has a model of the type that is saved for it, or neither.
  abbrev Matches : Option g.Wire → Option (Struct f) → Type 0
  Matches none none = Unit
  Matches (some b) none = ⊥
  Matches s (some m) = Makes s m

  -- The models in memory are those in the storage, up to the values of their fields.
  pub record IsSaved (a : Api.Api g i t d k) : Type 0 where
    pub sound : v.IsSound a.db_interface
    pub matches :
        (table : Bytes) → Matches (v.saved a.db_interface bucket table) (lookup table a.data_models)

  abbrev pub SameType : Option (Struct f) → Option (Struct f) → Type 0
  SameType none none = Unit
  SameType none (some m) = ⊥
  SameType (some m) none = ⊥
  SameType (some m) (some m') = layout m ≡ layout m'

  Matches-insert :
      (a : Api.Api g i t d k) (p : StructRequest) (m : Struct f) (b : g.Wire)
      (saved : Bytes → Option g.Wire)
      → k.unmarshal b ≡ ok p
      → generate_struct d p.columns ≡ ok m
      → ((table : Bytes) → Matches (saved table) (lookup table a.data_models))
      → (table : Bytes)
      → Matches
          (if same bucket p.table bucket table then some b else saved table)
          (lookup table (insert p.table m a.data_models))
  Matches-insert a p m b saved u e h table = elim (Bool-cases (eqb p.table table)) [
    | inl q ↦ rw (lookup-insert, eqb_refl bucket, q) (p, m, u, e, refl)
    | inr q ↦ rw (lookup-insert, eqb_refl bucket, q) (h table)
  ]

  same_columns :
      (p p' : StructRequest) (m m' : Struct f) (b : g.Wire)
      → k.unmarshal b ≡ ok p
      → k.unmarshal b ≡ ok p'
      → generate_struct d p.columns ≡ ok m
      → generate_struct d p'.columns ≡ ok m'
      → m ≡ m'
  same_columns p p' m m' b u u' e e' = ok-injective (
      sym e
      ∙ ap (λ (q : StructRequest). generate_struct d q.columns) (ok-injective (sym u ∙ u'))
      ∙ e')

  Matches-SameType :
      (s : Option g.Wire) (x y : Option (Struct f)) → Matches s x → Matches s y → SameType x y
  Matches-SameType none none none h h' = tt
  Matches-SameType none none (some m) h h' = absurd h'
  Matches-SameType none (some m) y h h' = absurd h
  Matches-SameType (some b) none y h h' = absurd h
  Matches-SameType (some b) (some m) none h h' = absurd h'
  Matches-SameType (some b) (some m) (some m') (p, m₀, u, e, l) (p', m₁, u', e', l') =
      sym l ∙ ap layout (same_columns p p' m₀ m₁ b u u' e e') ∙ l'

  store_to_db-IsSaved :
      (a : Api.Api g i t d k) (p : StructRequest) (m : Struct f)
      → IsSaved a
      → generate_struct d p.columns ≡ ok m
      → (store_to_db g i t d k p (record a { data_models = insert p.table m a.data_models })).0
        ≡ ok tt
      → IsSaved
          (store_to_db g i t d k p (record a { data_models = insert p.table m a.data_models })).1
  unfolding store_to_db bytes_of put_bytes
  store_to_db-IsSaved a p m s e h =
      let (b, mk) = marshal_ok p in
      let h' : (i.put bucket p.table b 0 a.db_interface).0 ≡ ok tt = rw mk at h in
      rw mk (record {
        sound = v.put-IsSound a.db_interface bucket p.table b s.sound h';
        matches = λ table.
            rw (v.saved-put a.db_interface bucket p.table b bucket table s.sound h') (
              Matches-insert a p m b (v.saved a.db_interface bucket) (unmarshal_lem p b mk) e
                s.matches table);
      })

  -- A Put that ends well keeps the models in memory and those in the storage the same.
  pub put-IsSaved :
      (a : Api.Api g i t d k) (p : StructRequest) {m : Struct f}
      → IsSaved a
      → (put g i t d k p a).0 ≡ ok m
      → IsSaved (put g i t d k p a).1
  unfolding put
  put-IsSaved a p s h =
      let rest = λ (strct : Struct f) (a' : Api.Api g i t d k).
        after
          (store_to_db g i t d k p
            (record a' { data_models = insert p.table strct a'.data_models }))
          (λ _ a₂. (ok strct, a₂)) in
      let (strct, h₁, h₂) = after-eq-ok (generate_struct d p.columns, a) rest h in
      let a₁ : Api.Api g i t d k = record a { data_models = insert p.table strct a.data_models } in
      let (u, h₃, h₄) =
        after-eq-ok (store_to_db g i t d k p a₁) (λ _ a₂. (ok strct, a₂))
          (sym (ap (λ (z : Result (Struct f) × Api.Api g i t d k). z.0) h₂) ∙ h) in
      subst IsSaved (sym (ap (λ (z : Result (Struct f) × Api.Api g i t d k). z.1) (h₂ ∙ h₄)))
        (store_to_db-IsSaved a p strct s h₁ h₃)

  -- What is saved for a key can be loaded.
  abbrev Loadable : (Bytes → Option g.Wire) → Type 0
  Loadable saved =
      (table : Bytes) (b : g.Wire)
      → saved table ≡ some b
      → (p : StructRequest) × (m : Struct f) × (k.unmarshal b ≡ ok p)
        × (generate_struct d p.columns ≡ ok m)

  Matches-Loadable :
      (s : Option g.Wire) (x : Option (Struct f)) (b : g.Wire)
      → Matches s x
      → s ≡ some b
      → (p : StructRequest) × (m : Struct f) × (k.unmarshal b ≡ ok p)
        × (generate_struct d p.columns ≡ ok m)
  Matches-Loadable none x b h q = cc
  Matches-Loadable (some b') none b h q = absurd h
  Matches-Loadable (some b') (some m) b (p, m₀, u, e, l) q =
      let same_bytes : b ≡ b' = cc in (p, m₀, ap k.unmarshal same_bytes ∙ u, e)

  -- What the loop leaves: of each key of the entries the model of what is saved for it.
  load_entries-Matches :
      (es : List (Entry g.Wire)) (models : Dict (Struct f)) (saved : Bytes → Option g.Wire)
      → Loadable saved
      → All (λ e. saved e.key ≡ some e.value) es
      → ((load_entries g i t d k es models).0 ≡ ok tt)
        × ((table : Bytes)
            → (has_key table es ≡ true
                → Matches (saved table) (lookup table (load_entries g i t d k es models).1))
              × (has_key table es ≡ false
                  → lookup table (load_entries g i t d k es models).1 ≡ lookup table models))
  unfolding load_entries
  load_entries-Matches [] models saved l h = (refl, λ table. (λ q. cc, λ q. refl))
  load_entries-Matches (e ∷ es) models saved l h =
      let (p, m, u, made) = l e.key e.value h.0 in
      let (ends, rest) = load_entries-Matches es (insert e.key m models) saved l h.1 in
      rw (u, made)
        (
          ends,
          λ table. elim (Bool-cases (has_key table es)) [
            | inl q ↦ (λ _. (rest table).0 q, λ n. absurd (either_true (eqb e.key table) _ q n))
            | inr q ↦ (
              λ n.
                  (let found = left_true (eqb e.key table) _ q n in
                    let saved_here : saved table ≡ some e.value =
                      ap saved (sym ((eqb_iff e.key table).0 found)) ∙ h.0 in
                    rw ((rest table).1 q, lookup-insert e.key table m models, found, saved_here)
                      (p, m, u, made, refl)),
              λ n.
                  (rest table).1 q
                  ∙ lookup-insert e.key table m models
                  ∙ rw (left_false (eqb e.key table) _ n) refl,
            )
          ],
        )

  -- Where JSON encodes every request and reads it back: an API with no models, on the storage of
  -- an API whose models are saved in it, loads its models without error if the storage's entries
  -- can be read, and then each table has a model of the same type as in the other API, or in
  -- neither a model.
  pub load_data_models-SameType :
      (a fresh : Api.Api g i t d k) (l : List (Entry g.Wire))
      → IsSaved a
      → (i.get_all bucket a.db_interface).0 ≡ ok l
      → fresh.db_interface ≡ a.db_interface
      → fresh.data_models ≡ []
      → ((load_data_models g i t d k fresh).0 ≡ ok tt)
        × ((table : Bytes)
            → SameType
                (lookup table (load_data_models g i t d k fresh).1.data_models)
                (lookup table a.data_models))
  unfolding load_data_models load_from lookup
  load_data_models-SameType a fresh l s h same_db no_models =
      let saved = λ (table : Bytes). v.saved a.db_interface bucket table in
      let (ends, rest) =
        load_entries-Matches l fresh.data_models saved
          (λ table b q.
            Matches-Loadable (saved table) (lookup table a.data_models) b (s.matches table) q)
          (v.entries_saved a.db_interface bucket l s.sound h) in
      rw (same_db, h)
        (
          ends,
          λ table.
              Matches-SameType (saved table) _ _
                (elim (Bool-cases (has_key table l)) [
                  | inl q ↦ (rest table).0 q
                  | inr q ↦
                      rw
                        (
                          (rest table).1 q,
                          no_models,
                          v.entries_all a.db_interface bucket l table s.sound h q,
                        )
                        tt
                ])
                (s.matches table),
        )
