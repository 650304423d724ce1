-- ===== src/Api/Reload/Kept.antt =====
-- What an event of the binlog leaves of the data models.
use mysql_to_mssql.Base.{
  ◌≡◌, refl, sym, ap, ◌∙◌, Bool-cases, Option-cases, inl, inr, List, [], ◌∷◌, Option, none, some,
  Bytes, Dict, lookup, eqb, eqb_iff, Result, ok, err, panic, Call,
}
use mysql_to_mssql.Base.Calls.{after}
use mysql_to_mssql.Reflect.{Foreign, Struct}
use mysql_to_mssql.Db.Interface.{Interface}
use mysql_to_mssql.Db.Saves.{Saves}
use mysql_to_mssql.Server.Param.{StructRequest}
use mysql_to_mssql.Parser.Cells.{RowsEvent}
use mysql_to_mssql.Parser.Rows.{Callback, on_insert, on_update, on_delete, on_row}
use mysql_to_mssql.Parser.Rows.Events.{on_row-layout, on_row-others, on_row-none}
use mysql_to_mssql.Syncer.Gob.{Gob}
use mysql_to_mssql.Syncer.Store
use mysql_to_mssql.Syncer.Store.{push_encoded, log_insert, log_update, log_delete}
use mysql_to_mssql.Syncer.Target.{Target}
use mysql_to_mssql.Api.Models.{Dynamic}
use mysql_to_mssql.Api
use mysql_to_mssql.Api.{Packages, Running, bucket, put}
use mysql_to_mssql.Api.Events.{logged, on_callback, on_callbacks, on_parsed}
use mysql_to_mssql.Api.Reload.{Matches, IsSaved, SameType}

module _ {f : Foreign} (g : Gob f) (i : Interface g.Wire) (t : Target f) (d : Dynamic)
    (k : Packages g.Wire) (v : Saves i)
    (marshal_ok : (p : StructRequest) → (b : g.Wire) × (k.marshal p ≡ ok b))
    (unmarshal_lem : (p : StructRequest) (b : g.Wire)
      → k.marshal p ≡ ok b
      → k.unmarshal b ≡ ok p) where
  abbrev pub Saved : Api.Api g i t d k → Type 0
  Saved = IsSaved g i t d k v marshal_ok unmarshal_lem

  abbrev Alike : Option (Struct f) → Option (Struct f) → Type 0
  Alike = SameType g i t d k v marshal_ok unmarshal_lem

  -- A storage that holds the same models as another.
  Holds : i.State → i.State → Type 0
  Holds db db' =
      v.IsSound db
      → v.IsSound db' × ((table : Bytes) → v.saved db' bucket table ≡ v.saved db bucket table)

  Holds-refl : (db : i.State) → Holds db db
  unfolding Holds
  Holds-refl db h = (h, λ table. refl)

  Holds-trans : (db db' db₂ : i.State) → Holds db db' → Holds db' db₂ → Holds db db₂
  unfolding Holds
  Holds-trans db db' db₂ h h' s = ((h' (h s).0).0, λ table. (h' (h s).0).1 table ∙ (h s).1 table)

  -- Records are logged in another bucket.
  push_encoded-Holds :
      (table : Bytes) (r : Result g.Wire) (db : i.State) → Holds db (push_encoded g i table r db).1
  unfolding push_encoded Holds eqb
  push_encoded-Holds table (ok b) db h = (
    v.push-IsSound db Store.bucket table b h,
    λ name. v.saved-push db Store.bucket table b bucket name h refl,
  )
  push_encoded-Holds table (err e) db h = (h, λ name. refl)
  push_encoded-Holds table panic db h = (h, λ name. refl)

  -- A call after which the models are the same, in memory and in the storage.
  abbrev Keeps : Api.Api g i t d k → Api.Api g i t d k → Type 0
  Keeps a a' = (a'.data_models ≡ a.data_models) × Holds a.db_interface a'.db_interface

  logged-Keeps :
      (call : Call i.State Unit) (a : Api.Api g i t d k)
      → Holds a.db_interface (call a.db_interface).1
      → Keeps a (logged g i t d k call a).1
  unfolding logged
  logged-Keeps call a h = elim (Bool-cases a.log_store) [
    | inl e ↦ rw e (refl, h)
    | inr e ↦ rw e (refl, Holds-refl a.db_interface)
  ]

  on_callback-Keeps :
      (table : Bytes) (c : Callback f) (a : Api.Api g i t d k)
      → Keeps a (on_callback g i t d k table c a).1
  unfolding on_callback log_insert log_update log_delete
  on_callback-Keeps table (on_insert m) a =
      logged-Keeps _ a (push_encoded-Holds table _ a.db_interface)
  on_callback-Keeps table (on_update old new) a =
      logged-Keeps _ a (push_encoded-Holds table _ a.db_interface)
  on_callback-Keeps table (on_delete m) a =
      logged-Keeps _ a (push_encoded-Holds table _ a.db_interface)

  after-Keeps :
      (a : Api.Api g i t d k) (x : Result (Unit {0}) × Api.Api g i t d k)
      (rest : Call (Api.Api g i t d k) Unit)
      → Keeps a x.1
      → Keeps x.1 (rest x.1).1
      → Keeps a (after x (λ _ a'. rest a')).1
  after-Keeps a (ok _, a') rest h h' = (h'.0 ∙ h.0, Holds-trans _ _ _ h.1 h'.1)
  after-Keeps a (err e, a') rest h h' = h
  after-Keeps a (panic, a') rest h h' = h

  on_callbacks-Keeps :
      (table : Bytes) (cs : List (Callback f)) (a : Api.Api g i t d k)
      → Keeps a (on_callbacks g i t d k table cs a).1
  unfolding on_callbacks
  on_callbacks-Keeps table [] a = (refl, Holds-refl a.db_interface)
  on_callbacks-Keeps table (c ∷ cs) a =
      after-Keeps a (on_callback g i t d k table c a) (on_callbacks g i t d k table cs)
        (on_callback-Keeps table c a)
        (on_callbacks-Keeps table cs (on_callback g i t d k table c a).1)

  Alike-refl : (x : Option (Struct f)) → Alike x x
  Alike-refl none = tt
  Alike-refl (some m) = refl

  Alike-Matches :
      (s : Option g.Wire) (x y : Option (Struct f))
      → Alike y x
      → Matches g i t d k v marshal_ok unmarshal_lem s x
      → Matches g i t d k v marshal_ok unmarshal_lem s y
  Alike-Matches s none none h m = m
  Alike-Matches s none (some _) h m = absurd h
  Alike-Matches s (some _) none h m = absurd h
  Alike-Matches none (some _) (some _) h m = absurd m
  Alike-Matches (some b) (some _) (some _) h (p, m₀, u, e, l) = (p, m₀, u, e, l ∙ sym h)

  on_row-Alike :
      (e : RowsEvent f) (models models' : Dict (Struct f)) (calls : List (Callback f))
      (table : Bytes)
      → on_row e models ≡ ok (calls, models')
      → Alike (lookup table models') (lookup table models)
  on_row-Alike e models models' calls table q = elim (Option-cases (lookup e.table models)) [
    | inl h ↦ rw ((on_row-none e models models' calls h q).1) (Alike-refl (lookup table models))
    | inr (m, h) ↦ elim (Bool-cases (eqb e.table table)) [
      | inl same_table ↦
          (let (m', h', same_layout) = on_row-layout e models models' m calls h q in
            let at_table = (eqb_iff e.table table).0 same_table in
            rw
              (
                ap (λ name. lookup name models') (sym at_table) ∙ h',
                ap (λ name. lookup name models) (sym at_table) ∙ h,
              )
              same_layout)
      | inr other ↦
          rw (on_row-others e models models' calls table other q) (Alike-refl (lookup table models))
    ]
  ]

  -- The models change to some of the same types, and the storage holds the same.
  Alike-Saved :
      (a a' : Api.Api g i t d k)
      → ((table : Bytes) → Alike (lookup table a'.data_models) (lookup table a.data_models))
      → Holds a.db_interface a'.db_interface
      → Saved a
      → Saved a'
  unfolding Holds
  Alike-Saved a a' alike holds s = record {
    sound = (holds s.sound).0;
    matches = λ table. rw ((holds s.sound).1 table) (
        Alike-Matches _ (lookup table a.data_models) (lookup table a'.data_models) (alike table)
          (s.matches table));
  }

  pub on_parsed-Saved :
      (e : RowsEvent f) (r : Result (List (Callback f) × Dict (Struct f))) (a : Api.Api g i t d k)
      → on_row e a.data_models ≡ r
      → Saved a
      → Saved (on_parsed g i t d k e.table r a).1
  unfolding on_parsed
  on_parsed-Saved e (ok (calls, models')) a q s =
      let kept = on_callbacks-Keeps e.table calls (record a { data_models = models' }) in
      Alike-Saved a _ (λ table. rw (kept.0) (on_row-Alike e a.data_models models' calls table q))
        kept.1 s
  on_parsed-Saved e (err _) a q s = s
  on_parsed-Saved e panic a q s = s
