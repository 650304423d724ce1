-- ===== src/Api/Events/Pipeline.antt =====
-- From a rows event of the binlog to the target.
use mysql_to_mssql.Base.{
  ℕ, ◌≤◌, ◌<◌, ◌≡◌, refl, sym, ap, ◌∙◌, true, false, List, [], ◌∷◌, map, some, Bytes, Dict, lookup,
  length, All, Result, ok,
}
use mysql_to_mssql.Base.Calls.{after-eq-ok}
use mysql_to_mssql.Reflect.{Foreign, Struct}
use mysql_to_mssql.Db.Interface.{Interface}
use mysql_to_mssql.Parser.Cells.{RowsEvent}
use mysql_to_mssql.Parser.Rows.{Callback, on_insert, on_update, on_delete, on_row}
use mysql_to_mssql.Parser.Rows.Events.{CallTyped, on_row-CallTyped, on_row-layout}
use mysql_to_mssql.Syncer.Gob.{Gob, layout}
use mysql_to_mssql.Syncer.Store.{bucket}
use mysql_to_mssql.Syncer.Store.RoundTrip.{Event, inserted, updated, deleted}
use mysql_to_mssql.Syncer.Target.{Target}
use mysql_to_mssql.Syncer.Writer.{Syncer}
use mysql_to_mssql.Syncer.Service.{next, sync_table}
use mysql_to_mssql.Syncer.Service.Delivery.{log_event, log_all, deliver, AllTyped}
use mysql_to_mssql.Syncer.Service.Applied.{sync_table-deliver}
use mysql_to_mssql.Api.Models.{Dynamic}
use mysql_to_mssql.Api.{Packages, Api}
use mysql_to_mssql.Api.Events.{dropped, logged, on_callback, on_callbacks, on_parsed, on_event}

-- The change that a call of the handler reports.
abbrev pub change_of : {f : Foreign} → Callback f → Event f
change_of (on_insert m) = inserted m
change_of (on_update old new) = updated old new
change_of (on_delete m) = deleted m

module _ {f : Foreign} (g : Gob f) (i : Interface g.Wire) (t : Target f) (d : Dynamic)
    (k : Packages g.Wire) where
  pub changes-AllTyped :
      (table : Bytes) (p p' : Struct f) (calls : List (Callback f))
      → layout p' ≡ layout p
      → All (CallTyped p) calls
      → AllTyped g i t table p' (map change_of calls)
  changes-AllTyped table p p' [] e h = tt
  changes-AllTyped table p p' (on_insert m ∷ cs) e h =
      (e ∙ sym h.0, changes-AllTyped table p p' cs e h.1)
  changes-AllTyped table p p' (on_update old new ∷ cs) e h =
      ((e ∙ sym h.0.0, e ∙ sym h.0.1), changes-AllTyped table p p' cs e h.1)
  changes-AllTyped table p p' (on_delete m ∷ cs) e h =
      (e ∙ sym h.0, changes-AllTyped table p p' cs e h.1)

  -- Calls of the handler are calls of the log, as long as these end well.
  on_callback-log_event :
      (table : Bytes) (c : Callback f) (a : Api g i t d k)
      → a.log_store ≡ true
      → (log_event g i t table (change_of c) a.db_interface).0 ≡ ok tt
      → on_callback g i t d k table c a ≡ (
        ok tt,
        record a { db_interface = (log_event g i t table (change_of c) a.db_interface).1 },
      )
  unfolding on_callback logged dropped log_event
  on_callback-log_event table (on_insert m) a s h = rw (s, h) refl
  on_callback-log_event table (on_update old new) a s h = rw (s, h) refl
  on_callback-log_event table (on_delete m) a s h = rw (s, h) refl

  on_callbacks-log_all :
      (table : Bytes) (calls : List (Callback f)) (a : Api g i t d k)
      → a.log_store ≡ true
      → (log_all g i t table (map change_of calls) a.db_interface).0 ≡ ok tt
      → on_callbacks g i t d k table calls a ≡ (
        ok tt,
        record a { db_interface = (log_all g i t table (map change_of calls) a.db_interface).1 },
      )
  unfolding on_callbacks log_all
  on_callbacks-log_all table [] a s h = refl
  on_callbacks-log_all table (c ∷ cs) a s h =
      let (u, h₁, h₂) =
        after-eq-ok (log_event g i t table (change_of c) a.db_interface)
          (λ _ db'. log_all g i t table (map change_of cs) db') h in
      let db' = (log_event g i t table (change_of c) a.db_interface).1 in
      rw (on_callback-log_event table c a s h₁, h₂)
        (on_callbacks-log_all table cs (record a { db_interface = db' }) s
          (sym (ap (λ (z : Result (Unit {0}) × i.State). z.0) h₂) ∙ h))

  -- A rows event that is parsed and logged without error.
  pub on_event-log_all :
      (e : RowsEvent f) (a : Api g i t d k) (calls : List (Callback f)) (models' : Dict (Struct f))
      → a.log_store ≡ true
      → on_row e a.data_models ≡ ok (calls, models')
      → (log_all g i t e.table (map change_of calls) a.db_interface).0 ≡ ok tt
      → on_event g i t d k e a ≡ (
        ok tt,
        record a {
          data_models = models';
          db_interface = (log_all g i t e.table (map change_of calls) a.db_interface).1;
        },
      )
  unfolding on_event on_parsed
  on_event-log_all e a calls models' s r h =
      rw r (on_callbacks-log_all e.table calls (record a { data_models = models' }) s h)

module _ {f : Foreign} (g : Gob f) (i : Interface g.Wire) (t : Target f) (d : Dynamic)
    (k : Packages g.Wire)
    (sizes : (b key : Bytes) (db : i.State) → (n : ℕ) × ((i.size b key db).0 ≡ ok n))
    (lists : (b key : Bytes) (db : i.State)
      → (l : List g.Wire) × ((i.get_all_key b key db).0 ≡ ok l))
    (rems : (b key : Bytes) (n : ℕ) (db : i.State)
      → 0 < n
      → n ≤ length (i.queue db b key)
      → (i.rem b key n db).0 ≡ ok tt) where
  -- What a scan of a table comes to, for a syncer `s` and the changes `evs`.
  abbrev pub Synced : Bytes → Struct f → i.State → Syncer t → List (Event f) → Type 0
  Synced table p db s evs =
      ((sync_table g i t false table p (record { db = db; syncer = s })).0 ≡ next)
      × ((sync_table g i t false table p (record { db = db; syncer = s })).1.syncer
          ≡ (deliver g i t table evs (s, 0)).1.0)
      × (i.queue (sync_table g i t false table p (record { db = db; syncer = s })).1.db bucket table
          ≡ [])

  -- Where no operation of the storage fails, the parser is started, and the log of a table with a
  -- model is empty: if a rows event of the table is parsed and its changes are logged without
  -- error, and none of them fails at the target, then the handling of the event ends well and
  -- leaves the table a model with which the next scan applies these changes, in order, and
  -- empties the log.
  pub on_event-sync_table :
      (e : RowsEvent f) (a : Api g i t d k) (p : Struct f) (calls : List (Callback f))
      (models' : Dict (Struct f)) (s : Syncer t)
      → a.log_store ≡ true
      → lookup e.table a.data_models ≡ some p
      → i.queue a.db_interface bucket e.table ≡ []
      → on_row e a.data_models ≡ ok (calls, models')
      → (log_all g i t e.table (map change_of calls) a.db_interface).0 ≡ ok tt
      → (deliver g i t e.table (map change_of calls) (s, 0)).0 ≡ ok tt
      → ((on_event g i t d k e a).0 ≡ ok tt)
        × ((p' : Struct f) × (lookup e.table (on_event g i t d k e a).1.data_models ≡ some p')
            × Synced e.table p' (on_event g i t d k e a).1.db_interface s (map change_of calls))
  on_event-sync_table e a p calls models' s started found empty parsed_ok logged_ok delivered =
      let evs = map change_of calls in
      let (p', left, same_type) = on_row-layout e a.data_models models' p calls found parsed_ok in
      let typed =
        changes-AllTyped g i t d k e.table p p' calls same_type
          (on_row-CallTyped e a.data_models models' p calls found parsed_ok) in
      rw (on_event-log_all g i t d k e a calls models' started parsed_ok logged_ok) (
        refl,
        (
          p',
          left,
          sync_table-deliver g i t sizes lists rems e.table p' evs a.db_interface s typed empty
              logged_ok delivered,
        ),
      )
