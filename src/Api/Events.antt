-- ===== src/Api/Events.antt =====
-- server/API/api.go: the API as the handler of the parser's events.
pub mod Pipeline
use mysql_to_mssql.Base.{
  Bool, true, false, if◌then◌else◌, List, [], ◌∷◌, Bytes, Dict, Result, ok, err, panic, Call,
}
use mysql_to_mssql.Base.Calls.{after}
use mysql_to_mssql.Reflect.{Foreign, Struct}
use mysql_to_mssql.Db.Interface.{Interface}
use mysql_to_mssql.Parser.Cells.{RowsEvent}
use mysql_to_mssql.Parser.Rows.{Callback, on_insert, on_update, on_delete, on_row}
use mysql_to_mssql.Syncer.Gob.{Gob}
use mysql_to_mssql.Syncer.Store.{log_insert, log_update, log_delete}
use mysql_to_mssql.Syncer.Target.{Target}
use mysql_to_mssql.Api.Models.{Dynamic}
use mysql_to_mssql.Api.{Packages, Api}

module _ {f : Foreign} (g : Gob f) (i : Interface g.Wire) (t : Target f) (d : Dynamic)
    (k : Packages g.Wire) where
  -- An error is written to the console, and the event is lost.
  unfoldable pub dropped : Result (Unit {0}) → Result (Unit {0})
  dropped (ok _) = ok tt
  dropped (err e) = ok tt
  dropped panic = panic

  -- A call of the log store, which is a panic if it is nil.
  unfoldable pub logged : Call i.State Unit → Call (Api g i t d k) Unit
  logged call a =
      if a.log_store
      then (let (r, db) = call a.db_interface in (dropped r, record a { db_interface = db }))
      else (panic, a)

  -- OnInsert, OnUpdate and OnDelete.
  unfoldable pub on_callback : Bytes → Callback f → Call (Api g i t d k) Unit
  on_callback table (on_insert m) = logged (log_insert g i table m)
  on_callback table (on_update old new) = logged (log_update g i table old new)
  on_callback table (on_delete m) = logged (log_delete g i table m)

  unfoldable pub on_callbacks : Bytes → List (Callback f) → Call (Api g i t d k) Unit
  on_callbacks table [] a = (ok tt, a)
  on_callbacks table (c ∷ cs) a = after (on_callback table c a) (λ _ a'. on_callbacks table cs a')

  -- A rows event: OnRow of the parser, whose models are the API's. The rows are parsed before the
  -- first is logged, which makes no difference where OnRow ends well, since each is a copy; where
  -- it panics, the rows before the panic are not logged here.
  unfoldable pub on_parsed :
      Bytes → Result (List (Callback f) × Dict (Struct f)) → Call (Api g i t d k) Unit
  on_parsed table (ok (calls, models)) a =
      on_callbacks table calls (record a { data_models = models })
  on_parsed table (err e) a = (err e, a)
  on_parsed table panic a = (panic, a)

  unfoldable pub on_event : RowsEvent f → Call (Api g i t d k) Unit
  on_event e a = on_parsed e.table (on_row e a.data_models) a
