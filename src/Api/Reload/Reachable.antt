-- ===== src/Api/Reload/Reachable.antt =====
-- What requests and events of the binlog leave of the data models.
use mysql_to_mssql.Base.{
  Bool, false, ◌≡◌, refl, sym, true, Bool-cases, inl, inr, Option, none, some, Result, ok, err,
  panic, arith,
}
use mathlib.Core.Path.{subst}
use mysql_to_mssql.Reflect.{Foreign, Struct}
use mysql_to_mssql.Db.Interface.{Interface}
use mysql_to_mssql.Db.Saves.{Saves}
use mysql_to_mssql.Server.Param.{StructRequest, StartParserRequest, StartSyncerRequest}
use mysql_to_mssql.Parser.Cells.{RowsEvent}
use mysql_to_mssql.Parser.Rows.{on_row}
use mysql_to_mssql.Syncer.Gob.{Gob}
use mysql_to_mssql.Syncer.Target.{Target}
use mysql_to_mssql.Syncer.Schedule
use mysql_to_mssql.Syncer.Schedule.{Worker, absent, waiting, stuck, ended, crashed, Service}
use mysql_to_mssql.Api.Models.{Dynamic}
use mysql_to_mssql.Api
use mysql_to_mssql.Parser.Wrapper.{EventHandlerWrapper}
use mysql_to_mssql.Api.Lifecycle.Stages.{start_parser-cases}
use mysql_to_mssql.Api.Lifecycle.{
  stop_syncer, stop_running, service_of, open_wrapper, start_parser, stop_wrapper, stop_parser,
  schedule_syncer, set_syncer, start_syncer, create_syncer, ticks,
}
use mysql_to_mssql.Api.{Packages, Running, bucket, put}
use mysql_to_mssql.Api.Events.{on_event}
use mysql_to_mssql.Api.Reload.Kept.{on_parsed-Saved}
use mysql_to_mssql.Api.Reload.{IsSaved, put-IsSaved}

module _ {f : Foreign} (g : Gob f) (i : Interface g.Wire) (t : Target f) (d : Dynamic)
    (k : Packages g.Wire) (v : Saves i)
    (marshal_ok : (p : StructRequest) → (b : g.Wire) × (k.marshal p ≡ ok b))
    (unmarshal_lem : (p : StructRequest) (b : g.Wire)
      → k.marshal p ≡ ok b
      → k.unmarshal b ≡ ok p) where
  abbrev Saved : Api.Api g i t d k → Type 0
  Saved = IsSaved g i t d k v marshal_ok unmarshal_lem

  -- Calls of the parser's and the syncer's life cycle do not touch the models.
  unchanged-Saved :
      (a a' : Api.Api g i t d k)
      → a'.data_models ≡ a.data_models
      → a'.db_interface ≡ a.db_interface
      → Saved a
      → Saved a'
  unchanged-Saved a a' models db s = record {
    sound = subst v.IsSound (sym db) s.sound;
    matches = λ table. rw (db, models) (s.matches table);
  }

  open_wrapper-unchanged :
      (w : Result (EventHandlerWrapper k.canals)) (a : Api.Api g i t d k)
      → Saved a
      → Saved (open_wrapper g i t d k w a).1
  unfolding open_wrapper
  open_wrapper-unchanged (ok w) a s = unchanged-Saved a _ refl refl s
  open_wrapper-unchanged (err e) a s = s
  open_wrapper-unchanged panic a s = s

  start_parser-Saved :
      (p : StartParserRequest) (a : Api.Api g i t d k)
      → Saved a
      → Saved (start_parser g i t d k p a).1
  start_parser-Saved p a s = elim (start_parser-cases g i t d k p a) [
    | inl e ↦
        rw e (
          open_wrapper-unchanged _ (record a { log_store = true })
            (unchanged-Saved a _ refl refl s))
    | inr e ↦ rw e s
  ]

  stop_wrapper-kept :
      (w : Option (EventHandlerWrapper k.canals)) (a : Api.Api g i t d k)
      → ((stop_wrapper g i t d k w a).1.data_models ≡ a.data_models)
        × ((stop_wrapper g i t d k w a).1.db_interface ≡ a.db_interface)
  unfolding stop_wrapper
  stop_wrapper-kept none a = (refl, refl)
  stop_wrapper-kept (some w) a = (ground arith, ground arith)

  stop_wrapper-Saved :
      (w : Option (EventHandlerWrapper k.canals)) (a : Api.Api g i t d k)
      → Saved a
      → Saved (stop_wrapper g i t d k w a).1
  stop_wrapper-Saved w a = let (models, db) = stop_wrapper-kept w a in unchanged-Saved a _ models db

  schedule_syncer-Saved :
      (r : Result (Running g i t d k)) (a : Api.Api g i t d k)
      → Saved a
      → Saved (schedule_syncer g i t d k r a).1
  unfolding schedule_syncer set_syncer
  schedule_syncer-Saved (ok r) a s = elim (Bool-cases (ticks r.interval)) [
    | inl e ↦ rw e (unchanged-Saved a _ refl refl s)
    | inr e ↦ rw e (unchanged-Saved a _ refl refl s)
  ]
  schedule_syncer-Saved (err e) a s = s
  schedule_syncer-Saved panic a s = s

  -- Stop touches the goroutine and the target only.
  stop_of-db :
      (w : Worker) (x : Service g i t) → (Schedule.stop_of g i t w x).1.world.db ≡ x.world.db
  unfolding Schedule.stop_of
  stop_of-db absent x = refl
  stop_of-db waiting x = refl
  stop_of-db stuck x = refl
  stop_of-db ended x = refl
  stop_of-db crashed x = refl

  stop_with-db :
      (signal : Bool) (x : Service g i t)
      → (Schedule.stop_with g i t signal x).1.world.db ≡ x.world.db
  unfolding Schedule.stop_with
  stop_with-db false x = refl
  stop_with-db true x = stop_of-db x.worker x

  stop_running-Saved :
      (r : Option (Running g i t d k)) (a : Api.Api g i t d k)
      → Saved a
      → Saved (stop_running g i t d k r a).1
  unfolding stop_running service_of Schedule.stop
  stop_running-Saved none a s = s
  stop_running-Saved (some r) a s =
      unchanged-Saved a _ refl (stop_with-db r.signal (service_of g i t d k r a)) s

  -- What the API can do, but for a Put that fails and for the scans of the log.
  pub data Step : Api.Api g i t d k → Api.Api g i t d k → Type 0 where
    puts :
        (a : Api.Api g i t d k) (p : StructRequest) (m : Struct f)
        → (put g i t d k p a).0 ≡ ok m
        → Step a (put g i t d k p a).1
    handles : (a : Api.Api g i t d k) (e : RowsEvent f) → Step a (on_event g i t d k e a).1
    starts_parser :
        (a : Api.Api g i t d k) (p : StartParserRequest) → Step a (start_parser g i t d k p a).1
    stops_parser : (a : Api.Api g i t d k) → Step a (stop_parser g i t d k a).1
    starts_syncer :
        (a : Api.Api g i t d k) (p : StartSyncerRequest) → Step a (start_syncer g i t d k p a).1
    stops_syncer : (a : Api.Api g i t d k) → Step a (stop_syncer g i t d k a).1

  pub data Reaches : Api.Api g i t d k → Api.Api g i t d k → Type 0 where
    rest : (a : Api.Api g i t d k) → Reaches a a
    step : (a b c : Api.Api g i t d k) → Step a b → Reaches b c → Reaches a c

  Step-Saved : {a b : Api.Api g i t d k} → Step a b → Saved a → Saved b
  unfolding stop_parser start_syncer stop_syncer on_event
  Step-Saved (puts a p m ends) s = put-IsSaved g i t d k v marshal_ok unmarshal_lem a p s ends
  Step-Saved (handles a e) s =
      on_parsed-Saved g i t d k v marshal_ok unmarshal_lem e (on_row e a.data_models) a refl s
  Step-Saved (starts_parser a p) s = start_parser-Saved p a s
  Step-Saved (stops_parser a) s = stop_wrapper-Saved a.event_wrapper a s
  Step-Saved (starts_syncer a p) s = schedule_syncer-Saved (create_syncer g i t d k p a) a s
  Step-Saved (stops_syncer a) s = stop_running-Saved a.syncer a s

  -- Where JSON encodes every request and reads it back: however often models are put without
  -- error, events of the binlog are handled, with whatever outcome, and the parser and the syncer
  -- are started and stopped, if the models in memory were those in the storage, they
  -- still are, up to the values of their fields.
  pub Reaches-IsSaved :
      {a b : Api.Api g i t d k}
      → Reaches a b
      → IsSaved g i t d k v marshal_ok unmarshal_lem a
      → IsSaved g i t d k v marshal_ok unmarshal_lem b
  Reaches-IsSaved (rest a) s = s
  Reaches-IsSaved (step a b c first later) s = Reaches-IsSaved later (Step-Saved first s)
