-- ===== src/Api/Lifecycle.antt =====
-- server/API/api.go: the start and the end of the parser and of the syncer.
pub mod Restart
pub mod Stages
use mysql_to_mssql.Base.{
  ℕ, zero, suc, ◌+◌, ◌-◌, ◌*◌, ◌%◌, ◌^◌, ltb, ◌==◌, ◌&&◌, Bool, true, false, if◌then◌else◌, List,
  [], ◌∷◌, Option, none, some, Bytes, codes, length, ℤ, pos, negsuc, Result, ok, err, panic, ◌>>=◌,
  Call,
}
use mysql_to_mssql.Reflect.{Foreign}
use mysql_to_mssql.Db.Interface.{Interface}
use mysql_to_mssql.Parser.Wrapper.{EventHandlerWrapper, new_event_wrapper}
use mysql_to_mssql.Parser.Wrapper
use mysql_to_mssql.Syncer.Gob.{Gob}
use mysql_to_mssql.Syncer.Store.{new_store}
use mysql_to_mssql.Syncer.Target.{Target}
use mysql_to_mssql.Syncer.Writer
use mysql_to_mssql.Syncer.Writer.{Syncer, new_syncer}
use mysql_to_mssql.Syncer.Service.{World}
use mysql_to_mssql.Syncer.Schedule
use mysql_to_mssql.Syncer.Schedule.{
  Worker, stuck, absent, waiting, Reply, stopped, failed, no_return, Service,
}
use mysql_to_mssql.Server.Param.{StartParserRequest, StartSyncerRequest}
use mysql_to_mssql.Api.Models.{Dynamic}
use mysql_to_mssql.Api.{Packages, create_parser_config, target_config, interval_of, Running, Api}

-- time.NewTicker(time.Duration(interval) * time.Second) panics unless the product, which wraps at
-- 64 bits, is positive.
unfoldable pub nanoseconds : ℤ → ℕ
nanoseconds (pos n) = n * 1000000000 % 2 ^ 64
nanoseconds (negsuc n) = (2 ^ 64 - (n + 1) * 1000000000 % 2 ^ 64) % 2 ^ 64

unfoldable pub ticks : ℤ → Bool
ticks z = ltb 0 (nanoseconds z) && ltb (nanoseconds z) (2 ^ 63)

-- There is a goroutine that has not ended.
unfoldable pub is_live : Worker → Bool
is_live waiting = true
is_live stuck = true
is_live _ = false

module _ {f : Foreign} (g : Gob f) (i : Interface g.Wire) (t : Target f) (d : Dynamic)
    (k : Packages g.Wire) where
  -- The wrapper's goroutine runs start_binlog_listener.
  unfoldable pub open_wrapper : Result (EventHandlerWrapper k.canals) → Call (Api g i t d k) Unit
  open_wrapper (ok w) a = (ok tt, record a { event_wrapper = some w })
  open_wrapper (err e) a = (err e, a)
  open_wrapper panic a = (panic, a)

  -- The log store is set before the wrapper is made.
  unfoldable pub start_parser : StartParserRequest → Call (Api g i t d k) Unit
  start_parser p a = elim (new_store g i a.db_interface a.data_models) [
    | ok _ ↦
        open_wrapper (create_parser_config k p >>= λ cfg. new_event_wrapper k.canals cfg)
          (record a { log_store = true })
    | _ ↦ (panic, a)
  ]

  unfoldable pub stop_wrapper : Option (EventHandlerWrapper k.canals) → Call (Api g i t d k) Unit
  stop_wrapper none a = (err (codes "Parser is closed, or has not been started"), a)
  stop_wrapper (some w) a = elim (Wrapper.close k.canals w) [
    | ok _ ↦ (ok tt, record a { event_wrapper = none })
    | _ ↦ (panic, a)
  ]

  unfoldable pub stop_parser : Call (Api g i t d k) Unit
  stop_parser a = stop_wrapper a.event_wrapper a

  -- A panic without data models or without a log store.
  unfoldable pub create_syncer : StartSyncerRequest → Api g i t d k → Result (Running g i t d k)
  create_syncer p a =
      if length a.data_models == 0
      then panic
      else if a.log_store
      then (new_syncer t (target_config p) >>= λ s. ok (record {
        syncer = s;
        worker = absent;
        signal = false;
        interval = interval_of p.interval;
      }))
      else panic

  -- The syncer that the API had is given up, with its goroutine if that has not ended.
  unfoldable pub given_up :
      Option (Running g i t d k) → List (Running g i t d k) → List (Running g i t d k)
  given_up none left = left
  given_up (some r) left = if is_live r.worker then r ∷ left else left

  unfoldable pub set_syncer : Running g i t d k → Api g i t d k → Api g i t d k
  set_syncer r a = record a { syncer = some r; left = given_up a.syncer a.left }

  -- What Schedule and Stop work on.
  unfoldable pub service_of : Running g i t d k → Api g i t d k → Service g i t
  service_of r a = record {
    world = record { db = a.db_interface; syncer = r.syncer };
    worker = r.worker;
    signal = r.signal;
  }

  unfoldable pub running_of : ℤ → Service g i t → Running g i t d k
  running_of interval s = record {
    syncer = s.world.syncer;
    worker = s.worker;
    signal = s.signal;
    interval = interval;
  }

  -- StartSyncer behind createSyncer: Schedule, which makes the ticker first.
  unfoldable pub schedule_syncer : Result (Running g i t d k) → Call (Api g i t d k) Unit
  schedule_syncer (ok r) a =
      if ticks r.interval
      then (ok tt, set_syncer (running_of r.interval (Schedule.schedule g i t (service_of r a))) a)
      else (panic, set_syncer r a)
  schedule_syncer (err e) a = (err e, a)
  schedule_syncer panic a = (panic, a)

  unfoldable pub start_syncer : StartSyncerRequest → Call (Api g i t d k) Unit
  start_syncer p a = schedule_syncer (create_syncer p a) a

  -- Close follows a Stop that returned nil.
  unfoldable pub close_stopped : Reply → Syncer t → Syncer t
  close_stopped stopped s = Writer.close t s
  close_stopped _ s = s

  -- A nil syncer is a panic. The result is what a caller of Stop sees.
  unfoldable pub stop_running : Option (Running g i t d k) → Call (Api g i t d k) Reply
  stop_running none a = (panic, a)
  stop_running (some r) a =
      let (reply, s) = Schedule.stop g i t (service_of r a) in
      let r' = running_of r.interval s in
      (
        ok reply,
        record a {
          db_interface = s.world.db;
          syncer = some (record r' { syncer = close_stopped reply r'.syncer });
        },
      )

  unfoldable pub stop_syncer : Call (Api g i t d k) Reply
  stop_syncer a = stop_running a.syncer a

  -- A tick of a goroutine: a scan with the API's models.
  unfoldable pub tick_running : Running g i t d k → Api g i t d k → Running g i t d k × i.State
  tick_running r a =
      let s = Schedule.tick g i t a.data_models (service_of r a) in
      (running_of r.interval s, s.world.db)

  unfoldable pub tick_current : Option (Running g i t d k) → Api g i t d k → Api g i t d k
  tick_current none a = a
  tick_current (some r) a =
      let (r', db) = tick_running r a in record a { syncer = some r'; db_interface = db }

  unfoldable pub tick : Api g i t d k → Api g i t d k
  tick a = tick_current a.syncer a

  -- A tick of the goroutine of a syncer that was given up.
  unfoldable pub tick_left :
      List (Running g i t d k) → ℕ → Api g i t d k → List (Running g i t d k) × i.State
  tick_left [] n a = ([], a.db_interface)
  tick_left (r ∷ rs) zero a = let (r', db) = tick_running r a in (r' ∷ rs, db)
  tick_left (r ∷ rs) (suc n) a = let (rs', db) = tick_left rs n a in (r ∷ rs', db)
