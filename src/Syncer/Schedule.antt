-- ===== src/Syncer/Schedule.antt =====
-- syncer/store_service.go: Schedule and Stop, as steps of the goroutine and of its callers.
pub mod Stops
use mysql_to_mssql.Base.{◌≡◌, refl, Bool, true, false, List, [], ◌∷◌, Bytes, codes}
use mysql_to_mssql.Reflect.{Foreign, Struct}
use mysql_to_mssql.Db.Interface.{Interface}
use mysql_to_mssql.Syncer.Gob.{Gob}
use mysql_to_mssql.Syncer.Target.{Target}
use mysql_to_mssql.Syncer.Writer.{close}
use mysql_to_mssql.Syncer.Service.{Progress, next, blocked, panicked, World, sync_all_models}

-- The goroutine: none; at its select; at a send on the quit channel that nobody receives; ended;
-- or it panicked, which ends the process.
pub data Worker : Type 0 where
  absent waiting stuck ended crashed : Worker

-- What a caller of Stop sees: nil, an error, or no return.
pub data Reply : Type 0 where
  stopped : Reply
  failed : Bytes → Reply
  no_return : Reply

module _ {f : Foreign} (g : Gob f) (i : Interface g.Wire) (t : Target f) where
  -- `signal`: syncQuitSignal is not nil.
  pub record Service : Type 0 where
    pub world : World g i t
    pub worker : Worker
    pub signal : Bool

  -- For a service with no goroutine: a second goroutine beside the first is not tracked.
  unfoldable pub schedule : Service → Service
  schedule s = record s { worker = waiting; signal = true }

  -- The state of the goroutine behind a scan.
  unfoldable pub worker_after : Progress → Worker
  worker_after next = waiting
  worker_after blocked = stuck
  worker_after panicked = crashed

  unfoldable pub tick_of : Worker → List (Bytes × Struct f) → Service → Service
  tick_of waiting models s =
      let (p, w) = sync_all_models g i t false models s.world in
      record s { world = w; worker = worker_after p }
  tick_of _ models s = s

  -- The ticker fires: seen only by a goroutine at its select.
  unfoldable pub tick : List (Bytes × Struct f) → Service → Service
  tick models s = tick_of s.worker models s

  -- The send of Stop meets the goroutine at its select, or blocks.
  unfoldable pub stop_of : Worker → Service → Reply × Service
  stop_of waiting s = (
    stopped,
    record s {
      world = record (s.world) { syncer = close t s.world.syncer };
      worker = ended;
      signal = false;
    },
  )
  stop_of _ s = (no_return, s)

  -- An error if there is no signal.
  unfoldable pub stop_with : Bool → Service → Reply × Service
  stop_with false s = (failed (codes "Syncer is closed, or has not been started"), s)
  stop_with true s = stop_of s.worker s

  unfoldable pub stop : Service → Reply × Service
  stop s = stop_with s.signal s
