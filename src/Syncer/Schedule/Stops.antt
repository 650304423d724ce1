-- ===== src/Syncer/Schedule/Stops.antt =====
-- Stopping the schedule, and what a failed scan does to it.
use mysql_to_mssql.Base.{◌≡◌, refl, true, false, List, [], ◌∷◌, Bytes, codes, arith}
use mysql_to_mssql.Reflect.{Foreign, Struct}
use mysql_to_mssql.Db.Interface.{Interface}
use mysql_to_mssql.Syncer.Gob.{Gob}
use mysql_to_mssql.Syncer.Target.{Target}
use mysql_to_mssql.Syncer.Service.{World, blocked, sync_all_models}
use mysql_to_mssql.Syncer.Schedule.{
  Worker, waiting, stuck, ended, stopped, failed, no_return, Service, worker_after, tick_of, tick,
  stop_of, stop_with, stop,
}

-- What may happen to a service that is scheduled.
pub data Happening (f : Foreign) : Type 0 where
  ticked : List (Bytes × Struct f) → Happening f
  asked : Happening f

module _ {f : Foreign} (g : Gob f) (i : Interface g.Wire) (t : Target f) where
  unfoldable pub run : List (Happening f) → Service g i t → Service g i t
  run [] s = s
  run (ticked models ∷ rest) s = run rest (tick g i t models s)
  run (asked ∷ rest) s = run rest (stop g i t s).1

  -- A service in the given world whose goroutine is alive, at its select or not.
  abbrev pub alive : Worker → World g i t → Service g i t
  alive worker w = record { world = w; worker = worker; signal = true }

  run_stuck : (hs : List (Happening f)) (w : World g i t) → run hs (alive stuck w) ≡ alive stuck w
  unfolding run tick tick_of stop stop_with stop_of
  run_stuck [] w = refl
  run_stuck (ticked models ∷ hs) w = run_stuck hs w
  run_stuck (asked ∷ hs) w = run_stuck hs w

  -- A scan that blocks ends the service: however often the ticker fires and Stop is called
  -- afterwards, nothing more is synced, and no call of Stop returns.
  pub blocked_is_final :
      (models : List (Bytes × Struct f)) (hs : List (Happening f)) (w : World g i t)
      → (sync_all_models g i t false models w).0 ≡ blocked
      → ((run hs (tick g i t models (alive waiting w))).world
          ≡ (sync_all_models g i t false models w).1)
        × ((stop g i t (run hs (tick g i t models (alive waiting w)))).0 ≡ no_return)
  unfolding tick tick_of worker_after stop stop_with stop_of
  blocked_is_final models hs w e =
      let w' = (sync_all_models g i t false models w).1 in
      rw (e, worker_after, run_stuck hs w') (refl, refl)

  -- A Stop that returns nil has ended the goroutine, and the next Stop is an error and changes
  -- nothing.
  pub stop-stop :
      (s : Service g i t)
      → (stop g i t s).0 ≡ stopped
      → ((stop g i t s).1.worker ≡ ended)
        × (stop g i t (stop g i t s).1
            ≡ (failed (codes "Syncer is closed, or has not been started"), (stop g i t s).1))
  unfolding stop stop_with stop_of
  stop-stop s h = ground arith
