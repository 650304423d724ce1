-- ===== src/Api/Lifecycle/Restart.antt =====
-- A syncer that is started again, and the intervals that a ticker takes.
use mysql_to_mssql.Base.{
  ◌≢◌, ℕ, ◌*◌, ◌%◌, ◌^◌, leb, ◌==◌, ◌≤◌, ◌≡◌, refl, Bool, true, false, Bool-cases, inl, inr,
  if◌then◌else◌, ◌∷◌, some, length, pos, Result, ok, err, panic, arith,
}
use mysql_to_mssql.Reflect.{Foreign}
use mysql_to_mssql.Db.Interface.{Interface}
use mysql_to_mssql.Syncer.Gob.{Gob}
use mysql_to_mssql.Syncer.Target.{Target}
use mysql_to_mssql.Syncer.Writer.{Syncer, new_syncer}
use mysql_to_mssql.Syncer.Schedule
use mysql_to_mssql.Syncer.Service.{World, sync_all_models}
use mysql_to_mssql.Syncer.Schedule.{Reply, stopped, failed, waiting}
use mysql_to_mssql.Server.Param.{StartSyncerRequest}
use mysql_to_mssql.Api.Models.{Dynamic}
use mysql_to_mssql.Api.{Packages, Running, Api, interval_of, target_config}
use mysql_to_mssql.Api.Lifecycle.{
  nanoseconds, ticks, schedule_syncer, start_syncer, create_syncer, set_syncer, given_up, tick_left,
  tick_running, is_live, stop_syncer, stop_running, running_of, service_of,
}

if-result :
    {S : Type 0} (c : Bool) (x y : Result (Unit {0}) × S)
    → (if c then x else y).0 ≡ (if c then x.0 else y.0)
if-result true x y = refl
if-result false x y = refl

product_small : (n : ℕ) → n ≤ 18446744073 → n * 1000000000 % 2 ^ 64 ≡ n * 1000000000
product_small n h = omega arith

ticks-leb : (n : ℕ) → n ≤ 18446744073 → ticks (interval_of (pos n)) ≡ leb n 9223372036
unfolding ticks nanoseconds interval_of
ticks-leb n h = ground arith

module _ {f : Foreign} (g : Gob f) (i : Interface g.Wire) (t : Target f) (d : Dynamic)
    (k : Packages g.Wire) where
  not_scheduled :
      (r : Running g i t d k) (a : Api g i t d k)
      → ticks r.interval ≡ false
      → (schedule_syncer g i t d k (ok r) a).0 ≢ ok tt
  unfolding schedule_syncer
  not_scheduled r a e h = cc

  -- A scan by a syncer.
  abbrev pub scan_by : Running g i t d k → Api g i t d k → World g i t
  scan_by r a =
      (sync_all_models g i t false a.data_models
        (record { db = a.db_interface; syncer = r.syncer })).1

  -- A Stop has returned nil, and the first goroutine that was given up scans at its next tick.
  abbrev pub ScansOn : Running g i t d k → Api g i t d k → Result Reply × Api g i t d k → Type 0
  ScansOn old a (reply, a') =
      (reply ≡ ok stopped)
      × ((tick_left g i t d k a'.left 0 a').1 ≡ (scan_by old a).db)
      × ((end : Running g i t d k) × ((tick_left g i t d k a'.left 0 a').0 ≡ end ∷ a.left)
          × (end.syncer ≡ (scan_by old a).syncer))

  schedule_syncer-ScansOn :
      (x : Result (Running g i t d k)) (a : Api g i t d k) (old : Running g i t d k)
      → a.syncer ≡ some old
      → old.worker ≡ waiting
      → (schedule_syncer g i t d k x a).0 ≡ ok tt
      → ScansOn old a (stop_syncer g i t d k (schedule_syncer g i t d k x a).1)
  unfolding schedule_syncer set_syncer given_up is_live stop_syncer stop_running running_of
      service_of tick_left tick_running Schedule.tick Schedule.tick_of Schedule.schedule
      Schedule.stop Schedule.stop_with Schedule.stop_of
  schedule_syncer-ScansOn (err e) a old s w h = cc
  schedule_syncer-ScansOn panic a old s w h = cc
  schedule_syncer-ScansOn (ok r) a old s w h = elim (Bool-cases (ticks r.interval)) [
    | inl e ↦ rw (e, s, w) (refl, refl, (_, refl, refl))
    | inr e ↦ absurd (not_scheduled r a e h)
  ]

  -- A syncer that is started, with no panic, while the goroutine of the one before waits for its
  -- ticker: a Stop afterwards returns nil, and yet, at its next tick, the old goroutine scans the
  -- log: the storage and its connection to the target are left as by a scan of the old syncer.
  pub start_syncer-ScansOn :
      (p : StartSyncerRequest) (a : Api g i t d k) (old : Running g i t d k)
      → a.syncer ≡ some old
      → old.worker ≡ waiting
      → (start_syncer g i t d k p a).0 ≡ ok tt
      → ScansOn old a (stop_syncer g i t d k (start_syncer g i t d k p a).1)
  unfolding start_syncer
  start_syncer-ScansOn p a = schedule_syncer-ScansOn (create_syncer g i t d k p a) a

  -- With models, a log store and a target that can be reached, StartSyncer with an interval of `n`
  -- seconds, where `n` is at most 18446744073, ends well if `n` is at most 9223372036, and in a
  -- panic of the ticker otherwise.
  pub start_syncer-interval :
      (p : StartSyncerRequest) (a : Api g i t d k) (s : Syncer t) (n : ℕ)
      → (length a.data_models == 0) ≡ false
      → a.log_store ≡ true
      → new_syncer t (target_config p) ≡ ok s
      → p.interval ≡ pos n
      → n ≤ 18446744073
      → (start_syncer g i t d k p a).0 ≡ (if leb n 9223372036 then ok tt else panic)
  unfolding start_syncer create_syncer schedule_syncer
  start_syncer-interval p a s n models logs connected interval h =
      rw (models, logs, connected, interval, ticks-leb n h) (if-result (leb n 9223372036) _ _)
