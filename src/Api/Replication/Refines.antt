-- ===== src/Api/Replication/Refines.antt =====
-- The API does what the abstract program does.
use mysql_to_mssql.Base.{
  Distinct-All, ℕ, ◌≤◌, ◌<◌, ◌≡◌, refl, sym, false, List, [], ◌∷◌, Option, some, none, Bytes, ok,
  length, some-injective,
}
use mysql_to_mssql.Base.Calls.{after-ok}
use mathlib.Core.Path.{subst}
use mysql_to_mssql.Reflect.{Foreign}
use mysql_to_mssql.Db.Interface.{Interface}
use mysql_to_mssql.Syncer.Gob.{Gob}
use mysql_to_mssql.Syncer.Store.{encode_bytes}
use mysql_to_mssql.Syncer.Store.RoundTrip.{Event, record_of}
use mysql_to_mssql.Syncer.Target.{Target}
use mysql_to_mssql.Syncer.Writer.{Syncer}
use mysql_to_mssql.Syncer.Service.{Progress, World, sync_all_models}
use mysql_to_mssql.Syncer.Service.Delivery.{AllTyped}
use mysql_to_mssql.Syncer.Schedule
use mysql_to_mssql.Syncer.Schedule.{waiting, worker_after, Service}
use mysql_to_mssql.Api.Models.{Dynamic}
use mysql_to_mssql.Api.{Packages, Api, Running}
use mysql_to_mssql.Api.Lifecycle.{tick, tick_current, tick_running, running_of, service_of}
use mysql_to_mssql.Api.Replication.{
  Input, arrives, ticks, Pending, Replica, drain, drained, replicate, replicate_on, replicate_all,
  run, run_all, Replicates,
}
use mysql_to_mssql.Api.Replication.Scans.{sync_all_models-Scanned, drain-AllTyped}
use mysql_to_mssql.Api.Replication.Events.{on_event-Replicates}

module _ {f : Foreign} (g : Gob f) (i : Interface g.Wire) (t : Target f) (d : Dynamic)
    (k : Packages g.Wire) where
  pub drained-parts :
      (z : Option (Pending f × Syncer t)) (r r' : Replica g i t)
      → drained g i t z r ≡ some r'
      → (y : Pending f × Syncer t) × (z ≡ some y) × (r' ≡ record r { pending = y.0; syncer = y.1 })
  drained-parts none r r' h = cc
  drained-parts (some y) r r' h = (y, refl, sym (some-injective h))

  -- The syncer's goroutine behind a scan.
  scanned : Running g i t d k → Progress × World g i t → Api g i t d k → Api g i t d k
  scanned r (p, w) a = record a {
    syncer = some (record r { syncer = w.syncer; worker = worker_after g i t p });
    db_interface = w.db;
  }

  tick-scanned :
      (r : Running g i t d k) (a : Api g i t d k)
      → a.syncer ≡ some r
      → r.worker ≡ waiting
      → tick g i t d k a
        ≡ scanned r
            (sync_all_models g i t false a.data_models
              (record { db = a.db_interface; syncer = r.syncer }))
            a
  unfolding tick tick_current tick_running running_of service_of Schedule.tick Schedule.tick_of
      scanned
  tick-scanned r a e e' = rw (e, e') refl

  module _ (sizes : (b k : Bytes) (db : i.State) → (n : ℕ) × ((i.size b k db).0 ≡ ok n))
      (lists : (b k : Bytes) (db : i.State) → (l : List g.Wire) × ((i.get_all_key b k db).0 ≡ ok l))
      (rems : (b k : Bytes) (n : ℕ) (db : i.State)
        → 0 < n
        → n ≤ length (i.queue db b k)
        → (i.rem b k n db).0 ≡ ok tt)
      (pushes : (b key : Bytes) (w : g.Wire) (db : i.State) → (i.push b key w db).0 ≡ ok tt)
      (encodes : (ev : Event f) → (w : g.Wire) × (encode_bytes g (record_of ev) ≡ ok w)) where
    tick-Replicates :
        (a : Api g i t d k) (r r' : Replica g i t)
        → drained g i t (drain g i t r.models r.pending r.syncer) r ≡ some r'
        → Replicates g i t d k a r
        → Replicates g i t d k (tick g i t d k a) r'
    unfolding scanned
    tick-Replicates a r r' h s =
        let (z, drains, r'_is) = drained-parts (drain g i t r.models r.pending r.syncer) r r' h in
        let w : World g i t = record { db = a.db_interface; syncer = s.running.syncer } in
        let x = sync_all_models g i t false a.data_models w in
        let (goes_on, syncer, encoded') =
          sync_all_models-Scanned g i t sizes lists rems a.data_models r.pending w z
            (rw s.same_models (
              Distinct-All (λ name p. AllTyped g i t name p (r.pending name)) r.models s.distinct
                s.typed))
            s.encoded (rw (s.same_models, s.same_target) drains) in
        rw (r'_is, tick-scanned s.running a s.starts s.waits)
          (record {
            running = record (s.running) { syncer = x.1.syncer; worker = worker_after g i t x.0 };
            starts = refl;
            waits = rw goes_on (unfold worker_after in refl);
            logs = s.logs;
            same_target = syncer;
            same_models = s.same_models;
            distinct = s.distinct;
            encoded = encoded';
            typed = λ name p found.
                drain-AllTyped g i t r.models r.pending r.syncer z drains name p
                  (s.typed name p found);
          })

    pub run-Replicates :
        (x : Input f) (a : Api g i t d k) (r r' : Replica g i t)
        → replicate g i t x r ≡ some r'
        → Replicates g i t d k a r
        → ((run g i t d k x a).0 ≡ ok tt) × Replicates g i t d k (run g i t d k x a).1 r'
    run-Replicates (arrives e) a r r' h s =
        on_event-Replicates g i t d k pushes encodes e a r r' h s
    run-Replicates ticks a r r' h s = (refl, tick-Replicates a r r' h s)

    pub replicate_on-parts :
        (x : Option (Replica g i t)) (rest : Replica g i t → Option (Replica g i t))
        (z : Replica g i t)
        → replicate_on g i t x rest ≡ some z
        → (y : Replica g i t) × (x ≡ some y) × (rest y ≡ some z)
    replicate_on-parts none rest z h = cc
    replicate_on-parts (some y) rest z h = (y, refl, h)

    -- Where no operation of the storage and no encoding fails: whatever events of the binlog arrive
    -- and whenever the ticker fires, if the API is that of the abstract program, which keeps a queue
    -- of changes for each table and applies at a tick what waits, table by table, once each and in
    -- order, and which stops where the parser does not read an event or a change fails at the
    -- target; and if the abstract program comes to the end of these inputs, then the API handles
    -- them without error and is that of the abstract program at the end: the same models, the same
    -- state of the syncer and its target, and in the log of each table, encoded, what waits for it.
    pub run_all-Replicates :
        (xs : List (Input f)) (a : Api g i t d k) (r r' : Replica g i t)
        → replicate_all g i t xs r ≡ some r'
        → Replicates g i t d k a r
        → ((run_all g i t d k xs a).0 ≡ ok tt) × Replicates g i t d k (run_all g i t d k xs a).1 r'
    run_all-Replicates [] a r r' h s = (refl, subst (Replicates g i t d k a) (some-injective h) s)
    run_all-Replicates (x ∷ xs) a r r' h s =
        let (y, first, later) =
          replicate_on-parts (replicate g i t x r) (replicate_all g i t xs) r' h in
        let (ends, s') = run-Replicates x a r y first s in
        rw (after-ok (run g i t d k x a) (λ _ a'. run_all g i t d k xs a') ends)
          (run_all-Replicates xs (run g i t d k x a).1 y r' later s')
