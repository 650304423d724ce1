-- ===== src/Syncer/Service/Applied.antt =====
-- From logged changes to the target and an empty log, where the storage does not fail.
use mysql_to_mssql.Base.{
  ℕ, ◌≤◌, ◌<◌, ◌≡◌, refl, sym, ap, ◌∙◌, ◌==◌, ltb, false, List, [], Bytes, Result, ok, err, panic,
  arith, eqb_refl, length, if◌then◌else◌, Bool-cases, inl, inr, length-eq-zero, ==_iff,
}
use mysql_to_mssql.Reflect.{Foreign, Struct}
use mysql_to_mssql.Db.Interface.{Interface, same}
use mysql_to_mssql.Syncer.Gob.{Gob}
use mysql_to_mssql.Syncer.Store.{bucket, for_each, get_all, l_rem, loop_over, size}
use mysql_to_mssql.Syncer.Store.RoundTrip.{Event}
use mysql_to_mssql.Syncer.Target.{Target}
use mysql_to_mssql.Syncer.Writer.{Syncer}
use mysql_to_mssql.Syncer.Service.{
  next, World, callback, removed, finish_table, scan_table, sync_table,
}
use mysql_to_mssql.Syncer.Service.Drain.{get_all-count, queue-get_all, sync_table-drains}
use mysql_to_mssql.Syncer.Service.Delivery.{log_all, deliver, AllTyped, for_each-log_all}

module _ {f : Foreign} (g : Gob f) (i : Interface g.Wire) (t : Target f)
    (sizes : (b k : Bytes) (db : i.State) → (n : ℕ) × ((i.size b k db).0 ≡ ok n))
    (lists : (b k : Bytes) (db : i.State) → (l : List g.Wire) × ((i.get_all_key b k db).0 ≡ ok l))
    (rems : (b k : Bytes) (n : ℕ) (db : i.State)
      → 0 < n
      → n ≤ length (i.queue db b k)
      → (i.rem b k n db).0 ≡ ok tt) where
  removed-next :
      (x : Result (Unit {0}) × i.State) (s : Syncer t)
      → x.0 ≡ ok tt
      → ((removed g i t x s).0 ≡ next) × ((removed g i t x s).1.syncer ≡ s)
  unfolding removed
  removed-next (ok _, db) s h = (refl, refl)
  removed-next (err e, db) s h = cc
  removed-next (panic, db) s h = cc

  finish_table-next :
      (table : Bytes) (x : Result (Unit {0}) × i.State × (Syncer t × ℕ))
      → x.0 ≡ ok tt
      → x.2.1 ≤ length (i.queue x.1 bucket table)
      → ((finish_table g i t false table x).0 ≡ next)
        × ((finish_table g i t false table x).1.syncer ≡ x.2.0)
  unfolding finish_table l_rem
  finish_table-next table (ok _, db, (s, count)) h e = elim (Bool-cases (ltb 0 count)) [
    | inl p ↦
        rw p (
          removed-next (i.rem bucket table count db) s
            (rems bucket table count db (ground arith) e))
    | inr p ↦ rw p (refl, refl)
  ]
  finish_table-next table (err e', db, (s, count)) h e = cc
  finish_table-next table (panic, db, (s, count)) h e = cc

  -- Reading the log runs the loop over it.
  get_all-for_each :
      (table : Bytes) (p : Struct f) (db : i.State) (x : Syncer t × ℕ)
      → ((get_all g i table p (callback g i t table) db x).0
          ≡ (for_each g (i.queue db bucket table) p (callback g i t table) x).0)
        × ((get_all g i table p (callback g i t table) db x).2
            ≡ (for_each g (i.queue db bucket table) p (callback g i t table) x).1)
  unfolding get_all loop_over
  get_all-for_each table p db x =
      let (l, e) = lists bucket table db in
      rw (e, sym (i.get_all_key_lem db bucket table l e)) (refl, refl)

  module _ (table : Bytes) (p : Struct f) (w : World g i t) (y : Result (Unit {0}) × (Syncer t × ℕ))
      (r : for_each g (i.queue w.db bucket table) p (callback g i t table) (w.syncer, 0) ≡ y)
      (h : y.0 ≡ ok tt) where
    none_read : i.queue w.db bucket table ≡ [] → w.syncer ≡ y.1.0
    unfolding for_each
    none_read q =
        ap (λ (z : Result (Unit {0}) × (Syncer t × ℕ)). z.1.0)
          (sym (ap (λ (l : List g.Wire). for_each g l p (callback g i t table) (w.syncer, 0)) q)
            ∙ r)

    finish_table-get_all :
        ((finish_table g i t false table
            (get_all g i table p (callback g i t table) w.db (w.syncer, 0))).0
          ≡ next)
        × ((finish_table g i t false table
              (get_all g i table p (callback g i t table) w.db (w.syncer, 0))).1.syncer
            ≡ y.1.0)
    finish_table-get_all =
        let x = get_all g i table p (callback g i t table) w.db (w.syncer, 0) in
        let (a, b) = get_all-for_each table p w.db (w.syncer, 0) in
        let ends : x.0 ≡ ok tt = a ∙ ap (λ (z : Result (Unit {0}) × (Syncer t × ℕ)). z.0) r ∙ h in
        let (h₁, h₂) = finish_table-next table x ends (
          omega (
            arith,
            get_all-count g i t table p w.db w.syncer ends,
            ap length (queue-get_all g i t table p w.db w.syncer bucket table),
          )) in
        (
          h₁,
          h₂
              ∙ ap (λ (z : Syncer t × ℕ). z.0)
                  (b ∙ ap (λ (z : Result (Unit {0}) × (Syncer t × ℕ)). z.1) r),
        )

    -- A loop that ends well lets the scan go on, with the state that it left.
    scan_table-next :
        (n : ℕ)
        → n ≡ length (i.queue w.db bucket table)
        → ((scan_table g i t false table p (ok n) w).0 ≡ next)
          × ((scan_table g i t false table p (ok n) w).1.syncer ≡ y.1.0)
    unfolding scan_table
    scan_table-next n e = elim (Bool-cases (n == 0)) [
      | inl q ↦
          rw q (
            refl,
            none_read (length-eq-zero (i.queue w.db bucket table) (sym e ∙ (==_iff n 0).0 q)),
          )
      | inr q ↦ rw q finish_table-get_all
    ]

  -- Where the loop over a table's log ends well, the scan of the table goes on, with the state that
  -- the loop left, and the log is empty.
  pub sync_table-loop :
      (table : Bytes) (p : Struct f) (w : World g i t) (y : Result (Unit {0}) × (Syncer t × ℕ))
      → for_each g (i.queue w.db bucket table) p (callback g i t table) (w.syncer, 0) ≡ y
      → y.0 ≡ ok tt
      → ((sync_table g i t false table p w).0 ≡ next)
        × ((sync_table g i t false table p w).1.syncer ≡ y.1.0)
        × ((b k : Bytes)
            → i.queue (sync_table g i t false table p w).1.db b k
              ≡ (if same bucket table b k then [] else i.queue w.db b k))
  unfolding sync_table size
  sync_table-loop table p w y r h =
      let (n, e) = sizes bucket table w.db in
      let w' : World g i t = record w { db = (i.size bucket table w.db).1 } in
      let same_log : i.queue w'.db bucket table ≡ i.queue w.db bucket table =
        i.queue-size w.db bucket table bucket table in
      let (h₁, h₂) =
        scan_table-next table p w' y
          (ap (λ (l : List g.Wire). for_each g l p (callback g i t table) (w.syncer, 0)) same_log
            ∙ r)
          h n (i.size_lem w.db bucket table n e ∙ ap length (sym same_log)) in
      let goes_on : (sync_table g i t false table p w).0 ≡ next = rw e h₁ in
      (goes_on, rw e h₂, sync_table-drains g i t table p w n e goes_on)

  -- Where no operation of the storage fails, changes of the prototype's type that are all logged to
  -- an empty log, and none of which fails at the target, are applied by the next scan of the
  -- table: it goes on, the target is left as the changes in their order leave it, and the log is
  -- empty.
  pub sync_table-deliver :
      (table : Bytes) (p : Struct f) (evs : List (Event f)) (db : i.State) (s : Syncer t)
      → AllTyped g i t table p evs
      → i.queue db bucket table ≡ []
      → (log_all g i t table evs db).0 ≡ ok tt
      → (deliver g i t table evs (s, 0)).0 ≡ ok tt
      → ((sync_table g i t false table p
            (record { db = (log_all g i t table evs db).1; syncer = s })).0
          ≡ next)
        × ((sync_table g i t false table p
              (record { db = (log_all g i t table evs db).1; syncer = s })).1.syncer
            ≡ (deliver g i t table evs (s, 0)).1.0)
        × (i.queue
              (sync_table g i t false table p
                (record { db = (log_all g i t table evs db).1; syncer = s })).1.db
              bucket
              table
            ≡ [])
  sync_table-deliver table p evs db s ty q h d =
      let w : World g i t = record { db = (log_all g i t table evs db).1; syncer = s } in
      let (h₁, h₂, drained) =
        sync_table-loop table p w (deliver g i t table evs (s, 0))
          (for_each-log_all g i t table p evs db (s, 0) ty q h) d in
      (h₁, h₂, drained bucket table ∙ rw (eqb_refl bucket, eqb_refl table) refl)
