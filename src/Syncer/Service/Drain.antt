-- ===== src/Syncer/Service/Drain.antt =====
-- What a scan does to the log: it empties it, or leaves it as it is.
use mysql_to_mssql.Base.{
  ltb→lt, ◌<◌, ℕ, ◌+◌, ◌≡◌, refl, sym, ap, ◌∙◌, ◌==◌, ltb, false, List, [], ◌∷◌, Bytes, Result, ok,
  err, panic, if◌then◌else◌, arith, length, drop-length, Bool-cases, inl, inr, ==_iff, eqb_iff,
  length-eq-zero,
}
use mysql_to_mssql.Base.Calls.{after-eq-ok}
use mysql_to_mssql.Reflect.{Foreign, Struct}
use mysql_to_mssql.Db.Interface.{Interface, same}
use mysql_to_mssql.Syncer.Gob.{Gob}
use mysql_to_mssql.Syncer.Store.{
  Record, bucket, decode_bytes, attempt, stopped, for_each, loop_over, get_all, size, l_rem,
}
use mysql_to_mssql.Syncer.Target.{Target}
use mysql_to_mssql.Syncer.Writer.{Syncer}
use mysql_to_mssql.Syncer.Service.{
  next, World, counted, callback, removed, finish_table, scan_table, sync_table,
}

pub not_positive : (n : ℕ) → ltb 0 n ≡ false → n ≡ 0
not_positive n h = ground arith

module _ {f : Foreign} (g : Gob f) (i : Interface g.Wire) (t : Target f) where
  attempt-count :
      (r : Result (Record f)) (table : Bytes) (s : Syncer t) (count : ℕ) {u : Unit {0}}
      → (attempt r (callback g i t table) (s, count)).0 ≡ ok u
      → (attempt r (callback g i t table) (s, count)).1.1 ≡ count + 1
  unfolding attempt stopped callback counted
  attempt-count (ok rec) table s count h = ground arith
  attempt-count (err e) table s count h = cc
  attempt-count panic table s count h = cc

  -- A loop that ends well has counted every record.
  for_each-count :
      (list : List g.Wire) (model : Struct f) (table : Bytes) (s : Syncer t) (count : ℕ)
      → (for_each g list model (callback g i t table) (s, count)).0 ≡ ok tt
      → (for_each g list model (callback g i t table) (s, count)).1.1 ≡ count + length list
  unfolding for_each
  for_each-count [] model table s count h = omega arith
  for_each-count (x ∷ list) model table s count h =
      let (u, h₁, h₂) =
        after-eq-ok (attempt (decode_bytes g x model) (callback g i t table) (s, count))
          (λ _ s'. for_each g list model (callback g i t table) s') h in
      let x' = (attempt (decode_bytes g x model) (callback g i t table) (s, count)).1 in
      omega (
        arith,
        ap (λ (z : Result (Unit {0}) × (Syncer t × ℕ)). z.1.1) h₂,
        attempt-count (decode_bytes g x model) table s count h₁,
        for_each-count list model table x'.0 x'.1
            (sym (ap (λ (z : Result (Unit {0}) × (Syncer t × ℕ)). z.0) h₂) ∙ h),
      )

  pub removed_lem :
      (x : Result (Unit {0}) × i.State) (s : Syncer t)
      → (removed g i t x s).0 ≡ next
      → (x.0 ≡ ok tt) × ((removed g i t x s).1.db ≡ x.1)
  unfolding removed
  removed_lem (ok _, db) s h = (refl, refl)
  removed_lem (err e, db) s h = cc
  removed_lem (panic, db) s h = cc

  -- A list of no records is empty.
  no_records :
      (db : i.State) (b k b' k' : Bytes)
      → length (i.queue db b k) ≡ 0
      → i.queue db b' k' ≡ (if same b k b' k' then [] else i.queue db b' k')
  no_records db b k b' k' h =
      ground (arith, eqb_iff b b', eqb_iff k k', length-eq-zero (i.queue db b k))

  -- All records are taken from the left.
  all_removed :
      (db : i.State) (table : Bytes) (count : ℕ) (b' k' : Bytes)
      → 0 < count
      → count ≡ length (i.queue db bucket table)
      → (i.rem bucket table count db).0 ≡ ok tt
      → i.queue (i.rem bucket table count db).1 b' k'
        ≡ (if same bucket table b' k' then [] else i.queue db b' k')
  all_removed db table count b' k' pos e h =
      i.queue-rem db bucket table count b' k' pos (omega arith) h
      ∙ ap (λ (l : List g.Wire). if same bucket table b' k' then l else i.queue db b' k')
          (rw e (drop-length (i.queue db bucket table)))

  finish_table-drains :
      (table : Bytes) (x : Result (Unit {0}) × i.State × (Syncer t × ℕ)) (b' k' : Bytes)
      → (x.0 ≡ ok tt → x.2.1 ≡ length (i.queue x.1 bucket table))
      → (finish_table g i t false table x).0 ≡ next
      → i.queue (finish_table g i t false table x).1.db b' k'
        ≡ (if same bucket table b' k' then [] else i.queue x.1 b' k')
  unfolding finish_table l_rem
  finish_table-drains table (ok _, db, (s, count)) b' k' e h = elim (Bool-cases (ltb 0 count)) [
    | inl p ↦
        (let (h₁, h₂) = removed_lem (i.rem bucket table count db) s (rw p at h) in
          rw (p, h₂) (all_removed db table count b' k' (ltb→lt 0 count p) (e refl) h₁))
    | inr p ↦ rw p (no_records db bucket table b' k' (omega (arith, e refl, not_positive count p)))
  ]
  finish_table-drains table (err e', db, (s, count)) b' k' e h = cc
  finish_table-drains table (panic, db, (s, count)) b' k' e h = cc

  loop_over-db :
      (r : Result (List g.Wire)) (model : Struct f) (table : Bytes) (db : i.State)
      (x : Syncer t × ℕ)
      → (loop_over g i r model (callback g i t table) db x).1 ≡ db
  unfolding loop_over
  loop_over-db (ok list) model table db x = refl
  loop_over-db (err e) model table db x = refl
  loop_over-db panic model table db x = refl

  loop_over-count :
      (r : Result (List g.Wire)) (model : Struct f) (table : Bytes) (db : i.State) (s : Syncer t)
      (n : ℕ)
      → ((list : List g.Wire) → r ≡ ok list → length list ≡ n)
      → (loop_over g i r model (callback g i t table) db (s, 0)).0 ≡ ok tt
      → (loop_over g i r model (callback g i t table) db (s, 0)).2.1 ≡ n
  unfolding loop_over
  loop_over-count (ok list) model table db s n e h =
      omega (arith, e list refl, for_each-count list model table s 0 h)
  loop_over-count (err e') model table db s n e h = cc
  loop_over-count panic model table db s n e h = cc

  module _ (table : Bytes) (model : Struct f) (db : i.State) (s : Syncer t) where
    -- Reading the records changes no list, and a loop that ends well has counted all of them.
    pub queue-get_all :
        (b' k' : Bytes)
        → i.queue (get_all g i table model (callback g i t table) db (s, 0)).1 b' k'
          ≡ i.queue db b' k'
    unfolding get_all
    queue-get_all b' k' =
        rw
          (loop_over-db (i.get_all_key bucket table db).0 model table
            (i.get_all_key bucket table db).1 (s, 0))
          (i.queue-get_all_key db bucket table b' k')

    pub get_all-count :
        (get_all g i table model (callback g i t table) db (s, 0)).0 ≡ ok tt
        → (get_all g i table model (callback g i t table) db (s, 0)).2.1
          ≡ length (i.queue db bucket table)
    unfolding get_all
    get_all-count =
        loop_over-count (i.get_all_key bucket table db).0 model table
          (i.get_all_key bucket table db).1 s (length (i.queue db bucket table))
          (λ list e. ap length (i.get_all_key_lem db bucket table list e))

  scan_table-drains :
      (table : Bytes) (model : Struct f) (n : ℕ) (w : World g i t) (b' k' : Bytes)
      → n ≡ length (i.queue w.db bucket table)
      → (scan_table g i t false table model (ok n) w).0 ≡ next
      → i.queue (scan_table g i t false table model (ok n) w).1.db b' k'
        ≡ (if same bucket table b' k' then [] else i.queue w.db b' k')
  unfolding scan_table
  scan_table-drains table model n w b' k' e h = elim (Bool-cases (n == 0)) [
    | inl p ↦ rw p (no_records w.db bucket table b' k' (sym e ∙ (==_iff n 0).0 p))
    | inr p ↦ rw p (
        finish_table-drains table
          (get_all g i table model (callback g i t table) w.db (w.syncer, 0)) b' k'
          (λ q.
            get_all-count table model w.db w.syncer q
            ∙ ap length (sym (queue-get_all table model w.db w.syncer bucket table)))
          (rw p at h)
        ∙ ap (λ (l : List g.Wire). if same bucket table b' k' then [] else l)
            (queue-get_all table model w.db w.syncer b' k'))
  ]

  -- A scan of a table whose size can be read that goes on to the next one has emptied the table's
  -- log, and no other list of the storage has changed.
  pub sync_table-drains :
      (table : Bytes) (model : Struct f) (w : World g i t) (n : ℕ)
      → (i.size bucket table w.db).0 ≡ ok n
      → (sync_table g i t false table model w).0 ≡ next
      → (b' k' : Bytes)
      → i.queue (sync_table g i t false table model w).1.db b' k'
        ≡ (if same bucket table b' k' then [] else i.queue w.db b' k')
  unfolding sync_table size
  sync_table-drains table model w n e h b' k' =
      let w' : World g i t = record w { db = (i.size bucket table w.db).1 } in
      rw e (
        scan_table-drains table model n w' b' k'
          (i.size_lem w.db bucket table n e
            ∙ ap length (sym (i.queue-size w.db bucket table bucket table)))
          (rw e at h)
        ∙ ap (λ (l : List g.Wire). if same bucket table b' k' then [] else l)
            (i.queue-size w.db bucket table b' k'))
