-- ===== src/Syncer/Service/Blocked.antt =====
-- What a scan that fails leaves behind.
use mysql_to_mssql.Base.{
  ℕ, ◌≡◌, ◌≢◌, refl, ◌∙◌, ◌==◌, Bool, Bytes, Result, ok, err, panic, arith, Bool-cases, inl, inr,
}
use mysql_to_mssql.Reflect.{Foreign, Struct}
use mysql_to_mssql.Db.Interface.{Interface}
use mysql_to_mssql.Syncer.Gob.{Gob}
use mysql_to_mssql.Syncer.Store.{bucket, get_all, size, l_rem}
use mysql_to_mssql.Syncer.Target.{Target}
use mysql_to_mssql.Syncer.Writer.{Syncer}
use mysql_to_mssql.Syncer.Service.{
  blocked, World, callback, size_of, removed, finish_table, scan_table, sync_table,
}
use mysql_to_mssql.Syncer.Service.Drain.{queue-get_all}

module _ {f : Foreign} (g : Gob f) (i : Interface g.Wire) (t : Target f) where
  removed-ne-blocked :
      (x : Result (Unit {0}) × i.State) (s : Syncer t) → (removed g i t x s).0 ≢ blocked
  unfolding removed
  removed-ne-blocked (ok _, db) s h = cc
  removed-ne-blocked (err e, db) s h = cc
  removed-ne-blocked (panic, db) s h = cc

  finish_table-blocked :
      (is_test : Bool) (table : Bytes) (x : Result (Unit {0}) × i.State × (Syncer t × ℕ))
      → (finish_table g i t is_test table x).0 ≡ blocked
      → (finish_table g i t is_test table x).1.db ≡ x.1
  unfolding finish_table
  finish_table-blocked is_test table (ok _, db, (s, count)) h =
      ground (arith, removed-ne-blocked (l_rem g i table count db) s)
  finish_table-blocked is_test table (err e, db, (s, count)) h = refl
  finish_table-blocked is_test table (panic, db, (s, count)) h = refl

  scan_table-blocked :
      (is_test : Bool) (table : Bytes) (model : Struct f) (r : Result ℕ) (w : World g i t)
      (b' k' : Bytes)
      → (scan_table g i t is_test table model r w).0 ≡ blocked
      → i.queue (scan_table g i t is_test table model r w).1.db b' k' ≡ i.queue w.db b' k'
  unfolding scan_table
  scan_table-blocked is_test table model (ok n) w b' k' h = elim (Bool-cases (n == 0)) [
    | inl p ↦ rw p
    | inr p ↦
        rw
          (
            p,
            finish_table-blocked is_test table
                (get_all g i table model (callback g i t table) w.db (w.syncer, 0)) (rw p at h),
          )
          (queue-get_all g i t table model w.db w.syncer b' k')
  ]
  scan_table-blocked is_test table model (err e) w b' k' h = refl
  scan_table-blocked is_test table model panic w b' k' h = refl

  -- A scan of a table that blocks has changed no list of the storage: the log still holds also the
  -- changes that it applied before the one that failed.
  pub sync_table-blocked :
      (is_test : Bool) (table : Bytes) (model : Struct f) (w : World g i t)
      → (sync_table g i t is_test table model w).0 ≡ blocked
      → (b' k' : Bytes)
      → i.queue (sync_table g i t is_test table model w).1.db b' k' ≡ i.queue w.db b' k'
  unfolding sync_table size
  sync_table-blocked is_test table model w h b' k' =
      scan_table-blocked is_test table model (size_of (i.size bucket table w.db).0)
        (record w { db = (i.size bucket table w.db).1 }) b' k' h
      ∙ i.queue-size w.db bucket table b' k'
