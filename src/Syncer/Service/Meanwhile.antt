-- ===== src/Syncer/Service/Meanwhile.antt =====
-- Changes that are logged by another goroutine while a scan runs.
use mysql_to_mssql.Base.{
  ltb→lt, ◌<◌, ℕ, ◌≡◌, ap, ◌∙◌, ltb, false, List, ◌++◌, Bytes, Result, ok, err, panic, arith,
  length, length-append, length-eq-zero, drop-append, Bool-cases, inl, inr, eqb_refl,
}
use mysql_to_mssql.Reflect.{Foreign, Struct}
use mysql_to_mssql.Db.Interface.{Interface}
use mysql_to_mssql.Syncer.Gob.{Gob}
use mysql_to_mssql.Syncer.Store.{bucket, get_all, l_rem}
use mysql_to_mssql.Syncer.Target.{Target}
use mysql_to_mssql.Syncer.Writer.{Syncer}
use mysql_to_mssql.Syncer.Service.{next, callback, finish_table}
use mysql_to_mssql.Syncer.Service.Drain.{get_all-count, removed_lem, not_positive}

module _ {f : Foreign} (g : Gob f) (i : Interface g.Wire) (t : Target f) (table : Bytes) where
  -- Of a log that has grown since it was read, as many records are removed as were read.
  rem-rest :
      (db : i.State) (old ws : List g.Wire) (count : ℕ)
      → i.queue db bucket table ≡ old ++ ws
      → 0 < count
      → count ≡ length old
      → (i.rem bucket table count db).0 ≡ ok tt
      → i.queue (i.rem bucket table count db).1 bucket table ≡ ws
  rem-rest db old ws count q pos e h =
      i.queue-rem db bucket table count bucket table pos
        (omega (arith, e, ap length q, length-append old ws)) h
      ∙ rw (eqb_refl bucket, eqb_refl table, q, e) (drop-append old ws)

  finish_table-rest :
      (old ws : List g.Wire) (db : i.State) (r : Result (Unit {0})) (x : Syncer t × ℕ)
      → i.queue db bucket table ≡ old ++ ws
      → x.1 ≡ length old
      → r ≡ ok tt
      → (finish_table g i t false table (r, db, x)).0 ≡ next
      → i.queue (finish_table g i t false table (r, db, x)).1.db bucket table ≡ ws
  unfolding finish_table l_rem
  finish_table-rest old ws db (ok _) (s, count) q e k h = elim (Bool-cases (ltb 0 count)) [
    | inl p ↦
        (let (h₁, h₂) = removed_lem g i t (i.rem bucket table count db) s (rw p at h) in
          rw (p, h₂) (rem-rest db old ws count q (ltb→lt 0 count p) e h₁))
    | inr p ↦ rw p (
        q
        ∙ ap (λ (l : List g.Wire). l ++ ws)
            (length-eq-zero old (omega (arith, e, not_positive count p))))
  ]
  finish_table-rest old ws db (err e') (s, count) q e k h = cc
  finish_table-rest old ws db panic (s, count) q e k h = cc

  -- Where the loop over a table's log has ended well, and other values were appended to the log
  -- since it was read, a scan that then goes on leaves exactly these values in the log.
  pub finish_table-keeps :
      (p : Struct f) (db db' : i.State) (s : Syncer t) (ws : List g.Wire)
      → (get_all g i table p (callback g i t table) db (s, 0)).0 ≡ ok tt
      → i.queue db' bucket table ≡ i.queue db bucket table ++ ws
      → (finish_table g i t false table (
        (get_all g i table p (callback g i t table) db (s, 0)).0,
        db',
        (get_all g i table p (callback g i t table) db (s, 0)).2,
      )).0
        ≡ next
      → i.queue
          (finish_table g i t false table (
            (get_all g i table p (callback g i t table) db (s, 0)).0,
            db',
            (get_all g i table p (callback g i t table) db (s, 0)).2,
          )).1.db
          bucket
          table
        ≡ ws
  finish_table-keeps p db db' s ws h q n =
      let x = get_all g i table p (callback g i t table) db (s, 0) in
      finish_table-rest (i.queue db bucket table) ws db' x.0 x.2 q
        (get_all-count g i t table p db s h) h n
