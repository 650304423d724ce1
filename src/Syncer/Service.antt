-- ===== src/Syncer/Service.antt =====
-- syncer/store_service.go: the scan of the log that applies what was logged to the target.
pub mod Drain
pub mod Blocked
pub mod Delivery
pub mod Scan
pub mod Applied
pub mod Meanwhile
pub mod Coherent
pub mod Backlog
pub mod Sent
use mysql_to_mssql.Base.{
  ℕ, ◌+◌, ◌==◌, ltb, Bool, true, false, not, ◌&&◌, List, [], ◌∷◌, Bytes, codes, Result, ok, err,
  panic, Call, if◌then◌else◌,
}
use mysql_to_mssql.Reflect.{Foreign, Struct}
use mysql_to_mssql.Db.Interface.{Interface}
use mysql_to_mssql.Syncer.Gob.{Gob}
use mysql_to_mssql.Syncer.Store.{
  Record, insert_action, update_action, delete_action, wrap, get_all, size, l_rem,
}
use mysql_to_mssql.Syncer.Target.{Target}
use mysql_to_mssql.Syncer.Writer.{Syncer, insert, update_on_pk, delete_on_pk, close}

-- How a scan goes on: with the next table; blocked for good, since the quit signal is sent by the
-- very goroutine that would receive it; or in a panic.
pub data Progress : Type 0 where
  next blocked panicked : Progress

-- The size, where an error leaves it 0.
abbrev pub size_of : Result ℕ → Result ℕ
size_of (ok n) = ok n
size_of (err e) = ok 0
size_of panic = panic

module _ {f : Foreign} (g : Gob f) (i : Interface g.Wire) (t : Target f) where
  pub record World : Type 0 where
    pub db : i.State
    pub syncer : Syncer t

  abbrev pub wrap_call : Bytes → Result (Unit {0}) × Syncer t → Result (Unit {0}) × Syncer t
  wrap_call prefix (r, s) = (wrap prefix r, s)

  -- The three tests of the callback. Behind them `err` is nil, also for an action that is none of
  -- the three.
  unfoldable pub perform : Bytes → Record f → Call (Syncer t) Unit
  perform table rec s =
      if rec.action == insert_action
      then wrap_call (codes "Insert error: ") (insert t table rec.new s)
      else if rec.action == update_action
      then wrap_call (codes "Update error: ") (update_on_pk t table rec.old rec.new s)
      else if rec.action == delete_action
      then wrap_call (codes "Delete error: ") (delete_on_pk t table rec.old s)
      else (ok tt, s)

  -- count++ if there was no error.
  unfoldable pub counted : ℕ → Result (Unit {0}) × Syncer t → Result (Unit {0}) × (Syncer t × ℕ)
  counted count (ok _, s) = (ok tt, (s, count + 1))
  counted count (err e, s) = (err e, (s, count))
  counted count (panic, s) = (panic, (s, count))

  unfoldable pub callback : Bytes → Record f → Call (Syncer t × ℕ) Unit
  callback table rec (s, count) = counted count (perform table rec s)

  unfoldable pub removed : Result (Unit {0}) × i.State → Syncer t → Progress × World
  removed (ok _, db) s = (next, record { db = db; syncer = s })
  removed (_, db) s = (panicked, record { db = db; syncer = s })

  -- What follows the loop over the records of a table.
  unfoldable pub finish_table :
      Bool → Bytes → Result (Unit {0}) × i.State × (Syncer t × ℕ) → Progress × World
  finish_table is_test table (ok _, db, (s, count)) =
      if ltb 0 count && not is_test
      then removed (l_rem g i table count db) s
      else (next, record { db = db; syncer = s })
  finish_table is_test table (err e, db, (s, count)) = (blocked, record { db = db; syncer = s })
  finish_table is_test table (panic, db, (s, count)) = (panicked, record { db = db; syncer = s })

  unfoldable pub scan_table : Bool → Bytes → Struct f → Result ℕ → World → Progress × World
  scan_table is_test table model (ok n) w =
      if n == 0
      then (next, w)
      else finish_table is_test table (get_all g i table model (callback table) w.db (w.syncer, 0))
  scan_table is_test table model _ w = (panicked, w)

  -- One round of the loop over the models.
  unfoldable pub sync_table : Bool → Bytes → Struct f → World → Progress × World
  sync_table is_test table model w =
      let (r, db) = size g i table w.db in
      scan_table is_test table model (size_of r) (record w { db = db })

  -- The loop goes on only from a table that it is done with.
  abbrev pub continue : Progress × World → (World → Progress × World) → Progress × World
  continue (next, w) rest = rest w
  continue (blocked, w) rest = (blocked, w)
  continue (panicked, w) rest = (panicked, w)

  -- The loop over the models, in the order in which they come.
  unfoldable pub sync_all_models : Bool → List (Bytes × Struct f) → World → Progress × World
  sync_all_models is_test [] w = (next, w)
  sync_all_models is_test ((table, model) ∷ models) w =
      continue (sync_table is_test table model w) (λ w'. sync_all_models is_test models w')
