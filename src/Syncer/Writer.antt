-- ===== src/Syncer/Writer.antt =====
-- syncer/syncer.go: the operations on the target database, with their prepared statements.
pub mod Cache
pub mod Runs
pub mod Ran
use mysql_to_mssql.Base.{
  ℕ, ◌==◌, true, false, List, [], ◌∷◌, ◌++◌, Option, none, some, Bytes, codes, length, Dict, lookup,
  insert as assign, Result, ok, err, panic, Call, if◌then◌else◌, ◌||◌, eqb,
}
use mysql_to_mssql.Base.Calls.{◌>>=◌, lift}
use mysql_to_mssql.Reflect.{Foreign, Value, Struct}
use mysql_to_mssql.Syncer.Columns.{Column, get_columns, sprint_uint}
use mysql_to_mssql.Syncer.Statements.{
  build_insert_statement, build_update_statement, build_delete_statement,
  build_delete_statement_from_pk,
}
use mysql_to_mssql.Syncer.Target.{Target}

pub record TargetDbConfig : Type 0 where
  pub server : Bytes
  pub database : Bytes
  pub userid : Bytes
  pub password : Bytes
  pub log : ℕ
  pub encrypt : Bytes
  pub appname : Bytes

-- A part of the connection string, if its value is not empty.
unfoldable pub setting : Bytes → Bytes → Bytes
setting key [] = []
setting key (v ∷ vs) = key ++ (v ∷ vs ++ codes ";")

unfoldable pub connection_string : TargetDbConfig → Bytes
connection_string cfg =
    setting (codes "server=") cfg.server
    ++ (setting (codes "database=") cfg.database
        ++ ((if eqb cfg.userid []
              then []
              else codes "user id="
                ++ (cfg.userid ++ (codes ";password=" ++ (cfg.password ++ codes ";"))))
            ++ (codes "log="
                ++ (sprint_uint cfg.log
                    ++ (codes ";"
                        ++ (setting (codes "encrypt=") cfg.encrypt
                            ++ setting (codes "app name=") cfg.appname))))))

module _ {f : Foreign} (t : Target f) where
  -- The fields that the operations use; a missing statement is a nil one.
  pub record Syncer : Type 0 where
    pub db : t.State
    pub insert_stmts : Dict t.Stmt
    pub update_stmts : Dict t.Stmt
    pub delete_stmts : Dict t.Stmt

  -- An error of sql.Open is a panic.
  unfoldable pub build_conn : TargetDbConfig → Result t.State
  build_conn cfg = elim (t.connect (connection_string cfg)) [ ok db ↦ ok db | _ ↦ panic ]

  unfoldable pub new_syncer : TargetDbConfig → Result Syncer
  new_syncer cfg = elim (build_conn cfg) [
    | ok db ↦ ok (record { db = db; insert_stmts = []; update_stmts = []; delete_stmts = [] })
    | err e ↦ err e
    | panic ↦ panic
  ]

  unfoldable pub prepare : Bytes → Call Syncer t.Stmt
  prepare query s = let (r, db) = t.prepare query s.db in (r, record s { db = db })

  unfoldable pub exec : t.Stmt → List (Value f) → Call Syncer Unit
  exec st args s = let (r, db) = t.exec st args s.db in (r, record s { db = db })

  unfoldable pub keep_insert : Bytes → t.Stmt → Call Syncer t.Stmt
  keep_insert table st s = (ok st, record s { insert_stmts = assign table st s.insert_stmts })

  unfoldable pub keep_update : Bytes → t.Stmt → Call Syncer t.Stmt
  keep_update table st s = (ok st, record s { update_stmts = assign table st s.update_stmts })

  unfoldable pub keep_delete : Bytes → t.Stmt → Call Syncer t.Stmt
  keep_delete table st s = (ok st, record s { delete_stmts = assign table st s.delete_stmts })

  -- The statement of a map, prepared and kept if it is nil.
  unfoldable pub prepared :
      Option t.Stmt → Bytes → (t.Stmt → Call Syncer t.Stmt) → Call Syncer t.Stmt
  prepared (some st) query keep = lift (ok st)
  prepared none query keep = do st ← prepare query; keep st

  unfoldable pub insert_statement : Bytes → List Column → Call Syncer t.Stmt
  insert_statement table cols s =
      prepared (lookup table s.insert_stmts) (build_insert_statement table cols) (keep_insert table)
        s

  unfoldable pub update_statement : Bytes → List Column → Bytes → Call Syncer t.Stmt
  update_statement table cols condition s =
      prepared (lookup table s.update_stmts) (build_update_statement table cols condition)
        (keep_update table) s

  unfoldable pub delete_statement : Bytes → Bytes → Call Syncer t.Stmt
  delete_statement table query s =
      prepared (lookup table s.delete_stmts) query (keep_delete table) s

  unfoldable pub insert : Bytes → Option (Struct f) → Call Syncer Unit
  insert table model = do
    (cols, values) ← lift (get_columns model false)
    st ← insert_statement table cols
    exec st values

  unfoldable pub update : Bytes → Option (Struct f) → Bytes → List (Value f) → Call Syncer Unit
  update table model condition args = do
    (cols, values) ← lift (get_columns model false)
    st ← update_statement table cols condition
    exec st (values ++ args)

  abbrev pub no_primary_key : Bytes → Bytes
  no_primary_key table = codes "primaryKey tag not defined in model of " ++ table

  -- An error if there are no primary values.
  unfoldable pub some_primary : Bytes → List (Value f) → Result (Unit {0})
  some_primary table [] = err (no_primary_key table)
  some_primary table (_ ∷ _) = ok tt

  unfoldable pub update_on_pk : Bytes → Option (Struct f) → Option (Struct f) → Call Syncer Unit
  update_on_pk table old_model new_model = do
    (cols, values) ← lift (get_columns new_model false)
    st ← update_statement table cols []
    (_, pks) ← lift (get_columns old_model true)
    _ ← lift (some_primary table pks)
    exec st (values ++ pks)

  unfoldable pub delete : Bytes → Bytes → List (Value f) → Call Syncer Unit
  delete table condition args = do
    st ← delete_statement table (build_delete_statement table condition)
    exec st args

  unfoldable pub delete_on_pk : Bytes → Option (Struct f) → Call Syncer Unit
  delete_on_pk table model = do
    (cols, pks) ← lift (get_columns model true)
    _ ← lift (some_primary table pks)
    st ← delete_statement table (build_delete_statement_from_pk table cols)
    exec st pks

  unfoldable pub close_all : Dict t.Stmt → t.State → t.State
  close_all [] db = db
  close_all ((_, st) ∷ stmts) db = close_all stmts (t.close_stmt st db)

  -- Only the statements for inserts are closed.
  unfoldable pub close : Syncer → Syncer
  close s = record s { db = t.close_db (close_all s.insert_stmts s.db) }

  unfoldable pub truncate : Bytes → Call Syncer Unit
  truncate table s =
      let (r, db) = t.exec_text (codes "truncate table " ++ table) s.db in (r, record s { db = db })
