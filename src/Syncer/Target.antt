-- ===== src/Syncer/Target.antt =====
-- The target database behind database/sql and the driver for MSSQL: connections and statements.
use mysql_to_mssql.Base.{◌≡◌, List, Bytes, Result, ok, Call}
use mysql_to_mssql.Reflect.{Foreign, Value}

pub record Target (f : Foreign) : Type 1 where
  pub State : Type 0
  pub Stmt : Type 0
  -- sql.Open of a connection string
  pub connect : Bytes → Result State
  -- DB.Prepare, Stmt.Exec, DB.Exec
  pub prepare : Bytes → Call State Stmt
  pub exec : Stmt → List (Value f) → Call State Unit
  pub exec_text : Bytes → Call State Unit
  -- Stmt.Close, DB.Close
  pub close_stmt : Stmt → State → State
  pub close_db : State → State
  -- the query that a statement was prepared for
  pub text : Stmt → Bytes
  pub text-prepare :
      (query : Bytes) (s : State) (st : Stmt) → (prepare query s).0 ≡ ok st → text st ≡ query
