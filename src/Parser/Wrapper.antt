-- ===== src/Parser/Wrapper.antt =====
-- mysql/parser/wrapper.go: the canal that reads the binlog, and its start and end.
use mysql_to_mssql.Base.{ℕ, Bool, List, Option, none, some, Bytes, codes, Result, ok, panic, Call}

-- A TLS configuration is made by the API, of the package crypto/tls.
pub record Config (Tls : Type 0) : Type 0 where
  pub server_id : ℕ
  pub addr : Bytes
  pub user : Bytes
  pub password : Bytes
  pub include_table_regex : List Bytes
  pub exclude_table_regex : List Bytes
  pub use_decimal : Bool
  pub charset : Bytes
  pub tls_config : Option Tls

-- canal.Config of go-mysql, in the fields that are set.
pub record CanalConfig (Tls : Type 0) : Type 0 where
  pub flavor : Bytes
  pub settings : Config Tls

-- The package canal: connections to the source.
pub record Canals (Tls : Type 0) : Type 1 where
  pub Canal : Type 0
  pub Position : Type 0
  pub new_canal : CanalConfig Tls → Result Canal
  pub set_event_handler : Canal → Canal
  pub get_master_pos : Call Canal Position
  pub run_from : Position → Canal → Canal
  pub close : Canal → Canal

module _ {Tls : Type 0} (c : Canals Tls) where
  -- The canal is nil once the wrapper is closed.
  pub record EventHandlerWrapper : Type 0 where
    pub canal : Option c.Canal
    pub cfg : Config Tls

  -- An error of NewCanal is a panic. (Models and handler are the API's.)
  unfoldable pub new_event_wrapper : Config Tls → Result EventHandlerWrapper
  new_event_wrapper cfg = elim (c.new_canal (record { flavor = codes "mysql"; settings = cfg })) [
    | ok canal ↦ ok (record { canal = some canal; cfg = cfg })
    | _ ↦ panic
  ]

  -- RunFrom, if there is a position.
  unfoldable pub run_at : Result c.Position × c.Canal → c.Canal
  run_at (ok coords, canal) = c.run_from coords canal
  run_at (_, canal) = canal

  unfoldable pub start_on : Option c.Canal → EventHandlerWrapper → Result EventHandlerWrapper
  start_on none w = panic
  start_on (some canal) w =
      ok (record w { canal = some (run_at (c.get_master_pos (c.set_event_handler canal))) })

  unfoldable pub start_binlog_listener : EventHandlerWrapper → Result EventHandlerWrapper
  start_binlog_listener w = start_on w.canal w

  -- Close of a nil canal is a panic.
  unfoldable pub close_on :
      Option c.Canal → EventHandlerWrapper → Result (c.Canal × EventHandlerWrapper)
  close_on none w = panic
  close_on (some canal) w = ok (c.close canal, record w { canal = none })

  unfoldable pub close : EventHandlerWrapper → Result (c.Canal × EventHandlerWrapper)
  close w = close_on w.canal w
