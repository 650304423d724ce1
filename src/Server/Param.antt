-- ===== src/Server/Param.antt =====
-- server/param/param.go: the requests.
use mysql_to_mssql.Base.{ℕ, Bool, List, Bytes, ℤ}
use mysql_to_mssql.Db.Types.{MySqlType}

pub record Column : Type 0 where
  pub name : Bytes
  pub column_type : MySqlType
  pub is_primary : Bool

pub record StructRequest : Type 0 where
  pub table : Bytes
  pub columns : List Column

pub record TlsParam : Type 0 where
  pub server_name : Bytes
  pub server_ca : Bytes
  pub client_cert : Bytes
  pub client_key : Bytes

pub record StartParserRequest : Type 0 where
  pub server_id : ℕ
  pub addr : Bytes
  pub user : Bytes
  pub password : Bytes
  pub include_table_regex : List Bytes
  pub exclude_table_regex : List Bytes
  pub use_decimal : Bool
  pub charset : Bytes
  pub tls_config : TlsParam

pub record StartSyncerRequest : Type 0 where
  pub interval : ℤ
  pub server : Bytes
  pub database : Bytes
  pub user_id : Bytes
  pub password : Bytes
  pub log : ℕ
  pub encrypt : Bytes
  pub app_name : Bytes
