-- ===== src/Api.antt =====
-- server/API/api.go: the methods of API.
pub mod Models
pub mod Lifecycle
pub mod Events
pub mod Reload
pub mod LogChan
pub mod Replication
use mysql_to_mssql.Base.{
  ℕ, ◌==◌, Bool, true, false, ◌||◌, if◌then◌else◌, List, [], ◌∷◌, ◌++◌, map, Option, none, some,
  Bytes, codes, eqb, length, Dict, lookup, insert, ℤ, pos, Result, ok, err, panic, ◌>>=◌, Call,
}
use mysql_to_mssql.Base.Calls.{after}
use mysql_to_mssql.Reflect.{Foreign, Struct}
use mysql_to_mssql.Db.Interface.{Entry, Interface}
use mysql_to_mssql.Parser.Wrapper.{Config, Canals, EventHandlerWrapper, new_event_wrapper, close}
use mysql_to_mssql.Syncer.Gob.{Gob}
use mysql_to_mssql.Syncer.Store.{new_store, log_insert, log_update, log_delete}
use mysql_to_mssql.Syncer.Target.{Target}
use mysql_to_mssql.Syncer.Writer
use mysql_to_mssql.Syncer.Writer.{TargetDbConfig, Syncer, new_syncer}
use mysql_to_mssql.Syncer.Service.{World}
use mysql_to_mssql.Syncer.Schedule
use mysql_to_mssql.Syncer.Schedule.{Worker, absent, Reply, stopped, failed, no_return, Service}
use mysql_to_mssql.Server.Param.{StructRequest, TlsParam, StartParserRequest, StartSyncerRequest}
use mysql_to_mssql.Api.Models.{Dynamic, generate_struct}

-- const bucket = "API"
abbrev pub bucket : Bytes
bucket = codes "API"

-- What the API calls of crypto: a pool with the certificates of a text, if there are any, a key
-- pair, and a configuration of these; and of jsoniter.
pub record Packages (V : Type 0) : Type 1 where
  pub Tls : Type 0
  pub Pool : Type 0
  pub Pair : Type 0
  pub append_certs_from_pem : Bytes → Option Pool
  pub x509_key_pair : Bytes → Bytes → Result Pair
  pub tls : Bytes → Pair → Pool → Tls
  pub canals : Canals Tls
  pub marshal : StructRequest → Result V
  -- an empty text, which is not valid, stands for no bytes
  pub no_bytes : V
  pub unmarshal : V → Result StructRequest

module _ {V : Type 0} (k : Packages V) where
  unfoldable pub create_tls_config : TlsParam → Result (Option k.Tls)
  create_tls_config p =
      if eqb p.server_name [] then ok none else elim (k.append_certs_from_pem p.server_ca) [
        | none ↦ panic
        | some pool ↦ elim (k.x509_key_pair p.client_cert p.client_key) [
          | ok pair ↦ ok (some (k.tls p.server_name pair pool))
          | _ ↦ panic
        ]
      ]

  unfoldable pub create_parser_config : StartParserRequest → Result (Config k.Tls)
  create_parser_config p = create_tls_config p.tls_config >>= λ tls_config. ok (record {
    server_id = p.server_id;
    addr = p.addr;
    user = p.user;
    password = p.password;
    include_table_regex = p.include_table_regex;
    exclude_table_regex = p.exclude_table_regex;
    use_decimal = p.use_decimal;
    charset = p.charset;
    tls_config = tls_config;
  })

-- The fields of the request; an empty one is what the configuration has anyway.
unfoldable pub target_config : StartSyncerRequest → TargetDbConfig
target_config p = record {
  server = p.server;
  database = p.database;
  userid = p.user_id;
  password = p.password;
  log = p.log;
  encrypt = p.encrypt;
  appname = p.app_name;
}

-- param.Interval, or 1 for 0
unfoldable pub interval_of : ℤ → ℤ
interval_of (pos n) = if n == 0 then pos 1 else pos n
interval_of z = z

module _ {f : Foreign} (g : Gob f) (i : Interface g.Wire) (t : Target f) (d : Dynamic)
    (k : Packages g.Wire) where
  -- A syncer with its goroutine.
  pub record Running : Type 0 where
    pub syncer : Syncer t
    pub worker : Worker
    pub signal : Bool
    pub interval : ℤ

  -- The log store is nil or not: it has the API's own storage, and its map of models is the API's.
  -- `left` has the syncers that the API had before, whose goroutines are not ended.
  pub record Api : Type 0 where
    pub data_models : Dict (Struct f)
    pub db_interface : i.State
    pub event_wrapper : Option (EventHandlerWrapper k.canals)
    pub syncer : Option Running
    pub log_store : Bool
    pub left : List Running

  -- json.Marshal, whose error is dropped: the error of Put takes its variable.
  unfoldable pub bytes_of : Result g.Wire → Result g.Wire
  bytes_of (ok b) = ok b
  bytes_of (err e) = ok k.no_bytes
  bytes_of panic = panic

  unfoldable pub put_bytes : Bytes → Result g.Wire → Call Api Unit
  put_bytes table (ok b) a =
      let (r, db) = i.put bucket table b 0 a.db_interface in (r, record a { db_interface = db })
  put_bytes table (err e) a = (err e, a)
  put_bytes table panic a = (panic, a)

  unfoldable pub store_to_db : StructRequest → Call Api Unit
  store_to_db p = put_bytes p.table (bytes_of (k.marshal p))

  -- The model is set before it is stored.
  unfoldable pub put : StructRequest → Call Api (Struct f)
  put p a =
      after (generate_struct d p.columns, a)
        (λ strct a'.
          after (store_to_db p (record a' { data_models = insert p.table strct a'.data_models }))
            (λ _ a₂. (ok strct, a₂)))

  unfoldable pub get : Bytes → Api → Option (Struct f)
  get table a = lookup table a.data_models

  -- The loop of LoadDataModels.
  unfoldable pub load_entries :
      List (Entry g.Wire) → Dict (Struct f) → Result (Unit {0}) × Dict (Struct f)
  load_entries [] models = (ok tt, models)
  load_entries (e ∷ es) models =
      after (k.unmarshal e.value >>= λ p. generate_struct d p.columns, models)
        (λ strct models'. load_entries es (insert e.key strct models'))

  unfoldable pub load_from : Result (List (Entry g.Wire)) → Call Api Unit
  load_from (ok entries) a =
      let (r, models) = load_entries entries a.data_models in (r, record a { data_models = models })
  load_from (err e) a = (err e, a)
  load_from panic a = (panic, a)

  unfoldable pub load_data_models : Call Api Unit
  load_data_models a =
      let (r, db) = i.get_all bucket a.db_interface in load_from r (record a { db_interface = db })
