-- ===== src/Example.antt =====
-- mysql/example/example.go: a handler that prints the changes of one table.
use mysql_to_mssql.Base.{
  List, [], ◌∷◌, ◌++◌, some, Bytes, codes, Dict, Bool, true, false, ◌&&◌, eqb, pos, Result, ok,
  panic, ◌>>=◌, if◌then◌else◌,
}
use mysql_to_mssql.Reflect.{Foreign, GoType, type_string, Value, Struct}
use mysql_to_mssql.Syncer.Gob.{layout}
use mysql_to_mssql.Parser.Rows.{Callback, on_insert, on_update, on_delete}
use mysql_to_mssql.Parser.Wrapper.{Config, Canals, new_event_wrapper, start_binlog_listener, close}
use mysql_to_mssql.Parser.Wrapper

abbrev pub schema : Bytes
schema = codes "sakila"

abbrev pub staff_table : Bytes
staff_table = codes "Staff"

module _ (f : Foreign) where
  -- StaffModel{}, with its zero values.
  abbrev pub staff_model : Struct f
  staff_model =
      record { tag = codes "column:staff_id"; field_type = GoType.int; value = Value.int (pos 0) }
      ∷ record {
        tag = codes "column:first_name";
        field_type = GoType.string;
        value = Value.string [];
      }
      ∷ record {
        tag = codes "column:last_name";
        field_type = GoType.string;
        value = Value.string [];
      }
      ∷ record {
        tag = codes "column:address_id";
        field_type = GoType.int;
        value = Value.int (pos 0);
      }
      ∷ record {
        tag = codes "column:email";
        field_type = GoType.ptr GoType.string;
        value = Value.nil;
      }
      ∷ record {
        tag = codes "column:picture";
        field_type = GoType.ptr GoType.blob;
        value = Value.nil;
      }
      ∷ record { tag = codes "column:store_id"; field_type = GoType.int; value = Value.int (pos 0) }
      ∷ record { tag = codes "column:active"; field_type = GoType.bool; value = Value.bool false }
      ∷ record {
        tag = codes "column:last_update";
        field_type = GoType.time;
        value = Value.time f.zero_time;
      }
      ∷ []

  abbrev pub models : Dict (Struct f)
  models = (staff_table, staff_model) ∷ []

-- Types are the same if their fields have the same tags and types, by the text of these.
unfoldable pub same_fields : List (Bytes × GoType) → List (Bytes × GoType) → Bool
same_fields [] [] = true
same_fields [] (_ ∷ _) = false
same_fields (_ ∷ _) [] = false
same_fields ((tag, t) ∷ xs) ((tag', t') ∷ ys) =
    eqb tag tag' && (eqb (type_string t) (type_string t') && same_fields xs ys)

module _ {f : Foreign} where
  -- rec.(StaffModel)
  unfoldable pub as_staff : Struct f → Result (Struct f)
  as_staff rec = if same_fields (layout rec) (layout (staff_model f)) then ok rec else panic

  -- What the handler prints: the row of an insert, the new row of an update, the row of a delete.
  unfoldable pub handle : Callback f → Result (Struct f)
  handle (on_insert rec) = as_staff rec
  handle (on_update old_rec new_rec) = as_staff new_rec
  handle (on_delete rec) = as_staff rec

-- What the example calls of crypto and of the file system: the key pair of two files, the text of a
-- file, of which an error is dropped, a pool with the certificates of a text, and a configuration.
pub record Files : Type 1 where
  pub Tls : Type 0
  pub Pool : Type 0
  pub Pair : Type 0
  pub load_x509_key_pair : Bytes → Bytes → Result Pair
  pub read_file : Bytes → Bytes
  pub pool_of : Bytes → Pool
  pub tls : Bytes → Pair → Pool → Tls
  pub canals : Canals Tls

module _ (k : Files) where
  -- An error of the key pair is a panic.
  unfoldable pub config_of : Result k.Pair → Result (Config k.Tls)
  config_of (ok cer) = ok (record {
    server_id = 1;
    addr = codes "35.240.181.214:3306";
    user = codes "root";
    password = codes "root";
    include_table_regex = (schema ++ codes "\\." ++ staff_table) ∷ [];
    exclude_table_regex = [];
    use_decimal = true;
    charset = [];
    tls_config = some (
        k.tls (codes "mysql-to-mssql-syncer:a1") cer
          (k.pool_of (k.read_file (codes "server-ca.pem"))));
  })
  config_of _ = panic

  unfoldable pub get_default_config : Result (Config k.Tls)
  get_default_config =
      config_of (k.load_x509_key_pair (codes "client-cert.pem") (codes "client-key.pem"))

  -- The deferred Close: also where the listener panics, and then the panic goes on.
  unfoldable pub closed :
      Wrapper.EventHandlerWrapper k.canals
      → Result (Wrapper.EventHandlerWrapper k.canals)
      → Result (k.canals.Canal × Wrapper.EventHandlerWrapper k.canals)
  closed w (ok w') = close k.canals w'
  closed w _ = close k.canals w >>= λ _. panic

  unfoldable pub main : Result (k.canals.Canal × Wrapper.EventHandlerWrapper k.canals)
  main = do
    cfg ← get_default_config
    w ← new_event_wrapper k.canals cfg
    closed w (start_binlog_listener k.canals w)
