-- ===== src/Tests/Log.antt =====
-- Three changes of one table, logged, read back and delivered.
use mysql_to_mssql.Base.{◌≡◌, refl, List, [], ◌∷◌, codes, ok, eqb, lookup, insert as assign}
use mysql_to_mssql.Db.Inmem.{
  bucket_of, items, assign as assign_items, init_bucket, init_key, init_map, push, use_inmem_db,
}
use mysql_to_mssql.Reflect.{Struct, GoType, Value}
use mysql_to_mssql.Syncer.Store.Lost.{pointer, decode_bytes-lost}
use mysql_to_mssql.Syncer.Gob.{Sent}
use mysql_to_mssql.Syncer.Store.{
  encode_bytes, encode, encode_models, decode_bytes, push_encoded, log_insert, log_update,
  log_delete, bucket,
}
use mysql_to_mssql.Syncer.Store.RoundTrip.{
  Event, inserted, updated, deleted, read_back, decode_bytes-encode_bytes,
}
use mysql_to_mssql.Syncer.Service.Delivery.{log_event, log_all, deliver}
use mysql_to_mssql.Base.{length, split2, contains, trim_right, false}
use mysql_to_mssql.Db.Inmem.Queue.{size-eq-length, get_all_key-eq-items, rem_ok}
use mysql_to_mssql.Reflect.{type_string}
use mysql_to_mssql.Syncer.Columns
use mysql_to_mssql.Syncer.Statements
use mysql_to_mssql.Syncer.Writer
use mysql_to_mssql.Syncer.Store.{stopped}
use mysql_to_mssql.Syncer.Service.{counted, sync_table, next}
use mysql_to_mssql.Syncer.Service.Delivery.{apply_event}
use mysql_to_mssql.Syncer.Service.Applied.{sync_table-deliver}
use mysql_to_mssql.Tests.Fixtures.{units, streams, memory, recorder, table, user, idle}

abbrev ann : Struct units
ann = user 1 (codes "ann")

abbrev bob : Struct units
bob = user 1 (codes "bob")

abbrev changes : List (Event units)
changes = inserted ann ∷ updated ann bob ∷ deleted bob ∷ []

decode_bytes-encode_bytes_example :
    decode_bytes streams (Sent.action 2 ∷ Sent.model bob ∷ Sent.model ann ∷ []) ann
    ≡ ok (read_back streams ann (updated ann bob))
unfolding encode_bytes encode encode_models
decode_bytes-encode_bytes_example =
    decode_bytes-encode_bytes streams ann (updated ann bob) _ (refl, refl) refl

sync_table-deliver_example :
    ((sync_table streams memory recorder false table ann (record {
      db = (log_all streams memory recorder table changes use_inmem_db).1;
      syncer = idle;
    })).0
      ≡ next)
    × ((sync_table streams memory recorder false table ann (record {
      db = (log_all streams memory recorder table changes use_inmem_db).1;
      syncer = idle;
    })).1.syncer
        ≡ (deliver streams memory recorder table changes (idle, 0)).1.0)
    × (memory.queue
          (sync_table streams memory recorder false table ann (record {
            db = (log_all streams memory recorder table changes use_inmem_db).1;
            syncer = idle;
          })).1.db
          bucket
          table
        ≡ [])
unfolding log_all log_event log_insert log_update log_delete push_encoded encode_bytes encode
    encode_models push init_map init_key init_bucket items bucket_of assign_items lookup assign eqb
    use_inmem_db deliver apply_event counted stopped Writer.insert Writer.update_on_pk
    Writer.delete_on_pk Writer.insert_statement Writer.update_statement Writer.delete_statement
    Writer.some_primary Writer.prepared Writer.prepare Writer.exec Writer.keep_insert
    Writer.keep_update Writer.keep_delete Columns.get_columns Columns.columns_of Columns.add_column
    Columns.column_value Columns.wide_value Columns.is_nil_ptr Columns.kept Columns.is_primary_tag
    Columns.parse_tag_setting Statements.build_insert_statement Statements.insert_names
    Statements.insert_marks Statements.placeholder split2 contains type_string
    Statements.build_update_statement trim_right Statements.update_sets Statements.update_where
    Statements.primary_conditions Statements.build_delete_statement_from_pk Statements.delete_where
sync_table-deliver_example =
    sync_table-deliver streams memory recorder
      (λ b k db. (length (items b k db), size-eq-length db b k))
      (λ b k db. (items b k db, get_all_key-eq-items db b k)) (λ b k n db. rem_ok db b k n) table
      ann changes use_inmem_db idle (refl, ((refl, refl), (refl, tt))) refl refl refl

-- A user whose name is a pointer to an empty text, against one whose name is NULL.
decode_bytes-lost_example :
    decode_bytes streams
      (Sent.action 1
        ∷ Sent.model (pointer streams (codes "column:name") GoType.string (Value.string []) ∷ [])
        ∷ [])
      (pointer streams (codes "column:name") GoType.string Value.nil ∷ [])
    ≡ decode_bytes streams
        (Sent.action 1
          ∷ Sent.model (pointer streams (codes "column:name") GoType.string Value.nil ∷ [])
          ∷ [])
        (pointer streams (codes "column:name") GoType.string Value.nil ∷ [])
unfolding encode_bytes encode encode_models
decode_bytes-lost_example =
    decode_bytes-lost streams (pointer streams (codes "column:name") GoType.string Value.nil ∷ [])
      [] [] (codes "column:name") GoType.string (Value.string []) _ _ refl refl refl refl
