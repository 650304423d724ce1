-- ===== src/Tests/Replication.antt =====
-- Events and ticks, one after the other.
use mysql_to_mssql.Base.{
  ◌≡◌, refl, List, [], ◌∷◌, codes, lookup, insert as assign, eqb, length, ok, split2, contains,
  trim_right, some,
}
use mysql_to_mssql.Reflect.{type_string, type_name}
use mysql_to_mssql.Db.Inmem.{
  bucket_of, items, assign as assign_items, init_bucket, init_key, init_map, push,
}
use mysql_to_mssql.Db.Inmem.Queue.{push_ok, size-eq-length, get_all_key-eq-items, rem_ok}
use mysql_to_mssql.Parser.Tags
use mysql_to_mssql.Parser.Cells
use mysql_to_mssql.Parser.Fields
use mysql_to_mssql.Parser.Rows
use mysql_to_mssql.Parser.Rows.{Callback, on_insert}
use mysql_to_mssql.Syncer.Columns
use mysql_to_mssql.Syncer.Statements
use mysql_to_mssql.Syncer.Store.{
  encode_bytes, encode, encode_models, push_encoded, log_insert, log_update, log_delete, stopped,
}
use mysql_to_mssql.Syncer.Writer
use mysql_to_mssql.Syncer.Service.{counted}
use mysql_to_mssql.Syncer.Service.Delivery.{log_event, log_all, deliver, apply_event}
use mysql_to_mssql.Api.Replication.{
  Input, arrives, ticks, Replica, Replicates, replicate_all, run_all, enqueue, dequeue,
}
use mysql_to_mssql.Api.Replication.Refines.{run_all-Replicates}
use mysql_to_mssql.Syncer.Columns.{columns_of}
use mysql_to_mssql.Syncer.Writer.Ran.{Ran}
use mysql_to_mssql.Syncer.Store.RoundTrip.{Event, inserted, updated, deleted, record_of}
use mysql_to_mssql.Syncer.Gob.{Sent}
use mysql_to_mssql.Tests.Fixtures.{units, recorder, table, user, idle}
use mysql_to_mssql.Tests.Packages.{
  stored, disk, dynamic, packages, Stored, stream, syncing, running,
}
use mysql_to_mssql.Tests.Rows.{event}

abbrev inputs : List (Input units)
inputs = arrives event ∷ ticks ∷ arrives event ∷ []

-- What waits after an event.
abbrev reported : List (Event units)
reported = inserted (user 1 (codes "ann")) ∷ inserted (user 2 (codes "ann")) ∷ []

abbrev start : Replica stored disk recorder
start = record { models = (table, user 0 []) ∷ []; pending = λ name. []; syncer = idle }

abbrev finish : Replica stored disk recorder
finish = record {
  models = (table, user 2 (codes "ann")) ∷ [];
  pending = enqueue table reported (dequeue table (enqueue table reported (λ name. [])));
  syncer = (deliver stored disk recorder table reported (idle, 0)).1.0;
}

syncing-Replicates : Replicates stored disk recorder dynamic packages syncing start
unfolding items bucket_of lookup
syncing-Replicates = record {
  running = running;
  starts = refl;
  waits = refl;
  logs = refl;
  same_target = refl;
  same_models = refl;
  distinct = (refl, tt);
  encoded = λ name. tt;
  typed = λ name p h. tt;
}

encodes : (ev : Event units) → (w : Stored) × (encode_bytes stored (record_of ev) ≡ ok w)
unfolding encode_bytes encode encode_models
encodes (inserted m) = (stream (Sent.action 1 ∷ Sent.model m ∷ []), refl)
encodes (updated old new) = (stream (Sent.action 2 ∷ Sent.model new ∷ Sent.model old ∷ []), refl)
encodes (deleted m) = (stream (Sent.action 3 ∷ Sent.model m ∷ []), refl)

finishes : replicate_all stored disk recorder inputs start ≡ some finish
unfolding Rows.on_row Rows.on_model Rows.row_loop Rows.call_handler Rows.get_bin_log_data
    Rows.returned Rows.set_fields Rows.loop_round Rows.set_field Rows.keep_field Rows.process_field
    Rows.or_else Rows.process_json Fields.process_nillable Fields.process_non_nil Fields.set_if
    Fields.set_pointer Fields.set_uint_pointer Cells.column_id Cells.column_id_from Cells.get_int
    Cells.get_string Cells.read Cells.of_cell Cells.cell_at Cells.index Cells.in_range Cells.int_of
    Cells.to_int64 Cells.string_of Cells.text_of Cells.as_bytes Tags.parse_tag_setting
    Tags.hack_find Tags.find_last Tags.cut_at Tags.slice type_string type_name log_all log_event
    log_insert log_update log_delete push_encoded encode_bytes encode encode_models push init_map
    init_key init_bucket items bucket_of assign_items lookup assign eqb deliver apply_event counted
    stopped Writer.insert Writer.insert_statement Writer.some_primary Writer.prepared Writer.prepare
    Writer.exec Writer.keep_insert Columns.get_columns Columns.columns_of Columns.add_column
    Columns.column_value Columns.wide_value Columns.is_nil_ptr Columns.kept Columns.is_primary_tag
    Columns.parse_tag_setting Statements.build_insert_statement Statements.insert_names
    Statements.insert_marks Statements.placeholder split2 contains trim_right
finishes = refl

run_all-Replicates_example :
    ((run_all stored disk recorder dynamic packages inputs syncing).0 ≡ ok tt)
    × Replicates stored disk recorder dynamic packages
        (run_all stored disk recorder dynamic packages inputs syncing).1
        finish
run_all-Replicates_example =
    run_all-Replicates stored disk recorder dynamic packages
      (λ b k db. (length (items b k db), size-eq-length db b k))
      (λ b k db. (items b k db, get_all_key-eq-items db b k)) (λ b k n db. rem_ok db b k n)
      (λ b k w db. push_ok db b k w) encodes inputs syncing start finish finishes syncing-Replicates
