-- ===== src/Tests/Pipeline.antt =====
-- An event of the binlog, through the parser, the API and the log to the target.
use mysql_to_mssql.Base.{
  ◌≡◌, refl, List, [], ◌∷◌, map, codes, lookup, insert as assign, eqb, length, ok, split2, contains,
  trim_right, some,
}
use mysql_to_mssql.Reflect.{Struct, type_string, type_name}
use mysql_to_mssql.Db.Inmem.{
  bucket_of, items, assign as assign_items, init_bucket, init_key, init_map, push,
}
use mysql_to_mssql.Db.Inmem.Queue.{size-eq-length, get_all_key-eq-items, rem_ok}
use mysql_to_mssql.Parser.Tags
use mysql_to_mssql.Parser.Cells
use mysql_to_mssql.Parser.Fields
use mysql_to_mssql.Parser.Rows
use mysql_to_mssql.Parser.Rows.{Callback, on_insert}
use mysql_to_mssql.Syncer.Columns
use mysql_to_mssql.Syncer.Statements
use mysql_to_mssql.Syncer.Store.{
  encode_bytes, encode, encode_models, push_encoded, log_insert, log_update, log_delete, stopped,
}
use mysql_to_mssql.Syncer.Writer
use mysql_to_mssql.Syncer.Service.{counted}
use mysql_to_mssql.Syncer.Service.Delivery.{log_event, log_all, deliver, apply_event}
use mysql_to_mssql.Api.Events.{on_event}
use mysql_to_mssql.Api.Events.Pipeline.{change_of, Synced, on_event-sync_table}
use mysql_to_mssql.Tests.Fixtures.{units, recorder, table, user, idle}
use mysql_to_mssql.Tests.Packages.{stored, disk, dynamic, packages, parsing}
use mysql_to_mssql.Tests.Rows.{event}

-- The calls that the parser makes for the event.
abbrev calls : List (Callback units)
calls = on_insert (user 1 (codes "ann")) ∷ on_insert (user 2 (codes "ann")) ∷ []

on_event-sync_table_example :
    ((on_event stored disk recorder dynamic packages event parsing).0 ≡ ok tt)
    × ((p' : Struct units) × (lookup table
            (on_event stored disk recorder dynamic packages event parsing).1.data_models
          ≡ some p')
        × Synced stored disk recorder dynamic packages
            (λ b k db. (length (items b k db), size-eq-length db b k))
            (λ b k db. (items b k db, get_all_key-eq-items db b k))
            (λ b k n db. rem_ok db b k n)
            table
            p'
            (on_event stored disk recorder dynamic packages event parsing).1.db_interface
            idle
            (map change_of calls))
unfolding Rows.on_row Rows.on_model Rows.row_loop Rows.call_handler Rows.get_bin_log_data
    Rows.returned Rows.set_fields Rows.loop_round Rows.set_field Rows.keep_field Rows.process_field
    Rows.or_else Rows.process_json Fields.process_nillable Fields.process_non_nil Fields.set_if
    Fields.set_pointer Fields.set_uint_pointer Cells.column_id Cells.column_id_from Cells.get_int
    Cells.get_string Cells.read Cells.of_cell Cells.cell_at Cells.index Cells.in_range Cells.int_of
    Cells.to_int64 Cells.string_of Cells.text_of Cells.as_bytes Tags.parse_tag_setting
    Tags.hack_find Tags.find_last Tags.cut_at Tags.slice type_string type_name log_all log_event
    log_insert log_update log_delete push_encoded encode_bytes encode encode_models push init_map
    init_key init_bucket items bucket_of assign_items lookup assign eqb deliver apply_event counted
    stopped Writer.insert Writer.insert_statement Writer.some_primary Writer.prepared Writer.prepare
    Writer.exec Writer.keep_insert Columns.get_columns Columns.columns_of Columns.add_column
    Columns.column_value Columns.wide_value Columns.is_nil_ptr Columns.kept Columns.is_primary_tag
    Columns.parse_tag_setting Statements.build_insert_statement Statements.insert_names
    Statements.insert_marks Statements.placeholder split2 contains trim_right
on_event-sync_table_example =
    on_event-sync_table stored disk recorder dynamic packages
      (λ b k db. (length (items b k db), size-eq-length db b k))
      (λ b k db. (items b k db, get_all_key-eq-items db b k)) (λ b k n db. rem_ok db b k n) event
      parsing (user 0 []) calls ((table, user 2 (codes "ann")) ∷ []) idle refl refl refl refl refl
      refl
