-- ===== src/Tests/Scans.antt =====
-- Scans of a log with one insert, into a table of the target and into one that refuses it.
use mysql_to_mssql.Base.{
  ◌≡◌, refl, List, [], ◌∷◌, Bytes, codes, eqb, lookup, insert as assign, split2, contains, false,
  length,
}
use mysql_to_mssql.Db.Inmem.{
  bucket_of, items, assign as assign_items, init_bucket, init_key, init_map, get_all_key, size, rem,
}
use mysql_to_mssql.Db.Inmem.Queue.{size-eq-length}
use mysql_to_mssql.Reflect.{Struct, type_string}
use mysql_to_mssql.Syncer.Gob.{Sent}
use mysql_to_mssql.Syncer.Columns
use mysql_to_mssql.Syncer.Statements
use mysql_to_mssql.Syncer.Store
use mysql_to_mssql.Syncer.Store.{bucket}
use mysql_to_mssql.Syncer.Writer
use mysql_to_mssql.Syncer.Service
use mysql_to_mssql.Syncer.Service.{World, sync_table, sync_all_models}
use mysql_to_mssql.Syncer.Service.Scan.{sync_all_models-drains}
use mysql_to_mssql.Syncer.Service.Meanwhile.{finish_table-keeps}
use mysql_to_mssql.Syncer.Service.Blocked.{sync_table-blocked}
use mysql_to_mssql.Syncer.Schedule.{waiting, no_return, tick, stop}
use mysql_to_mssql.Syncer.Schedule.Stops.{ticked, asked, run, alive, blocked_is_final}
use mysql_to_mssql.Tests.Fixtures.{units, streams, memory, recorder, table, user, idle}

abbrev ann : Struct units
ann = user 1 (codes "ann")

abbrev row : List (Sent units)
row = Sent.action 1 ∷ Sent.model ann ∷ []

-- Two changes are logged for the table of that name.
abbrev logged : Bytes → World streams memory recorder
logged name = record { db = (bucket, (name, row ∷ row ∷ []) ∷ []) ∷ []; syncer = idle }

abbrev bad : Bytes
bad = codes "bad"

sync_all_models-drains_example :
    memory.queue
      (sync_all_models streams memory recorder false ((table, ann) ∷ []) (logged table)).1.db
      bucket
      table
    ≡ []
unfolding Service.sync_all_models Service.sync_table Service.scan_table Service.finish_table
    Service.removed Service.callback Service.counted Service.perform Writer.insert
    Writer.insert_statement Writer.prepared Writer.prepare Writer.exec Writer.keep_insert
    Columns.get_columns Columns.columns_of Columns.add_column Columns.column_value
    Columns.wide_value Columns.is_nil_ptr Columns.kept Columns.is_primary_tag
    Columns.parse_tag_setting Statements.build_insert_statement Statements.insert_names
    Statements.insert_marks Statements.placeholder Store.size Store.l_rem Store.get_all
    Store.loop_over Store.for_each Store.attempt Store.stopped Store.decode_bytes Store.decode_rest
    Store.decode items bucket_of assign_items init_map init_key init_bucket get_all_key size rem
    lookup assign eqb split2 contains type_string
sync_all_models-drains_example =
    sync_all_models-drains streams memory recorder
      (λ b k db. (length (items b k db), size-eq-length db b k)) ((table, ann) ∷ []) (logged table)
      refl bucket table

sync_table-blocked_example :
    memory.queue (sync_table streams memory recorder false bad ann (logged bad)).1.db bucket bad
    ≡ row ∷ row ∷ []
unfolding Service.sync_all_models Service.sync_table Service.scan_table Service.finish_table
    Service.removed Service.callback Service.counted Service.perform Writer.insert
    Writer.insert_statement Writer.prepared Writer.prepare Writer.exec Writer.keep_insert
    Columns.get_columns Columns.columns_of Columns.add_column Columns.column_value
    Columns.wide_value Columns.is_nil_ptr Columns.kept Columns.is_primary_tag
    Columns.parse_tag_setting Statements.build_insert_statement Statements.insert_names
    Statements.insert_marks Statements.placeholder Store.size Store.l_rem Store.get_all
    Store.loop_over Store.for_each Store.attempt Store.stopped Store.decode_bytes Store.decode_rest
    Store.decode items bucket_of assign_items init_map init_key init_bucket get_all_key size rem
    lookup assign eqb split2 contains type_string
sync_table-blocked_example =
    sync_table-blocked streams memory recorder false bad ann (logged bad) refl bucket bad

blocked_is_final_example :
    ((run streams memory recorder (asked ∷ ticked ((bad, ann) ∷ []) ∷ []) (
        tick streams memory recorder
          ((bad, ann) ∷ [])
          (alive streams memory recorder waiting (logged bad)))).world
      ≡ (sync_all_models streams memory recorder false ((bad, ann) ∷ []) (logged bad)).1)
    × ((stop streams memory recorder (
          run streams memory recorder (asked ∷ ticked ((bad, ann) ∷ []) ∷ []) (
            tick streams memory recorder
              ((bad, ann) ∷ [])
              (alive streams memory recorder waiting (logged bad))))).0
        ≡ no_return)
unfolding Service.sync_all_models Service.sync_table Service.scan_table Service.finish_table
    Service.removed Service.callback Service.counted Service.perform Writer.insert
    Writer.insert_statement Writer.prepared Writer.prepare Writer.exec Writer.keep_insert
    Columns.get_columns Columns.columns_of Columns.add_column Columns.column_value
    Columns.wide_value Columns.is_nil_ptr Columns.kept Columns.is_primary_tag
    Columns.parse_tag_setting Statements.build_insert_statement Statements.insert_names
    Statements.insert_marks Statements.placeholder Store.size Store.l_rem Store.get_all
    Store.loop_over Store.for_each Store.attempt Store.stopped Store.decode_bytes Store.decode_rest
    Store.decode items bucket_of assign_items init_map init_key init_bucket get_all_key size rem
    lookup assign eqb split2 contains type_string
blocked_is_final_example =
    blocked_is_final streams memory recorder ((bad, ann) ∷ [])
      (asked ∷ ticked ((bad, ann) ∷ []) ∷ []) (logged bad) refl

-- A third change has been logged meanwhile.
abbrev grown : memory.State
grown = (bucket, (table, row ∷ row ∷ row ∷ []) ∷ []) ∷ []

finish_table-keeps_example :
    memory.queue
      (Service.finish_table streams memory recorder false table (
        (Store.get_all streams memory table ann
            (Service.callback streams memory recorder table)
            (logged table).db
            (idle, 0)).0,
        grown,
        (Store.get_all streams memory table ann
            (Service.callback streams memory recorder table)
            (logged table).db
            (idle, 0)).2,
      )).1.db
      bucket
      table
    ≡ row ∷ []
unfolding Service.sync_all_models Service.sync_table Service.scan_table Service.finish_table
    Service.removed Service.callback Service.counted Service.perform Writer.insert
    Writer.insert_statement Writer.prepared Writer.prepare Writer.exec Writer.keep_insert
    Columns.get_columns Columns.columns_of Columns.add_column Columns.column_value
    Columns.wide_value Columns.is_nil_ptr Columns.kept Columns.is_primary_tag
    Columns.parse_tag_setting Statements.build_insert_statement Statements.insert_names
    Statements.insert_marks Statements.placeholder Store.size Store.l_rem Store.get_all
    Store.loop_over Store.for_each Store.attempt Store.stopped Store.decode_bytes Store.decode_rest
    Store.decode items bucket_of assign_items init_map init_key init_bucket get_all_key size rem
    lookup assign eqb split2 contains type_string
finish_table-keeps_example =
    finish_table-keeps streams memory recorder table ann (logged table).db grown idle (row ∷ [])
      refl refl refl
