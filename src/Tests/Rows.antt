-- ===== src/Tests/Rows.antt =====
-- Rows of a binlog event, and tags.
use mysql_to_mssql.Base.{arith, ◌≡◌, refl, [], ◌∷◌, codes, ok, panic, insert as assign, some, pos}
use mysql_to_mssql.Reflect.{Field, GoType, Value}
use mysql_to_mssql.Db.Types.{MySqlType, convert}
use mysql_to_mssql.Parser.Sets.{set_value}
use mysql_to_mssql.Parser.Sets.Bits.{picked, magnitude, set_value_lem}
use mysql_to_mssql.Parser.Tags
use mysql_to_mssql.Parser.Tags.Delimiters.{IsPlain}
use mysql_to_mssql.Parser.Tags.Agreement.{parse_tag_setting-swapped, parse_tag_setting-rest}
use mysql_to_mssql.Parser.Cells
use mysql_to_mssql.Parser.Cells.{Cell, ColumnType, RowAction, RowsEvent, TableColumn}
use mysql_to_mssql.Parser.Fields
use mysql_to_mssql.Parser.Rows
use mysql_to_mssql.Parser.Rows.{row_loop, process_field}
use mysql_to_mssql.Parser.Rows.Nulls.{process_field-null, process_field-uint_pointer}
use mysql_to_mssql.Parser.Rows.Events.{row_loop-fuel}
use mysql_to_mssql.Parser.Rows.Reports.{Reports}
use mysql_to_mssql.Api.Models.Tags.{both, column-IsPlain, primary-IsPlain}
use mysql_to_mssql.Syncer.Columns
use mysql_to_mssql.Tests.Fixtures.{units, user}

abbrev pub id : TableColumn
id = record {
  name = codes "id";
  column_type = ColumnType.number;
  enum_values = [];
  set_values = [];
}

abbrev pub name : TableColumn
name = record {
  name = codes "name";
  column_type = ColumnType.string;
  enum_values = [];
  set_values = [];
}

-- The second row has no name.
abbrev pub event : RowsEvent units
event = record {
  action = RowAction.insert;
  schema = codes "db";
  table = codes "users";
  columns = id ∷ name ∷ [];
  rows =
      (Cell.int64 (pos 1) ∷ Cell.string (codes "ann") ∷ [])
      ∷ (Cell.int64 (pos 2) ∷ Cell.nil ∷ [])
      ∷ [];
}

abbrev filled : Field units
filled = record {
  tag = codes "column:name";
  field_type = GoType.string;
  value = Value.string (codes "ann");
}

-- The name of the last row stays.
process_field-null_example :
    process_field [] filled event 1 1 ≡ ok (some (Value.string (codes "ann")))
unfolding Cells.cell_at Cells.index Cells.in_range convert
process_field-null_example = process_field-null event 1 1 [] MySqlType.string filled refl refl

process_field-uint_pointer_example :
    process_field []
      (record { tag = codes "column:id"; field_type = GoType.ptr GoType.uint; value = Value.nil })
      event
      0
      0
    ≡ panic
unfolding Cells.cell_at Cells.index Cells.in_range
process_field-uint_pointer_example =
    process_field-uint_pointer event 0 0 [] (codes "column:id") Value.nil (Cell.int64 (pos 1)) refl
      (λ h. cc)

pub id-IsPlain : IsPlain (codes "id")
id-IsPlain = (both, (both, tt))

parse_tag_setting-rest_example :
    (Tags.parse_tag_setting (codes "column:id;primaryKey") ≡ ok (codes "id", codes "primaryKey"))
    × (Columns.parse_tag_setting (codes "column:id;primaryKey")
        ≡ codes "column" ∷ codes "id" ∷ codes "primaryKey" ∷ [])
parse_tag_setting-rest_example =
    parse_tag_setting-rest b'c' (codes "olumn") (codes "id") (codes "primaryKey") column-IsPlain
      id-IsPlain primary-IsPlain

row_loop-fuel_example : row_loop 2 event 0 (user 0 []) ≡ row_loop 7 event 0 (user 0 [])
row_loop-fuel_example = row_loop-fuel event 2 7 0 (user 0 []) (omega arith) (omega arith)

parse_tag_setting-swapped_example :
    (Tags.parse_tag_setting (codes "primaryKey;column:id") ≡ panic)
    × (Columns.parse_tag_setting (codes "primaryKey;column:id")
        ≡ codes "primaryKey" ∷ codes "column:id" ∷ [])
parse_tag_setting-swapped_example =
    parse_tag_setting-swapped (codes "primaryKey") (codes "column") (codes "id") primary-IsPlain
      column-IsPlain id-IsPlain

-- The example in the comment of getSet: '1' and '3' are stored as 5.
set_value_lem_example :
    set_value {f = units}
      (codes "1" ∷ codes "2" ∷ codes "3" ∷ codes "4" ∷ codes "5" ∷ [])
      (Cell.int64 (pos 5))
    ≡ ok (some (codes "1" ∷ codes "3" ∷ []))
unfolding picked magnitude
set_value_lem_example =
    set_value_lem units (codes "1") (codes "2" ∷ codes "3" ∷ codes "4" ∷ codes "5" ∷ []) (pos 5)
      (omega arith)
