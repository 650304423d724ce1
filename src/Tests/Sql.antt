-- ===== src/Tests/Sql.antt =====
-- Statements of the table of users, and their runs.
use mysql_to_mssql.Base.{
  ◌≡◌, refl, List, [], ◌∷◌, Bytes, codes, eqb, lookup, split2, contains, true, false, length, ◌++◌,
  some,
}
use mysql_to_mssql.Reflect.{Struct, type_string}
use mysql_to_mssql.Syncer.Columns
use mysql_to_mssql.Syncer.Columns.{Column, columns_of}
use mysql_to_mssql.Syncer.Columns.Primary.{primary_columns, primary_values, columns_of_primary}
use mysql_to_mssql.Syncer.Statements.{
  placeholder, build_insert_statement, build_update_statement, build_delete_statement_from_pk,
}
use mysql_to_mssql.Syncer.Statements.Text.{
  join, update_head, build_insert_statement_lem, build_update_statement_lem,
  build_update_statement-condition, build_update_statement-trimmed,
  build_delete_statement_from_pk_lem,
}
use mysql_to_mssql.Syncer.Statements.Marks.{marks}
use mysql_to_mssql.Syncer.Writer.{Syncer, update}
use mysql_to_mssql.Syncer.Writer.Cache.{IsCoherent}
use mysql_to_mssql.Syncer.Writer.Runs.{update-cached, marks-update_on_pk}
use mysql_to_mssql.Syncer.Store.RoundTrip.{Event, inserted, updated, deleted}
use mysql_to_mssql.Syncer.Service.Delivery.{deliver}
use mysql_to_mssql.Syncer.Service.Coherent.{deliver-IsCoherent}
use mysql_to_mssql.Tests.Fixtures.{streams, memory, units, recorder, table, user, idle}

abbrev pub ann : Struct units
ann = user 1 (codes "ann")

abbrev pub bob : Struct units
bob = user 1 (codes "bob")

abbrev pub id : Column
id = record { name = codes "id"; is_primary_key = true; field_type = codes "int" }

abbrev pub name : Column
name = record { name = codes "name"; is_primary_key = false; field_type = codes "string" }

-- Every table has these columns.
abbrev pub schema : Bytes → List Column
schema _ = id ∷ name ∷ []

pub idle-IsCoherent : IsCoherent recorder schema idle
unfolding lookup
idle-IsCoherent = record {
  inserts = λ name st h. cc;
  updates = λ name st h. cc;
  deletes = λ name st h. cc;
}

pub columns_of-ann : (columns_of ann false).0 ≡ schema table
unfolding columns_of Columns.add_column Columns.column_value Columns.wide_value Columns.is_nil_ptr
    Columns.kept Columns.is_primary_tag Columns.parse_tag_setting eqb split2 type_string
columns_of-ann = refl

marks-update_on_pk_example :
    marks (build_update_statement table (columns_of ann false).0 [])
    ≡ length ((columns_of ann false).1 ++ (columns_of bob true).1)
unfolding columns_of Columns.add_column Columns.column_value Columns.wide_value Columns.is_nil_ptr
    Columns.kept Columns.is_primary_tag Columns.parse_tag_setting eqb split2 type_string
marks-update_on_pk_example = marks-update_on_pk table bob ann refl refl (refl, (refl, tt))

columns_of_primary_example :
    ((columns_of ann true).0 ≡ primary_columns (columns_of ann false).0)
    × ((columns_of ann true).1 ≡ primary_values (columns_of ann false).0 (columns_of ann false).1)
columns_of_primary_example = columns_of_primary ann

build_insert_statement_example :
    build_insert_statement table (id ∷ name ∷ []) ≡ codes "insert into users (id,name) values (?,?)"
unfolding join placeholder eqb
build_insert_statement_example = build_insert_statement_lem table id (name ∷ [])

build_update_statement_example :
    build_update_statement table (id ∷ name ∷ []) []
    ≡ codes "update users set id=?,name=? where id=?"
unfolding join placeholder eqb update_head primary_columns
build_update_statement_example = build_update_statement_lem table id (name ∷ []) id [] refl

build_update_statement-condition_example :
    build_update_statement table (id ∷ []) (codes "id=?") ≡ codes "update users set id=? where id=?"
unfolding join placeholder eqb update_head contains
build_update_statement-condition_example =
    build_update_statement-condition table id [] b'i' (codes "d=") b'?' refl

build_update_statement-trimmed_example :
    build_update_statement table (id ∷ []) (codes "? < D")
    ≡ build_update_statement table (id ∷ []) (codes "? < ")
unfolding contains
build_update_statement-trimmed_example =
    build_update_statement-trimmed table id [] b'?' (codes " < ") b'D' refl

build_delete_statement_from_pk_example :
    build_delete_statement_from_pk table (id ∷ []) ≡ codes "delete from users where id=?"
unfolding join primary_columns
build_delete_statement_from_pk_example = build_delete_statement_from_pk_lem table id [] id [] refl

-- A statement for updates by the name is kept.
abbrev busy : Syncer recorder
busy = record {
  db = [];
  insert_stmts = [];
  update_stmts = (table, codes "update users set id=?,name=? where name=?") ∷ [];
  delete_stmts = [];
}

update-cached_example :
    update recorder table (some ann) (codes "name=?") [] busy
    ≡ update recorder table (some ann) (codes "id=?") [] busy
unfolding lookup eqb
update-cached_example =
    update-cached recorder table ann (codes "name=?") (codes "id=?") [] busy
      (codes "update users set id=?,name=? where name=?") refl

pub columns_of-bob : (columns_of bob false).0 ≡ schema table
unfolding columns_of Columns.add_column Columns.column_value Columns.wide_value Columns.is_nil_ptr
    Columns.kept Columns.is_primary_tag Columns.parse_tag_setting eqb split2 type_string
columns_of-bob = refl

abbrev pub changes : List (Event units)
changes = inserted ann ∷ updated ann bob ∷ deleted bob ∷ []

deliver-IsCoherent_example :
    IsCoherent recorder schema (deliver streams memory recorder table changes (idle, 0)).1.0
deliver-IsCoherent_example =
    deliver-IsCoherent streams memory recorder schema table changes idle 0
      (columns_of-ann, (columns_of-bob, (columns_of-bob, tt))) idle-IsCoherent
