-- ===== src/Syncer/Statements.antt =====
-- syncer/syncer.go: the builders of SQL statements.
pub mod Trim
pub mod Marks
pub mod Text
use mysql_to_mssql.Base.{
  ℕ, ◌+◌, ◌-◌, List, [], ◌∷◌, ◌++◌, Bytes, eqb, codes, trim_right, ltb, length, if◌then◌else◌,
}
use mysql_to_mssql.Syncer.Columns.{Column}

-- The mark for one value; a nullable blob is converted.
unfoldable pub placeholder : Column → Bytes
placeholder c =
    if eqb c.field_type (codes "*[]uint8") then codes "CONVERT(VARBINARY(MAX),?)" else codes "?"

-- The two loops of buildInsertStatement, from index `i` of `n` columns on.
unfoldable pub insert_names : ℕ → ℕ → List Column → Bytes
insert_names i n [] = []
insert_names i n (c ∷ cs) =
    c.name ++ ((if ltb i (n - 1) then b',' else b')') ∷ insert_names (i + 1) n cs)

unfoldable pub insert_marks : ℕ → ℕ → List Column → Bytes
insert_marks i n [] = []
insert_marks i n (c ∷ cs) =
    placeholder c ++ ((if ltb i (n - 1) then b',' else b')') ∷ insert_marks (i + 1) n cs)

unfoldable pub build_insert_statement : Bytes → List Column → Bytes
build_insert_statement table cols =
    codes "insert into "
    ++ (table
        ++ (codes " ("
            ++ (insert_names 0 (length cols) cols
                ++ (codes " values (" ++ insert_marks 0 (length cols) cols))))

-- The loop of buildUpdateStatement over the columns to set.
unfoldable pub update_sets : ℕ → ℕ → List Column → Bytes
update_sets i n [] = []
update_sets i n (c ∷ cs) =
    c.name
    ++ (b'='
        ∷ (placeholder c
            ++ ((if ltb i (n - 1) then codes "," else []) ++ update_sets (i + 1) n cs)))

-- The loop over the primary columns, in updates and in deletes.
unfoldable pub primary_conditions : List Column → Bytes
primary_conditions [] = []
primary_conditions (c ∷ cs) =
    (if c.is_primary_key then c.name ++ codes "=? AND " else []) ++ primary_conditions cs

unfoldable pub update_where : List Column → Bytes → Bytes
update_where [] [] = []
update_where (c ∷ cs) [] = codes " where " ++ primary_conditions (c ∷ cs)
update_where cols (w ∷ ws) = codes " where " ++ w ∷ ws

unfoldable pub build_update_statement : Bytes → List Column → Bytes → Bytes
build_update_statement table cols condition =
    trim_right
      (codes "update "
        ++ (table
            ++ (codes " set "
                ++ (update_sets 0 (length cols) cols ++ update_where cols condition))))
      (codes " AND ")

unfoldable pub build_delete_statement : Bytes → Bytes → Bytes
build_delete_statement table [] = codes "delete from " ++ table
build_delete_statement table (w ∷ ws) =
    codes "delete from " ++ (table ++ (codes " where " ++ w ∷ ws))

unfoldable pub delete_where : List Column → Bytes
delete_where [] = []
delete_where (c ∷ cs) = codes " where " ++ primary_conditions (c ∷ cs)

unfoldable pub build_delete_statement_from_pk : Bytes → List Column → Bytes
build_delete_statement_from_pk table cols =
    trim_right (codes "delete from " ++ (table ++ delete_where cols)) (codes " AND ")
