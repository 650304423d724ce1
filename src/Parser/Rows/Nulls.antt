-- ===== src/Parser/Rows/Nulls.antt =====
-- What a NULL, and a value of a *uint, do to a field.
use mysql_to_mssql.Base.{
  ℕ, ◌≡◌, ◌≢◌, refl, Bool, true, false, Option, none, some, Result, ok, panic, ◌>>=◌, if◌then◌else◌,
  eqb, Bytes, err, get_elem?,
}
use mathlib.Core.Path.{subst}
use mysql_to_mssql.Reflect.{Foreign, GoType, type_name, type_string, Value, Field}
use mysql_to_mssql.Db.Types.{MySqlType, convert}
use mysql_to_mssql.Parser.Cells.{
  Cell, TableColumn, ColumnType, RowsEvent, cell_at, of_cell, read, get_int, get_uint, get_float32,
  get_float64, get_decimal, get_bool, get_byte, get_string, get_time, index, in_range, uint_of,
  as_uint64,
}
use mysql_to_mssql.Parser.Sets.{get_set}
use mysql_to_mssql.Parser.Fields.{
  set_if, set_pointer, set_uint_pointer, process_non_nil, process_nillable,
}
use mysql_to_mssql.Parser.Rows.{or_else, process_field}

-- The types whose field a NULL leaves as it was.
abbrev pub keeps_null : MySqlType → Bool
keeps_null MySqlType.nullable_string = false
keeps_null MySqlType.nullable_bool = false
keeps_null MySqlType.nullable_date_time = false
keeps_null MySqlType.nullable_float = false
keeps_null MySqlType.nullable_double = false
keeps_null MySqlType.nullable_decimal = false
keeps_null MySqlType.nullable_blob = false
keeps_null MySqlType.nullable_set = false
keeps_null _ = true

module _ {f : Foreign} (e : RowsEvent f) (row id : ℕ) where
  abbrev NullAt : Bytes → Bytes → Value f → MySqlType → Option GoType → Type 0
  NullAt json tag old m none = Unit
  NullAt json tag old m (some t) =
      process_field json (record { tag = tag; field_type = t; value = old }) e row id
      ≡ ok (some (if keeps_null m then old else Value.nil))

  null_at :
      (json tag : Bytes) (old : Value f) (m : MySqlType)
      → cell_at e row id ≡ ok Cell.nil
      → NullAt json tag old m (convert m)
  unfolding process_field process_nillable process_non_nil or_else set_if set_pointer
      set_uint_pointer eqb type_name type_string read of_cell get_int get_uint get_float32
      get_float64 get_decimal get_bool get_byte get_string get_time get_set convert
  null_at json tag old (MySqlType.unlisted n) h = tt
  null_at json tag old _ h = rw h

  -- Where a cell is NULL, and the field has a type that Convert gives, the field becomes nil for
  -- eight of the nullable types, and for all others, *int and *uint among them, it keeps the
  -- value that the last row left there.
  pub process_field-null :
      (json : Bytes) (m : MySqlType) (field : Field f)
      → convert m ≡ some field.field_type
      → cell_at e row id ≡ ok Cell.nil
      → process_field json field e row id
        ≡ ok (some (if keeps_null m then field.value else Value.nil))
  process_field-null json m field c h =
      subst (NullAt json field.tag field.value m) c (null_at json field.tag field.value m h)

-- A getter's result that is no nil.
abbrev NotNil : Result (Option ℕ) → Type 0
NotNil (ok none) = ⊥
NotNil (ok (some n)) = Unit
NotNil (err e) = ⊥
NotNil panic = Unit

module _ {f : Foreign} (e : RowsEvent f) (row id : ℕ) where
  uint_NotNil : (t : ColumnType) (c : Cell f) → NotNil (uint_of t c >>= λ n. ok (some n))
  unfolding uint_of as_uint64
  uint_NotNil ColumnType.number (Cell.uint64 n) = tt
  uint_NotNil ColumnType.number _ = tt
  uint_NotNil _ c = tt

  column_NotNil :
      (c : Cell f) (o : Option TableColumn)
      → NotNil (in_range o >>= λ column. uint_of column.column_type c >>= λ n. ok (some n))
  unfolding in_range
  column_NotNil c none = tt
  column_NotNil c (some column) = uint_NotNil column.column_type c

  get_uint-NotNil :
      (c : Cell f) → cell_at e row id ≡ ok c → c ≢ Cell.nil → NotNil (get_uint e row id)
  unfolding get_uint read of_cell index
  get_uint-NotNil Cell.nil h n = absurd (n refl)
  get_uint-NotNil c h n = rw h (column_NotNil c (get_elem? e.columns id))

  set_uint_pointer-NotNil :
      (old : Value f) (r : Result (Option ℕ)) → NotNil r → (r >>= set_uint_pointer old) ≡ panic
  unfolding set_uint_pointer
  set_uint_pointer-NotNil old (ok none) h = absurd h
  set_uint_pointer-NotNil old (ok (some n)) h = refl
  set_uint_pointer-NotNil old (err x) h = absurd h
  set_uint_pointer-NotNil old panic h = refl

  -- Setting a field of type *uint from a cell that is not NULL panics.
  pub process_field-uint_pointer :
      (json tag : Bytes) (old : Value f) (c : Cell f)
      → cell_at e row id ≡ ok c
      → c ≢ Cell.nil
      → process_field json
          (record { tag = tag; field_type = GoType.ptr GoType.uint; value = old })
          e
          row
          id
        ≡ panic
  unfolding process_field process_nillable eqb type_string
  process_field-uint_pointer json tag old c h n =
      rw (set_uint_pointer-NotNil old (get_uint e row id) (get_uint-NotNil c h n))
