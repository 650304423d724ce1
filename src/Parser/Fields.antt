-- ===== src/Parser/Fields.antt =====
-- mysql/parser/parser.go: processNillable and processNonNil, which set one field.
use mysql_to_mssql.Base.{
  ℕ, ◌||◌, Option, none, some, codes, eqb, Result, ok, panic, ◌>>=◌, if◌then◌else◌,
}
use mysql_to_mssql.Reflect.{Foreign, GoType, type_name, type_string, Value}
use mysql_to_mssql.Parser.Cells.{
  RowsEvent, get_int, get_uint, get_float32, get_float64, get_decimal, get_bool, get_byte,
  get_string, get_time,
}
use mysql_to_mssql.Parser.Sets.{get_set}

-- What both functions do to the field: `none` for `processed = false`, or the field's new value.
abbrev pub Processed : Foreign → Type 0
Processed f = Result (Option (Value f))

module _ {f : Foreign} where
  -- The field is set if there is a value, and is left as it is for nil.
  unfoldable pub set_if : {A : Type 0} → Value f → (A → Value f) → Option A → Processed f
  set_if old make none = ok (some old)
  set_if old make (some a) = ok (some (make a))

  -- The field is set to the pointer, nil or not.
  unfoldable pub set_pointer : {A : Type 0} → (A → Value f) → Option A → Processed f
  set_pointer make none = ok (some Value.nil)
  set_pointer make (some a) = ok (some (make a))

  -- A uint64 does not fit a *uint: reflect panics.
  unfoldable pub set_uint_pointer : Value f → Option ℕ → Processed f
  set_uint_pointer old none = ok (some old)
  set_uint_pointer old (some n) = panic

  unfoldable pub process_non_nil : GoType → Value f → RowsEvent f → ℕ → ℕ → Processed f
  process_non_nil field_type old e row id =
      let name = type_name field_type in
      let text = type_string field_type in
      if eqb name (codes "bool")
      then get_bool e row id >>= set_if old Value.bool
      else if eqb name (codes "int")
      then get_int e row id >>= set_if old Value.int
      else if eqb name (codes "uint")
      then get_uint e row id >>= set_if old Value.uint
      else if eqb name (codes "string")
      then get_string e row id >>= set_if old Value.string
      else if eqb name (codes "Time")
      then get_time e row id >>= set_if old Value.time
      else if eqb name (codes "float32")
      then get_float32 e row id >>= set_if old Value.float32
      else if eqb name (codes "float64")
      then get_float64 e row id >>= set_if old Value.float64
      else if eqb text (codes "[]string")
      then get_set e row id >>= set_if old Value.set
      else if eqb text (codes "[]uint8") || eqb text (codes "[]byte")
      then get_byte e row id >>= set_if old Value.blob
      else if eqb text (codes "decimal.Decimal")
      then get_decimal e row id >>= set_if old Value.decimal
      else ok none

  unfoldable pub process_nillable : GoType → Value f → RowsEvent f → ℕ → ℕ → Processed f
  process_nillable field_type old e row id =
      let text = type_string field_type in
      if eqb text (codes "*bool")
      then get_bool e row id >>= set_pointer Value.bool
      else if eqb text (codes "*int")
      then get_int e row id >>= set_if old Value.int
      else if eqb text (codes "*uint")
      then get_uint e row id >>= set_uint_pointer old
      else if eqb text (codes "*string")
      then get_string e row id >>= set_pointer Value.string
      else if eqb text (codes "*time.Time")
      then get_time e row id >>= set_pointer Value.time
      else if eqb text (codes "*float32")
      then get_float32 e row id >>= set_pointer Value.float32
      else if eqb text (codes "*float64")
      then get_float64 e row id >>= set_pointer Value.float64
      else if eqb text (codes "*[]string")
      then get_set e row id >>= set_pointer Value.set
      else if eqb text (codes "*[]uint8") || eqb text (codes "*[]byte")
      then get_byte e row id >>= set_pointer Value.blob
      else if eqb text (codes "*decimal.Decimal")
      then get_decimal e row id >>= set_pointer Value.decimal
      else ok none
