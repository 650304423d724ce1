-- ===== src/Syncer/Columns.antt =====
-- syncer/data_structure.go: the columns and values of a struct, by its `gorm` tags.
pub mod Primary
pub mod Layout
use mysql_to_mssql.Base.{
  ℕ, zero, suc, ◌+◌, ◌/◌, ◌%◌, Bool, true, false, not, ◌&&◌, ◌||◌, Option, none, some, List, [],
  ◌∷◌, ◌++◌, Bytes, eqb, codes, split2, ltb, ◌==◌, Result, ok, panic, if◌then◌else◌,
}
use mysql_to_mssql.Reflect.{Foreign, GoType, type_string, Value, Field, Struct}

pub record Column : Type 0 where
  pub name : Bytes
  pub is_primary_key : Bool
  pub field_type : Bytes

-- The parts of a tag: `column`, the column's name, and what stands behind the first semicolon.
unfoldable pub parse_tag_setting : Bytes → List Bytes
parse_tag_setting tag =
    let (head, rest) = split2 b';' tag in let (key, name) = split2 b':' head in key ∷ name ++ rest

unfoldable pub is_primary_tag : List Bytes → Bool
is_primary_tag [] = false
is_primary_tag (part ∷ _) = eqb part (codes "primaryKey")

-- The tests of the loop: the name of the column and whether it is primary, if the field is kept.
unfoldable pub kept : List Bytes → Bool → Option (Bytes × Bool)
kept [] only_primary = none
kept (_ ∷ []) only_primary = none
kept (_ ∷ name ∷ rest) only_primary =
    if eqb name (codes "column") || eqb name []
    then none
    else if only_primary && not (is_primary_tag rest)
    then none
    else some (name, is_primary_tag rest)

-- fmt.Sprint of a uint64: at most 20 digits.
unfoldable pub sprint_digits : ℕ → ℕ → Bytes → Bytes
sprint_digits zero n out = out
sprint_digits (suc fuel) n out =
    let digit : ℕ = 48 + n % 10 in
    let rest = sprint_digits fuel (n / 10) (digit ∷ out) in
    if n / 10 == 0 then digit ∷ out else rest

unfoldable pub sprint_uint : ℕ → Bytes
unfolding sprint_digits
sprint_uint n = sprint_digits 20 n []

module _ {f : Foreign} where
  -- field.Kind() == reflect.Ptr && field.IsNil()
  unfoldable pub is_nil_ptr : GoType → Value f → Bool
  is_nil_ptr (GoType.ptr t) Value.nil = true
  is_nil_ptr _ _ = false

  -- The value of a uint beyond int64 becomes a decimal, if the field's type is uint or *uint.
  unfoldable pub wide_value : Bool → Value f → Value f
  wide_value true (Value.uint n) =
      if ltb 9223372036854775807 n
      then Value.decimal (f.decimal_from_string (sprint_uint n))
      else Value.uint n
  wide_value _ v = v

  unfoldable pub column_value : Field f → Value f
  unfolding is_nil_ptr wide_value
  column_value field =
      let text = type_string field.field_type in
      if is_nil_ptr field.field_type field.value
      then Value.nil
      else wide_value (eqb text (codes "uint") || eqb text (codes "*uint")) field.value

  -- One round of the loop adds a column and a value, or none.
  unfoldable pub add_column :
      Field f → Option (Bytes × Bool) → List Column × List (Value f) → List Column × List (Value f)
  add_column field none out = out
  add_column field (some (name, primary)) (cols, values) = (
    record { name = name; is_primary_key = primary; field_type = type_string field.field_type }
        ∷ cols,
    column_value field ∷ values,
  )

  unfoldable pub columns_of : Struct f → Bool → List Column × List (Value f)
  columns_of [] only_primary = ([], [])
  columns_of (field ∷ fields) only_primary =
      add_column field (kept (parse_tag_setting field.tag) only_primary)
        (columns_of fields only_primary)

  -- A nil interface has no reflect.Type: the call panics.
  unfoldable pub get_columns : Option (Struct f) → Bool → Result (List Column × List (Value f))
  get_columns none only_primary = panic
  get_columns (some model) only_primary = ok (columns_of model only_primary)
