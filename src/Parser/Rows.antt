-- ===== src/Parser/Rows.antt =====
-- mysql/parser/parser.go: getBinLogData, and mysql/parser/base_handler.go: OnRow.
pub mod Nulls
pub mod Typed
pub mod Events
pub mod Layouts
pub mod Values
pub mod Reports
use mysql_to_mssql.Base.{
  ℕ, zero, suc, ◌+◌, ◌-◌, ltb, Bool, true, false, List, [], ◌∷◌, ◌++◌, Option, none, some, Bytes,
  Dict, eqb, length, lookup, insert as assign, Result, ok, err, panic, ◌>>=◌, if◌then◌else◌,
}
use mysql_to_mssql.Reflect.{Foreign, GoType, type_string, Value, Field, Struct}
use mysql_to_mssql.Parser.Tags.{parse_tag_setting}
use mysql_to_mssql.Parser.Cells.{RowsEvent, RowAction, column_id, get_string}
use mysql_to_mssql.Parser.Fields.{Processed, set_if, process_non_nil, process_nillable}

-- The fields from some field on, and whether the loop came to its end: at a type that is not
-- supported it returns nil, and the fields set before stay set.
abbrev pub Loop : Foreign → Type 0
Loop f = Bool × Struct f

module _ {f : Foreign} where
  -- The field's type is not supported by itself: its text is unmarshalled if the tag asks for it.
  unfoldable pub process_json : Bytes → Field f → RowsEvent f → ℕ → ℕ → Processed f
  process_json [] field e row id = ok none
  process_json (_ ∷ _) field e row id =
      get_string e row id
      >>= set_if field.value (λ s. Value.object (f.unmarshal (type_string field.field_type) s))

  unfoldable pub or_else : Processed f → Option (Value f) → Processed f
  or_else next none = next
  or_else next (some v) = ok (some v)

  -- The three ways to set a field, in turn.
  unfoldable pub process_field : Bytes → Field f → RowsEvent f → ℕ → ℕ → Processed f
  process_field json field e row id =
      process_nillable field.field_type field.value e row id
      >>= or_else (
          process_non_nil field.field_type field.value e row id
          >>= or_else (process_json json field e row id))

  unfoldable pub keep_field : Field f → Loop f → Result (Loop f)
  keep_field field (done, fields) = ok (done, field ∷ fields)

  unfoldable pub set_field :
      Field f → Struct f → Result (Loop f) → Option (Value f) → Result (Loop f)
  set_field field fields rest none = ok (false, field ∷ fields)
  set_field field fields rest (some v) = rest >>= keep_field (record field { value = v })

  -- One round: a field without a column's name is skipped.
  unfoldable pub loop_round :
      RowsEvent f → ℕ → Field f → Struct f → Result (Loop f) → Bytes × Bytes → Result (Loop f)
  loop_round e row field fields rest ([], json) = rest >>= keep_field field
  loop_round e row field fields rest (c ∷ cs, json) = column_id e (c ∷ cs) >>= λ id.
      process_field json field e row id >>= set_field field fields rest

  unfoldable pub set_fields : RowsEvent f → ℕ → Struct f → Result (Loop f)
  set_fields e row [] = ok (true, [])
  set_fields e row (field ∷ fields) =
      parse_tag_setting field.tag >>= loop_round e row field fields (set_fields e row fields)

  -- getBinLogData: the struct that is returned, nil or a copy, and the placeholder, which is what
  -- was set. The placeholder comes as the last row left it.
  unfoldable pub returned : Loop f → Result (Option (Struct f) × Struct f)
  returned (true, fields) = ok (some fields, fields)
  returned (false, fields) = ok (none, fields)

  unfoldable pub get_bin_log_data :
      RowsEvent f → ℕ → Struct f → Result (Option (Struct f) × Struct f)
  get_bin_log_data e row placeholder = set_fields e row placeholder >>= returned

-- A call of the handler: OnInsert, OnUpdate with the old and the new row, OnDelete.
pub data Callback (f : Foreign) : Type 0 where
  on_insert : Struct f → Callback f
  on_update : Struct f → Struct f → Callback f
  on_delete : Struct f → Callback f

-- The row that the loop begins with and its stride.
abbrev pub first_row : RowAction → ℕ
first_row RowAction.update = 1
first_row _ = 0

abbrev pub stride : RowAction → ℕ
stride RowAction.update = 2
stride _ = 1

module _ {f : Foreign} where
  -- The old row of an update is read into the placeholder that the new row has just left.
  unfoldable pub with_old :
      Struct f → Option (Struct f) × Struct f → Result (List (Callback f) × Struct f)
  with_old new (none, placeholder) = ok ([], placeholder)
  with_old new (some old, placeholder) = ok (on_update old new ∷ [], placeholder)

  -- The switch on the action, for a row that is not nil.
  unfoldable pub call_handler :
      RowsEvent f
      → ℕ
      → RowAction
      → Option (Struct f) × Struct f
      → Result (List (Callback f) × Struct f)
  call_handler e i action (none, placeholder) = ok ([], placeholder)
  call_handler e i RowAction.update (some new, placeholder) =
      get_bin_log_data e (i - 1) placeholder >>= with_old new
  call_handler e i RowAction.insert (some new, placeholder) = ok (on_insert new ∷ [], placeholder)
  call_handler e i RowAction.delete (some new, placeholder) = ok (on_delete new ∷ [], placeholder)
  call_handler e i RowAction.unknown (some new, placeholder) = ok ([], placeholder)

  -- The loop over the rows, with as much fuel as there are rows.
  unfoldable pub row_loop : ℕ → RowsEvent f → ℕ → Struct f → Result (List (Callback f) × Struct f)
  row_loop zero e i placeholder = ok ([], placeholder)
  row_loop (suc fuel) e i placeholder =
      if ltb i (length e.rows)
      then (do
        read ← get_bin_log_data e i placeholder
        (calls, placeholder') ← call_handler e i e.action read
        (rest, placeholder₂) ← row_loop fuel e (i + stride e.action) placeholder'
        ok (calls ++ rest, placeholder₂))
      else ok ([], placeholder)

  -- A table with no model is passed over. The model of the table is the placeholder.
  unfoldable pub on_model :
      RowsEvent f
      → Dict (Struct f)
      → Option (Struct f)
      → Result (List (Callback f) × Dict (Struct f))
  on_model e models none = ok ([], models)
  on_model e models (some model) = do
    (calls, placeholder) ← row_loop (length e.rows) e (first_row e.action) model
    ok (calls, assign e.table placeholder models)

  unfoldable pub on_row :
      RowsEvent f → Dict (Struct f) → Result (List (Callback f) × Dict (Struct f))
  on_row e models = on_model e models (lookup e.table models)
