-- ===== src/Parser/Rows/Values/Structs.antt =====
-- The structs that are read for a row have values of the types of their fields.
use mysql_to_mssql.Base.{
  ℕ, ◌≡◌, true, false, [], ◌∷◌, All, Option, none, some, Bytes, Result, ok, err, panic, ◌>>=◌,
}
use mysql_to_mssql.Reflect.{Foreign, Value, Field, Struct}
use mysql_to_mssql.Parser.Tags.{parse_tag_setting}
use mysql_to_mssql.Parser.Cells.{RowsEvent, column_id}
use mysql_to_mssql.Parser.Rows.{
  Loop, process_field, keep_field, set_field, loop_round, set_fields, returned, get_bin_log_data,
}
use mysql_to_mssql.Parser.Rows.Values.{
  fits, OnOk, OnOk-bind, OnOk-any, FitsIf, process_field-FitsIf,
}

module _ {f : Foreign} where
  -- Every field of a struct has a value of its type.
  abbrev pub HasTypes : Struct f → Type 0
  HasTypes = All (λ (field : Field f). fits field.value field.field_type ≡ true)

  abbrev LoopFits : Loop f → Type 0
  LoopFits (done, fields) = HasTypes fields

  keep_field-LoopFits :
      (field : Field f) (r : Result (Loop f))
      → fits field.value field.field_type ≡ true
      → OnOk LoopFits r
      → OnOk LoopFits (r >>= keep_field field)
  unfolding keep_field
  keep_field-LoopFits field (ok (done, fields)) h hs = (h, hs)
  keep_field-LoopFits field (err e) h hs = tt
  keep_field-LoopFits field panic h hs = tt

  set_field-LoopFits :
      (field : Field f) (fields : Struct f) (r : Result (Loop f)) (o : Option (Value f))
      → HasTypes (field ∷ fields)
      → OnOk LoopFits r
      → FitsIf field.field_type o
      → OnOk LoopFits (set_field field fields r o)
  unfolding set_field
  set_field-LoopFits field fields r none h hs v = h
  set_field-LoopFits field fields r (some v) h hs fit =
      keep_field-LoopFits (record field { value = v }) r fit hs

  loop_round-LoopFits :
      (e : RowsEvent f) (row : ℕ) (field : Field f) (fields : Struct f) (r : Result (Loop f))
      (tag : Bytes × Bytes)
      → HasTypes (field ∷ fields)
      → OnOk LoopFits r
      → OnOk LoopFits (loop_round e row field fields r tag)
  unfolding loop_round
  loop_round-LoopFits e row field fields r ([], json) h hs = keep_field-LoopFits field r h.0 hs
  loop_round-LoopFits e row field fields r (c ∷ cs, json) h hs =
      OnOk-any LoopFits (column_id e (c ∷ cs))
        (λ id. process_field json field e row id >>= set_field field fields r)
        (λ id.
          OnOk-bind (FitsIf field.field_type) LoopFits (process_field json field e row id)
            (set_field field fields r) (process_field-FitsIf e row id json field h.0)
            (λ o. set_field-LoopFits field fields r o h hs))

  set_fields-LoopFits :
      (e : RowsEvent f) (row : ℕ) (fields : Struct f)
      → HasTypes fields
      → OnOk LoopFits (set_fields e row fields)
  unfolding set_fields
  set_fields-LoopFits e row [] h = tt
  set_fields-LoopFits e row (field ∷ fields) h =
      OnOk-any LoopFits (parse_tag_setting field.tag)
        (loop_round e row field fields (set_fields e row fields))
        (λ tag.
          loop_round-LoopFits e row field fields (set_fields e row fields) tag h
            (set_fields-LoopFits e row fields h.1))

  -- What is returned for a row, if anything, and the placeholder behind it.
  abbrev pub ReadFits : Option (Struct f) × Struct f → Type 0
  ReadFits (none, p) = HasTypes p
  ReadFits (some m, p) = HasTypes m × HasTypes p

  returned-ReadFits : (x : Loop f) → LoopFits x → OnOk ReadFits (returned x)
  unfolding returned
  returned-ReadFits (true, fields) h = (h, h)
  returned-ReadFits (false, fields) h = h

  pub get_bin_log_data-ReadFits :
      (e : RowsEvent f) (row : ℕ) (p : Struct f)
      → HasTypes p
      → OnOk ReadFits (get_bin_log_data e row p)
  unfolding get_bin_log_data
  get_bin_log_data-ReadFits e row p h =
      OnOk-bind LoopFits ReadFits (set_fields e row p) returned (set_fields-LoopFits e row p h)
        returned-ReadFits
