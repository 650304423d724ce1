-- ===== src/Parser/Rows/Typed.antt =====
-- What getBinLogData and OnRow return has the type of the table's model.
use mysql_to_mssql.Base.{
  ℕ, ◌≡◌, refl, true, false, [], ◌∷◌, Option, none, some, Bytes, Result, ok, err, panic, ◌>>=◌,
  ok-injective,
}
use mathlib.Core.Path.{subst}
use mysql_to_mssql.Reflect.{Foreign, Field, Struct, Value}
use mysql_to_mssql.Syncer.Gob.{layout}
use mysql_to_mssql.Parser.Tags.{parse_tag_setting}
use mysql_to_mssql.Parser.Cells.{RowsEvent, column_id}
use mysql_to_mssql.Parser.Rows.{
  Loop, keep_field, set_field, loop_round, set_fields, returned, get_bin_log_data, process_field,
}

module _ {f : Foreign} where
  -- A result whose struct, if there is one, has the fields' tags and types.
  abbrev Same : Struct f → Result (Loop f) → Type 0
  Same fields (ok (done, fields')) = layout fields' ≡ layout fields
  Same fields _ = Unit

  keep_field-Same :
      (field field' : Field f) (fields : Struct f) (r : Result (Loop f))
      → field'.tag ≡ field.tag
      → field'.field_type ≡ field.field_type
      → Same fields r
      → Same (field ∷ fields) (r >>= keep_field field')
  unfolding keep_field
  keep_field-Same field field' fields (ok (done, fields')) p q h = cc
  keep_field-Same field field' fields (err e) p q h = tt
  keep_field-Same field field' fields panic p q h = tt

  set_field-Same :
      (field : Field f) (fields : Struct f) (r : Result (Loop f)) (x : Result (Option (Value f)))
      → Same fields r
      → Same (field ∷ fields) (x >>= set_field field fields r)
  unfolding set_field
  set_field-Same field fields r (ok none) h = refl
  set_field-Same field fields r (ok (some v)) h =
      keep_field-Same field (record field { value = v }) fields r refl refl h
  set_field-Same field fields r (err e) h = tt
  set_field-Same field fields r panic h = tt

  column_id-Same :
      (e : RowsEvent f) (row : ℕ) (json : Bytes) (field : Field f) (fields : Struct f)
      (r : Result (Loop f)) (x : Result ℕ)
      → Same fields r
      → Same
          (field ∷ fields)
          (x >>= λ id. process_field json field e row id >>= set_field field fields r)
  column_id-Same e row json field fields r (ok id) h =
      set_field-Same field fields r (process_field json field e row id) h
  column_id-Same e row json field fields r (err x) h = tt
  column_id-Same e row json field fields r panic h = tt

  loop_round-Same :
      (e : RowsEvent f) (row : ℕ) (field : Field f) (fields : Struct f) (r : Result (Loop f))
      (x : Result (Bytes × Bytes))
      → Same fields r
      → Same (field ∷ fields) (x >>= loop_round e row field fields r)
  unfolding loop_round
  loop_round-Same e row field fields r (ok ([], json)) h =
      keep_field-Same field field fields r refl refl h
  loop_round-Same e row field fields r (ok (c ∷ cs, json)) h =
      column_id-Same e row json field fields r (column_id e (c ∷ cs)) h
  loop_round-Same e row field fields r (err x) h = tt
  loop_round-Same e row field fields r panic h = tt

  set_fields-Same :
      (e : RowsEvent f) (row : ℕ) (fields : Struct f) → Same fields (set_fields e row fields)
  unfolding set_fields
  set_fields-Same e row [] = refl
  set_fields-Same e row (field ∷ fields) =
      loop_round-Same e row field fields (set_fields e row fields) (parse_tag_setting field.tag)
        (set_fields-Same e row fields)

  -- What is read for a row, and the placeholder behind it, have the placeholder's type.
  abbrev pub Reads : Struct f → Option (Struct f) × Struct f → Type 0
  Reads p (none, p') = layout p' ≡ layout p
  Reads p (some new, p') = (layout p' ≡ layout p) × (layout new ≡ layout p)

  returned-Reads :
      (p : Struct f) (r : Result (Loop f)) {x : Option (Struct f) × Struct f}
      → Same p r
      → (r >>= returned) ≡ ok x
      → Reads p x
  unfolding returned
  returned-Reads p (ok (true, fields)) h q = subst (Reads p) (ok-injective q) (h, h)
  returned-Reads p (ok (false, fields)) h q = subst (Reads p) (ok-injective q) h
  returned-Reads p (err e) h q = cc
  returned-Reads p panic h q = cc

  pub get_bin_log_data-Reads :
      (e : RowsEvent f) (row : ℕ) (p : Struct f) {x : Option (Struct f) × Struct f}
      → get_bin_log_data e row p ≡ ok x
      → Reads p x
  unfolding get_bin_log_data
  get_bin_log_data-Reads e row p h =
      returned-Reads p (set_fields e row p) (set_fields-Same e row p) h
