-- ===== src/Syncer/Columns/Layout.antt =====
-- The columns of a struct are those of its type.
use mysql_to_mssql.Base.{◌≡◌, refl, sym, ap, ◌∙◌, Bool, List, [], ◌∷◌, Option, none, some, Bytes}
use mysql_to_mssql.Reflect.{Foreign, GoType, type_string, Value, Field, Struct}
use mysql_to_mssql.Syncer.Gob.{layout}
use mysql_to_mssql.Syncer.Columns.{Column, columns_of, add_column, kept, parse_tag_setting}

added : GoType → Option (Bytes × Bool) → List Column → List Column
added t none cols = cols
added t (some (name, primary)) cols =
    record { name = name; is_primary_key = primary; field_type = type_string t } ∷ cols

-- The columns for a struct type.
layout_columns : List (Bytes × GoType) → Bool → List Column
layout_columns [] only_primary = []
layout_columns ((tag, t) ∷ fields) only_primary =
    added t (kept (parse_tag_setting tag) only_primary) (layout_columns fields only_primary)

module _ {f : Foreign} where
  add_column-added :
      (field : Field f) (o : Option (Bytes × Bool)) (out : List Column × List (Value f))
      → (add_column field o out).0 ≡ added field.field_type o out.0
  unfolding add_column added
  add_column-added field none out = refl
  add_column-added field (some x) out = refl

  columns_of-layout_columns :
      (m : Struct f) (only_primary : Bool)
      → (columns_of m only_primary).0 ≡ layout_columns (layout m) only_primary
  unfolding columns_of layout_columns
  columns_of-layout_columns [] only_primary = refl
  columns_of-layout_columns (field ∷ fields) only_primary =
      let o = kept (parse_tag_setting field.tag) only_primary in
      add_column-added field o (columns_of fields only_primary)
      ∙ ap (added field.field_type o) (columns_of-layout_columns fields only_primary)

  -- Structs of the same type have the same columns.
  pub columns_of-layout :
      (m p : Struct f) (only_primary : Bool)
      → layout m ≡ layout p
      → (columns_of m only_primary).0 ≡ (columns_of p only_primary).0
  columns_of-layout m p only_primary e =
      columns_of-layout_columns m only_primary
      ∙ ap (λ l. layout_columns l only_primary) e
      ∙ sym (columns_of-layout_columns p only_primary)
