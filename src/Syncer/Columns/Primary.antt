-- ===== src/Syncer/Columns/Primary.antt =====
-- What getColumns returns for all columns and for the primary ones.
use mysql_to_mssql.Base.{
  ◌≡◌, refl, Bool, true, false, List, [], ◌∷◌, arith, Bytes, length, if◌then◌else◌,
}
use mysql_to_mssql.Reflect.{Foreign, Value, Field, Struct}
use mysql_to_mssql.Syncer.Columns.{Column, parse_tag_setting, kept, add_column, columns_of}

-- The primary columns of a list of columns.
unfoldable pub primary_columns : List Column → List Column
primary_columns [] = []
primary_columns (c ∷ cs) =
    let rest = primary_columns cs in if c.is_primary_key then c ∷ rest else rest

-- The values that stand at the primary columns.
unfoldable pub primary_values {ℓ} : {V : Type ℓ} → List Column → List V → List V
primary_values [] vs = []
primary_values (c ∷ cs) [] = []
primary_values (c ∷ cs) (v ∷ vs) =
    let rest = primary_values cs vs in if c.is_primary_key then v ∷ rest else rest

module _ {f : Foreign} where
  -- There are as many values as columns.
  pub length-columns_of :
      (model : Struct f) (only : Bool)
      → length (columns_of model only).1 ≡ length (columns_of model only).0
  unfolding columns_of add_column
  length-columns_of [] only = refl
  length-columns_of (field ∷ fields) only = ground (arith, length-columns_of fields only)

  -- One round of the loop keeps the two readings in step.
  add_primary :
      (field : Field f) (parts : List Bytes) (all primary : List Column × List (Value f))
      → primary.0 ≡ primary_columns all.0
      → primary.1 ≡ primary_values all.0 all.1
      → ((add_column field (kept parts true) primary).0
          ≡ primary_columns (add_column field (kept parts false) all).0)
        × ((add_column field (kept parts true) primary).1
            ≡ primary_values
                (add_column field (kept parts false) all).0
                (add_column field (kept parts false) all).1)
  unfolding add_column kept primary_columns primary_values
  add_primary field [] all primary hc hv = (hc, hv)
  add_primary field (_ ∷ []) all primary hc hv = (hc, hv)
  add_primary field (_ ∷ name ∷ rest) all primary hc hv = ground arith

  -- Reading only the primary columns gives, in order, the primary ones of all columns and the
  -- values at them.
  pub columns_of_primary :
      (model : Struct f)
      → ((columns_of model true).0 ≡ primary_columns (columns_of model false).0)
        × ((columns_of model true).1
            ≡ primary_values (columns_of model false).0 (columns_of model false).1)
  unfolding columns_of primary_columns primary_values
  columns_of_primary [] = (refl, refl)
  columns_of_primary (field ∷ fields) =
      let (hc, hv) = columns_of_primary fields in
      add_primary field (parse_tag_setting field.tag) (columns_of fields false)
        (columns_of fields true) hc hv
