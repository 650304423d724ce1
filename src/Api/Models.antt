-- ===== src/Api/Models.antt =====
-- server/API/api.go: generateStruct, which makes a table's model from a request.
pub mod Tags
use mysql_to_mssql.Base.{
  ℕ, ◌≡◌, Bool, true, false, if◌then◌else◌, List, [], ◌∷◌, ◌++◌, map, Option, none, some, Bytes,
  codes, All, ◌==◌, pos, Result, ok, panic, ◌>>=◌,
}
use mysql_to_mssql.Reflect.{Foreign, GoType, Value, Field, Struct}
use mysql_to_mssql.Db.Types.{convert}
use mysql_to_mssql.Server.Param.{Column}

-- A byte that a quoted string holds as it is.
abbrev pub Literal : ℕ → Type 0
Literal c = ((c == b'"') ≡ false) × ((c == b'\\') ≡ false)

-- What generateStruct calls of strings, of reflect (Get of a tag) and of dynamicstruct, which
-- panics on names that are no exported identifiers or that are not distinct.
pub record Dynamic : Type 0 where
  pub title : Bytes → Bytes
  pub accepts : List Bytes → Bool
  pub get_gorm : Bytes → Bytes
  -- Get finds the text between the quotes
  pub get_gorm_lem :
      (s : Bytes) → All Literal s → get_gorm (codes "gorm:" ++ b'"' ∷ (s ++ codes "\"")) ≡ s

-- The value of a field of a new struct.
unfoldable pub zero_value : {f : Foreign} → GoType → Value f
zero_value GoType.int = Value.int (pos 0)
zero_value GoType.uint = Value.uint 0
zero_value GoType.string = Value.string []
zero_value GoType.bool = Value.bool false
zero_value {f} GoType.time = Value.time f.zero_time
zero_value {f} GoType.float32 = Value.float32 f.zero_float32
zero_value {f} GoType.float64 = Value.float64 f.zero_float64
zero_value {f} GoType.decimal = Value.decimal f.zero_decimal
zero_value GoType.blob = Value.blob []
zero_value GoType.set = Value.set []
zero_value _ = Value.nil

-- fmt.Sprintf of the tag
unfoldable pub tag_text : Column → Bytes
tag_text c =
    codes "gorm:"
    ++ b'"'
      ∷ ((codes "column:" ++ (c.name ++ (if c.is_primary then codes ";primaryKey" else [])))
          ++ codes "\"")

module _ {f : Foreign} (d : Dynamic) where
  -- AddField; a nil value has no type, and Build panics.
  unfoldable pub add_field : Column → Option GoType → Result (Field f)
  add_field c none = panic
  add_field c (some t) =
      ok (record { tag = d.get_gorm (tag_text c); field_type = t; value = zero_value t })

  unfoldable pub fields_of : List Column → Result (Struct f)
  fields_of [] = ok []
  fields_of (c ∷ cs) = add_field c (convert c.column_type) >>= λ field.
      fields_of cs >>= λ fields. ok (field ∷ fields)

  unfoldable pub generate_struct : List Column → Result (Struct f)
  generate_struct cols =
      if d.accepts (map (λ c. d.title c.name) cols) then fields_of cols else panic
