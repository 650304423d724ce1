-- ===== src/Reflect.antt =====
-- Go values as the program sees them through package reflect: types, values and struct fields.
use mysql_to_mssql.Base.{ℕ, Bool, List, ◌++◌, Bytes, codes, ℤ, Option}

-- Types that the model does not open, with what the program calls of them: package time, the
-- floating point types, github.com/shopspring/decimal, and values unmarshalled from JSON.
pub record Foreign : Type 1 where
  pub Time : Type 0
  pub Float32 : Type 0
  pub Float64 : Type 0
  pub Decimal : Type 0
  pub Object : Type 0
  -- the zero values
  pub zero_time : Time
  pub zero_float32 : Float32
  pub zero_float64 : Float64
  pub zero_decimal : Decimal
  -- time.Parse(layout, text)
  pub parse_time : Bytes → Bytes → Option Time
  -- decimal.NewFromString(text), whose error the program drops
  pub decimal_from_string : Bytes → Decimal
  -- jsoniter.Unmarshal into a new value of the type with this name; its error is dropped
  pub unmarshal : Bytes → Bytes → Object

-- Field types. `other` has the results of Type.Name() and Type.String().
pub data GoType : Type 0 where
  int uint string bool time float32 float64 decimal blob set : GoType
  ptr : GoType → GoType
  other : Bytes → Bytes → GoType

-- reflect.Type.Name()
unfoldable pub type_name : GoType → Bytes
type_name GoType.int = codes "int"
type_name GoType.uint = codes "uint"
type_name GoType.string = codes "string"
type_name GoType.bool = codes "bool"
type_name GoType.time = codes "Time"
type_name GoType.float32 = codes "float32"
type_name GoType.float64 = codes "float64"
type_name GoType.decimal = codes "Decimal"
type_name GoType.blob = codes ""
type_name GoType.set = codes ""
type_name (GoType.ptr t) = codes ""
type_name (GoType.other name text) = name

-- reflect.Type.String()
unfoldable pub type_string : GoType → Bytes
type_string GoType.int = codes "int"
type_string GoType.uint = codes "uint"
type_string GoType.string = codes "string"
type_string GoType.bool = codes "bool"
type_string GoType.time = codes "time.Time"
type_string GoType.float32 = codes "float32"
type_string GoType.float64 = codes "float64"
type_string GoType.decimal = codes "decimal.Decimal"
type_string GoType.blob = codes "[]uint8"
type_string GoType.set = codes "[]string"
type_string (GoType.ptr t) = codes "*" ++ type_string t
type_string (GoType.other name text) = text

-- A value in an interface{} or a field. A non-nil pointer is shown by the value that it points to.
pub data Value (f : Foreign) : Type 0 where
  nil : Value f
  int : ℤ → Value f
  uint : ℕ → Value f
  string : Bytes → Value f
  bool : Bool → Value f
  time : f.Time → Value f
  float32 : f.Float32 → Value f
  float64 : f.Float64 → Value f
  decimal : f.Decimal → Value f
  blob : Bytes → Value f
  set : List Bytes → Value f
  object : f.Object → Value f

-- A struct field: its `gorm` tag (tags.Get("gorm"), empty if there is none), type and value.
pub record Field (f : Foreign) : Type 0 where
  pub tag : Bytes
  pub field_type : GoType
  pub value : Value f

-- A struct, or a pointer to one (reflect.Indirect reads both alike).
abbrev pub Struct : Foreign → Type 0
Struct f = List (Field f)
