-- ===== src/Db/Types.antt =====
-- db/types.go: MySQLType and Convert.
use mysql_to_mssql.Base.{ℕ, Option, none, some}
use mysql_to_mssql.Reflect.{GoType}

-- The constants, from 1 on; `unlisted` has the other values of the uint8, 0 and those from 21 on.
pub data MySqlType : Type 0 where
  int nullable_int uint nullable_uint string nullable_string bool nullable_bool : MySqlType
  date_time nullable_date_time float nullable_float double nullable_double : MySqlType
  decimal nullable_decimal blob nullable_blob set nullable_set : MySqlType
  unlisted : ℕ → MySqlType

-- The type of the value that Convert returns; `none` is a nil interface.
unfoldable pub convert : MySqlType → Option GoType
convert MySqlType.int = some GoType.int
convert MySqlType.nullable_int = some (GoType.ptr GoType.int)
convert MySqlType.uint = some GoType.uint
convert MySqlType.nullable_uint = some (GoType.ptr GoType.uint)
convert MySqlType.string = some GoType.string
convert MySqlType.nullable_string = some (GoType.ptr GoType.string)
convert MySqlType.bool = some GoType.bool
convert MySqlType.nullable_bool = some (GoType.ptr GoType.bool)
convert MySqlType.date_time = some GoType.time
convert MySqlType.nullable_date_time = some (GoType.ptr GoType.time)
convert MySqlType.float = some GoType.float32
convert MySqlType.nullable_float = some (GoType.ptr GoType.float32)
convert MySqlType.double = some GoType.float64
convert MySqlType.nullable_double = some (GoType.ptr GoType.float64)
convert MySqlType.decimal = some GoType.decimal
convert MySqlType.nullable_decimal = some (GoType.ptr GoType.decimal)
convert MySqlType.blob = some GoType.blob
convert MySqlType.nullable_blob = some (GoType.ptr GoType.blob)
convert MySqlType.set = some GoType.set
convert MySqlType.nullable_set = some (GoType.ptr GoType.set)
convert (MySqlType.unlisted n) = none
