-- ===== src/Parser/Cells.antt =====
-- mysql/parser/parser.go: the getters, which read one cell of a row of a canal.RowsEvent.
use mysql_to_mssql.Base.{
  ℕ, suc, ◌+◌, ◌==◌, Bool, false, List, [], ◌∷◌, Option, none, some, Bytes, codes, eqb, get_elem?,
  ℤ, pos, negsuc, int64_of_uint, Result, ok, panic, ◌>>=◌, if◌then◌else◌,
}
use mysql_to_mssql.Reflect.{Foreign}

-- schema.TYPE_ constants of go-mysql
pub data ColumnType : Type 0 where
  number float enum set string datetime timestamp date time bit json decimal medium_int binary :
      ColumnType
  unlisted : ℕ → ColumnType

-- A value in a row: an interface{} of one of these types, or nil.
pub data Cell (f : Foreign) : Type 0 where
  nil : Cell f
  int8 int16 int32 int64 int : ℤ → Cell f
  uint8 uint16 uint32 uint64 uint : ℕ → Cell f
  string : Bytes → Cell f
  bytes : Bytes → Cell f
  float32 : f.Float32 → Cell f
  float64 : f.Float64 → Cell f
  decimal : f.Decimal → Cell f

pub record TableColumn : Type 0 where
  pub name : Bytes
  pub column_type : ColumnType
  pub enum_values : List Bytes
  pub set_values : List Bytes

-- canal's names of actions
pub data RowAction : Type 0 where
  update insert delete unknown : RowAction

pub record RowsEvent (f : Foreign) : Type 0 where
  pub action : RowAction
  pub schema : Bytes
  pub table : Bytes
  pub columns : List TableColumn
  pub rows : List (List (Cell f))

-- getColumnIDByRealName: the first column of that name, or a panic.
unfoldable pub column_id_from : ℕ → Bytes → List TableColumn → Result ℕ
column_id_from i name [] = panic
column_id_from i name (c ∷ cs) =
    let rest = column_id_from (i + 1) name cs in if eqb c.name name then ok i else rest

-- An index out of range is a panic.
unfoldable pub in_range {ℓ} : {A : Type ℓ} → Option A → Result A
in_range none = panic
in_range (some a) = ok a

unfoldable pub index {ℓ} : {A : Type ℓ} → List A → ℕ → Result A
index xs i = in_range (get_elem? xs i)

-- *getInt(…) == 1
unfoldable pub is_one : ℤ → Bool
is_one (pos n) = n == 1
is_one (negsuc n) = false

-- A parse error is a panic.
unfoldable pub parsed {ℓ} : {A : Type ℓ} → Option A → Result (Option A)
parsed none = panic
parsed (some x) = ok (some x)

module _ {f : Foreign} where
  unfoldable pub column_id : RowsEvent f → Bytes → Result ℕ
  column_id e name = column_id_from 0 name e.columns

  -- event.Rows[rowNum][columnID]
  unfoldable pub cell_at : RowsEvent f → ℕ → ℕ → Result (Cell f)
  cell_at e row id = index e.rows row >>= λ cells. index cells id

  -- How every getter begins: nil for a nil cell, and else by the column.
  unfoldable pub of_cell :
      {A : Type 0}
      → (TableColumn → Cell f → Result (Option A))
      → RowsEvent f
      → ℕ
      → Cell f
      → Result (Option A)
  of_cell getter e id Cell.nil = ok none
  of_cell getter e id c = index e.columns id >>= λ column. getter column c

  unfoldable pub read :
      {A : Type 0}
      → (TableColumn → Cell f → Result (Option A))
      → RowsEvent f
      → ℕ
      → ℕ
      → Result (Option A)
  read getter e row id = cell_at e row id >>= of_cell getter e id

  -- The conversions of getInt; another type leaves 0.
  unfoldable pub to_int64 : Cell f → ℤ
  to_int64 (Cell.int8 z) = z
  to_int64 (Cell.int16 z) = z
  to_int64 (Cell.int32 z) = z
  to_int64 (Cell.int64 z) = z
  to_int64 (Cell.int z) = z
  to_int64 (Cell.uint8 n) = int64_of_uint n
  to_int64 (Cell.uint16 n) = int64_of_uint n
  to_int64 (Cell.uint32 n) = int64_of_uint n
  to_int64 (Cell.uint64 n) = int64_of_uint n
  to_int64 (Cell.uint n) = int64_of_uint n
  to_int64 _ = pos 0

  unfoldable pub int_of : ColumnType → Cell f → ℤ
  int_of ColumnType.number c = to_int64 c
  int_of ColumnType.medium_int c = to_int64 c
  int_of ColumnType.bit c = to_int64 c
  int_of _ c = pos 0

  unfoldable pub get_int : RowsEvent f → ℕ → ℕ → Result (Option ℤ)
  get_int = read (λ column c. ok (some (int_of column.column_type c)))

  -- A type assertion on another type is a panic.
  unfoldable pub as_uint64 : Cell f → Result ℕ
  as_uint64 (Cell.uint64 n) = ok n
  as_uint64 _ = panic

  unfoldable pub uint_of : ColumnType → Cell f → Result ℕ
  uint_of ColumnType.number c = as_uint64 c
  uint_of _ c = ok 0

  unfoldable pub get_uint : RowsEvent f → ℕ → ℕ → Result (Option ℕ)
  get_uint = read (λ column c. uint_of column.column_type c >>= λ n. ok (some n))

  unfoldable pub as_float32 : Cell f → Result f.Float32
  as_float32 (Cell.float32 x) = ok x
  as_float32 _ = panic

  unfoldable pub float32_of : ColumnType → Cell f → Result f.Float32
  float32_of ColumnType.float c = as_float32 c
  float32_of _ c = ok f.zero_float32

  unfoldable pub get_float32 : RowsEvent f → ℕ → ℕ → Result (Option f.Float32)
  get_float32 = read (λ column c. float32_of column.column_type c >>= λ x. ok (some x))

  unfoldable pub as_float64 : Cell f → Result f.Float64
  as_float64 (Cell.float64 x) = ok x
  as_float64 _ = panic

  unfoldable pub float64_of : ColumnType → Cell f → Result f.Float64
  float64_of ColumnType.float c = as_float64 c
  float64_of ColumnType.decimal c = as_float64 c
  float64_of _ c = ok f.zero_float64

  unfoldable pub get_float64 : RowsEvent f → ℕ → ℕ → Result (Option f.Float64)
  get_float64 = read (λ column c. float64_of column.column_type c >>= λ x. ok (some x))

  unfoldable pub as_decimal : Cell f → Result f.Decimal
  as_decimal (Cell.decimal x) = ok x
  as_decimal _ = panic

  unfoldable pub decimal_of : ColumnType → Cell f → Result f.Decimal
  decimal_of ColumnType.decimal c = as_decimal c
  decimal_of _ c = ok f.zero_decimal

  unfoldable pub get_decimal : RowsEvent f → ℕ → ℕ → Result (Option f.Decimal)
  get_decimal = read (λ column c. decimal_of column.column_type c >>= λ x. ok (some x))

  unfoldable pub get_bool : RowsEvent f → ℕ → ℕ → Result (Option Bool)
  get_bool = read (λ column c. ok (some (is_one (int_of column.column_type c))))

  unfoldable pub as_bytes : Cell f → Result Bytes
  as_bytes (Cell.bytes s) = ok s
  as_bytes _ = panic

  unfoldable pub as_string : Cell f → Result Bytes
  as_string (Cell.string s) = ok s
  as_string _ = panic

  -- getByte: TYPE_STRING has the bytes of a blob, TYPE_BINARY a string.
  unfoldable pub bytes_of : ColumnType → Cell f → Result Bytes
  bytes_of ColumnType.string c = as_bytes c
  bytes_of ColumnType.binary c = as_string c
  bytes_of _ c = ok []

  unfoldable pub get_byte : RowsEvent f → ℕ → ℕ → Result (Option Bytes)
  get_byte = read (λ column c. bytes_of column.column_type c >>= λ s. ok (some s))

  -- A string, or else bytes.
  unfoldable pub text_of : Cell f → Result Bytes
  text_of (Cell.string s) = ok s
  text_of c = as_bytes c

  -- values[v-1], for an int64 v
  unfoldable pub enum_value : List Bytes → Cell f → Result (Option Bytes)
  enum_value [] c = ok none
  enum_value (v ∷ vs) (Cell.int64 (pos (suc n))) = index (v ∷ vs) n >>= λ s. ok (some s)
  enum_value (v ∷ vs) _ = panic

  unfoldable pub string_of : ColumnType → TableColumn → Cell f → Result (Option Bytes)
  string_of ColumnType.enum column c = enum_value column.enum_values c
  string_of ColumnType.string column c = text_of c >>= λ s. ok (some s)
  string_of ColumnType.time column c = text_of c >>= λ s. ok (some s)
  string_of ColumnType.binary column c = text_of c >>= λ s. ok (some s)
  string_of ColumnType.json column c = text_of c >>= λ s. ok (some s)
  string_of _ column c = ok (some [])

  unfoldable pub get_string : RowsEvent f → ℕ → ℕ → Result (Option Bytes)
  get_string = read (λ column c. string_of column.column_type column c)

  unfoldable pub time_of : ColumnType → Cell f → Result (Option f.Time)
  time_of ColumnType.timestamp c =
      as_string c >>= λ s. parsed (f.parse_time (codes "2006-01-02 15:04:05") s)
  time_of ColumnType.datetime c =
      as_string c >>= λ s. parsed (f.parse_time (codes "2006-01-02 15:04:05") s)
  time_of ColumnType.date c = as_string c >>= λ s. parsed (f.parse_time (codes "2006-01-02") s)
  time_of _ c = panic

  unfoldable pub get_time : RowsEvent f → ℕ → ℕ → Result (Option f.Time)
  get_time = read (λ column c. time_of column.column_type c)
