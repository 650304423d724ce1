-- ===== src/Server/Rules.antt =====
-- server/param/param.go: the rules in the tags of the requests, and Validate of server/handler.go.
pub mod Types
pub mod Refused
use mysql_to_mssql.Base.{
  ℕ, ℤ, zero, suc, ◌+◌, ◌==◌, ◌≡◌, ◌≢◌, leb, not, Bool, true, List, [], ◌∷◌, ◌++◌, All, Bytes,
  codes, Result, ok, panic,
}
use mysql_to_mssql.Db.Types.{MySqlType}
use mysql_to_mssql.Server.Param.{Column, StructRequest, StartParserRequest, StartSyncerRequest}

-- The uint8 of a type; those that are not listed are 0 and the ones from 21 on.
unfoldable pub number_of : MySqlType → ℕ
number_of MySqlType.int = 1
number_of MySqlType.nullable_int = 2
number_of MySqlType.uint = 3
number_of MySqlType.nullable_uint = 4
number_of MySqlType.string = 5
number_of MySqlType.nullable_string = 6
number_of MySqlType.bool = 7
number_of MySqlType.nullable_bool = 8
number_of MySqlType.date_time = 9
number_of MySqlType.nullable_date_time = 10
number_of MySqlType.float = 11
number_of MySqlType.nullable_float = 12
number_of MySqlType.double = 13
number_of MySqlType.nullable_double = 14
number_of MySqlType.decimal = 15
number_of MySqlType.nullable_decimal = 16
number_of MySqlType.blob = 17
number_of MySqlType.nullable_blob = 18
number_of MySqlType.set = 19
number_of MySqlType.nullable_set = 20
number_of (MySqlType.unlisted zero) = 0
number_of (MySqlType.unlisted (suc n)) = n + 21

-- The rules of the tags, `required`, `numeric`, `lte=<m>`, `alphanum`, `ip` and `hostname_port`.
pub data Rule : Type 0 where
  required numeric alphanum ip hostname_port : Rule
  lte : ℕ → Rule

-- What a rule is about: the value of a field. A slice is there or nil.
pub data Checked : Type 0 where
  text : Bytes → Checked
  uint : ℕ → Checked
  int : ℤ → Checked
  flag : Bool → Checked
  slice : Bool → Checked

-- A rule of a field.
abbrev pub Tagged : Type 0
Tagged = Bytes × Rule × Checked

-- The package validator: the check of a struct, by its rules.
pub record Validator : Type 1 where
  pub holds : Rule → Checked → Bool
  pub check_struct : List Tagged → Result (Unit {0})
  -- there is no error only if every rule holds, and no panic
  pub check_struct_ok :
      (rules : List Tagged)
      → check_struct rules ≡ ok tt
      → All (λ (r : Tagged). holds r.1 r.2 ≡ true) rules
  pub check_struct_safe : (rules : List Tagged) → check_struct rules ≢ panic
  -- `required` fails for the zero value, and `lte` compares a number
  pub required_uint : (n : ℕ) → holds Rule.required (Checked.uint n) ≡ not (n == 0)
  pub required_flag : (b : Bool) → holds Rule.required (Checked.flag b) ≡ b
  pub lte_uint : (m n : ℕ) → holds (Rule.lte m) (Checked.uint n) ≡ leb n m

abbrev pub rule : Bytes → Rule → Checked → Tagged
rule field r value = (field, r, value)

unfoldable pub column_rules : Column → List Tagged
column_rules c =
    let number : Checked = Checked.uint (number_of c.column_type) in
    rule (codes "Name") Rule.required (Checked.text c.name)
    ∷ rule (codes "Type") Rule.required number
    ∷ rule (codes "Type") Rule.numeric number
    ∷ rule (codes "Type") (Rule.lte 20) number
    ∷ []

-- `dive`
unfoldable pub columns_rules : List Column → List Tagged
columns_rules [] = []
columns_rules (c ∷ cs) = column_rules c ++ columns_rules cs

-- The slice of columns is `given` or nil.
unfoldable pub struct_rules : Bool → StructRequest → List Tagged
struct_rules given p =
    rule (codes "Table") Rule.required (Checked.text p.table)
    ∷ rule (codes "Columns") Rule.required (Checked.slice given)
    ∷ columns_rules p.columns

unfoldable pub parser_rules : StartParserRequest → List Tagged
parser_rules p =
    rule (codes "ServerID") Rule.required (Checked.uint p.server_id)
    ∷ rule (codes "ServerID") Rule.numeric (Checked.uint p.server_id)
    ∷ rule (codes "Addr") Rule.required (Checked.text p.addr)
    ∷ rule (codes "Addr") Rule.hostname_port (Checked.text p.addr)
    ∷ rule (codes "User") Rule.required (Checked.text p.user)
    ∷ rule (codes "User") Rule.alphanum (Checked.text p.user)
    ∷ rule (codes "Password") Rule.required (Checked.text p.password)
    ∷ rule (codes "Password") Rule.alphanum (Checked.text p.password)
    ∷ rule (codes "UseDecimal") Rule.required (Checked.flag p.use_decimal)
    ∷ []

unfoldable pub syncer_rules : StartSyncerRequest → List Tagged
syncer_rules p =
    rule (codes "Interval") Rule.numeric (Checked.int p.interval)
    ∷ rule (codes "Server") Rule.required (Checked.text p.server)
    ∷ rule (codes "Server") Rule.ip (Checked.text p.server)
    ∷ rule (codes "Database") Rule.required (Checked.text p.database)
    ∷ rule (codes "Log") Rule.numeric (Checked.uint p.log)
    ∷ []

-- Validate, of a request whose rules these are.
unfoldable pub validate : Validator → List Tagged → Result (Unit {0})
validate v rules = v.check_struct rules
