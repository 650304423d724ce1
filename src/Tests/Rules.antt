-- ===== src/Tests/Rules.antt =====
-- Requests and the rules in their tags.
use mysql_to_mssql.Base.{
  ◌≡◌, ◌≢◌, refl, sym, ◌∙◌, true, false, List, [], ◌∷◌, Bytes, codes, eqb, ok, err, panic, Result,
  Bool, All, not, ◌==◌, leb,
}
use mysql_to_mssql.Api
use mysql_to_mssql.Db.Inmem.Saved.{put_ok}
use mysql_to_mssql.Db.Types.{MySqlType}
use mysql_to_mssql.Server.Param.{StructRequest, StartParserRequest}
use mysql_to_mssql.Server.Rules.{Rule, Checked, Tagged, Validator, validate, parser_rules}
use mysql_to_mssql.Server.Rules.Types.{checked_struct, put_struct-safe}
use mysql_to_mssql.Server.Rules.Refused.{handle_start_parser-decimal}
use mysql_to_mssql.Server.Handler.{put_struct, handle_start_parser, http_error}
use mysql_to_mssql.Tests.Packages.{Stored, stored, disk, dynamic, packages, unused}
use mysql_to_mssql.Tests.Fixtures.{recorder, table}

-- A validator that finds every text well-formed.
abbrev holds : Rule → Checked → Bool
holds Rule.required (Checked.text s) = not (eqb s [])
holds Rule.required (Checked.uint n) = not (n == 0)
holds Rule.required (Checked.flag b) = b
holds Rule.required (Checked.slice b) = b
holds (Rule.lte m) (Checked.uint n) = leb n m
holds _ _ = true

abbrev refused_if : Bool → Result (Unit {0}) → Result (Unit {0})
refused_if true rest = rest
refused_if false rest = err (codes "not valid")

abbrev check_struct : List Tagged → Result (Unit {0})
check_struct [] = ok tt
check_struct (r ∷ rules) = refused_if (holds r.1 r.2) (check_struct rules)

check_struct_ok :
    (rules : List Tagged)
    → check_struct rules ≡ ok tt
    → All (λ (r : Tagged). holds r.1 r.2 ≡ true) rules
check_struct_ok [] h = tt
check_struct_ok (r ∷ rules) h =
    let (here, later) = refused_if-ok (holds r.1 r.2) (check_struct rules) h in
    (here, check_struct_ok rules later)
  where
    refused_if-ok :
        (b : Bool) (rest : Result (Unit {0}))
        → refused_if b rest ≡ ok tt
        → (b ≡ true) × (rest ≡ ok tt)
    refused_if-ok true rest q = (refl, q)
    refused_if-ok false rest q = cc

check_struct_safe : (rules : List Tagged) → check_struct rules ≢ panic
check_struct_safe [] h = cc
check_struct_safe (r ∷ rules) h = refused_if-safe (holds r.1 r.2) (check_struct_safe rules) h
  where
    refused_if-safe :
        (b : Bool) → check_struct rules ≢ panic → refused_if b (check_struct rules) ≢ panic
    refused_if-safe true k q = k q
    refused_if-safe false k q = cc

abbrev lenient : Validator
lenient = record {
  holds = holds;
  check_struct = check_struct;
  check_struct_ok = check_struct_ok;
  check_struct_safe = check_struct_safe;
  required_uint = λ n. refl;
  required_flag = λ b. refl;
  lte_uint = λ m n. refl;
}

abbrev one_column : StructRequest
one_column = record {
  table = table;
  columns =
      record { name = codes "id"; column_type = MySqlType.nullable_string; is_primary = true } ∷ [];
}

ok_ne_panic : {A : Type 0} {a : A} → ok a ≢ panic
ok_ne_panic h = cc

put-safe :
    (name : Bytes) (w : Stored) (db : disk.State) → (disk.put Api.bucket name w 0 db).0 ≢ panic
put-safe name w db h = let fine = put_ok Api.bucket name w db in absurd (ok_ne_panic (sym fine ∙ h))

put_struct-safe_example :
    (put_struct stored disk recorder dynamic packages
      (checked_struct lenient (λ body. ok one_column) (λ p. true))
      []
      unused).0
    ≢ panic
put_struct-safe_example =
    put_struct-safe stored disk recorder dynamic packages lenient (λ p h. cc)
      (λ b w db. put-safe b w db) (λ body. ok one_column) (λ p. true) [] unused (λ h. cc)
      (λ p h. refl)

abbrev no_decimal : StartParserRequest
no_decimal = record {
  server_id = 1;
  addr = codes "localhost:3306";
  user = codes "reader";
  password = codes "secret";
  include_table_regex = [];
  exclude_table_regex = [];
  use_decimal = false;
  charset = [];
  tls_config = record { server_name = []; server_ca = []; client_cert = []; client_key = [] };
}

handle_start_parser-decimal_example :
    (e : Bytes) × (handle_start_parser stored disk recorder dynamic packages
        (record { bind = λ body. ok no_decimal; validate = λ p. validate lenient (parser_rules p) })
        []
        unused
      ≡ (ok (http_error 400 e), unused))
handle_start_parser-decimal_example =
    handle_start_parser-decimal stored disk recorder dynamic packages lenient
      (λ body. ok no_decimal) [] no_decimal unused refl refl
