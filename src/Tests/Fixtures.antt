-- ===== src/Tests/Fixtures.antt =====
-- Concrete parameters: types of one value, a gob stream that is the list of what was encoded, a
-- target that records what was run on it and refuses a table, and a model of a table.
use mysql_to_mssql.Base.{
  ℕ, ◌≡◌, refl, sym, ap, Bool, true, false, List, [], ◌∷◌, ◌++◌, none, Bytes, codes, eqb, pos,
  Result, ok, err, ok-injective, if◌then◌else◌,
}
use mysql_to_mssql.Reflect.{Foreign, GoType, Value, Struct}
use mysql_to_mssql.Db.Inmem.Queue.{inmem}
use mysql_to_mssql.Db.Interface.{Interface}
use mysql_to_mssql.Syncer.Gob.{received, Gob, Sent, layout}
use mysql_to_mssql.Syncer.Target.{Target}
use mysql_to_mssql.Syncer.Writer.{Syncer}

abbrev pub units : Foreign
units = record {
  Time = Unit;
  Float32 = Unit;
  Float64 = Unit;
  Decimal = Unit;
  Object = Unit;
  zero_time = tt;
  zero_float32 = tt;
  zero_float64 = tt;
  zero_decimal = tt;
  parse_time = λ layout text. none;
  decimal_from_string = λ text. tt;
  unmarshal = λ name text. tt;
}

abbrev pub take_action : List (Sent units) → Result ℕ × List (Sent units)
take_action [] = (err (codes "EOF"), [])
take_action (Sent.action n ∷ rest) = (ok n, rest)
take_action (Sent.model m ∷ rest) = (err (codes "type"), rest)

abbrev pub take_model : List (Sent units) → Result (Struct units) × List (Sent units)
take_model [] = (err (codes "EOF"), [])
take_model (Sent.action n ∷ rest) = (err (codes "type"), rest)
take_model (Sent.model m ∷ rest) = (ok (received (λ t v. v) m), rest)

pub take_action_lem :
    (d : List (Sent units)) (n : ℕ) (rest : List (Sent units))
    → d ≡ Sent.action n ∷ rest
    → ((take_action d).0 ≡ ok n) × ((take_action d).1 ≡ rest)
take_action_lem d n rest h = (
  ap (λ (l : List (Sent units)). (take_action l).0) h,
  ap (λ (l : List (Sent units)). (take_action l).1) h,
)

pub take_model_lem :
    (d : List (Sent units)) (p m : Struct units) (rest : List (Sent units))
    → d ≡ Sent.model m ∷ rest
    → layout p ≡ layout m
    → ((take_model d).0 ≡ ok (received (λ t v. v) m)) × ((take_model d).1 ≡ rest)
take_model_lem d p m rest h _ = (
  ap (λ (l : List (Sent units)). (take_model l).0) h,
  ap (λ (l : List (Sent units)). (take_model l).1) h,
)

abbrev pub streams : Gob units
streams = record {
  Wire = List (Sent units);
  Encoder = List (Sent units);
  Decoder = List (Sent units);
  new_encoder = [];
  encode_action = λ n e. ok (e ++ Sent.action n ∷ []);
  encode_model = λ m e. ok (e ++ Sent.model m ∷ []);
  bytes = λ e. e;
  new_decoder = λ w. w;
  decode_action = take_action;
  decode_model = λ p. take_model;
  foreign_value = λ t v. v;
  written = λ e. e;
  unread = λ d. d;
  written-new_encoder = refl;
  written-encode_action = λ n e e' h. sym (ok-injective h);
  written-encode_model = λ m e e' h. sym (ok-injective h);
  unread-new_decoder = λ e. refl;
  decode_action_lem = take_action_lem;
  decode_model_lem = take_model_lem;
}

-- What was run, the latest first.
abbrev pub Trace : Type 0
Trace = List (Bytes × List (Value units))

-- A query for which a statement is refused.
abbrev pub refused : Bytes
refused = codes "insert into bad (id,name) values (?,?)"

abbrev pub prepare_query : Bytes → Result Bytes
prepare_query query = if eqb query refused then err (codes "refused") else ok query

pub prepare_query_lem : (query st : Bytes) → prepare_query query ≡ ok st → st ≡ query
prepare_query_lem query st h = prepared_if (eqb query refused) h
  where
    prepared_if : (b : Bool) → (if b then err (codes "refused") else ok query) ≡ ok st → st ≡ query
    prepared_if true h = cc
    prepared_if false h = sym (ok-injective h)

abbrev pub recorder : Target units
recorder = record {
  State = Trace;
  Stmt = Bytes;
  connect = λ text. ok [];
  prepare = λ query s. (prepare_query query, s);
  exec = λ st args s. (ok tt, (st, args) ∷ s);
  exec_text = λ query s. (ok tt, (query, []) ∷ s);
  close_stmt = λ st s. s;
  close_db = λ s. s;
  text = λ st. st;
  text-prepare = λ query s st h. prepare_query_lem query st h;
}

-- The storage of encoded records in memory.
abbrev pub memory : Interface (List (Sent units))
memory = inmem

abbrev pub table : Bytes
table = codes "users"

abbrev pub user : ℕ → Bytes → Struct units
user id name =
    record {
      tag = codes "column:id;primaryKey";
      field_type = GoType.int;
      value = Value.int (pos id);
    }
    ∷ record { tag = codes "column:name"; field_type = GoType.string; value = Value.string name }
    ∷ []

abbrev pub idle : Syncer recorder
idle = record { db = []; insert_stmts = []; update_stmts = []; delete_stmts = [] }
