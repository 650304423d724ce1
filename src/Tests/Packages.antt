-- ===== src/Tests/Packages.antt =====
-- Concrete parameters of the API: bytes that are a gob stream or a request in JSON, tags in
-- quotes, a canal with no state, and an API.
use mysql_to_mssql.Base.{
  ◌≡◌, refl, sym, ap, ◌==◌, true, false, if◌then◌else◌, List, [], ◌∷◌, ◌++◌, none, some, All, Bytes,
  codes, drop, Result, ok, err, ok-injective, pos,
}
use mysql_to_mssql.Db.Interface.{Interface}
use mysql_to_mssql.Db.Inmem.Queue.{inmem}
use mysql_to_mssql.Server.Param.{StructRequest}
use mysql_to_mssql.Syncer.Gob.{Gob, Sent}
use mysql_to_mssql.Api.Models.{Dynamic, Literal}
use mysql_to_mssql.Api.{Packages, Api, Running}
use mysql_to_mssql.Syncer.Schedule.{waiting}
use mysql_to_mssql.Tests.Fixtures.{
  units, take_action, take_model, take_action_lem, take_model_lem, recorder, table, user, idle,
}

pub data Stored : Type 0 where
  stream : List (Sent units) → Stored
  request : StructRequest → Stored

abbrev pub stream_of : Stored → List (Sent units)
stream_of (stream l) = l
stream_of (request p) = []

abbrev pub request_of : Stored → Result StructRequest
request_of (stream l) = err (codes "json")
request_of (request p) = ok p

abbrev pub stored : Gob units
stored = record {
  Wire = Stored;
  Encoder = List (Sent units);
  Decoder = List (Sent units);
  new_encoder = [];
  encode_action = λ n e. ok (e ++ Sent.action n ∷ []);
  encode_model = λ m e. ok (e ++ Sent.model m ∷ []);
  bytes = stream;
  new_decoder = stream_of;
  decode_action = take_action;
  decode_model = λ p. take_model;
  foreign_value = λ t v. v;
  written = λ e. e;
  unread = λ d. d;
  written-new_encoder = refl;
  written-encode_action = λ n e e' h. sym (ok-injective h);
  written-encode_model = λ m e e' h. sym (ok-injective h);
  unread-new_decoder = λ e. refl;
  decode_action_lem = take_action_lem;
  decode_model_lem = take_model_lem;
}

-- The text up to a quote.
abbrev pub unquoted : Bytes → Bytes
unquoted [] = []
unquoted (c ∷ s) = if c == b'"' then [] else c ∷ unquoted s

pub unquoted_lem : (s : Bytes) → All Literal s → unquoted (s ++ codes "\"") ≡ s
unquoted_lem [] h = refl
unquoted_lem (c ∷ s) h = rw (h.0.0) (ap (λ (l : Bytes). c ∷ l) (unquoted_lem s h.1))

abbrev pub dynamic : Dynamic
dynamic = record {
  title = λ s. s;
  accepts = λ names. true;
  get_gorm = λ s. unquoted (drop 6 s);
  get_gorm_lem = unquoted_lem;
}

abbrev pub packages : Packages Stored
packages = record {
  Tls = Unit;
  Pool = Unit;
  Pair = Unit;
  append_certs_from_pem = λ text. some tt;
  x509_key_pair = λ cert key. ok tt;
  tls = λ name pair pool. tt;
  canals = record {
    Canal = Unit;
    Position = Unit;
    new_canal = λ cfg. ok tt;
    set_event_handler = λ c. c;
    get_master_pos = λ c. (ok tt, c);
    run_from = λ pos c. c;
    close = λ c. c;
  };
  marshal = λ p. ok (request p);
  no_bytes = stream [];
  unmarshal = request_of;
}

abbrev pub disk : Interface Stored
disk = inmem

-- An API with a parser and the model of one table, and nothing stored.
abbrev pub parsing : Api stored disk recorder dynamic packages
parsing = record {
  data_models = (table, user 0 []) ∷ [];
  db_interface = [];
  event_wrapper = none;
  syncer = none;
  log_store = true;
  left = [];
}

-- An API that was just made on an empty storage.
abbrev pub unused : Api stored disk recorder dynamic packages
unused = record {
  data_models = [];
  db_interface = [];
  event_wrapper = none;
  syncer = none;
  log_store = false;
  left = [];
}

-- An API whose syncer waits for its next tick.
abbrev pub running : Running stored disk recorder dynamic packages
running = record { syncer = idle; worker = waiting; signal = true; interval = pos 1 }

abbrev pub syncing : Api stored disk recorder dynamic packages
syncing = record parsing { syncer = some running }
