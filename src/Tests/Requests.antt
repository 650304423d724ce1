-- ===== src/Tests/Requests.antt =====
-- Requests to the API, and an event of the binlog that goes through it.
use mysql_to_mssql.Base.{
  ℕ, ◌≡◌, refl, true, false, [], ◌∷◌, map, some, Bytes, codes, eqb, lookup, insert as assign, pos,
  ok, panic, arith, ok-injective, sym, ap,
}
use mysql_to_mssql.Reflect.{Struct, GoType, Value}
use mysql_to_mssql.Db.Types.{MySqlType, convert}
use mysql_to_mssql.Db.Inmem.{
  bucket_of, items, assign as assign_items, init_bucket, init_key, init_map, put as put_item,
  get_all, first_values,
}
use mysql_to_mssql.Db.Inmem.Saved.{inmem_saves}
use mysql_to_mssql.Server.Param.{StructRequest, StartParserRequest, StartSyncerRequest}
use mysql_to_mssql.Server.Handler.{
  Bound, model, put_struct, get_struct, handle_start_parser, handle_start_syncer,
}
use mysql_to_mssql.Server.Handler.Responses.{put_struct-get_struct}
use mysql_to_mssql.Server.Handler.Starts.{Answered, start-Answered}
use mysql_to_mssql.Parser.Tags
use mysql_to_mssql.Syncer.Columns.{columns_of}
use mysql_to_mssql.Syncer.Writer
use mysql_to_mssql.Api
use mysql_to_mssql.Api.{put, bytes_of, put_bytes, store_to_db, load_data_models, Running}
use mysql_to_mssql.Api.Models
use mysql_to_mssql.Api.Models.{generate_struct}
use mysql_to_mssql.Api.Models.Tags.{both, WellNamed, asked, has, options_of, generate_struct-read}
use mysql_to_mssql.Api.Lifecycle.{start_syncer, stop_syncer, schedule_syncer, create_syncer}
use mysql_to_mssql.Api.Lifecycle
use mysql_to_mssql.Api.Lifecycle.Restart.{ScansOn, start_syncer-ScansOn, start_syncer-interval}
use mysql_to_mssql.Syncer.Service.Delivery.{log_all}
use mysql_to_mssql.Syncer.Store.RoundTrip.{inserted}
use mysql_to_mssql.Api.Reload.{IsSaved, SameType, put-IsSaved, load_data_models-SameType}
use mysql_to_mssql.Tests.Fixtures.{units, recorder, table, idle, user}
use mysql_to_mssql.Tests.Rows.{id-IsPlain, event}
use mysql_to_mssql.Api.Events.{on_event}
use mysql_to_mssql.Api.Reload.Reachable.{puts, handles, starts_parser, rest, step, Reaches-IsSaved}
use mysql_to_mssql.Api.Lifecycle.{start_parser}
use mysql_to_mssql.Tests.Packages.{
  running, syncing, Stored, request, request_of, stored, dynamic, packages, disk, parsing, unused,
}

abbrev users : StructRequest
users = record {
  table = table;
  columns =
      record { name = codes "id"; column_type = MySqlType.int; is_primary = true }
      ∷ record { name = codes "name"; column_type = MySqlType.nullable_string; is_primary = false }
      ∷ [];
}

id-WellNamed :
    (t : MySqlType) → WellNamed (record { name = codes "id"; column_type = t; is_primary = true })
unfolding eqb
id-WellNamed t = record { plain = id-IsPlain; literal = (both, (both, tt)); named = refl }

name-WellNamed :
    (t : MySqlType)
    → WellNamed (record { name = codes "name"; column_type = t; is_primary = false })
unfolding eqb
name-WellNamed t = record {
  plain = (both, (both, (both, (both, tt))));
  literal = (both, (both, (both, (both, tt))));
  named = refl;
}

-- The model that is made of the request.
abbrev made : Struct units
made =
    record {
      tag = codes "column:id;primaryKey";
      field_type = GoType.int;
      value = Value.int (pos 0);
    }
    ∷ record { tag = codes "column:name"; field_type = GoType.ptr GoType.string; value = Value.nil }
    ∷ []

made_lem : generate_struct dynamic users.columns ≡ ok made
unfolding generate_struct Models.fields_of Models.add_field Models.tag_text Models.zero_value
    convert
made_lem = refl

generate_struct-read_example :
    (has (columns_of made false).0 ≡ asked users.columns)
    × (map (λ field. Tags.parse_tag_setting field.tag) made
        ≡ map (λ c. ok (c.name, options_of c)) users.columns)
    × (map (λ field. some field.field_type) made ≡ map (λ c. convert c.column_type) users.columns)
generate_struct-read_example =
    generate_struct-read dynamic users.columns made
      (id-WellNamed MySqlType.int, (name-WellNamed MySqlType.nullable_string, tt)) made_lem

unmarshal-marshal :
    (p : StructRequest) (b : Stored) → packages.marshal p ≡ ok b → packages.unmarshal b ≡ ok p
unmarshal-marshal p b h = ap request_of (sym (ok-injective h))

abbrev Saved : Api.Api stored disk recorder dynamic packages → Type 0
Saved =
    IsSaved stored disk recorder dynamic packages inmem_saves (λ p. (request p, refl))
      unmarshal-marshal

unused-IsSaved : Saved unused
unfolding bucket_of lookup items
unused-IsSaved = record { sound = λ b. tt; matches = λ table. tt }

-- The API with the model.
abbrev known : Api.Api stored disk recorder dynamic packages
known = (put stored disk recorder dynamic packages users unused).1

known_ok : (put stored disk recorder dynamic packages users unused).0 ≡ ok made
unfolding put store_to_db bytes_of put_bytes put_item init_map init_key init_bucket items bucket_of
    assign_items lookup assign eqb generate_struct Models.fields_of Models.add_field Models.tag_text
    Models.zero_value convert
known_ok = refl

known-Saved : Saved known
known-Saved =
    put-IsSaved stored disk recorder dynamic packages inmem_saves (λ p. (request p, refl))
      unmarshal-marshal unused users unused-IsSaved known_ok

abbrev parser_request : StartParserRequest
parser_request = record {
  server_id = 1;
  addr = codes "source:3306";
  user = codes "reader";
  password = [];
  include_table_regex = [];
  exclude_table_regex = [];
  use_decimal = false;
  charset = codes "utf8";
  tls_config = record { server_name = []; server_ca = []; client_cert = []; client_key = [] };
}

-- The parser is started, and an event comes in.
abbrev listening : Api.Api stored disk recorder dynamic packages
listening = (start_parser stored disk recorder dynamic packages parser_request known).1

Reaches-IsSaved_example : Saved (on_event stored disk recorder dynamic packages event listening).1
Reaches-IsSaved_example =
    Reaches-IsSaved stored disk recorder dynamic packages inmem_saves (λ p. (request p, refl))
      unmarshal-marshal
      (step unused known _ (puts unused users made known_ok) (
        step known listening _ (starts_parser known parser_request)
          (step listening _ _ (handles listening event) (rest _))))
      unused-IsSaved

abbrev restarted : Api.Api stored disk recorder dynamic packages
restarted = record unused { db_interface = known.db_interface }

load_data_models-SameType_example :
    ((load_data_models stored disk recorder dynamic packages restarted).0 ≡ ok tt)
    × ((name : Bytes)
        → SameType stored disk recorder dynamic packages inmem_saves
            (λ p. (request p, refl))
            unmarshal-marshal
            (lookup name
              (load_data_models stored disk recorder dynamic packages restarted).1.data_models)
            (lookup name known.data_models))
unfolding put store_to_db bytes_of put_bytes put_item init_map init_key init_bucket items bucket_of
    assign_items lookup assign eqb generate_struct Models.fields_of Models.add_field Models.tag_text
    Models.zero_value convert get_all first_values
load_data_models-SameType_example =
    load_data_models-SameType stored disk recorder dynamic packages inmem_saves
      (λ p. (request p, refl)) unmarshal-marshal known restarted
      (record { key = table; value = request users } ∷ []) known-Saved refl refl refl

abbrev any_request : {P : Type 0} → P → Bound P
any_request p = record { bind = λ body. ok p; validate = λ p. ok tt }

put_struct-get_struct_example :
    get_struct stored disk recorder dynamic packages table
      (put_struct stored disk recorder dynamic packages (any_request users) [] unused).1
    ≡ (
      ok (model 200 (some made)),
      (put_struct stored disk recorder dynamic packages (any_request users) [] unused).1,
    )
unfolding eqb
put_struct-get_struct_example =
    put_struct-get_struct stored disk recorder dynamic packages (any_request users) [] users made
      unused refl refl refl made_lem

abbrev syncer_request : ℕ → StartSyncerRequest
syncer_request n = record {
  interval = pos n;
  server = codes "target";
  database = codes "copy";
  user_id = codes "writer";
  password = [];
  log = 0;
  encrypt = [];
  app_name = [];
}

start-Answered_example :
    Answered stored disk recorder dynamic packages unused (
      handle_start_parser stored disk recorder dynamic packages
        (any_request parser_request)
        []
        unused)
    × Answered stored disk recorder dynamic packages unused (
        handle_start_syncer stored disk recorder dynamic packages
          (any_request (syncer_request 0))
          []
          unused)
start-Answered_example =
    start-Answered stored disk recorder dynamic packages (any_request parser_request)
      (any_request (syncer_request 0)) [] unused

-- A change waits in the log.
abbrev behind : Api.Api stored disk recorder dynamic packages
behind = record syncing {
  db_interface =
      (log_all stored disk recorder table (inserted (user 1 (codes "ann")) ∷ [])
        syncing.db_interface).1;
}

start_syncer-ScansOn_example : ScansOn stored disk recorder dynamic packages running behind (
    stop_syncer stored disk recorder dynamic packages
      (start_syncer stored disk recorder dynamic packages (syncer_request 5) behind).1)
unfolding start_syncer create_syncer schedule_syncer Api.target_config Api.interval_of
    Lifecycle.ticks Lifecycle.nanoseconds Lifecycle.set_syncer Lifecycle.running_of
    Lifecycle.service_of Writer.new_syncer Writer.build_conn
start_syncer-ScansOn_example =
    start_syncer-ScansOn stored disk recorder dynamic packages (syncer_request 5) behind running
      refl refl refl

start_syncer-interval_example :
    (start_syncer stored disk recorder dynamic packages (syncer_request 10000000000) parsing).0
    ≡ panic
unfolding Writer.new_syncer Writer.build_conn
start_syncer-interval_example =
    start_syncer-interval stored disk recorder dynamic packages (syncer_request 10000000000) parsing
      idle 10000000000 refl refl refl refl (omega arith)
