-- ===== src/Server/Handler.antt =====
-- server/handler.go, server/server.go and main.go: what each request does, and its response.
pub mod Responses
pub mod Starts
use mysql_to_mssql.Base.{
  ℕ, ◌||◌, Bool, ◌*◌, if◌then◌else◌, List, [], ◌∷◌, ◌++◌, Option, Bytes, codes, eqb, Dict, Result,
  ok, err, panic, ◌>>=◌, Call, none,
}
use mysql_to_mssql.Reflect.{Foreign, Struct}
use mysql_to_mssql.Db.Interface.{Interface}
use mysql_to_mssql.Db.Nuts.{Nuts}
use mysql_to_mssql.Db.Localdb.{Options, use_nuts_db}
use mysql_to_mssql.Db.Localdb.Queue.{localdb}
use mysql_to_mssql.Syncer.Gob.{Gob}
use mysql_to_mssql.Syncer.Target.{Target}
use mysql_to_mssql.Syncer.Schedule.{Reply, stopped, failed, no_return}
use mysql_to_mssql.Server.Param.{StructRequest, StartParserRequest, StartSyncerRequest}
use mysql_to_mssql.Api.Models.{Dynamic}
use mysql_to_mssql.Api
use mysql_to_mssql.Api.{Packages, put, get, load_data_models}
use mysql_to_mssql.Api.Lifecycle.{start_parser, stop_parser, start_syncer, stop_syncer}

-- What echo and its validator do with the body of a request of a type.
pub record Bound (P : Type 0) : Type 0 where
  pub bind : Bytes → Result P
  pub validate : P → Result (Unit {0})

-- A status and what is sent; `recovered` has status 500 and the value of a panic; `pending` is
-- never sent.
pub data Response (f : Foreign) : Type 0 where
  model : ℕ → Option (Struct f) → Response f
  models : ℕ → Dict (Struct f) → Response f
  text : ℕ → Bytes → Response f
  http_error : ℕ → Bytes → Response f
  recovered : Response f
  pending : Response f

pub record Requests : Type 0 where
  pub struct_request : Bound StructRequest
  pub parser_request : Bound StartParserRequest
  pub syncer_request : Bound StartSyncerRequest

pub data Route : Type 0 where
  get_all_structs get_named_struct put_a_struct parser_start parser_stop syncer_start syncer_stop :
      Route

-- The routes of StartServer, but for the stream of the log.
unfoldable pub routes : List (Bytes × Bytes × Route)
routes =
    (codes "GET", codes "/struct/get", get_all_structs)
    ∷ (codes "GET", codes "/struct/get/:name", get_named_struct)
    ∷ (codes "POST", codes "/struct/put", put_a_struct)
    ∷ (codes "POST", codes "/parser/start", parser_start)
    ∷ (codes "POST", codes "/parser/stop", parser_stop)
    ∷ (codes "POST", codes "/syncer/start", syncer_start)
    ∷ (codes "POST", codes "/syncer/stop", syncer_stop)
    ∷ []

-- The storage that newHandler chooses: on disk, or else in memory.
unfoldable pub uses_disk : Bytes → Bool
uses_disk db_type = eqb db_type (codes "nutsdb") || eqb db_type []

module _ {f : Foreign} (g : Gob f) (i : Interface g.Wire) (t : Target f) (d : Dynamic)
    (k : Packages g.Wire) where
  abbrev pub Handled : Type 0
  Handled = Call (Api.Api g i t d k) (Response f)

  -- A request that cannot be bound or is not valid is refused, and else handled.
  unfoldable pub checked : {P : Type 0} → Bound P → Bytes → Bytes → Bytes → (P → Handled) → Handled
  checked q bind_prefix valid_prefix body handle a = elim (q.bind body) [
    | ok p ↦ elim (q.validate p) [
      | ok _ ↦ handle p a
      | err e ↦ (ok (http_error 400 (valid_prefix ++ e)), a)
      | panic ↦ (panic, a)
    ]
    | err e ↦ (ok (http_error 400 (bind_prefix ++ e)), a)
    | panic ↦ (panic, a)
  ]

  -- The deferred function: a panic becomes the response.
  unfoldable pub recover :
      Result (Response f) × Api.Api g i t d k → Result (Response f) × Api.Api g i t d k
  recover (panic, a) = (ok recovered, a)
  recover (r, a) = (r, a)

  unfoldable pub put_response : Result (Struct f) → Result (Response f)
  put_response (ok strct) = ok (model 201 (Option.some strct))
  put_response (err e) = ok (http_error 500 e)
  put_response panic = panic

  unfoldable pub put_struct : Bound StructRequest → Bytes → Handled
  put_struct q body =
      checked q [] [] body (λ p a. let (r, a') = put g i t d k p a in (put_response r, a'))

  unfoldable pub get_struct : Bytes → Handled
  get_struct name a =
      if eqb name []
      then (ok (models 200 a.data_models), a)
      else (ok (model 200 (get g i t d k name a)), a)

  unfoldable pub accepted : Result (Unit {0}) → Result (Response f)
  accepted (ok _) = ok (text 202 (codes "OK"))
  accepted (err e) = err e
  accepted panic = panic

  unfoldable pub handle_start_parser : Bound StartParserRequest → Bytes → Handled
  handle_start_parser q body a = recover (
      checked q (codes "bind: ") (codes "validate: ") body
        (λ p a. let (r, a') = start_parser g i t d k p a in (accepted r, a')) a)

  unfoldable pub stop_response : Result (Unit {0}) → Result (Response f)
  stop_response (ok _) = ok (text 200 (codes "OK"))
  stop_response (err e) = ok (http_error 409 (codes "Parser is closed, or has not been started"))
  stop_response panic = panic

  unfoldable pub handle_stop_parser : Handled
  handle_stop_parser a = let (r, a') = stop_parser g i t d k a in (stop_response r, a')

  unfoldable pub handle_start_syncer : Bound StartSyncerRequest → Bytes → Handled
  handle_start_syncer q body a = recover (
      checked q (codes "bind: ") (codes "validate: ") body
        (λ p a. let (r, a') = start_syncer g i t d k p a in (accepted r, a')) a)

  unfoldable pub reply_response : Reply → Response f
  reply_response stopped = text 200 (codes "OK")
  reply_response (failed e) = http_error 500 e
  reply_response no_return = pending

  unfoldable pub handle_stop_syncer : Handled
  handle_stop_syncer a =
      let (r, a') = stop_syncer g i t d k a in (r >>= (λ reply. ok (reply_response reply)), a')

  -- The handler of a route, for a request's parameter `name` and its body.
  unfoldable pub handle : Requests → Route → Bytes → Bytes → Handled
  handle q get_all_structs name body = get_struct []
  handle q get_named_struct name body = get_struct name
  handle q put_a_struct name body = put_struct q.struct_request body
  handle q parser_start name body = handle_start_parser q.parser_request body
  handle q parser_stop name body = handle_stop_parser
  handle q syncer_start name body = handle_start_syncer q.syncer_request body
  handle q syncer_stop name body = handle_stop_syncer

  -- newHandler, on the state of the storage that was chosen: an error of LoadDataModels is a panic.
  unfoldable pub loaded : Result (Unit {0}) × Api.Api g i t d k → Result (Api.Api g i t d k)
  loaded (ok _, a) = ok a
  loaded (_, a) = panic

  unfoldable pub new_handler : Result i.State → Result (Api.Api g i t d k)
  new_handler storage = storage >>= λ db. loaded (
      load_data_models g i t d k (record {
        data_models = [];
        db_interface = db;
        event_wrapper = none;
        syncer = none;
        log_store = Bool.false;
        left = [];
      }))

module _ {f : Foreign} (g : Gob f) (n : Nuts g.Wire) (t : Target f) (d : Dynamic)
    (k : Packages g.Wire) where
  unfoldable pub new_server : Options → Result (Api.Api g (localdb n) t d k)
  new_server config = new_handler g (localdb n) t d k (use_nuts_db n config)

  -- main.go: the server on a local directory, with segments of one MB.
  unfoldable pub main : Result (Api.Api g (localdb n) t d k)
  main = new_server (record { dir = codes "D:/temp/nutsdb"; segment_size = 1024 * 1024 })
