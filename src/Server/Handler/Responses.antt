-- ===== src/Server/Handler/Responses.antt =====
-- What a client sees of the requests.
use mysql_to_mssql.Base.{
  ◌≡◌, refl, ap, ◌∙◌, false, [], some, Bytes, eqb, eqb_refl, lookup, insert, lookup-insert, Result,
  ok, err, panic, arith,
}
use mysql_to_mssql.Base.Calls.{after}
use mysql_to_mssql.Reflect.{Foreign, Struct}
use mysql_to_mssql.Db.Interface.{Interface}
use mysql_to_mssql.Syncer.Gob.{Gob}
use mysql_to_mssql.Syncer.Target.{Target}
use mysql_to_mssql.Server.Param.{StructRequest}
use mysql_to_mssql.Api.Models.{Dynamic, generate_struct}
use mysql_to_mssql.Api
use mysql_to_mssql.Api.{
  Running, create_tls_config, create_parser_config, Packages, bytes_of, put_bytes, store_to_db, put,
  get,
}
use mysql_to_mssql.Server.Handler.{Bound, model, checked, put_struct, get_struct}

module _ {f : Foreign} (g : Gob f) (i : Interface g.Wire) (t : Target f) (d : Dynamic)
    (k : Packages g.Wire) where
  put_bytes-data_models :
      (table : Bytes) (b : Result g.Wire) (a : Api.Api g i t d k)
      → (put_bytes g i t d k table b a).1.data_models ≡ a.data_models
  unfolding put_bytes
  put_bytes-data_models table (ok b) a = refl
  put_bytes-data_models table (err e) a = refl
  put_bytes-data_models table panic a = refl

  kept :
      (x : Result (Unit {0}) × Api.Api g i t d k) (m : Struct f)
      → (after x (λ _ a'. (ok m, a'))).1 ≡ x.1
  kept (ok _, a) m = refl
  kept (err e, a) m = refl
  kept (panic, a) m = refl

  get-put :
      (p : StructRequest) (m : Struct f) (a : Api.Api g i t d k)
      → generate_struct d p.columns ≡ ok m
      → lookup p.table (put g i t d k p a).1.data_models ≡ some m
  unfolding put store_to_db
  get-put p m a e =
      let a' : Api.Api g i t d k = record a { data_models = insert p.table m a.data_models } in
      rw
        (
          e,
          kept (put_bytes g i t d k p.table (bytes_of g i t d k (k.marshal p)) a') m,
          put_bytes-data_models p.table (bytes_of g i t d k (k.marshal p)) a',
          lookup-insert p.table p.table m a.data_models,
          eqb_refl p.table,
        )
        refl

  put_struct-put :
      (q : Bound StructRequest) (body : Bytes) (p : StructRequest) (a : Api.Api g i t d k)
      → q.bind body ≡ ok p
      → q.validate p ≡ ok tt
      → (put_struct g i t d k q body a).1 ≡ (put g i t d k p a).1
  unfolding put_struct checked
  put_struct-put q body p a b valid = ground arith

  get_struct-found :
      (name : Bytes) (m : Struct f) (a : Api.Api g i t d k)
      → eqb name [] ≡ false
      → lookup name a.data_models ≡ some m
      → get_struct g i t d k name a ≡ (ok (model 200 (some m)), a)
  unfolding get_struct get
  get_struct-found name m a named found = rw (named, found) refl

  -- A request for a model that is valid and names a table, and whose model can be generated: the
  -- API that it leaves answers a request for the table's model with this model, whatever the
  -- storage does and whatever the response to the first request.
  pub put_struct-get_struct :
      (q : Bound StructRequest) (body : Bytes) (p : StructRequest) (m : Struct f)
      (a : Api.Api g i t d k)
      → q.bind body ≡ ok p
      → q.validate p ≡ ok tt
      → eqb p.table [] ≡ false
      → generate_struct d p.columns ≡ ok m
      → get_struct g i t d k p.table (put_struct g i t d k q body a).1
        ≡ (ok (model 200 (some m)), (put_struct g i t d k q body a).1)
  put_struct-get_struct q body p m a b valid named e = get_struct-found p.table m _ named (
      ap (λ (x : Api.Api g i t d k). lookup p.table x.data_models)
        (put_struct-put q body p a b valid)
      ∙ get-put p m a e)
