-- ===== src/Server/Handler/Starts.antt =====
-- What a client sees of the requests that start the parser and the syncer.
use mysql_to_mssql.Base.{
  ◌++◌, true, ◌⊎◌, ◌>>=◌, codes, inl, inr, Call, ◌≡◌, ◌≢◌, refl, Bytes, Result, ok, err, panic,
  arith,
}
use mysql_to_mssql.Reflect.{Foreign}
use mysql_to_mssql.Db.Interface.{Interface}
use mysql_to_mssql.Base.Calls.{Result-cases}
use mysql_to_mssql.Api.Lifecycle.Stages.{start_parser-cases}
use mysql_to_mssql.Syncer.Gob.{Gob}
use mysql_to_mssql.Syncer.Target.{Target}
use mysql_to_mssql.Parser.Wrapper.{Config, EventHandlerWrapper, new_event_wrapper}
use mysql_to_mssql.Api.Lifecycle.{
  open_wrapper, start_parser, schedule_syncer, create_syncer, start_syncer,
}
use mysql_to_mssql.Syncer.Writer.{new_syncer, build_conn}
use mysql_to_mssql.Server.Param.{TlsParam, StartParserRequest, StartSyncerRequest}
use mysql_to_mssql.Api.Models.{Dynamic}
use mysql_to_mssql.Api
use mysql_to_mssql.Api.{
  Running, create_tls_config, create_parser_config, Packages, bytes_of, put_bytes, store_to_db, put,
  get,
}
use mysql_to_mssql.Server.Handler.{
  Bound, Response, recovered, accepted, text, Handled, http_error, checked, recover,
  handle_start_parser, handle_start_syncer,
}

-- A call with no error result.
NoError : {A : Type 0} → Result A → Type 0
NoError r = (e : Bytes) → r ≢ err e

ok-NoError : {A : Type 0} (a : A) → NoError (ok a)
unfolding NoError
ok-NoError a e q = cc

>>=-NoError :
    {A B : Type 0} (m : Result A) (k : A → Result B)
    → NoError m
    → ((a : A) → NoError (k a))
    → NoError (m >>= k)
unfolding NoError
>>=-NoError (ok a) k h h' e q = h' a e q
>>=-NoError (err e') k h h' e q = h e' refl
>>=-NoError panic k h h' e q = cc

module _ {f : Foreign} (g : Gob f) (i : Interface g.Wire) (t : Target f) (d : Dynamic)
    (k : Packages g.Wire) where
  -- What a call of StartParser or StartSyncer comes to: an error is not among its results.
  Starts : Result (Unit {0}) × Api.Api g i t d k → Type 0
  Starts x = (e : Bytes) → x.0 ≢ err e

  panic-Starts : (a : Api.Api g i t d k) → Starts (panic, a)
  unfolding Starts
  panic-Starts a e q = cc

  open_wrapper-Starts :
      (w : Result (EventHandlerWrapper k.canals)) (a : Api.Api g i t d k)
      → NoError w
      → Starts (open_wrapper g i t d k w a)
  unfolding NoError Starts open_wrapper
  open_wrapper-Starts (ok w) a h e q = cc
  open_wrapper-Starts (err e') a h e q = h e' refl
  open_wrapper-Starts panic a h e q = cc

  create_tls_config-NoError : (p : TlsParam) → NoError (create_tls_config k p)
  unfolding NoError create_tls_config
  create_tls_config-NoError p e q = ground arith

  create_parser_config-NoError : (p : StartParserRequest) → NoError (create_parser_config k p)
  unfolding create_parser_config
  create_parser_config-NoError p =
      >>=-NoError (create_tls_config k p.tls_config) _ (create_tls_config-NoError p.tls_config)
        (λ c. ok-NoError _)

  new_event_wrapper-NoError : (cfg : Config k.Tls) → NoError (new_event_wrapper k.canals cfg)
  unfolding NoError new_event_wrapper
  new_event_wrapper-NoError cfg e q = ground arith

  start_parser-Starts :
      (p : StartParserRequest) (a : Api.Api g i t d k) → Starts (start_parser g i t d k p a)
  start_parser-Starts p a = elim (start_parser-cases g i t d k p a) [
    | inl e ↦ rw e (
        open_wrapper-Starts _ (record a { log_store = true })
          (>>=-NoError (create_parser_config k p) _ (create_parser_config-NoError p)
            new_event_wrapper-NoError))
    | inr e ↦ rw e (panic-Starts a)
  ]

  schedule_syncer-Starts :
      (r : Result (Running g i t d k)) (a : Api.Api g i t d k)
      → NoError r
      → Starts (schedule_syncer g i t d k r a)
  unfolding NoError Starts schedule_syncer
  schedule_syncer-Starts (ok r) a h e q = ground arith
  schedule_syncer-Starts (err e') a h e q = h e' refl
  schedule_syncer-Starts panic a h e q = cc

  create_syncer-NoError :
      (p : StartSyncerRequest) (a : Api.Api g i t d k) → NoError (create_syncer g i t d k p a)
  unfolding NoError create_syncer new_syncer build_conn
  create_syncer-NoError p a e q = ground arith

  start_syncer-Starts :
      (p : StartSyncerRequest) (a : Api.Api g i t d k) → Starts (start_syncer g i t d k p a)
  unfolding start_syncer
  start_syncer-Starts p a =
      schedule_syncer-Starts (create_syncer g i t d k p a) a (create_syncer-NoError p a)

  -- The answers to a request to start: after a panic, with status 202, or a refusal, which changes
  -- nothing.
  abbrev pub Answered : Api.Api g i t d k → Result (Response f) × Api.Api g i t d k → Type 0
  Answered a x =
      (x.0 ≡ ok recovered)
      ⊎ ((x.0 ≡ ok (text 202 (codes "OK"))) ⊎ ((e : Bytes) × (x ≡ (ok (http_error 400 e), a))))

  accepted-Answered :
      (a : Api.Api g i t d k) (x : Result (Unit {0}) × Api.Api g i t d k)
      → Starts x
      → Answered a (recover g i t d k (accepted g i t d k x.0, x.1))
  unfolding Starts accepted recover
  accepted-Answered a (ok _, a') h = inr (inl refl)
  accepted-Answered a (err e, a') h = absurd (h e refl)
  accepted-Answered a (panic, a') h = inl refl

  -- A request is handed on, refused or ends in a panic.
  checked-cases :
      {P : Type 0} (q : Bound P) (s₁ s₂ body : Bytes) (start : P → Handled g i t d k)
      (a : Api.Api g i t d k)
      → ((p : P) × (checked g i t d k q s₁ s₂ body start a ≡ start p a))
        ⊎ (((e : Bytes) × (checked g i t d k q s₁ s₂ body start a ≡ (ok (http_error 400 e), a)))
            ⊎ (checked g i t d k q s₁ s₂ body start a ≡ (panic, a)))
  unfolding checked
  checked-cases q s₁ s₂ body start a = elim (Result-cases (q.bind body)) [
    | inl (p, e) ↦ elim (Result-cases (q.validate p)) [
      | inl (_, v) ↦ inl (p, ground arith)
      | inr (inl (e', v)) ↦ inr (inl (s₂ ++ e', ground arith))
      | inr (inr v) ↦ inr (inr (ground arith))
    ]
    | inr (inl (e', e)) ↦ inr (inl (s₁ ++ e', ground arith))
    | inr (inr e) ↦ inr (inr (ground arith))
  ]

  recover-Answered :
      {P : Type 0} (q : Bound P) (s₁ s₂ body : Bytes) (start : P → Call (Api.Api g i t d k) Unit)
      (a : Api.Api g i t d k)
      → ((p : P) → Starts (start p a))
      → Answered a (
          recover g i t d k (
            checked g i t d k q s₁ s₂ body
              (λ p a. let (r, a') = start p a in (accepted g i t d k r, a'))
              a))
  unfolding recover
  recover-Answered q s₁ s₂ body start a h =
      elim (checked-cases q s₁ s₂ body
        (λ p a. let (r, a') = start p a in (accepted g i t d k r, a')) a) [
          | inl (p, e) ↦ rw e (accepted-Answered a (start p a) (h p))
          | inr (inl (e', e)) ↦ rw e (inr (inr (e', refl)))
          | inr (inr e) ↦ rw e (inl refl)
        ]

  -- The handlers that start the parser and the syncer always return: after a panic behind them,
  -- with status 202, or with status 400 and the API as it was.
  pub start-Answered :
      (parser_request : Bound StartParserRequest) (syncer_request : Bound StartSyncerRequest)
      (body : Bytes) (a : Api.Api g i t d k)
      → Answered a (handle_start_parser g i t d k parser_request body a)
        × Answered a (handle_start_syncer g i t d k syncer_request body a)
  unfolding handle_start_parser handle_start_syncer
  start-Answered parser_request syncer_request body a = (
    recover-Answered parser_request _ _ body (start_parser g i t d k) a
        (λ p. start_parser-Starts p a),
    recover-Answered syncer_request _ _ body (start_syncer g i t d k) a
        (λ p. start_syncer-Starts p a),
  )
