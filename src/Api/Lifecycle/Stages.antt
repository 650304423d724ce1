-- ===== src/Api/Lifecycle/Stages.antt =====
-- The stages of a start of the parser.
use mysql_to_mssql.Base.{◌≡◌, ◌⊎◌, inl, inr, true, panic, ◌>>=◌, arith}
use mysql_to_mssql.Base.Calls.{Result-cases}
use mysql_to_mssql.Reflect.{Foreign}
use mysql_to_mssql.Db.Interface.{Interface}
use mysql_to_mssql.Parser.Wrapper.{new_event_wrapper}
use mysql_to_mssql.Syncer.Gob.{Gob}
use mysql_to_mssql.Syncer.Store.{new_store}
use mysql_to_mssql.Syncer.Target.{Target}
use mysql_to_mssql.Server.Param.{StartParserRequest}
use mysql_to_mssql.Api.Models.{Dynamic}
use mysql_to_mssql.Api
use mysql_to_mssql.Api.{Packages, create_parser_config}
use mysql_to_mssql.Api.Lifecycle.{open_wrapper, start_parser}

module _ {f : Foreign} (g : Gob f) (i : Interface g.Wire) (t : Target f) (d : Dynamic)
    (k : Packages g.Wire) where
  -- With a log store, StartParser goes on to the wrapper.
  pub start_parser-cases :
      (p : StartParserRequest) (a : Api.Api g i t d k)
      → (start_parser g i t d k p a
          ≡ open_wrapper g i t d k
              (create_parser_config k p >>= λ cfg. new_event_wrapper k.canals cfg)
              (record a { log_store = true }))
        ⊎ (start_parser g i t d k p a ≡ (panic, a))
  unfolding start_parser
  start_parser-cases p a = elim (Result-cases (new_store g i a.db_interface a.data_models)) [
    | inl (s, e) ↦ inl (ground arith)
    | inr (inl (e', e)) ↦ inr (ground arith)
    | inr (inr e) ↦ inr (ground arith)
  ]
