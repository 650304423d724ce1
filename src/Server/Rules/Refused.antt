-- ===== src/Server/Rules/Refused.antt =====
-- The requests that the rules refuse.
use mysql_to_mssql.Base.{
  ◌++◌, ◌≡◌, refl, sym, ◌∙◌, true, false, inl, inr, Bytes, codes, Result, ok, err,
}
use mysql_to_mssql.Base.Calls.{Result-cases}
use mysql_to_mssql.Reflect.{Foreign}
use mysql_to_mssql.Db.Interface.{Interface}
use mysql_to_mssql.Syncer.Gob.{Gob}
use mysql_to_mssql.Syncer.Target.{Target}
use mysql_to_mssql.Server.Param.{StartParserRequest}
use mysql_to_mssql.Server.Rules.{parser_rules, Validator, validate}
use mysql_to_mssql.Api.Models.{Dynamic}
use mysql_to_mssql.Api
use mysql_to_mssql.Api.{Packages}
use mysql_to_mssql.Server.Handler.{http_error, handle_start_parser, checked, recover}

module _ (v : Validator) where
  decimal-refused :
      (p : StartParserRequest)
      → p.use_decimal ≡ false
      → (e : Bytes) × (validate v (parser_rules p) ≡ err e)
  unfolding validate parser_rules
  decimal-refused p off = elim (Result-cases (v.check_struct (parser_rules p))) [
    | inl (_, valid) ↦
        let (_, (_, (_, (_, (_, (_, (_, (_, (on, _))))))))) =
          v.check_struct_ok (parser_rules p) valid in
        let clash : true ≡ false = sym on ∙ v.required_flag p.use_decimal ∙ off in cc
    | inr (inl refused) ↦ refused
    | inr (inr q) ↦ absurd (v.check_struct_safe (parser_rules p) q)
  ]

module _ {f : Foreign} (g : Gob f) (i : Interface g.Wire) (t : Target f) (d : Dynamic)
    (k : Packages g.Wire) (v : Validator) where
  -- A request to start the parser that says `use_decimal: false`, or does not say it, is refused
  -- with status 400 whatever else it says, and changes nothing.
  pub handle_start_parser-decimal :
      (bind : Bytes → Result StartParserRequest) (body : Bytes) (p : StartParserRequest)
      (a : Api.Api g i t d k)
      → bind body ≡ ok p
      → p.use_decimal ≡ false
      → (e : Bytes) × (handle_start_parser g i t d k
            (record { bind = bind; validate = λ p. validate v (parser_rules p) })
            body
            a
          ≡ (ok (http_error 400 e), a))
  unfolding handle_start_parser checked recover
  handle_start_parser-decimal bind body p a e off =
      let (x, refused) = decimal-refused v p off in (codes "validate: " ++ x, rw (e, refused) refl)
