-- ===== src/Server/Rules/Types.antt =====
-- The models that the rules of the requests let through.
use mysql_to_mssql.Base.{
  zero, suc, ◌==◌, ◌≡◌, ◌≢◌, refl, sym, ◌∙◌, leb, not, Bool, inl, inr, true, List, All, [], ◌∷◌,
  ◌++◌, map, some, Bytes, Result, ok, err, panic, arith, insert,
}
use mysql_to_mssql.Base.Calls.{after, Result-cases}
use mysql_to_mssql.Reflect.{Foreign, GoType, Struct}
use mysql_to_mssql.Db.Types.{MySqlType, convert}
use mysql_to_mssql.Db.Interface.{Interface}
use mysql_to_mssql.Syncer.Gob.{Gob}
use mysql_to_mssql.Syncer.Target.{Target}
use mysql_to_mssql.Server.Param.{Column, StructRequest}
use mysql_to_mssql.Server.Rules.{
  number_of, Tagged, column_rules, columns_rules, struct_rules, Validator, validate,
}
use mysql_to_mssql.Api.Models.{Dynamic, add_field, fields_of, generate_struct}
use mysql_to_mssql.Api
use mysql_to_mssql.Api.{Packages, put, put_bytes, store_to_db, bytes_of}
use mysql_to_mssql.Server.Handler.{Bound, put_struct, put_response, checked}

-- A type from 1 to 20 is one that Convert knows.
convert-listed :
    (t : MySqlType)
    → not (number_of t == 0) ≡ true
    → leb (number_of t) 20 ≡ true
    → (u : GoType) × (convert t ≡ some u)
unfolding number_of convert
convert-listed MySqlType.int h k = (_, refl)
convert-listed MySqlType.nullable_int h k = (_, refl)
convert-listed MySqlType.uint h k = (_, refl)
convert-listed MySqlType.nullable_uint h k = (_, refl)
convert-listed MySqlType.string h k = (_, refl)
convert-listed MySqlType.nullable_string h k = (_, refl)
convert-listed MySqlType.bool h k = (_, refl)
convert-listed MySqlType.nullable_bool h k = (_, refl)
convert-listed MySqlType.date_time h k = (_, refl)
convert-listed MySqlType.nullable_date_time h k = (_, refl)
convert-listed MySqlType.float h k = (_, refl)
convert-listed MySqlType.nullable_float h k = (_, refl)
convert-listed MySqlType.double h k = (_, refl)
convert-listed MySqlType.nullable_double h k = (_, refl)
convert-listed MySqlType.decimal h k = (_, refl)
convert-listed MySqlType.nullable_decimal h k = (_, refl)
convert-listed MySqlType.blob h k = (_, refl)
convert-listed MySqlType.nullable_blob h k = (_, refl)
convert-listed MySqlType.set h k = (_, refl)
convert-listed MySqlType.nullable_set h k = (_, refl)
convert-listed (MySqlType.unlisted zero) h k = cc
convert-listed (MySqlType.unlisted (suc n)) h k = absurd (ground arith)

module _ (v : Validator) where
  abbrev Hold : List Tagged → Type 0
  Hold = All (λ (r : Tagged). v.holds r.1 r.2 ≡ true)

  Hold-append : (xs ys : List Tagged) → Hold (xs ++ ys) → Hold xs × Hold ys
  Hold-append [] ys h = (tt, h)
  Hold-append (x ∷ xs) ys (h, hs) = let (h₁, h₂) = Hold-append xs ys hs in ((h, h₁), h₂)

  column_rules-listed :
      (c : Column) → Hold (column_rules c) → (u : GoType) × (convert c.column_type ≡ some u)
  unfolding column_rules
  column_rules-listed c (_, (nonzero, (_, (listed, _)))) =
      let n = number_of c.column_type in
      convert-listed c.column_type (sym (v.required_uint n) ∙ nonzero)
        (sym (v.lte_uint 20 n) ∙ listed)

  module _ {f : Foreign} (d : Dynamic) where
    fields_of-ok :
        (cs : List Column) → Hold (columns_rules cs) → (m : Struct f) × (fields_of d cs ≡ ok m)
    unfolding columns_rules fields_of add_field
    fields_of-ok [] h = ([], refl)
    fields_of-ok (c ∷ cs) h =
        let (first, later) = Hold-append (column_rules c) (columns_rules cs) h in
        let (u, e) = column_rules-listed c first in
        let (m, e') = fields_of-ok cs later in rw (e, e') (_, refl)

    generate_struct-ok :
        (given : Bool) (p : StructRequest)
        → validate v (struct_rules given p) ≡ ok tt
        → d.accepts (map (λ c. d.title c.name) p.columns) ≡ true
        → (m : Struct f) × (generate_struct d p.columns ≡ ok m)
    unfolding generate_struct struct_rules validate
    generate_struct-ok given p h named =
        let (_, (_, columns)) = v.check_struct_ok (struct_rules given p) h in
        rw named (fields_of-ok p.columns columns)

-- The binding of a body, and the rules of param.go.
abbrev pub checked_struct :
    Validator → (Bytes → Result StructRequest) → (StructRequest → Bool) → Bound StructRequest
checked_struct v bind given = record {
  bind = bind;
  validate = λ p. validate v (struct_rules (given p) p);
}

module _ {f : Foreign} (g : Gob f) (i : Interface g.Wire) (t : Target f) (d : Dynamic)
    (k : Packages g.Wire) (v : Validator) (marshals : (p : StructRequest) → k.marshal p ≢ panic)
    (puts : (table : Bytes) (w : g.Wire) (db : i.State)
      → (i.put Api.bucket table w 0 db).0 ≢ panic) where
  put_bytes-safe :
      (table : Bytes) (r : Result g.Wire) (a : Api.Api g i t d k)
      → r ≢ panic
      → (put_bytes g i t d k table r a).0 ≢ panic
  unfolding put_bytes
  put_bytes-safe table (ok w) a h e = puts table w a.db_interface e
  put_bytes-safe table (err x) a h e = cc
  put_bytes-safe table panic a h e = h refl

  bytes_of-safe : (r : Result g.Wire) → r ≢ panic → bytes_of g i t d k r ≢ panic
  unfolding bytes_of
  bytes_of-safe (ok w) h e = cc
  bytes_of-safe (err x) h e = cc
  bytes_of-safe panic h e = h refl

  answer-safe :
      (x : Result (Unit {0}) × Api.Api g i t d k) (m : Struct f)
      → x.0 ≢ panic
      → put_response g i t d k (after x (λ _ a. (ok m, a))).0 ≢ panic
  unfolding put_response
  answer-safe (ok _, a) m h e = cc
  answer-safe (err x, a) m h e = cc
  answer-safe (panic, a) m h e = h refl

  put-safe :
      (p : StructRequest) (m : Struct f) (a : Api.Api g i t d k)
      → generate_struct d p.columns ≡ ok m
      → put_response g i t d k (put g i t d k p a).0 ≢ panic
  unfolding put store_to_db
  put-safe p m a made =
      let a' : Api.Api g i t d k = record a { data_models = insert p.table m a.data_models } in
      let r = bytes_of g i t d k (k.marshal p) in
      rw made (
        answer-safe (put_bytes g i t d k p.table r a') m
          (put_bytes-safe p.table r a' (bytes_of-safe (k.marshal p) (marshals p))))

  -- Where encoding a request and saving it do not panic, nor does the binding of the body, and the
  -- names of the columns are ones from which a struct type can be made: a request to put a
  -- struct never panics, since the rules of the request refuse every type that has no Go type.
  pub put_struct-safe :
      (bind : Bytes → Result StructRequest) (given : StructRequest → Bool) (body : Bytes)
      (a : Api.Api g i t d k)
      → bind body ≢ panic
      → ((p : StructRequest)
          → bind body ≡ ok p
          → d.accepts (map (λ c. d.title c.name) p.columns) ≡ true)
      → (put_struct g i t d k (checked_struct v bind given) body a).0 ≢ panic
  unfolding put_struct checked
  put_struct-safe bind given body a binds named = elim (Result-cases (bind body)) [
    | inl (p, e) ↦ elim (Result-cases (validate v (struct_rules (given p) p))) [
      | inl (u, valid) ↦
          let (m, made) = generate_struct-ok v d (given p) p valid (named p e) in
          rw (e, valid) (put-safe p m a made)
      | inr (inl (x, refused)) ↦ rw (e, refused) (λ h. cc)
      | inr (inr q) ↦ absurd (v.check_struct_safe (struct_rules (given p) p) (unfold validate in q))
    ]
    | inr (inl (x, e)) ↦ rw e (λ h. cc)
    | inr (inr e) ↦ absurd (binds e)
  ]
