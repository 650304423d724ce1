-- ===== src/Api/Models/Tags.antt =====
-- The tags that the API writes, as the parser and the syncer read them.
use mysql_to_mssql.Base.{
  ◌≡◌, ◌≢◌, refl, sym, ap, ◌∙◌, Bool, false, ◌||◌, if◌then◌else◌, Bool-cases, inl, inr, List, [],
  ◌∷◌, ◌++◌, map, append-nil, Option, none, some, Bytes, codes, eqb, All, All-append, Result, ok,
  panic, ◌>>=◌, >>=-eq-ok, ok-injective,
}
use mathlib.Core.Path.{subst}
use mysql_to_mssql.Reflect.{Foreign, GoType, Field, Struct}
use mysql_to_mssql.Db.Types.{convert}
use mysql_to_mssql.Server.Param.{Column}
use mysql_to_mssql.Api.Models.{Literal, Dynamic, tag_text, add_field, fields_of, generate_struct}
use mysql_to_mssql.Syncer.Columns
use mysql_to_mssql.Syncer.Columns.{columns_of, add_column, kept, is_primary_tag}
use mysql_to_mssql.Parser.Tags
use mysql_to_mssql.Parser.Tags.Delimiters.{IsPlain}
use mysql_to_mssql.Parser.Tags.Agreement.{parse_tag_setting-rest, parse_tag_setting-name}

-- A column's name that holds no delimiter of a tag and no byte that is quoted, and is not one of
-- the two names that the syncer skips.
pub record WellNamed (c : Column) : Type 0 where
  pub plain : IsPlain c.name
  pub literal : All Literal c.name
  pub named : (eqb c.name (codes "column") || eqb c.name []) ≡ false

-- The part of a tag behind the name.
abbrev pub options_of : Column → Bytes
options_of c = if c.is_primary then codes "primaryKey" else []

-- The value of the tag's key `gorm`.
abbrev tag_of : Column → Bytes
tag_of c = codes "column:" ++ (c.name ++ (if c.is_primary then codes ";primaryKey" else []))

pub both : (false ≡ false) × (false ≡ false)
both = (refl, refl)

pub column-IsPlain : IsPlain (codes "column")
column-IsPlain = (both, (both, (both, (both, (both, (both, tt))))))

pub primary-IsPlain : IsPlain (codes "primaryKey")
primary-IsPlain = (both, (both, (both, (both, (both, (both, (both, (both, (both, (both, tt))))))))))

-- Both readers on such a tag.
tag_of-read :
    (c : Column)
    → IsPlain c.name
    → (Tags.parse_tag_setting (tag_of c) ≡ ok (c.name, options_of c))
      × (Columns.parse_tag_setting (tag_of c)
          ≡ codes "column" ∷ c.name ∷ (if c.is_primary then codes "primaryKey" ∷ [] else []))
tag_of-read c h = elim (Bool-cases c.is_primary) [
  | inl e ↦ rw e (
      parse_tag_setting-rest b'c' (codes "olumn") c.name (codes "primaryKey") column-IsPlain h
        primary-IsPlain)
  | inr e ↦ rw (e, append-nil) (parse_tag_setting-name b'c' (codes "olumn") c.name column-IsPlain h)
]

literals : All Literal (codes "column:")
literals = (both, (both, (both, (both, (both, (both, (both, tt)))))))

options-Literal : (c : Column) → All Literal (if c.is_primary then codes ";primaryKey" else [])
options-Literal c = elim (Bool-cases c.is_primary) [
  | inl e ↦
      rw e
        (both, (both, (both, (both, (both, (both, (both, (both, (both, (both, (both, tt)))))))))))
  | inr e ↦ rw e tt
]

panic_ne_ok : {f : Foreign} {m : Struct f} → ◌≢◌ {A = Result (Struct f)} panic (ok m)
panic_ne_ok h = cc

-- What a model is asked to have: names, and which of them are primary.
abbrev pub asked : List Column → List (Bytes × Bool)
asked = map (λ c. (c.name, c.is_primary))

abbrev pub has : List Columns.Column → List (Bytes × Bool)
has = map (λ c. (c.name, c.is_primary_key))

module _ (d : Dynamic) where
  get_gorm-tag_text : (c : Column) → All Literal c.name → d.get_gorm (tag_text c) ≡ tag_of c
  unfolding tag_text
  get_gorm-tag_text c h = d.get_gorm_lem (tag_of c) (
      All-append Literal (codes "column:") _ literals
        (All-append Literal c.name _ h (options-Literal c)))

  -- A field with such a tag is kept, as the column that was asked for.
  kept-column :
      (c : Column)
      → WellNamed c
      → kept (Columns.parse_tag_setting (d.get_gorm (tag_text c))) false
        ≡ some (c.name, c.is_primary)
  unfolding kept is_primary_tag eqb
  kept-column c w = elim (Bool-cases c.is_primary) [
    | inl e ↦ rw (get_gorm-tag_text c w.literal, (tag_of-read c w.plain).1, w.named, e) refl
    | inr e ↦ rw (get_gorm-tag_text c w.literal, (tag_of-read c w.plain).1, w.named, e) refl
  ]

  module _ {f : Foreign} where
    -- A field as both readers see it, and its type.
    pub record IsAsked (c : Column) (field : Field f) : Type 0 where
      pub tag : field.tag ≡ d.get_gorm (tag_text c)
      pub field_type : convert c.column_type ≡ some field.field_type

    add_field-IsAsked :
        (c : Column) (o : Option GoType) (field : Field f)
        → convert c.column_type ≡ o
        → add_field d c o ≡ ok field
        → IsAsked c field
    unfolding add_field
    add_field-IsAsked c none field q e = cc
    add_field-IsAsked c (some t) field q e = record {
      tag = sym (ap (λ (x : Field f). x.tag) (ok-injective e));
      field_type = q ∙ ap (λ (x : Field f). some x.field_type) (ok-injective e);
    }

    -- The fields are those that were asked for, in order.
    abbrev Asked : List Column → Struct f → Type 0
    Asked [] [] = Unit
    Asked [] (_ ∷ _) = ⊥
    Asked (_ ∷ _) [] = ⊥
    Asked (c ∷ cs) (field ∷ fields) = IsAsked c field × Asked cs fields

    fields_of-Asked :
        (cs : List Column) (fields : Struct f) → fields_of d cs ≡ ok fields → Asked cs fields
    unfolding fields_of
    fields_of-Asked [] fields e = subst (Asked []) (ok-injective e) tt
    fields_of-Asked (c ∷ cs) fields e =
        let (field, h₁, h₂) =
          >>=-eq-ok (add_field d c (convert c.column_type))
            (λ field. fields_of d cs >>= λ fields'. ok (field ∷ fields')) e in
        let (rest, h₃, h₄) = >>=-eq-ok (fields_of d cs) (λ fields'. ok (field ∷ fields')) h₂ in
        subst (Asked (c ∷ cs)) (ok-injective h₄)
          (add_field-IsAsked c (convert c.column_type) field refl h₁, fields_of-Asked cs rest h₃)

    has-asked :
        (cs : List Column) (fields : Struct f)
        → All WellNamed cs
        → Asked cs fields
        → has (columns_of fields false).0 ≡ asked cs
    unfolding columns_of add_column
    has-asked [] [] w h = refl
    has-asked [] (_ ∷ _) w h = absurd h
    has-asked (_ ∷ _) [] w h = absurd h
    has-asked (c ∷ cs) (field ∷ fields) w h =
        rw (h.0.tag, kept-column c w.0)
          (ap (λ (l : List (Bytes × Bool)). (c.name, c.is_primary) ∷ l)
            (has-asked cs fields w.1 h.1))

    parsed-Asked :
        (cs : List Column) (fields : Struct f)
        → All WellNamed cs
        → Asked cs fields
        → map (λ field. Tags.parse_tag_setting field.tag) fields
          ≡ map (λ c. ok (c.name, options_of c)) cs
    parsed-Asked [] [] w h = refl
    parsed-Asked [] (_ ∷ _) w h = absurd h
    parsed-Asked (_ ∷ _) [] w h = absurd h
    parsed-Asked (c ∷ cs) (field ∷ fields) w h =
        rw (h.0.tag, get_gorm-tag_text c w.0.literal, (tag_of-read c w.0.plain).0)
          (ap (λ (l : List (Result (Bytes × Bytes))). ok (c.name, options_of c) ∷ l)
            (parsed-Asked cs fields w.1 h.1))

    types-Asked :
        (cs : List Column) (fields : Struct f)
        → Asked cs fields
        → map (λ field. some field.field_type) fields ≡ map (λ c. convert c.column_type) cs
    types-Asked [] [] h = refl
    types-Asked [] (_ ∷ _) h = absurd h
    types-Asked (_ ∷ _) [] h = absurd h
    types-Asked (c ∷ cs) (field ∷ fields) h =
        rw (sym h.0.field_type)
          (ap (λ (l : List (Option GoType)). convert c.column_type ∷ l) (types-Asked cs fields h.1))

    -- A model that is generated for columns with well-formed names has the types that were asked
    -- for; the syncer finds in it these columns, in order, with the primary ones marked; and the
    -- parser finds their names.
    pub generate_struct-read :
        (cols : List Column) (m : Struct f)
        → All WellNamed cols
        → generate_struct d cols ≡ ok m
        → (has (columns_of m false).0 ≡ asked cols)
          × (map (λ field. Tags.parse_tag_setting field.tag) m
              ≡ map (λ c. ok (c.name, options_of c)) cols)
          × (map (λ field. some field.field_type) m ≡ map (λ c. convert c.column_type) cols)
    unfolding generate_struct
    generate_struct-read cols m w e =
        elim (Bool-cases (d.accepts (map (λ c. d.title c.name) cols))) [
          | inl p ↦
              (let h = fields_of-Asked cols m (rw p at e) in
                (has-asked cols m w h, parsed-Asked cols m w h, types-Asked cols m h))
          | inr p ↦ absurd (panic_ne_ok (rw p at e))
        ]
