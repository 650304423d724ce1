-- ===== src/Parser/Rows/Values.antt =====
-- The values that are read into a field are of the field's type.
pub mod Structs
use mysql_to_mssql.Base.{
  ℕ, ◌≡◌, refl, ◌==◌, Bool, true, false, [], ◌∷◌, All, Option, none, some, Bytes, Result, ok, err,
  panic, ◌>>=◌, eqb,
}
use mysql_to_mssql.Reflect.{Foreign, GoType, type_name, type_string, Value, Field, Struct}
use mysql_to_mssql.Parser.Tags.{parse_tag_setting}
use mysql_to_mssql.Parser.Cells.{
  RowsEvent, get_int, get_uint, get_float32, get_float64, get_decimal, get_bool, get_byte,
  get_string, get_time, column_id,
}
use mysql_to_mssql.Parser.Sets.{get_set}
use mysql_to_mssql.Parser.Fields.{
  Processed, set_if, set_pointer, set_uint_pointer, process_non_nil, process_nillable,
}
use mysql_to_mssql.Parser.Rows.{
  Loop, process_json, or_else, process_field, keep_field, set_field, loop_round, set_fields,
  returned, get_bin_log_data,
}

abbrev code : GoType → ℕ
code GoType.int = 1
code GoType.uint = 2
code GoType.string = 3
code GoType.bool = 4
code GoType.time = 5
code GoType.float32 = 6
code GoType.float64 = 7
code GoType.decimal = 8
code GoType.blob = 9
code GoType.set = 10
code (GoType.ptr t) = 0
code (GoType.other name text) = 0

-- A type, or what it points to, is the one with this code; the model does not open other types.
abbrev holds : ℕ → GoType → Bool
holds n (GoType.ptr t) = holds n t
holds n (GoType.other name text) = true
holds n t = n == code t

abbrev may_be_nil : GoType → Bool
may_be_nil (GoType.ptr t) = true
may_be_nil (GoType.other name text) = true
may_be_nil t = false

-- A value is one of the type; an object was unmarshalled into a new value of the type.
abbrev pub fits : {f : Foreign} → Value f → GoType → Bool
fits (Value.object x) t = true
fits Value.nil t = may_be_nil t
fits (Value.int x) t = holds 1 t
fits (Value.uint x) t = holds 2 t
fits (Value.string x) t = holds 3 t
fits (Value.bool x) t = holds 4 t
fits (Value.time x) t = holds 5 t
fits (Value.float32 x) t = holds 6 t
fits (Value.float64 x) t = holds 7 t
fits (Value.decimal x) t = holds 8 t
fits (Value.blob x) t = holds 9 t
fits (Value.set x) t = holds 10 t

-- What holds of a result, if there is one.
abbrev pub OnOk : {A : Type 0} → (A → Type 0) → Result A → Type 0
OnOk P (ok a) = P a
OnOk P (err e) = Unit
OnOk P panic = Unit

pub OnOk-bind :
    {A B : Type 0} (P : A → Type 0) (Q : B → Type 0) (m : Result A) (k : A → Result B)
    → OnOk P m
    → ((a : A) → P a → OnOk Q (k a))
    → OnOk Q (m >>= k)
OnOk-bind P Q (ok a) k h next = next a h
OnOk-bind P Q (err e) k h next = tt
OnOk-bind P Q panic k h next = tt

pub OnOk-any :
    {A B : Type 0} (Q : B → Type 0) (m : Result A) (k : A → Result B)
    → ((a : A) → OnOk Q (k a))
    → OnOk Q (m >>= k)
OnOk-any Q (ok a) k next = next a
OnOk-any Q (err e) k next = tt
OnOk-any Q panic k next = tt

module _ {f : Foreign} where
  abbrev pub FitsIf : GoType → Option (Value f) → Type 0
  FitsIf t none = Unit
  FitsIf t (some v) = fits v t ≡ true

  set_if-FitsIf :
      {A : Type 0} (t : GoType) (old : Value f) (make : A → Value f) (r : Result (Option A))
      → fits old t ≡ true
      → ((a : A) → fits (make a) t ≡ true)
      → OnOk (FitsIf t) (r >>= set_if old make)
  unfolding set_if
  set_if-FitsIf t old make (ok none) h made = h
  set_if-FitsIf t old make (ok (some a)) h made = made a
  set_if-FitsIf t old make (err e) h made = tt
  set_if-FitsIf t old make panic h made = tt

  set_pointer-FitsIf :
      {A : Type 0} (t : GoType) (make : A → Value f) (r : Result (Option A))
      → ((a : A) → fits (make a) (GoType.ptr t) ≡ true)
      → OnOk (FitsIf (GoType.ptr t)) (r >>= set_pointer make)
  unfolding set_pointer
  set_pointer-FitsIf t make (ok none) made = refl
  set_pointer-FitsIf t make (ok (some a)) made = made a
  set_pointer-FitsIf t make (err e) made = tt
  set_pointer-FitsIf t make panic made = tt

  set_uint_pointer-FitsIf :
      (t : GoType) (old : Value f) (r : Result (Option ℕ))
      → fits old t ≡ true
      → OnOk (FitsIf t) (r >>= set_uint_pointer old)
  unfolding set_uint_pointer
  set_uint_pointer-FitsIf t old (ok none) h = h
  set_uint_pointer-FitsIf t old (ok (some n)) h = tt
  set_uint_pointer-FitsIf t old (err e) h = tt
  set_uint_pointer-FitsIf t old panic h = tt

  -- Where every value fits, a result does.
  all-FitsIf :
      (t : GoType) (r : Processed f) → ((v : Value f) → fits v t ≡ true) → OnOk (FitsIf t) r
  all-FitsIf t (ok none) h = tt
  all-FitsIf t (ok (some v)) h = h v
  all-FitsIf t (err e) h = tt
  all-FitsIf t panic h = tt

  fits-other : (name text : Bytes) (v : Value f) → fits v (GoType.other name text) ≡ true
  fits-other name text Value.nil = refl
  fits-other name text _ = refl

  fits-pointer_other :
      (name text : Bytes) (v : Value f) → fits v (GoType.ptr (GoType.other name text)) ≡ true
  fits-pointer_other name text Value.nil = refl
  fits-pointer_other name text _ = refl

  module _ (e : RowsEvent f) (row id : ℕ) where
    process_nillable-FitsIf :
        (t : GoType) (old : Value f)
        → fits old t ≡ true
        → OnOk (FitsIf t) (process_nillable t old e row id)
    unfolding process_nillable eqb type_string
    process_nillable-FitsIf (GoType.ptr GoType.bool) old h =
        set_pointer-FitsIf GoType.bool Value.bool (get_bool e row id) (λ a. refl)
    process_nillable-FitsIf (GoType.ptr GoType.int) old h =
        set_if-FitsIf (GoType.ptr GoType.int) old Value.int (get_int e row id) h (λ a. refl)
    process_nillable-FitsIf (GoType.ptr GoType.uint) old h =
        set_uint_pointer-FitsIf (GoType.ptr GoType.uint) old (get_uint e row id) h
    process_nillable-FitsIf (GoType.ptr GoType.string) old h =
        set_pointer-FitsIf GoType.string Value.string (get_string e row id) (λ a. refl)
    process_nillable-FitsIf (GoType.ptr GoType.time) old h =
        set_pointer-FitsIf GoType.time Value.time (get_time e row id) (λ a. refl)
    process_nillable-FitsIf (GoType.ptr GoType.float32) old h =
        set_pointer-FitsIf GoType.float32 Value.float32 (get_float32 e row id) (λ a. refl)
    process_nillable-FitsIf (GoType.ptr GoType.float64) old h =
        set_pointer-FitsIf GoType.float64 Value.float64 (get_float64 e row id) (λ a. refl)
    process_nillable-FitsIf (GoType.ptr GoType.set) old h =
        set_pointer-FitsIf GoType.set Value.set (get_set e row id) (λ a. refl)
    process_nillable-FitsIf (GoType.ptr GoType.blob) old h =
        set_pointer-FitsIf GoType.blob Value.blob (get_byte e row id) (λ a. refl)
    process_nillable-FitsIf (GoType.ptr GoType.decimal) old h =
        set_pointer-FitsIf GoType.decimal Value.decimal (get_decimal e row id) (λ a. refl)
    process_nillable-FitsIf (GoType.ptr (GoType.other name text)) old h =
        all-FitsIf (GoType.ptr (GoType.other name text))
          (process_nillable (GoType.ptr (GoType.other name text)) old e row id)
          (fits-pointer_other name text)
    process_nillable-FitsIf (GoType.other name text) old h =
        all-FitsIf (GoType.other name text) (process_nillable (GoType.other name text) old e row id)
          (fits-other name text)
    process_nillable-FitsIf _ old h = tt

    process_non_nil-FitsIf :
        (t : GoType) (old : Value f)
        → fits old t ≡ true
        → OnOk (FitsIf t) (process_non_nil t old e row id)
    unfolding process_non_nil eqb type_name type_string
    process_non_nil-FitsIf GoType.bool old h =
        set_if-FitsIf GoType.bool old Value.bool (get_bool e row id) h (λ a. refl)
    process_non_nil-FitsIf GoType.int old h =
        set_if-FitsIf GoType.int old Value.int (get_int e row id) h (λ a. refl)
    process_non_nil-FitsIf GoType.uint old h =
        set_if-FitsIf GoType.uint old Value.uint (get_uint e row id) h (λ a. refl)
    process_non_nil-FitsIf GoType.string old h =
        set_if-FitsIf GoType.string old Value.string (get_string e row id) h (λ a. refl)
    process_non_nil-FitsIf GoType.time old h =
        set_if-FitsIf GoType.time old Value.time (get_time e row id) h (λ a. refl)
    process_non_nil-FitsIf GoType.float32 old h =
        set_if-FitsIf GoType.float32 old Value.float32 (get_float32 e row id) h (λ a. refl)
    process_non_nil-FitsIf GoType.float64 old h =
        set_if-FitsIf GoType.float64 old Value.float64 (get_float64 e row id) h (λ a. refl)
    process_non_nil-FitsIf GoType.set old h =
        set_if-FitsIf GoType.set old Value.set (get_set e row id) h (λ a. refl)
    process_non_nil-FitsIf GoType.blob old h =
        set_if-FitsIf GoType.blob old Value.blob (get_byte e row id) h (λ a. refl)
    process_non_nil-FitsIf GoType.decimal old h =
        set_if-FitsIf GoType.decimal old Value.decimal (get_decimal e row id) h (λ a. refl)
    process_non_nil-FitsIf (GoType.ptr (GoType.other name text)) old h =
        all-FitsIf (GoType.ptr (GoType.other name text))
          (process_non_nil (GoType.ptr (GoType.other name text)) old e row id)
          (fits-pointer_other name text)
    process_non_nil-FitsIf (GoType.other name text) old h =
        all-FitsIf (GoType.other name text) (process_non_nil (GoType.other name text) old e row id)
          (fits-other name text)
    process_non_nil-FitsIf _ old h = tt

    process_json-FitsIf :
        (json : Bytes) (field : Field f)
        → fits field.value field.field_type ≡ true
        → OnOk (FitsIf field.field_type) (process_json json field e row id)
    unfolding process_json
    process_json-FitsIf [] field h = tt
    process_json-FitsIf (_ ∷ _) field h =
        set_if-FitsIf field.field_type field.value _ (get_string e row id) h (λ a. refl)

    or_else-FitsIf :
        (t : GoType) (x next : Processed f)
        → OnOk (FitsIf t) x
        → OnOk (FitsIf t) next
        → OnOk (FitsIf t) (x >>= or_else next)
    unfolding or_else
    or_else-FitsIf t (ok none) next h k = k
    or_else-FitsIf t (ok (some v)) next h k = h
    or_else-FitsIf t (err x) next h k = tt
    or_else-FitsIf t panic next h k = tt

    pub process_field-FitsIf :
        (json : Bytes) (field : Field f)
        → fits field.value field.field_type ≡ true
        → OnOk (FitsIf field.field_type) (process_field json field e row id)
    unfolding process_field
    process_field-FitsIf json field h =
        or_else-FitsIf field.field_type _ _ (process_nillable-FitsIf field.field_type field.value h)
          (or_else-FitsIf field.field_type _ _
            (process_non_nil-FitsIf field.field_type field.value h)
            (process_json-FitsIf json field h))
