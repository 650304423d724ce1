-- ===== src/Syncer/Store/Lost.antt =====
-- What the log loses of a change.
use mysql_to_mssql.Base.{◌≡◌, refl, ap, ◌∙◌, true, List, [], ◌∷◌, ◌++◌, Bytes, ok}
use mysql_to_mssql.Reflect.{Foreign, GoType, Value, Field, Struct}
use mysql_to_mssql.Syncer.Gob.{Gob, image, layout, is_zero, received_value, received_field}
use mysql_to_mssql.Syncer.Store.{encode_bytes, decode_bytes}
use mysql_to_mssql.Syncer.Store.RoundTrip.{inserted, record_of, decode_bytes-encode_bytes}

module _ {f : Foreign} (g : Gob f) where
  zero_pointer-lost :
      (t : GoType) (v : Value f)
      → is_zero v ≡ true
      → received_value (g.foreign_value) (GoType.ptr t) v ≡ Value.nil
  zero_pointer-lost t (Value.int n) h = rw h refl
  zero_pointer-lost t (Value.uint n) h = rw h refl
  zero_pointer-lost t (Value.string s) h = rw h refl
  zero_pointer-lost t (Value.bool b) h = rw h refl
  zero_pointer-lost t (Value.blob s) h = rw h refl
  zero_pointer-lost t (Value.set l) h = rw h refl
  zero_pointer-lost t Value.nil h = cc
  zero_pointer-lost t (Value.time x) h = cc
  zero_pointer-lost t (Value.float32 x) h = cc
  zero_pointer-lost t (Value.float64 x) h = cc
  zero_pointer-lost t (Value.decimal x) h = cc
  zero_pointer-lost t (Value.object x) h = cc

  -- A field of a pointer type.
  abbrev pub pointer : Bytes → GoType → Value f → Field f
  pointer tag t v = record { tag = tag; field_type = GoType.ptr t; value = v }

  image-lost :
      (before : Struct f) (tag : Bytes) (t : GoType) (v : Value f) (behind : Struct f)
      → is_zero v ≡ true
      → image g (before ++ (pointer tag t v ∷ behind))
        ≡ image g (before ++ (pointer tag t Value.nil ∷ behind))
  image-lost [] tag t v behind h =
      ap (λ (u : Value f). pointer tag t u ∷ image g behind) (zero_pointer-lost t v h)
  image-lost (field ∷ before) tag t v behind h =
      ap (λ (m : Struct f). received_field (g.foreign_value) field ∷ m)
        (image-lost before tag t v behind h)

  layout-lost :
      (before : Struct f) (tag : Bytes) (t : GoType) (v w : Value f) (behind : Struct f)
      → layout (before ++ (pointer tag t v ∷ behind))
        ≡ layout (before ++ (pointer tag t w ∷ behind))
  layout-lost [] tag t v w behind = refl
  layout-lost (field ∷ before) tag t v w behind =
      ap (λ (l : List (Bytes × GoType)). (field.tag, field.field_type) ∷ l)
        (layout-lost before tag t v w behind)

  -- The log does not tell a NULL from a zero value in a field of a pointer type: where two rows
  -- differ only in that such a field points to 0, to false or to an empty text, blob or set in one
  -- and is nil in the other, and both inserts were encoded, they are decoded to the same record.
  pub decode_bytes-lost :
      (p before behind : Struct f) (tag : Bytes) (t : GoType) (v : Value f) (w w' : g.Wire)
      → is_zero v ≡ true
      → layout p ≡ layout (before ++ (pointer tag t v ∷ behind))
      → encode_bytes g (record_of (inserted (before ++ (pointer tag t v ∷ behind)))) ≡ ok w
      → encode_bytes g (record_of (inserted (before ++ (pointer tag t Value.nil ∷ behind)))) ≡ ok w'
      → decode_bytes g w p ≡ decode_bytes g w' p
  decode_bytes-lost p before behind tag t v w w' h e q q' =
      rw
        (
          decode_bytes-encode_bytes g p (inserted (before ++ (pointer tag t v ∷ behind))) w e q,
          decode_bytes-encode_bytes g p (inserted (before ++ (pointer tag t Value.nil ∷ behind))) w'
              (e ∙ layout-lost before tag t v Value.nil behind) q',
          image-lost before tag t v behind h,
        )
        refl
