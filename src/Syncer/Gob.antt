-- ===== src/Syncer/Gob.antt =====
-- encoding/gob, as the log store uses it: a stream of an action and of models.
use mysql_to_mssql.Base.{
  ℕ, ◌≡◌, refl, ap, ◌==◌, pos, Bool, true, false, not, ◌&&◌, if◌then◌else◌, List, [], ◌∷◌, ◌++◌,
  map, Bytes, Result, ok, Call,
}
use mysql_to_mssql.Reflect.{Foreign, GoType, Value, Field, Struct}

-- The struct type: its fields' tags and types.
abbrev pub layout : {f : Foreign} → Struct f → List (Bytes × GoType)
layout = map (λ field. (field.tag, field.field_type))

-- What one call of Encode puts on the stream.
pub data Sent (f : Foreign) : Type 0 where
  action : ℕ → Sent f
  model : Struct f → Sent f

-- The zero values of the types that the model opens.
abbrev pub is_zero : {f : Foreign} → Value f → Bool
is_zero (Value.int (pos n)) = n == 0
is_zero (Value.uint n) = n == 0
is_zero (Value.string []) = true
is_zero (Value.bool b) = not b
is_zero (Value.blob []) = true
is_zero (Value.set []) = true
is_zero _ = false

abbrev pub is_pointer : GoType → Bool
is_pointer (GoType.ptr t) = true
is_pointer _ = false

-- What gob gives back for a struct: a field with a zero value is not sent, so that a pointer to a
-- zero value comes back as nil, and all other values come back as they are. What comes back for
-- times, floats, decimals and objects is an argument.
module _ {f : Foreign} (foreign_value : GoType → Value f → Value f) where
  abbrev pub received_value : GoType → Value f → Value f
  received_value t (Value.time x) = foreign_value t (Value.time x)
  received_value t (Value.float32 x) = foreign_value t (Value.float32 x)
  received_value t (Value.float64 x) = foreign_value t (Value.float64 x)
  received_value t (Value.decimal x) = foreign_value t (Value.decimal x)
  received_value t (Value.object x) = foreign_value t (Value.object x)
  received_value t v = if is_pointer t && is_zero v then Value.nil else v

  abbrev pub received_field : Field f → Field f
  received_field field = record field { value = received_value field.field_type field.value }

  abbrev pub received : Struct f → Struct f
  received = map received_field

  pub layout-received : (m : Struct f) → layout (received m) ≡ layout m
  layout-received [] = refl
  layout-received (field ∷ fields) =
      ap (λ (l : List (Bytes × GoType)). (field.tag, field.field_type) ∷ l) (layout-received fields)

-- Encoders and decoders, and the documented behaviour of the package: what is encoded is decoded
-- in the same order, a model into a new struct of its own type, as it is `received`.
pub record Gob (f : Foreign) : Type 1 where
  -- the []byte of a buffer
  pub Wire : Type 0
  pub Encoder : Type 0
  pub Decoder : Type 0
  pub new_encoder : Encoder
  pub encode_action : ℕ → Encoder → Result Encoder
  pub encode_model : Struct f → Encoder → Result Encoder
  pub bytes : Encoder → Wire
  pub new_decoder : Wire → Decoder
  pub decode_action : Call Decoder ℕ
  pub decode_model : Struct f → Call Decoder (Struct f)
  pub foreign_value : GoType → Value f → Value f
  -- the stream written so far, and the stream still to be read
  pub written : Encoder → List (Sent f)
  pub unread : Decoder → List (Sent f)
  pub written-new_encoder : written new_encoder ≡ []
  pub written-encode_action :
      (n : ℕ) (e e' : Encoder) → encode_action n e ≡ ok e' → written e' ≡ written e ++ action n ∷ []
  pub written-encode_model :
      (m : Struct f) (e e' : Encoder)
      → encode_model m e ≡ ok e'
      → written e' ≡ written e ++ model m ∷ []
  pub unread-new_decoder : (e : Encoder) → unread (new_decoder (bytes e)) ≡ written e
  pub decode_action_lem :
      (d : Decoder) (n : ℕ) (rest : List (Sent f))
      → unread d ≡ action n ∷ rest
      → ((decode_action d).0 ≡ ok n) × (unread (decode_action d).1 ≡ rest)
  pub decode_model_lem :
      (d : Decoder) (prototype m : Struct f) (rest : List (Sent f))
      → unread d ≡ model m ∷ rest
      → layout prototype ≡ layout m
      → ((decode_model prototype d).0 ≡ ok (received foreign_value m))
        × (unread (decode_model prototype d).1 ≡ rest)

-- What comes back for a model that was sent.
abbrev pub image : {f : Foreign} → Gob f → Struct f → Struct f
image g = received (g.foreign_value)
