-- ===== src/Syncer/Store/RoundTrip.antt =====
-- A logged change is read back as it was written, up to what gob does not transmit.
use mysql_to_mssql.Base.{
  ok-injective, ℕ, codes, ◌≡◌, sym, ap, ◌∙◌, List, [], ◌∷◌, ◌++◌, append-nil, append_assoc, Option,
  none, some, ok, err, panic, ◌>>=◌, >>=-eq-ok, Result,
}
use mysql_to_mssql.Reflect.{Foreign, Struct}
use mysql_to_mssql.Syncer.Gob.{image, Gob, Sent, layout}
use mysql_to_mssql.Syncer.Store.{
  Record, insert_action, update_action, delete_action, encode_models, encode, encode_bytes, decode,
  decode_old, decode_update, decode_rest, decode_bytes, wrap,
}

-- A change of one row, as the parser reports it.
pub data Event (f : Foreign) : Type 0 where
  inserted : Struct f → Event f
  updated : Struct f → Struct f → Event f
  deleted : Struct f → Event f

-- The record that is logged for a change.
abbrev pub record_of : {f : Foreign} → Event f → Record f
record_of (inserted m) = record { action = insert_action; old = none; new = some m }
record_of (updated old new) = record { action = update_action; old = some old; new = some new }
record_of (deleted m) = record { action = delete_action; old = some m; new = none }

-- The models of a change are of the prototype's type.
abbrev pub IsTyped : {f : Foreign} → Struct f → Event f → Type 0
IsTyped p (inserted m) = layout p ≡ layout m
IsTyped p (updated old new) = (layout p ≡ layout old) × (layout p ≡ layout new)
IsTyped p (deleted m) = layout p ≡ layout m

module _ {f : Foreign} (g : Gob f) where
  -- What is read back for a change: the models that were not written are the prototype.
  abbrev pub read_back : Struct f → Event f → Record f
  read_back p (inserted m) = record { action = insert_action; old = some p; new = some (image g m) }
  read_back p (updated old new) = record {
    action = update_action;
    old = some (image g old);
    new = some (image g new);
  }
  read_back p (deleted m) = record { action = delete_action; old = some (image g m); new = some p }

  abbrev sent : List (Option (Struct f)) → List (Sent f)
  sent [] = []
  sent (none ∷ ms) = sent ms
  sent (some m ∷ ms) = Sent.model m ∷ sent ms

  written-encode_models :
      (ms : List (Option (Struct f))) (e e' : g.Encoder)
      → encode_models g ms e ≡ ok e'
      → g.written e' ≡ g.written e ++ sent ms
  unfolding encode_models
  written-encode_models [] e e' h = rw append-nil (sym (ap g.written (ok-injective h)))
  written-encode_models (none ∷ ms) e e' h = written-encode_models ms e e' h
  written-encode_models (some m ∷ ms) e e' h =
      let (e₁, h₁, h₂) = >>=-eq-ok (g.encode_model m e) (λ x. encode_models g ms x) h in
      written-encode_models ms e₁ e' h₂
      ∙ ap (λ (l : List (Sent f)). l ++ sent ms) (g.written-encode_model m e e₁ h₁)
      ∙ append_assoc (g.written e) (Sent.model m ∷ []) (sent ms)

  -- The stream of an encoded record is its action and the models that it has.
  unread-encode :
      (action : ℕ) (ms : List (Option (Struct f))) (w : g.Wire)
      → encode g action ms ≡ ok w
      → g.unread (g.new_decoder w) ≡ Sent.action action ∷ sent ms
  unfolding encode
  unread-encode action ms w h =
      let (e, h₁, h') =
        >>=-eq-ok (g.encode_action action g.new_encoder)
          (λ x. encode_models g ms x >>= λ y. ok (g.bytes y)) h in
      let (e', h₂, h₃) = >>=-eq-ok (encode_models g ms e) (λ y. ok (g.bytes y)) h' in
      ap (λ (x : g.Wire). g.unread (g.new_decoder x)) (sym (ok-injective h₃))
      ∙ g.unread-new_decoder e'
      ∙ written-encode_models ms e e' h₂
      ∙ ap (λ (l : List (Sent f)). l ++ sent ms)
          (g.written-encode_action action g.new_encoder e h₁
            ∙ ap (λ (l : List (Sent f)). l ++ Sent.action action ∷ []) g.written-new_encoder)

  decode_lem :
      (p m : Struct f) (d : g.Decoder) (rest : List (Sent f))
      → g.unread d ≡ Sent.model m ∷ rest
      → layout p ≡ layout m
      → ((decode g p d).0 ≡ ok (image g m)) × (g.unread (decode g p d).1 ≡ rest)
  unfolding decode
  decode_lem p m d rest h t =
      let (h₁, h₂) = g.decode_model_lem d p m rest h t in
      (ap (wrap (codes "Decode error: ")) h₁, h₂)

  decode_update_lem :
      (p v w : Struct f) (x : Result (Struct f) × g.Decoder)
      → x.0 ≡ ok v
      → (decode g p x.1).0 ≡ ok w
      → decode_update g p x ≡ ok (record { action = update_action; old = some w; new = some v })
  unfolding decode_update decode_old
  decode_update_lem p v w (ok v', d) h k = rw k (rw (ok-injective h))
  decode_update_lem p v w (err e, d) h k = cc
  decode_update_lem p v w (panic, d) h k = cc

  -- What is encoded for a change decodes to that change.
  decode_rest_lem :
      (p : Struct f) (ev : Event f) (d : g.Decoder)
      → IsTyped p ev
      → g.unread d ≡ sent ((record_of ev).new ∷ (record_of ev).old ∷ [])
      → decode_rest g p (record_of ev).action d ≡ ok (read_back p ev)
  unfolding decode_rest
  decode_rest_lem p (inserted m) d t h = rw ((decode_lem p m d [] h t).0)
  decode_rest_lem p (updated old new) d t h =
      let (h₁, h₂) = decode_lem p new d (Sent.model old ∷ []) h t.1 in
      decode_update_lem p (image g new) (image g old) (decode g p d) h₁
        (decode_lem p old (decode g p d).1 [] h₂ t.0).0
  decode_rest_lem p (deleted m) d t h = rw ((decode_lem p m d [] h t).0)

  -- A change whose models are of the prototype's type, and that was encoded, is decoded with the
  -- same action and with gob's image of each model; a model that it lacks is the prototype.
  pub decode_bytes-encode_bytes :
      (p : Struct f) (ev : Event f) (w : g.Wire)
      → IsTyped p ev
      → encode_bytes g (record_of ev) ≡ ok w
      → decode_bytes g w p ≡ ok (read_back p ev)
  unfolding decode_bytes encode_bytes
  decode_bytes-encode_bytes p ev w t h =
      let r = record_of ev in
      let (h₁, h₂) =
        g.decode_action_lem (g.new_decoder w) r.action (sent (r.new ∷ r.old ∷ []))
          (unread-encode r.action (r.new ∷ r.old ∷ []) w h) in
      rw h₁ (decode_rest_lem p ev (g.decode_action (g.new_decoder w)).1 t h₂)
