-- ===== src/Syncer/Store.antt =====
-- syncer/store.go: the log of changes.
pub mod RoundTrip
pub mod Lost
use mysql_to_mssql.Base.{
  ℕ, List, [], ◌∷◌, ◌++◌, Option, none, some, Bool, true, false, ◌||◌, Bytes, codes, ◌==◌, Result,
  ok, err, panic, ◌>>=◌, Call, if◌then◌else◌, Dict, eqb, length, ◌&&◌,
}
use mysql_to_mssql.Base.Calls.{after}
use mysql_to_mssql.Reflect.{Foreign, Struct}
use mysql_to_mssql.Db.Interface.{Interface}
use mysql_to_mssql.Syncer.Gob.{Gob}

-- type Action uint8
abbrev pub insert_action : ℕ
insert_action = 1

abbrev pub update_action : ℕ
update_action = 2

abbrev pub delete_action : ℕ
delete_action = 3

-- The storage and the model definitions, by table.
pub record Store (f : Foreign) (S : Type 0) : Type 0 where
  pub local_db : S
  pub models : Dict (Struct f)

-- `none` is a nil interface.
pub record Record (f : Foreign) : Type 0 where
  pub action : ℕ
  pub old : Option (Struct f)
  pub new : Option (Struct f)

abbrev pub bucket : Bytes
bucket = codes "store"

-- fmt.Errorf("Decode error: %v", err) and the like
abbrev pub wrap {ℓ} : {A : Type ℓ} → Bytes → Result A → Result A
wrap prefix (ok a) = ok a
wrap prefix (err e) = err (prefix ++ e)
wrap prefix panic = panic

-- An error of the callback ends the loop.
unfoldable pub stopped : {S : Type 0} → Result (Unit {0}) × S → Result (Unit {0}) × S
stopped (ok _, s) = (ok tt, s)
stopped (err e, s) = (err (e ++ codes " - forEach loop forcibly stopped"), s)
stopped (panic, s) = (panic, s)

-- One round of forEach, on the decoded record.
unfoldable pub attempt :
    {f : Foreign} {S : Type 0} → Result (Record f) → (Record f → Call S Unit) → Call S Unit
attempt (ok rec) callback s = stopped (callback rec s)
attempt (err e) callback s = (err e, s)
attempt panic callback s = (panic, s)

module _ {f : Foreign} (g : Gob f) where
  -- The loop of encode.
  unfoldable pub encode_models : List (Option (Struct f)) → g.Encoder → Result g.Encoder
  encode_models [] e = ok e
  encode_models (none ∷ models) e = encode_models models e
  encode_models (some m ∷ models) e = g.encode_model m e >>= λ e'. encode_models models e'

  unfoldable pub encode : ℕ → List (Option (Struct f)) → Result g.Wire
  encode action models = do
    e ← g.encode_action action g.new_encoder
    e' ← encode_models models e
    ok (g.bytes e')

  unfoldable pub encode_bytes : Record f → Result g.Wire
  encode_bytes rec = encode rec.action (rec.new ∷ rec.old ∷ [])

  -- decode(dec, i)
  unfoldable pub decode : Struct f → Call g.Decoder (Struct f)
  decode prototype d =
      let (r, d') = g.decode_model prototype d in (wrap (codes "Decode error: ") r, d')

  -- The second model of an update, after the first was decoded: its error is dropped, and then its
  -- value is nil.
  unfoldable pub decode_old : Struct f → Result (Struct f) → Result (Record f)
  decode_old v (ok w) = ok (record { action = update_action; old = some w; new = some v })
  decode_old v (err e) = ok (record { action = update_action; old = none; new = some v })
  decode_old v panic = panic

  -- The same after an error, which is the result unless the second call panics.
  unfoldable pub skip_old : Bytes → Result (Struct f) → Result (Record f)
  skip_old e panic = panic
  skip_old e _ = err e

  unfoldable pub decode_update : Struct f → Result (Struct f) × g.Decoder → Result (Record f)
  decode_update old_model (ok v, d) = decode_old v (decode old_model d).0
  decode_update old_model (err e, d) = skip_old e (decode old_model d).0
  decode_update old_model (panic, d) = panic

  -- decodeBytes behind the action, for a record that comes with the prototypes of both models.
  unfoldable pub decode_rest : Struct f → ℕ → g.Decoder → Result (Record f)
  decode_rest prototype action d =
      if action == insert_action
      then (decode prototype d).0
        >>= (λ v. ok (record { action = action; old = some prototype; new = some v }))
      else if action == update_action
      then decode_update prototype (decode prototype d)
      else if action == delete_action
      then (decode prototype d).0
        >>= (λ v. ok (record { action = action; old = some v; new = some prototype }))
      else ok (record { action = action; old = some prototype; new = some prototype })

  unfoldable pub decode_bytes : g.Wire → Struct f → Result (Record f)
  decode_bytes input prototype =
      let (r, d) = g.decode_action (g.new_decoder input) in
      wrap (codes "Decode error: ") r >>= λ action. decode_rest prototype action d

  -- forEach: the callback works on a state of its own.
  unfoldable pub for_each :
      {S : Type 0} → List g.Wire → Struct f → (Record f → Call S Unit) → Call S Unit
  for_each [] model callback s = (ok tt, s)
  for_each (x ∷ list) model callback s =
      after (attempt (decode_bytes x model) callback s) (λ _ s'. for_each list model callback s')

  module _ (i : Interface g.Wire) where
    -- A panic if there are no models, or if there is no directory for nutsdb.
    unfoldable pub new_store : i.State → Dict (Struct f) → Result (Store f i.State)
    new_store db models =
        if length models == 0
        then panic
        else if eqb (i.engine db) (codes "nutsdb") && eqb (i.dir db) []
        then panic
        else ok (record { local_db = db; models = models })

    unfoldable pub loop_over :
        {S : Type 0}
        → Result (List g.Wire)
        → Struct f
        → (Record f → Call S Unit)
        → i.State
        → S
        → Result (Unit {0}) × i.State × S
    loop_over (ok list) model callback db s =
        let (r, s') = for_each list model callback s in (r, db, s')
    loop_over (err e) model callback db s = (err e, db, s)
    loop_over panic model callback db s = (panic, db, s)

    -- GetAll: the whole list is read before the loop starts.
    unfoldable pub get_all :
        {S : Type 0}
        → Bytes
        → Struct f
        → (Record f → Call S Unit)
        → i.State
        → S
        → Result (Unit {0}) × i.State × S
    get_all table model callback db s =
        let (r, db') = i.get_all_key bucket table db in loop_over r model callback db' s

    -- Push of an encoded record, or the error of encoding it.
    unfoldable pub push_encoded : Bytes → Result g.Wire → Call i.State Unit
    push_encoded table (ok b) s = i.push bucket table b s
    push_encoded table (err e) s = (err (codes "Marshal error: " ++ e), s)
    push_encoded table panic s = (panic, s)

    unfoldable pub log_insert : Bytes → Struct f → Call i.State Unit
    log_insert table model =
        push_encoded table
          (encode_bytes (record { action = insert_action; old = none; new = some model }))

    unfoldable pub log_update : Bytes → Struct f → Struct f → Call i.State Unit
    log_update table old_model new_model = push_encoded table (
        encode_bytes
          (record { action = update_action; old = some old_model; new = some new_model }))

    unfoldable pub log_delete : Bytes → Struct f → Call i.State Unit
    log_delete table model =
        push_encoded table
          (encode_bytes (record { action = delete_action; old = some model; new = none }))

    unfoldable pub size : Bytes → Call i.State ℕ
    size table = i.size bucket table

    unfoldable pub l_rem : Bytes → ℕ → Call i.State Unit
    l_rem table count = i.rem bucket table count

    unfoldable pub truncate : Bytes → Call i.State Unit
    truncate table = i.truncate bucket table

    unfoldable pub close : Call i.State Unit
    close = i.release
