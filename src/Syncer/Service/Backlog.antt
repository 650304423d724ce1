-- ===== src/Syncer/Service/Backlog.antt =====
-- The log of a table as the changes that it encodes.
use mysql_to_mssql.Base.{
  ℕ, ◌≤◌, ◌<◌, ◌≡◌, refl, ◌∙◌, false, List, [], ◌∷◌, ◌++◌, append-nil, append_assoc, Bytes, ok,
  arith, eqb_refl, eqb_iff, length, if◌then◌else◌,
}
use mysql_to_mssql.Base.Calls.{after-ok}
use mysql_to_mssql.Reflect.{Foreign, Struct}
use mysql_to_mssql.Db.Interface.{Interface, same}
use mysql_to_mssql.Syncer.Gob.{Gob, layout}
use mysql_to_mssql.Syncer.Store.{
  bucket, encode_bytes, push_encoded, log_insert, log_update, log_delete,
}
use mysql_to_mssql.Syncer.Store.RoundTrip.{
  Event, inserted, updated, deleted, record_of, IsTyped, decode_bytes-encode_bytes,
}
use mysql_to_mssql.Syncer.Target.{Target}
use mysql_to_mssql.Syncer.Service.{next, World, sync_table}
use mysql_to_mssql.Syncer.Service.Delivery.{
  log_event, log_all, deliver, Decoded, AllTyped, for_each-deliver,
}
use mysql_to_mssql.Syncer.Service.Applied.{sync_table-loop}

module _ {W : Type 0} where
  nothing_appended :
      (q : Bytes → Bytes → List W) (b key b' key' : Bytes)
      → q b' key' ≡ (if same b key b' key' then q b key ++ [] else q b' key')
  nothing_appended q b key b' key' =
      ground (arith, eqb_iff b b', eqb_iff key key', append-nil (q b key))

  -- Two appends to one list are one.
  twice_appended :
      (q q' q₂ : Bytes → Bytes → List W) (b key b' key' : Bytes) (ws vs : List W)
      → q' b key ≡ (if same b key b key then q b key ++ ws else q b key)
      → q' b' key' ≡ (if same b key b' key' then q b key ++ ws else q b' key')
      → q₂ b' key' ≡ (if same b key b' key' then q' b key ++ vs else q' b' key')
      → q₂ b' key' ≡ (if same b key b' key' then q b key ++ (ws ++ vs) else q b' key')
  twice_appended q q' q₂ b key b' key' ws vs h₀ h k =
      ground (arith, eqb_refl b, eqb_refl key, append_assoc (q b key) ws vs)

module _ {f : Foreign} (g : Gob f) where
  -- The stored values are the changes, one each and in order.
  abbrev pub Encoded : List g.Wire → List (Event f) → Type 0
  Encoded [] [] = Unit
  Encoded [] (_ ∷ _) = ⊥
  Encoded (_ ∷ _) [] = ⊥
  Encoded (w ∷ ws) (ev ∷ evs) = (encode_bytes g (record_of ev) ≡ ok w) × Encoded ws evs

  pub append-Encoded :
      (ws vs : List g.Wire) (evs fs : List (Event f))
      → Encoded ws evs
      → Encoded vs fs
      → Encoded (ws ++ vs) (evs ++ fs)
  append-Encoded [] vs [] fs h k = k
  append-Encoded [] vs (_ ∷ _) fs h k = absurd h
  append-Encoded (_ ∷ _) vs [] fs h k = absurd h
  append-Encoded (w ∷ ws) vs (ev ∷ evs) fs h k = (h.0, append-Encoded ws vs evs fs h.1 k)

module _ {f : Foreign} (g : Gob f) (i : Interface g.Wire) (t : Target f) (table : Bytes) where
  pub append-AllTyped :
      (p : Struct f) (evs fs : List (Event f))
      → AllTyped g i t table p evs
      → AllTyped g i t table p fs
      → AllTyped g i t table p (evs ++ fs)
  append-AllTyped p [] fs h k = k
  append-AllTyped p (ev ∷ evs) fs h k = (h.0, append-AllTyped p evs fs h.1 k)

  layout-IsTyped :
      (p p' : Struct f) (ev : Event f) → layout p' ≡ layout p → IsTyped p ev → IsTyped p' ev
  layout-IsTyped p p' (inserted m) e h = e ∙ h
  layout-IsTyped p p' (updated old new) e h = (e ∙ h.0, e ∙ h.1)
  layout-IsTyped p p' (deleted m) e h = e ∙ h

  -- Only the type of the model matters.
  pub layout-AllTyped :
      (p p' : Struct f) (evs : List (Event f))
      → layout p' ≡ layout p
      → AllTyped g i t table p evs
      → AllTyped g i t table p' evs
  layout-AllTyped p p' [] e h = tt
  layout-AllTyped p p' (ev ∷ evs) e h =
      (layout-IsTyped p p' ev e h.0, layout-AllTyped p p' evs e h.1)

  Encoded-Decoded :
      (p : Struct f) (ws : List g.Wire) (evs : List (Event f))
      → AllTyped g i t table p evs
      → Encoded g ws evs
      → Decoded g i t table p ws evs
  Encoded-Decoded p [] [] ty h = tt
  Encoded-Decoded p [] (_ ∷ _) ty h = absurd h
  Encoded-Decoded p (_ ∷ _) [] ty h = absurd h
  Encoded-Decoded p (w ∷ ws) (ev ∷ evs) ty h =
      (decode_bytes-encode_bytes g p ev w ty.0 h.0, Encoded-Decoded p ws evs ty.1 h.1)

  -- What a call of the log adds to the lists of the storage.
  abbrev Appends : i.State → i.State → List g.Wire → Type 0
  Appends db db' ws =
      (b k : Bytes)
      → i.queue db' b k
        ≡ (if same bucket table b k then i.queue db bucket table ++ ws else i.queue db b k)

  module _ (pushes : (b k : Bytes) (w : g.Wire) (db : i.State) → (i.push b k w db).0 ≡ ok tt)
      (encodes : (ev : Event f) → (w : g.Wire) × (encode_bytes g (record_of ev) ≡ ok w)) where
    push_encoded-Encoded :
        (ev : Event f) (db : i.State)
        → ((push_encoded g i table (encode_bytes g (record_of ev)) db).0 ≡ ok tt)
          × ((w : g.Wire) × (encode_bytes g (record_of ev) ≡ ok w)
              × Appends db (push_encoded g i table (encode_bytes g (record_of ev)) db).1 (w ∷ []))
    unfolding push_encoded
    push_encoded-Encoded ev db =
        let (w, e) = encodes ev in
        rw e (
          pushes bucket table w db,
          (w, refl, λ b k. i.queue-push db bucket table w b k (pushes bucket table w db)),
        )

    log_event-Encoded :
        (ev : Event f) (db : i.State)
        → ((log_event g i t table ev db).0 ≡ ok tt)
          × ((w : g.Wire) × (encode_bytes g (record_of ev) ≡ ok w)
              × Appends db (log_event g i t table ev db).1 (w ∷ []))
    unfolding log_event log_insert log_update log_delete
    log_event-Encoded (inserted m) db = push_encoded-Encoded (inserted m) db
    log_event-Encoded (updated old new) db = push_encoded-Encoded (updated old new) db
    log_event-Encoded (deleted m) db = push_encoded-Encoded (deleted m) db

    Appends-nil : (db : i.State) → Appends db db []
    Appends-nil db b k = nothing_appended (i.queue db) bucket table b k

    Appends-cons :
        (db db' db₂ : i.State) (w : g.Wire) (ws : List g.Wire)
        → Appends db db' (w ∷ [])
        → Appends db' db₂ ws
        → Appends db db₂ (w ∷ ws)
    Appends-cons db db' db₂ w ws h k b key =
        twice_appended (i.queue db) (i.queue db') (i.queue db₂) bucket table b key (w ∷ []) ws
          (h bucket table) (h b key) (k b key)

    -- Changes are logged behind those that are there.
    pub log_all-Encoded :
        (evs : List (Event f)) (db : i.State)
        → ((log_all g i t table evs db).0 ≡ ok tt)
          × ((ws : List g.Wire) × Encoded g ws evs × Appends db (log_all g i t table evs db).1 ws)
    unfolding log_all
    log_all-Encoded [] db = (refl, ([], tt, Appends-nil db))
    log_all-Encoded (ev ∷ evs) db =
        let (ends, (w, e, adds)) = log_event-Encoded ev db in
        let db' = (log_event g i t table ev db).1 in
        let (rest_ends, (ws, es, adds_rest)) = log_all-Encoded evs db' in
        rw (after-ok (log_event g i t table ev db) (λ _ db'. log_all g i t table evs db') ends)
          (rest_ends, (w ∷ ws, (e, es), Appends-cons db db' _ w ws adds adds_rest))

  module _ (sizes : (b k : Bytes) (db : i.State) → (n : ℕ) × ((i.size b k db).0 ≡ ok n))
      (lists : (b k : Bytes) (db : i.State) → (l : List g.Wire) × ((i.get_all_key b k db).0 ≡ ok l))
      (rems : (b k : Bytes) (n : ℕ) (db : i.State)
        → 0 < n
        → n ≤ length (i.queue db b k)
        → (i.rem b k n db).0 ≡ ok tt) where
    -- A scan of a table with a backlog that is delivered.
    pub sync_table-Encoded :
        (p : Struct f) (evs : List (Event f)) (w : World g i t)
        → AllTyped g i t table p evs
        → Encoded g (i.queue w.db bucket table) evs
        → (deliver g i t table evs (w.syncer, 0)).0 ≡ ok tt
        → ((sync_table g i t false table p w).0 ≡ next)
          × ((sync_table g i t false table p w).1.syncer
              ≡ (deliver g i t table evs (w.syncer, 0)).1.0)
          × ((b k : Bytes)
              → i.queue (sync_table g i t false table p w).1.db b k
                ≡ (if same bucket table b k then [] else i.queue w.db b k))
    sync_table-Encoded p evs w ty es =
        sync_table-loop g i t sizes lists rems table p w (deliver g i t table evs (w.syncer, 0)) (
          for_each-deliver g i t table p (i.queue w.db bucket table) evs (w.syncer, 0)
            (Encoded-Decoded p (i.queue w.db bucket table) evs ty es))
