-- ===== src/Syncer/Service/Delivery.antt =====
-- From the changes that are logged to the statements that are run.
use mysql_to_mssql.Base.{
  ℕ, ◌≡◌, refl, sym, ap, ◌∙◌, ◌++◌, append-nil, append_assoc, List, [], ◌∷◌, Bytes, codes, some,
  Result, ok, err, panic, Call, eqb_refl, fun_ext,
}
use mysql_to_mssql.Base.Calls.{after, after-eq-ok}
use mysql_to_mssql.Reflect.{Foreign, Struct}
use mysql_to_mssql.Db.Interface.{Interface}
use mysql_to_mssql.Syncer.Gob.{image, Gob}
use mysql_to_mssql.Syncer.Store.{
  bucket, encode_bytes, decode_bytes, attempt, stopped, for_each, push_encoded, log_insert,
  log_update, log_delete,
}
use mysql_to_mssql.Syncer.Store.RoundTrip.{
  Event, inserted, updated, deleted, record_of, IsTyped, read_back, decode_bytes-encode_bytes,
}
use mysql_to_mssql.Syncer.Target.{Target}
use mysql_to_mssql.Syncer.Writer.{Syncer, insert, update_on_pk, delete_on_pk}
use mysql_to_mssql.Syncer.Service.{wrap_call, perform, counted, callback}

module _ {f : Foreign} (g : Gob f) (i : Interface g.Wire) (t : Target f) (table : Bytes) where
  -- The log calls for a list of changes, one after the other.
  unfoldable pub log_event : Event f → Call i.State Unit
  log_event (inserted m) = log_insert g i table m
  log_event (updated old new) = log_update g i table old new
  log_event (deleted m) = log_delete g i table m

  unfoldable pub log_all : List (Event f) → Call i.State Unit
  log_all [] db = (ok tt, db)
  log_all (ev ∷ evs) db = after (log_event ev db) (λ _ db'. log_all evs db')

  -- What is to be run on the target for a change: its own operation, on gob's image of its models.
  unfoldable pub apply_event : Event f → Call (Syncer t) Unit
  apply_event (inserted m) s =
      wrap_call g i t (codes "Insert error: ") (insert t table (some (image g m)) s)
  apply_event (updated old new) s =
      wrap_call g i t (codes "Update error: ")
        (update_on_pk t table (some (image g old)) (some (image g new)) s)
  apply_event (deleted m) s =
      wrap_call g i t (codes "Delete error: ") (delete_on_pk t table (some (image g m)) s)

  -- The changes in order, up to the first that fails, counting those that do not.
  unfoldable pub deliver : List (Event f) → Call (Syncer t × ℕ) Unit
  deliver [] x = (ok tt, x)
  deliver (ev ∷ evs) x =
      after (stopped (counted g i t x.1 (apply_event ev x.0))) (λ _ x'. deliver evs x')

  perform_lem :
      (p : Struct f) (ev : Event f) (s : Syncer t)
      → perform g i t table (read_back g p ev) s ≡ apply_event ev s
  unfolding perform apply_event
  perform_lem p (inserted m) s = refl
  perform_lem p (updated old new) s = refl
  perform_lem p (deleted m) s = refl

  module _ (p : Struct f) where
    -- The stored values decode to the changes, one each and in order.
    abbrev pub Decoded : List g.Wire → List (Event f) → Type 0
    Decoded [] [] = Unit
    Decoded [] (_ ∷ _) = ⊥
    Decoded (_ ∷ _) [] = ⊥
    Decoded (w ∷ ws) (ev ∷ evs) = (decode_bytes g w p ≡ ok (read_back g p ev)) × Decoded ws evs

    abbrev pub AllTyped : List (Event f) → Type 0
    AllTyped [] = Unit
    AllTyped (ev ∷ evs) = IsTyped p ev × AllTyped evs

    pub for_each-deliver :
        (ws : List g.Wire) (evs : List (Event f)) (x : Syncer t × ℕ)
        → Decoded ws evs
        → for_each g ws p (callback g i t table) x ≡ deliver evs x
    unfolding for_each deliver attempt callback
    for_each-deliver [] [] x h = refl
    for_each-deliver [] (ev ∷ evs) x h = absurd h
    for_each-deliver (w ∷ ws) [] x h = absurd h
    for_each-deliver (w ∷ ws) (ev ∷ evs) x h =
        rw (h.0, perform_lem p ev x.0)
          (ap (after (stopped (counted g i t x.1 (apply_event ev x.0))))
            (fun_ext (λ _. fun_ext (λ x'. for_each-deliver ws evs x' h.1))))

    push_encoded-Decoded :
        (ev : Event f) (r : Result g.Wire) (db : i.State)
        → IsTyped p ev
        → encode_bytes g (record_of ev) ≡ r
        → (push_encoded g i table r db).0 ≡ ok tt
        → (w : g.Wire) × (decode_bytes g w p ≡ ok (read_back g p ev))
          × (i.queue (push_encoded g i table r db).1 bucket table
              ≡ i.queue db bucket table ++ w ∷ [])
    unfolding push_encoded
    push_encoded-Decoded ev (ok w) db ty e h = (
      w,
      decode_bytes-encode_bytes g p ev w ty e,
      i.queue-push db bucket table w bucket table h ∙ rw (eqb_refl bucket, eqb_refl table),
    )
    push_encoded-Decoded ev (err e') db ty e h = cc
    push_encoded-Decoded ev panic db ty e h = cc

    log_event-Decoded :
        (ev : Event f) (db : i.State)
        → IsTyped p ev
        → (log_event ev db).0 ≡ ok tt
        → (w : g.Wire) × (decode_bytes g w p ≡ ok (read_back g p ev))
          × (i.queue (log_event ev db).1 bucket table ≡ i.queue db bucket table ++ w ∷ [])
    unfolding log_event log_insert log_update log_delete
    log_event-Decoded (inserted m) db ty h = push_encoded-Decoded (inserted m) _ db ty refl h
    log_event-Decoded (updated old new) db ty h =
        push_encoded-Decoded (updated old new) _ db ty refl h
    log_event-Decoded (deleted m) db ty h = push_encoded-Decoded (deleted m) _ db ty refl h

    log_all-Decoded :
        (evs : List (Event f)) (db : i.State)
        → AllTyped evs
        → (log_all evs db).0 ≡ ok tt
        → (ws : List g.Wire) × Decoded ws evs
          × (i.queue (log_all evs db).1 bucket table ≡ i.queue db bucket table ++ ws)
    unfolding log_all
    log_all-Decoded [] db ty h = ([], tt, sym (append-nil (i.queue db bucket table)))
    log_all-Decoded (ev ∷ evs) db ty h =
        let (u, h₁, h₂) = after-eq-ok (log_event ev db) (λ _ db'. log_all evs db') h in
        let (w, d, q) = log_event-Decoded ev db ty.0 h₁ in
        let (ws, ds, qs) =
          log_all-Decoded evs (log_event ev db).1 ty.1
            (sym (ap (λ (z : Result (Unit {0}) × i.State). z.0) h₂) ∙ h) in
        (
          w ∷ ws,
          (d, ds),
          ap (λ (z : Result (Unit {0}) × i.State). i.queue z.1 bucket table) h₂
              ∙ qs
              ∙ ap (λ (l : List g.Wire). l ++ ws) q
              ∙ append_assoc (i.queue db bucket table) (w ∷ []) ws,
        )

    -- Changes of the prototype's type that are all logged, without error, to an empty log are
    -- delivered to the target by the loop over that log: each once, in order, up to the first that
    -- fails.
    pub for_each-log_all :
        (evs : List (Event f)) (db : i.State) (x : Syncer t × ℕ)
        → AllTyped evs
        → i.queue db bucket table ≡ []
        → (log_all evs db).0 ≡ ok tt
        → for_each g (i.queue (log_all evs db).1 bucket table) p (callback g i t table) x
          ≡ deliver evs x
    for_each-log_all evs db x ty e h =
        let (ws, ds, q) = log_all-Decoded evs db ty h in rw (q, e) (for_each-deliver ws evs x ds)
