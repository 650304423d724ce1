-- ===== src/Api/Replication/Events.antt =====
-- An event of the binlog is enqueued.
use mysql_to_mssql.Base.{
  ◌≡◌, refl, sym, ap, ◌∙◌, Bool-cases, Option-cases, inl, inr, true, false, List, ◌++◌, map, some,
  Bytes, Dict, lookup, Result, ok, err, panic, eqb, eqb_iff, if◌then◌else◌, some-injective,
  none_ne_some, ◌≢◌,
}
use mathlib.Core.Path.{subst}
use mysql_to_mssql.Reflect.{Foreign, Struct}
use mysql_to_mssql.Db.Interface.{Interface, same}
use mysql_to_mssql.Parser.Cells.{RowsEvent}
use mysql_to_mssql.Parser.Rows.{Callback, on_row}
use mysql_to_mssql.Parser.Rows.Events.{
  on_row-CallTyped, on_row-layout, on_row-others, on_row-none, on_row-Distinct,
}
use mysql_to_mssql.Syncer.Gob.{Gob, layout}
use mysql_to_mssql.Syncer.Store.{bucket, encode_bytes}
use mysql_to_mssql.Syncer.Store.RoundTrip.{Event, record_of}
use mysql_to_mssql.Syncer.Target.{Target}
use mysql_to_mssql.Syncer.Service.Delivery.{AllTyped}
use mysql_to_mssql.Syncer.Service.Backlog.{
  Encoded, append-Encoded, append-AllTyped, layout-AllTyped, log_all-Encoded,
}
use mysql_to_mssql.Api.Models.{Dynamic}
use mysql_to_mssql.Api.{Packages, Api}
use mysql_to_mssql.Api.Events.{on_event}
use mysql_to_mssql.Api.Events.Pipeline.{change_of, changes-AllTyped, on_event-log_all}
use mysql_to_mssql.Api.Replication.{Pending, enqueue, Replica, receive, Replicates}

true_ne_false : true ≢ false
true_ne_false h = cc

module _ {f : Foreign} (g : Gob f) (i : Interface g.Wire) (t : Target f) (d : Dynamic)
    (k : Packages g.Wire) where
  -- The types of what waits, for all models.
  abbrev AllOf : Dict (Struct f) → Pending f → Type 0
  AllOf models pending =
      (name : Bytes) (p : Struct f)
      → lookup name models ≡ some p
      → AllTyped g i t name p (pending name)

  enqueue-AllTyped :
      (table name : Bytes) (evs : List (Event f)) (p : Struct f) (pending : Pending f)
      → AllTyped g i t name p (pending name)
      → (eqb table name ≡ true → AllTyped g i t name p evs)
      → AllTyped g i t name p (enqueue table evs pending name)
  enqueue-AllTyped table name evs p pending h h' = elim (Bool-cases (eqb table name)) [
    | inl e ↦ rw e (append-AllTyped g i t name p (pending name) evs h (h' e))
    | inr e ↦ rw e h
  ]

  event_table-AllTyped :
      (e : RowsEvent f) (models models' : Dict (Struct f)) (calls : List (Callback f))
      (pending : Pending f) (p : Struct f)
      → on_row e models ≡ ok (calls, models')
      → AllOf models pending
      → lookup e.table models' ≡ some p
      → AllTyped g i t e.table p (enqueue e.table (map change_of calls) pending e.table)
  event_table-AllTyped e models models' calls pending p q ty found =
      elim (Option-cases (lookup e.table models)) [
        | inl missing ↦
            (let (no_calls, same_models) = on_row-none e models models' calls missing q in
              absurd (none_ne_some (sym missing ∙ ap (lookup e.table) (sym same_models) ∙ found)))
        | inr (m, there) ↦
            (let (m', left, same_layout) = on_row-layout e models models' m calls there q in
              let p_is : p ≡ m' = some-injective (sym found ∙ left) in
              let same_type : layout p ≡ layout m = ap layout p_is ∙ same_layout in
              enqueue-AllTyped e.table e.table (map change_of calls) p pending
                (layout-AllTyped g i t e.table m p (pending e.table) same_type (ty e.table m there))
                (λ _.
                  changes-AllTyped g i t d k e.table m p calls same_type
                    (on_row-CallTyped e models models' m calls there q)))
      ]

  -- What the parser reports is of the types of the models that it leaves.
  receive-AllOf :
      (e : RowsEvent f) (models models' : Dict (Struct f)) (calls : List (Callback f))
      (pending : Pending f)
      → on_row e models ≡ ok (calls, models')
      → AllOf models pending
      → AllOf models' (enqueue e.table (map change_of calls) pending)
  receive-AllOf e models models' calls pending q ty name p found =
      elim (Bool-cases (eqb e.table name)) [
        | inl at_table ↦
            (let same_name : e.table ≡ name = (eqb_iff e.table name).0 at_table in
              subst
                (λ name. AllTyped g i t name p (enqueue e.table (map change_of calls) pending name))
                same_name
                (event_table-AllTyped e models models' calls pending p q ty
                  (subst (λ name. lookup name models' ≡ some p) (sym same_name) found)))
        | inr other ↦
            enqueue-AllTyped e.table name (map change_of calls) p pending
              (ty name p (sym (on_row-others e models models' calls name other q) ∙ found))
              (λ at_table. absurd (true_ne_false (sym at_table ∙ other)))
      ]

  enqueue-Encoded :
      (table name : Bytes) (evs : List (Event f)) (pending : Pending f) (q : Bytes → List g.Wire)
      (ws : List g.Wire)
      → ((name : Bytes) → Encoded g (q name) (pending name))
      → Encoded g ws evs
      → Encoded g
          (if same bucket table bucket name then q table ++ ws else q name)
          (enqueue table evs pending name)
  unfolding eqb
  enqueue-Encoded table name evs pending q ws h h' = elim (Bool-cases (eqb table name)) [
    | inl e ↦ rw e (
        append-Encoded g (q table) ws (pending name) evs
          (subst (λ name. Encoded g (q table) (pending name)) ((eqb_iff table name).0 e) (h table))
          h')
    | inr e ↦ rw e (h name)
  ]

  pub receive-parts :
      (e : RowsEvent f) (x : Result (List (Callback f) × Dict (Struct f))) (r r' : Replica g i t)
      → receive g i t e.table x r ≡ some r'
      → (calls : List (Callback f)) × (models : Dict (Struct f)) × (x ≡ ok (calls, models))
        × (r' ≡ record r {
          models = models;
          pending = enqueue e.table (map change_of calls) r.pending;
        })
  receive-parts e (ok (calls, models)) r r' h = (calls, models, refl, sym (some-injective h))
  receive-parts e (err _) r r' h = cc
  receive-parts e panic r r' h = cc

  module _ (pushes : (b key : Bytes) (w : g.Wire) (db : i.State) → (i.push b key w db).0 ≡ ok tt)
      (encodes : (ev : Event f) → (w : g.Wire) × (encode_bytes g (record_of ev) ≡ ok w)) where
    received-Replicates :
        (e : RowsEvent f) (a : Api g i t d k) (r : Replica g i t) (calls : List (Callback f))
        (models : Dict (Struct f))
        → on_row e r.models ≡ ok (calls, models)
        → Replicates g i t d k a r
        → ((on_event g i t d k e a).0 ≡ ok tt)
          × Replicates g i t d k (on_event g i t d k e a).1 (record r {
            models = models;
            pending = enqueue e.table (map change_of calls) r.pending;
          })
    received-Replicates e a r calls models q s =
        let (ends, (ws, es, adds)) =
          log_all-Encoded g i t e.table pushes encodes (map change_of calls) a.db_interface in
        rw
          (on_event-log_all g i t d k e a calls models s.logs (ap (on_row e) s.same_models ∙ q)
            ends)
          (
            refl,
            record {
              running = s.running;
              starts = s.starts;
              waits = s.waits;
              logs = s.logs;
              same_target = s.same_target;
              same_models = refl;
              distinct = on_row-Distinct e r.models models calls s.distinct q;
              encoded = λ name. rw (adds bucket name) (
                  enqueue-Encoded e.table name (map change_of calls) r.pending
                    (i.queue a.db_interface bucket) ws s.encoded es);
              typed = receive-AllOf e r.models models calls r.pending q s.typed;
            },
          )

    -- An event that the parser reads is handled without error, and its changes wait.
    pub on_event-Replicates :
        (e : RowsEvent f) (a : Api g i t d k) (r r' : Replica g i t)
        → receive g i t e.table (on_row e r.models) r ≡ some r'
        → Replicates g i t d k a r
        → ((on_event g i t d k e a).0 ≡ ok tt) × Replicates g i t d k (on_event g i t d k e a).1 r'
    on_event-Replicates e a r r' h s =
        let (calls, models, q, r'_is) = receive-parts e (on_row e r.models) r r' h in
        rw r'_is (received-Replicates e a r calls models q s)
