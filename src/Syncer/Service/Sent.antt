-- ===== src/Syncer/Service/Sent.antt =====
-- From the changes to the SQL statements that a scan runs on the target.
use mysql_to_mssql.Base.{
  ℕ, ◌≡◌, ◌+◌, refl, sym, ap, ◌∙◌, true, false, List, [], ◌∷◌, ◌++◌, Bytes, codes, some, All, map,
  Result, ok, err, panic,
}
use mysql_to_mssql.Base.Calls.{after}
use mysql_to_mssql.Reflect.{Foreign, Value}
use mysql_to_mssql.Db.Interface.{Interface}
use mysql_to_mssql.Syncer.Columns.{Column, columns_of}
use mysql_to_mssql.Syncer.Columns.Primary.{primary_columns}
use mysql_to_mssql.Syncer.Statements.{
  build_insert_statement, build_update_statement, build_delete_statement_from_pk,
}
use mysql_to_mssql.Syncer.Gob.{image, Gob}
use mysql_to_mssql.Syncer.Store.{stopped}
use mysql_to_mssql.Syncer.Store.RoundTrip.{Event, inserted, updated, deleted}
use mysql_to_mssql.Syncer.Target.{Target}
use mysql_to_mssql.Syncer.Writer.{Syncer, insert, update_on_pk, delete_on_pk}
use mysql_to_mssql.Syncer.Writer.Cache.{IsCoherent}
use mysql_to_mssql.Syncer.Writer.Ran.{
  Ran, done, append-Ran, insert-Ran, update_on_pk-Ran, delete_on_pk-Ran,
}
use mysql_to_mssql.Syncer.Service.{counted, wrap_call}
use mysql_to_mssql.Syncer.Service.Delivery.{apply_event, deliver}
use mysql_to_mssql.Syncer.Service.Coherent.{Fits, apply_event-IsCoherent}

module _ {f : Foreign} (g : Gob f) (i : Interface g.Wire) (t : Target f)
    (schema : Bytes → List Column) (table : Bytes) where
  -- The query and the arguments of a change, for the columns of the table's schema.
  abbrev pub statement : Event f → Bytes × List (Value f)
  statement (inserted m) =
      (build_insert_statement table (schema table), (columns_of (image g m) false).1)
  statement (updated old new) = (
    build_update_statement table (schema table) [],
    (columns_of (image g new) false).1 ++ (columns_of (image g old) true).1,
  )
  statement (deleted m) = (
    build_delete_statement_from_pk table (primary_columns (schema table)),
    (columns_of (image g m) true).1,
  )

  wrap_call-ok :
      (prefix : Bytes) (x : Result (Unit {0}) × Syncer t)
      → (wrap_call g i t prefix x).0 ≡ ok tt
      → x.0 ≡ ok tt
  wrap_call-ok prefix (ok tt, s) h = refl
  wrap_call-ok prefix (err e, s) h = cc
  wrap_call-ok prefix (panic, s) h = cc

  -- A change that is applied without error has run its statement.
  apply_event-Ran :
      (ev : Event f) (s : Syncer t)
      → Fits g i t schema table ev
      → IsCoherent t schema s
      → (apply_event g i t table ev s).0 ≡ ok tt
      → Ran t (statement ev ∷ []) s.db (apply_event g i t table ev s).1.db
  unfolding apply_event
  apply_event-Ran (inserted m) s e h q =
      insert-Ran t schema table s h (image g m) e
        (wrap_call-ok (codes "Insert error: ") (insert t table (some (image g m)) s) q)
  apply_event-Ran (updated old new) s e h q =
      update_on_pk-Ran t schema table s h (image g old) (image g new) e (
        wrap_call-ok (codes "Update error: ")
          (update_on_pk t table (some (image g old)) (some (image g new)) s) q)
  apply_event-Ran (deleted m) s e h q =
      delete_on_pk-Ran t schema table s h (image g m) e
        (wrap_call-ok (codes "Delete error: ") (delete_on_pk t table (some (image g m)) s) q)

  -- A sequence behind a change that was counted.
  after-counted-ok :
      (x : Result (Unit {0}) × Syncer t) (n : ℕ)
      (k : Syncer t × ℕ → Result (Unit {0}) × (Syncer t × ℕ))
      → (after (stopped (counted g i t n x)) (λ _ y. k y)).0 ≡ ok tt
      → (x.0 ≡ ok tt) × (after (stopped (counted g i t n x)) (λ _ y. k y) ≡ k (x.1, n + 1))
  unfolding counted stopped
  after-counted-ok (ok tt, s) n k h = (refl, refl)
  after-counted-ok (err e, s) n k h = cc
  after-counted-ok (panic, s) n k h = cc

  -- Changes that are all delivered without error have run their statements, in order.
  pub deliver-Ran :
      (evs : List (Event f)) (s : Syncer t) (n : ℕ)
      → All (Fits g i t schema table) evs
      → IsCoherent t schema s
      → (deliver g i t table evs (s, n)).0 ≡ ok tt
      → Ran t (map statement evs) s.db (deliver g i t table evs (s, n)).1.0.db
  unfolding deliver
  deliver-Ran [] s n e h q = done
  deliver-Ran (ev ∷ evs) s n e h q =
      let x = apply_event g i t table ev s in
      let (ends, rest) = after-counted-ok x n (deliver g i t table evs) q in
      rw rest (
        append-Ran t (apply_event-Ran ev s e.0 h ends) (
          deliver-Ran evs x.1 (n + 1) e.1 (apply_event-IsCoherent g i t schema table ev s e.0 h)
            (ap (λ (r : Result (Unit {0}) × (Syncer t × ℕ)). r.0) (sym rest) ∙ q)))
