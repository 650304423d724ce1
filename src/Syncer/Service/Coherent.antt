-- ===== src/Syncer/Service/Coherent.antt =====
-- The prepared statements that a scan keeps.
use mysql_to_mssql.Base.{ℕ, ◌≡◌, List, [], ◌∷◌, Bytes, All, Result, ok, err, panic, false}
use mysql_to_mssql.Base.Calls.{after}
use mysql_to_mssql.Reflect.{Foreign, Struct}
use mysql_to_mssql.Db.Interface.{Interface}
use mysql_to_mssql.Syncer.Columns.{Column, columns_of}
use mysql_to_mssql.Syncer.Gob.{image, Gob}
use mysql_to_mssql.Syncer.Store.{stopped}
use mysql_to_mssql.Syncer.Store.RoundTrip.{Event, inserted, updated, deleted}
use mysql_to_mssql.Syncer.Target.{Target}
use mysql_to_mssql.Syncer.Writer.{Syncer}
use mysql_to_mssql.Syncer.Writer.Cache.{IsCoherent}
use mysql_to_mssql.Syncer.Writer.Runs.{
  insert-IsCoherent, update_on_pk-IsCoherent, delete_on_pk-IsCoherent,
}
use mysql_to_mssql.Syncer.Service.{counted}
use mysql_to_mssql.Syncer.Service.Delivery.{apply_event, deliver}

-- The model whose columns the change writes.
abbrev pub written : {f : Foreign} → Event f → Struct f
written (inserted m) = m
written (updated old new) = new
written (deleted m) = m

module _ {f : Foreign} (g : Gob f) (i : Interface g.Wire) (t : Target f)
    (schema : Bytes → List Column) (table : Bytes) where
  -- The change has the table's columns once it went through gob.
  abbrev pub Fits : Event f → Type 0
  Fits ev = (columns_of (image g (written ev)) false).0 ≡ schema table

  pub apply_event-IsCoherent :
      (ev : Event f) (s : Syncer t)
      → Fits ev
      → IsCoherent t schema s
      → IsCoherent t schema (apply_event g i t table ev s).1
  unfolding apply_event
  apply_event-IsCoherent (inserted m) s e h = insert-IsCoherent t schema table s h (image g m) e
  apply_event-IsCoherent (updated old new) s e h =
      update_on_pk-IsCoherent t schema table s h (image g old) (image g new) e
  apply_event-IsCoherent (deleted m) s e h =
      delete_on_pk-IsCoherent t schema table s h (image g m) e

  after-counted :
      (r : Result (Unit {0}) × Syncer t) (n : ℕ)
      (k : Syncer t × ℕ → Result (Unit {0}) × (Syncer t × ℕ))
      → IsCoherent t schema r.1
      → ((n : ℕ) → IsCoherent t schema (k (r.1, n)).1.0)
      → IsCoherent t schema (after (stopped (counted g i t n r)) (λ _ x. k x)).1.0
  unfolding counted stopped
  after-counted (ok _, s) n k h rest = rest _
  after-counted (err e, s) n k h rest = h
  after-counted (panic, s) n k h rest = h

  -- Changes whose models have the columns of the table's schema, applied in order up to the first
  -- that fails, leave every prepared statement that is kept one that was prepared for the schema
  -- of its table, if it was so before, also where a change fails.
  pub deliver-IsCoherent :
      (evs : List (Event f)) (s : Syncer t) (n : ℕ)
      → All Fits evs
      → IsCoherent t schema s
      → IsCoherent t schema (deliver g i t table evs (s, n)).1.0
  unfolding deliver
  deliver-IsCoherent [] s n e h = h
  deliver-IsCoherent (ev ∷ evs) s n e h =
      let h' = apply_event-IsCoherent ev s e.0 h in
      after-counted (apply_event g i t table ev s) n (deliver g i t table evs) h'
        (λ n'. deliver-IsCoherent evs (apply_event g i t table ev s).1 n' e.1 h')
