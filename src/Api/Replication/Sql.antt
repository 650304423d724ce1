-- ===== src/Api/Replication/Sql.antt =====
-- The SQL statements that the API's syncer runs, for events and ticks in sequence.
use mysql_to_mssql.Base.{
  ◌≡◌, sym, ◌∙◌, false, List, [], ◌∷◌, ◌++◌, map, Option, some, none, Bytes, All, eqb, Bool-cases,
  inl, inr, some-injective,
}
use mathlib.Core.Path.{subst}
use mysql_to_mssql.Reflect.{Foreign, Struct, Value}
use mysql_to_mssql.Db.Interface.{Interface}
use mysql_to_mssql.Syncer.Columns.{Column, columns_of}
use mysql_to_mssql.Syncer.Columns.Layout.{columns_of-layout}
use mysql_to_mssql.Syncer.Gob.{image, layout-received, Gob, layout}
use mysql_to_mssql.Syncer.Store.RoundTrip.{Event, inserted, updated, deleted, IsTyped}
use mysql_to_mssql.Syncer.Target.{Target}
use mysql_to_mssql.Syncer.Writer.{Syncer}
use mysql_to_mssql.Syncer.Writer.Cache.{IsCoherent}
use mysql_to_mssql.Syncer.Writer.Ran.{Ran, done, append-Ran}
use mysql_to_mssql.Syncer.Service.Delivery.{deliver, AllTyped}
use mysql_to_mssql.Syncer.Service.Coherent.{Fits, deliver-IsCoherent}
use mysql_to_mssql.Syncer.Service.Sent.{statement, deliver-Ran}
use mysql_to_mssql.Api.Replication.{
  Input, arrives, ticks, Pending, Replica, dequeue, drain, replicate,
}
use mysql_to_mssql.Api.Replication.Scans.{drain_with-parts}

module _ {f : Foreign} (g : Gob f) (i : Interface g.Wire) (t : Target f)
    (schema : Bytes → List Column) where
  -- The statements of a tick: table by table, those of what waits.
  abbrev pub tick_statements : List (Bytes × Struct f) → Pending f → List (Bytes × List (Value f))
  tick_statements [] pending = []
  tick_statements ((table, _) ∷ models) pending =
      map (statement g i t schema table) (pending table)
      ++ tick_statements models (dequeue table pending)

  abbrev pub statements : Input f → Replica g i t → List (Bytes × List (Value f))
  statements (arrives e) r = []
  statements ticks r = tick_statements r.models r.pending

  abbrev pub statements_on :
      Option (Replica g i t)
      → (Replica g i t → List (Bytes × List (Value f)))
      → List (Bytes × List (Value f))
  statements_on none k = []
  statements_on (some r) k = k r

  -- The statements of the abstract program, up to where it stops.
  abbrev pub all_statements : List (Input f) → Replica g i t → List (Bytes × List (Value f))
  all_statements [] r = []
  all_statements (x ∷ xs) r =
      statements x r ++ statements_on (replicate g i t x r) (all_statements xs)

  -- Each entry's waiting changes have the columns of the schema.
  abbrev pub AllFit : Pending f → List (Bytes × Struct f) → Type 0
  AllFit pending = All (λ (e : Bytes × Struct f). All (Fits g i t schema e.0) (pending e.0))

  dequeue-Fits :
      (table name : Bytes) (pending : Pending f)
      → All (Fits g i t schema name) (pending name)
      → All (Fits g i t schema name) (dequeue table pending name)
  dequeue-Fits table name pending h = elim (Bool-cases (eqb table name)) [
    | inl e ↦ rw e tt
    | inr e ↦ rw e h
  ]

  dequeue-AllFit :
      (table : Bytes) (pending : Pending f) (models : List (Bytes × Struct f))
      → AllFit pending models
      → AllFit (dequeue table pending) models
  dequeue-AllFit table pending [] h = tt
  dequeue-AllFit table pending ((name, p) ∷ models) h =
      (dequeue-Fits table name pending h.0, dequeue-AllFit table pending models h.1)

  pub drain-Ran :
      (models : List (Bytes × Struct f)) (pending : Pending f) (s : Syncer t)
      (z : Pending f × Syncer t)
      → AllFit pending models
      → IsCoherent t schema s
      → drain g i t models pending s ≡ some z
      → Ran t (tick_statements models pending) s.db z.1.db × IsCoherent t schema z.1
  drain-Ran [] pending s z fit h q =
      subst (λ (z : Pending f × Syncer t). Ran t [] s.db z.1.db × IsCoherent t schema z.1)
        (some-injective q) (done, h)
  drain-Ran ((table, _) ∷ models) pending s z fit h q =
      let y = deliver g i t table (pending table) (s, 0) in
      let (ends, later) = drain_with-parts g i t table pending y (drain g i t models) z q in
      let (ran, h') =
        drain-Ran models (dequeue table pending) y.1.0 z (dequeue-AllFit table pending models fit.1)
          (deliver-IsCoherent g i t schema table (pending table) s 0 fit.0 h) later in
      (append-Ran t (deliver-Ran g i t schema table (pending table) s 0 fit.0 h ends) ran, h')

  -- A model of the table's type has the columns of the schema once it went through gob.
  image-columns :
      (table : Bytes) (p m : Struct f)
      → layout p ≡ layout m
      → (columns_of p false).0 ≡ schema table
      → (columns_of (image g m) false).0 ≡ schema table
  image-columns table p m e h =
      columns_of-layout (image g m) p false (layout-received (g.foreign_value) m ∙ sym e) ∙ h

  IsTyped-Fits :
      (table : Bytes) (p : Struct f) (ev : Event f)
      → IsTyped p ev
      → (columns_of p false).0 ≡ schema table
      → Fits g i t schema table ev
  IsTyped-Fits table p (inserted m) e h = image-columns table p m e h
  IsTyped-Fits table p (updated old new) e h = image-columns table p new e.1 h
  IsTyped-Fits table p (deleted m) e h = image-columns table p m e h

  pub AllTyped-Fits :
      (table : Bytes) (p : Struct f) (evs : List (Event f))
      → AllTyped g i t table p evs
      → (columns_of p false).0 ≡ schema table
      → All (Fits g i t schema table) evs
  AllTyped-Fits table p [] e h = tt
  AllTyped-Fits table p (ev ∷ evs) e h =
      (IsTyped-Fits table p ev e.0 h, AllTyped-Fits table p evs e.1 h)
