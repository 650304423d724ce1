-- ===== src/Api/Replication/Scans.antt =====
-- A scan of the log delivers what waits, and leaves nothing of it.
use mysql_to_mssql.Base.{
  ℕ, ◌≤◌, ◌<◌, ◌≡◌, refl, Bool-cases, inl, inr, false, List, [], ◌∷◌, Option, some, All, Bytes,
  Result, ok, err, panic, eqb, length, if◌then◌else◌, some-injective,
}
use mathlib.Core.Path.{subst}
use mysql_to_mssql.Reflect.{Foreign, Struct}
use mysql_to_mssql.Db.Interface.{Interface, same}
use mysql_to_mssql.Syncer.Gob.{Gob}
use mysql_to_mssql.Syncer.Store.{bucket}
use mysql_to_mssql.Syncer.Target.{Target}
use mysql_to_mssql.Syncer.Writer.{Syncer}
use mysql_to_mssql.Syncer.Service.{
  Progress, next, blocked, panicked, World, sync_table, sync_all_models, continue,
}
use mysql_to_mssql.Syncer.Service.Delivery.{deliver, AllTyped}
use mysql_to_mssql.Syncer.Service.Backlog.{Encoded, sync_table-Encoded}
use mysql_to_mssql.Api.Replication.{Pending, dequeue, drain_with, drain}

module _ {f : Foreign} (g : Gob f) (i : Interface g.Wire) (t : Target f) where
  pub drain_with-parts :
      (table : Bytes) (pending : Pending f) (y : Result (Unit {0}) × (Syncer t × ℕ))
      (rest : Pending f → Syncer t → Option (Pending f × Syncer t)) (z : Pending f × Syncer t)
      → drain_with g i t table pending y rest ≡ some z
      → (y.0 ≡ ok tt) × (rest (dequeue table pending) y.1.0 ≡ some z)
  drain_with-parts table pending (ok _, (s, count)) rest z h = (refl, h)
  drain_with-parts table pending (err e, x) rest z h = cc
  drain_with-parts table pending (panic, x) rest z h = cc

  continue-next :
      (x : Progress × World g i t) (rest : World g i t → Progress × World g i t)
      → x.0 ≡ next
      → continue g i t x rest ≡ rest x.1
  continue-next (next, w) rest h = refl
  continue-next (blocked, w) rest h = cc
  continue-next (panicked, w) rest h = cc

  dequeue-Encoded :
      (table name : Bytes) (pending : Pending f) (l : List g.Wire)
      → Encoded g l (pending name)
      → Encoded g (if same bucket table bucket name then [] else l) (dequeue table pending name)
  unfolding eqb
  dequeue-Encoded table name pending l h = elim (Bool-cases (eqb table name)) [
    | inl e ↦ rw e tt
    | inr e ↦ rw e h
  ]

  -- What is dequeued keeps its type.
  pub dequeue-AllTyped :
      (table name : Bytes) (p : Struct f) (pending : Pending f)
      → AllTyped g i t name p (pending name)
      → AllTyped g i t name p (dequeue table pending name)
  dequeue-AllTyped table name p pending h = elim (Bool-cases (eqb table name)) [
    | inl e ↦ rw e tt
    | inr e ↦ rw e h
  ]

  pub drain-AllTyped :
      (models : List (Bytes × Struct f)) (pending : Pending f) (s : Syncer t)
      (z : Pending f × Syncer t)
      → drain g i t models pending s ≡ some z
      → (name : Bytes) (p : Struct f) → AllTyped g i t name p (pending name)
      → AllTyped g i t name p (z.0 name)
  drain-AllTyped [] pending s z h name p ty =
      subst (λ (z : Pending f × Syncer t). AllTyped g i t name p (z.0 name)) (some-injective h) ty
  drain-AllTyped ((table, _) ∷ models) pending s z h name p ty =
      let (_, later) = drain_with-parts table pending _ (drain g i t models) z h in
      drain-AllTyped models (dequeue table pending) _ z later name p
        (dequeue-AllTyped table name p pending ty)

  -- The entries of the models are of the types of what waits.
  abbrev pub Typed : Pending f → List (Bytes × Struct f) → Type 0
  Typed pending = All (λ (e : Bytes × Struct f). AllTyped g i t e.0 e.1 (pending e.0))

  dequeue-Typed :
      (table : Bytes) (pending : Pending f) (models : List (Bytes × Struct f))
      → Typed pending models
      → Typed (dequeue table pending) models
  dequeue-Typed table pending [] h = tt
  dequeue-Typed table pending ((name, p) ∷ models) h =
      (dequeue-AllTyped table name p pending h.0, dequeue-Typed table pending models h.1)

  module _ (sizes : (b k : Bytes) (db : i.State) → (n : ℕ) × ((i.size b k db).0 ≡ ok n))
      (lists : (b k : Bytes) (db : i.State) → (l : List g.Wire) × ((i.get_all_key b k db).0 ≡ ok l))
      (rems : (b k : Bytes) (n : ℕ) (db : i.State)
        → 0 < n
        → n ≤ length (i.queue db b k)
        → (i.rem b k n db).0 ≡ ok tt) where
    -- What a scan comes to.
    abbrev pub Scanned : Progress × World g i t → Pending f × Syncer t → Type 0
    Scanned x z =
        (x.0 ≡ next)
        × (x.1.syncer ≡ z.1)
        × ((name : Bytes) → Encoded g (i.queue x.1.db bucket name) (z.0 name))

    pub sync_all_models-Scanned :
        (models : List (Bytes × Struct f)) (pending : Pending f) (w : World g i t)
        (z : Pending f × Syncer t)
        → Typed pending models
        → ((name : Bytes) → Encoded g (i.queue w.db bucket name) (pending name))
        → drain g i t models pending w.syncer ≡ some z
        → Scanned (sync_all_models g i t false models w) z
    unfolding sync_all_models
    sync_all_models-Scanned [] pending w z ty es h =
        subst (λ (z : Pending f × Syncer t). Scanned (next, w) z) (some-injective h)
          (refl, refl, es)
    sync_all_models-Scanned ((table, p) ∷ models) pending w z ty es h =
        let x = sync_table g i t false table p w in
        let y = deliver g i t table (pending table) (w.syncer, 0) in
        let (delivered, later) = drain_with-parts table pending y (drain g i t models) z h in
        let (goes_on, syncer, queues) =
          sync_table-Encoded g i t table sizes lists rems p (pending table) w ty.0 (es table)
            delivered in
        rw (continue-next x (λ w'. sync_all_models g i t false models w') goes_on) (
          sync_all_models-Scanned models (dequeue table pending) x.1 z
            (dequeue-Typed table pending models ty.1)
            (λ name.
              rw (queues bucket name)
                (dequeue-Encoded table name pending (i.queue w.db bucket name) (es name)))
            (rw syncer later))
