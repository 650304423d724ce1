-- ===== src/Api/Replication.antt =====
-- What the program is for: the changes that the binlog reports are applied to the target, each
-- once and in the order of their table. The abstract program keeps them in a queue for each table.
pub mod Scans
pub mod Events
pub mod Refines
pub mod Sql
pub mod EndToEnd
use mysql_to_mssql.Base.{
  Distinct, ℕ, ◌≡◌, true, List, [], ◌∷◌, ◌++◌, map, Option, none, some, Bytes, Dict, lookup, eqb,
  Result, ok, err, panic, Call, if◌then◌else◌,
}
use mysql_to_mssql.Base.Calls.{after}
use mysql_to_mssql.Reflect.{Foreign, Struct}
use mysql_to_mssql.Db.Interface.{Interface}
use mysql_to_mssql.Parser.Cells.{RowsEvent}
use mysql_to_mssql.Parser.Rows.{Callback, on_row}
use mysql_to_mssql.Syncer.Gob.{Gob}
use mysql_to_mssql.Syncer.Store.{bucket}
use mysql_to_mssql.Syncer.Store.RoundTrip.{Event}
use mysql_to_mssql.Syncer.Target.{Target}
use mysql_to_mssql.Syncer.Writer.{Syncer}
use mysql_to_mssql.Syncer.Schedule.{waiting}
use mysql_to_mssql.Syncer.Service.Delivery.{deliver, AllTyped}
use mysql_to_mssql.Syncer.Service.Backlog.{Encoded}
use mysql_to_mssql.Api.Models.{Dynamic}
use mysql_to_mssql.Api.{Packages, Api, Running}
use mysql_to_mssql.Api.Lifecycle.{tick}
use mysql_to_mssql.Api.Events.{on_event}
use mysql_to_mssql.Api.Events.Pipeline.{change_of}

-- What happens: an event of the binlog, or the ticker fires.
pub data Input (f : Foreign) : Type 0 where
  arrives : RowsEvent f → Input f
  ticks : Input f

-- The changes that wait, by table.
abbrev pub Pending : Foreign → Type 0
Pending f = Bytes → List (Event f)

module _ {f : Foreign} where
  abbrev pub enqueue : Bytes → List (Event f) → Pending f → Pending f
  enqueue table evs pending name = if eqb table name then pending name ++ evs else pending name

  abbrev pub dequeue : Bytes → Pending f → Pending f
  dequeue table pending name = if eqb table name then [] else pending name

module _ {f : Foreign} (g : Gob f) (i : Interface g.Wire) (t : Target f) where
  pub record Replica : Type 0 where
    pub models : Dict (Struct f)
    pub pending : Pending f
    pub syncer : Syncer t

  -- Where the parser reads the event.
  abbrev pub receive :
      Bytes → Result (List (Callback f) × Dict (Struct f)) → Replica → Option Replica
  receive table (ok (calls, models)) r =
      some (record r { models = models; pending = enqueue table (map change_of calls) r.pending })
  receive table (err e) r = none
  receive table panic r = none

  -- Where no change fails at the target: one table after the other, each with all that waits for it.
  abbrev pub drain_with :
      Bytes
      → Pending f
      → Result (Unit {0}) × (Syncer t × ℕ)
      → (Pending f → Syncer t → Option (Pending f × Syncer t))
      → Option (Pending f × Syncer t)
  drain_with table pending (ok _, (s, count)) rest = rest (dequeue table pending) s
  drain_with table pending (err e, x) rest = none
  drain_with table pending (panic, x) rest = none

  abbrev pub drain : List (Bytes × Struct f) → Pending f → Syncer t → Option (Pending f × Syncer t)
  drain [] pending s = some (pending, s)
  drain ((table, _) ∷ models) pending s =
      drain_with table pending (deliver g i t table (pending table) (s, 0)) (drain models)

  abbrev pub drained : Option (Pending f × Syncer t) → Replica → Option Replica
  drained none r = none
  drained (some (pending, s)) r = some (record r { pending = pending; syncer = s })

  abbrev pub replicate : Input f → Replica → Option Replica
  replicate (arrives e) r = receive e.table (on_row e r.models) r
  replicate ticks r = drained (drain r.models r.pending r.syncer) r

  abbrev pub replicate_on : Option Replica → (Replica → Option Replica) → Option Replica
  replicate_on none k = none
  replicate_on (some r) k = k r

  abbrev pub replicate_all : List (Input f) → Replica → Option Replica
  replicate_all [] r = some r
  replicate_all (x ∷ xs) r = replicate_on (replicate x r) (replicate_all xs)

module _ {f : Foreign} (g : Gob f) (i : Interface g.Wire) (t : Target f) (d : Dynamic)
    (k : Packages g.Wire) where
  -- The same inputs to the API: the handler of events, and a tick of its syncer's goroutine.
  abbrev pub run : Input f → Call (Api g i t d k) Unit
  run (arrives e) a = on_event g i t d k e a
  run ticks a = (ok tt, tick g i t d k a)

  abbrev pub run_all : List (Input f) → Call (Api g i t d k) Unit
  run_all [] a = (ok tt, a)
  run_all (x ∷ xs) a = after (run x a) (λ _ a'. run_all xs a')

  -- The API is that of the replica: its syncer waits at its select, and the log of each table is
  -- what waits for the table, of the type of its model.
  pub record Replicates (a : Api g i t d k) (r : Replica g i t) : Type 0 where
    pub running : Running g i t d k
    pub starts : a.syncer ≡ some running
    pub waits : running.worker ≡ waiting
    pub logs : a.log_store ≡ true
    pub same_target : running.syncer ≡ r.syncer
    pub same_models : a.data_models ≡ r.models
    pub distinct : Distinct r.models
    pub encoded :
        (table : Bytes) → Encoded g (i.queue a.db_interface bucket table) (r.pending table)
    pub typed :
        (table : Bytes) (p : Struct f)
        → lookup table r.models ≡ some p
        → AllTyped g i t table p (r.pending table)
