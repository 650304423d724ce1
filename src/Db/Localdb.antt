-- ===== src/Db/Localdb.antt =====
-- db/nutsdb.go: the storage on disk, over the package nutsdb.
pub mod Queue
use mysql_to_mssql.Base.{
  ℕ, List, [], ◌∷◌, ◌++◌, map, Bytes, codes, eqb, Result, ok, err, panic, Call, if◌then◌else◌, ◌||◌,
}
use mysql_to_mssql.Db.Interface.{Entry}
use mysql_to_mssql.Db.Nuts.{Nuts}

pub record Options : Type 0 where
  pub dir : Bytes
  pub segment_size : ℕ

module _ {V : Type 0} (n : Nuts V) where
  pub record Localdb : Type 0 where
    pub db : n.Db
    pub config : Options

  -- An error of Open is a panic. (Options.SyncEnable is set.)
  unfoldable pub use_nuts_db : Options → Result Localdb
  use_nuts_db config = elim (n.open_db config.dir config.segment_size) [
    | ok db ↦ ok (record { db = db; config = config })
    | _ ↦ panic
  ]

  unfoldable pub release : Call Localdb Unit
  release s = let (r, db) = n.close_db s.db in (r, record s { db = db })

  unfoldable pub dir : Localdb → Bytes
  dir s = s.config.dir

  -- The receiver is a value: the new directory goes to a copy.
  unfoldable pub set_dir : Bytes → Localdb → Localdb
  set_dir path s = let copy : Localdb = record s { config = record (s.config) { dir = path } } in s

  -- The loop of GetAll over the entries of the transaction.
  unfoldable pub appended : List (Entry V) → List (Entry V) → List (Entry V)
  appended [] entries = entries
  appended (e ∷ es) entries = appended es (entries ++ record { key = e.key; value = e.value } ∷ [])

  -- The error of an empty bucket is ignored.
  unfoldable pub unless_empty : Bytes → Result (Unit {0})
  unless_empty e = if eqb e n.bucket_empty then ok tt else err e

  unfoldable pub read_entries : Result (List (Entry V)) → Call (List (Entry V)) Unit
  read_entries (ok es) entries = (ok tt, appended es entries)
  read_entries (err e) entries = (unless_empty e, entries)
  read_entries panic entries = (panic, entries)

  -- The results of a method with named results: the error, or what the function left.
  unfoldable pub named {ℓ} : {A : Type ℓ} → Result (Unit {0}) × A → Result A
  named (ok _, a) = ok a
  named (err e, a) = err e
  named (panic, a) = panic

  unfoldable pub get_all : Bytes → Call Localdb (List (Entry V))
  get_all b s = (named (n.view (λ tx. read_entries (n.get_all tx b)) s.db []), s)

  -- LRange assigns both results, also a nil list with an error.
  unfoldable pub read_list : Result (List V) → Call (List V) Unit
  read_list (ok l) list = (ok tt, l)
  read_list (err e) list = (unless_empty e, [])
  read_list panic list = (panic, list)

  unfoldable pub get_all_key : Bytes → Bytes → Call Localdb (List V)
  get_all_key b k s = (named (n.view (λ tx. read_list (n.l_range tx b k)) s.db []), s)

  unfoldable pub in_update : (n.Tx → Result n.Tx) → Call Localdb Unit
  in_update fn s = let (r, db) = n.update fn s.db in (r, record s { db = db })

  unfoldable pub put : Bytes → Bytes → V → ℕ → Call Localdb Unit
  put b k v ttl = in_update (n.put b k v ttl)

  unfoldable pub push : Bytes → Bytes → V → Call Localdb Unit
  push b k v = in_update (n.r_push b k v)

  unfoldable pub rem : Bytes → Bytes → ℕ → Call Localdb Unit
  rem b k count = in_update (n.l_rem b k count)

  -- Size has two variables, the size and the error; the function sets both, and returns the error.
  unfoldable pub read_size : Result ℕ → Call (Result ℕ) Unit
  read_size (ok size) vars = (ok tt, ok size)
  read_size (err e) vars = (err e, err e)
  read_size panic vars = (panic, panic)

  -- The error of View itself is dropped.
  unfoldable pub size : Bytes → Bytes → Call Localdb ℕ
  size b k s = ((n.view (λ tx. read_size (n.l_size tx b k)) s.db (ok 0)).1, s)

  unfoldable pub engine : Localdb → Bytes
  engine s = codes "nutsdb"

  -- An error of LRem is ignored if its text is one of two, and then nothing is written.
  unfoldable pub unless_missing : n.Tx → Result n.Tx → Result n.Tx
  unless_missing tx (ok tx') = ok tx'
  unless_missing tx (err e) =
      if eqb e (codes "the list not found") || eqb e (codes "err bucket") then ok tx else err e
  unless_missing tx panic = panic

  unfoldable pub truncate : Bytes → Bytes → Call Localdb Unit
  truncate b k = in_update (λ tx. unless_missing tx (n.l_rem b k 0 tx))
