-- ===== src/Db/Inmem.antt =====
-- db/inmemdb.go: the in-memory storage. Methods have value receivers: what they do to the map is
-- seen by every copy, and what they assign to the field `mockdb` is lost.
pub mod Queue
pub mod Firsts
pub mod Saved
pub mod Replay
use mysql_to_mssql.Base.{
  ℕ, List, [], ◌∷◌, ◌++◌, none, some, ◌==◌, leb, Bytes, codes, length, drop, Dict, lookup, insert,
  erase, Result, ok, panic, Call, if◌then◌else◌,
}
use mysql_to_mssql.Db.Interface.{Entry}

-- bucket -> key -> values. A nil slice and an empty one are alike to every method.
abbrev pub Inmem : Type 0 → Type 0
Inmem V = Dict (Dict (List V))

module _ {V : Type 0} where
  -- i.mockdb[bucket], where a missing map reads as an empty one
  unfoldable pub bucket_of : Bytes → Inmem V → Dict (List V)
  bucket_of b m = elim (lookup b m) [ none ↦ [] | some d ↦ d ]

  -- i.mockdb[bucket][key]
  unfoldable pub items : Bytes → Bytes → Inmem V → List V
  items b k m = elim (lookup k (bucket_of b m)) [ none ↦ [] | some l ↦ l ]

  -- i.mockdb[bucket][key] = l, a panic if the inner map is nil
  unfoldable pub assign : Bytes → Bytes → List V → Call (Inmem V) Unit
  assign b k l m = elim (lookup b m) [
    | none ↦ (panic, m)
    | some d ↦ (ok tt, insert b (insert k l d) m)
  ]

  unfoldable pub init_bucket : Bytes → Inmem V → Inmem V
  init_bucket b m = elim (lookup b m) [ none ↦ insert b [] m | some d ↦ m ]

  unfoldable pub init_key : Bytes → Bytes → Inmem V → Inmem V
  init_key b k m = elim (lookup k (bucket_of b m)) [ none ↦ (assign b k [] m).1 | some l ↦ m ]

  unfoldable pub init_map : Bytes → Bytes → Inmem V → Inmem V
  init_map b k m = init_key b k (init_bucket b m)

  unfoldable pub use_inmem_db : Inmem V
  use_inmem_db = []

  -- The new map goes to the receiver's copy.
  unfoldable pub release : Call (Inmem V) Unit
  release m = let copy : Inmem V = [] in (ok tt, m)

  unfoldable pub dir : Inmem V → Bytes
  dir m = []

  -- It does nothing.
  unfoldable pub set_dir : Bytes → Inmem V → Inmem V
  set_dir path m = m

  unfoldable pub engine : Inmem V → Bytes
  engine m = codes "inmem"

  -- The loop of GetAll; v[0] panics on an empty list.
  unfoldable pub first_values : Dict (List V) → List (Entry V) → Result (List (Entry V))
  first_values [] entries = ok entries
  first_values ((k, []) ∷ d) entries = panic
  first_values ((k, v ∷ vs) ∷ d) entries =
      first_values d (entries ++ record { key = k; value = v } ∷ [])

  unfoldable pub get_all : Bytes → Call (Inmem V) (List (Entry V))
  get_all b m = (first_values (bucket_of b m) [], m)

  unfoldable pub get_all_key : Bytes → Bytes → Call (Inmem V) (List V)
  get_all_key b k m = let m' = init_map b k m in (ok (items b k m'), m')

  -- s[0] = value, on a slice that is not empty
  unfoldable pub set_first : V → List V → List V
  set_first v [] = []
  set_first v (_ ∷ vs) = v ∷ vs

  unfoldable pub put : Bytes → Bytes → V → ℕ → Call (Inmem V) Unit
  put b k v ttl m =
      let m' = init_map b k m in
      if length (items b k m') == 0
      then assign b k (items b k m' ++ v ∷ []) m'
      else assign b k (set_first v (items b k m')) m'

  unfoldable pub push : Bytes → Bytes → V → Call (Inmem V) Unit
  push b k v m = let m' = init_map b k m in assign b k (items b k m' ++ v ∷ []) m'

  -- s[count:] panics beyond the length
  unfoldable pub rem : Bytes → Bytes → ℕ → Call (Inmem V) Unit
  rem b k count m =
      if leb count (length (items b k m))
      then assign b k (drop count (items b k m)) m
      else (panic, m)

  unfoldable pub size : Bytes → Bytes → Call (Inmem V) ℕ
  size b k m = let m' = init_map b k m in (ok (length (items b k m')), m')

  -- delete(i.mockdb[bucket], key)
  unfoldable pub truncate : Bytes → Bytes → Call (Inmem V) Unit
  truncate b k m = let m' = init_map b k m in (ok tt, insert b (erase k (bucket_of b m')) m')
