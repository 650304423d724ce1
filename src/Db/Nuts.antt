-- ===== src/Db/Nuts.antt =====
-- The package nutsdb, as db/nutsdb.go calls it: transactions on buckets of values and of lists.
use mysql_to_mssql.Base.{
  ℕ, ◌≤◌, ◌<◌, ◌≡◌, ◌≢◌, Bool, true, false, List, [], ◌∷◌, ◌++◌, Option, Bytes, length, drop,
  Result, ok, err, Call, if◌then◌else◌,
}
use mysql_to_mssql.Db.Interface.{Entry, same}

-- What a bucket holds under a key, as a value and as a list.
pub record Shown (V : Type 0) : Type 0 where
  pub list : Bytes → Bytes → List V
  pub value : Bytes → Bytes → Option V

-- Databases and transactions with their documented behaviour. A database that is closed shows
-- nothing and begins no transaction.
pub record Nuts (V : Type 0) : Type 1 where
  pub Db : Type 0
  pub Tx : Type 0
  -- Open of a directory and a segment size, Close
  pub open_db : Bytes → ℕ → Result Db
  pub close_db : Call Db Unit
  -- DB.View and DB.Update: the function works on the variables that it captures
  pub view : {S : Type 0} → (Tx → Call S Unit) → Db → Call S Unit
  pub update : (Tx → Result Tx) → Call Db Unit
  -- tx.GetAll, tx.LRange(…, 0, -1), tx.LSize, tx.Put, tx.RPush, tx.LRem
  pub get_all : Tx → Bytes → Result (List (Entry V))
  pub l_range : Tx → Bytes → Bytes → Result (List V)
  pub l_size : Tx → Bytes → Bytes → Result ℕ
  pub put : Bytes → Bytes → V → ℕ → Tx → Result Tx
  pub r_push : Bytes → Bytes → V → Tx → Result Tx
  pub l_rem : Bytes → Bytes → ℕ → Tx → Result Tx
  -- the text of ErrBucketEmpty
  pub bucket_empty : Bytes
  pub is_open : Db → Bool
  pub shown : Db → Shown V
  -- what a transaction shows, and leaves when it is committed
  pub shown_tx : Tx → Shown V
  pub view_open :
      {S : Type 0} (fn : Tx → Call S Unit) (db : Db) (s : S)
      → is_open db ≡ true
      → (tx : Tx) × (shown_tx tx ≡ shown db)
        × ((view fn db s).1 ≡ (fn tx s).1)
        × ((view fn db s).0 ≡ ok tt → (fn tx s).0 ≡ ok tt)
  pub view_closed :
      {S : Type 0} (fn : Tx → Call S Unit) (db : Db) (s : S)
      → is_open db ≡ false
      → (e : Bytes) × (view fn db s ≡ (err e, s))
  pub shown_closed : (db : Db) (b k : Bytes) → is_open db ≡ false → (shown db).list b k ≡ []
  pub update_ok :
      (fn : Tx → Result Tx) (db : Db)
      → (update fn db).0 ≡ ok tt
      → (tx : Tx) × (tx' : Tx) × (shown_tx tx ≡ shown db)
        × (fn tx ≡ ok tx')
        × (shown (update fn db).1 ≡ shown_tx tx')
  pub update_fails :
      (fn : Tx → Result Tx) (db : Db) → (update fn db).0 ≢ ok tt → shown (update fn db).1 ≡ shown db
  pub l_range_lem :
      (tx : Tx) (b k : Bytes) (l : List V) → l_range tx b k ≡ ok l → l ≡ (shown_tx tx).list b k
  pub l_range_empty :
      (tx : Tx) (b k : Bytes) → l_range tx b k ≡ err bucket_empty → (shown_tx tx).list b k ≡ []
  pub l_size_lem :
      (tx : Tx) (b k : Bytes) (n : ℕ) → l_size tx b k ≡ ok n → n ≡ length ((shown_tx tx).list b k)
  pub r_push_lem :
      (b k : Bytes) (v : V) (tx tx' : Tx) (b' k' : Bytes)
      → r_push b k v tx ≡ ok tx'
      → (shown_tx tx').list b' k'
        ≡ (if same b k b' k' then (shown_tx tx).list b k ++ v ∷ [] else (shown_tx tx).list b' k')
  -- a positive count removes as many items from the left, and a count of 0 all of them
  pub l_rem_lem :
      (b k : Bytes) (n : ℕ) (tx tx' : Tx) (b' k' : Bytes)
      → 0 < n
      → n ≤ length ((shown_tx tx).list b k)
      → l_rem b k n tx ≡ ok tx'
      → (shown_tx tx').list b' k'
        ≡ (if same b k b' k' then drop n ((shown_tx tx).list b k) else (shown_tx tx).list b' k')
  pub l_rem_zero :
      (b k : Bytes) (tx tx' : Tx) (b' k' : Bytes)
      → l_rem b k 0 tx ≡ ok tx'
      → (shown_tx tx').list b' k' ≡ (if same b k b' k' then [] else (shown_tx tx).list b' k')
