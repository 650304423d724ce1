-- ===== src/Db/Interface.antt =====
-- db/types.go: the interface of the storage engine, with what its comments promise.
use mysql_to_mssql.Base.{
  ℕ, ◌≤◌, ◌<◌, ◌≡◌, ◌≢◌, List, [], ◌∷◌, ◌++◌, Bool, ◌&&◌, Bytes, eqb, length, drop, ok, Call,
  if◌then◌else◌,
}

-- A stored value is a []byte that the storage never reads: its type `V` is left open.
pub record Entry (V : Type 0) : Type 0 where
  pub key : Bytes
  pub value : V

abbrev pub same : Bytes → Bytes → Bytes → Bytes → Bool
same b k b' k' = eqb b b' && eqb k k'

pub record Interface (V : Type 0) : Type 1 where
  pub State : Type 0
  pub release : Call State Unit
  pub dir : State → Bytes
  pub set_dir : Bytes → State → State
  pub engine : State → Bytes
  pub get_all : Bytes → Call State (List (Entry V))
  pub get_all_key : Bytes → Bytes → Call State (List V)
  pub put : Bytes → Bytes → V → ℕ → Call State Unit
  pub push : Bytes → Bytes → V → Call State Unit
  pub rem : Bytes → Bytes → ℕ → Call State Unit
  pub size : Bytes → Bytes → Call State ℕ
  pub truncate : Bytes → Bytes → Call State Unit
  -- the list that is stored in a bucket at a key, oldest first
  pub queue : State → Bytes → Bytes → List V
  pub queue-push :
      (s : State) (b k : Bytes) (v : V) (b' k' : Bytes)
      → (push b k v s).0 ≡ ok tt
      → queue (push b k v s).1 b' k'
        ≡ (if same b k b' k' then queue s b k ++ v ∷ [] else queue s b' k')
  pub queue-push_fails :
      (s : State) (b k : Bytes) (v : V) (b' k' : Bytes)
      → (push b k v s).0 ≢ ok tt
      → queue (push b k v s).1 b' k' ≡ queue s b' k'
  pub queue-rem :
      (s : State) (b k : Bytes) (n : ℕ) (b' k' : Bytes)
      → 0 < n
      → n ≤ length (queue s b k)
      → (rem b k n s).0 ≡ ok tt
      → queue (rem b k n s).1 b' k'
        ≡ (if same b k b' k' then drop n (queue s b k) else queue s b' k')
  pub get_all_key_lem :
      (s : State) (b k : Bytes) (l : List V) → (get_all_key b k s).0 ≡ ok l → l ≡ queue s b k
  pub queue-get_all_key :
      (s : State) (b k b' k' : Bytes) → queue (get_all_key b k s).1 b' k' ≡ queue s b' k'
  pub size_lem :
      (s : State) (b k : Bytes) (n : ℕ) → (size b k s).0 ≡ ok n → n ≡ length (queue s b k)
  pub queue-size : (s : State) (b k b' k' : Bytes) → queue (size b k s).1 b' k' ≡ queue s b' k'
