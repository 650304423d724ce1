-- ===== src/Db/Saves.antt =====
-- What a storage engine promises of the values that Put saves and GetAll returns.
use mysql_to_mssql.Base.{
  ◌≡◌, Bool, false, ◌||◌, if◌then◌else◌, List, [], ◌∷◌, Option, none, some, All, Bytes, eqb, ok,
}
use mysql_to_mssql.Db.Interface.{Entry, Interface, same}

abbrev pub has_key : {V : Type 0} → Bytes → List (Entry V) → Bool
has_key k [] = false
has_key k (e ∷ es) = eqb e.key k || has_key k es

-- `IsSound` holds of the states that the engine gets into.
pub record Saves {V : Type 0} (i : Interface V) : Type 1 where
  pub saved : i.State → Bytes → Bytes → Option V
  pub IsSound : i.State → Type 0
  pub put-IsSound :
      (s : i.State) (b k : Bytes) (v : V)
      → IsSound s
      → (i.put b k v 0 s).0 ≡ ok tt
      → IsSound (i.put b k v 0 s).1
  pub saved-put :
      (s : i.State) (b k : Bytes) (v : V) (b' k' : Bytes)
      → IsSound s
      → (i.put b k v 0 s).0 ≡ ok tt
      → saved (i.put b k v 0 s).1 b' k' ≡ (if same b k b' k' then some v else saved s b' k')
  -- a Push is seen in its own bucket only
  pub push-IsSound : (s : i.State) (b k : Bytes) (v : V) → IsSound s → IsSound (i.push b k v s).1
  pub saved-push :
      (s : i.State) (b k : Bytes) (v : V) (b' k' : Bytes)
      → IsSound s
      → eqb b b' ≡ false
      → saved (i.push b k v s).1 b' k' ≡ saved s b' k'
  -- the entries of a bucket are what is saved in it
  pub entries_saved :
      (s : i.State) (b : Bytes) (l : List (Entry V))
      → IsSound s
      → (i.get_all b s).0 ≡ ok l
      → All (λ e. saved s b e.key ≡ some e.value) l
  pub entries_all :
      (s : i.State) (b : Bytes) (l : List (Entry V)) (k : Bytes)
      → IsSound s
      → (i.get_all b s).0 ≡ ok l
      → has_key k l ≡ false
      → saved s b k ≡ none
