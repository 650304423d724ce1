-- ===== src/Db/Inmem/Saved.antt =====
-- db/inmemdb.go: the in-memory storage as one value for each key of a bucket, the first of its list.
use mysql_to_mssql.Base.{
  Distinct, insert-Distinct, ◌⊎◌, ◌≡◌, refl, sym, ◌∙◌, ◌==◌, false, if◌then◌else◌, Bool-cases, inl,
  inr, List, [], ◌∷◌, ◌++◌, Option, none, some, All, Bytes, eqb, length, Dict, lookup, insert,
  lookup-insert, ok, arith, Option-cases,
}
use mathlib.Core.Path.{subst}
use mysql_to_mssql.Db.Interface.{Entry, same}
use mysql_to_mssql.Db.Saves.{has_key, Saves}
use mysql_to_mssql.Db.Inmem.{
  Inmem, bucket_of, items, assign, init_bucket, init_key, init_map, set_first, get_all, push, put,
}
use mysql_to_mssql.Db.Inmem.Queue.{
  items-push, inmem, items-assign, assign_ok, items-init_map, lookup-init_map,
}
use mysql_to_mssql.Db.Inmem.Firsts.{
  first, first_values-eq-firsts, first_at, firsts_saved, firsts_all,
}

module _ {V : Type 0} where
  abbrev pub IsSound : Inmem V → Type 0
  IsSound m = (b : Bytes) → Distinct (bucket_of b m)

  abbrev pub saved : Inmem V → Bytes → Bytes → Option V
  saved m b k = first (items b k m)

  -- The list that a Put leaves.
  put_list : V → List V → List V
  put_list v l = if length l == 0 then l ++ v ∷ [] else set_first v l

  put-assign :
      (b k : Bytes) (v : V) (m : Inmem V)
      → put b k v 0 m ≡ assign b k (put_list v (items b k (init_map b k m))) (init_map b k m)
  unfolding put put_list
  put-assign b k v m = ground arith

  -- A list with a value in place of its first.
  abbrev pub with_first : V → List V → List V
  with_first v [] = v ∷ []
  with_first v (_ ∷ l) = v ∷ l

  put_list-eq-with_first : (v : V) (l : List V) → put_list v l ≡ with_first v l
  unfolding put_list set_first
  put_list-eq-with_first v [] = refl
  put_list-eq-with_first v (w ∷ l) = ground arith

  pub items-put :
      (b k : Bytes) (v : V) (m : Inmem V) (b' k' : Bytes)
      → items b' k' (put b k v 0 m).1
        ≡ (if same b k b' k' then with_first v (items b k m) else items b' k' m)
  items-put b k v m b' k' =
      rw
        (
          put-assign b k v m,
          items-assign b k (put_list v (items b k (init_map b k m))) (init_map b k m)
              (lookup-init_map b k m) b' k',
          put_list-eq-with_first v (items b k (init_map b k m)),
        )
        (simp items-init_map)

  pub put_ok : (b k : Bytes) (v : V) (m : Inmem V) → (put b k v 0 m).0 ≡ ok tt
  put_ok b k v m =
      rw (put-assign b k v m) (assign_ok b k _ (init_map b k m) (lookup-init_map b k m))

  first-with_first : (v : V) (l : List V) → first (with_first v l) ≡ some v
  first-with_first v [] = refl
  first-with_first v (w ∷ l) = refl

  pub saved-put :
      (m : Inmem V) (b k : Bytes) (v : V) (b' k' : Bytes)
      → saved (put b k v 0 m).1 b' k' ≡ (if same b k b' k' then some v else saved m b' k')
  saved-put m b k v b' k' = rw (items-put b k v m b' k') (elim (Bool-cases (same b k b' k')) [
    | inl e ↦ rw e (first-with_first v (items b k m))
    | inr e ↦ rw e refl
  ])

  bucket_of-insert :
      (b : Bytes) (d : Dict (List V)) (m : Inmem V) (b' : Bytes)
      → bucket_of b' (insert b d m) ≡ (if eqb b b' then d else bucket_of b' m)
  unfolding bucket_of
  bucket_of-insert b d m b' = ground (arith, lookup-insert b b' d m)

  insert-IsSound :
      (b : Bytes) (d : Dict (List V)) (m : Inmem V)
      → IsSound m
      → Distinct d
      → IsSound (insert b d m)
  insert-IsSound b d m h hd b' = elim (Bool-cases (eqb b b')) [
    | inl e ↦ rw (bucket_of-insert b d m b', e) hd
    | inr e ↦ rw (bucket_of-insert b d m b', e) (h b')
  ]

  -- An assignment and the two halves of initMap leave the storage or store a map in it.
  Stores : Bytes → Inmem V → Inmem V → Type 0
  Stores b m m' = (m' ≡ m) ⊎ ((d : Dict (List V)) × Distinct d × (m' ≡ insert b d m))

  Stores-IsSound : (b : Bytes) (m m' : Inmem V) → IsSound m → Stores b m m' → IsSound m'
  unfolding Stores
  Stores-IsSound b m m' h (inl e) = subst IsSound (sym e) h
  Stores-IsSound b m m' h (inr (d, hd, e)) = subst IsSound (sym e) (insert-IsSound b d m h hd)

  bucket-eq :
      (b : Bytes) (m : Inmem V) {d : Dict (List V)} → lookup b m ≡ some d → bucket_of b m ≡ d
  unfolding bucket_of
  bucket-eq b m e = ground arith

  assign-IsSound : (b k : Bytes) (l : List V) (m : Inmem V) → IsSound m → IsSound (assign b k l m).1
  assign-IsSound b k l m h = Stores-IsSound b m _ h (
      unfold Stores assign in
      elim (Option-cases (lookup b m)) [
        | inl e ↦ inl (ground arith)
        | inr (d, e) ↦ inr (
          insert k l d,
          insert-Distinct k l d (subst Distinct (bucket-eq b m e) (h b)),
          ground arith,
        )
      ])

  init_bucket-IsSound : (b : Bytes) (m : Inmem V) → IsSound m → IsSound (init_bucket b m)
  init_bucket-IsSound b m h = Stores-IsSound b m _ h (
      unfold Stores init_bucket in
      elim (Option-cases (lookup b m)) [
        | inl e ↦ inr ([], tt, ground arith)
        | inr (d, e) ↦ inl (ground arith)
      ])

  key_missing :
      (b k : Bytes) (m : Inmem V)
      → lookup k (bucket_of b m) ≡ none
      → init_key b k m ≡ (assign b k [] m).1
  unfolding init_key
  key_missing b k m e = ground arith

  key_there :
      (b k : Bytes) (m : Inmem V) {l : List V}
      → lookup k (bucket_of b m) ≡ some l
      → init_key b k m ≡ m
  unfolding init_key
  key_there b k m e = ground arith

  init_key-IsSound : (b k : Bytes) (m : Inmem V) → IsSound m → IsSound (init_key b k m)
  init_key-IsSound b k m h = elim (Option-cases (lookup k (bucket_of b m))) [
    | inl e ↦ rw (key_missing b k m e) (assign-IsSound b k [] m h)
    | inr (d, e) ↦ rw (key_there b k m e) h
  ]

  pub put-IsSound : (m : Inmem V) (b k : Bytes) (v : V) → IsSound m → IsSound (put b k v 0 m).1
  unfolding init_map
  put-IsSound m b k v h =
      rw (put-assign b k v m) (
        assign-IsSound b k _ _ (init_key-IsSound b k (init_bucket b m) (init_bucket-IsSound b m h)))

  pub push-IsSound : (m : Inmem V) (b k : Bytes) (v : V) → IsSound m → IsSound (push b k v m).1
  unfolding init_map push
  push-IsSound m b k v h =
      assign-IsSound b k _ _ (init_key-IsSound b k (init_bucket b m) (init_bucket-IsSound b m h))

  pub saved-push :
      (m : Inmem V) (b k : Bytes) (v : V) (b' k' : Bytes)
      → eqb b b' ≡ false
      → saved (push b k v m).1 b' k' ≡ saved m b' k'
  saved-push m b k v b' k' e = rw (items-push m b k v b' k', e) refl

  saved-first_at : (m : Inmem V) (b k : Bytes) → saved m b k ≡ first_at (bucket_of b m) k
  unfolding items
  saved-first_at m b k = ground arith

  pub entries_saved :
      (m : Inmem V) (b : Bytes) (l : List (Entry V))
      → IsSound m
      → (get_all b m).0 ≡ ok l
      → All (λ e. saved m b e.key ≡ some e.value) l
  unfolding get_all
  entries_saved m b l h e =
      subst (All (λ e. saved m b e.key ≡ some e.value))
        (sym (first_values-eq-firsts (bucket_of b m) [] l e))
        (simp saved-first_at (firsts_saved (bucket_of b m) (h b)))

  pub entries_all :
      (m : Inmem V) (b : Bytes) (l : List (Entry V)) (k : Bytes)
      → (get_all b m).0 ≡ ok l
      → has_key k l ≡ false
      → saved m b k ≡ none
  unfolding get_all
  entries_all m b l k e n =
      saved-first_at m b k
      ∙ firsts_all k (bucket_of b m)
          (subst (λ l. has_key k l ≡ false) (first_values-eq-firsts (bucket_of b m) [] l e) n)

  abbrev pub inmem_saves : Saves (inmem {V = V})
  inmem_saves = record {
    saved = saved;
    IsSound = IsSound;
    put-IsSound = λ s b k v h _. put-IsSound s b k v h;
    saved-put = λ s b k v b' k' _ _. saved-put s b k v b' k';
    push-IsSound = push-IsSound;
    saved-push = λ s b k v b' k' _. saved-push s b k v b' k';
    entries_saved = entries_saved;
    entries_all = λ s b l k _. entries_all s b l k;
  }
