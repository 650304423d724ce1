-- ===== src/Db/Inmem/Queue.antt =====
-- The in-memory storage as lists in buckets: what each method does to every list.
use mysql_to_mssql.Base.{
  ℕ, panic, ◌<◌, ◌≤◌, leb, true, ◌≡◌, Dict, lookup-nil, ◌∙◌, ap, ◌≢◌, erase, Option-cases, inl, inr,
  List, [], ◌∷◌, ◌++◌, none, some, refl, Bool-cases, eqb, arith, Bytes, eqb_iff, eqb_refl, length,
  drop, lookup, insert, lookup-insert, lookup-erase, ok, if◌then◌else◌,
}
use mysql_to_mssql.Db.Interface.{Entry, Interface, same}
use mysql_to_mssql.Db.Inmem.{
  first_values, Inmem, bucket_of, items, assign, init_bucket, init_key, init_map, release, dir,
  set_dir, engine, get_all, get_all_key, put, push, rem, size, truncate,
}

module _ {V : Type 0} where
  items-init_bucket :
      (b : Bytes) (m : Inmem V) (b' k' : Bytes) → items b' k' (init_bucket b m) ≡ items b' k' m
  unfolding items bucket_of init_bucket
  items-init_bucket b m b' k' =
      ground (arith, lookup-insert b b' [] m, eqb_iff b b', lookup-nil {V = List V} k')

  lookup-init_bucket : (b : Bytes) (m : Inmem V) → lookup b (init_bucket b m) ≡ some (bucket_of b m)
  unfolding init_bucket bucket_of
  lookup-init_bucket b m = ground (arith, lookup-insert b b [] m, eqb_refl b)

  -- Where the bucket is there, an assignment ends well and changes one list.
  module _ (b k : Bytes) (l : List V) (m : Inmem V) {d : Dict (List V)}
      (e : lookup b m ≡ some d) where
    pub assign_ok : (assign b k l m).0 ≡ ok tt
    unfolding assign
    assign_ok = ground arith

    pub items-assign :
        (b' k' : Bytes)
        → items b' k' (assign b k l m).1 ≡ (if same b k b' k' then l else items b' k' m)
    unfolding assign items bucket_of
    items-assign b' k' = ground (
      arith,
      eqb_iff b b',
      eqb_iff k k',
      lookup-insert b b' (insert k l d) m,
      lookup-insert k k' l d,
    )

    lookup-assign : lookup b (assign b k l m).1 ≡ some (insert k l d)
    unfolding assign
    lookup-assign = ground (arith, lookup-insert b b (insert k l d) m, eqb_refl b)

  items-assign_ok :
      (b k : Bytes) (l : List V) (m : Inmem V) (b' k' : Bytes)
      → (assign b k l m).0 ≡ ok tt
      → items b' k' (assign b k l m).1 ≡ (if same b k b' k' then l else items b' k' m)
  items-assign_ok b k l m b' k' h = elim (Option-cases (lookup b m)) [
    | inl e ↦ absurd (assign_fails e h)
    | inr (d, e) ↦ items-assign b k l m e b' k'
  ]
    where
      assign_fails : lookup b m ≡ none → (assign b k l m).0 ≢ ok tt
      assign_fails e = unfold assign in ground arith

  -- initMap makes the bucket, keeps every list, and a list that was missing is empty.
  items-init_key :
      (b k : Bytes) (m : Inmem V) {d : Dict (List V)}
      → lookup b m ≡ some d
      → (b' k' : Bytes) → items b' k' (init_key b k m) ≡ items b' k' m
  unfolding init_key items bucket_of
  items-init_key b k m {d} e b' k' =
      ground (arith, eqb_iff b b', eqb_iff k k', items-assign b k [] m e b' k')

  pub items-init_map :
      (b k : Bytes) (m : Inmem V) (b' k' : Bytes) → items b' k' (init_map b k m) ≡ items b' k' m
  unfolding init_map
  items-init_map b k m b' k' =
      items-init_key b k (init_bucket b m) (lookup-init_bucket b m) b' k'
      ∙ items-init_bucket b m b' k'

  lookup-init_key :
      (b k : Bytes) (m : Inmem V) {d : Dict (List V)}
      → lookup b m ≡ some d
      → lookup b (init_key b k m) ≡ some (bucket_of b (init_key b k m))
  unfolding init_key bucket_of assign
  lookup-init_key b k m {d} e = ground (arith, lookup-insert b b (insert k [] d) m, eqb_refl b)

  pub lookup-init_map :
      (b k : Bytes) (m : Inmem V) → lookup b (init_map b k m) ≡ some (bucket_of b (init_map b k m))
  unfolding init_map
  lookup-init_map b k m = lookup-init_key b k (init_bucket b m) (lookup-init_bucket b m)

  items-erase :
      (b k : Bytes) (m : Inmem V) (b' k' : Bytes)
      → items b' k' (insert b (erase k (bucket_of b m)) m)
        ≡ (if same b k b' k' then [] else items b' k' m)
  unfolding items bucket_of
  items-erase b k m b' k' = ground (
    arith,
    eqb_iff b b',
    eqb_iff k k',
    lookup-insert b b' (erase k (bucket_of b m)) m,
    lookup-erase k k' (bucket_of b m),
    lookup-nil {V = List V} k',
  )

  module _ (m : Inmem V) (b k : Bytes) where
    pub push_ok : (v : V) → (push b k v m).0 ≡ ok tt
    unfolding push
    push_ok v = assign_ok b k _ (init_map b k m) (lookup-init_map b k m)

    -- Push appends one value to one list, and changes no other.
    pub items-push :
        (v : V) (b' k' : Bytes)
        → items b' k' (push b k v m).1
          ≡ (if same b k b' k' then items b k m ++ v ∷ [] else items b' k' m)
    unfolding push
    items-push v b' k' =
        rw (items-assign b k _ (init_map b k m) (lookup-init_map b k m) b' k') (simp items-init_map)

    pub items-size : (b' k' : Bytes) → items b' k' (size b k m).1 ≡ items b' k' m
    unfolding size
    items-size = items-init_map b k m

    pub items-get_all_key : (b' k' : Bytes) → items b' k' (get_all_key b k m).1 ≡ items b' k' m
    unfolding get_all_key
    items-get_all_key = items-init_map b k m

    pub get_all_key-eq-items : (get_all_key b k m).0 ≡ ok (items b k m)
    unfolding get_all_key
    get_all_key-eq-items = ap ok (items-init_map b k m b k)

    pub size-eq-length : (size b k m).0 ≡ ok (length (items b k m))
    unfolding size
    size-eq-length = ap (λ (l : List V). ok (length l)) (items-init_map b k m b k)

    -- Truncate empties one list, and changes no other.
    pub items-truncate :
        (b' k' : Bytes)
        → items b' k' (truncate b k m).1 ≡ (if same b k b' k' then [] else items b' k' m)
    unfolding truncate
    items-truncate b' k' =
        items-erase b k (init_map b k m) b' k'
        ∙ ap (λ (l : List V). if same b k b' k' then [] else l) (items-init_map b k m b' k')

  -- A Rem that does not panic takes `n` values from the left of one list, and changes no other.
  pub items-rem :
      (m : Inmem V) (b k : Bytes) (n : ℕ) (b' k' : Bytes)
      → (rem b k n m).0 ≡ ok tt
      → items b' k' (rem b k n m).1
        ≡ (if same b k b' k' then drop n (items b k m) else items b' k' m)
  unfolding rem
  items-rem m b k n b' k' h = ground (arith, items-assign_ok b k (drop n (items b k m)) m b' k')

  no_bucket : (m : Inmem V) (b k : Bytes) → lookup b m ≡ none → length (items b k m) ≡ 0
  unfolding items bucket_of
  no_bucket m b k e = ground (arith, lookup-nil {V = List V} k)

  -- Rem of at most as many values as there are, and at least one, does not panic.
  pub rem_ok :
      (m : Inmem V) (b k : Bytes) (n : ℕ)
      → 0 < n
      → n ≤ length (items b k m)
      → (rem b k n m).0 ≡ ok tt
  unfolding rem
  rem_ok m b k n h₁ h₂ = elim (Option-cases (lookup b m)) [
    | inl e ↦ absurd (omega (arith, no_bucket m b k e))
    | inr (d, e) ↦ rw (enough n h₂) (assign_ok b k (drop n (items b k m)) m e)
  ]
    where
      enough : (n : ℕ) → n ≤ length (items b k m) → leb n (length (items b k m)) ≡ true
      enough n h = ground arith

  first_values-empty :
      (k : Bytes) (d : Dict (List V)) (entries : List (Entry V))
      → lookup k d ≡ some []
      → first_values d entries ≡ panic
  unfolding first_values lookup
  first_values-empty k [] entries h = cc
  first_values-empty k ((k', []) ∷ d) entries h = refl
  first_values-empty k ((k', v ∷ vs) ∷ d) entries h = elim (Bool-cases (eqb k' k)) [
    | inl e ↦ ground arith
    | inr e ↦ first_values-empty k d (entries ++ record { key = k'; value = v } ∷ []) (ground arith)
  ]

  lookup-init_key-none :
      (b k : Bytes) (m : Inmem V) {d : Dict (List V)}
      → lookup b m ≡ some d
      → lookup k d ≡ none
      → lookup k (bucket_of b (init_key b k m)) ≡ some []
  unfolding init_key bucket_of assign
  lookup-init_key-none b k m {d} e h =
      ground
        (arith, lookup-insert b b (insert k [] d) m, lookup-insert k k [] d, eqb_refl b, eqb_refl k)

  -- GetAll of a bucket panics once Size was asked for a key that it does not have.
  pub get_all-size :
      (m : Inmem V) (b k : Bytes)
      → lookup k (bucket_of b m) ≡ none
      → (get_all b (size b k m).1).0 ≡ panic
  unfolding get_all size init_map
  get_all-size m b k h =
      first_values-empty k _ []
        (lookup-init_key-none b k (init_bucket b m) (lookup-init_bucket b m) h)

  -- The in-memory storage keeps what the interface promises.
  abbrev pub inmem : Interface V
  inmem = record {
    State = Inmem V;
    release = release;
    dir = dir;
    set_dir = set_dir;
    engine = engine;
    get_all = get_all;
    get_all_key = get_all_key;
    put = put;
    push = push;
    rem = rem;
    size = size;
    truncate = truncate;
    queue = λ s b k. items b k s;
    queue-push = λ s b k v b' k' h. items-push s b k v b' k';
    queue-push_fails = λ s b k v b' k' h. absurd (h (push_ok s b k v));
    queue-rem = λ s b k n b' k' _ _ h. items-rem s b k n b' k' h;
    get_all_key_lem = λ s b k l h. cc (get_all_key-eq-items s b k);
    queue-get_all_key = items-get_all_key;
    size_lem = λ s b k n h. cc (size-eq-length s b k);
    queue-size = items-size;
  }
