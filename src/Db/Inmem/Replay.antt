-- ===== src/Db/Inmem/Replay.antt =====
-- The in-memory storage as an implementation of lists by bucket and key.
use mysql_to_mssql.Base.{
  some-injective, none_ne_some, ℕ, ltb, leb, ◌&&◌, ◌≡◌, ◌<◌, ◌≤◌, refl, sym, ap, ◌∙◌, Bool-cases,
  inl, inr, if◌then◌else◌, List, [], ◌∷◌, ◌++◌, Option, none, some, Bytes, length, drop, Result, ok,
  err, panic, Call, arith, ok-injective,
}
use mysql_to_mssql.Base.Calls.{after}
use mysql_to_mssql.Db.Interface.{same}
use mysql_to_mssql.Db.Inmem.{Inmem, items, put, push, rem, size, truncate, get_all_key}
use mysql_to_mssql.Db.Inmem.Queue.{
  items-push, push_ok, items-rem, rem_ok, items-truncate, items-size, size-eq-length,
  items-get_all_key, get_all_key-eq-items,
}
use mysql_to_mssql.Db.Inmem.Saved.{with_first, items-put, put_ok}
use mathlib.Core.Path.{subst}

-- The calls of the storage that work on one list, and what they return.
pub data Operation (V : Type 0) : Type 0 where
  pushes : Bytes → Bytes → V → Operation V
  puts : Bytes → Bytes → V → Operation V
  removes : Bytes → Bytes → ℕ → Operation V
  truncates : Bytes → Bytes → Operation V
  sizes : Bytes → Bytes → Operation V
  reads : Bytes → Bytes → Operation V

pub data Answer (V : Type 0) : Type 0 where
  done : Answer V
  count : ℕ → Answer V
  values : List V → Answer V

-- The abstract storage: a list for each bucket and key.
abbrev pub Queues : Type 0 → Type 0
Queues V = Bytes → Bytes → List V

abbrev pub bind : {A B : Type 0} → Option A → (A → Option B) → Option B
bind none k = none
bind (some a) k = k a

bind-eq-some :
    {A B : Type 0} (x : Option A) (k : A → Option B) {b : B}
    → bind x k ≡ some b
    → (a : A) × (x ≡ some a) × (k a ≡ some b)
bind-eq-some none k h = cc
bind-eq-some (some a) k h = (a, refl, h)

module _ {V : Type 0} where
  abbrev pub set : Bytes → Bytes → List V → Queues V → Queues V
  set b k l q b' k' = if same b k b' k' then l else q b' k'

  -- What an operation does to it: a removal takes at least one value, and no more than there are.
  abbrev pub perform : Operation V → Queues V → Option (Answer V × Queues V)
  perform (pushes b k v) q = some (done, set b k (q b k ++ v ∷ []) q)
  perform (puts b k v) q = some (done, set b k (with_first v (q b k)) q)
  perform (removes b k n) q =
      if ltb 0 n && leb n (length (q b k)) then some (done, set b k (drop n (q b k)) q) else none
  perform (truncates b k) q = some (done, set b k [] q)
  perform (sizes b k) q = some (count (length (q b k)), q)
  perform (reads b k) q = some (values (q b k), q)

  abbrev pub perform_all : List (Operation V) → Queues V → Option (List (Answer V) × Queues V)
  perform_all [] q = some ([], q)
  perform_all (o ∷ os) q =
      bind (perform o q) (λ y. bind (perform_all os y.1) (λ w. some (y.0 ∷ w.0, w.1)))

  -- The operations as calls of the code.
  abbrev pub run : Operation V → Call (Inmem V) (Answer V)
  run (pushes b k v) m = after (push b k v m) (λ _ m'. (ok done, m'))
  run (puts b k v) m = after (put b k v 0 m) (λ _ m'. (ok done, m'))
  run (removes b k n) m = after (rem b k n m) (λ _ m'. (ok done, m'))
  run (truncates b k) m = after (truncate b k m) (λ _ m'. (ok done, m'))
  run (sizes b k) m = after (size b k m) (λ n m'. (ok (count n), m'))
  run (reads b k) m = after (get_all_key b k m) (λ l m'. (ok (values l), m'))

  abbrev pub run_all : List (Operation V) → Call (Inmem V) (List (Answer V))
  run_all [] m = (ok [], m)
  run_all (o ∷ os) m = after (run o m) (λ x m'. after (run_all os m') (λ xs m₂. (ok (x ∷ xs), m₂)))

  -- A storage that holds the lists of an abstract one.
  abbrev pub Holds : Inmem V → Queues V → Type 0
  Holds m q = (b k : Bytes) → items b k m ≡ q b k

  -- What a run with a result comes to.
  abbrev Ends : {A : Type 0} → Result A × Inmem V → A → Queues V → Type 0
  Ends x a q = (x.0 ≡ ok a) × Holds x.1 q

  after-Ends :
      {A B : Type 0} (x : Result A × Inmem V) (a : A) (b : A → B) (q : Queues V)
      → x.0 ≡ ok a
      → Holds x.1 q
      → Ends (after x (λ c m'. (ok (b c), m'))) (b a) q
  after-Ends (ok c, m) a b q h hq = (ap (λ c. ok (b c)) (ok-injective h), hq)
  after-Ends (err e, m) a b q h hq = cc
  after-Ends (panic, m) a b q h hq = cc

  continued :
      {A B : Type 0} (x : Result A × Inmem V) {a : A} (k : A → Call (Inmem V) B) {b : B}
      {q : Queues V}
      → x.0 ≡ ok a
      → Ends (k a x.1) b q
      → Ends (after x k) b q
  continued (ok c, m) k {b} {q} h e = subst (λ c. Ends (k c m) b q) (sym (ok-injective h)) e
  continued (err e, m) k h _ = cc
  continued (panic, m) k h _ = cc

  -- A list of the storage after a write, where it held those of `q`.
  written :
      (m : Inmem V) (q : Queues V) (b k b' k' : Bytes) (l : List V → List V)
      → Holds m q
      → (if same b k b' k' then l (items b k m) else items b' k' m) ≡ set b k (l (q b k)) q b' k'
  written m q b k b' k' l h = rw (h b k, h b' k') refl

  perform-removes :
      (b k : Bytes) (n : ℕ) (q : Queues V) (z : Answer V × Queues V)
      → perform (removes b k n) q ≡ some z
      → (0 < n) × (n ≤ length (q b k)) × ((done, set b k (drop n (q b k)) q) ≡ z)
  perform-removes b k n q z e = elim (Bool-cases (ltb 0 n && leb n (length (q b k)))) [
    | inl p ↦ (ground arith, ground arith, some-injective (rw p at e))
    | inr p ↦ absurd (none_ne_some (rw p at e))
  ]

  -- The parts of a performance of several operations.
  perform_all-parts :
      (o : Operation V) (os : List (Operation V)) (q : Queues V) (z : List (Answer V) × Queues V)
      → perform_all (o ∷ os) q ≡ some z
      → (y : Answer V × Queues V) × (w : List (Answer V) × Queues V) × (perform o q ≡ some y)
        × (perform_all os y.1 ≡ some w)
        × ((y.0 ∷ w.0, w.1) ≡ z)
  perform_all-parts o os q z e =
      let rest =
        λ (y : Answer V × Queues V). bind (perform_all os y.1) (λ w. some (y.0 ∷ w.0, w.1)) in
      let (y, p, e₁) = bind-eq-some (perform o q) rest e in
      let (w, r, e₂) = bind-eq-some (perform_all os y.1) (λ w. some (y.0 ∷ w.0, w.1)) e₁ in
      (y, w, p, r, some-injective e₂)

  run-Ends :
      (o : Operation V) (m : Inmem V) (q : Queues V) (z : Answer V × Queues V)
      → Holds m q
      → perform o q ≡ some z
      → Ends (run o m) z.0 z.1
  run-Ends (pushes b k v) m q z h e =
      subst (λ z. Ends (run (pushes b k v) m) z.0 z.1) (some-injective e)
        (after-Ends (push b k v m) tt (λ _. done) _ (push_ok m b k v)
          (λ b' k'. items-push m b k v b' k' ∙ written m q b k b' k' (λ l. l ++ v ∷ []) h))
  run-Ends (puts b k v) m q z h e =
      subst (λ z. Ends (run (puts b k v) m) z.0 z.1) (some-injective e)
        (after-Ends (put b k v 0 m) tt (λ _. done) _ (put_ok b k v m)
          (λ b' k'. items-put b k v m b' k' ∙ written m q b k b' k' (with_first v) h))
  run-Ends (removes b k n) m q z h e =
      let (some_there, enough, same_end) = perform-removes b k n q z e in
      subst (λ z. Ends (run (removes b k n) m) z.0 z.1) same_end
        (let ends = rem_ok m b k n some_there (subst (λ l. n ≤ length l) (sym (h b k)) enough) in
          after-Ends (rem b k n m) tt (λ _. done) _ ends
            (λ b' k'. items-rem m b k n b' k' ends ∙ written m q b k b' k' (drop n) h))
  run-Ends (truncates b k) m q z h e =
      subst (λ z. Ends (run (truncates b k) m) z.0 z.1) (some-injective e)
        (after-Ends (truncate b k m) tt (λ _. done) _ (unfold truncate in refl)
          (λ b' k'. items-truncate m b k b' k' ∙ written m q b k b' k' (λ l. []) h))
  run-Ends (sizes b k) m q z h e =
      subst (λ z. Ends (run (sizes b k) m) z.0 z.1) (some-injective e)
        (after-Ends (size b k m) (length (q b k)) count q
          (size-eq-length m b k ∙ ap (λ l. ok (length l)) (h b k))
          (λ b' k'. items-size m b k b' k' ∙ h b' k'))
  run-Ends (reads b k) m q z h e =
      subst (λ z. Ends (run (reads b k) m) z.0 z.1) (some-injective e)
        (after-Ends (get_all_key b k m) (q b k) values q
          (get_all_key-eq-items m b k ∙ ap ok (h b k))
          (λ b' k'. items-get_all_key m b k b' k' ∙ h b' k'))

  -- Whatever operations the abstract storage performs, the code run on a storage that holds the
  -- same lists ends well, gives the same answers in the same order, and holds the same lists at
  -- the end.
  pub run_all-perform_all :
      (os : List (Operation V)) (m : Inmem V) (q q' : Queues V) (xs : List (Answer V))
      → Holds m q
      → perform_all os q ≡ some (xs, q')
      → ((run_all os m).0 ≡ ok xs) × Holds (run_all os m).1 q'
  run_all-perform_all [] m q q' xs h e =
      let z : ([], q) ≡ (xs, q') = some-injective e in
      subst (λ w. Ends (run_all [] m) w.0 w.1) z (refl, h)
  run_all-perform_all (o ∷ os) m q q' xs h e =
      let (y, w, p, r, z) = perform_all-parts o os q (xs, q') e in
      let (first_ends, held) = run-Ends o m q y h p in
      let (rest_ends, held_last) = run_all-perform_all os (run o m).1 y.1 w.1 w.0 held r in
      subst (λ w. Ends (run_all (o ∷ os) m) w.0 w.1) z
        (continued (run o m) (λ x m'. after (run_all os m') (λ xs m₂. (ok (x ∷ xs), m₂))) first_ends
          (after-Ends (run_all os (run o m).1) w.0 (λ xs. y.0 ∷ xs) w.1 rest_ends held_last))
