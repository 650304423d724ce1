-- ===== src/Tests/Disk.antt =====
-- The storage on disk, over a database whose transactions are functions.
use mysql_to_mssql.Base.{
  ℕ, ◌≡◌, ◌≢◌, ◌<◌, refl, sym, ap, Bool, true, false, if◌then◌else◌, List, [], ◌∷◌, ◌++◌, ◌==◌,
  Option, none, some, Bytes, codes, length, drop, Result, ok, err, panic, Call, ok-injective, arith,
  eqb, arith,
}
use mysql_to_mssql.Db.Interface.{Entry, same}
use mysql_to_mssql.Db.Nuts.{Shown, Nuts}
use mysql_to_mssql.Db.Localdb.{Localdb, size}
use mysql_to_mssql.Db.Localdb.Queue.{size-closed}

-- What is shown, and the entries of each bucket.
pub record Content : Type 0 where
  pub shown : Shown ℕ
  pub entries : Bytes → List (Entry ℕ)

abbrev without : Bytes → List (Entry ℕ) → List (Entry ℕ)
without k [] = []
without k (e ∷ es) = if eqb e.key k then without k es else e ∷ without k es

abbrev put_value : Bytes → Bytes → ℕ → Content → Content
put_value b k v c = record {
  shown = record (c.shown) {
    value = λ b' k'. if same b k b' k' then some v else c.shown.value b' k';
  };
  entries = λ b'.
      if eqb b b' then record { key = k; value = v } ∷ without k (c.entries b') else c.entries b';
}

abbrev put_list : Bytes → Bytes → List ℕ → Content → Content
put_list b k l c = record c {
  shown = record (c.shown) { list = λ b' k'. if same b k b' k' then l else c.shown.list b' k' };
}

-- A database that is open has a content.
abbrev Db : Type 0
Db = Option Content

abbrev view : {S : Type 0} → (Content → Call S Unit) → Db → Call S Unit
view fn none s = (err (codes "db is closed"), s)
view fn (some c) s = fn c s

abbrev commit : Result Content → Content → Result (Unit {0}) × Db
commit (ok c') c = (ok tt, some c')
commit (err e) c = (err e, some c)
commit panic c = (panic, some c)

abbrev update : (Content → Result Content) → Call Db Unit
update fn none = (err (codes "db is closed"), none)
update fn (some c) = commit (fn c) c

abbrev nothing : Shown ℕ
nothing = record { list = λ b k. []; value = λ b k. none }

abbrev shown_of : Db → Shown ℕ
shown_of none = nothing
shown_of (some c) = c.shown

abbrev is_open : Db → Bool
is_open none = false
is_open (some c) = true

abbrev empty : Bytes
empty = codes "bucket is empty"

abbrev entries_of : List (Entry ℕ) → Result (List (Entry ℕ))
entries_of [] = err empty
entries_of (e ∷ es) = ok (e ∷ es)

abbrev emptied : ℕ → List ℕ → List ℕ
emptied n l = if n == 0 then [] else drop n l

view_open :
    {S : Type 0} (fn : Content → Call S Unit) (db : Db) (s : S)
    → is_open db ≡ true
    → (tx : Content) × (tx.shown ≡ shown_of db)
      × ((view fn db s).1 ≡ (fn tx s).1)
      × ((view fn db s).0 ≡ ok tt → (fn tx s).0 ≡ ok tt)
view_open fn none s h = cc
view_open fn (some c) s h = (c, refl, refl, λ q. q)

view_closed :
    {S : Type 0} (fn : Content → Call S Unit) (db : Db) (s : S)
    → is_open db ≡ false
    → (e : Bytes) × (view fn db s ≡ (err e, s))
view_closed fn none s h = (codes "db is closed", refl)
view_closed fn (some c) s h = cc

shown_closed : (db : Db) (b k : Bytes) → is_open db ≡ false → (shown_of db).list b k ≡ []
shown_closed none b k h = refl
shown_closed (some c) b k h = cc

committed :
    (c : Content) (r : Result Content)
    → (commit r c).0 ≡ ok tt
    → (c' : Content) × (r ≡ ok c') × (shown_of (commit r c).1 ≡ c'.shown)
committed c (ok c') h = (c', refl, refl)
committed c (err e) h = cc
committed c panic h = cc

update_ok :
    (fn : Content → Result Content) (db : Db)
    → (update fn db).0 ≡ ok tt
    → (tx : Content) × (tx' : Content) × (tx.shown ≡ shown_of db)
      × (fn tx ≡ ok tx')
      × (shown_of (update fn db).1 ≡ tx'.shown)
update_ok fn none h = cc
update_ok fn (some c) h = let (c', p, q) = committed c (fn c) h in (c, c', refl, p, q)

not_committed :
    (c : Content) (r : Result Content) → (commit r c).0 ≢ ok tt → shown_of (commit r c).1 ≡ c.shown
not_committed c (ok c') h = absurd (h refl)
not_committed c (err e) h = refl
not_committed c panic h = refl

update_fails :
    (fn : Content → Result Content) (db : Db)
    → (update fn db).0 ≢ ok tt
    → shown_of (update fn db).1 ≡ shown_of db
update_fails fn none h = refl
update_fails fn (some c) h = not_committed c (fn c) h

changed :
    (b k : Bytes) (l : List ℕ) (tx tx' : Content) (b' k' : Bytes)
    → ok (put_list b k l tx) ≡ ok tx'
    → tx'.shown.list b' k' ≡ (if same b k b' k' then l else tx.shown.list b' k')
changed b k l tx tx' b' k' h = ap (λ (c : Content). c.shown.list b' k') (sym (ok-injective h))

emptied-positive : (n : ℕ) (l : List ℕ) → 0 < n → emptied n l ≡ drop n l
emptied-positive n l p = ground arith

removed :
    (b k : Bytes) (n : ℕ) (tx tx' : Content) (b' k' : Bytes)
    → 0 < n
    → ok (put_list b k (emptied n (tx.shown.list b k)) tx) ≡ ok tx'
    → tx'.shown.list b' k'
      ≡ (if same b k b' k' then drop n (tx.shown.list b k) else tx.shown.list b' k')
removed b k n tx tx' b' k' p h =
    rw (changed b k (emptied n (tx.shown.list b k)) tx tx' b' k' h)
      (rw (emptied-positive n (tx.shown.list b k) p) refl)

abbrev transactions : Nuts ℕ
transactions = record {
  Db = Db;
  Tx = Content;
  open_db = λ dir segment_size. ok (some (record { shown = nothing; entries = λ b. [] }));
  close_db = λ db. (ok tt, none);
  view = view;
  update = update;
  get_all = λ tx b. entries_of (tx.entries b);
  l_range = λ tx b k. ok (tx.shown.list b k);
  l_size = λ tx b k. ok (length (tx.shown.list b k));
  put = λ b k v ttl tx. ok (put_value b k v tx);
  r_push = λ b k v tx. ok (put_list b k (tx.shown.list b k ++ v ∷ []) tx);
  l_rem = λ b k n tx. ok (put_list b k (emptied n (tx.shown.list b k)) tx);
  bucket_empty = empty;
  is_open = is_open;
  shown = shown_of;
  shown_tx = λ tx. tx.shown;
  view_open = view_open;
  view_closed = view_closed;
  shown_closed = shown_closed;
  update_ok = update_ok;
  update_fails = update_fails;
  l_range_lem = λ tx b k l h. sym (ok-injective h);
  l_range_empty = λ tx b k h. cc;
  l_size_lem = λ tx b k n h. sym (ok-injective h);
  r_push_lem = λ b k v tx tx' b' k' h. changed b k _ tx tx' b' k' h;
  l_rem_lem = λ b k n tx tx' b' k' p _ h. removed b k n tx tx' b' k' p h;
  l_rem_zero = λ b k tx tx' b' k' h. changed b k [] tx tx' b' k' h;
}

abbrev closed : Localdb transactions
closed = record { db = none; config = record { dir = codes "data"; segment_size = 8 } }

size-closed_example : (size transactions (codes "store") (codes "a") closed).0 ≡ ok 0
size-closed_example = size-closed transactions closed (codes "store") (codes "a") refl
