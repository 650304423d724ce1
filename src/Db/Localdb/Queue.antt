-- ===== src/Db/Localdb/Queue.antt =====
-- The storage on disk keeps what the interface promises, and what it does when it is closed.
use mysql_to_mssql.Base.{
  ℕ, ◌≤◌, ◌<◌, ◌≡◌, ◌≢◌, refl, sym, ap, ◌∙◌, Bool-cases, inl, inr, false, List, [], ◌∷◌, ◌++◌,
  Bytes, eqb, eqb_iff, length, drop, Result, ok, err, panic, ok-injective, if◌then◌else◌,
}
use mathlib.Core.Path.{subst}
use mysql_to_mssql.Db.Interface.{Interface, same}
use mysql_to_mssql.Db.Nuts.{Nuts, Shown}
use mysql_to_mssql.Db.Localdb.{
  Localdb, release, dir, set_dir, unless_empty, named, get_all, read_list, get_all_key, in_update,
  put, push, rem, read_size, size, engine, truncate,
}

named-eq-ok {ℓ} :
    {V : Type 0} {A : Type ℓ} (n : Nuts V) (x : Result (Unit {0}) × A) {a : A}
    → named n x ≡ ok a
    → (x.0 ≡ ok tt) × (x.1 ≡ a)
unfolding named
named-eq-ok n (ok _, a) h = (refl, ok-injective h)
named-eq-ok n (err e, a) h = cc
named-eq-ok n (panic, a) h = cc

err_ne_ok : {e : Bytes} → ◌≢◌ {A = Result (Unit {0})} (err e) (ok tt)
err_ne_ok h = cc

module _ {V : Type 0} (n : Nuts V) where
  -- The list in a bucket at a key.
  abbrev pub list_of : Localdb n → Bytes → Bytes → List V
  list_of s b k = (n.shown s.db).list b k

  read_list-shown :
      (tx : n.Tx) (b k : Bytes) (r : Result (List V)) (l : List V)
      → n.l_range tx b k ≡ r
      → (read_list n r []).0 ≡ ok tt
      → (read_list n r []).1 ≡ l
      → l ≡ (n.shown_tx tx).list b k
  unfolding read_list unless_empty
  read_list-shown tx b k (ok l') l e h q = sym q ∙ n.l_range_lem tx b k l' e
  read_list-shown tx b k (err x) l e h q = elim (Bool-cases (eqb x n.bucket_empty)) [
    | inl p ↦ sym q ∙ sym (n.l_range_empty tx b k (e ∙ ap err ((eqb_iff x n.bucket_empty).0 p)))
    | inr p ↦ absurd (err_ne_ok (rw p at h))
  ]
  read_list-shown tx b k panic l e h q = cc

  read_size-shown :
      (tx : n.Tx) (b k : Bytes) (r : Result ℕ) (vars : Result ℕ) (count : ℕ)
      → n.l_size tx b k ≡ r
      → (read_size n r vars).1 ≡ ok count
      → count ≡ length ((n.shown_tx tx).list b k)
  unfolding read_size
  read_size-shown tx b k (ok m) vars count e h = n.l_size_lem tx b k count (e ∙ h)
  read_size-shown tx b k (err x) vars count e h = cc
  read_size-shown tx b k panic vars count e h = cc

  pub get_all_key-list :
      (s : Localdb n) (b k : Bytes) (l : List V)
      → (get_all_key n b k s).0 ≡ ok l
      → l ≡ list_of s b k
  unfolding get_all_key
  get_all_key-list s b k l h = elim (Bool-cases (n.is_open s.db)) [
    | inl p ↦
        (let (tx, show, vars, ends) =
            n.view_open (λ tx. read_list n (n.l_range tx b k)) s.db [] p in
          let (h₁, h₂) = named-eq-ok n (n.view (λ tx. read_list n (n.l_range tx b k)) s.db []) h in
          read_list-shown tx b k (n.l_range tx b k) l refl (ends h₁) (sym vars ∙ h₂)
          ∙ ap (λ (v : Shown V). v.list b k) show)
    | inr p ↦
        (let (e, q) = n.view_closed (λ tx. read_list n (n.l_range tx b k)) s.db [] p in
          let (h₁, h₂) = named-eq-ok n (n.view (λ tx. read_list n (n.l_range tx b k)) s.db []) h in
          absurd (err_ne_ok (sym (ap (λ (z : Result (Unit {0}) × List V). z.0) q) ∙ h₁)))
  ]

  -- Size of a database that is closed is 0 with no error.
  pub size-closed : (s : Localdb n) (b k : Bytes) → n.is_open s.db ≡ false → (size n b k s).0 ≡ ok 0
  unfolding size
  size-closed s b k p =
      let (e, q) = n.view_closed (λ tx. read_size n (n.l_size tx b k)) s.db (ok 0) p in
      ap (λ (z : Result (Unit {0}) × Result ℕ). z.1) q

  pub size-list :
      (s : Localdb n) (b k : Bytes) (count : ℕ)
      → (size n b k s).0 ≡ ok count
      → count ≡ length (list_of s b k)
  unfolding size
  size-list s b k count h = elim (Bool-cases (n.is_open s.db)) [
    | inl p ↦
        (let (tx, show, vars, ends) =
            n.view_open (λ tx. read_size n (n.l_size tx b k)) s.db (ok 0) p in
          read_size-shown tx b k (n.l_size tx b k) (ok 0) count refl (sym vars ∙ h)
          ∙ ap (λ (v : Shown V). length (v.list b k)) show)
    | inr p ↦
        ok-injective (sym (sym (size-closed s b k p) ∙ h))
        ∙ ap length (sym (n.shown_closed s.db b k p))
  ]

  -- An update that ends well leaves what its function leaves; any other leaves all as it was.
  in_update-shown :
      (fn : n.Tx → Result n.Tx) (s : Localdb n)
      → (in_update n fn s).0 ≡ ok tt
      → (tx : n.Tx) × (tx' : n.Tx) × (n.shown_tx tx ≡ n.shown s.db)
        × (fn tx ≡ ok tx')
        × (n.shown (in_update n fn s).1.db ≡ n.shown_tx tx')
  unfolding in_update
  in_update-shown fn s h = n.update_ok fn s.db h

  in_update-fails :
      (fn : n.Tx → Result n.Tx) (s : Localdb n)
      → (in_update n fn s).0 ≢ ok tt
      → n.shown (in_update n fn s).1.db ≡ n.shown s.db
  unfolding in_update
  in_update-fails fn s h = n.update_fails fn s.db h

  -- From what an update's function does to the lists to what the update does.
  in_update-list :
      (fn : n.Tx → Result n.Tx) (s : Localdb n) (b' k' : Bytes) (new : Shown V → List V)
      → ((tx tx' : n.Tx)
          → n.shown_tx tx ≡ n.shown s.db
          → fn tx ≡ ok tx'
          → (n.shown_tx tx').list b' k' ≡ new (n.shown_tx tx))
      → (in_update n fn s).0 ≡ ok tt
      → list_of (in_update n fn s).1 b' k' ≡ new (n.shown s.db)
  in_update-list fn s b' k' new step h =
      let (tx, tx', show, ran, left) = in_update-shown fn s h in
      ap (λ (v : Shown V). v.list b' k') left ∙ step tx tx' show ran ∙ ap new show

  pub list_of-push :
      (s : Localdb n) (b k : Bytes) (v : V) (b' k' : Bytes)
      → (push n b k v s).0 ≡ ok tt
      → list_of (push n b k v s).1 b' k'
        ≡ (if same b k b' k' then list_of s b k ++ v ∷ [] else list_of s b' k')
  unfolding push
  list_of-push s b k v b' k' h =
      in_update-list (n.r_push b k v) s b' k'
        (λ w. if same b k b' k' then w.list b k ++ v ∷ [] else w.list b' k')
        (λ tx tx' _ ran. n.r_push_lem b k v tx tx' b' k' ran) h

  pub list_of-push_fails :
      (s : Localdb n) (b k : Bytes) (v : V) (b' k' : Bytes)
      → (push n b k v s).0 ≢ ok tt
      → list_of (push n b k v s).1 b' k' ≡ list_of s b' k'
  unfolding push
  list_of-push_fails s b k v b' k' h =
      ap (λ (w : Shown V). w.list b' k') (in_update-fails (n.r_push b k v) s h)

  pub list_of-rem :
      (s : Localdb n) (b k : Bytes) (count : ℕ) (b' k' : Bytes)
      → 0 < count
      → count ≤ length (list_of s b k)
      → (rem n b k count s).0 ≡ ok tt
      → list_of (rem n b k count s).1 b' k'
        ≡ (if same b k b' k' then drop count (list_of s b k) else list_of s b' k')
  unfolding rem
  list_of-rem s b k count b' k' pos enough h =
      in_update-list (n.l_rem b k count) s b' k'
        (λ w. if same b k b' k' then drop count (w.list b k) else w.list b' k')
        (λ tx tx' show ran.
          n.l_rem_lem b k count tx tx' b' k' pos
            (subst (λ (w : Shown V). count ≤ length (w.list b k)) (sym show) enough) ran)
        h

  -- A Rem of no item removes all of a list, where it ends well: the interface promises nothing of it.
  pub rem-zero :
      (s : Localdb n) (b k b' k' : Bytes)
      → (rem n b k 0 s).0 ≡ ok tt
      → list_of (rem n b k 0 s).1 b' k' ≡ (if same b k b' k' then [] else list_of s b' k')
  unfolding rem
  rem-zero s b k b' k' h =
      in_update-list (n.l_rem b k 0) s b' k' (λ w. if same b k b' k' then [] else w.list b' k')
        (λ tx tx' _ ran. n.l_rem_zero b k tx tx' b' k' ran) h

  pub list_of-get_all_key :
      (s : Localdb n) (b k b' k' : Bytes) → list_of (get_all_key n b k s).1 b' k' ≡ list_of s b' k'
  unfolding get_all_key
  list_of-get_all_key s b k b' k' = refl

  pub list_of-size :
      (s : Localdb n) (b k b' k' : Bytes) → list_of (size n b k s).1 b' k' ≡ list_of s b' k'
  unfolding size
  list_of-size s b k b' k' = refl

  -- The storage on disk keeps what the interface promises.
  abbrev pub localdb : Interface V
  localdb = record {
    State = Localdb n;
    release = release n;
    dir = dir n;
    set_dir = set_dir n;
    engine = engine n;
    get_all = get_all n;
    get_all_key = get_all_key n;
    put = put n;
    push = push n;
    rem = rem n;
    size = size n;
    truncate = truncate n;
    queue = list_of;
    queue-push = list_of-push;
    queue-push_fails = list_of-push_fails;
    queue-rem = list_of-rem;
    get_all_key_lem = get_all_key-list;
    queue-get_all_key = λ s b k b' k'. list_of-get_all_key s b k b' k';
    size_lem = size-list;
    queue-size = λ s b k b' k'. list_of-size s b k b' k';
  }
