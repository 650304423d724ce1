-- ===== src/Tests/Storage.antt =====
-- The in-memory storage on two lists.
use mysql_to_mssql.Base.{panic, ok, List, ℕ, ◌≡◌, refl, [], ◌∷◌, codes, eqb, lookup}
use mysql_to_mssql.Db.Inmem.{get_all, size, Inmem, bucket_of, items}
use mysql_to_mssql.Db.Inmem.Queue.{get_all-size}
use mysql_to_mssql.Db.Inmem.Replay.{
  Operation, pushes, puts, removes, truncates, sizes, reads, done, count, values, Queues, set,
  Holds, run_all, run_all-perform_all,
}

abbrev lists : Inmem ℕ
lists = (codes "store", (codes "a", 1 ∷ 2 ∷ 3 ∷ []) ∷ (codes "b", 4 ∷ []) ∷ []) ∷ []

get_all-size_example :
    (get_all (codes "store") (size (codes "store") (codes "z") lists).1).0 ≡ panic
unfolding bucket_of lookup eqb
get_all-size_example = get_all-size lists (codes "store") (codes "z") refl

abbrev operations : List (Operation ℕ)
operations =
    pushes (codes "store") (codes "a") 4
    ∷ removes (codes "store") (codes "a") 2
    ∷ truncates (codes "store") (codes "b")
    ∷ puts (codes "store") (codes "b") 7
    ∷ sizes (codes "store") (codes "a")
    ∷ reads (codes "store") (codes "b")
    ∷ []

-- The lists in memory, as functions.
abbrev held : Queues ℕ
held b k = items b k lists

run_all-perform_all_example :
    ((run_all operations lists).0 ≡ ok (done ∷ done ∷ done ∷ done ∷ count 2 ∷ values (7 ∷ []) ∷ []))
    × Holds (run_all operations lists).1 (
        set (codes "store") (codes "b") (7 ∷ []) (
          set (codes "store") (codes "b") [] (
            set
              (codes "store")
              (codes "a")
              (3 ∷ 4 ∷ [])
              (set (codes "store") (codes "a") (1 ∷ 2 ∷ 3 ∷ 4 ∷ []) held))))
unfolding items bucket_of lookup eqb
run_all-perform_all_example =
    run_all-perform_all operations lists held _
      (done ∷ done ∷ done ∷ done ∷ count 2 ∷ values (7 ∷ []) ∷ []) (λ b k. refl) refl
