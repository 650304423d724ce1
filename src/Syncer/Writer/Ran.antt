-- ===== src/Syncer/Writer/Ran.antt =====
-- What an operation has run on the target: its statement, with at most preparations before it.
use mysql_to_mssql.Base.{
  ◌≡◌, refl, sym, ap, ◌∙◌, false, true, List, [], ◌∷◌, ◌++◌, Option, none, some, Bytes, Result, ok,
  err, panic, Call, lookup,
}
use mysql_to_mssql.Base.Calls.{after}
use mysql_to_mssql.Reflect.{Foreign, Value, Struct}
use mysql_to_mssql.Syncer.Columns.{Column, columns_of, get_columns}
use mysql_to_mssql.Syncer.Columns.Primary.{primary_columns, columns_of_primary}
use mysql_to_mssql.Syncer.Statements.{
  build_insert_statement, build_update_statement, build_delete_statement_from_pk,
}
use mysql_to_mssql.Syncer.Target.{Target}
use mysql_to_mssql.Syncer.Writer.{
  Syncer, prepare, exec, prepared, keep_insert, keep_update, keep_delete, insert_statement,
  update_statement, delete_statement, some_primary, insert, update_on_pk, delete_on_pk,
}
use mysql_to_mssql.Syncer.Writer.Cache.{
  IsCoherent, Yields, insert_statement-Yields, update_statement-Yields, delete_statement-Yields,
}

module _ {f : Foreign} (t : Target f) where
  -- From one state of the target to another, these queries were run well, each with its arguments,
  -- in order, and nothing else but preparations of statements.
  pub data Ran : List (Bytes × List (Value f)) → t.State → t.State → Type 0 where
    done : {d : t.State} → Ran [] d d
    prepares :
        {l : List (Bytes × List (Value f))} {d e : t.State} (query : Bytes)
        → Ran l (t.prepare query d).1 e
        → Ran l d e
    executes :
        {l : List (Bytes × List (Value f))} {d e : t.State} (st : t.Stmt) (args : List (Value f))
        → (t.exec st args d).0 ≡ ok tt
        → Ran l (t.exec st args d).1 e
        → Ran ((t.text st, args) ∷ l) d e

  pub append-Ran :
      {l m : List (Bytes × List (Value f))} {d e k : t.State}
      → Ran l d e
      → Ran m e k
      → Ran (l ++ m) d k
  append-Ran done y = y
  append-Ran (prepares query x) y = prepares query (append-Ran x y)
  append-Ran (executes st args h x) y = executes st args h (append-Ran x y)

  module _ (query : Bytes) (keep : t.Stmt → Call (Syncer t) t.Stmt)
      (same : (st : t.Stmt) (s : Syncer t) → (keep st s).1.db ≡ s.db) where
    after-keep : (x : Result t.Stmt × Syncer t) → (after x keep).1.db ≡ x.1.db
    after-keep (ok st, s) = same st s
    after-keep (err e, s) = refl
    after-keep (panic, s) = refl

    prepared-Ran : (o : Option t.Stmt) (s : Syncer t) → Ran [] s.db (prepared t o query keep s).1.db
    unfolding prepared prepare
    prepared-Ran (some st) s = done
    prepared-Ran none s = prepares query (rw (after-keep (prepare t query s)) done)

  module _ (P : Syncer t → Type 0) (query : Bytes) (args : List (Value f)) where
    -- A statement that was yielded with preparations only, and was then run well.
    exec-Ran :
        (d : t.State) (x : Result t.Stmt × Syncer t)
        → Ran [] d x.1.db
        → Yields t P query x
        → (after x (λ st. exec t st args)).0 ≡ ok tt
        → Ran ((query, args) ∷ []) d (after x (λ st. exec t st args)).1.db
    unfolding exec
    exec-Ran d (ok st, s) r (_, e) h = rw (sym (e st refl)) (append-Ran r (executes st args h done))
    exec-Ran d (err e, s) r y h = cc
    exec-Ran d (panic, s) r y h = cc

  some_primary-ok :
      (table : Bytes) (pks : List (Value f)) (k : Call (Syncer t) Unit) (s : Syncer t)
      → (after (some_primary t table pks, s) (λ _. k)).0 ≡ ok tt
      → after (some_primary t table pks, s) (λ _. k) ≡ k s
  unfolding some_primary
  some_primary-ok table [] k s h = cc
  some_primary-ok table (_ ∷ _) k s h = refl

  after-some_primary :
      (table : Bytes) (pks : List (Value f)) (x : Result t.Stmt × Syncer t)
      (k : t.Stmt → Call (Syncer t) Unit)
      → (after x (λ st s. after (some_primary t table pks, s) (λ _. k st))).0 ≡ ok tt
      → after x (λ st s. after (some_primary t table pks, s) (λ _. k st)) ≡ after x k
  after-some_primary table pks (ok st, s) k h = some_primary-ok table pks (k st) s h
  after-some_primary table pks (err e, s) k h = refl
  after-some_primary table pks (panic, s) k h = refl

  module _ (schema : Bytes → List Column) (table : Bytes) (s : Syncer t)
      (h : IsCoherent t schema s) where
    -- An insert that ends well has run its statement.
    pub insert-Ran :
        (m : Struct f)
        → (columns_of m false).0 ≡ schema table
        → (insert t table (some m) s).0 ≡ ok tt
        → Ran
            ((build_insert_statement table (schema table), (columns_of m false).1) ∷ [])
            s.db
            (insert t table (some m) s).1.db
    unfolding insert get_columns insert_statement keep_insert
    insert-Ran m e = rw e (
        exec-Ran (IsCoherent t schema) _ (columns_of m false).1 s.db
          (insert_statement t table (schema table) s)
          (prepared-Ran _ (keep_insert t table) (λ st s'. refl) (lookup table s.insert_stmts) s)
          (insert_statement-Yields t schema table s h))

    -- A delete by primary key that ends well has run its statement.
    pub delete_on_pk-Ran :
        (m : Struct f)
        → (columns_of m false).0 ≡ schema table
        → (delete_on_pk t table (some m) s).0 ≡ ok tt
        → Ran
            ((
              build_delete_statement_from_pk table (primary_columns (schema table)),
              (columns_of m true).1,
            )
              ∷ [])
            s.db
            (delete_on_pk t table (some m) s).1.db
    unfolding delete_on_pk get_columns delete_statement keep_delete
    delete_on_pk-Ran m e =
        let args = (columns_of m true).1 in
        let query = build_delete_statement_from_pk table (primary_columns (schema table)) in
        rw ((columns_of_primary m).0, e)
          (λ q.
            let same =
              some_primary-ok table args
                (λ s'. after (delete_statement t table query s') (λ st. exec t st args)) s q in
            rw same (
              exec-Ran (IsCoherent t schema) query args s.db (delete_statement t table query s)
                (prepared-Ran query (keep_delete t table) (λ st s'. refl)
                  (lookup table s.delete_stmts) s)
                (delete_statement-Yields t schema table s h)
                (ap (λ (r : Result (Unit {0}) × Syncer t). r.0) (sym same) ∙ q)))

    -- An update by primary key that ends well has run its statement.
    pub update_on_pk-Ran :
        (old new : Struct f)
        → (columns_of new false).0 ≡ schema table
        → (update_on_pk t table (some old) (some new) s).0 ≡ ok tt
        → Ran
            ((
              build_update_statement table (schema table) [],
              (columns_of new false).1 ++ (columns_of old true).1,
            )
              ∷ [])
            s.db
            (update_on_pk t table (some old) (some new) s).1.db
    unfolding update_on_pk get_columns update_statement keep_update
    update_on_pk-Ran old new e =
        let pks = (columns_of old true).1 in
        let args = (columns_of new false).1 ++ pks in
        let query = build_update_statement table (schema table) [] in
        rw e (λ q.
          let same =
            after-some_primary table pks (update_statement t table (schema table) [] s)
              (λ st. exec t st args) q in
          rw same (
            exec-Ran (IsCoherent t schema) query args s.db
              (update_statement t table (schema table) [] s)
              (prepared-Ran query (keep_update t table) (λ st s'. refl)
                (lookup table s.update_stmts) s)
              (update_statement-Yields t schema table s h)
              (ap (λ (r : Result (Unit {0}) × Syncer t). r.0) (sym same) ∙ q)))
