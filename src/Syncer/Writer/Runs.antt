-- ===== src/Syncer/Writer/Runs.antt =====
-- What the operations run on the target database.
use mysql_to_mssql.Base.{
  true, false, ◌≡◌, refl, sym, ap, ◌∙◌, ◌++◌, List, [], ◌∷◌, some, Bytes, length, length-append,
  lookup, ok, err, panic, Result, arith, Call,
}
use mysql_to_mssql.Base.Calls.{after}
use mysql_to_mssql.Reflect.{Foreign, Value, Struct}
use mysql_to_mssql.Syncer.Columns.{Column, columns_of, get_columns}
use mysql_to_mssql.Syncer.Columns.Primary.{primary_columns, length-columns_of, columns_of_primary}
use mysql_to_mssql.Syncer.Statements.{
  build_insert_statement, build_update_statement, build_delete_statement_from_pk,
}
use mysql_to_mssql.Syncer.Statements.Marks.{
  marks, NamesPlain, marks-build_insert_statement, marks-build_update_statement,
}
use mysql_to_mssql.Syncer.Target.{Target}
use mysql_to_mssql.Syncer.Writer.{
  Syncer, exec, delete_statement, insert, some_primary, update, update_on_pk, delete_on_pk,
  update_statement, prepared,
}
use mysql_to_mssql.Syncer.Writer.Cache.{
  Yields, IsCoherent, exec-IsCoherent, insert_statement-Yields, update_statement-Yields,
  delete_statement-Yields,
}

module _ {f : Foreign} (t : Target f) where
  -- A call ran a statement that was prepared for the query, with these arguments, and the
  -- target's state is the one that the statement left.
  pub record Executed (query : Bytes) (args : List (Value f)) (r : Result (Unit {0}) × Syncer t)
      : Type 0 where
    pub stmt : t.Stmt
    pub before : t.State
    pub prepared_for : t.text stmt ≡ query
    pub ran : t.exec stmt args before ≡ (r.0, r.1.db)

  -- `P` holds after a call, and if the call ended well it ran the statement.
  abbrev pub Runs :
      (Syncer t → Type 0) → Bytes → List (Value f) → Result (Unit {0}) × Syncer t → Type 0
  Runs P query args r = P r.1 × (r.0 ≡ ok tt → Executed query args r)

  module _ (P : Syncer t → Type 0) (query : Bytes) (args : List (Value f)) where
    after-Runs :
        (x : Result t.Stmt × Syncer t) (k : t.Stmt → Call (Syncer t) Unit)
        → Yields t P query x
        → ((st : t.Stmt) (s : Syncer t) → t.text st ≡ query → P s → Runs P query args (k st s))
        → Runs P query args (after x k)
    after-Runs (ok st, s) k (h, e) next = next st s (e st refl) h
    after-Runs (err e, s) k (h, _) next = (h, λ q. cc)
    after-Runs (panic, s) k (h, _) next = (h, λ q. cc)

    module _ (exec_keeps : (st : t.Stmt) (s : Syncer t) → P s → P (exec t st args s).1) where
      exec-Runs :
          (st : t.Stmt) (s : Syncer t)
          → t.text st ≡ query
          → P s
          → Runs P query args (exec t st args s)
      exec-Runs st s e h = (
        exec_keeps st s h,
        λ q. record { stmt = st; before = s.db; prepared_for = e; ran = unfold exec in refl },
      )

    -- The same behind the check for primary values.
    primary-Runs :
        (table : Bytes) (pks : List (Value f)) (k : Call (Syncer t) Unit) (s : Syncer t)
        → P s
        → Runs P query args (k s)
        → Runs P query args (after (some_primary t table pks, s) (λ _. k))
    unfolding some_primary
    primary-Runs table [] k s h next = (h, λ q. cc)
    primary-Runs table (_ ∷ _) k s h next = next

  module _ (schema : Bytes → List Column) (table : Bytes) (s : Syncer t)
      (h : IsCoherent t schema s) where
    insert-Runs :
        (m : Struct f)
        → (columns_of m false).0 ≡ schema table
        → Runs
            (IsCoherent t schema)
            (build_insert_statement table (schema table))
            (columns_of m false).1
            (insert t table (some m) s)
    unfolding insert get_columns
    insert-Runs m e = rw e (
        after-Runs (IsCoherent t schema) _ (columns_of m false).1 _
          (λ st. exec t st (columns_of m false).1) (insert_statement-Yields t schema table s h)
          (exec-Runs (IsCoherent t schema) _ _ (λ st s'. exec-IsCoherent t schema st _ s')))

    update_on_pk-Runs :
        (old new : Struct f)
        → (columns_of new false).0 ≡ schema table
        → Runs
            (IsCoherent t schema)
            (build_update_statement table (schema table) [])
            ((columns_of new false).1 ++ (columns_of old true).1)
            (update_on_pk t table (some old) (some new) s)
    unfolding update_on_pk get_columns
    update_on_pk-Runs old new e =
        let args = (columns_of new false).1 ++ (columns_of old true).1 in
        rw e (
          after-Runs (IsCoherent t schema) _ args _
            (λ st s'.
              after (some_primary t table (columns_of old true).1, s') (λ _. exec t st args))
            (update_statement-Yields t schema table s h)
            (λ st s' q k.
              primary-Runs (IsCoherent t schema) _ args table (columns_of old true).1
                (exec t st args) s' k
                (exec-Runs (IsCoherent t schema) _ args
                  (λ st' s₂. exec-IsCoherent t schema st' _ s₂) st s' q k)))

    delete_on_pk-Runs :
        (m : Struct f)
        → (columns_of m false).0 ≡ schema table
        → Runs
            (IsCoherent t schema)
            (build_delete_statement_from_pk table (primary_columns (schema table)))
            (columns_of m true).1
            (delete_on_pk t table (some m) s)
    unfolding delete_on_pk get_columns
    delete_on_pk-Runs m e =
        let args = (columns_of m true).1 in
        rw ((columns_of_primary m).0, e)
          (primary-Runs (IsCoherent t schema) _ args table args
            (λ s'.
              after
                (delete_statement t table
                  (build_delete_statement_from_pk table (primary_columns (schema table))) s')
                (λ st. exec t st args))
            s h
            (after-Runs (IsCoherent t schema) _ args _ (λ st. exec t st args)
              (delete_statement-Yields t schema table s h)
              (exec-Runs (IsCoherent t schema) _ args (λ st s'. exec-IsCoherent t schema st _ s'))))

    -- Where the statements that are kept are those of the schema, an insert of a model with the
    -- table's columns that ends well has run the insert statement for these columns with the
    -- model's values.
    pub insert-Executed :
        (m : Struct f)
        → (columns_of m false).0 ≡ schema table
        → (insert t table (some m) s).0 ≡ ok tt
        → Executed
            (build_insert_statement table (schema table))
            (columns_of m false).1
            (insert t table (some m) s)
    insert-Executed m e = (insert-Runs m e).1

    -- Where the statements that are kept are those of the schema, an insert of a model with the
    -- table's columns leaves statements that are those of the schema, also if it fails.
    pub insert-IsCoherent :
        (m : Struct f)
        → (columns_of m false).0 ≡ schema table
        → IsCoherent t schema (insert t table (some m) s).1
    insert-IsCoherent m e = (insert-Runs m e).0

    -- Where the statements that are kept are those of the schema, an update by primary key that
    -- ends well, of a new model with the table's columns, has run the update statement for these
    -- columns with the values of the new model and then the primary values of the old one.
    pub update_on_pk-Executed :
        (old new : Struct f)
        → (columns_of new false).0 ≡ schema table
        → (update_on_pk t table (some old) (some new) s).0 ≡ ok tt
        → Executed
            (build_update_statement table (schema table) [])
            ((columns_of new false).1 ++ (columns_of old true).1)
            (update_on_pk t table (some old) (some new) s)
    update_on_pk-Executed old new e = (update_on_pk-Runs old new e).1

    -- Where the statements that are kept are those of the schema, an update by primary key, of a
    -- new model with the table's columns leaves statements that are those of the schema, also if
    -- it fails.
    pub update_on_pk-IsCoherent :
        (old new : Struct f)
        → (columns_of new false).0 ≡ schema table
        → IsCoherent t schema (update_on_pk t table (some old) (some new) s).1
    update_on_pk-IsCoherent old new e = (update_on_pk-Runs old new e).0

    -- Where the statements that are kept are those of the schema, a delete by primary key of a
    -- model with the table's columns that ends well has run the delete statement for the primary
    -- columns with the model's primary values.
    pub delete_on_pk-Executed :
        (m : Struct f)
        → (columns_of m false).0 ≡ schema table
        → (delete_on_pk t table (some m) s).0 ≡ ok tt
        → Executed
            (build_delete_statement_from_pk table (primary_columns (schema table)))
            (columns_of m true).1
            (delete_on_pk t table (some m) s)
    delete_on_pk-Executed m e = (delete_on_pk-Runs m e).1

    -- Where the statements that are kept are those of the schema, a delete by primary key of a
    -- model with the table's columns leaves statements that are those of the schema, also if it
    -- fails.
    pub delete_on_pk-IsCoherent :
        (m : Struct f)
        → (columns_of m false).0 ≡ schema table
        → IsCoherent t schema (delete_on_pk t table (some m) s).1
    delete_on_pk-IsCoherent m e = (delete_on_pk-Runs m e).0

-- Where a statement for updates of the table is kept, the condition of an update has no effect:
-- any two conditions, with the same arguments, give the same result.
pub update-cached :
    {f : Foreign} (t : Target f) (table : Bytes) (m : Struct f) (v w : Bytes)
    (args : List (Value f)) (s : Syncer t) (st : t.Stmt)
    → lookup table s.update_stmts ≡ some st
    → update t table (some m) v args s ≡ update t table (some m) w args s
unfolding update get_columns update_statement prepared
update-cached t table m v w args s st h = rw h refl

-- The insert statement for a model has as many marks as it has arguments, where no name of the
-- table or of a column holds a question mark.
pub marks-insert :
    {f : Foreign} (table : Bytes) (m : Struct f)
    → marks table ≡ 0
    → NamesPlain (columns_of m false).0
    → marks (build_insert_statement table (columns_of m false).0) ≡ length (columns_of m false).1
marks-insert table m ht hc =
    marks-build_insert_statement table (columns_of m false).0 ht hc
    ∙ sym (length-columns_of m false)

-- The update statement for two models with the same columns has as many marks as it has
-- arguments, where no name of the table or of a column holds a question mark.
pub marks-update_on_pk :
    {f : Foreign} (table : Bytes) (old new : Struct f)
    → (columns_of old false).0 ≡ (columns_of new false).0
    → marks table ≡ 0
    → NamesPlain (columns_of new false).0
    → marks (build_update_statement table (columns_of new false).0 [])
      ≡ length ((columns_of new false).1 ++ (columns_of old true).1)
marks-update_on_pk table old new e ht hc = omega (
  arith,
  marks-build_update_statement table (columns_of new false).0 ht hc,
  length-append {0} (columns_of new false).1 (columns_of old true).1,
  length-columns_of new false,
  length-columns_of old true,
  ap length (columns_of_primary old).0,
  ap (λ (l : List Column). length (primary_columns l)) e,
)
