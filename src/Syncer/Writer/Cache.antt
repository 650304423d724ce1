-- ===== src/Syncer/Writer/Cache.antt =====
-- The prepared statements that are kept, by table.
use mysql_to_mssql.Base.{
  Dict, ok-injective, ◌≡◌, refl, sym, ap, ◌∙◌, List, [], Option, none, some, Bytes, eqb_iff, lookup,
  lookup-insert, insert as assign, ok, err, panic, Result, arith, Call,
}
use mysql_to_mssql.Base.Calls.{after}
use mysql_to_mssql.Reflect.{Foreign, Value}
use mysql_to_mssql.Syncer.Columns.{Column}
use mysql_to_mssql.Syncer.Columns.Primary.{primary_columns}
use mysql_to_mssql.Syncer.Statements.{
  build_insert_statement, build_update_statement, build_delete_statement_from_pk,
}
use mysql_to_mssql.Syncer.Target.{Target}
use mysql_to_mssql.Syncer.Writer.{
  Syncer, prepare, exec, keep_insert, keep_update, keep_delete, prepared, insert_statement,
  update_statement, delete_statement,
}

module _ {f : Foreign} (t : Target f) where
  -- Every statement of a map was prepared for the query of its table.
  abbrev pub IsBuilt : (Bytes → Bytes) → Dict t.Stmt → Type 0
  IsBuilt query stmts =
      (table : Bytes) (st : t.Stmt) → lookup table stmts ≡ some st → t.text st ≡ query table

  assign-IsBuilt :
      (query : Bytes → Bytes) (stmts : Dict t.Stmt) (table : Bytes) (st : t.Stmt)
      → t.text st ≡ query table
      → IsBuilt query stmts
      → IsBuilt query (assign table st stmts)
  assign-IsBuilt query stmts table st e h table' st' found =
      ground (arith, eqb_iff table table', lookup-insert table table' st stmts, h table' st')

  -- What a call that yields a statement keeps and yields.
  abbrev pub Yields : (Syncer t → Type 0) → Bytes → Result t.Stmt × Syncer t → Type 0
  Yields P query r = P r.1 × ((st : t.Stmt) → r.0 ≡ ok st → t.text st ≡ query)

  module _ (P : Syncer t → Type 0) (query : Bytes) (keep : t.Stmt → Call (Syncer t) t.Stmt)
      (keeps : (st : t.Stmt) (s : Syncer t) → t.text st ≡ query → P s → P (keep st s).1)
      (same : (st : t.Stmt) (s : Syncer t) → (keep st s).0 ≡ ok st) where
    after-Yields : (r : Result t.Stmt × Syncer t) → Yields P query r → Yields P query (after r keep)
    after-Yields (ok st, s) (h, e) =
        (keeps st s (e st refl) h, λ st' q. e st' (sym (same st s) ∙ q))
    after-Yields (err e, s) h = h
    after-Yields (panic, s) h = h

    prepared-Yields :
        (o : Option t.Stmt) (s : Syncer t)
        → ((st : t.Stmt) → o ≡ some st → t.text st ≡ query)
        → P (prepare t query s).1
        → P s
        → Yields P query (prepared t o query keep s)
    unfolding prepared
    prepared-Yields (some st) s found _ h = (h, λ st' q. found st' (ap some (ok-injective q)))
    prepared-Yields none s found hp h =
        after-Yields (prepare t query s)
          (hp, λ st q. t.text-prepare query s.db st (unfold prepare in q))

  module _ (schema : Bytes → List Column) where
    -- Every kept statement was prepared for its table's columns.
    pub record IsCoherent (s : Syncer t) : Type 0 where
      pub inserts : IsBuilt (λ table. build_insert_statement table (schema table)) s.insert_stmts
      pub updates : IsBuilt (λ table. build_update_statement table (schema table) []) s.update_stmts
      pub deletes :
          IsBuilt
            (λ table. build_delete_statement_from_pk table (primary_columns (schema table)))
            s.delete_stmts

    prepare-IsCoherent :
        (query : Bytes) (s : Syncer t) → IsCoherent s → IsCoherent (prepare t query s).1
    unfolding prepare
    prepare-IsCoherent query s h = record {
      inserts = h.inserts;
      updates = h.updates;
      deletes = h.deletes;
    }

    pub exec-IsCoherent :
        (st : t.Stmt) (args : List (Value f)) (s : Syncer t)
        → IsCoherent s
        → IsCoherent (exec t st args s).1
    unfolding exec
    exec-IsCoherent st args s h = record {
      inserts = h.inserts;
      updates = h.updates;
      deletes = h.deletes;
    }

    module _ (table : Bytes) (s : Syncer t) (h : IsCoherent s) where
      pub insert_statement-Yields :
          Yields IsCoherent
            (build_insert_statement table (schema table))
            (insert_statement t table (schema table) s)
      unfolding insert_statement keep_insert
      insert_statement-Yields =
          prepared-Yields IsCoherent (build_insert_statement table (schema table))
            (keep_insert t table)
            (λ st s' e k. record {
              inserts = assign-IsBuilt _ s'.insert_stmts table st e k.inserts;
              updates = k.updates;
              deletes = k.deletes;
            })
            (λ st s'. refl) (lookup table s.insert_stmts) s (h.inserts table)
            (prepare-IsCoherent _ s h) h

      pub update_statement-Yields :
          Yields IsCoherent
            (build_update_statement table (schema table) [])
            (update_statement t table (schema table) [] s)
      unfolding update_statement keep_update
      update_statement-Yields =
          prepared-Yields IsCoherent (build_update_statement table (schema table) [])
            (keep_update t table)
            (λ st s' e k. record {
              inserts = k.inserts;
              updates = assign-IsBuilt _ s'.update_stmts table st e k.updates;
              deletes = k.deletes;
            })
            (λ st s'. refl) (lookup table s.update_stmts) s (h.updates table)
            (prepare-IsCoherent _ s h) h

      pub delete_statement-Yields :
          Yields IsCoherent
            (build_delete_statement_from_pk table (primary_columns (schema table)))
            (delete_statement t table
              (build_delete_statement_from_pk table (primary_columns (schema table)))
              s)
      unfolding delete_statement keep_delete
      delete_statement-Yields =
          prepared-Yields IsCoherent
            (build_delete_statement_from_pk table (primary_columns (schema table)))
            (keep_delete t table)
            (λ st s' e k. record {
              inserts = k.inserts;
              updates = k.updates;
              deletes = assign-IsBuilt _ s'.delete_stmts table st e k.deletes;
            })
            (λ st s'. refl) (lookup table s.delete_stmts) s (h.deletes table)
            (prepare-IsCoherent _ s h) h
