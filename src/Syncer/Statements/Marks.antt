-- ===== src/Syncer/Statements/Marks.antt =====
-- The number of parameter marks in each statement.
use mysql_to_mssql.Base.{
  ℕ, ◌+◌, ◌-◌, ◌≡◌, refl, ap, ltb, ◌∙◌, Bool, true, false, List, [], ◌∷◌, ◌++◌, arith, Bytes, codes,
  contains, trim_cons, trim_right, ◌==◌, length, if◌then◌else◌,
}
use mysql_to_mssql.Syncer.Columns.{Column}
use mysql_to_mssql.Syncer.Columns.Primary.{primary_columns}
use mysql_to_mssql.Syncer.Statements.{
  placeholder, insert_names, insert_marks, build_insert_statement, update_sets, primary_conditions,
  update_where, build_update_statement, delete_where, build_delete_statement_from_pk,
}

-- How many question marks a text has.
abbrev pub marks : Bytes → ℕ
marks [] = 0
marks (c ∷ s) = (if c == b'?' then 1 else 0) + marks s

-- No column name holds a question mark.
abbrev pub NamesPlain : List Column → Type 0
NamesPlain [] = Unit
NamesPlain (c ∷ cs) = (marks c.name ≡ 0) × NamesPlain cs

marks-append : (s t : Bytes) → marks (s ++ t) ≡ marks s + marks t
marks-append [] t = omega arith
marks-append (c ∷ s) t = ground (arith, marks-append s t)

marks-trim_cons :
    (c : ℕ) (b : Bool) (s : Bytes)
    → (b ≡ true → (c == b'?') ≡ false)
    → marks (trim_cons c b s) ≡ marks (c ∷ s)
unfolding trim_cons
marks-trim_cons c true [] h = ground (arith, h refl)
marks-trim_cons c false [] h = refl
marks-trim_cons c true (d ∷ s) h = refl
marks-trim_cons c false (d ∷ s) h = refl

not_mark : (c : ℕ) → contains (codes " AND ") c ≡ true → (c == b'?') ≡ false
unfolding contains
not_mark c h = ground arith

-- Trimming takes off no mark.
marks-trim_right : (s : Bytes) → marks (trim_right s (codes " AND ")) ≡ marks s
unfolding trim_right
marks-trim_right [] = refl
marks-trim_right (c ∷ s) =
    marks-trim_cons c (contains (codes " AND ") c) (trim_right s (codes " AND ")) (not_mark c)
    ∙ ap (λ (n : ℕ). (if c == b'?' then 1 else 0) + n) (marks-trim_right s)

marks-placeholder : (c : Column) → marks (placeholder c) ≡ 1
unfolding placeholder
marks-placeholder c = ground arith

marks-insert_names : (i n : ℕ) (cs : List Column) → NamesPlain cs → marks (insert_names i n cs) ≡ 0
unfolding insert_names
marks-insert_names i n [] h = refl
marks-insert_names i n (c ∷ cs) h = ground (
  arith,
  h.0,
  marks-insert_names (i + 1) n cs h.1,
  marks-append c.name ((if ltb i (n - 1) then b',' else b')') ∷ insert_names (i + 1) n cs),
)

marks-insert_marks : (i n : ℕ) (cs : List Column) → marks (insert_marks i n cs) ≡ length cs
unfolding insert_marks
marks-insert_marks i n [] = refl
marks-insert_marks i n (c ∷ cs) = ground (
  arith,
  marks-placeholder c,
  marks-insert_marks (i + 1) n cs,
  marks-append (placeholder c) ((if ltb i (n - 1) then b',' else b')') ∷ insert_marks (i + 1) n cs),
)

marks-update_sets :
    (i n : ℕ) (cs : List Column) → NamesPlain cs → marks (update_sets i n cs) ≡ length cs
unfolding update_sets
marks-update_sets i n [] h = refl
marks-update_sets i n (c ∷ cs) h =
    let tail : Bytes = (if ltb i (n - 1) then codes "," else []) ++ update_sets (i + 1) n cs in
    ground (
      arith,
      h.0,
      marks-placeholder c,
      marks-update_sets (i + 1) n cs h.1,
      marks-append c.name (b'=' ∷ (placeholder c ++ tail)),
      marks-append (placeholder c) tail,
      marks-append (if ltb i (n - 1) then codes "," else []) (update_sets (i + 1) n cs),
    )

marks-primary_conditions :
    (cs : List Column) → NamesPlain cs → marks (primary_conditions cs) ≡ length (primary_columns cs)
unfolding primary_conditions primary_columns
marks-primary_conditions [] h = refl
marks-primary_conditions (c ∷ cs) h = ground (
  arith,
  h.0,
  marks-primary_conditions cs h.1,
  marks-append c.name (codes "=? AND "),
  marks-append (c.name ++ codes "=? AND ") (primary_conditions cs),
)

-- An insert statement has one mark for each column.
pub marks-build_insert_statement :
    (table : Bytes) (cs : List Column)
    → marks table ≡ 0
    → NamesPlain cs
    → marks (build_insert_statement table cs) ≡ length cs
unfolding build_insert_statement
marks-build_insert_statement table cs ht hc =
    simp marks-append (
      omega
        (arith, ht, marks-insert_names 0 (length cs) cs hc, marks-insert_marks 0 (length cs) cs))

marks-update_where :
    (cs : List Column) → NamesPlain cs → marks (update_where cs []) ≡ length (primary_columns cs)
unfolding update_where primary_columns
marks-update_where [] h = refl
marks-update_where (c ∷ cs) h = omega (arith, marks-primary_conditions (c ∷ cs) h)

-- An update by primary key has one mark for each column to set and one for each primary column.
pub marks-build_update_statement :
    (table : Bytes) (cs : List Column)
    → marks table ≡ 0
    → NamesPlain cs
    → marks (build_update_statement table cs []) ≡ length cs + length (primary_columns cs)
unfolding build_update_statement
marks-build_update_statement table cs ht hc = rw marks-trim_right (
    simp marks-append
      (omega (arith, ht, marks-update_sets 0 (length cs) cs hc, marks-update_where cs hc)))

marks-delete_where :
    (cs : List Column) → NamesPlain cs → marks (delete_where cs) ≡ length (primary_columns cs)
unfolding delete_where primary_columns
marks-delete_where [] h = refl
marks-delete_where (c ∷ cs) h = omega (arith, marks-primary_conditions (c ∷ cs) h)

-- A delete by primary key has one mark for each primary column.
pub marks-build_delete_statement_from_pk :
    (table : Bytes) (cs : List Column)
    → marks table ≡ 0
    → NamesPlain cs
    → marks (build_delete_statement_from_pk table cs) ≡ length (primary_columns cs)
unfolding build_delete_statement_from_pk
marks-build_delete_statement_from_pk table cs ht hc =
    rw marks-trim_right (simp marks-append (omega (arith, ht, marks-delete_where cs hc)))
