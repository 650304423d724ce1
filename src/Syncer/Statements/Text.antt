-- ===== src/Syncer/Statements/Text.antt =====
-- What the statements read, against a reference text that joins their parts.
use mysql_to_mssql.Base.{
  ℕ, Bool-cases, inl, inr, suc, ◌+◌, ◌-◌, ◌≡◌, refl, sym, ap, ◌∙◌, true, false, List, [], ◌∷◌, ◌++◌,
  append_assoc, append-nil, map, arith, Bytes, codes, contains, trim_right, ltb, length,
}
use mysql_to_mssql.Syncer.Columns.{Column}
use mysql_to_mssql.Syncer.Columns.Primary.{primary_columns}
use mysql_to_mssql.Syncer.Statements.{
  placeholder, insert_names, insert_marks, build_insert_statement, update_sets, primary_conditions,
  update_where, build_update_statement, delete_where, build_delete_statement_from_pk,
}
use mysql_to_mssql.Syncer.Statements.Trim.{trim_right-append, trim_right-concat}

-- The reference: parts with a separator between them.
unfoldable pub join : Bytes → List Bytes → Bytes
join sep [] = []
join sep (p ∷ []) = p
join sep (p ∷ q ∷ ps) = p ++ (sep ++ join sep (q ∷ ps))

abbrev pub names : List Column → List Bytes
names = map (λ c. c.name)

abbrev pub assignments : List Column → List Bytes
assignments = map (λ c. c.name ++ b'=' ∷ placeholder c)

abbrev pub conditions : List Column → List Bytes
conditions = map (λ c. c.name ++ codes "=?")

-- The loops' test for the last column.
at_last : (i n : ℕ) → n ≡ i + 1 → ltb i (n - 1) ≡ false
at_last i n h = ground arith

before_last : (i n k : ℕ) → n ≡ i + suc (suc k) → ltb i (n - 1) ≡ true
before_last i n k h = ground arith

insert_names-join :
    (i n : ℕ) (c : Column) (cs : List Column)
    → n ≡ i + length (c ∷ cs)
    → insert_names i n (c ∷ cs) ≡ join (codes ",") (names (c ∷ cs)) ++ codes ")"
unfolding insert_names join
insert_names-join i n c [] h = rw (at_last i n h)
insert_names-join i n c (d ∷ cs) h =
    rw (before_last i n (length cs) h, insert_names-join (i + 1) n d cs (omega arith), append_assoc)

insert_marks-join :
    (i n : ℕ) (c : Column) (cs : List Column)
    → n ≡ i + length (c ∷ cs)
    → insert_marks i n (c ∷ cs) ≡ join (codes ",") (map placeholder (c ∷ cs)) ++ codes ")"
unfolding insert_marks join
insert_marks-join i n c [] h = rw (at_last i n h)
insert_marks-join i n c (d ∷ cs) h =
    rw (before_last i n (length cs) h, insert_marks-join (i + 1) n d cs (omega arith), append_assoc)

update_sets-join :
    (i n : ℕ) (c : Column) (cs : List Column)
    → n ≡ i + length (c ∷ cs)
    → update_sets i n (c ∷ cs) ≡ join (codes ",") (assignments (c ∷ cs))
unfolding update_sets join
update_sets-join i n c [] h = rw (at_last i n h) (simp append-nil)
update_sets-join i n c (d ∷ cs) h =
    rw (before_last i n (length cs) h, update_sets-join (i + 1) n d cs (omega arith), append_assoc)

-- What the loop over the primary columns writes for those alone.
written : List Column → Bytes
written [] = []
written (p ∷ ps) = p.name ++ (codes "=? AND " ++ written ps)

primary_conditions-written :
    (cs : List Column) → primary_conditions cs ≡ written (primary_columns cs)
unfolding primary_conditions primary_columns written
primary_conditions-written [] = refl
primary_conditions-written (c ∷ cs) = elim (Bool-cases c.is_primary_key) [
  | inl e ↦ rw (e, primary_conditions-written cs, append_assoc)
  | inr e ↦ rw (e, primary_conditions-written cs)
]

-- The same without its last mark and what follows it.
stem : Column → List Column → Bytes
stem p [] = p.name ++ codes "="
stem p (q ∷ qs) = p.name ++ (codes "=? AND " ++ stem q qs)

written-stem :
    (p : Column) (ps : List Column) → written (p ∷ ps) ≡ stem p ps ++ b'?' ∷ codes " AND "
unfolding written stem
written-stem p [] = rw append_assoc
written-stem p (q ∷ qs) =
    ap (λ (r : Bytes). p.name ++ (codes "=? AND " ++ r)) (written-stem q qs)
    ∙ sym (append_assoc p.name (codes "=? AND " ++ stem q qs) (b'?' ∷ codes " AND "))

join-stem :
    (p : Column) (ps : List Column)
    → join (codes " AND ") (conditions (p ∷ ps)) ≡ stem p ps ++ codes "?"
unfolding join stem
join-stem p [] = rw append_assoc
join-stem p (q ∷ qs) = rw (join-stem q qs, append_assoc, append_assoc)

-- A text that ends in the loop over at least one primary column loses the last separator.
trim_right-written :
    (s : Bytes) (p : Column) (ps : List Column)
    → trim_right (s ++ written (p ∷ ps)) (codes " AND ")
      ≡ s ++ join (codes " AND ") (conditions (p ∷ ps))
unfolding contains
trim_right-written s p ps =
    rw (written-stem, join-stem)
      (ap (λ (r : Bytes). trim_right r (codes " AND "))
          (sym (append_assoc s (stem p ps) (b'?' ∷ codes " AND ")))
        ∙ trim_right-append (s ++ stem p ps) b'?' (codes " AND ") (codes " AND ") refl
            (refl, (refl, (refl, (refl, (refl, tt)))))
        ∙ append_assoc s (stem p ps) (codes "?"))

-- The insert statement for at least one column lists the columns in order, and a mark for each.
pub build_insert_statement_lem :
    (table : Bytes) (c : Column) (cs : List Column)
    → build_insert_statement table (c ∷ cs)
      ≡ codes "insert into "
        ++ (table
            ++ (codes " ("
                ++ (join (codes ",") (names (c ∷ cs))
                    ++ (codes ") values ("
                        ++ (join (codes ",") (map placeholder (c ∷ cs)) ++ codes ")")))))
unfolding build_insert_statement
build_insert_statement_lem table c cs =
    rw
      (
        insert_names-join 0 (length (c ∷ cs)) c cs (omega arith),
        insert_marks-join 0 (length (c ∷ cs)) c cs (omega arith),
      )
      (simp append_assoc)

-- The text of an update up to its conditions.
unfoldable pub update_head : Bytes → List Column → Bytes
update_head table cols =
    codes "update "
    ++ (table ++ (codes " set " ++ (join (codes ",") (assignments cols) ++ codes " where ")))

module _ (table : Bytes) (c : Column) (cs : List Column) where
  update_text :
      (condition : Bytes)
      → codes "update "
          ++ (table
              ++ (codes " set "
                  ++ (update_sets 0 (length (c ∷ cs)) (c ∷ cs) ++ (codes " where " ++ condition))))
        ≡ update_head table (c ∷ cs) ++ condition
  unfolding update_head
  update_text condition =
      rw (update_sets-join 0 (length (c ∷ cs)) c cs (omega arith)) (simp append_assoc)

  by_condition :
      (v : ℕ) (w : Bytes)
      → build_update_statement table (c ∷ cs) (v ∷ w)
        ≡ trim_right (update_head table (c ∷ cs) ++ v ∷ w) (codes " AND ")
  unfolding build_update_statement update_where
  by_condition v w = ap (λ (t : Bytes). trim_right t (codes " AND ")) (update_text (v ∷ w))

  by_primary :
      build_update_statement table (c ∷ cs) []
      ≡ trim_right (update_head table (c ∷ cs) ++ primary_conditions (c ∷ cs)) (codes " AND ")
  unfolding build_update_statement update_where
  by_primary =
      ap (λ (t : Bytes). trim_right t (codes " AND ")) (update_text (primary_conditions (c ∷ cs)))

  -- An update by primary key sets every column in order, and compares every primary column in
  -- order, if there is one.
  pub build_update_statement_lem :
      (p : Column) (ps : List Column)
      → primary_columns (c ∷ cs) ≡ p ∷ ps
      → build_update_statement table (c ∷ cs) []
        ≡ update_head table (c ∷ cs) ++ join (codes " AND ") (conditions (p ∷ ps))
  build_update_statement_lem p ps h =
      by_primary
      ∙ rw (primary_conditions-written (c ∷ cs), h)
          (trim_right-written (update_head table (c ∷ cs)) p ps)

  -- An update of at least one column by a condition of at least two bytes keeps the whole condition
  -- if its last byte is none of ` AND `.
  pub build_update_statement-condition :
      (v : ℕ) (w : Bytes) (x : ℕ)
      → contains (codes " AND ") x ≡ false
      → build_update_statement table (c ∷ cs) (v ∷ w ++ x ∷ [])
        ≡ update_head table (c ∷ cs) ++ (v ∷ w ++ x ∷ [])
  build_update_statement-condition v w x h =
      by_condition v (w ++ x ∷ [])
      ∙ rw (← append_assoc)
          (trim_right-append (update_head table (c ∷ cs) ++ v ∷ w) x [] (codes " AND ") h tt)

  -- An update by a condition of two bytes or more loses its last byte where that is a space or
  -- one of the letters A, N and D.
  pub build_update_statement-trimmed :
      (v : ℕ) (w : Bytes) (x : ℕ)
      → contains (codes " AND ") x ≡ true
      → build_update_statement table (c ∷ cs) (v ∷ w ++ x ∷ [])
        ≡ build_update_statement table (c ∷ cs) (v ∷ w)
  build_update_statement-trimmed v w x h =
      by_condition v (w ++ x ∷ [])
      ∙ ap (λ (t : Bytes). trim_right t (codes " AND "))
          (sym (append_assoc (update_head table (c ∷ cs)) (v ∷ w) (x ∷ [])))
      ∙ trim_right-concat (update_head table (c ∷ cs) ++ v ∷ w) x (codes " AND ") h
      ∙ sym (by_condition v w)

-- A delete by primary key compares every primary column in order, if there is one.
pub build_delete_statement_from_pk_lem :
    (table : Bytes) (c : Column) (cs : List Column) (p : Column) (ps : List Column)
    → primary_columns (c ∷ cs) ≡ p ∷ ps
    → build_delete_statement_from_pk table (c ∷ cs)
      ≡ codes "delete from "
        ++ (table ++ (codes " where " ++ join (codes " AND ") (conditions (p ∷ ps))))
unfolding build_delete_statement_from_pk delete_where
build_delete_statement_from_pk_lem table c cs p ps h =
    let head : Bytes = codes "delete from " ++ (table ++ codes " where ") in
    ap (λ (t : Bytes). trim_right t (codes " AND "))
      (simp (primary_conditions-written, h, append_assoc))
    ∙ trim_right-written head p ps
    ∙ simp append_assoc
