-- ===== src/Parser/Rows/Reports.antt =====
-- The calls of OnRow, row by row.
use mysql_to_mssql.Base.{
  ℕ, ◌+◌, ◌-◌, ◌≤◌, ◌≡◌, refl, ◌⊎◌, List, [], ◌∷◌, ◌++◌, Option, none, some, insert as assign,
  length, Result, ok, err, panic, ◌>>=◌,
}
use mysql_to_mssql.Reflect.{Foreign, Struct}
use mysql_to_mssql.Parser.Cells.{RowsEvent, RowAction}
use mysql_to_mssql.Parser.Rows.{Callback, on_insert, on_update, on_delete, stride, get_bin_log_data}
use mysql_to_mssql.Syncer.Gob.{layout}
use mysql_to_mssql.Parser.Rows.Values.{OnOk}
use mysql_to_mssql.Parser.Rows.Values.Structs.{HasTypes}

module _ {f : Foreign} (e : RowsEvent f) (model : Struct f) where
  -- A struct of the model's type, with values of the types of its fields.
  abbrev pub IsTyped : Struct f → Type 0
  IsTyped p = HasTypes p × (layout p ≡ layout model)

  -- The struct was read from the row, into a struct of the model's type, and its values are of the types of their fields.
  pub record IsRead (row : ℕ) (m : Struct f) : Type 0 where
    pub placeholder : Struct f
    pub behind : Struct f
    pub is_read : get_bin_log_data e row placeholder ≡ ok (some m, behind)
    pub same_type : layout placeholder ≡ layout model
    pub is_typed : IsTyped m

  -- No struct is read from the row, since a field's type is not supported.
  pub record IsUnread (row : ℕ) : Type 0 where
    pub placeholder : Struct f
    pub behind : Struct f
    pub is_unread : get_bin_log_data e row placeholder ≡ ok (none, behind)
    pub same_type : layout placeholder ≡ layout model

  -- The calls for the rows from some row on.
  pub data Reports : ℕ → List (Callback f) → Type 0 where
    finished : {i : ℕ} → length e.rows ≤ i → Reports i []
    inserts_row :
        {i : ℕ} {m : Struct f} {cs : List (Callback f)}
        → e.action ≡ RowAction.insert
        → IsRead i m
        → Reports (i + stride e.action) cs
        → Reports i (on_insert m ∷ cs)
    deletes_row :
        {i : ℕ} {m : Struct f} {cs : List (Callback f)}
        → e.action ≡ RowAction.delete
        → IsRead i m
        → Reports (i + stride e.action) cs
        → Reports i (on_delete m ∷ cs)
    updates_row :
        {i : ℕ} {old new : Struct f} {cs : List (Callback f)}
        → e.action ≡ RowAction.update
        → IsRead (i - 1) old
        → IsRead i new
        → Reports (i + stride e.action) cs
        → Reports i (on_update old new ∷ cs)
    passes_row :
        {i : ℕ} {cs : List (Callback f)}
        → IsUnread i
          ⊎ (((e.action ≡ RowAction.update) × IsUnread (i - 1)) ⊎ (e.action ≡ RowAction.unknown))
        → Reports (i + stride e.action) cs
        → Reports i cs

  -- What is read for a row, if anything, and the placeholder behind it.
  abbrev ReadTyped : Option (Struct f) × Struct f → Type 0
  ReadTyped (none, p) = IsTyped p
  ReadTyped (some m, p) = IsTyped m × IsTyped p

  -- What a round of the loop does.
  abbrev Reported : ℕ → List (Callback f) × Struct f → Type 0
  Reported i (calls, p) =
      ((cs : List (Callback f)) → Reports (i + stride e.action) cs → Reports i (calls ++ cs))
      × IsTyped p

  abbrev Looped : ℕ → List (Callback f) × Struct f → Type 0
  Looped i (calls, p) = Reports i calls × IsTyped p

  -- A bind whose first part is known by an equation.
  round :
      {A : Type 0} {B : Type 0} (P : A → Type 0) (Q : B → Type 0) (r : Result A) (k : A → Result B)
      → OnOk P r
      → ((a : A) → r ≡ ok a → P a → OnOk Q (k a))
      → OnOk Q (r >>= k)
  round P Q (ok a) k h next = next a refl h
  round P Q (err x) k h next = tt
  round P Q panic k h next = tt
