-- ===== src/Parser/Rows/Layouts.antt =====
-- What holds of the models, and does not depend on the values of their fields, OnRow keeps.
use mysql_to_mssql.Base.{
  ◌≡◌, sym, ap, ◌∙◌, List, some, Bytes, Dict, eqb, eqb_iff, Bool-cases, inl, inr, lookup, ok,
  Option-cases, some-injective,
}
use mysql_to_mssql.Reflect.{Foreign, Struct}
use mysql_to_mssql.Syncer.Gob.{layout}
use mysql_to_mssql.Parser.Cells.{RowsEvent}
use mysql_to_mssql.Parser.Rows.{Callback, on_row}
use mysql_to_mssql.Parser.Rows.Events.{on_row-layout, on_row-others, on_row-none}

-- Each table's model has the property.
abbrev pub AllModels : {f : Foreign} → (Bytes → Struct f → Type 0) → Dict (Struct f) → Type 0
AllModels {f} P ms = (table : Bytes) (p : Struct f) → lookup table ms ≡ some p → P table p

module _ {f : Foreign} (P : Bytes → Struct f → Type 0)
    (same : (table : Bytes) (m p : Struct f) → layout m ≡ layout p → P table p → P table m) where
  pub on_row-AllModels :
      (e : RowsEvent f) (ms ms' : Dict (Struct f)) (calls : List (Callback f))
      → AllModels P ms
      → on_row e ms ≡ ok (calls, ms')
      → AllModels P ms'
  on_row-AllModels e ms ms' calls h q table p' found' = elim (Option-cases (lookup e.table ms)) [
    | inl n ↦
        h table p' (ap (λ k. lookup table k) (sym (on_row-none e ms ms' calls n q).1) ∙ found')
    | inr (p, found) ↦ elim (Bool-cases (eqb e.table table)) [
      | inl here ↦
          let (left, is_left, same_type) = on_row-layout e ms ms' p calls found q in
          let e_is = (eqb_iff e.table table).0 here in
          let p'_is : p' ≡ left =
            some-injective (sym found' ∙ ap (λ k. lookup k ms') (sym e_is) ∙ is_left) in
          same table p' p (ap layout p'_is ∙ same_type)
            (h table p (ap (λ k. lookup k ms) (sym e_is) ∙ found))
      | inr away ↦ h table p' (sym (on_row-others e ms ms' calls table away q) ∙ found')
    ]
  ]
