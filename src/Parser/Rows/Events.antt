-- ===== src/Parser/Rows/Events.antt =====
-- The calls that OnRow makes.
use mysql_to_mssql.Base.{
  Distinct, insert-Distinct, Bytes, eqb, lookup-insert, eqb_refl, ℕ, zero, suc, ◌+◌, ◌≤◌, ◌<◌,
  fun_ext, arith, [], ◌-◌, ◌≡◌, refl, sym, ap, ◌∙◌, ltb, Bool, true, false, List, ◌++◌, Option,
  none, some, All, All-append, length, Dict, lookup, insert as assign, Result, ok, err, panic,
  ◌>>=◌, ok-injective, >>=-eq-ok, if◌then◌else◌,
}
use mathlib.Core.Path.{subst}
use mysql_to_mssql.Reflect.{Foreign, Struct}
use mysql_to_mssql.Syncer.Gob.{layout}
use mysql_to_mssql.Parser.Cells.{RowsEvent, RowAction}
use mysql_to_mssql.Parser.Rows.{
  get_bin_log_data, Callback, on_insert, on_update, on_delete, with_old, call_handler, row_loop,
  on_model, on_row, first_row, stride,
}
use mysql_to_mssql.Parser.Rows.Typed.{Reads, get_bin_log_data-Reads}

-- A call whose structs have the type of `p`.
abbrev pub CallTyped : {f : Foreign} → Struct f → Callback f → Type 0
CallTyped p (on_insert m) = layout m ≡ layout p
CallTyped p (on_update old new) = (layout old ≡ layout p) × (layout new ≡ layout p)
CallTyped p (on_delete m) = layout m ≡ layout p

module _ {f : Foreign} where
  -- The calls are typed, and so is the placeholder that is left.
  abbrev Calls : Struct f → Result (List (Callback f) × Struct f) → Type 0
  Calls p (ok (calls, p')) = All (CallTyped p) calls × (layout p' ≡ layout p)
  Calls p _ = Unit

  with_old-Calls :
      (p new : Struct f) (r : Result (Option (Struct f) × Struct f))
      → layout new ≡ layout p
      → ((x : Option (Struct f) × Struct f) → r ≡ ok x → Reads p x)
      → Calls p (r >>= with_old new)
  unfolding with_old
  with_old-Calls p new (ok (none, p')) hn h = (tt, h _ refl)
  with_old-Calls p new (ok (some old, p')) hn h =
      let (h₁, h₂) = h (some old, p') refl in (((h₂, hn), tt), h₁)
  with_old-Calls p new (err e) hn h = tt
  with_old-Calls p new panic hn h = tt

  -- `Reads` at a placeholder of the same type.
  Reads-trans :
      (p p' : Struct f) (x : Option (Struct f) × Struct f)
      → layout p' ≡ layout p
      → Reads p' x
      → Reads p x
  Reads-trans p p' (none, p'') h r = r ∙ h
  Reads-trans p p' (some new, p'') h (r, r') = (r ∙ h, r' ∙ h)

  call_handler-Calls :
      (e : RowsEvent f) (i : ℕ) (action : RowAction) (p : Struct f)
      (x : Option (Struct f) × Struct f)
      → Reads p x
      → Calls p (call_handler e i action x)
  unfolding call_handler
  call_handler-Calls e i action p (none, p') h = (tt, h)
  call_handler-Calls e i RowAction.update p (some new, p') (h, hn) =
      with_old-Calls p new (get_bin_log_data e (i - 1) p') hn
        (λ x q. Reads-trans p p' x h (get_bin_log_data-Reads e (i - 1) p' q))
  call_handler-Calls e i RowAction.insert p (some new, p') (h, hn) = ((hn, tt), h)
  call_handler-Calls e i RowAction.delete p (some new, p') (h, hn) = ((hn, tt), h)
  call_handler-Calls e i RowAction.unknown p (some new, p') (h, hn) = (tt, h)

  Calls-bind :
      {X : Type 0} (p : Struct f) (r : Result X) (k : X → Result (List (Callback f) × Struct f))
      → ((x : X) → r ≡ ok x → Calls p (k x))
      → Calls p (r >>= k)
  Calls-bind p (ok x) k h = h x refl
  Calls-bind p (err e) k h = tt
  Calls-bind p panic k h = tt

  Calls-append :
      (p : Struct f) (x : List (Callback f) × Struct f) (r : Result (List (Callback f) × Struct f))
      → All (CallTyped p) x.0
      → Calls p r
      → Calls p (r >>= λ x'. ok (x.0 ++ x'.0, x'.1))
  Calls-append p x (ok x') h (h₁, h₂) = (All-append (CallTyped p) x.0 x'.0 h h₁, h₂)
  Calls-append p x (err e) h h' = tt
  Calls-append p x panic h h' = tt

  Calls-if :
      (p : Struct f) (b : Bool) (r r' : Result (List (Callback f) × Struct f))
      → Calls p r
      → Calls p r'
      → Calls p (if b then r else r')
  Calls-if p true r r' h h' = h
  Calls-if p false r r' h h' = h'

  row_loop-Calls :
      (fuel : ℕ) (e : RowsEvent f) (i : ℕ) (p p₀ : Struct f)
      → layout p ≡ layout p₀
      → Calls p₀ (row_loop fuel e i p)
  unfolding row_loop
  row_loop-Calls zero e i p p₀ h = (tt, h)
  row_loop-Calls (suc fuel) e i p p₀ h =
      Calls-if p₀ (ltb i (length e.rows)) _ _
        (Calls-bind p₀ (get_bin_log_data e i p) _ (λ x q.
          Calls-bind p₀ (call_handler e i e.action x) _ (λ y q'.
            let (ht, hp) = subst (Calls p₀) q' (
              call_handler-Calls e i e.action p₀ x
                (Reads-trans p₀ p x h (get_bin_log_data-Reads e i p q))) in
            Calls-append p₀ y (row_loop fuel e (i + stride e.action) y.1) ht
              (row_loop-Calls fuel e (i + stride e.action) y.1 p₀ hp))))
        (tt, h)

  -- Where OnRow ends well, for a table with a model, the structs of all calls that it made have
  -- the type of that model.
  pub on_row-CallTyped :
      (e : RowsEvent f) (models models' : Dict (Struct f)) (model : Struct f)
      (calls : List (Callback f))
      → lookup e.table models ≡ some model
      → on_row e models ≡ ok (calls, models')
      → All (CallTyped model) calls
  unfolding on_row on_model
  on_row-CallTyped e models models' model calls h q =
      let (y, h₁, h₂) =
        >>=-eq-ok (row_loop (length e.rows) e (first_row e.action) model)
          (λ y. ok (y.0, assign e.table y.1 models)) (sym (ap (on_model e models) h) ∙ q) in
      subst (All (CallTyped model))
        (ap (λ (z : List (Callback f) × Dict (Struct f)). z.0) (ok-injective h₂))
        (subst (Calls model) h₁
          (row_loop-Calls (length e.rows) e (first_row e.action) model model refl)).0

  on_model-others :
      (e : RowsEvent f) (models models' : Dict (Struct f)) (o : Option (Struct f))
      (calls : List (Callback f)) (table : Bytes)
      → eqb e.table table ≡ false
      → on_model e models o ≡ ok (calls, models')
      → lookup table models' ≡ lookup table models
  unfolding on_model
  on_model-others e models models' none calls table n q =
      ap (λ (z : List (Callback f) × Dict (Struct f)). lookup table z.1) (ok-injective (sym q))
  on_model-others e models models' (some model) calls table n q =
      let (y, h₁, h₂) =
        >>=-eq-ok (row_loop (length e.rows) e (first_row e.action) model)
          (λ y. ok (y.0, assign e.table y.1 models)) q in
      ap (λ (z : List (Callback f) × Dict (Struct f)). lookup table z.1) (sym (ok-injective h₂))
      ∙ lookup-insert e.table table y.1 models
      ∙ rw n refl

  -- Then the model that is left for the table is of the same type too.
  pub on_row-layout :
      (e : RowsEvent f) (models models' : Dict (Struct f)) (model : Struct f)
      (calls : List (Callback f))
      → lookup e.table models ≡ some model
      → on_row e models ≡ ok (calls, models')
      → (left : Struct f) × (lookup e.table models' ≡ some left) × (layout left ≡ layout model)
  unfolding on_row on_model
  on_row-layout e models models' model calls h q =
      let (y, h₁, h₂) =
        >>=-eq-ok (row_loop (length e.rows) e (first_row e.action) model)
          (λ y. ok (y.0, assign e.table y.1 models)) (sym (ap (on_model e models) h) ∙ q) in
      (
        y.1,
        ap (λ (z : List (Callback f) × Dict (Struct f)). lookup e.table z.1) (sym (ok-injective h₂))
            ∙ lookup-insert e.table e.table y.1 models
            ∙ rw (eqb_refl e.table) refl,
        (subst (Calls model) h₁
            (row_loop-Calls (length e.rows) e (first_row e.action) model model refl)).1,
      )

  on_model-Distinct :
      (e : RowsEvent f) (models models' : Dict (Struct f)) (o : Option (Struct f))
      (calls : List (Callback f))
      → Distinct models
      → on_model e models o ≡ ok (calls, models')
      → Distinct models'
  unfolding on_model
  on_model-Distinct e models models' none calls h q =
      subst Distinct (ap (λ (z : List (Callback f) × Dict (Struct f)). z.1) (ok-injective q)) h
  on_model-Distinct e models models' (some model) calls h q =
      let (y, h₁, h₂) =
        >>=-eq-ok (row_loop (length e.rows) e (first_row e.action) model)
          (λ y. ok (y.0, assign e.table y.1 models)) q in
      subst Distinct (ap (λ (z : List (Callback f) × Dict (Struct f)). z.1) (ok-injective h₂))
        (insert-Distinct e.table y.1 models h)

  -- The models are still a map,
  pub on_row-Distinct :
      (e : RowsEvent f) (models models' : Dict (Struct f)) (calls : List (Callback f))
      → Distinct models
      → on_row e models ≡ ok (calls, models')
      → Distinct models'
  unfolding on_row
  on_row-Distinct e models models' calls =
      on_model-Distinct e models models' (lookup e.table models) calls

  -- no other model changes,
  pub on_row-others :
      (e : RowsEvent f) (models models' : Dict (Struct f)) (calls : List (Callback f))
      (table : Bytes)
      → eqb e.table table ≡ false
      → on_row e models ≡ ok (calls, models')
      → lookup table models' ≡ lookup table models
  unfolding on_row
  on_row-others e models models' calls table n q =
      on_model-others e models models' (lookup e.table models) calls table n q

  -- and without a model nothing is called.
  pub on_row-none :
      (e : RowsEvent f) (models models' : Dict (Struct f)) (calls : List (Callback f))
      → lookup e.table models ≡ none
      → on_row e models ≡ ok (calls, models')
      → (calls ≡ []) × (models' ≡ models)
  unfolding on_row on_model
  on_row-none e models models' calls h q =
      let z = ok-injective (sym q ∙ ap (on_model e models) h) in
      (
        ap (λ (z : List (Callback f) × Dict (Struct f)). z.0) z,
        ap (λ (z : List (Callback f) × Dict (Struct f)). z.1) z,
      )

module _ {f : Foreign} (e : RowsEvent f) where
  -- One round of the loop, with what comes after it.
  round :
      ℕ
      → Struct f
      → (Struct f → Result (List (Callback f) × Struct f))
      → Result (List (Callback f) × Struct f)
  round i p next =
      if ltb i (length e.rows)
      then (get_bin_log_data e i p >>= λ read. call_handler e i e.action read >>= λ (calls, p').
          next p' >>= λ (rest, p₂). ok (calls ++ rest, p₂))
      else ok ([], p)

  no_rows : (i : ℕ) → length e.rows ≤ i → ltb i (length e.rows) ≡ false
  no_rows i h = ground arith

  stride_positive : (a : RowAction) → 0 < stride a
  stride_positive RowAction.update = omega arith
  stride_positive _ = omega arith

  -- The loop over the rows, whose fuel stands for the loop's test, does not run out of it: any fuel
  -- that is at least the number of the rows from `i` on gives the same calls.
  pub row_loop-fuel :
      (fuel more i : ℕ) (p : Struct f)
      → length e.rows ≤ i + fuel
      → length e.rows ≤ i + more
      → row_loop fuel e i p ≡ row_loop more e i p
  unfolding row_loop round
  row_loop-fuel zero zero i p h h' = refl
  row_loop-fuel zero (suc more) i p h h' = rw (no_rows i (omega (arith, h))) refl
  row_loop-fuel (suc fuel) zero i p h h' = rw (no_rows i (omega (arith, h'))) refl
  row_loop-fuel (suc fuel) (suc more) i p h h' = ap (round i p) (
      fun_ext (λ p'.
        row_loop-fuel fuel more (i + stride e.action) p' (omega (arith, stride_positive e.action))
          (omega (arith, stride_positive e.action))))
