-- ===== src/Parser/Tags/Agreement.antt =====
-- The two parsers of struct tags, that of the parser and that of the syncer, on the same tags.
use mysql_to_mssql.Base.{
  ℕ, ◌+◌, ◌≡◌, refl, sym, ap, ◌∙◌, ◌==◌, leb, true, false, [], ◌∷◌, ◌++◌, append_assoc, append-nil,
  All, All-append, Bytes, length, length-append, ok, panic, arith,
}
use mysql_to_mssql.Syncer.Columns
use mysql_to_mssql.Parser.Tags.{find_last, slice, cut_at, hack_find, parse_tag_setting}
use mysql_to_mssql.Parser.Tags.Delimiters.{
  find_last-plain, find_last-behind, find_last-rest, slice_name, cut_at-rest, split2-append,
  split2-plain, IsPlain,
}

no_colon : (s : Bytes) → IsPlain s → All (λ c. (c == b':') ≡ false) s
no_colon [] h = tt
no_colon (c ∷ s) h = (h.0.0, no_colon s h.1)

no_semicolon : (s : Bytes) → IsPlain s → All (λ c. (c == b';') ≡ false) s
no_semicolon [] h = tt
no_semicolon (c ∷ s) h = (h.0.1, no_semicolon s h.1)

no_semicolon-head :
    (key name : Bytes)
    → IsPlain key
    → IsPlain name
    → All (λ c. (c == b';') ≡ false) (key ++ (b':' ∷ name))
no_semicolon-head key name hk hn =
    All-append (λ c. (c == b';') ≡ false) key (b':' ∷ name) (no_semicolon key hk)
      (refl, no_semicolon name hn)

-- For a tag `key:name;rest` with a key that is not empty, and in which each delimiter stands once,
-- the parser gives the name and the rest, and the syncer splits the tag into these and the key.
pub parse_tag_setting-rest :
    (k : ℕ) (key name rest : Bytes)
    → IsPlain (k ∷ key)
    → IsPlain name
    → IsPlain rest
    → (parse_tag_setting ((k ∷ key) ++ (b':' ∷ (name ++ (b';' ∷ rest)))) ≡ ok (name, rest))
      × (Columns.parse_tag_setting ((k ∷ key) ++ (b':' ∷ (name ++ (b';' ∷ rest))))
          ≡ (k ∷ key) ∷ name ∷ rest ∷ [])
unfolding parse_tag_setting hack_find Columns.parse_tag_setting
parse_tag_setting-rest k key name rest hk hn hr =
    let K = k ∷ key in
    let s = K ++ (b':' ∷ (name ++ (b';' ∷ rest))) in
    (
      ap (cut_at s) (find_last-rest K name rest (length s) hk hn hr) ∙ cut_at-rest k key name rest,
      rw
          (
            sym (append_assoc K (b':' ∷ name) (b';' ∷ rest)),
            split2-append b';' (K ++ (b':' ∷ name)) rest (no_semicolon-head K name hk hn),
            split2-append b':' K name (no_colon K hk),
          )
          refl,
    )

find_last-name :
    (key name : Bytes) (n : ℕ)
    → IsPlain key
    → IsPlain name
    → find_last b':' b';' 0 (key ++ (b':' ∷ name)) (0, n) ≡ (length key, n)
unfolding find_last
find_last-name key name n hk hn =
    find_last-behind 0 (length key) key (b':' ∷ name) (0, n) (omega arith) hk
    ∙ find_last-plain (length key + 1) name (length key, n) hn

cut_at-name :
    (k : ℕ) (key name : Bytes)
    → cut_at ((k ∷ key) ++ (b':' ∷ name)) (length (k ∷ key), length ((k ∷ key) ++ (b':' ∷ name)))
      ≡ ok (name, [])
unfolding cut_at
cut_at-name k key name =
    let K = k ∷ key in
    let total : length (K ++ (b':' ∷ name)) ≡ length K + 1 + length name =
      omega (arith, length-append K (b':' ∷ name)) in
    let part : slice (length K + 1) (length K + 1 + length name) (K ++ (b':' ∷ name)) ≡ ok name =
      ap (λ (l : Bytes). slice (length K + 1) (length K + 1 + length name) (K ++ (b':' ∷ l)))
        (sym (append-nil name))
      ∙ slice_name K name [] in
    let e₁ : (length K == 0) ≡ false = ground arith in
    let e₂ : (length K + 1 + length name == length K + 1 + length name) ≡ true = ground arith in
    rw (total, e₁, e₂, part) refl

-- For a tag `key:name` with a key that is not empty and no other delimiter, the parser gives the
-- name with no rest, and the syncer splits the tag into the key and the name.
pub parse_tag_setting-name :
    (k : ℕ) (key name : Bytes)
    → IsPlain (k ∷ key)
    → IsPlain name
    → (parse_tag_setting ((k ∷ key) ++ (b':' ∷ name)) ≡ ok (name, []))
      × (Columns.parse_tag_setting ((k ∷ key) ++ (b':' ∷ name)) ≡ (k ∷ key) ∷ name ∷ [])
unfolding parse_tag_setting hack_find Columns.parse_tag_setting
parse_tag_setting-name k key name hk hn =
    let K = k ∷ key in
    let s = K ++ (b':' ∷ name) in
    (
      ap (cut_at s) (find_last-name K name (length s) hk hn) ∙ cut_at-name k key name,
      rw
          (
            split2-plain b';' (K ++ (b':' ∷ name)) (no_semicolon-head K name hk hn),
            split2-append b':' K name (no_colon K hk),
          )
          refl,
    )

find_last-swapped :
    (part key name : Bytes) (n : ℕ)
    → IsPlain part
    → IsPlain key
    → IsPlain name
    → find_last b':' b';' 0 (part ++ (b';' ∷ (key ++ (b':' ∷ name)))) (0, n)
      ≡ (length part + 1 + length key, length part)
unfolding find_last
find_last-swapped part key name n hp hk hn =
    find_last-behind 0 (length part) part (b';' ∷ (key ++ (b':' ∷ name))) (0, n) (omega arith) hp
    ∙ find_last-behind (length part + 1) (length part + 1 + length key) key (b':' ∷ name)
        (0, length part) refl hk
    ∙ find_last-plain (length part + 1 + length key + 1) name
        (length part + 1 + length key, length part) hn

not_before : (a b : ℕ) → leb (a + 1 + b + 1) a ≡ false
not_before a b = ground arith

-- For a tag `part;key:name`, with no other delimiter, the parser panics, while the syncer splits it
-- into the first part and the rest.
pub parse_tag_setting-swapped :
    (part key name : Bytes)
    → IsPlain part
    → IsPlain key
    → IsPlain name
    → (parse_tag_setting (part ++ (b';' ∷ (key ++ (b':' ∷ name)))) ≡ panic)
      × (Columns.parse_tag_setting (part ++ (b';' ∷ (key ++ (b':' ∷ name))))
          ≡ part ∷ (key ++ (b':' ∷ name)) ∷ [])
unfolding parse_tag_setting hack_find cut_at slice Columns.parse_tag_setting
parse_tag_setting-swapped part key name hp hk hn =
    let s = part ++ (b';' ∷ (key ++ (b':' ∷ name))) in
    let total : length s ≡ length part + 1 + length (key ++ (b':' ∷ name)) =
      omega (arith, length-append part (b';' ∷ (key ++ (b':' ∷ name)))) in
    let e₁ : (length part + 1 + length key == 0) ≡ false = ground arith in
    let e₂ : (length part == length s) ≡ false = ground (arith, total) in
    (
      ap (cut_at s) (find_last-swapped part key name (length s) hp hk hn)
          ∙ rw (e₁, e₂, not_before (length part) (length key)) refl,
      rw
          (
            split2-append b';' part (key ++ (b':' ∷ name)) (no_semicolon part hp),
            split2-plain b':' part (no_colon part hp),
          )
          refl,
    )
