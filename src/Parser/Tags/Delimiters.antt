-- ===== src/Parser/Tags/Delimiters.antt =====
-- Where the delimiters of a tag are found, and what stands between them.
use mysql_to_mssql.Base.{
  ℕ, ◌+◌, ◌-◌, ◌≤◌, ◌≡◌, refl, sym, ap, ◌∙◌, ◌==◌, leb, ◌&&◌, true, false, [], ◌∷◌, ◌++◌,
  append_assoc, append-nil, All, Bytes, length, length-append, take, drop-append, split2, ok, arith,
}
use mysql_to_mssql.Parser.Tags.{find_last, slice, cut_at}

-- A text with neither delimiter of a tag.
abbrev pub IsPlain : Bytes → Type 0
IsPlain = All (λ c. ((c == b':') ≡ false) × ((c == b';') ≡ false))

pub find_last-append :
    (i : ℕ) (s t : Bytes) (found : ℕ × ℕ)
    → IsPlain s
    → find_last b':' b';' i (s ++ t) found ≡ find_last b':' b';' (i + length s) t found
unfolding find_last
find_last-append i [] t found h = ground arith
find_last-append i (c ∷ s) t found h = ground (arith, find_last-append (i + 1) s t found h.1)

pub take-append : (xs ys : Bytes) → take (length xs) (xs ++ ys) ≡ xs
take-append [] ys = refl
take-append (x ∷ xs) ys = ap (λ (l : Bytes). x ∷ l) (take-append xs ys)

pub in_bounds :
    (s : Bytes) (lo hi : ℕ) → lo ≤ hi → hi ≤ length s → (leb lo hi && leb hi (length s)) ≡ true
in_bounds s lo hi h₁ h₂ = ground arith

-- The slice between two parts of a text.
pub slice_lem :
    (a b c : Bytes) (lo hi : ℕ)
    → lo ≡ length a
    → hi ≡ length a + length b
    → slice lo hi (a ++ (b ++ c)) ≡ ok b
unfolding slice
slice_lem a b c lo hi hlo hhi =
    let bound : hi ≤ length (a ++ (b ++ c)) =
      omega (arith, length-append a (b ++ c), length-append b c, hhi) in
    let size : hi - lo ≡ length b = omega (arith, hlo, hhi) in
    rw
      (
        in_bounds (a ++ (b ++ c)) lo hi (omega (arith, hlo, hhi)) bound,
        size,
        hlo,
        drop-append a (b ++ c),
        take-append b c,
      )
      refl

-- Behind the delimiters that count, nothing changes.
pub find_last-plain :
    (i : ℕ) (s : Bytes) (found : ℕ × ℕ) → IsPlain s → find_last b':' b';' i s found ≡ found
unfolding find_last
find_last-plain i [] found h = refl
find_last-plain i (c ∷ s) found h = ground (arith, find_last-plain (i + 1) s found h.1)

pub find_last-behind :
    (i j : ℕ) (s t : Bytes) (found : ℕ × ℕ)
    → i + length s ≡ j
    → IsPlain s
    → find_last b':' b';' i (s ++ t) found ≡ find_last b':' b';' j t found
find_last-behind i j s t found e h =
    find_last-append i s t found h ∙ ap (λ (n : ℕ). find_last b':' b';' n t found) e

pub find_last-rest :
    (key name rest : Bytes) (n : ℕ)
    → IsPlain key
    → IsPlain name
    → IsPlain rest
    → find_last b':' b';' 0 (key ++ (b':' ∷ (name ++ (b';' ∷ rest)))) (0, n)
      ≡ (length key, length key + 1 + length name)
unfolding find_last
find_last-rest key name rest n hk hn hr =
    find_last-behind 0 (length key) key (b':' ∷ (name ++ (b';' ∷ rest))) (0, n) (omega arith) hk
    ∙ find_last-append (length key + 1) name (b';' ∷ rest) (length key, n) hn
    ∙ find_last-plain (length key + 1 + length name + 1) rest
        (length key, length key + 1 + length name) hr

pub slice_name :
    (key name rest : Bytes)
    → slice (length key + 1) (length key + 1 + length name) (key ++ (b':' ∷ (name ++ rest)))
      ≡ ok name
slice_name key name rest =
    ap (slice (length key + 1) (length key + 1 + length name))
      (sym (append_assoc key (b':' ∷ []) (name ++ rest)))
    ∙ slice_lem (key ++ b':' ∷ []) name rest (length key + 1) (length key + 1 + length name)
        (omega (arith, length-append key (b':' ∷ [])))
        (omega (arith, length-append key (b':' ∷ [])))

pub slice_rest :
    (front rest : Bytes)
    → slice (length front) (length front + length rest) (front ++ rest) ≡ ok rest
slice_rest front rest =
    ap (λ (l : Bytes). slice (length front) (length front + length rest) (front ++ l))
      (sym (append-nil rest))
    ∙ slice_lem front rest [] (length front) (length front + length rest) refl refl

pub slice_behind :
    (key name rest : Bytes)
    → length (key ++ (b':' ∷ (name ++ (b';' ∷ rest))))
      ≡ length key + 1 + length name + 1 + length rest
    → slice
        (length key + 1 + length name + 1)
        (length (key ++ (b':' ∷ (name ++ (b';' ∷ rest)))))
        (key ++ (b':' ∷ (name ++ (b';' ∷ rest))))
      ≡ ok rest
slice_behind key name rest total =
    let front = key ++ (b':' ∷ (name ++ b';' ∷ [])) in
    let e : length front ≡ length key + 1 + length name + 1 =
      omega
        (arith, length-append key (b':' ∷ (name ++ b';' ∷ [])), length-append name (b';' ∷ [])) in
    let whole : front ++ rest ≡ key ++ (b':' ∷ (name ++ (b';' ∷ rest))) =
      append_assoc key (b':' ∷ (name ++ b';' ∷ [])) rest
      ∙ ap (λ (l : Bytes). key ++ b':' ∷ l) (append_assoc name (b';' ∷ []) rest) in
    rw (total, sym e, sym whole) (slice_rest front rest)

pub cut_at-rest :
    (k : ℕ) (key name rest : Bytes)
    → cut_at
        ((k ∷ key) ++ (b':' ∷ (name ++ (b';' ∷ rest))))
        (length (k ∷ key), length (k ∷ key) + 1 + length name)
      ≡ ok (name, rest)
unfolding cut_at
cut_at-rest k key name rest =
    let K = k ∷ key in
    let s = K ++ (b':' ∷ (name ++ (b';' ∷ rest))) in
    let total : length s ≡ length K + 1 + length name + 1 + length rest =
      omega (
        arith,
        length-append K (b':' ∷ (name ++ (b';' ∷ rest))),
        length-append name (b';' ∷ rest),
      ) in
    let e₁ : (length K == 0) ≡ false = ground arith in
    let e₂ : (length K + 1 + length name == length s) ≡ false = ground (arith, total) in
    rw (e₁, e₂, slice_name K name (b';' ∷ rest), slice_behind K name rest total) refl

pub split2-append :
    (sep : ℕ) (s t : Bytes)
    → All (λ c. (c == sep) ≡ false) s
    → split2 sep (s ++ sep ∷ t) ≡ (s, t ∷ [])
unfolding split2
split2-append sep [] t h = ground arith
split2-append sep (c ∷ s) t h = rw (h.0, split2-append sep s t h.1) refl

pub split2-plain : (sep : ℕ) (s : Bytes) → All (λ c. (c == sep) ≡ false) s → split2 sep s ≡ (s, [])
unfolding split2
split2-plain sep [] h = refl
split2-plain sep (c ∷ s) h = rw (h.0, split2-plain sep s h.1) refl
