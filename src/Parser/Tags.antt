-- ===== src/Parser/Tags.antt =====
-- mysql/parser/parser.go: parseTagSetting and hackFind.
pub mod Delimiters
pub mod Agreement
use mysql_to_mssql.Base.{
  ℕ, ◌+◌, ◌-◌, ◌==◌, leb, ◌&&◌, List, [], ◌∷◌, Bytes, length, take, drop, Result, ok, panic, ◌>>=◌,
  if◌then◌else◌,
}

-- The loop of hackFind: the last index of each delimiter.
unfoldable pub find_last : ℕ → ℕ → ℕ → Bytes → ℕ × ℕ → ℕ × ℕ
find_last d₁ d₂ i [] found = found
find_last d₁ d₂ i (v ∷ s) (start, end) =
    find_last d₁ d₂ (i + 1) s
      ((if v == d₁ then i else start), (if v == d₁ then end else if v == d₂ then i else end))

-- s[lo:hi], a panic out of range
unfoldable pub slice : ℕ → ℕ → Bytes → Result Bytes
slice lo hi s = if leb lo hi && leb hi (length s) then ok (take (hi - lo) (drop lo s)) else panic

-- hackFind behind its loop.
unfoldable pub cut_at : Bytes → ℕ × ℕ → Result (Bytes × Bytes)
cut_at s (start, end) =
    if start == 0
    then ok ([], s)
    else if end == length s
    then slice (start + 1) end s >>= (λ part. ok (part, []))
    else slice (start + 1) end s >>= λ part.
        slice (end + 1) (length s) s >>= λ rest. ok (part, rest)

-- The text between the delimiters, and the rest. (hack.Slice and hack.String only change the type.)
unfoldable pub hack_find : Bytes → ℕ → ℕ → Result (Bytes × Bytes)
hack_find s d₁ d₂ = cut_at s (find_last d₁ d₂ 0 s (0, length s))

unfoldable pub parse_tag_setting : Bytes → Result (Bytes × Bytes)
parse_tag_setting tag = hack_find tag b':' b';'
