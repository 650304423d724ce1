-- ===== src/Base/Text.antt =====
-- Text as bytes, and what the program calls of Go's `strings` package.
use Prim.Native.Nat.{ℕ}
use Prim.Native.Char.{code}
use Prim.Native.String.{String}
use mathlib.Core.Bool.{Bool, true, false, ◌||◌}
use mathlib.Core.List.{List, [], ◌∷◌}
use mysql_to_mssql.Base.Tests.{Bytes, ◌==◌, if◌then◌else◌}

-- The code points of a literal: its bytes, as it is ASCII.
abbrev pub codes : String → Bytes
codes String.[] = []
codes (String.◌∷◌ c s) = code c ∷ codes s

-- strings.SplitN(s, sep, 2) for a separator of one byte: the first part, and the rest if there is
-- a separator.
unfoldable pub split2 : ℕ → Bytes → Bytes × List Bytes
split2 sep [] = ([], [])
split2 sep (c ∷ s) =
    let (part, rest) = split2 sep s in if c == sep then ([], s ∷ []) else (c ∷ part, rest)

unfoldable pub contains : Bytes → ℕ → Bool
contains [] b = false
contains (c ∷ s) b = c == b || contains s b

-- One more byte in front of a trimmed text.
unfoldable pub trim_cons : ℕ → Bool → Bytes → Bytes
trim_cons c true [] = []
trim_cons c false [] = c ∷ []
trim_cons c _ (d ∷ rest) = c ∷ d ∷ rest

-- strings.TrimRight(s, cutset): drops every trailing byte that is in the cutset.
unfoldable pub trim_right : Bytes → Bytes → Bytes
unfolding contains trim_cons
trim_right [] cutset = []
trim_right (c ∷ s) cutset = trim_cons c (contains cutset c) (trim_right s cutset)
