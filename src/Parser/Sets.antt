-- ===== src/Parser/Sets.antt =====
-- mysql/parser/parser.go: getSet and reverse.
pub mod Reverse
pub mod Bits
use mysql_to_mssql.Base.{
  ℕ, zero, suc, ◌+◌, ◌-◌, ◌/◌, ◌%◌, ◌==◌, ltb, List, [], ◌∷◌, ◌++◌, Option, none, some, Bytes,
  length, set, get_or, replicate, ℤ, pos, negsuc, Result, ok, panic, ◌>>=◌, if◌then◌else◌,
}
use mysql_to_mssql.Reflect.{Foreign}
use mysql_to_mssql.Parser.Cells.{Cell, ColumnType, TableColumn, RowsEvent, index, read}

-- runes[i], runes[j] = runes[j], runes[i]
unfoldable pub swap : ℕ → ℕ → List ℕ → List ℕ
swap i j runes = set (set runes i (get_or runes j 0)) j (get_or runes i 0)

-- The loop of reverse, at most `fuel` rounds.
unfoldable pub swap_loop : ℕ → ℕ → ℕ → List ℕ → List ℕ
swap_loop zero i j runes = runes
swap_loop (suc fuel) i j runes =
    let rest = swap_loop fuel (i + 1) (j - 1) (swap i j runes) in if ltb i j then rest else runes

-- With the length of the text for fuel.
unfoldable pub reverse : List ℕ → List ℕ
reverse runes = swap_loop (length runes) 0 (length runes - 1) runes

-- The binary digits of a number, before `out`; 64 rounds are enough for an int64.
unfoldable pub binary_digits : ℕ → ℕ → Bytes → Bytes
binary_digits zero n out = out
binary_digits (suc fuel) n out =
    let digit : ℕ = 48 + n % 2 in
    let rest = binary_digits fuel (n / 2) (digit ∷ out) in if n / 2 == 0 then digit ∷ out else rest

unfoldable pub pad : ℕ → Bytes → Bytes
pad width digits = replicate (width - length digits) b'0' ++ digits

-- fmt.Sprintf("%0<width>b", z): the sign counts for the width.
unfoldable pub sprint_binary : ℕ → ℤ → Bytes
sprint_binary width (pos n) = pad width (binary_digits 64 n [])
sprint_binary width (negsuc n) = b'-' ∷ pad (width - 1) (binary_digits 64 (n + 1) [])

-- The loop of getSet: the values at whose index there is a `1`.
unfoldable pub selected : ℕ → List Bytes → Bytes → Result (List Bytes)
selected i [] bits = ok []
selected i (v ∷ vs) bits = do
  bit ← index bits i
  rest ← selected (i + 1) vs bits
  ok (if bit == 49 then v ∷ rest else rest)

module _ {f : Foreign} where
  unfoldable pub as_int64 : Cell f → Result ℤ
  as_int64 (Cell.int64 z) = ok z
  as_int64 _ = panic

  unfoldable pub set_value : List Bytes → Cell f → Result (Option (List Bytes))
  set_value [] c = ok none
  set_value (v ∷ vs) c = do
    z ← as_int64 c
    result ← selected 0 (v ∷ vs) (reverse (sprint_binary (length (v ∷ vs)) z))
    ok (some result)

  unfoldable pub set_of : ColumnType → TableColumn → Cell f → Result (Option (List Bytes))
  set_of ColumnType.set column c = set_value column.set_values c
  set_of _ column c = ok none

  unfoldable pub get_set : RowsEvent f → ℕ → ℕ → Result (Option (List Bytes))
  get_set = read (λ column c. set_of column.column_type column c)
