-- ===== src/Parser/Sets/Bits.antt =====
-- getSet: the digits of the number, from the last to the first, against its bits.
use mathlib.Core.List
use mysql_to_mssql.Base.{
  ℕ, zero, suc, ◌+◌, ◌-◌, ◌*◌, ◌/◌, ◌%◌, ◌<◌, ◌≤◌, ◌^◌, ◌==◌, ◌≡◌, refl, sym, ap, ◌∙◌, false,
  Bool-cases, inl, inr, List, [], ◌∷◌, ◌++◌, append-nil, append_assoc, length, length-append,
  replicate, All, All-append, Bytes, arith, if◌then◌else◌, some, ok, ℤ, pos, negsuc,
}
use mysql_to_mssql.Reflect.{Foreign}
use mysql_to_mssql.Parser.Cells.{Cell, index, in_range}
use mysql_to_mssql.Parser.Sets.{
  binary_digits, pad, sprint_binary, reverse, selected, as_int64, set_value,
}
use mysql_to_mssql.Parser.Sets.Reverse.{reverse_lem}

-- The values at the places where the number has a bit, the lowest bit first.
unfoldable pub picked : ℕ → List Bytes → List Bytes
picked n [] = []
picked n (v ∷ vs) = let rest = picked (n / 2) vs in if n % 2 == 1 then v ∷ rest else rest

unfoldable pub magnitude : ℤ → ℕ
magnitude (pos n) = n
magnitude (negsuc n) = n + 1

-- The list shows the first bits of the number, the lowest first, where a bit is a `1`.
unfoldable Shows : ℕ → ℕ → Bytes → Type 0
Shows zero n l = Unit
Shows (suc k) n [] = ⊥
Shows (suc k) n (b ∷ l) = ((b == 49) ≡ (n % 2 == 1)) × Shows k (n / 2) l

index-middle :
    (pre : Bytes) (b : ℕ) (l : Bytes) (i : ℕ) → i ≡ length pre → index (pre ++ (b ∷ l)) i ≡ ok b
unfolding index in_range
index-middle [] b l zero e = refl
index-middle [] b l (suc i) e = ground arith
index-middle (x ∷ pre) b l zero e = ground arith
index-middle (x ∷ pre) b l (suc i) e = index-middle pre b l i (omega arith)

-- The loop of getSet from a place of the text where the rest of it shows the bits of a number.
selected-Shows :
    (i n : ℕ) (vs : List Bytes) (pre l : Bytes)
    → i ≡ length pre
    → Shows (length vs) n l
    → selected i vs (pre ++ l) ≡ ok (picked n vs)
unfolding selected picked Shows
selected-Shows i n [] pre l e h = refl
selected-Shows i n (v ∷ vs) pre [] e h = elim h [ ]
selected-Shows i n (v ∷ vs) pre (b ∷ l) e (h, t) =
    let ih : selected (i + 1) vs (pre ++ (b ∷ l)) ≡ ok (picked (n / 2) vs) =
      rw (sym (append_assoc pre (b ∷ []) l)) (
        selected-Shows (i + 1) (n / 2) vs (pre ++ (b ∷ [])) l
          (let len = length-append pre (b ∷ []) in rw len (omega arith)) t) in
    rw (index-middle pre b l i e) (rw ih (rw h refl))

-- The digits of a number, the lowest first.
unfoldable lowest_first : ℕ → ℕ → Bytes
lowest_first zero n = []
lowest_first (suc fuel) n =
    let rest = lowest_first fuel (n / 2) in (48 + n % 2) ∷ (if n / 2 == 0 then [] else rest)

-- The digits come out reversed, whatever stands after them.
reverse-binary_digits :
    (fuel n : ℕ) (out : Bytes)
    → List.reverse (binary_digits fuel n out) ≡ List.reverse out ++ lowest_first fuel n
unfolding binary_digits lowest_first
reverse-binary_digits zero n out = sym (append-nil (List.reverse out))
reverse-binary_digits (suc fuel) n out = elim (Bool-cases (n / 2 == 0)) [
  | inl last ↦ rw last (List.reverse-cons (48 + n % 2) out)
  | inr more ↦ rw more (
      reverse-binary_digits fuel (n / 2) ((48 + n % 2) ∷ out)
      ∙ ap (λ l. l ++ lowest_first fuel (n / 2)) (List.reverse-cons (48 + n % 2) out)
      ∙ append_assoc (List.reverse out) ((48 + n % 2) ∷ []) (lowest_first fuel (n / 2)))
]

length-binary_digits :
    (fuel n : ℕ) (out : Bytes)
    → length (binary_digits fuel n out) ≡ length out + length (lowest_first fuel n)
unfolding binary_digits lowest_first
length-binary_digits zero n out = omega arith
length-binary_digits (suc fuel) n out =
    let ih = length-binary_digits fuel (n / 2) ((48 + n % 2) ∷ out) in
    elim (Bool-cases (n / 2 == 0)) [
      | inl last ↦ rw last (omega arith)
      | inr more ↦ rw more (omega arith)
    ]

-- Zeros show the number zero, with no `1` after them.
zeros-Shows : (k : ℕ) (l : Bytes) → k ≤ length l → All (λ b. (b == 49) ≡ false) l → Shows k 0 l
unfolding Shows
zeros-Shows zero l h z = tt
zeros-Shows (suc k) [] h z = ground arith
zeros-Shows (suc k) (b ∷ l) h (z, zs) = (z, zeros-Shows k l (omega arith) zs)

-- 2 ^ fuel
abbrev power : ℕ → ℕ
power zero = 1
power (suc fuel) = 2 * power fuel

digit_bit : (r : ℕ) → (48 + r == 49) ≡ (r == 1)
digit_bit r = ground arith

lowest_first-Shows :
    (fuel k n : ℕ) (l : Bytes)
    → n < power fuel
    → k ≤ length (lowest_first fuel n) + length l
    → All (λ b. (b == 49) ≡ false) l
    → Shows k n (lowest_first fuel n ++ l)
unfolding lowest_first Shows
lowest_first-Shows zero k n l small h z =
    let none_left : n ≡ 0 = omega arith in rw none_left (zeros-Shows k l (omega arith) z)
lowest_first-Shows (suc fuel) zero n l small h z = tt
lowest_first-Shows (suc fuel) (suc k) n l small h z = elim (Bool-cases (n / 2 == 0)) [
  | inl last ↦ rw last (
    digit_bit (n % 2),
    (let none_left : n / 2 ≡ 0 = ground arith in rw none_left (zeros-Shows k l (ground arith) z)),
  )
  | inr more ↦
      rw more
        (digit_bit (n % 2), lowest_first-Shows fuel k (n / 2) l (omega arith) (ground arith) z)
]

replicate-snoc : (k a : ℕ) → replicate k a ++ (a ∷ []) ≡ a ∷ replicate k a
replicate-snoc zero a = refl
replicate-snoc (suc k) a = ap (λ l. a ∷ l) (replicate-snoc k a)

reverse-replicate : (k a : ℕ) → List.reverse (replicate k a) ≡ replicate k a
reverse-replicate zero a = refl
reverse-replicate (suc k) a =
    List.reverse-cons a (replicate k a)
    ∙ ap (λ l. l ++ (a ∷ [])) (reverse-replicate k a)
    ∙ replicate-snoc k a

length-replicate : (k a : ℕ) → length (replicate k a) ≡ k
length-replicate zero a = refl
length-replicate (suc k) a = let ih = length-replicate k a in omega arith

zeros-All : (k : ℕ) → All (λ b. (b == 49) ≡ false) (replicate k b'0')
zeros-All zero = tt
zeros-All (suc k) = (refl, zeros-All k)

reverse-pad :
    (width n : ℕ)
    → List.reverse (pad width (binary_digits 64 n []))
      ≡ lowest_first 64 n ++ replicate (width - length (lowest_first 64 n)) b'0'
unfolding pad
reverse-pad width n =
    let len : length (binary_digits 64 n []) ≡ length (lowest_first 64 n) =
      length-binary_digits 64 n [] ∙ omega arith in
    rw len (
      let zeros = replicate (width - length (lowest_first 64 n)) b'0' in
      List.reverse-append zeros (binary_digits 64 n [])
      ∙ ap (λ l. l ++ List.reverse zeros) (reverse-binary_digits 64 n [])
      ∙ ap (λ l. lowest_first 64 n ++ l)
          (reverse-replicate (width - length (lowest_first 64 n)) b'0'))

-- The text of the number, reversed, shows the bits of its magnitude, whatever its sign.
reverse-Shows :
    (width : ℕ) (z : ℤ)
    → magnitude z < 2 ^ 64
    → Shows width (magnitude z) (reverse (sprint_binary width z))
unfolding sprint_binary magnitude
reverse-Shows width (pos n) h =
    let d = length (lowest_first 64 n) in
    let len = length-replicate (width - d) b'0' in
    rw (reverse_lem (pad width (binary_digits 64 n []))) (
      rw (reverse-pad width n) (
        lowest_first-Shows 64 width n (replicate (width - d) b'0') h (rw len (omega arith))
          (zeros-All (width - d))))
reverse-Shows width (negsuc n) h =
    let d = length (lowest_first 64 (n + 1)) in
    let zeros = replicate (width - 1 - d) b'0' in
    let len =
      length-append zeros (b'-' ∷ []) ∙ ap (λ k. k + 1) (length-replicate (width - 1 - d) b'0') in
    rw (reverse_lem (b'-' ∷ pad (width - 1) (binary_digits 64 (n + 1) []))) (
      rw (List.reverse-cons b'-' (pad (width - 1) (binary_digits 64 (n + 1) []))) (
        rw (reverse-pad (width - 1) (n + 1)) (
          rw (append_assoc (lowest_first 64 (n + 1)) zeros (b'-' ∷ [])) (
            lowest_first-Shows 64 width (n + 1) (zeros ++ (b'-' ∷ [])) h (rw len (omega arith))
              (All-append _ zeros (b'-' ∷ []) (zeros-All (width - 1 - d)) (refl, tt))))))

module _ (f : Foreign) where
  -- getSet gives the values of a SET at the places where the magnitude of the number has a bit, the
  -- first value at the lowest bit, and it does not panic, for every number below 2^64 in magnitude
  -- and every list of values but the empty one.
  pub set_value_lem :
      (v : Bytes) (vs : List Bytes) (z : ℤ)
      → magnitude z < 2 ^ 64
      → set_value {f = f} (v ∷ vs) (Cell.int64 z) ≡ ok (some (picked (magnitude z) (v ∷ vs)))
  unfolding set_value as_int64
  set_value_lem v vs z h =
      let shown = reverse-Shows (length (v ∷ vs)) z h in
      rw
        (selected-Shows 0 (magnitude z) (v ∷ vs) [] (reverse (sprint_binary (length (v ∷ vs)) z))
          refl shown)
        refl
