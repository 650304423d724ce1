-- ===== src/Parser/Sets/Reverse.antt =====
-- The loop of reverse, against the library's reverse.
use mathlib.Core.List
use mysql_to_mssql.Base.{
  ℕ, zero, suc, ◌+◌, ◌-◌, ◌≤◌, ◌≡◌, refl, sym, ap, ◌∙◌, ltb, true, false, List, [], ◌∷◌, ◌++◌,
  append-nil, append_assoc, length, set, get_or, arith, length-append,
}
use mathlib.Core.Path.{subst}
use mysql_to_mssql.Parser.Sets.{swap, swap_loop, reverse}

set-middle :
    (xs : List ℕ) (a : ℕ) (ys : List ℕ) (i v : ℕ)
    → i ≡ length xs
    → set (xs ++ (a ∷ ys)) i v ≡ xs ++ (v ∷ ys)
set-middle [] a ys zero v e = refl
set-middle [] a ys (suc i) v e = ground arith
set-middle (x ∷ xs) a ys zero v e = ground arith
set-middle (x ∷ xs) a ys (suc i) v e =
    ap (λ (l : List ℕ). x ∷ l) (set-middle xs a ys i v (omega arith))

get_or-middle :
    (xs : List ℕ) (a : ℕ) (ys : List ℕ) (i v : ℕ) → i ≡ length xs → get_or (xs ++ (a ∷ ys)) i v ≡ a
get_or-middle [] a ys zero v e = refl
get_or-middle [] a ys (suc i) v e = omega arith
get_or-middle (x ∷ xs) a ys zero v e = omega arith
get_or-middle (x ∷ xs) a ys (suc i) v e = get_or-middle xs a ys i v (omega arith)

-- The place after a list and one more.
length-before :
    (xs : List ℕ) (a : ℕ) (m : List ℕ) → length (xs ++ (a ∷ m)) ≡ length xs + suc (length m)
length-before xs a m = length-append xs (a ∷ m)

-- A swap of the two ends of a list between two others.
swap-ends :
    (xs : List ℕ) (a : ℕ) (m : List ℕ) (b : ℕ) (ys : List ℕ) (i j : ℕ)
    → i ≡ length xs
    → j ≡ length xs + suc (length m)
    → swap i j (xs ++ (a ∷ (m ++ (b ∷ ys)))) ≡ xs ++ (b ∷ (m ++ (a ∷ ys)))
unfolding swap
swap-ends xs a m b ys i j p q =
    let last : get_or (xs ++ (a ∷ (m ++ (b ∷ ys)))) j 0 ≡ b =
      rw (sym (append_assoc xs (a ∷ m) (b ∷ ys)))
        (get_or-middle (xs ++ (a ∷ m)) b ys j 0 (q ∙ sym (length-before xs a m))) in
    let set_last : set (xs ++ (b ∷ (m ++ (b ∷ ys)))) j a ≡ xs ++ (b ∷ (m ++ (a ∷ ys))) =
      rw (sym (append_assoc xs (b ∷ m) (b ∷ ys))) (
        set-middle (xs ++ (b ∷ m)) b ys j a (q ∙ sym (length-before xs b m))
        ∙ append_assoc xs (b ∷ m) (a ∷ ys)) in
    rw last (
      rw (get_or-middle xs a (m ++ (b ∷ ys)) i 0 p)
        (rw (set-middle xs a (m ++ (b ∷ ys)) i b p) set_last))

-- The last of a list.
last_cases : (x : ℕ) (xs : List ℕ) → (m : List ℕ) × (b : ℕ) × (x ∷ xs ≡ m ++ b ∷ [])
last_cases x [] = ([], x, refl)
last_cases x (y ∷ ys) = let (m, b, e) = last_cases y ys in (x ∷ m, b, ap (λ (l : List ℕ). x ∷ l) e)

reverse-ends :
    (a : ℕ) (m : List ℕ) (b : ℕ) (ys : List ℕ)
    → List.reverse (a ∷ (m ++ (b ∷ []))) ++ ys ≡ b ∷ (List.reverse m ++ (a ∷ ys))
reverse-ends a m b ys =
    ap (λ l. l ++ ys) (List.reverse-cons a (m ++ (b ∷ [])))
    ∙ ap (λ l. (l ++ (a ∷ [])) ++ ys) (List.reverse-append m (b ∷ []))
    ∙ ap (λ l. b ∷ l) (append_assoc (List.reverse m) (a ∷ []) ys)

-- A round of the loop, from what the rest of it gives.
swap_loop-round :
    (fuel : ℕ) (xs : List ℕ) (a : ℕ) (m : List ℕ) (b : ℕ) (ys : List ℕ) (i j : ℕ)
    → i ≡ length xs
    → j ≡ length xs + suc (length m)
    → swap_loop fuel (i + 1) (j - 1) ((xs ++ (b ∷ [])) ++ (m ++ (a ∷ ys)))
      ≡ (xs ++ (b ∷ [])) ++ (List.reverse m ++ (a ∷ ys))
    → swap_loop (suc fuel) i j (xs ++ ((a ∷ (m ++ (b ∷ []))) ++ ys))
      ≡ xs ++ (List.reverse (a ∷ (m ++ (b ∷ []))) ++ ys)
unfolding swap_loop
swap_loop-round fuel xs a m b ys i j p q h =
    let lt : ltb i j ≡ true = ground arith in
    rw lt (
      rw (append_assoc m (b ∷ []) ys) (
        rw (swap-ends xs a m b ys i j p q) (
          rw (sym (append_assoc xs (b ∷ []) (m ++ (a ∷ ys)))) (
            h
            ∙ append_assoc xs (b ∷ []) (List.reverse m ++ (a ∷ ys))
            ∙ ap (λ l. xs ++ l) (sym (reverse-ends a m b ys))))))

swap_loop-reverse :
    (fuel : ℕ) (xs mid ys : List ℕ) (i j : ℕ)
    → length mid ≤ fuel
    → i ≡ length xs
    → j ≡ length xs + length mid - 1
    → swap_loop fuel i j (xs ++ (mid ++ ys)) ≡ xs ++ (List.reverse mid ++ ys)
unfolding swap_loop
swap_loop-reverse zero xs [] ys i j h p q = refl
swap_loop-reverse zero xs (a ∷ mid) ys i j h p q = ground arith
swap_loop-reverse (suc fuel) xs [] ys i j h p q =
    let stop : ltb i j ≡ false = ground arith in rw stop refl
swap_loop-reverse (suc fuel) xs (a ∷ []) ys i j h p q =
    let stop : ltb i j ≡ false = ground arith in rw stop refl
swap_loop-reverse (suc fuel) xs (a ∷ (c ∷ cs)) ys i j h p q =
    let (m, b, e) = last_cases c cs in
    let n : suc (length cs) ≡ length m + 1 = ap length e ∙ length-append m (b ∷ []) in
    subst
      (λ l. swap_loop (suc fuel) i j (xs ++ ((a ∷ l) ++ ys)) ≡ xs ++ (List.reverse (a ∷ l) ++ ys))
      (sym e)
      (swap_loop-round fuel xs a m b ys i j p (omega arith) (
        swap_loop-reverse fuel (xs ++ (b ∷ [])) m (a ∷ ys) (i + 1) (j - 1) (omega arith)
          (ap (λ k. k + 1) p ∙ sym (length-append xs (b ∷ [])))
          (let len = length-append xs (b ∷ []) in rw len (omega arith))))

-- The loop is the library's reverse, on every list.
pub reverse_lem : (runes : List ℕ) → reverse runes ≡ List.reverse runes
unfolding reverse
reverse_lem runes =
    ap (swap_loop (length runes) 0 (length runes - 1)) (sym (append-nil runes))
    ∙ swap_loop-reverse (length runes) [] runes [] 0 (length runes - 1) (omega arith) refl
        (omega arith)
    ∙ append-nil (List.reverse runes)
