-- ===== src/Syncer/Statements/Trim.antt =====
-- What strings.TrimRight takes off the end of a statement.
use mysql_to_mssql.Base.{
  ℕ, ◌≡◌, refl, true, false, [], ◌∷◌, ◌++◌, arith, Bytes, contains, trim_cons, trim_right, All,
}

-- A text whose bytes are all in the cutset is trimmed away.
trim_right-nil :
    (s cutset : Bytes) → All (λ c. contains cutset c ≡ true) s → trim_right s cutset ≡ []
unfolding trim_right trim_cons
trim_right-nil [] cutset h = refl
trim_right-nil (c ∷ s) cutset h = ground (arith, trim_right-nil s cutset h.1)

-- What stands behind the last byte that is not in the cutset goes, and nothing else.
pub trim_right-append :
    (s : Bytes) (x : ℕ) (t cutset : Bytes)
    → contains cutset x ≡ false
    → All (λ c. contains cutset c ≡ true) t
    → trim_right (s ++ x ∷ t) cutset ≡ s ++ x ∷ []
unfolding trim_right trim_cons
trim_right-append [] x t cutset hx ht = ground (arith, trim_right-nil t cutset ht)
trim_right-append (c ∷ []) x t cutset hx ht = ground (arith, trim_right-append [] x t cutset hx ht)
trim_right-append (c ∷ d ∷ s) x t cutset hx ht =
    ground (arith, trim_right-append (d ∷ s) x t cutset hx ht)

-- A trailing byte of the cutset does not matter.
pub trim_right-concat :
    (s : Bytes) (x : ℕ) (cutset : Bytes)
    → contains cutset x ≡ true
    → trim_right (s ++ x ∷ []) cutset ≡ trim_right s cutset
unfolding trim_right trim_cons
trim_right-concat [] x cutset hx = ground arith
trim_right-concat (c ∷ s) x cutset hx = ground (arith, trim_right-concat s x cutset hx)
