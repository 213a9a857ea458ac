-- ===== src/Tests/Numbers.antt =====
-- The set operations that give positions, at concrete values.
use ztsdb.Base.{ℕ, ◌≡◌, refl, Bool, false, ◌&&◌, not, ltb, ◌==◌, some, none, [], ◌∷◌, arith}
use ztsdb.Sets.{Comparison}
use ztsdb.Sets.Positions.{union_idx}

abbrev differ : ℕ → ℕ → Bool
differ a b = not (a == b)

abbrev numbers : Comparison ℕ ℕ
numbers = record { lt = ltb; gt = λ a b. ltb b a; ne = differ }

one_way : (a b : ℕ) → (ltb a b && ltb b a) ≡ false
one_way a b = ground arith

-- The second 1 of the second vector is taken for new: it is compared with the 5 of the first.
union_idx_run :
    union_idx numbers (5 ∷ []) (1 ∷ 1 ∷ [])
    ≡ some (none ∷ none ∷ some 1 ∷ [], some 1 ∷ some 2 ∷ none ∷ [])
unfolding union_idx
union_idx_run = refl
