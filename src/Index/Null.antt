-- ===== src/Index/Null.antt =====
-- NullIndex: all `sz` positions.
use ztsdb.Base.{
  ℕ, zero, suc, ◌+◌, ◌≤◌, ◌<◌, ◌≡◌, refl, true, false, ltb, if◌then◌else◌, List, [], ◌∷◌, arith,
}
use ztsdb.Index.{Step, walk, visit}

unfoldable pub getfirst : ℕ → Step
getfirst sz c = (ltb 0 sz, record { val = 0; i = 0 })

unfoldable pub getnext : ℕ → Step
getnext sz c =
    if ltb (c.i + 1) sz
    then (true, record { val = c.i + 1; i = c.i + 1 })
    else (false, record { val = 0; i = 0 })

abbrev pub range : ℕ → ℕ → List ℕ
range j zero = []
range j (suc n) = j ∷ range (j + 1) n

walk-range :
    (sz n j fuel : ℕ)
    → n < fuel
    → j + 1 + n ≡ sz
    → walk fuel (getnext sz) (record { val = j; i = j }) ≡ range j (suc n)
unfolding walk getnext
walk-range sz n j zero h e = absurd (omega arith)
walk-range sz zero j (suc fuel) h e = ground arith
walk-range sz (suc n) j (suc fuel) h e = ground (arith, walk-range sz n (j + 1) fuel)

-- The null index visits all positions in order.
pub visit_all : (sz fuel : ℕ) → sz ≤ fuel → visit fuel (getfirst sz) (getnext sz) ≡ range 0 sz
unfolding visit getfirst
visit_all zero fuel h = refl
visit_all (suc n) fuel h = ground (arith, walk-range (suc n) n 0 fuel)
