-- ===== src/Index/Ints.antt =====
-- IntIndex: positions given as numbers, in any order, with repetitions.
use ztsdb.Base.{
  ℕ, zero, suc, ◌+◌, ◌≤◌, ◌<◌, ◌≡◌, refl, subst, true, false, leb, if◌then◌else◌, Option, none,
  some, List, [], ◌∷◌, ◌++◌, length, get_elem?, arith, length-append, get_elem?-none,
  get_elem?-append_length,
}
use mathlib.Core.List.{append_assoc}
use ztsdb.Index.{Step, walk, visit, pick}

unfoldable pub getfirst : List ℕ → Step
getfirst [] c = (false, c)
getfirst (x ∷ vi) c = (true, record { val = x; i = 0 })

unfoldable pub getnext : List ℕ → Step
unfolding getfirst
getnext vi c =
    if leb 1 (length vi)
    then elim (get_elem? vi (c.i + 1)) [
      | some x ↦ (true, record { val = x; i = c.i + 1 })
      | none ↦ (false, (getfirst vi c).1)
    ]
    else (false, c)

-- subset: `v[vi[j]]` for each, behind its own test of the bounds.
unfoldable pub subset {ℓ} : {A : Type ℓ} → List A → List ℕ → Option (List A)
subset v [] = some []
subset v (x ∷ vi) = if leb (length v) x then none else elim (get_elem? v x) [
  | none ↦ none
  | some a ↦ elim (subset v vi) [ none ↦ none | some as' ↦ some (a ∷ as') ]
]

walk_behind :
    (pre : List ℕ) (x : ℕ) (rest : List ℕ) (i fuel : ℕ)
    → i ≡ length pre
    → length rest < fuel
    → walk fuel (getnext (pre ++ x ∷ rest)) (record { val = x; i = i }) ≡ x ∷ rest
unfolding walk getnext
walk_behind pre x rest i zero e h = absurd (omega arith)
walk_behind pre x [] i (suc fuel) e h =
    ground (arith, get_elem?-none (pre ++ x ∷ []) (i + 1), length-append pre (x ∷ []))
walk_behind pre x (y ∷ rest) i (suc fuel) e h =
    let next =
      walk_behind (pre ++ x ∷ []) y rest (i + 1) fuel (omega (arith, e, length-append pre (x ∷ [])))
        (omega arith) in
    ground (
      arith,
      subst (λ l. get_elem? l (i + 1) ≡ some y) (append_assoc pre (x ∷ []) (y ∷ rest))
          (subst (λ k. get_elem? ((pre ++ x ∷ []) ++ y ∷ rest) k ≡ some y)
            (omega (arith, e, length-append pre (x ∷ [])))
            (get_elem?-append_length (pre ++ x ∷ []) y rest)),
      length-append pre (x ∷ y ∷ rest),
      subst (λ l. walk fuel (getnext l) (record { val = y; i = i + 1 }) ≡ y ∷ rest)
          (append_assoc pre (x ∷ []) (y ∷ rest)) next,
    )

-- The positions are visited in the order in which they are given.
pub visit_ints :
    (vi : List ℕ) (fuel : ℕ) → length vi ≤ fuel → visit fuel (getfirst vi) (getnext vi) ≡ vi
unfolding visit getfirst
visit_ints [] fuel h = refl
visit_ints (x ∷ vi) fuel h = walk_behind [] x vi 0 fuel refl (omega arith)

module _ {A : Type 0} (v : List A) where
  subset-pick : (vi : List ℕ) → subset v vi ≡ pick v vi
  unfolding subset pick
  subset-pick [] = refl
  subset-pick (x ∷ vi) = ground (arith, subset-pick vi, get_elem?-none v x)

  -- `subset` reads exactly the positions that `getfirst` and `getnext` give, in their order, and
  -- throws exactly where one of them is out of bounds.
  subset-pick-visit :
      (vi : List ℕ) (fuel : ℕ)
      → length vi ≤ fuel
      → subset v vi ≡ pick v (visit fuel (getfirst vi) (getnext vi))
  subset-pick-visit vi fuel h = rw (visit_ints vi fuel h) (subset-pick vi)
