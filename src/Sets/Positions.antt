-- ===== src/Sets/Positions.antt =====
-- union_idx_helper and setdiff_idx_helper: the positions, 1 for the first, that make up the union,
-- with `none` where an element is not from that vector (NaN), and those that make up the two
-- differences. An exception is `none` around the result.
use ztsdb.Base.{
  ℕ, ◌+◌, ◌-◌, ◌≡◌, refl, Bool, true, false, ◌&&◌, ◌==◌, Option, none, some, List, [], ◌∷◌,
  get_elem?, if◌then◌else◌, arith,
}
use ztsdb.Sets.{Comparison, differs}

abbrev pub Rows : Type 0
Rows = List (Option ℕ) × List (Option ℕ)

abbrev pub add_row : Option ℕ → Option ℕ → Option Rows → Option Rows
add_row a b none = none
add_row a b (some (ps, qs)) = some (a ∷ ps, b ∷ qs)

module _ {T : Type 0} (c : Comparison T T) where
  open c use {lt, gt, ne}

  -- The two last loops, from position i on.
  unfoldable pub first_rest : Option T → ℕ → List T → Option Rows
  first_rest prev i [] = some ([], [])
  first_rest prev i (x ∷ xs) =
      let rest = first_rest (some x) (i + 1) xs in
      if differs ne prev x then add_row (some (i + 1)) none rest else rest

  unfoldable pub second_rest : Option T → ℕ → List T → Option Rows
  second_rest prev i [] = some ([], [])
  second_rest prev i (y ∷ ys) =
      let rest = second_rest (some y) (i + 1) ys in
      if differs ne prev y then add_row none (some (i + 1)) rest else rest

  -- union_idx_helper, from positions i1 and i2 on; `prev1` and `prev2` are the elements before them.
  -- An element of the second vector that comes first is compared with `v1[i2-1]`, which is in the
  -- other vector, and may be out of bounds.
  unfoldable pub union_idx_loop :
      List T → Option T → Option T → ℕ → ℕ → List T → List T → Option Rows
  unfolding first_rest second_rest
  union_idx_loop v1 prev1 prev2 i1 i2 [] ys = second_rest prev2 i2 ys
  union_idx_loop v1 prev1 prev2 i1 i2 (x ∷ xs) [] = first_rest prev1 i1 (x ∷ xs)
  union_idx_loop v1 prev1 prev2 i1 i2 (x ∷ xs) (y ∷ ys) = elim (lt x y) [
    | true ↦
        let rest = union_idx_loop v1 (some x) prev2 (i1 + 1) i2 xs (y ∷ ys) in
        if differs ne prev1 x then add_row (some (i1 + 1)) none rest else rest
    | false ↦ elim (gt x y) [
      | true ↦
          let rest = union_idx_loop v1 prev1 (some y) i1 (i2 + 1) (x ∷ xs) ys in
          if i2 == 0 then add_row none (some (i2 + 1)) rest else elim (get_elem? v1 (i2 - 1)) [
            | none ↦ none
            | some z ↦ if ne y z then add_row none (some (i2 + 1)) rest else rest
          ]
      | false ↦
          let rest = union_idx_loop v1 (some x) (some y) (i1 + 1) (i2 + 1) xs ys in
          if differs ne prev1 x then add_row (some (i1 + 1)) (some (i2 + 1)) rest else rest
    ]
  ]

  unfoldable pub union_idx : List T → List T → Option Rows
  unfolding union_idx_loop
  union_idx v1 v2 = union_idx_loop v1 none none 0 0 v1 v2

abbrev pub Pair : Type 0
Pair = List ℕ × List ℕ

abbrev pub add_first : ℕ → Pair → Pair
add_first a (ps, qs) = (a ∷ ps, qs)

abbrev pub add_second : ℕ → Pair → Pair
add_second b (ps, qs) = (ps, b ∷ qs)

-- Positions from i + 1 on, one for each element.
abbrev pub number : {A : Type 0} → ℕ → List A → List ℕ
number i [] = []
number i (x ∷ xs) = (i + 1) ∷ number (i + 1) xs

-- setdiff_idx_helper, from positions i1 and i2 on.
unfoldable pub setdiff_idx_loop : {T U : Type 0} → Comparison T U → ℕ → ℕ → List T → List U → Pair
setdiff_idx_loop c i1 i2 [] us = ([], number i2 us)
setdiff_idx_loop c i1 i2 (x ∷ xs) [] = (number i1 (x ∷ xs), [])
setdiff_idx_loop c i1 i2 (x ∷ xs) (u ∷ us) = elim (c.lt x u) [
  | true ↦ add_first (i1 + 1) (setdiff_idx_loop c (i1 + 1) i2 xs (u ∷ us))
  | false ↦ elim (c.gt x u) [
    | true ↦ add_second (i2 + 1) (setdiff_idx_loop c i1 (i2 + 1) (x ∷ xs) us)
    | false ↦ setdiff_idx_loop c (i1 + 1) (i2 + 1) xs us
  ]
]

abbrev pub swap : Pair → Pair
swap (ps, qs) = (qs, ps)

-- The comparison with the two vectors in each other's place; `ne` is not used by setdiff_idx.
abbrev pub flipped : {T U : Type 0} → (U → U → Bool) → Comparison T U → Comparison U T
flipped ne c = record { lt = λ u x. c.gt x u; gt = λ u x. c.lt x u; ne = ne }

module _ {T U : Type 0} (ne : U → U → Bool) (c : Comparison T U) where
  -- With the two vectors in each other's place, setdiff_idx gives the same positions in each other's
  -- place, for a comparison by which no two elements are both less and greater.
  setdiff_idx-flipped :
      (i1 i2 : ℕ) (xs : List T) (us : List U)
      → ((x : T) (u : U) → (c.lt x u && c.gt x u) ≡ false)
      → setdiff_idx_loop (flipped ne c) i2 i1 us xs ≡ swap (setdiff_idx_loop c i1 i2 xs us)
  unfolding setdiff_idx_loop
  setdiff_idx-flipped i1 i2 [] [] a = refl
  setdiff_idx-flipped i1 i2 [] (u ∷ us) a = refl
  setdiff_idx-flipped i1 i2 (x ∷ xs) [] a = refl
  setdiff_idx-flipped i1 i2 (x ∷ xs) (u ∷ us) a = ground (
    arith,
    a x u,
    setdiff_idx-flipped (i1 + 1) i2 xs (u ∷ us) a,
    setdiff_idx-flipped i1 (i2 + 1) (x ∷ xs) us a,
    setdiff_idx-flipped (i1 + 1) (i2 + 1) xs us a,
  )
