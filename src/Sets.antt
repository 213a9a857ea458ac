-- ===== src/Sets.antt =====
-- src/vector_set.hpp: intersection, union and difference of two vectors, by one pass over both in
-- order. The two may have elements of different types (instants and intervals), so the comparisons
-- of an element of the one with an element of the other are an interface.
pub mod Order
pub mod Intersect
pub mod Union
pub mod Setdiff
pub mod Index
pub mod Sorting
pub mod Instants
pub mod Positions
use ztsdb.Base.{ℕ, ◌+◌, Bool, true, false, Option, none, some, List, [], ◌∷◌, ◌++◌, if◌then◌else◌}

-- `v1[i] < v2[j]`, `v1[i] > v2[j]`, and `!=` between elements of the first vector.
pub record Comparison (T U : Type 0) : Type 0 where
  pub lt : T → U → Bool
  pub gt : T → U → Bool
  pub ne : T → T → Bool

-- `last.size()==0 || x != last.back()`, where all that matters of a result is its last element.
abbrev pub differs : {T : Type 0} → (T → T → Bool) → Option T → T → Bool
differs ne none x = true
differs ne (some y) x = ne x y

module _ {T U : Type 0} (c : Comparison T U) where
  open c use {lt, gt, ne}

  -- intersect_helper: what the loop pushes, from two positions on; `last` is `res.back()`.
  unfoldable pub intersect_loop : Option T → List T → List U → List T
  intersect_loop last [] us = []
  intersect_loop last (x ∷ xs) [] = []
  intersect_loop last (x ∷ xs) (u ∷ us) = elim (lt x u) [
    | true ↦ intersect_loop last xs (u ∷ us)
    | false ↦ elim (gt x u) [
      | true ↦ intersect_loop last (x ∷ xs) us
      | false ↦ elim (differs ne last x) [
        | true ↦ x ∷ intersect_loop (some x) xs (u ∷ us)
        | false ↦ intersect_loop last xs (u ∷ us)
      ]
    ]
  ]

  -- setdiff_helper
  unfoldable pub setdiff_loop : List T → List U → List T
  setdiff_loop [] us = []
  setdiff_loop (x ∷ xs) [] = x ∷ xs
  setdiff_loop (x ∷ xs) (u ∷ us) = elim (lt x u) [
    | true ↦ x ∷ setdiff_loop xs (u ∷ us)
    | false ↦ elim (gt x u) [ true ↦ setdiff_loop (x ∷ xs) us | false ↦ setdiff_loop xs (u ∷ us) ]
  ]

module _ {T : Type 0} (c : Comparison T T) where
  open c use {lt, gt, ne}

  -- The two last loops of union_helper: `prev` is the element before the position, which the code
  -- compares with, and not with the end of the result.
  unfoldable pub union_rest : Option T → List T → List T
  union_rest prev [] = []
  union_rest prev (x ∷ xs) =
      let rest = union_rest (some x) xs in if differs ne prev x then x ∷ rest else rest

  -- union_helper, from two positions on; `prev1` and `prev2` are the elements before them.
  unfoldable pub union_loop : Option T → Option T → Option T → List T → List T → List T
  unfolding union_rest
  union_loop last prev1 prev2 [] ys = union_rest prev1 [] ++ union_rest prev2 ys
  union_loop last prev1 prev2 (x ∷ xs) [] = union_rest prev1 (x ∷ xs) ++ union_rest prev2 []
  union_loop last prev1 prev2 (x ∷ xs) (y ∷ ys) = elim (lt x y) [
    | true ↦ elim (differs ne last x) [
      | true ↦ x ∷ union_loop (some x) (some x) prev2 xs (y ∷ ys)
      | false ↦ union_loop last (some x) prev2 xs (y ∷ ys)
    ]
    | false ↦ elim (gt x y) [
      | true ↦ elim (differs ne last y) [
        | true ↦ y ∷ union_loop (some y) prev1 (some y) (x ∷ xs) ys
        | false ↦ union_loop last prev1 (some y) (x ∷ xs) ys
      ]
      | false ↦ elim (differs ne last x) [
        | true ↦ x ∷ union_loop (some x) (some x) (some y) xs ys
        | false ↦ union_loop last (some x) (some y) xs ys
      ]
    ]
  ]
