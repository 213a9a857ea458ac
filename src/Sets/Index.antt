-- ===== src/Sets/Index.antt =====
-- The set operations that return positions (1 for the first) instead of elements. They compare an
-- element with the one before it in its vector, `v1[i1-1]`, which at the start is out of bounds.
use ztsdb.Base.{
  ℕ, ◌+◌, ◌≡◌, Bool, true, false, Option, none, some, List, [], ◌∷◌, if◌then◌else◌, arith,
}
use ztsdb.Sets.{Comparison}

abbrev pub Pairs : Type 0
Pairs = List ℕ × List ℕ

abbrev pub no_pairs : Pairs
no_pairs = ([], [])

abbrev pub add_pair : ℕ → ℕ → Option Pairs → Option Pairs
add_pair a b none = none
add_pair a b (some (ps, qs)) = some (a ∷ ps, b ∷ qs)

module _ {T U : Type 0} (c : Comparison T U) where
  open c use {lt, gt, ne}

  -- intersect_idx_helper: where two elements meet, the code reads `v1[i1-1]` without the test that
  -- `i1` is not 0 (it tests that `v1` is not empty), so that `operator[]` throws there (`none`).
  unfoldable pub intersect_idx_loop : Option T → ℕ → ℕ → List T → List U → Option Pairs
  intersect_idx_loop prev i1 i2 [] us = some no_pairs
  intersect_idx_loop prev i1 i2 (x ∷ xs) [] = some no_pairs
  intersect_idx_loop prev i1 i2 (x ∷ xs) (u ∷ us) = elim (lt x u) [
    | true ↦ intersect_idx_loop (some x) (i1 + 1) i2 xs (u ∷ us)
    | false ↦ elim (gt x u) [
      | true ↦ intersect_idx_loop prev i1 (i2 + 1) (x ∷ xs) us
      | false ↦ elim prev [
        | none ↦ none
        | some p ↦ elim (ne x p) [
          | true ↦ add_pair (i1 + 1) (i2 + 1) (intersect_idx_loop (some x) (i1 + 1) i2 xs (u ∷ us))
          | false ↦ intersect_idx_loop (some x) (i1 + 1) i2 xs (u ∷ us)
        ]
      ]
    ]
  ]

  unfoldable pub intersect_idx : List T → List U → Option Pairs
  unfolding intersect_idx_loop
  intersect_idx = intersect_idx_loop none 0 0

  -- The first of `us` that is not below `x`, if it meets `x`.
  abbrev pub first_meets : T → List U → Bool
  first_meets x [] = false
  first_meets x (u ∷ us) = if lt x u then false else if gt x u then first_meets x us else true

  first_meets-throws :
      (x : T) (xs : List T) (i2 : ℕ) (us : List U)
      → first_meets x us ≡ true
      → intersect_idx_loop none 0 i2 (x ∷ xs) us ≡ none
  unfolding intersect_idx_loop
  first_meets-throws x xs i2 [] h = absurd (ground arith)
  first_meets-throws x xs i2 (u ∷ us) h = ground (arith, first_meets-throws x xs (i2 + 1) us)

  -- Whenever the first element of the first vector meets one of the second, `intersect_idx` throws.
  intersect_idx_throws :
      (x : T) (xs : List T) (us : List U)
      → first_meets x us ≡ true
      → intersect_idx (x ∷ xs) us ≡ none
  unfolding intersect_idx
  intersect_idx_throws x xs us h = first_meets-throws x xs 0 us h
