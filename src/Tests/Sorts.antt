-- ===== src/Tests/Sorts.antt =====
-- A sort that meets the assumptions on `std::sort`, for instants and for intervals.
use ztsdb.Base.{
  ℕ, ◌≡◌, refl, Bool, true, false, ◌&&◌, ◌||◌, leb, List, [], ◌∷◌, all, any, pairwise, arith,
  if◌then◌else◌,
}
use ztsdb.Interval.{Interval, le}
use ztsdb.Sets.Sorting.{IsSort}

module _ {T : Type 0} (r : T → T → Bool)
    (trans : (x y z : T) → r x y ≡ true → r y z ≡ true → r x z ≡ true)
    (total : (x y : T) → r x y ≡ false → r y x ≡ true) where
  unfoldable pub insert : T → List T → List T
  insert x [] = x ∷ []
  insert x (y ∷ ys) = let rest = insert x ys in if r x y then x ∷ y ∷ ys else y ∷ rest

  unfoldable pub sort : List T → List T
  unfolding insert
  sort [] = []
  sort (x ∷ xs) = insert x (sort xs)

  any-insert : (p : T → Bool) (x : T) (ys : List T) → any p (insert x ys) ≡ (p x || any p ys)
  unfolding insert
  any-insert p x [] = refl
  any-insert p x (y ∷ ys) = ground (arith, any-insert p x ys)

  any-sort : (p : T → Bool) (xs : List T) → any p (sort xs) ≡ any p xs
  unfolding sort
  any-sort p [] = refl
  any-sort p (x ∷ xs) = ground (arith, any-insert p x (sort xs), any-sort p xs)

  all-insert : (p : T → Bool) (x : T) (ys : List T) → all p (insert x ys) ≡ (p x && all p ys)
  unfolding insert
  all-insert p x [] = refl
  all-insert p x (y ∷ ys) = ground (arith, all-insert p x ys)

  all_trans : (x y : T) (ys : List T) → r x y ≡ true → all (r y) ys ≡ true → all (r x) ys ≡ true
  all_trans x y [] h k = refl
  all_trans x y (z ∷ ys) h k = ground (arith, trans x y z, all_trans x y ys)

  pairwise-insert : (x : T) (ys : List T) → pairwise r ys ≡ true → pairwise r (insert x ys) ≡ true
  unfolding insert
  pairwise-insert x [] h = refl
  pairwise-insert x (y ∷ ys) h =
      ground (arith, all-insert (r y) x ys, all_trans x y ys, total x y, pairwise-insert x ys)

  pairwise-sort : (xs : List T) → pairwise r (sort xs) ≡ true
  unfolding sort
  pairwise-sort [] = refl
  pairwise-sort (x ∷ xs) = pairwise-insert x (sort xs) (pairwise-sort xs)

  pub sort-IsSort : IsSort r sort
  sort-IsSort = record { sorted = pairwise-sort; same = any-sort }

pub leb_trans : (x y z : ℕ) → leb x y ≡ true → leb y z ≡ true → leb x z ≡ true
leb_trans x y z h k = ground arith

pub leb_total : (x y : ℕ) → leb x y ≡ false → leb y x ≡ true
leb_total x y h = ground arith

pub le_trans : (x y z : Interval) → le x y ≡ true → le y z ≡ true → le x z ≡ true
unfolding le
le_trans x y z h k = ground arith

pub le_total : (x y : Interval) → le x y ≡ false → le y x ≡ true
unfolding le
le_total x y h = ground arith
