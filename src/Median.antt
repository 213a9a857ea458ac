-- ===== src/Median.antt =====
-- src/align_funcs.hpp: the median of the values in a window, by two priority queues, one for the lower
-- half with its largest element on top, one for the upper half with its smallest on top.
-- A value stands for a double by its place in their order; NaN is not modelled. A
-- `std::priority_queue` is its elements in the order in which they would be popped.
pub mod Order
pub mod Halves
pub mod Rank
use ztsdb.Base.{
  ℕ, zero, suc, ◌+◌, Bool, true, false, ◌||◌, ltb, leb, ◌==◌, if◌then◌else◌, Option, none, some,
  List, [], ◌∷◌, length,
}

-- push, for the order in which elements are popped.
unfoldable pub push : (ℕ → ℕ → Bool) → ℕ → List ℕ → List ℕ
push before x [] = x ∷ []
push before x (y ∷ q) = let rest = push before x q in if before x y then x ∷ y ∷ q else y ∷ rest

abbrev pub pop : List ℕ → List ℕ
pop [] = []
pop (x ∷ q) = q

-- top(), only asked of a queue that is not empty.
abbrev pub top : List ℕ → ℕ
top [] = 0
top (x ∷ q) = x

abbrev pub larger : ℕ → ℕ → Bool
larger a b = leb b a

abbrev pub push_left : ℕ → List ℕ → List ℕ
push_left = push larger

abbrev pub push_right : ℕ → List ℕ → List ℕ
push_right = push leb

abbrev pub Halves : Type 0
Halves = List ℕ × List ℕ

-- One round of the loop.
unfoldable pub add : Halves → ℕ → Halves
add (left, right) x =
    if length left == length right
    then (if length left == 0 || ltb x (top left)
        then (push_left x left, right)
        else (left, push_right x right))
    else if ltb (length left) (length right)
    then (if ltb x (top right)
        then (push_left x left, right)
        else (push_left (top right) left, push_right x (pop right)))
    else (if ltb (top left) x
        then (left, push_right x right)
        else (push_left x (pop left), push_right (top left) right))

unfoldable pub halves_from : Halves → List ℕ → Halves
halves_from h [] = h
halves_from h (x ∷ xs) = halves_from (add h x) xs

-- The result: NaN, one value, or the mean of two.
pub data Middle : Type 0 where
  nan : Middle
  one : ℕ → Middle
  mean : ℕ → ℕ → Middle

unfoldable pub middle : Halves → Middle
middle (left, right) =
    if length left == length right
    then mean (top left) (top right)
    else if ltb (length left) (length right)
    then one (top right)
    else one (top left)

-- median_element::f
unfoldable pub median : List ℕ → Middle
median [] = nan
median (x ∷ xs) = middle (halves_from ([], []) (x ∷ xs))

-- max_element, min_element and count_element; `none` stands for NaN.
unfoldable pub max_of : List ℕ → Option ℕ
max_of [] = none
max_of (x ∷ xs) = elim (max_of xs) [ none ↦ some x | some m ↦ some (if ltb x m then m else x) ]

unfoldable pub min_of : List ℕ → Option ℕ
min_of [] = none
min_of (x ∷ xs) = elim (min_of xs) [ none ↦ some x | some m ↦ some (if ltb m x then m else x) ]

unfoldable pub count_of : List ℕ → ℕ
count_of xs = length xs
