-- ===== src/Median/Rank.antt =====
-- The median has the rank that its name promises.
use ztsdb.Base.{
  ℕ, ◌+◌, ◌*◌, ◌<◌, ◌≡◌, refl, ◌∙◌, Bool, true, false, ◌&&◌, ◌||◌, ltb, leb, ◌==◌, List, [], ◌∷◌,
  length, all, pairwise, arith, Bool-cases, inl, inr,
}
use ztsdb.Median.{top, larger, halves_from, Middle, nan, one, mean, middle, median}
use ztsdb.Median.Order.{count, count-le}
use ztsdb.Median.Halves.{good, halves_from-good, count-halves_from}

abbrev pub less : ℕ → ℕ → Bool
less m e = ltb e m

abbrev pub more : ℕ → ℕ → Bool
more m e = ltb m e

-- Of the elements of `xs` fewer than half are less than the middle and fewer than half are more; for
-- a mean of two, these are in order, fewer than half are less than the first and at most half less than
-- the second, and likewise from above.
abbrev pub is_middle : Middle → List ℕ → Bool
is_middle nan xs = false
is_middle (one m) xs =
    ltb (2 * count (less m) xs) (length xs) && ltb (2 * count (more m) xs) (length xs)
is_middle (mean a b) xs =
    leb a b
    && (ltb (2 * count (less a) xs) (length xs) && ltb (2 * count (more b) xs) (length xs))
    && (leb (2 * count (less b) xs) (length xs) && leb (2 * count (more a) xs) (length xs))

count_less : (a : ℕ) (r : List ℕ) → all (leb a) r ≡ true → count (less a) r ≡ 0
count_less a [] h = refl
count_less a (x ∷ r) h = ground (arith, count_less a r)

count_more : (a : ℕ) (l : List ℕ) → all (larger a) l ≡ true → count (more a) l ≡ 0
count_more a [] h = refl
count_more a (x ∷ l) h = ground (arith, count_more a l)

all-leb : (a b : ℕ) (q : List ℕ) → leb a b ≡ true → all (leb b) q ≡ true → all (leb a) q ≡ true
all-leb a b [] h k = refl
all-leb a b (x ∷ q) h k = ground (arith, all-leb a b q)

all-larger :
    (a b : ℕ) (q : List ℕ) → larger a b ≡ true → all (larger b) q ≡ true → all (larger a) q ≡ true
all-larger a b [] h k = refl
all-larger a b (x ∷ q) h k = ground (arith, all-larger a b q)

-- The elements of one half, against the top of a half.
upper :
    (a : ℕ) (r : List ℕ)
    → pairwise leb r ≡ true
    → (length r == 0 || leb a (top r)) ≡ true
    → count (less a) r ≡ 0
upper a [] h k = refl
upper a (x ∷ r) h k = count_less a (x ∷ r) (ground (arith, all-leb a x r))

lower :
    (a : ℕ) (l : List ℕ)
    → pairwise larger l ≡ true
    → (length l == 0 || leb (top l) a) ≡ true
    → count (more a) l ≡ 0
lower a [] h k = refl
lower a (x ∷ l) h k = count_more a (x ∷ l) (ground (arith, all-larger a x l))

less-top : (l : List ℕ) → 0 < length l → count (less (top l)) l < length l
less-top [] h = absurd (omega arith)
less-top (x ∷ l) h = ground (arith, count-le (less x) l)

more-top : (r : List ℕ) → 0 < length r → count (more (top r)) r < length r
more-top [] h = absurd (omega arith)
more-top (x ∷ r) h = ground (arith, count-le (more x) r)

count_all : (xs : List ℕ) → count (λ e. true) xs ≡ length xs
count_all [] = refl
count_all (x ∷ xs) = omega (arith, count_all xs)

-- The same for the two halves, by the number of elements of each.
middle-halves :
    (l r xs : List ℕ)
    → good l r ≡ true
    → 0 < length xs
    → ((p : ℕ → Bool) → count p l + count p r ≡ count p xs)
    → is_middle (middle (l, r)) xs ≡ true
unfolding middle
middle-halves l r xs g n c =
    let size : length l + length r ≡ length xs =
      omega (arith, count_all l, count_all r, count_all xs, c (λ e. true)) in
    elim (Bool-cases (length l == length r)) [
      | inl e ↦ ground (
        arith,
        e,
        size,
        g,
        c (less (top l)),
        c (more (top l)),
        c (less (top r)),
        c (more (top r)),
        upper (top l) r,
        lower (top l) l,
        upper (top r) r,
        lower (top r) l,
        less-top l,
        more-top r,
        count-le (less (top r)) l,
        count-le (more (top l)) r,
      )
      | inr e ↦ elim (Bool-cases (ltb (length l) (length r))) [
        | inl f ↦ ground (
          arith,
          e,
          f,
          size,
          g,
          c (less (top r)),
          c (more (top r)),
          upper (top r) r,
          lower (top r) l,
          more-top r,
          count-le (less (top r)) l,
        )
        | inr f ↦ ground (
          arith,
          e,
          f,
          size,
          g,
          c (less (top l)),
          c (more (top l)),
          upper (top l) r,
          lower (top l) l,
          less-top l,
          count-le (more (top l)) r,
        )
      ]
    ]

-- Of the values of a window that is not empty fewer than half are less than the median and fewer than
-- half are more, where it is one of them; where it is the mean of two, these are in order, fewer than
-- half are less than the first and at most half less than the second, and likewise from above.
pub median-is_middle : (x : ℕ) (xs : List ℕ) → is_middle (median (x ∷ xs)) (x ∷ xs) ≡ true
unfolding median
median-is_middle x xs =
    middle-halves (halves_from ([], []) (x ∷ xs)).0 (halves_from ([], []) (x ∷ xs)).1 (x ∷ xs)
      (halves_from-good [] [] (x ∷ xs) refl) (omega arith)
      (λ p. count-halves_from p [] [] (x ∷ xs) ∙ omega arith)
