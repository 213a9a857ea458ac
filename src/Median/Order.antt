-- ===== src/Median/Order.antt =====
-- The queues: what a push keeps.
use ztsdb.Base.{
  ℕ, suc, ◌+◌, ◌≤◌, ◌≡◌, refl, Bool, true, false, not, leb, List, [], ◌∷◌, length, all, pairwise,
  arith,
}
use ztsdb.Median.{push, larger}

-- How many elements are such?
abbrev pub one_if : Bool → ℕ
one_if true = 1
one_if false = 0

abbrev pub count : (ℕ → Bool) → List ℕ → ℕ
count p [] = 0
count p (x ∷ xs) = one_if (p x) + count p xs

pub count-push :
    (p : ℕ → Bool) (before : ℕ → ℕ → Bool) (x : ℕ) (q : List ℕ)
    → count p (push before x q) ≡ one_if (p x) + count p q
unfolding push
count-push p before x [] = refl
count-push p before x (y ∷ q) = ground (arith, count-push p before x q)

pub length-push :
    (before : ℕ → ℕ → Bool) (x : ℕ) (q : List ℕ) → length (push before x q) ≡ suc (length q)
unfolding push
length-push before x [] = refl
length-push before x (y ∷ q) = ground (arith, length-push before x q)

pub all-push :
    (p : ℕ → Bool) (before : ℕ → ℕ → Bool) (x : ℕ) (q : List ℕ)
    → p x ≡ true
    → all p q ≡ true
    → all p (push before x q) ≡ true
unfolding push
all-push p before x [] h k = ground arith
all-push p before x (y ∷ q) h k = ground (arith, all-push p before x q)

all-leb : (a b : ℕ) (q : List ℕ) → leb a b ≡ true → all (leb b) q ≡ true → all (leb a) q ≡ true
all-leb a b [] h k = refl
all-leb a b (x ∷ q) h k = ground (arith, all-leb a b q)

all-larger :
    (a b : ℕ) (q : List ℕ) → larger a b ≡ true → all (larger b) q ≡ true → all (larger a) q ≡ true
all-larger a b [] h k = refl
all-larger a b (x ∷ q) h k = ground (arith, all-larger a b q)

pub ascends-push : (x : ℕ) (q : List ℕ) → pairwise leb q ≡ true → pairwise leb (push leb x q) ≡ true
unfolding push
ascends-push x [] h = refl
ascends-push x (y ∷ q) h = ground (arith, ascends-push x q, all-leb x y q, all-push (leb y) leb x q)

pub descends-push :
    (x : ℕ) (q : List ℕ) → pairwise larger q ≡ true → pairwise larger (push larger x q) ≡ true
unfolding push
descends-push x [] h = refl
descends-push x (y ∷ q) h =
    ground (arith, descends-push x q, all-larger x y q, all-push (larger y) larger x q)

pub count-none : (p : ℕ → Bool) (q : List ℕ) → all (λ x. not (p x)) q ≡ true → count p q ≡ 0
count-none p [] h = refl
count-none p (x ∷ q) h = ground (arith, count-none p q)

pub count-le : (p : ℕ → Bool) (q : List ℕ) → count p q ≤ length q
count-le p [] = omega arith
count-le p (x ∷ q) = ground (arith, count-le p q)
