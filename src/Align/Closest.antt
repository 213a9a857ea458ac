-- ===== src/Align/Closest.antt =====
-- What align_idx and align_closest choose.
use ztsdb.Base.{
  ℕ, zero, suc, ◌+◌, ◌≤◌, ◌<◌, ◌≡◌, refl, ap, subst, Bool, true, false, ◌&&◌, ◌||◌, pairwise, all,
  ltb, leb, ◌==◌, if◌then◌else◌, none, some, List, [], ◌∷◌, length, get_or, arith, Bool-cases, inl,
  inr,
}
use ztsdb.Align.{Round, distance, advance, closest, round, idx_loop, align_idx}

-- Where all elements left are before the window, align_idx throws and align_closest stops at the
-- end.
abbrev pub all_before : ℕ → List ℕ → ℕ → ℕ → Bool
all_before zero x t ix = true
all_before (suc n) x t ix = ltb (get_or x ix 0) t && all_before n x t (ix + 1)

advance-all_before :
    (strict : Bool) (n : ℕ) (x : List ℕ) (t ix : ℕ)
    → all_before n x t ix ≡ true
    → advance strict n x t ix ≡ (if strict || length x == 0 then some (ix + n) else none)
unfolding advance
advance-all_before strict zero x t ix h = ground arith
advance-all_before strict (suc n) x t ix h =
    ground (arith, advance-all_before strict n x t (ix + 1))

-- Whenever there are elements in `x` and all of them are before the first window, align_idx throws.
align_idx_throws :
    (x : List ℕ) (r : Round) (rs : List Round)
    → 0 < length x
    → all_before (length x) x r.ystart 0 ≡ true
    → align_idx x (r ∷ rs) ≡ none
unfolding align_idx idx_loop round
align_idx_throws x r rs l h = ground (arith, advance-all_before false (length x) x r.ystart 0 h)

pub advance_stops :
    (n : ℕ) (x : List ℕ) (t ix i : ℕ)
    → advance true n x t ix ≡ some i
    → (leb ix i && leb i (ix + n)) ≡ true
unfolding advance
advance_stops zero x t ix i h = ground arith
advance_stops (suc n) x t ix i h = ground (arith, advance_stops n x t (ix + 1) i)

pub advance_not_before :
    (n : ℕ) (x : List ℕ) (t ix i : ℕ)
    → advance true n x t ix ≡ some i
    → i < ix + n
    → leb t (get_or x i 0) ≡ true
unfolding advance
advance_not_before zero x t ix i h b = ground arith
advance_not_before (suc n) x t ix i h b = ground (arith, advance_not_before n x t (ix + 1) i)

advance_total : (n : ℕ) (x : List ℕ) (t ix : ℕ) → (i : ℕ) × (advance true n x t ix ≡ some i)
unfolding advance
advance_total zero x t ix = (ix, refl)
advance_total (suc n) x t ix = elim (Bool-cases (ltb (get_or x ix 0) t)) [
  | inl e ↦ let (i, q) = advance_total n x t (ix + 1) in (i, rw e q)
  | inr e ↦ (ix, rw e refl)
]

-- Is the element at i in the window, and inside the bounds?
abbrev pub in_window : List ℕ → Round → ℕ → Bool
in_window x r i = ltb i (length x) && (leb r.ystart (get_or x i 0) && leb (get_or x i 0) r.yend)

abbrev pub no_closer : List ℕ → Round → ℕ → ℕ → Bool
no_closer x r i j = leb (distance (get_or x i 0) r.at) (distance (get_or x j 0) r.at)

closest-no_closer :
    (n : ℕ) (x : List ℕ) (r : Round) (i : ℕ) → no_closer x r (closest n x r i) i ≡ true
unfolding closest
closest-no_closer zero x r i = ground arith
closest-no_closer (suc n) x r i = ground (arith, closest-no_closer n x r (i + 1))

pub closest_bounds :
    (n : ℕ) (x : List ℕ) (r : Round) (i : ℕ)
    → ltb i (length x) ≡ true
    → leb (get_or x i 0) r.yend ≡ true
    → (ltb (closest n x r i) (length x) && leb (get_or x (closest n x r i) 0) r.yend) ≡ true
unfolding closest
closest_bounds zero x r i h e = ground arith
closest_bounds (suc n) x r i h e = ground (arith, closest_bounds n x r (i + 1))

pub advance_least :
    (n : ℕ) (x : List ℕ) (t ix i k : ℕ)
    → advance true n x t ix ≡ some i
    → ix ≤ k
    → k < i
    → ltb (get_or x k 0) t ≡ true
unfolding advance
advance_least zero x t ix i k h a b = ground arith
advance_least (suc n) x t ix i k h a b = elim (Bool-cases (ix == k)) [
  | inl e ↦ ground (arith, ap (λ j. get_or x j 0) (let q : ix ≡ k = ground (arith, e) in q))
  | inr e ↦ ground (arith, e, advance_least n x t (ix + 1) i k)
]

all-get_or : (a : ℕ) (x : List ℕ) (k : ℕ) → all (ltb a) x ≡ true → k < length x → a < get_or x k 0
all-get_or a [] k h b = absurd (omega arith)
all-get_or a (y ∷ x) zero h b = ground arith
all-get_or a (y ∷ x) (suc k) h b = all-get_or a x k (ground arith) (omega arith)

pub get_or_mono :
    (x : List ℕ) (i k : ℕ)
    → pairwise ltb x ≡ true
    → i < k
    → k < length x
    → get_or x i 0 < get_or x k 0
get_or_mono [] i k h a b = absurd (omega arith)
get_or_mono (y ∷ x) i zero h a b = absurd (omega arith)
get_or_mono (y ∷ x) zero (suc k) h a b = all-get_or y x k (ground arith) (omega arith)
get_or_mono (y ∷ x) (suc i) (suc k) h a b =
    get_or_mono x i k (ground arith) (omega arith) (omega arith)

-- Once the next element is no closer, none behind it is.
farther :
    (x : List ℕ) (r : Round) (i k : ℕ)
    → pairwise ltb x ≡ true
    → i + 1 ≤ k
    → k < length x
    → ltb (distance (get_or x (i + 1) 0) r.at) (distance (get_or x i 0) r.at) ≡ false
    → no_closer x r i k ≡ true
farther x r i k h a b e = elim (Bool-cases (i + 1 == k)) [
  | inl q ↦ ground (arith, e, ap (λ j. get_or x j 0) (let p : i + 1 ≡ k = ground (arith, q) in p))
  | inr q ↦
      let after = get_or_mono x (i + 1) k h (ground (arith, q)) b in
      let next = get_or_mono x i (i + 1) h (omega arith) (omega arith) in
      ground (arith, e, after, next)
]

pub closest_least :
    (n : ℕ) (x : List ℕ) (r : Round) (i k : ℕ)
    → pairwise ltb x ≡ true
    → length x ≤ i + n
    → i ≤ k
    → k < length x
    → leb (get_or x k 0) r.yend ≡ true
    → no_closer x r (closest n x r i) k ≡ true
unfolding closest
closest_least zero x r i k h l a b e = absurd (omega arith)
closest_least (suc n) x r i k h l a b e = elim (Bool-cases (i == k)) [
  | inl q ↦
      let p : i ≡ k = ground (arith, q) in
      subst (λ j. no_closer x r (closest (suc n) x r i) j ≡ true) p
        (closest-no_closer (suc n) x r i)
  | inr q ↦
      elim (Bool-cases (ltb (distance (get_or x (i + 1) 0) r.at) (distance (get_or x i 0) r.at))) [
        | inl c ↦ elim (Bool-cases (i + 1 == k)) [
          | inl p ↦ ground (
            arith,
            q,
            c,
            e,
            ap (λ j. get_or x j 0) (let p' : i + 1 ≡ k = ground (arith, p) in p'),
            closest_least n x r (i + 1) k h,
          )
          | inr p ↦
              let next = get_or_mono x (i + 1) k h (ground (arith, q, p)) b in
              ground (arith, q, c, e, next, closest_least n x r (i + 1) k h)
        ]
        | inr c ↦ let far = farther x r i k h (ground (arith, q)) b c in ground (arith, c, far)
      ]
]
