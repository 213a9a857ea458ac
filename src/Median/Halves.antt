-- ===== src/Median/Halves.antt =====
-- The invariant of the two halves.
use ztsdb.Base.{
  ℕ, suc, ◌+◌, ◌≤◌, ◌<◌, ◌≡◌, refl, ◌∙◌, Bool, true, false, ◌&&◌, ◌||◌, ltb, leb, ◌==◌,
  if◌then◌else◌, List, [], ◌∷◌, length, pairwise, arith, Bool-cases, inl, inr,
}
use ztsdb.Median.{push, pop, top, larger, push_left, push_right, Halves, add, halves_from}
use ztsdb.Median.Order.{one_if, count, count-push, length-push, ascends-push, descends-push}

-- The lower half descends, the upper one ascends, they meet in order, and their sizes differ by one
-- at most.
abbrev pub good : List ℕ → List ℕ → Bool
good l r =
    (pairwise larger l && pairwise leb r)
    && ((length l == 0 || length r == 0 || leb (top l) (top r))
        && (leb (length l) (length r + 1) && leb (length r) (length l + 1)))

top-push_left :
    (x : ℕ) (l : List ℕ)
    → top (push_left x l) ≡ (if length l == 0 || ltb (top l) x then x else top l)
unfolding push
top-push_left x [] = refl
top-push_left x (a ∷ l) = ground arith

top-push_right :
    (x : ℕ) (r : List ℕ)
    → top (push_right x r) ≡ (if length r == 0 || ltb x (top r) then x else top r)
unfolding push
top-push_right x [] = refl
top-push_right x (a ∷ r) = ground arith

abbrev pub fine : Halves → Bool
fine (l, r) = good l r

add_left :
    (x : ℕ) (l r : List ℕ)
    → good l r ≡ true
    → (length r == 0 || leb x (top r)) ≡ true
    → length l ≤ length r
    → good (push_left x l) r ≡ true
add_left x l r g h k = ground (arith, top-push_left x l, length-push larger x l, descends-push x l)

add_right :
    (x : ℕ) (l r : List ℕ)
    → good l r ≡ true
    → (length l == 0 || leb (top l) x) ≡ true
    → length r ≤ length l
    → good l (push_right x r) ≡ true
add_right x l r g h k = ground (arith, top-push_right x r, length-push leb x r, ascends-push x r)

pop_right :
    (l r : List ℕ)
    → pairwise larger l ≡ true
    → pairwise leb r ≡ true
    → 0 < length r
    → (pairwise leb (pop r) ≡ true)
      × ((length (pop r) == 0 || leb (top r) (top (pop r))) ≡ true)
      × (suc (length (pop r)) ≡ length r)
pop_right l [] g h k = absurd (omega arith)
pop_right l (b ∷ []) g h k = ground arith
pop_right l (b ∷ c ∷ r) g h k = ground arith

pop_left :
    (l : List ℕ)
    → pairwise larger l ≡ true
    → 0 < length l
    → (pairwise larger (pop l) ≡ true)
      × ((length (pop l) == 0 || leb (top (pop l)) (top l)) ≡ true)
      × (suc (length (pop l)) ≡ length l)
pop_left [] g k = absurd (omega arith)
pop_left (a ∷ []) g k = ground arith
pop_left (a ∷ c ∷ l) g k = ground arith

shift_left :
    (x : ℕ) (l r : List ℕ)
    → good l r ≡ true
    → length l < length r
    → ltb x (top r) ≡ false
    → good (push_left (top r) l) (push_right x (pop r)) ≡ true
shift_left x l r g h k =
    let (p, q, n) = pop_right l r (ground (arith, g)) (ground (arith, g)) (omega arith) in
    let g' : good l (pop r) ≡ true = ground (arith, g, h, p, q, n) in
    let g'' : good (push_left (top r) l) (pop r) ≡ true =
      add_left (top r) l (pop r) g' q (ground (arith, g, h, n)) in
    add_right x (push_left (top r) l) (pop r) g''
      (ground (arith, top-push_left (top r) l, g, h, k, length-push larger (top r) l))
      (ground (arith, g, h, n, length-push larger (top r) l))

shift_right :
    (x : ℕ) (l r : List ℕ)
    → good l r ≡ true
    → length r < length l
    → ltb (top l) x ≡ false
    → good (push_left x (pop l)) (push_right (top l) r) ≡ true
shift_right x l r g h k =
    let (p, q, n) = pop_left l (ground (arith, g)) (omega arith) in
    let g' : good (pop l) r ≡ true = ground (arith, g, h, p, q, n) in
    let g'' : good (pop l) (push_right (top l) r) ≡ true =
      add_right (top l) (pop l) r g' q (ground (arith, g, h, n)) in
    add_left x (pop l) (push_right (top l) r) g''
      (ground (arith, top-push_right (top l) r, g, h, k, length-push leb (top l) r))
      (ground (arith, g, h, n, length-push leb (top l) r))

add-fine : (x : ℕ) (l r : List ℕ) → good l r ≡ true → fine (add (l, r) x) ≡ true
unfolding add
add-fine x l r g = elim (Bool-cases (length l == length r)) [
  | inl e ↦ elim (Bool-cases (length l == 0 || ltb x (top l))) [
    | inl c ↦ rw (e, c, add) (add_left x l r g (ground (arith, e, c, g)) (ground (arith, e)))
    | inr c ↦ rw (e, c, add) (add_right x l r g (ground (arith, e, c, g)) (ground (arith, e)))
  ]
  | inr e ↦ elim (Bool-cases (ltb (length l) (length r))) [
    | inl f ↦ elim (Bool-cases (ltb x (top r))) [
      | inl c ↦ rw (e, f, c, add) (add_left x l r g (ground (arith, c)) (ground (arith, f)))
      | inr c ↦ rw (e, f, c, add) (shift_left x l r g (ground (arith, f)) c)
    ]
    | inr f ↦ elim (Bool-cases (ltb (top l) x)) [
      | inl c ↦ rw (e, f, c, add) (add_right x l r g (ground (arith, c)) (ground (arith, f)))
      | inr c ↦ rw (e, f, c, add) (shift_right x l r g (ground (arith, e, f)) c)
    ]
  ]
]

-- The elements of both halves, as often as they were put in.
abbrev pub count_both : (ℕ → Bool) → Halves → ℕ
count_both p (l, r) = count p l + count p r

count-pop :
    (p : ℕ → Bool) (q : List ℕ) → 0 < length q → one_if (p (top q)) + count p (pop q) ≡ count p q
count-pop p [] h = absurd (omega arith)
count-pop p (x ∷ q) h = refl

count-add :
    (p : ℕ → Bool) (x : ℕ) (l r : List ℕ)
    → count_both p (add (l, r) x) ≡ one_if (p x) + (count p l + count p r)
unfolding add
count-add p x l r = elim (Bool-cases (length l == length r)) [
  | inl e ↦ elim (Bool-cases (length l == 0 || ltb x (top l))) [
    | inl c ↦ rw (e, c, add) (omega (arith, count-push p larger x l))
    | inr c ↦ rw (e, c, add) (omega (arith, count-push p leb x r))
  ]
  | inr e ↦ elim (Bool-cases (ltb (length l) (length r))) [
    | inl f ↦ elim (Bool-cases (ltb x (top r))) [
      | inl c ↦ rw (e, f, c, add) (omega (arith, count-push p larger x l))
      | inr c ↦
          rw (e, f, c, add)
            (omega (
              arith,
              count-push p larger (top r) l,
              count-push p leb x (pop r),
              count-pop p r (ground (arith, f)),
            ))
    ]
    | inr f ↦ elim (Bool-cases (ltb (top l) x)) [
      | inl c ↦ rw (e, f, c, add) (omega (arith, count-push p leb x r))
      | inr c ↦
          rw (e, f, c, add)
            (omega (
              arith,
              count-push p leb (top l) r,
              count-push p larger x (pop l),
              count-pop p l (ground (arith, e, f)),
            ))
    ]
  ]
]

pub halves_from-good : (l r xs : List ℕ) → good l r ≡ true → fine (halves_from (l, r) xs) ≡ true
unfolding halves_from
halves_from-good l r [] g = g
halves_from-good l r (x ∷ xs) g =
    halves_from-good (add (l, r) x).0 (add (l, r) x).1 xs (add-fine x l r g)

pub count-halves_from :
    (p : ℕ → Bool) (l r xs : List ℕ)
    → count_both p (halves_from (l, r) xs) ≡ count p l + count p r + count p xs
unfolding halves_from
count-halves_from p l r [] = omega arith
count-halves_from p l r (x ∷ xs) =
    count-halves_from p (add (l, r) x).0 (add (l, r) x).1 xs ∙ omega (arith, count-add p x l r)
