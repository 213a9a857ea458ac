-- ===== src/Sets/Intersect.antt =====
-- `intersect` over ordered vectors: exactly the elements of the first that meet one of the second,
-- each once.
use ztsdb.Base.{
  ◌≡◌, refl, Bool, true, false, not, ◌&&◌, ◌||◌, List, [], ◌∷◌, all, pairwise, holds, Option, none,
  some, arith, Bool-cases, inl, inr,
}
use ztsdb.Sets.{Comparison, differs, intersect_loop}
use ztsdb.Sets.Order.{
  meets, is_in, meets_some, IsOrder, strictly, strictly_behind, behind, lt-meets_some, gt_behind,
}

-- The three ways in which the loop moves on, in terms of what they say of one value: was it pushed
-- last (l), is it pushed later (r), is it the head (e), in the rest (m), met (s), met by the other
-- head (k)?
skip_below :
    (l r e m s : Bool)
    → (e ≡ true → s ≡ false)
    → (l || r) ≡ (l || (m && s))
    → (l || r) ≡ (l || ((e || m) && s))
skip_below l r e m s h i = ground arith

skip_above :
    (l r m k s : Bool)
    → (m ≡ true → k ≡ false)
    → (l || r) ≡ (l || (m && s))
    → (l || r) ≡ (l || (m && (k || s)))
skip_above l r m k s h i = ground arith

push_met :
    (l r e m k s : Bool)
    → (e ≡ true → k ≡ true)
    → (e || r) ≡ (e || (m && (k || s)))
    → (l || (e || r)) ≡ (l || ((e || m) && (k || s)))
push_met l r e m k s h i = ground arith

skip_met :
    (l r e m s : Bool)
    → (e ≡ true → l ≡ true)
    → (l || r) ≡ (l || (m && s))
    → (l || r) ≡ (l || ((e || m) && s))
skip_met l r e m s h i = ground arith

module _ {T U : Type 0} {c : Comparison T U} {le1 : T → T → Bool} {le2 : U → U → Bool}
    (o : IsOrder c le1 le2) where
  abbrev is_last : T → Option T → Bool
  is_last z = holds λ x. not (c.ne z x)

  last_same :
      (z x : T) (last : Option T) → differs c.ne last x ≡ false → z ≡ x → is_last z last ≡ true
  last_same z x none d e = cc
  last_same z x (some y) d e = ground (arith, o.eq_of y x, o.ne_refl z)

  -- With what has been pushed, from two positions on.
  intersect_from :
      (z : T) (last : Option T) (xs : List T) (us : List U)
      → pairwise le1 xs ≡ true
      → pairwise le2 us ≡ true
      → (is_last z last || is_in c z (intersect_loop c last xs us))
        ≡ (is_last z last || (is_in c z xs && meets_some c z us))
  unfolding intersect_loop
  intersect_from z last [] us p q = refl
  intersect_from z last (x ∷ xs) [] p q = ground arith
  intersect_from z last (x ∷ xs) (u ∷ us) p q = elim (Bool-cases (c.lt x u)) [
    | inl l ↦
        rw (l, intersect_loop)
          (skip_below (is_last z last) (is_in c z (intersect_loop c last xs (u ∷ us)))
            (not (c.ne z x)) (is_in c z xs) (meets_some c z (u ∷ us))
            (λ e. ground (arith, lt-meets_some o z u us, o.eq_of z x))
            (intersect_from z last xs (u ∷ us) (ground arith) q))
    | inr nl ↦ elim (Bool-cases (c.gt x u)) [
      | inl g ↦
          rw (nl, g, intersect_loop)
            (skip_above (is_last z last) (is_in c z (intersect_loop c last (x ∷ xs) us))
              (is_in c z (x ∷ xs)) (meets c z u) (meets_some c z us)
              (λ m. ground (arith, o.eq_of z x, gt_behind o z x xs u))
              (intersect_from z last (x ∷ xs) us p (ground arith)))
      | inr ng ↦ elim (Bool-cases (differs c.ne last x)) [
        | inl d ↦
            rw (nl, ng, d, intersect_loop)
              (push_met (is_last z last) (is_in c z (intersect_loop c (some x) xs (u ∷ us)))
                (not (c.ne z x)) (is_in c z xs) (meets c z u) (meets_some c z us)
                (λ e. ground (arith, o.eq_of z x))
                (intersect_from z (some x) xs (u ∷ us) (ground arith) q))
        | inr s ↦
            rw (nl, ng, s, intersect_loop)
              (skip_met (is_last z last) (is_in c z (intersect_loop c last xs (u ∷ us)))
                (not (c.ne z x)) (is_in c z xs) (meets_some c z (u ∷ us))
                (λ e. last_same z x last s (ground (arith, o.eq_of z x)))
                (intersect_from z last xs (u ∷ us) (ground arith) q))
      ]
    ]
  ]

  -- On ordered vectors the intersection holds exactly the elements of the first that meet an element
  -- of the second.
  pub is_in-intersect :
      (z : T) (xs : List T) (us : List U)
      → pairwise le1 xs ≡ true
      → pairwise le2 us ≡ true
      → is_in c z (intersect_loop c none xs us) ≡ (is_in c z xs && meets_some c z us)
  is_in-intersect z xs us p q = intersect_from z none xs us p q

  -- What the loop pushes comes from the first vector.
  pub all-intersect :
      (r : T → Bool) (last : Option T) (xs : List T) (us : List U)
      → all r xs ≡ true
      → all r (intersect_loop c last xs us) ≡ true
  unfolding intersect_loop
  all-intersect r last [] us h = refl
  all-intersect r last (x ∷ xs) [] h = refl
  all-intersect r last (x ∷ xs) (u ∷ us) h = ground (
    arith,
    all-intersect r last xs (u ∷ us),
    all-intersect r last (x ∷ xs) us,
    all-intersect r (some x) xs (u ∷ us),
  )

  Strict : Option T → List T → Type 0
  Strict last ys = (pairwise (strictly o) ys ≡ true) × (behind o (strictly o) last ys ≡ true)

  Strict-push :
      (last : Option T) (x : T) (ys : List T)
      → behind o le1 last (x ∷ ys) ≡ true
      → differs c.ne last x ≡ true
      → Strict (some x) ys
      → Strict last (x ∷ ys)
  unfolding Strict
  Strict-push none x ys a d s = ground arith
  Strict-push (some l) x ys a d s =
      ground (arith, strictly_behind o l x ys, o.eq_of l x, o.ne_refl x)

  behind-intersect :
      (last l' : Option T) (xs : List T) (us : List U)
      → behind o le1 last xs ≡ true
      → behind o le1 last (intersect_loop c l' xs us) ≡ true
  behind-intersect none l' xs us h = refl
  behind-intersect (some l) l' xs us h = all-intersect (le1 l) l' xs us h

  behind_tail :
      (last : Option T) (x : T) (xs : List T)
      → behind o le1 last (x ∷ xs) ≡ true
      → behind o le1 last xs ≡ true
  behind_tail none x xs h = refl
  behind_tail (some l) x xs h = ground arith

  behind_cons :
      (last : Option T) (x : T) (xs ys : List T)
      → behind o le1 last (x ∷ xs) ≡ true
      → behind o le1 last ys ≡ true
      → behind o le1 last (x ∷ ys) ≡ true
  behind_cons none x xs ys h k = refl
  behind_cons (some l) x xs ys h k = ground arith

  intersect-Strict :
      (last : Option T) (xs : List T) (us : List U)
      → pairwise le1 xs ≡ true
      → behind o le1 last xs ≡ true
      → Strict last (intersect_loop c last xs us)
  unfolding intersect_loop Strict
  intersect-Strict none [] us p b = (refl, refl)
  intersect-Strict (some l) [] us p b = (refl, refl)
  intersect-Strict none (x ∷ xs) [] p b = (refl, refl)
  intersect-Strict (some l) (x ∷ xs) [] p b = (refl, refl)
  intersect-Strict last (x ∷ xs) (u ∷ us) p b = elim (Bool-cases (c.lt x u)) [
    | inl l ↦
        rw (l, intersect_loop)
          (intersect-Strict last xs (u ∷ us) (ground arith) (behind_tail last x xs b))
    | inr nl ↦ elim (Bool-cases (c.gt x u)) [
      | inl g ↦ rw (nl, g, intersect_loop) (intersect-Strict last (x ∷ xs) us p b)
      | inr ng ↦ elim (Bool-cases (differs c.ne last x)) [
        | inl d ↦
            rw (nl, ng, d, intersect_loop)
              (Strict-push last x (intersect_loop c (some x) xs (u ∷ us))
                (behind_cons last x xs _ b
                  (behind-intersect last (some x) xs (u ∷ us) (behind_tail last x xs b)))
                d (intersect-Strict (some x) xs (u ∷ us) (ground arith) (ground arith)))
        | inr s ↦
            rw (nl, ng, s, intersect_loop)
              (intersect-Strict last xs (u ∷ us) (ground arith) (behind_tail last x xs b))
      ]
    ]
  ]

  -- On an ordered first vector the intersection ascends strictly: no element stands in it twice.
  pub pairwise-intersect :
      (xs : List T) (us : List U)
      → pairwise le1 xs ≡ true
      → pairwise (strictly o) (intersect_loop c none xs us) ≡ true
  unfolding Strict
  pairwise-intersect xs us p = (intersect-Strict none xs us p refl).0
