-- ===== src/Sets/Setdiff.antt =====
-- `setdiff` over ordered vectors: exactly the elements of the first that meet none of the second.
use ztsdb.Base.{
  ◌≡◌, refl, Bool, true, false, not, ◌&&◌, ◌||◌, List, [], ◌∷◌, pairwise, arith, Bool-cases, inl,
  inr,
}
use ztsdb.Sets.{Comparison, setdiff_loop}
use ztsdb.Sets.Order.{meets, is_in, meets_some, IsOrder, lt-meets_some, gt_behind}

-- The three ways in which the loop moves on, for one value: is it kept later (r), the head (e), in
-- the rest (m), met (s), met by the other head (k)?
keep_head :
    (r e m s : Bool) → (e ≡ true → s ≡ false) → r ≡ (m && not s) → (e || r) ≡ ((e || m) && not s)
keep_head r e m s h i = ground arith

skip_other : (r m k s : Bool) → (m ≡ true → k ≡ false) → r ≡ (m && not s) → r ≡ (m && not (k || s))
skip_other r m k s h i = ground arith

drop_head : (r e m s : Bool) → (e ≡ true → s ≡ true) → r ≡ (m && not s) → r ≡ ((e || m) && not s)
drop_head r e m s h i = ground arith

module _ {T U : Type 0} {c : Comparison T U} {le1 : T → T → Bool} {le2 : U → U → Bool}
    (o : IsOrder c le1 le2) where
  -- On ordered vectors the difference holds exactly the elements of the first that meet no element
  -- of the second.
  pub is_in-setdiff :
      (z : T) (xs : List T) (us : List U)
      → pairwise le1 xs ≡ true
      → pairwise le2 us ≡ true
      → is_in c z (setdiff_loop c xs us) ≡ (is_in c z xs && not (meets_some c z us))
  unfolding setdiff_loop
  is_in-setdiff z [] us p q = refl
  is_in-setdiff z (x ∷ xs) [] p q = ground arith
  is_in-setdiff z (x ∷ xs) (u ∷ us) p q = elim (Bool-cases (c.lt x u)) [
    | inl l ↦
        rw (l, setdiff_loop)
          (keep_head (is_in c z (setdiff_loop c xs (u ∷ us))) (not (c.ne z x)) (is_in c z xs)
            (meets_some c z (u ∷ us)) (λ e. ground (arith, lt-meets_some o z u us, o.eq_of z x))
            (is_in-setdiff z xs (u ∷ us) (ground arith) q))
    | inr nl ↦ elim (Bool-cases (c.gt x u)) [
      | inl g ↦
          rw (nl, g, setdiff_loop)
            (skip_other (is_in c z (setdiff_loop c (x ∷ xs) us)) (is_in c z (x ∷ xs)) (meets c z u)
              (meets_some c z us) (λ m. ground (arith, o.eq_of z x, gt_behind o z x xs u))
              (is_in-setdiff z (x ∷ xs) us p (ground arith)))
      | inr ng ↦
          rw (nl, ng, setdiff_loop)
            (drop_head (is_in c z (setdiff_loop c xs (u ∷ us))) (not (c.ne z x)) (is_in c z xs)
              (meets_some c z (u ∷ us)) (λ e. ground (arith, o.eq_of z x))
              (is_in-setdiff z xs (u ∷ us) (ground arith) q))
    ]
  ]
