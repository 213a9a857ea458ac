-- ===== src/Sets/Order.antt =====
-- What the comparisons of the set operations satisfy, and what follows for ordered vectors.
use ztsdb.Base.{
  Option, none, some, ◌≡◌, refl, Bool, true, false, not, ◌&&◌, List, [], ◌∷◌, all, any, arith,
}
use ztsdb.Sets.{Comparison}

module _ {T U : Type 0} (c : Comparison T U) where
  open c use {lt, gt, ne}

  -- An element of the first vector meets one of the second where it is neither below nor above it.
  abbrev pub meets : T → U → Bool
  meets x u = not (lt x u) && not (gt x u)

  abbrev pub is_in : T → List T → Bool
  is_in z = any λ x. not (ne z x)

  abbrev pub meets_some : T → List U → Bool
  meets_some z = any λ u. meets z u

-- `le1` and `le2` order the two vectors, and the comparisons go along with these orders.
pub record IsOrder {T U : Type 0} (c : Comparison T U) (le1 : T → T → Bool) (le2 : U → U → Bool)
    : Type 0 where
  pub ne_refl : (x : T) → c.ne x x ≡ false
  pub eq_of : (x y : T) → c.ne x y ≡ false → x ≡ y
  pub antisym : (x y : T) → le1 x y ≡ true → le1 y x ≡ true → x ≡ y
  pub gt_mono : (x y : T) (u : U) → le1 x y ≡ true → c.gt x u ≡ true → c.gt y u ≡ true
  pub lt_mono : (x : T) (u w : U) → le2 u w ≡ true → c.lt x u ≡ true → c.lt x w ≡ true

module _ {T U : Type 0} {c : Comparison T U} {le1 : T → T → Bool} {le2 : U → U → Bool}
    (o : IsOrder c le1 le2) where
  -- What is below the first of an ordered vector meets none of it.
  lt-meets_rest :
      (x : T) (u : U) (us : List U)
      → all (le2 u) us ≡ true
      → c.lt x u ≡ true
      → meets_some c x us ≡ false
  lt-meets_rest x u [] h l = refl
  lt-meets_rest x u (w ∷ us) h l = ground (arith, o.lt_mono x u w, lt-meets_rest x u us)

  pub lt-meets_some :
      (x : T) (u : U) (us : List U)
      → all (le2 u) us ≡ true
      → c.lt x u ≡ true
      → meets_some c x (u ∷ us) ≡ false
  lt-meets_some x u us h l = ground (arith, lt-meets_rest x u us)

  -- What comes behind an element that is above `u` is above `u` too.
  pub gt_behind :
      (z x : T) (xs : List T) (u : U)
      → all (le1 x) xs ≡ true
      → c.gt x u ≡ true
      → is_in c z xs ≡ true
      → c.gt z u ≡ true
  gt_behind z x [] u h g m = cc
  gt_behind z x (y ∷ xs) u h g m = ground (arith, o.gt_mono x y u, o.eq_of z y, gt_behind z x xs u)

  -- Before, and not the same.
  abbrev pub strictly : T → T → Bool
  strictly x y = le1 x y && c.ne x y

  -- What is strictly before `x`, and not after some elements, is strictly before those that `x` is
  -- strictly before.
  pub strictly_behind :
      (l x : T) (ys : List T)
      → strictly l x ≡ true
      → all (le1 l) ys ≡ true
      → all (strictly x) ys ≡ true
      → all (strictly l) ys ≡ true
  strictly_behind l x [] h a b = refl
  strictly_behind l x (y ∷ ys) h a b =
      ground (arith, o.eq_of l y, o.antisym l x, o.ne_refl l, strictly_behind l x ys h)

  -- All of a list lies behind the last element of a result, if there is one.
  abbrev pub behind : (T → T → Bool) → Option T → List T → Bool
  behind r none ys = true
  behind r (some l) ys = all (r l) ys
