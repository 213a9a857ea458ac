-- ===== src/Sets/Union.antt =====
-- `union` over ordered vectors: exactly the elements of either.
use ztsdb.Base.{
  ◌≡◌, refl, ap, Bool, true, false, not, ◌||◌, List, [], ◌∷◌, holds, arith, Bool-cases, inl, inr,
  Option, none, some,
}
use mathlib.Core.List.{append-nil}
use ztsdb.Sets.{Comparison, differs, union_rest, union_loop}
use ztsdb.Sets.Order.{is_in}

-- Elements of one type, compared with `!=` and with `<` and `>` of a total order.
pub record IsTotal {T : Type 0} (c : Comparison T T) : Type 0 where
  pub ne_refl : (x : T) → c.ne x x ≡ false
  pub eq_of : (x y : T) → c.ne x y ≡ false → x ≡ y
  pub total : (x y : T) → c.lt x y ≡ false → c.gt x y ≡ false → x ≡ y

module _ {T : Type 0} {c : Comparison T T} (o : IsTotal c) where
  abbrev is_this : T → Option T → Bool
  is_this z = holds λ x. not (c.ne z x)

  this_same :
      (z x : T) (last : Option T) → differs c.ne last x ≡ false → z ≡ x → is_this z last ≡ true
  this_same z x none d e = cc
  this_same z x (some y) d e = ground (arith, o.eq_of x y, o.ne_refl z)

  -- `d` says that the value is in the result already.
  rest_from :
      (z : T) (d : Bool) (prev : Option T) (xs : List T)
      → (is_this z prev ≡ true → d ≡ true)
      → (d || is_in c z (union_rest c prev xs)) ≡ (d || is_in c z xs)
  unfolding union_rest
  rest_from z d prev [] h = refl
  rest_from z d prev (x ∷ xs) h =
      let rest = rest_from z (d || not (c.ne z x)) (some x) xs (λ e. ground (arith, e)) in
      elim (Bool-cases (differs c.ne prev x)) [
        | inl p ↦ rw p (ground (arith, rest))
        | inr s ↦ rw s (ground (arith, rest, h, this_same z x prev s, o.eq_of z x))
      ]

  -- From two positions on, with what stands before them in the result already.
  union_from :
      (z : T) (d : Bool) (last prev1 prev2 : Option T) (xs ys : List T)
      → (is_this z last ≡ true → d ≡ true)
      → (is_this z prev1 ≡ true → d ≡ true)
      → (is_this z prev2 ≡ true → d ≡ true)
      → (d || is_in c z (union_loop c last prev1 prev2 xs ys))
        ≡ (d || (is_in c z xs || is_in c z ys))
  unfolding union_loop
  union_from z d last prev1 prev2 [] ys h i j = rest_from z d prev2 ys j
  union_from z d last prev1 prev2 (x ∷ xs) [] h i j =
      rw (append-nil (union_rest c prev1 (x ∷ xs)), rest_from z d prev1 (x ∷ xs) i) (ground arith)
  union_from z d last prev1 prev2 (x ∷ xs) (y ∷ ys) h i j =
      let e = not (c.ne z x) in
      let f = not (c.ne z y) in
      elim (Bool-cases (c.lt x y)) [
        | inl l ↦
            let ih = λ (last' : Option T) (g : is_this z last' ≡ true → (d || e) ≡ true).
              union_from z (d || e) last' (some x) prev2 xs (y ∷ ys) g (λ k. ground arith)
                (λ k. ground (arith, j k)) in
            elim (Bool-cases (differs c.ne last x)) [
              | inl p ↦ rw (l, p, union_loop) (ground (arith, ih (some x) (λ k. ground arith)))
              | inr s ↦
                  rw (l, s, union_loop)
                    (ground (
                      arith,
                      ih last (λ k. ground (arith, h k)),
                      h,
                      this_same z x last s,
                      o.eq_of z x,
                    ))
            ]
        | inr nl ↦ elim (Bool-cases (c.gt x y)) [
          | inl g ↦
              let ih = λ (last' : Option T) (g : is_this z last' ≡ true → (d || f) ≡ true).
                union_from z (d || f) last' prev1 (some y) (x ∷ xs) ys g (λ k. ground (arith, i k))
                  (λ k. ground arith) in
              elim (Bool-cases (differs c.ne last y)) [
                | inl p ↦
                    rw (nl, g, p, union_loop) (ground (arith, ih (some y) (λ k. ground arith)))
                | inr s ↦
                    rw (nl, g, s, union_loop)
                      (ground (
                        arith,
                        ih last (λ k. ground (arith, h k)),
                        h,
                        this_same z y last s,
                        o.eq_of z y,
                      ))
              ]
          | inr ng ↦
              let same : e ≡ f = ap (λ t. not (c.ne z t)) (o.total x y nl ng) in
              let ih = λ (last' : Option T) (g : is_this z last' ≡ true → (d || e) ≡ true).
                union_from z (d || e) last' (some x) (some y) xs ys g (λ k. ground arith)
                  (λ k. ground (arith, same)) in
              elim (Bool-cases (differs c.ne last x)) [
                | inl p ↦
                    rw (nl, ng, p, union_loop)
                      (ground (arith, same, ih (some x) (λ k. ground arith)))
                | inr s ↦
                    rw (nl, ng, s, union_loop)
                      (ground (
                        arith,
                        same,
                        ih last (λ k. ground (arith, h k)),
                        h,
                        this_same z x last s,
                        o.eq_of z x,
                      ))
              ]
        ]
      ]

  -- The union holds exactly the elements of the two vectors.
  pub is_in-union :
      (z : T) (xs ys : List T)
      → is_in c z (union_loop c none none none xs ys) ≡ (is_in c z xs || is_in c z ys)
  is_in-union z xs ys = union_from z false none none none xs ys (λ e. e) (λ e. e) (λ e. e)
