-- ===== src/Sets/Sorting.antt =====
-- conditional_sort_helper: a vector that is not flagged as ordered is copied and sorted first.
-- `std::sort` is not this program's code: it is a parameter, with what its documentation promises.
use ztsdb.Base.{◌≡◌, Bool, true, not, ◌&&◌, ◌||◌, List, any, pairwise, none, arith, if◌then◌else◌}
use ztsdb.Vector.{Vec}
use ztsdb.Sets.{Comparison, intersect_loop, setdiff_loop, union_loop}
use ztsdb.Sets.Order.{is_in, meets_some, IsOrder}
use ztsdb.Sets.Intersect.{is_in-intersect}
use ztsdb.Sets.Setdiff.{is_in-setdiff}
use ztsdb.Sets.Union.{IsTotal, is_in-union}

-- A sort orders a list and keeps its elements.
pub record IsSort {T : Type 0} (le : T → T → Bool) (sort : List T → List T) : Type 0 where
  pub sorted : (xs : List T) → pairwise le (sort xs) ≡ true
  pub same : (p : T → Bool) (xs : List T) → any p (sort xs) ≡ any p xs

-- The four cases in the order of the source; `f` is the pass over the two ordered vectors.
unfoldable pub conditional_sort {ℓ} :
    {T U : Type 0} {R : Type ℓ}
    → (List T → List T)
    → (List U → List U)
    → (List T → List U → R)
    → Vec T
    → Vec U
    → R
conditional_sort sort1 sort2 f v1 v2 =
    if not v1.ordered && not v2.ordered
    then f (sort1 v1.items) (sort2 v2.items)
    else if not v1.ordered
    then f (sort1 v1.items) v2.items
    else if not v2.ordered
    then f v1.items (sort2 v2.items)
    else f v1.items v2.items

module _ {T U : Type 0} (c : Comparison T U) (sort1 : List T → List T)
    (sort2 : List U → List U) where
  unfoldable pub intersect : Vec T → Vec U → List T
  unfolding conditional_sort
  intersect = conditional_sort sort1 sort2 (intersect_loop c none)

  unfoldable pub setdiff : Vec T → Vec U → List T
  unfolding conditional_sort
  setdiff = conditional_sort sort1 sort2 (setdiff_loop c)

module _ {T : Type 0} (c : Comparison T T) (sort1 : List T → List T) where
  unfoldable pub union : Vec T → Vec T → List T
  unfolding conditional_sort
  union = conditional_sort sort1 sort1 (union_loop c none none none)

-- A flag that is set is right.
abbrev pub flag_right : {T : Type 0} → (T → T → Bool) → Vec T → Bool
flag_right le v = not v.ordered || pairwise le v.items

module _ {T U : Type 0} {c : Comparison T U} {le1 : T → T → Bool} {le2 : U → U → Bool}
    {sort1 : List T → List T} {sort2 : List U → List U} (o : IsOrder c le1 le2)
    (s1 : IsSort le1 sort1) (s2 : IsSort le2 sort2) where
  -- Whatever the flags of the two vectors, as long as none is wrongly set, the intersection holds
  -- exactly the elements of the first that meet an element of the second.
  pub is_in-intersect_any :
      (z : T) (v1 : Vec T) (v2 : Vec U)
      → flag_right le1 v1 ≡ true
      → flag_right le2 v2 ≡ true
      → is_in c z (intersect c sort1 sort2 v1 v2) ≡ (is_in c z v1.items && meets_some c z v2.items)
  unfolding intersect
  is_in-intersect_any z v1 v2 f1 f2 = ground (
    arith,
    s1.sorted v1.items,
    s2.sorted v2.items,
    s1.same (λ x. not (c.ne z x)) v1.items,
    s2.same (λ u. not (c.lt z u) && not (c.gt z u)) v2.items,
    is_in-intersect o z v1.items v2.items,
    is_in-intersect o z (sort1 v1.items) v2.items,
    is_in-intersect o z v1.items (sort2 v2.items),
    is_in-intersect o z (sort1 v1.items) (sort2 v2.items),
  )

  -- So for the difference, with those that meet no element of the second.
  pub is_in-setdiff_any :
      (z : T) (v1 : Vec T) (v2 : Vec U)
      → flag_right le1 v1 ≡ true
      → flag_right le2 v2 ≡ true
      → is_in c z (setdiff c sort1 sort2 v1 v2)
        ≡ (is_in c z v1.items && not (meets_some c z v2.items))
  unfolding setdiff
  is_in-setdiff_any z v1 v2 f1 f2 = ground (
    arith,
    s1.sorted v1.items,
    s2.sorted v2.items,
    s1.same (λ x. not (c.ne z x)) v1.items,
    s2.same (λ u. not (c.lt z u) && not (c.gt z u)) v2.items,
    is_in-setdiff o z v1.items v2.items,
    is_in-setdiff o z (sort1 v1.items) v2.items,
    is_in-setdiff o z v1.items (sort2 v2.items),
    is_in-setdiff o z (sort1 v1.items) (sort2 v2.items),
  )

-- The union of two vectors, ordered or not, holds exactly the elements of the two.
pub is_in-union_any :
    {T : Type 0} {c : Comparison T T} {le : T → T → Bool} {sort : List T → List T} (o : IsTotal c)
    (s : IsSort le sort) (z : T) (v1 v2 : Vec T)
    → is_in c z (union c sort v1 v2) ≡ (is_in c z v1.items || is_in c z v2.items)
unfolding union
is_in-union_any {c} {sort} o s z v1 v2 = ground (
  arith,
  s.same (λ x. not (c.ne z x)) v1.items,
  s.same (λ x. not (c.ne z x)) v2.items,
  is_in-union o z v1.items v2.items,
  is_in-union o z (sort v1.items) v2.items,
  is_in-union o z v1.items (sort v2.items),
  is_in-union o z (sort v1.items) (sort v2.items),
)
