-- ===== src/Sets/Instants.antt =====
-- The set operations at the types of a time-series: instants with instants, and instants with
-- intervals (Global::dtime and tz::interval).
use ztsdb.Base.{ℕ, ◌≡◌, true, false, not, ◌&&◌, ltb, leb, ◌==◌, List, [], ◌∷◌, any, arith, refl}
use ztsdb.Interval.{Interval, le, before, after}
use ztsdb.Interval.Order.{inside, inside_iff}
use ztsdb.Vector.{Vec}
use ztsdb.Sets.{Comparison}
use ztsdb.Sets.Order.{IsOrder, is_in, meets_some}
use ztsdb.Sets.Union.{IsTotal}
use ztsdb.Sets.Sorting.{
  IsSort, intersect, setdiff, flag_right, is_in-intersect_any, is_in-setdiff_any,
}

-- T = U = Global::dtime
abbrev pub instants : Comparison ℕ ℕ
instants = record { lt = ltb; gt = λ a b. ltb b a; ne = λ a b. not (a == b) }

-- T = Global::dtime, U = tz::interval
abbrev pub instants_intervals : Comparison ℕ Interval
instants_intervals = record { lt = before; gt = after; ne = λ a b. not (a == b) }

ne_refl : (x : ℕ) → not (x == x) ≡ false
ne_refl x = ground arith

eq_of : (x y : ℕ) → not (x == y) ≡ false → x ≡ y
eq_of x y h = ground arith

antisym : (x y : ℕ) → leb x y ≡ true → leb y x ≡ true → x ≡ y
antisym x y h k = ground arith

gt_mono : (x y u : ℕ) → leb x y ≡ true → ltb u x ≡ true → ltb u y ≡ true
gt_mono x y u h k = ground arith

lt_mono : (x u w : ℕ) → leb u w ≡ true → ltb x u ≡ true → ltb x w ≡ true
lt_mono x u w h k = ground arith

total : (x y : ℕ) → ltb x y ≡ false → ltb y x ≡ false → x ≡ y
total x y h k = ground arith

after_mono : (x y : ℕ) (u : Interval) → leb x y ≡ true → after x u ≡ true → after y u ≡ true
unfolding after
after_mono x y u h k = ground arith

before_mono : (x : ℕ) (u w : Interval) → le u w ≡ true → before x u ≡ true → before x w ≡ true
unfolding before le
before_mono x u w h k = ground arith

pub instants-IsOrder : IsOrder instants leb leb
instants-IsOrder = record {
  ne_refl = ne_refl;
  eq_of = eq_of;
  antisym = antisym;
  gt_mono = gt_mono;
  lt_mono = lt_mono;
}

pub instants-IsTotal : IsTotal instants
instants-IsTotal = record { ne_refl = ne_refl; eq_of = eq_of; total = total }

pub instants_intervals-IsOrder : IsOrder instants_intervals leb le
instants_intervals-IsOrder = record {
  ne_refl = ne_refl;
  eq_of = eq_of;
  antisym = antisym;
  gt_mono = after_mono;
  lt_mono = before_mono;
}

meets_some-inside :
    (t : ℕ) (is : List Interval) → meets_some instants_intervals t is ≡ any (inside t) is
meets_some-inside t [] = refl
meets_some-inside t (i ∷ is) = ground (arith, inside_iff t i, meets_some-inside t is)

module _ {sort1 : List ℕ → List ℕ} {sort2 : List Interval → List Interval} (s1 : IsSort leb sort1)
    (s2 : IsSort le sort2) where
  -- The intersection of instants with intervals keeps exactly the instants that lie in one of the
  -- intervals, and the difference exactly those that lie in none, also where the intervals overlap
  -- one another; the vectors may come in any order, as long as no flag is wrongly set.
  pub select_inside :
      (t : ℕ) (v1 : Vec ℕ) (v2 : Vec Interval)
      → flag_right leb v1 ≡ true
      → flag_right le v2 ≡ true
      → (is_in instants_intervals t (intersect instants_intervals sort1 sort2 v1 v2)
          ≡ (is_in instants_intervals t v1.items && any (inside t) v2.items))
        × (is_in instants_intervals t (setdiff instants_intervals sort1 sort2 v1 v2)
            ≡ (is_in instants_intervals t v1.items && not (any (inside t) v2.items)))
  select_inside t v1 v2 f1 f2 = (
    rw (← meets_some-inside t v2.items)
        (is_in-intersect_any instants_intervals-IsOrder s1 s2 t v1 v2 f1 f2),
    rw (← meets_some-inside t v2.items)
        (is_in-setdiff_any instants_intervals-IsOrder s1 s2 t v1 v2 f1 f2),
  )
