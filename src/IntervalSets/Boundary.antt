-- ===== src/IntervalSets/Boundary.antt =====
-- What union and difference do where two intervals touch at an instant that both leave open.
use ztsdb.Base.{◌<◌, ◌≡◌, true, false, some, List, [], ◌∷◌, arith}
use ztsdb.Interval.{
  Interval, make, start_lt, start_ge, end_lt, end_gt, end_le, end_ge, end_lt_start, end_ge_start,
}
use ztsdb.Interval.Order.{inside}
use ztsdb.IntervalSets.{push, union, setdiff}
use ztsdb.IntervalSets.Intersect.{covers}

module _ (i j : Interval) (p : i.s < i.e) (touch : i.e ≡ j.s) (q : j.s < j.e) (o1 : i.eopen ≡ true)
    (o2 : j.sopen ≡ true) where
  -- Of two intervals that touch at an instant which both leave open, the union is one interval and
  -- holds that instant, although it lies in neither.
  union-adds :
      (r : List Interval) × (union (i ∷ []) (j ∷ []) ≡ some r)
      × (covers i.e r ≡ true)
      × (inside i.e i ≡ false)
      × (inside i.e j ≡ false)
  unfolding union start_lt end_le end_gt end_ge_start end_lt push make
  union-adds = (
    record { s = i.s; e = j.e; sopen = i.sopen; eopen = j.eopen } ∷ [],
    ground arith,
    ground arith,
    ground arith,
    ground arith,
  )

  -- The difference of the first and the second of these intervals closes the open end: it holds that
  -- instant too, although it does not lie in the first.
  setdiff-adds :
      (r : List Interval) × (setdiff (i ∷ []) (j ∷ []) ≡ some r)
      × (covers i.e r ≡ true)
      × (inside i.e i ≡ false)
  unfolding setdiff start_lt start_ge end_gt end_lt_start end_ge end_lt push make
  setdiff-adds = (record i { eopen = false } ∷ [], ground arith, ground arith, ground arith)
