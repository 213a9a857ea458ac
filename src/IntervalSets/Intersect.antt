-- ===== src/IntervalSets/Intersect.antt =====
-- The intersection of two vectors of intervals.
use ztsdb.Base.{
  ℕ, ◌≤◌, ◌≡◌, refl, sym, ap, subst, ◌∙◌, Bool, true, false, not, ◌&&◌, ◌||◌, leb, if◌then◌else◌,
  Option, some, List, [], ◌∷◌, all, any, arith, Bool-cases, inl, inr,
}
use ztsdb.Interval.{Interval, start_gt, end_lt}
use ztsdb.Interval.Order.{inside}
use ztsdb.IntervalSets.{push, intersect}

-- An interval as its constructor leaves it.
abbrev pub valid : Interval → Bool
valid i = leb i.s i.e

abbrev pub covers : ℕ → List Interval → Bool
covers t = any (inside t)

-- What the loop pushes where two intervals overlap, and which instants that holds.
abbrev overlap : Interval → Interval → Interval
overlap i j =
    let later = start_gt i.s i.sopen j.s j.sopen in
    let first = end_lt i.e i.eopen j.e j.eopen in
    record {
      s = if later then i.s else j.s;
      e = if first then i.e else j.e;
      sopen = if later then i.sopen else j.sopen;
      eopen = if first then i.eopen else j.eopen;
    }

overlap-inside : (t : ℕ) (i j : Interval) → inside t (overlap i j) ≡ (inside t i && inside t j)
unfolding start_gt end_lt
overlap-inside t i j = ground arith

overlap-valid :
    (i j : Interval)
    → valid i ≡ true
    → valid j ≡ true
    → leb j.e i.s ≡ false
    → leb i.e j.s ≡ false
    → valid (overlap i j) ≡ true
unfolding start_gt end_lt
overlap-valid i j h k a b = ground arith

pub push-some :
    (s e : ℕ) (so eo : Bool) (is : List Interval)
    → s ≤ e
    → push s e so eo (some is) ≡ some (record { s = s; e = e; sopen = so; eopen = eo } ∷ is)
unfolding push
push-some s e so eo is h = ground arith

-- One round of the loop on two intervals that overlap.
intersect-overlap :
    (i j : Interval) (is js : List Interval)
    → leb j.e i.s ≡ false
    → leb i.e j.s ≡ false
    → intersect (i ∷ is) (j ∷ js)
      ≡ push
          (overlap i j).s
          (overlap i j).e
          (overlap i j).sopen
          (overlap i j).eopen
          (if end_lt i.e i.eopen j.e j.eopen then intersect is (j ∷ js) else intersect (i ∷ is) js)
unfolding intersect
intersect-overlap i j is js a b = ground arith

abbrev pub implies : Bool → Bool → Bool
implies a b = not a || b

-- What a round on two intervals that overlap adds to what the rest of the loop gives.
Sound : ℕ → List Interval → List Interval → Option (List Interval) → Type 0
Sound t is js out =
    (r : List Interval) × (out ≡ some r)
    × (implies (covers t r) (covers t is && covers t js) ≡ true)

push-Sound :
    (t : ℕ) (i j : Interval) (is js is' js' : List Interval) (out : Option (List Interval))
    → valid (overlap i j) ≡ true
    → implies (covers t is') (covers t (i ∷ is)) ≡ true
    → implies (covers t js') (covers t (j ∷ js)) ≡ true
    → Sound t is' js' out
    → Sound t
        (i ∷ is)
        (j ∷ js)
        (push (overlap i j).s (overlap i j).e (overlap i j).sopen (overlap i j).eopen out)
unfolding Sound
push-Sound t i j is js is' js' out v p q (r, e, s) = (
  overlap i j ∷ r,
  rw e (push-some _ _ _ _ r (ground arith)),
  ground (arith, overlap-inside t i j),
)

-- A round on two intervals that overlap, once it is known which of them ends first.
overlap-Sound :
    (t : ℕ) (i j : Interval) (is js is' js' : List Interval)
    → leb j.e i.s ≡ false
    → leb i.e j.s ≡ false
    → valid i ≡ true
    → valid j ≡ true
    → (if end_lt i.e i.eopen j.e j.eopen then intersect is (j ∷ js) else intersect (i ∷ is) js)
      ≡ intersect is' js'
    → implies (covers t is') (covers t (i ∷ is)) ≡ true
    → implies (covers t js') (covers t (j ∷ js)) ≡ true
    → Sound t is' js' (intersect is' js')
    → Sound t (i ∷ is) (j ∷ js) (intersect (i ∷ is) (j ∷ js))
overlap-Sound t i j is js is' js' a b v w k p q h =
    let o = overlap i j in
    subst (Sound t (i ∷ is) (j ∷ js))
      (sym (intersect-overlap i j is js a b ∙ ap (push o.s o.e o.sopen o.eopen) k))
      (push-Sound t i j is js is' js' (intersect is' js') (overlap-valid i j v w a b) p q h)

intersect-Sound :
    (t : ℕ) (is js : List Interval)
    → all valid is ≡ true
    → all valid js ≡ true
    → Sound t is js (intersect is js)
unfolding intersect Sound
intersect-Sound t [] js v w = ([], refl, refl)
intersect-Sound t (i ∷ is) [] v w = ([], refl, refl)
intersect-Sound t (i ∷ is) (j ∷ js) v w =
    let (r, e, s) = intersect-Sound t is (j ∷ js) (ground arith) w in
    elim (Bool-cases (leb j.e i.s)) [
      | inl a ↦ (r, rw (a, intersect) e, ground (arith, s))
      | inr a ↦ elim (Bool-cases (leb i.e j.s)) [
        | inl b ↦ (r, rw (a, b, intersect) e, ground (arith, s))
        | inr b ↦ elim (Bool-cases (end_lt i.e i.eopen j.e j.eopen)) [
          | inl f ↦
              overlap-Sound t i j is js is (j ∷ js) a b (ground arith) (ground arith) (rw f)
                (ground arith) (ground arith) (r, e, s)
          | inr f ↦
              overlap-Sound t i j is js (i ∷ is) js a b (ground arith) (ground arith) (rw f)
                (ground arith) (ground arith) (intersect-Sound t (i ∷ is) js v (ground arith))
        ]
      ]
    ]

-- On intervals that end no sooner than they start, `intersect` never throws, and every instant of
-- its result lies in an interval of the first vector and in one of the second.
pub intersect_sound :
    (t : ℕ) (is js : List Interval)
    → all valid is ≡ true
    → all valid js ≡ true
    → (r : List Interval) × (intersect is js ≡ some r)
      × (implies (covers t r) (covers t is && covers t js) ≡ true)
unfolding Sound
intersect_sound = intersect-Sound

-- Where the first interval of the second vector ends before all of the first vector, nothing is
-- found, whatever overlaps there are with later intervals: the loop skips the wrong side.
intersect-skips :
    (j : Interval) (is js : List Interval)
    → all (λ i. leb j.e i.s) is ≡ true
    → intersect is (j ∷ js) ≡ some []
unfolding intersect
intersect-skips j [] js h = refl
intersect-skips j (i ∷ is) js h = ground (arith, intersect-skips j is js)
