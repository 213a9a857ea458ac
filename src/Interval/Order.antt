-- ===== src/Interval/Order.antt =====
-- The comparisons of intervals are a total order, and agree with the instants they describe.
use ztsdb.Base.{
  ℕ, ◌≤◌, ◌≡◌, ◌⊎◌, Bool, true, false, ◌||◌, ◌&&◌, not, ltb, leb, if◌then◌else◌, arith,
}
use ztsdb.Interval.{Interval, eq, le, lt, gt, ge, before, after, start_le, end_le}

-- The instants of an interval: between its ends, an end included where it is closed.
abbrev pub inside : ℕ → Interval → Bool
inside t i =
    (if i.sopen then ltb i.s t else leb i.s t) && (if i.eopen then ltb t i.e else leb t i.e)

eq_sound : (i j : Interval) → eq i j ≡ true → i ≡ j
unfolding eq
eq_sound i j h = ground arith

-- Of two intervals one is less than the other by `operator<`, or they are the same, and no two of
-- these hold together.
lt-trichotomy :
    (i j : Interval)
    → ((lt i j ≡ true) × (lt j i ≡ false) × (eq i j ≡ false))
      ⊎ ((lt i j ≡ false) × (lt j i ≡ true) × (eq i j ≡ false))
      ⊎ ((lt i j ≡ false) × (lt j i ≡ false) × (i ≡ j))
unfolding lt eq
lt-trichotomy i j = ground arith

-- `operator<` is transitive.
pub lt_trans : (i j k : Interval) → lt i j ≡ true → lt j k ≡ true → lt i k ≡ true
unfolding lt
lt_trans i j k p q = ground arith

-- `operator<=` holds exactly when `operator<` or `operator==` does, `operator>` exactly when
-- `operator<` holds the other way round, and `operator>=` when `operator<=` does.
pub le_gt_ge :
    (i j : Interval) → (le i j ≡ (lt i j || eq i j)) × (gt i j ≡ lt j i) × (ge i j ≡ le j i)
unfolding le lt eq gt ge
le_gt_ge i j = ground arith

-- An instant lies in an interval exactly when it is neither before nor after it by the two
-- comparisons of an instant with an interval.
pub inside_iff : (t : ℕ) (i : Interval) → inside t i ≡ (not (before t i) && not (after t i))
unfolding before after
inside_iff t i = ground arith

-- What starts no later by `start_le` and ends no sooner by `end_le` holds all that the other holds.
pub inside_mono :
    (t : ℕ) (i j : Interval)
    → start_le j.s j.sopen i.s i.sopen ≡ true
    → end_le i.e i.eopen j.e j.eopen ≡ true
    → inside t i ≡ true
    → inside t j ≡ true
unfolding start_le end_le
inside_mono t i j p q h = ground arith

pub before_mono : (t u : ℕ) (i : Interval) → t ≤ u → before t i ≡ false → before u i ≡ false
unfolding before
before_mono t u i h b = ground arith

pub after_mono : (t u : ℕ) (i : Interval) → t ≤ u → after t i ≡ true → after u i ≡ true
unfolding after
after_mono t u i h b = ground arith

-- What is before an interval is before all that come after it in the order.
pub before_lt : (t : ℕ) (i j : Interval) → lt i j ≡ true → before t i ≡ true → before t j ≡ true
unfolding before lt
before_lt t i j h b = ground arith
