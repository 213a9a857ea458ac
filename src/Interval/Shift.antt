-- ===== src/Interval/Shift.antt =====
-- Moving an interval by a duration.
use ztsdb.Base.{ℕ, ◌+◌, ◌^◌, ◌≤◌, ◌<◌, ◌≡◌, some, arith}
use ztsdb.Interval.{Interval, plus, minus}
use ztsdb.Interval.Order.{inside}

-- Where the end does not overflow, the moved interval holds exactly the moved instants.
inside-plus :
    (i : Interval) (d t : ℕ)
    → i.s ≤ i.e
    → i.e + d < 2 ^ 64
    → (j : Interval) × (plus i d ≡ some j) × (inside (t + d) j ≡ inside t i)
unfolding plus
inside-plus i d t h b = (record i { s = i.s + d; e = i.e + d }, ground arith, ground arith)

-- Moving an interval forth and back gives it back, also where the first move wraps around: for ends
-- of 64 bits in order, and any duration that leaves the ends in order.
pub minus-plus :
    (i j : Interval) (d : ℕ)
    → i.s ≤ i.e
    → i.e < 2 ^ 64
    → d < 2 ^ 64
    → plus i d ≡ some j
    → minus j d ≡ some i
unfolding plus minus
minus-plus i j d h b c p = ground arith
