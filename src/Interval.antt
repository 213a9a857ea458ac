-- ===== src/Interval.antt =====
-- src/timezone/interval.hpp: an interval of time with open or closed ends, and its comparisons.
-- An instant (`Global::dtime`, a 64-bit count of nanoseconds) is the number of nanoseconds since
-- the earliest instant that 64 bits can hold, so that `<` and `==` are those of the source. The
-- flags, which are only ever 0 or 1, are Booleans. `none` stands for the constructor's exception.
pub mod Order
pub mod Shift
use ztsdb.Base.{
  ℕ, ◌+◌, ◌-◌, ◌%◌, ◌^◌, Bool, true, false, not, ◌&&◌, ltb, ◌==◌, if◌then◌else◌, Option, none, some,
}

pub record Interval : Type 0 where
  pub s : ℕ
  pub e : ℕ
  pub sopen : Bool
  pub eopen : Bool

-- interval(s, e, sopen, eopen): refuses an end before the start.
unfoldable pub make : ℕ → ℕ → Bool → Bool → Option Interval
make s e sopen eopen =
    if ltb e s then none else some (record { s = s; e = e; sopen = sopen; eopen = eopen })

-- Equality of two flags.
abbrev pub same : Bool → Bool → Bool
same true b = b
same false b = not b

-- operator==
unfoldable pub eq : Interval → Interval → Bool
eq i j = i.s == j.s && (i.e == j.e && (same i.sopen j.sopen && same i.eopen j.eopen))

-- The part of operator<= that compares the ends.
unfoldable pub le_end : Interval → Interval → Bool
le_end i j =
    if ltb i.e j.e
    then true
    else if i.e == j.e
    then (if same i.eopen j.eopen then true else if i.eopen && not j.eopen then true else false)
    else false

-- operator<=
unfoldable pub le : Interval → Interval → Bool
unfolding le_end
le i j =
    if ltb i.s j.s
    then true
    else if i.s == j.s
    then (if not i.sopen && j.sopen
        then true
        else if i.sopen && not j.sopen
        then false
        else le_end i j)
    else false

-- The part of operator< that compares the ends.
unfoldable pub lt_end : Interval → Interval → Bool
lt_end i j =
    if ltb i.e j.e
    then true
    else if i.e == j.e
    then (if same i.eopen j.eopen then false else if i.eopen && not j.eopen then true else false)
    else false

-- operator<
unfoldable pub lt : Interval → Interval → Bool
unfolding lt_end
lt i j =
    if ltb i.s j.s
    then true
    else if i.s == j.s
    then (if not i.sopen && j.sopen
        then true
        else if i.sopen && not j.sopen
        then false
        else lt_end i j)
    else false

-- operator> and operator>=
unfoldable pub gt : Interval → Interval → Bool
unfolding le
gt i j = not (le i j)

unfoldable pub ge : Interval → Interval → Bool
unfolding lt
ge i j = not (lt i j)

-- operator<(dtime, interval): the instant lies before the interval.
unfoldable pub before : ℕ → Interval → Bool
before t i = if ltb t i.s then true else if t == i.s then i.sopen else false

-- operator>(dtime, interval): the instant lies after the interval.
unfoldable pub after : ℕ → Interval → Bool
after t i = if ltb i.e t then true else if t == i.e then i.eopen else false

-- The comparisons of two starts, and of two ends.
unfoldable pub start_lt : ℕ → Bool → ℕ → Bool → Bool
start_lt s1 sopen1 s2 sopen2 =
    if ltb s1 s2 then true else if ltb s2 s1 then false else not sopen1 && sopen2

unfoldable pub start_gt : ℕ → Bool → ℕ → Bool → Bool
start_gt s1 sopen1 s2 sopen2 =
    if ltb s2 s1 then true else if ltb s1 s2 then false else sopen1 && not sopen2

unfoldable pub start_le : ℕ → Bool → ℕ → Bool → Bool
unfolding start_gt
start_le s1 sopen1 s2 sopen2 = not (start_gt s1 sopen1 s2 sopen2)

unfoldable pub start_ge : ℕ → Bool → ℕ → Bool → Bool
unfolding start_lt
start_ge s1 sopen1 s2 sopen2 = not (start_lt s1 sopen1 s2 sopen2)

unfoldable pub end_lt : ℕ → Bool → ℕ → Bool → Bool
end_lt e1 eopen1 e2 eopen2 =
    if ltb e1 e2 then true else if ltb e2 e1 then false else eopen1 && not eopen2

unfoldable pub end_gt : ℕ → Bool → ℕ → Bool → Bool
end_gt e1 eopen1 e2 eopen2 =
    if ltb e2 e1 then true else if ltb e1 e2 then false else not eopen1 && eopen2

unfoldable pub end_le : ℕ → Bool → ℕ → Bool → Bool
unfolding end_gt
end_le e1 eopen1 e2 eopen2 = not (end_gt e1 eopen1 e2 eopen2)

unfoldable pub end_ge : ℕ → Bool → ℕ → Bool → Bool
unfolding end_lt
end_ge e1 eopen1 e2 eopen2 = not (end_lt e1 eopen1 e2 eopen2)

-- end_lt_start and end_ge_start of two intervals.
unfoldable pub end_lt_start : Interval → Interval → Bool
unfolding end_lt
end_lt_start i j = end_lt i.e i.eopen j.s j.sopen

unfoldable pub end_ge_start : Interval → Interval → Bool
unfolding end_lt_start
end_ge_start i j = not (end_lt_start i j)

-- operator+(interval, duration) and operator-: both ends move by the duration, a 64-bit two's
-- complement pattern, and wrap as 64-bit additions do; the constructor then checks their order.
unfoldable pub add64 : ℕ → ℕ → ℕ
add64 a d = (a + d) % 2 ^ 64

unfoldable pub sub64 : ℕ → ℕ → ℕ
sub64 a d = (a + 2 ^ 64 - d) % 2 ^ 64

unfoldable pub plus : Interval → ℕ → Option Interval
unfolding make add64
plus i d = make (add64 i.s d) (add64 i.e d) i.sopen i.eopen

unfoldable pub minus : Interval → ℕ → Option Interval
unfolding make sub64
minus i d = make (sub64 i.s d) (sub64 i.e d) i.sopen i.eopen
