-- ===== src/Rounding.antt =====
-- src/timezone/ztime.cpp: instants rounded to a unit of time, down (floor, floor_tz) and up (ceiling,
-- ceiling_tz). An instant is its number of nanoseconds since the epoch, with a sign; `none` stands for
-- an exception, and for a read out of bounds. The calendar is the date library's, a parameter.
pub mod Bounds
pub mod Months
use Prim.Native.String.{String}
use text.Mathlib.Text.{◌==◌ as str_eq}
use ztsdb.Base.{
  ℕ, zero, suc, ◌+◌, ◌-◌, ◌*◌, ◌/◌, Bool, true, false, ◌||◌, if◌then◌else◌, Option, none, some,
  List, [], ◌∷◌,
}
use ztsdb.Base.Int.{ℤ, pos, negsuc, sub_ℕ, ◌+ℤ◌, ◌-ℤ◌}
use ztsdb.Zone.{Zone, getoffset, getoffset_near, nanos}
use ztsdb.Period.{times, day_nanos}

-- tz::Period
pub data TimeUnit : Type 0 where
  nano micro milli second minute hour day week month year : TimeUnit

-- unqualified_period_from_string
unfoldable pub unit_from_string : String → Option TimeUnit
unit_from_string s =
    if str_eq s "year" || str_eq s "years"
    then some year
    else if str_eq s "month" || str_eq s "months"
    then some month
    else if str_eq s "week" || str_eq s "weeks"
    then some week
    else if str_eq s "day" || str_eq s "days"
    then some day
    else if str_eq s "hour" || str_eq s "hours"
    then some hour
    else if str_eq s "minute" || str_eq s "minutes"
    then some minute
    else if str_eq s "second" || str_eq s "seconds"
    then some second
    else if str_eq s "millisecond" || str_eq s "milliseconds"
    then some milli
    else if str_eq s "microsecond" || str_eq s "microseconds"
    then some micro
    else none

-- average_duration
unfoldable pub average_duration : TimeUnit → ℕ
average_duration nano = 1
average_duration micro = 1000
average_duration milli = 1000000
average_duration second = 1000000000
average_duration minute = 60 * 1000000000
average_duration hour = 3600 * 1000000000
average_duration day = 24 * 3600 * 1000000000
average_duration week = 7 * 24 * 3600 * 1000000000
average_duration month = 31 * 24 * 3600 * 1000000000
average_duration year = 365 * 24 * 3600 * 1000000000

-- time_point_cast to a unit of `u` nanoseconds, and back: it rounds to zero.
unfoldable pub cast : ℕ → ℤ → ℤ
cast u (pos n) = pos (n / u * u)
cast u (negsuc n) = sub_ℕ 0 (suc n / u * u)

-- The unit of the chrono type that floor casts to.
unfoldable pub chrono_unit : TimeUnit → Option ℕ
chrono_unit nano = some 1
chrono_unit micro = some 1000
chrono_unit milli = some 1000000
chrono_unit second = some 1000000000
chrono_unit minute = some 60000000000
chrono_unit hour = some 3600000000000
chrono_unit p = none

-- floor(t, p)
unfoldable pub floor : ℤ → TimeUnit → Option ℤ
unfolding cast
floor t p = elim (chrono_unit p) [ none ↦ none | some u ↦ some (cast u t) ]

-- ceiling(t, p)
unfoldable pub ceiling : ℤ → TimeUnit → Option ℤ
unfolding floor average_duration ◌+ℤ◌
ceiling t p = floor (t +ℤ pos (average_duration p)) p

-- What the date library does: the year, the month and the day of a day, the day of a year, a month and
-- a day, and `++` of a month.
pub record Calendar : Type 0 where
  pub year_of : ℤ → ℤ
  pub month_of : ℤ → ℕ
  pub day_of : ℤ → ℕ
  pub days_of : ℤ → ℕ → ℕ → ℤ
  pub next_month : ℕ → ℕ

-- date::floor<date::days>: the day of an instant, rounded down.
unfoldable pub day_floor : ℤ → ℤ
day_floor (pos n) = pos (n / day_nanos)
day_floor (negsuc n) = negsuc (n / day_nanos)

-- `t_days - z.getoffset(t_days, pos, direction)`
unfoldable pub local_midnight : Zone → Option ℕ → Bool → ℤ → Option ℤ
unfolding getoffset_near ◌-ℤ◌
local_midnight z at ahead days =
    let t : ℤ = times day_nanos days in
    elim (getoffset_near z t at ahead) [
      | none ↦ none
      | some (at', offset) ↦ some (t -ℤ nanos offset)
    ]

-- The local day of an instant, with the position that its offset was found at.
unfoldable pub local_day : Zone → Bool → ℤ → Option (Option ℕ × ℤ)
unfolding getoffset_near day_floor ◌+ℤ◌
local_day z ahead t = elim (getoffset_near z t none ahead) [
  | none ↦ none
  | some (at, offset) ↦ some (at, day_floor (t +ℤ nanos offset))
]

-- The day to which floor_tz and ceiling_tz go.
unfoldable pub floor_day : Calendar → TimeUnit → ℤ → Option ℤ
floor_day cal day d = some d
floor_day cal month d = some (cal.days_of (cal.year_of d) (cal.month_of d) 1)
floor_day cal year d = some (cal.days_of (cal.year_of d) 1 1)
floor_day cal p d = none

unfoldable pub ceiling_day : Calendar → TimeUnit → ℤ → Option ℤ
ceiling_day cal day d = some (cal.days_of (cal.year_of d) (cal.month_of d) (cal.day_of d + 1))
ceiling_day cal month d = some (cal.days_of (cal.year_of d) (cal.next_month (cal.month_of d)) 1)
ceiling_day cal year d = some (cal.days_of (cal.year_of d +ℤ pos 1) 1 1)
ceiling_day cal p d = none

abbrev pub from_day : (ℤ → Option ℤ) → Zone → Bool → Option (Option ℕ × ℤ) → Option ℤ
from_day move z ahead none = none
from_day move z ahead (some (at, d)) = elim (move d) [
  | none ↦ none
  | some d' ↦ local_midnight z at ahead d'
]

-- floor_tz(t, p, z), ceiling_tz(t, p, z)
unfoldable pub floor_tz : Calendar → ℤ → TimeUnit → Zone → Option ℤ
floor_tz cal t p z = from_day (floor_day cal p) z false (local_day z false t)

unfoldable pub ceiling_tz : Calendar → ℤ → TimeUnit → Zone → Option ℤ
ceiling_tz cal t p z = from_day (ceiling_day cal p) z true (local_day z true t)
