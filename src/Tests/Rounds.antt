-- ===== src/Tests/Rounds.antt =====
-- Instants rounded to units of time.
use ztsdb.Base.{ℕ, ◌≡◌, refl, ◌+◌, ◌-◌, ◌*◌, ◌/◌, ◌%◌, ◌≤◌, ◌<◌, none, some, [], ◌∷◌}
use ztsdb.Base.Int.{ℤ, pos, negsuc, pos_part, sub_ℕ, ◌-ℤ◌}
use ztsdb.Zone.{Zone, gmtoff, nanos}
use ztsdb.Period.{times, day_nanos}
use ztsdb.Rounding
use ztsdb.Base.Int
use ztsdb.Rounding.{
  minute, hour, month, average_duration, floor, ceiling, Calendar, ceiling_tz, floor_tz,
  unit_from_string,
}
use ztsdb.Rounding.Bounds.{floor-below, floor-above, ceiling-behind}
use ztsdb.Rounding.Months.{day_in, ceiling_tz_december}

floor-below_example :
    (q : ℕ) × (floor (pos 90000000000) minute ≡ some (pos (q * average_duration minute)))
    × (q * average_duration minute ≤ 90000000000)
    × (90000000000 < q * average_duration minute + average_duration minute)
    × (floor (pos (q * average_duration minute)) minute ≡ some (pos (q * average_duration minute)))
floor-below_example = floor-below 90000000000 minute refl

floor-above_example :
    (q : ℕ) × (floor (negsuc 89999999999) minute ≡ some (sub_ℕ 0 (q * average_duration minute)))
    × (q * average_duration minute ≤ 90000000000)
    × (90000000000 < q * average_duration minute + average_duration minute)
floor-above_example = floor-above 89999999999 minute refl

ceiling-behind_example :
    (q : ℕ) × (ceiling (pos 120000000000) minute ≡ some (pos (q * average_duration minute)))
    × (120000000000 < q * average_duration minute)
    × (q * average_duration minute ≤ 120000000000 + average_duration minute)
ceiling-behind_example = ceiling-behind 120000000000 minute refl

-- Years of twelve months of 30 days, from the epoch on.
abbrev calendar : Calendar
calendar = record {
  year_of = λ d. pos (pos_part d / 360);
  month_of = λ d. pos_part d / 30 % 12 + 1;
  day_of = λ d. pos_part d % 30 + 1;
  days_of = λ y m d. pos (360 * pos_part y + 30 * (m - 1) + (d - 1));
  next_month = λ m. m % 12 + 1;
}

abbrev utc : Zone
utc = record { ats = []; types = []; gmtoffs = pos 0 ∷ []; default_type = 0 }

-- The day with number 340 is one in December.
ceiling_tz_december_example :
    ceiling_tz calendar (pos (340 * day_nanos)) month utc
    ≡ some (
        times day_nanos
          (calendar.days_of (calendar.year_of (day_in utc (pos (340 * day_nanos)))) 1 1)
        -ℤ nanos (gmtoff utc utc.default_type))
unfolding Rounding.day_floor Int.◌+ℤ◌
ceiling_tz_december_example =
    ceiling_tz_december calendar (pos (340 * day_nanos)) utc refl refl refl

nanoseconds : unit_from_string "nanosecond" ≡ none
unfolding unit_from_string
nanoseconds = refl
