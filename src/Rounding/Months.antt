-- ===== src/Rounding/Months.antt =====
-- ceiling_tz to a month, in December.
use ztsdb.Base.{◌≡◌, ap, ◌∙◌, Bool, true, none, some, [], arith}
use ztsdb.Base.Int.{ℤ, ◌-ℤ◌, ◌+ℤ◌}
use ztsdb.Zone.{Zone, gmtoff, getoffset_near, nanos}
use ztsdb.Period.{times, day_nanos}
use ztsdb.Period.Plus.{getoffset-none}
use ztsdb.Rounding.{
  month, Calendar, day_floor, local_day, local_midnight, ceiling_day, from_day, ceiling_tz,
}

-- The local day of an instant in a zone without transitions.
abbrev pub day_in : Zone → ℤ → ℤ
day_in z t = day_floor (t +ℤ nanos (gmtoff z z.default_type))

local_day-in :
    (z : Zone) (ahead : Bool) (t : ℤ) → z.ats ≡ [] → local_day z ahead t ≡ some (none, day_in z t)
unfolding local_day getoffset_near
local_day-in z ahead t e = let g = getoffset-none z t e in ground (arith, g)

local_midnight-none :
    (z : Zone) (ahead : Bool) (d : ℤ)
    → z.ats ≡ []
    → local_midnight z none ahead d ≡ some (times day_nanos d -ℤ nanos (gmtoff z z.default_type))
unfolding local_midnight getoffset_near
local_midnight-none z ahead d e =
    let g = getoffset-none z (times day_nanos d) e in ground (arith, g)

-- In a zone without transitions, and a calendar whose `++` goes from December to January, ceiling_tz to
-- a month of an instant in December is the first of January of the same year.
pub ceiling_tz_december :
    (cal : Calendar) (t : ℤ) (z : Zone)
    → z.ats ≡ []
    → cal.next_month 12 ≡ 1
    → cal.month_of (day_in z t) ≡ 12
    → ceiling_tz cal t month z
      ≡ some (
          times day_nanos (cal.days_of (cal.year_of (day_in z t)) 1 1)
          -ℤ nanos (gmtoff z z.default_type))
unfolding ceiling_tz ceiling_day
ceiling_tz_december cal t z e n m =
    let january : cal.next_month (cal.month_of (day_in z t)) ≡ 1 = ap cal.next_month m ∙ n in
    let l = local_day-in z true t e in
    let f =
      local_midnight-none z true
        (cal.days_of (cal.year_of (day_in z t)) (cal.next_month (cal.month_of (day_in z t))) 1) e in
    ap (from_day (ceiling_day cal month) z true) l
    ∙ f
    ∙ ap
        (λ k. some (
          times day_nanos (cal.days_of (cal.year_of (day_in z t)) k 1)
          -ℤ nanos (gmtoff z z.default_type)))
        january
