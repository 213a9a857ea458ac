-- ===== src/Period.antt =====
-- src/period.cpp: periods, of months, days and a duration. The numbers of months and days are 32-bit
-- integers in the source, and their overflow has no defined behaviour; here they do not overflow.
pub mod RoundTrip
pub mod Plus
use ztsdb.Base.{
  ℕ, zero, suc, ◌+◌, ◌-◌, ◌*◌, Bool, true, false, ◌&&◌, ◌||◌, not, ltb, leb, ◌==◌, if◌then◌else◌,
  Option, none, some, List, [], ◌∷◌, ◌++◌,
}
use ztsdb.Base.Int.{ℤ, pos, negsuc, pos_part, neg_part, sub_ℕ, eq_ℤ, ltb_ℤ, ◌+ℤ◌, ◌-ℤ◌}
use ztsdb.Text.{is_digit, read_signed, show_signed}
use ztsdb.Zone.{Zone, getoffset, getoffset_near}
use ztsdb.Duration

pub record Period : Type 0 where
  pub months : ℤ
  pub days : ℤ
  pub dur : ℤ

abbrev pub times : ℕ → ℤ → ℤ
times k (pos n) = pos (k * n)
times k (negsuc n) = sub_ℕ 0 (k * suc n)

-- `getduration`: it moves on by one byte first, then reads a duration.
unfoldable pub get_duration : Period → List ℕ → Option Period
get_duration p [] = none
get_duration p (c ∷ s) = elim (Duration.read s) [
  | none ↦ none
  | some d ↦ some (record p { dur = d })
]

-- What follows a unit: the end, a duration, or the next number, which `next` goes on with.
abbrev pub after_unit : (Period → ℤ → List ℕ → Option Period) → Period → List ℕ → Option Period
after_unit next p [] = some p
after_unit next p (c ∷ s) =
    if c == b'/' then get_duration p (c ∷ s) else elim (read_signed (c ∷ s)) [
      | none ↦ none
      | some (n, rest) ↦ elim rest [ [] ↦ none | c' ∷ rest' ↦ next p n (c' ∷ rest') ]
    ]

-- The four units, with the number before them; a unit that is not there leaves the number to the next.
unfoldable pub read_days : Period → ℤ → List ℕ → Option Period
read_days p n [] = none
read_days p n (c ∷ s) =
    if c == b'd'
    then after_unit (λ q m t. get_duration q t) (record p { days = p.days +ℤ n }) s
    else get_duration p (c ∷ s)

unfoldable pub read_weeks : Period → ℤ → List ℕ → Option Period
unfolding read_days
read_weeks p n [] = none
read_weeks p n (c ∷ s) =
    if c == b'w'
    then after_unit read_days (record p { days = p.days +ℤ times 7 n }) s
    else read_days p n (c ∷ s)

unfoldable pub read_months : Period → ℤ → List ℕ → Option Period
unfolding read_weeks
read_months p n [] = none
read_months p n (c ∷ s) =
    if c == b'm'
    then after_unit read_weeks (record p { months = p.months +ℤ n }) s
    else read_weeks p n (c ∷ s)

unfoldable pub read_years : Period → ℤ → List ℕ → Option Period
unfolding read_months
read_years p n [] = none
read_years p n (c ∷ s) =
    if c == b'y'
    then after_unit read_months (record p { months = p.months +ℤ times 12 n }) s
    else read_months p n (c ∷ s)

abbrev pub zero_period : Period
zero_period = record { months = pos 0; days = pos 0; dur = pos 0 }

-- Is the third byte a colon?
abbrev pub colon_third : List ℕ → Bool
colon_third (a ∷ b ∷ c ∷ s) = c == b':'
colon_third s = false

-- period(str)
unfoldable pub read : List ℕ → Option Period
unfolding read_years
read [] = none
read (c ∷ s) =
    if c == b'/' || colon_third (c ∷ s)
    then get_duration zero_period (c ∷ s)
    else elim (read_signed (c ∷ s)) [
      | none ↦ none
      | some (n, rest) ↦ elim rest [
        | [] ↦ none
        | c' ∷ rest' ↦ read_years zero_period n (c' ∷ rest')
      ]
    ]

-- to_string(period)
unfoldable pub to_string : Period → List ℕ
to_string p =
    show_signed p.months ++ b'm' ∷ (show_signed p.days ++ b'd' ∷ b'/' ∷ Duration.to_string p.dur)

-- operator+, operator- and the change of sign
unfoldable pub add : Period → Period → Period
unfolding ◌+ℤ◌
add p q = record { months = p.months +ℤ q.months; days = p.days +ℤ q.days; dur = p.dur +ℤ q.dur }

unfoldable pub subtract : Period → Period → Period
unfolding ◌-ℤ◌
subtract p q = record {
  months = p.months -ℤ q.months;
  days = p.days -ℤ q.days;
  dur = p.dur -ℤ q.dur;
}

unfoldable pub negate : Period → Period
unfolding ◌-ℤ◌
negate p = record { months = pos 0 -ℤ p.months; days = pos 0 -ℤ p.days; dur = pos 0 -ℤ p.dur }

abbrev pub day_nanos : ℕ
day_nanos = 86400000000000

-- plus(dt, p, z). `add_months` is what the date library makes of a local instant and a number of
-- months: the day moves, the time of day stays. The offset at the start is looked up twice. `none`
-- stands for a read out of bounds.
unfoldable pub plus : (ℤ → ℤ → ℤ) → ℤ → Period → Zone → Option ℤ
plus add_months dt p z = elim (getoffset z dt) [
  | none ↦ none
  | some (at, offset) ↦
      let moved : ℤ =
        if eq_ℤ p.months (pos 0)
        then dt
        else add_months (dt +ℤ times 1000000000 offset) p.months -ℤ times 1000000000 offset in
      elim (getoffset_near z dt at true) [
        | none ↦ none
        | some (at', offset') ↦
            let res : ℤ = moved +ℤ times day_nanos p.days +ℤ p.dur in
            elim (getoffset_near z res at' (not (ltb_ℤ res dt))) [
              | none ↦ none
              | some (at'', offset'') ↦ some (
                  if eq_ℤ offset'' offset'
                  then res
                  else res +ℤ (times 1000000000 offset' -ℤ times 1000000000 offset''))
            ]
      ]
]

-- minus(dt, p, z)
unfoldable pub minus : (ℤ → ℤ → ℤ) → ℤ → Period → Zone → Option ℤ
unfolding plus
minus add_months dt p z = plus add_months dt (negate p) z
