-- ===== src/Rounding/Bounds.antt =====
-- How far floor and ceiling move an instant.
use ztsdb.Base.{ℕ, suc, ◌+◌, ◌*◌, ◌/◌, ◌≤◌, ◌<◌, ◌≡◌, refl, ap, ◌∙◌, Bool, true, false, some, arith}
use ztsdb.Base.Int.{ℤ, pos, negsuc, sub_ℕ, ◌+ℤ◌}
use native.Mathlib.Nat.{mul-div_cancel, div-mul-le_self, lt-div-mul-add}
use ztsdb.Rounding.{
  TimeUnit, nano, micro, milli, second, minute, hour, day, week, month, year, average_duration,
  chrono_unit, cast, floor, ceiling,
}

-- The units of a fixed length that floor takes.
abbrev pub is_clock : TimeUnit → Bool
is_clock day = false
is_clock week = false
is_clock month = false
is_clock year = false
is_clock p = true

floor-cast :
    (t : ℤ) (p : TimeUnit) → is_clock p ≡ true → floor t p ≡ some (cast (average_duration p) t)
unfolding floor chrono_unit average_duration
floor-cast t nano h = refl
floor-cast t micro h = refl
floor-cast t milli h = refl
floor-cast t second h = refl
floor-cast t minute h = refl
floor-cast t hour h = refl
floor-cast t day h = absurd (ground (arith, h))
floor-cast t week h = absurd (ground (arith, h))
floor-cast t month h = absurd (ground (arith, h))
floor-cast t year h = absurd (ground (arith, h))

average_duration_pos : (p : TimeUnit) → 0 < average_duration p
unfolding average_duration
average_duration_pos nano = omega arith
average_duration_pos micro = omega arith
average_duration_pos milli = omega arith
average_duration_pos second = omega arith
average_duration_pos minute = omega arith
average_duration_pos hour = omega arith
average_duration_pos day = omega arith
average_duration_pos week = omega arith
average_duration_pos month = omega arith
average_duration_pos year = omega arith

-- Of an instant from the epoch on, floor for a unit up to the hour is a whole number of average
-- durations of the unit, not behind the instant, and less than one before it, and floor of that is
-- the same.
pub floor-below :
    (n : ℕ) (p : TimeUnit)
    → is_clock p ≡ true
    → (q : ℕ) × (floor (pos n) p ≡ some (pos (q * average_duration p)))
      × (q * average_duration p ≤ n)
      × (n < q * average_duration p + average_duration p)
      × (floor (pos (q * average_duration p)) p ≡ some (pos (q * average_duration p)))
unfolding cast
floor-below n p h =
    let u = average_duration p in
    (
      n / u,
      floor-cast (pos n) p h,
      div-mul-le_self n u,
      lt-div-mul-add {a = n} {b = u} (average_duration_pos p),
      floor-cast (pos (n / u * u)) p h
          ∙ ap (λ m. some (pos (m * u))) (mul-div_cancel (n / u) (average_duration_pos p)),
    )

-- Of an instant before the epoch, floor for a unit up to the hour is a whole number of units, not
-- before the instant, and less than a unit behind it.
pub floor-above :
    (n : ℕ) (p : TimeUnit)
    → is_clock p ≡ true
    → (q : ℕ) × (floor (negsuc n) p ≡ some (sub_ℕ 0 (q * average_duration p)))
      × (q * average_duration p ≤ suc n)
      × (suc n < q * average_duration p + average_duration p)
unfolding cast
floor-above n p h =
    let u = average_duration p in
    (
      suc n / u,
      floor-cast (negsuc n) p h,
      div-mul-le_self (suc n) u,
      lt-div-mul-add {a = suc n} {b = u} (average_duration_pos p),
    )

pos-add : (n u : ℕ) → pos n +ℤ pos u ≡ pos (n + u)
unfolding ◌+ℤ◌
pos-add n u = ground arith

-- Of an instant from the epoch on, ceiling for a unit up to the hour is a whole number of average
-- durations of the unit, behind the instant, also where the instant is one, and at most one behind
-- it.
pub ceiling-behind :
    (n : ℕ) (p : TimeUnit)
    → is_clock p ≡ true
    → (q : ℕ) × (ceiling (pos n) p ≡ some (pos (q * average_duration p)))
      × (n < q * average_duration p)
      × (q * average_duration p ≤ n + average_duration p)
unfolding ceiling
ceiling-behind n p h =
    let u = average_duration p in
    let (q, e, l, b, same) = floor-below (n + u) p h in
    (q, ap (λ t. floor t p) (pos-add n u) ∙ e, omega (arith, l, b), omega (arith, l))
