-- ===== src/Period/RoundTrip.antt =====
-- A period that is printed is read back.
use ztsdb.Base.{
  ℕ, zero, suc, ◌+◌, ◌/◌, ◌%◌, ◌≤◌, ◌<◌, ◌≡◌, refl, subst, ◌∙◌, Bool, true, false, ◌&&◌, ◌||◌, not,
  ltb, ◌==◌, Option, some, List, [], ◌∷◌, ◌++◌, length, all, arith, Bool-cases, inl, inr,
  length-append,
}
use mathlib.Core.List.{append_assoc}
use ztsdb.Base.Int.{ℤ, pos, negsuc, ◌+ℤ◌}
use ztsdb.Text.{read_signed, show_from, show, show_signed}
use ztsdb.Text.Digits.{starts, starts-show, read_signed-show_signed}
use ztsdb.Duration
use ztsdb.Duration.RoundTrip.{read-to_string}
use ztsdb.Period.{
  Period, get_duration, after_unit, read_days, read_weeks, read_months, read_years, zero_period,
  colon_third, read, to_string,
}

-- No colon, and no slash.
abbrev plain : ℕ → Bool
plain c = not (c == b':') && not (c == b'/')

all-append : (s t : List ℕ) → all plain s ≡ true → all plain t ≡ true → all plain (s ++ t) ≡ true
all-append [] t h k = k
all-append (c ∷ s) t h k = ground (arith, all-append s t)

all-show_from : (fuel n : ℕ) → all plain (show_from fuel n) ≡ true
unfolding show_from
all-show_from zero n = refl
all-show_from (suc fuel) n = elim (Bool-cases (ltb n 10)) [
  | inl e ↦ rw (e, show_from) (ground (arith, e))
  | inr e ↦
      rw (e, show_from)
        (all-append (show_from fuel (n / 10)) ((b'0' + n % 10) ∷ []) (all-show_from fuel (n / 10))
          (let l : n % 10 < 10 = omega arith in ground (arith, l)))
]

all-show_signed : (z : ℤ) → all plain (show_signed z) ≡ true
unfolding show_signed show
all-show_signed (pos n) = all-show_from (suc n) n
all-show_signed (negsuc n) = all-show_from (suc (suc n)) (suc n)

some_length : (s : List ℕ) → starts (s ++ []) ≡ true → 0 < length s
some_length [] h = ground arith
some_length (c ∷ s) h = omega arith

length-show_signed : (z : ℤ) → 0 < length (show_signed z)
unfolding show_signed
length-show_signed (pos n) = some_length (show n) (starts-show n [])
length-show_signed (negsuc n) = omega arith

colon_third-plain :
    (s t : List ℕ) → all plain s ≡ true → 3 ≤ length s → colon_third (s ++ t) ≡ false
colon_third-plain [] t h l = absurd (omega arith)
colon_third-plain (a ∷ []) t h l = absurd (omega arith)
colon_third-plain (a ∷ b ∷ []) t h l = absurd (omega arith)
colon_third-plain (a ∷ b ∷ c ∷ s) t h l = ground arith

-- Text that begins with a plain byte.
abbrev clear : List ℕ → Bool
clear [] = false
clear (c ∷ s) = plain c

clear-append : (s t : List ℕ) → all plain s ≡ true → 0 < length s → clear (s ++ t) ≡ true
clear-append [] t h l = absurd (omega arith)
clear-append (c ∷ s) t h l = ground arith

after_unit-number :
    (next : Period → ℤ → List ℕ → Option Period) (p : Period) (s : List ℕ) (n : ℤ) (c : ℕ)
    (rest : List ℕ)
    → clear s ≡ true
    → read_signed s ≡ some (n, c ∷ rest)
    → after_unit next p s ≡ next p n (c ∷ rest)
after_unit-number next p [] n c rest h e = ground arith
after_unit-number next p (x ∷ s) n c rest h e =
    let q : (x == b'/') ≡ false = ground (arith, h) in rw (q, e, after_unit) refl

read-number :
    (s : List ℕ) (n : ℤ) (c : ℕ) (rest : List ℕ)
    → clear s ≡ true
    → colon_third s ≡ false
    → read_signed s ≡ some (n, c ∷ rest)
    → read s ≡ read_years zero_period n (c ∷ rest)
unfolding read
read-number [] n c rest h k e = ground arith
read-number (x ∷ s) n c rest h k e =
    let q : (x == b'/' || colon_third (x ∷ s)) ≡ false = ground (arith, h, k) in
    rw (q, e, read) refl

add_zero : (z : ℤ) → pos 0 +ℤ z ≡ z
unfolding ◌+ℤ◌
add_zero z = ground arith

get_duration-slash :
    (p : Period) (t : ℤ)
    → get_duration p (b'/' ∷ Duration.to_string t) ≡ some (record p { dur = t })
unfolding get_duration
get_duration-slash p t = rw (read-to_string t, get_duration) refl

read_days-print :
    (m d t : ℤ)
    → read_weeks
        (record { months = m; days = pos 0; dur = pos 0 })
        d
        (b'd' ∷ b'/' ∷ Duration.to_string t)
      ≡ some (record { months = m; days = d; dur = t })
unfolding read_weeks read_days
read_days-print m d t =
    rw (add_zero d) (get_duration-slash (record { months = m; days = d; dur = pos 0 }) t)

read_months-print :
    (m d t : ℤ)
    → read_years zero_period m (b'm' ∷ (show_signed d ++ b'd' ∷ b'/' ∷ Duration.to_string t))
      ≡ some (record { months = m; days = d; dur = t })
unfolding read_years read_months
read_months-print m d t =
    let tail = b'd' ∷ b'/' ∷ Duration.to_string t in
    rw (add_zero m) (
      after_unit-number read_weeks (record { months = m; days = pos 0; dur = pos 0 })
        (show_signed d ++ tail) d b'd' (b'/' ∷ Duration.to_string t)
        (clear-append (show_signed d) tail (all-show_signed d) (length-show_signed d))
        (read_signed-show_signed d tail refl)
      ∙ read_days-print m d t)

-- Every period that to_string prints is read back by the constructor.
pub read-to_string_period : (p : Period) → read (to_string p) ≡ some p
unfolding to_string
read-to_string_period p =
    let tail = b'd' ∷ b'/' ∷ Duration.to_string p.dur in
    let rest = b'm' ∷ (show_signed p.days ++ tail) in
    let front = show_signed p.months ++ b'm' ∷ show_signed p.days in
    let front_plain : all plain front ≡ true =
      all-append (show_signed p.months) (b'm' ∷ show_signed p.days) (all-show_signed p.months)
        (all-show_signed p.days) in
    let front_long : 3 ≤ length front = omega (
      arith,
      length-append (show_signed p.months) (b'm' ∷ show_signed p.days),
      length-show_signed p.months,
      length-show_signed p.days,
    ) in
    let third : colon_third (show_signed p.months ++ rest) ≡ false =
      subst (λ s. colon_third s ≡ false)
        (append_assoc (show_signed p.months) (b'm' ∷ show_signed p.days) tail)
        (colon_third-plain front tail front_plain front_long) in
    read-number (show_signed p.months ++ rest) p.months b'm' (show_signed p.days ++ tail)
      (clear-append (show_signed p.months) rest (all-show_signed p.months)
        (length-show_signed p.months))
      third (read_signed-show_signed p.months rest refl)
    ∙ read_months-print p.months p.days p.dur
