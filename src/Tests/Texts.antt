-- ===== src/Tests/Texts.antt =====
-- Durations and periods, printed and read.
use ztsdb.Base.{◌≡◌, refl, some, [], ◌∷◌}
use ztsdb.Base.Int.{pos, negsuc}
use ztsdb.Duration
use ztsdb.Duration.RoundTrip
use ztsdb.Period.{Period, read, to_string}
use ztsdb.Period.RoundTrip.{read-to_string_period}
use ztsdb.Zone.{Zone}
use ztsdb.Text.{show, show2, show3}

-- 1 hour, 2 minutes, 3 seconds and 5 nanoseconds, back in time.
read-to_string_example :
    Duration.read (Duration.to_string (negsuc 3723000000004)) ≡ some (negsuc 3723000000004)
read-to_string_example = RoundTrip.read-to_string (negsuc 3723000000004)

printed :
    Duration.to_string (negsuc 3723000000004)
    ≡ b'-' ∷ b'0' ∷ b'1' ∷ b':' ∷ b'0' ∷ b'2' ∷ b':' ∷ b'0' ∷ b'3' ∷ b'.' ∷ b'0' ∷ b'0' ∷ b'0'
      ∷ b'_' ∷ b'0' ∷ b'0' ∷ b'0' ∷ b'_' ∷ b'0' ∷ b'0' ∷ b'5' ∷ []
unfolding Duration.to_string Duration.show_unsigned show2 show show3
printed = refl

abbrev some_period : Period
some_period = record { months = negsuc 13; days = pos 3; dur = pos 90000000000 }

abbrev week : Period
week = record { months = pos 0; days = pos 7; dur = negsuc 0 }

read-to_string_period_example : read (to_string some_period) ≡ some some_period
read-to_string_period_example = read-to_string_period some_period

abbrev utc : Zone
utc = record { ats = []; types = []; gmtoffs = pos 0 ∷ []; default_type = 0 }
