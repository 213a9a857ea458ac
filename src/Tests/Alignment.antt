-- ===== src/Tests/Alignment.antt =====
-- Alignment at concrete instants.
use ztsdb.Base.{ℕ, ◌≡◌, ◌&&◌, ◌||◌, not, refl, true, some, List, [], ◌∷◌, arith}
use ztsdb.Align.{Round, round, align_closest}
use ztsdb.Align.Closest
use ztsdb.Align.Rounds

abbrev instants : List ℕ
instants = 10 ∷ 18 ∷ 30 ∷ []

-- 20, with the window from 5 to 25.
abbrev window : Round
window = record { at = 20; ystart = 5; yend = 25 }

abbrev late : Round
late = record { at = 40; ystart = 35; yend = 45 }

round-window : round true instants window 0 ≡ some (1, true)
unfolding round
round-window = refl

round_closest_example :
    (Closest.in_window instants window 1
      && (not (Closest.in_window instants window 0) || Closest.no_closer instants window 1 0))
    ≡ true
round_closest_example =
    Rounds.round_closest instants window 0 1 0 true refl round-window (omega arith)

-- Where align_idx throws, align_closest does not.
closest_late :
    align_closest {A = ℕ} instants (1 ∷ 2 ∷ 3 ∷ []) 0 (window ∷ late ∷ []) ≡ some (2 ∷ 0 ∷ [])
unfolding align_closest
closest_late = refl
