-- ===== src/Tests/Medians.antt =====
-- Medians of concrete values.
use ztsdb.Base.{◌≡◌, refl, true, [], ◌∷◌}
use ztsdb.Median.{median, middle, halves_from, add, push, one, mean}
use ztsdb.Median.Rank.{is_middle, median-is_middle}

median-is_middle_example : is_middle (median (7 ∷ 1 ∷ 5 ∷ 3 ∷ [])) (7 ∷ 1 ∷ 5 ∷ 3 ∷ []) ≡ true
median-is_middle_example = median-is_middle 7 (1 ∷ 5 ∷ 3 ∷ [])

median_even : median (7 ∷ 1 ∷ 5 ∷ 3 ∷ []) ≡ mean 3 5
unfolding median middle halves_from add push
median_even = refl

median_odd : median (7 ∷ 1 ∷ 5 ∷ []) ≡ one 5
unfolding median middle halves_from add push
median_odd = refl
