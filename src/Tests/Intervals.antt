-- ===== src/Tests/Intervals.antt =====
-- Intervals at concrete instants.
use ztsdb.Base.{◌≡◌, refl, true, false, ◌&&◌, List, [], ◌∷◌, some, arith}
use ztsdb.Interval.{Interval, plus, minus, make, add64}
use ztsdb.Interval.Shift.{minus-plus}
use ztsdb.IntervalSets.{intersect}
use ztsdb.IntervalSets.Intersect.{covers, implies, intersect_sound}

abbrev early : Interval
early = record { s = 2; e = 5; sopen = true; eopen = true }

abbrev late : Interval
late = record { s = 5; e = 9; sopen = true; eopen = false }

abbrev wide : Interval
wide = record { s = 1; e = 9; sopen = false; eopen = true }

minus-plus_example : minus (record late { s = 15; e = 19 }) 10 ≡ some late
unfolding plus make add64
minus-plus_example =
    minus-plus late (record late { s = 15; e = 19 }) 10 (omega arith) (omega arith) (omega arith)
      refl

intersect_sound_example :
    (r : List Interval) × (intersect (wide ∷ []) (early ∷ late ∷ []) ≡ some r)
    × (implies (covers 7 r) (covers 7 (wide ∷ []) && covers 7 (early ∷ late ∷ [])) ≡ true)
intersect_sound_example = intersect_sound 7 (wide ∷ []) (early ∷ late ∷ []) refl refl
