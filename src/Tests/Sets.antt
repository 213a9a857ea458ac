-- ===== src/Tests/Sets.antt =====
-- The set operations at concrete vectors.
use ztsdb.Base.{ℕ, ◌≡◌, refl, Bool, true, false, leb, List, [], ◌∷◌, pairwise, none}
use ztsdb.Interval.{Interval, le}
use ztsdb.Vector.{Vec, mem}
use ztsdb.Sets.{intersect_loop, union_loop}
use ztsdb.Sets.Order.{is_in, strictly}
use ztsdb.Sets.Intersect.{pairwise-intersect}
use ztsdb.Sets.Sorting.{
  intersect, setdiff, union, is_in-intersect_any, is_in-setdiff_any, is_in-union_any,
}
use ztsdb.Sets.Instants.{
  instants, instants_intervals, instants-IsOrder, instants-IsTotal, select_inside,
}
use ztsdb.Tests.Sorts.{sort, sort-IsSort, leb_trans, leb_total, le_trans, le_total}

abbrev sort_instants : List ℕ → List ℕ
sort_instants = sort leb leb_trans leb_total

abbrev sort_intervals : List Interval → List Interval
sort_intervals = sort le le_trans le_total

abbrev vec {ℓ} : {T : Type ℓ} → List T → Bool → Vec T
vec xs ordered = record { items = xs; ordered = ordered; capacity = 1024; alloc = mem }

abbrev opening : Interval
opening = record { s = 2; e = 5; sopen = true; eopen = false }

abbrev closing : Interval
closing = record { s = 7; e = 9; sopen = false; eopen = true }

intersect_runs :
    intersect instants sort_instants sort_instants
      (vec (5 ∷ 1 ∷ 3 ∷ 3 ∷ []) false)
      (vec (3 ∷ 5 ∷ 8 ∷ []) true)
    ≡ 3 ∷ 5 ∷ []
unfolding intersect intersect_loop sort
intersect_runs = refl

union_runs :
    union instants sort_instants (vec (5 ∷ 1 ∷ []) false) (vec (3 ∷ 5 ∷ 8 ∷ []) true)
    ≡ 1 ∷ 3 ∷ 5 ∷ 8 ∷ []
unfolding union union_loop sort
union_runs = refl

is_in-intersect_any_example :
    is_in instants 3 (
      intersect instants sort_instants sort_instants
        (vec (5 ∷ 1 ∷ 3 ∷ []) false)
        (vec (3 ∷ 5 ∷ []) true))
    ≡ true
is_in-intersect_any_example =
    is_in-intersect_any instants-IsOrder (sort-IsSort leb leb_trans leb_total)
      (sort-IsSort leb leb_trans leb_total) 3 (vec (5 ∷ 1 ∷ 3 ∷ []) false) (vec (3 ∷ 5 ∷ []) true)
      refl refl

is_in-setdiff_any_example :
    is_in instants 1 (
      setdiff instants sort_instants sort_instants
        (vec (5 ∷ 1 ∷ 3 ∷ []) false)
        (vec (3 ∷ 5 ∷ []) true))
    ≡ true
is_in-setdiff_any_example =
    is_in-setdiff_any instants-IsOrder (sort-IsSort leb leb_trans leb_total)
      (sort-IsSort leb leb_trans leb_total) 1 (vec (5 ∷ 1 ∷ 3 ∷ []) false) (vec (3 ∷ 5 ∷ []) true)
      refl refl

is_in-union_any_example :
    is_in instants 8
      (union instants sort_instants (vec (5 ∷ 1 ∷ []) false) (vec (3 ∷ 5 ∷ 8 ∷ []) true))
    ≡ true
is_in-union_any_example =
    is_in-union_any instants-IsTotal (sort-IsSort leb leb_trans leb_total) 8
      (vec (5 ∷ 1 ∷ []) false) (vec (3 ∷ 5 ∷ 8 ∷ []) true)

pairwise-intersect_example :
    pairwise
      (strictly instants-IsOrder)
      (intersect_loop instants none (1 ∷ 3 ∷ 3 ∷ 5 ∷ []) (3 ∷ 5 ∷ 8 ∷ []))
    ≡ true
pairwise-intersect_example =
    pairwise-intersect instants-IsOrder (1 ∷ 3 ∷ 3 ∷ 5 ∷ []) (3 ∷ 5 ∷ 8 ∷ []) refl

select_inside_example :
    (is_in instants_intervals 4 (
        intersect instants_intervals sort_instants sort_intervals
          (vec (1 ∷ 2 ∷ 4 ∷ 8 ∷ []) true)
          (vec (closing ∷ opening ∷ []) false))
      ≡ true)
    × (is_in instants_intervals 4 (
          setdiff instants_intervals sort_instants sort_intervals
            (vec (1 ∷ 2 ∷ 4 ∷ 8 ∷ []) true)
            (vec (closing ∷ opening ∷ []) false))
        ≡ false)
select_inside_example =
    select_inside (sort-IsSort leb leb_trans leb_total) (sort-IsSort le le_trans le_total) 4
      (vec (1 ∷ 2 ∷ 4 ∷ 8 ∷ []) true) (vec (closing ∷ opening ∷ []) false) refl refl
