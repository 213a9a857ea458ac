-- ===== src/IntervalSets.antt =====
-- src/timezone/vector_set_time.hpp: intersection, union and difference of two vectors of intervals.
-- The vectors are ordered already (conditional_sort_helper, in Sets/Sorting.antt). Each loop goes
-- over the parts of the two vectors that are left; `none` is the exception of the constructor of an
-- interval that would end before its start.
pub mod Intersect
pub mod Boundary
use ztsdb.Base.{
  ℕ, Bool, true, false, not, ◌&&◌, ltb, leb, if◌then◌else◌, Option, none, some, List, [], ◌∷◌,
}
use ztsdb.Interval.{
  Interval, make, start_lt, start_gt, start_ge, end_lt, end_gt, end_le, end_ge, end_lt_start,
  end_ge_start,
}

-- res.push_back(interval(s, e, sopen, eopen)), before what the rest of the loop pushes.
unfoldable pub push : ℕ → ℕ → Bool → Bool → Option (List Interval) → Option (List Interval)
unfolding make
push s e sopen eopen rest = elim (make s e sopen eopen) [
  | none ↦ none
  | some i ↦ elim rest [ none ↦ none | some is ↦ some (i ∷ is) ]
]

-- intersect_helper<interval, interval>
unfoldable pub intersect : List Interval → List Interval → Option (List Interval)
intersect [] js = some []
intersect (i ∷ is) [] = some []
intersect (i ∷ is) (j ∷ js) = elim (leb j.e i.s) [
  | true ↦ intersect is (j ∷ js)
  | false ↦ elim (leb i.e j.s) [
    | true ↦ intersect is (j ∷ js)
    | false ↦
        let later = start_gt i.s i.sopen j.s j.sopen in
        let start = (if later then i.s else j.s) in
        let sopen = (if later then i.sopen else j.sopen) in
        elim (end_lt i.e i.eopen j.e j.eopen) [
          | true ↦ push start i.e sopen i.eopen (intersect is (j ∷ js))
          | false ↦ push start j.e sopen j.eopen (intersect (i ∷ is) js)
        ]
  ]
]

-- `std::min(v1[i1].s, v2[i2].s)` where both vectors have elements left.
abbrev pub next_start : ℕ → List Interval → List Interval → ℕ
next_start start (i ∷ is) (j ∷ js) = if ltb j.s i.s then j.s else i.s
next_start start _ _ = start

-- The loop of union_helper<interval, interval>, with the two loops behind it, which copy what is
-- left of the one vector. `start` and `sopen` are the start of the interval under construction.
unfoldable pub union_loop : ℕ → Bool → List Interval → List Interval → Option (List Interval)
unfolding push
union_loop start sopen [] js = some js
union_loop start sopen (i ∷ is) [] = some (i ∷ is)
union_loop start sopen (i ∷ is) (j ∷ js) =
    let rest1 = union_loop start sopen is (j ∷ js) in
    let rest2 = union_loop start sopen (i ∷ is) js in
    let next1 = union_loop (next_start start is (j ∷ js)) sopen is (j ∷ js) in
    let next2 = union_loop (next_start start (i ∷ is) js) sopen (i ∷ is) js in
    if end_ge_start i j && end_le i.e i.eopen j.e j.eopen
    then elim is [ [] ↦ push start j.e sopen j.eopen (some js) | _ ∷ _ ↦ rest1 ]
    else if end_ge_start j i && end_le j.e j.eopen i.e i.eopen
    then elim js [ [] ↦ push start i.e sopen i.eopen (some is) | _ ∷ _ ↦ rest2 ]
    else if end_lt i.e i.eopen j.e j.eopen
    then push start i.e sopen i.eopen next1
    else push start j.e sopen j.eopen next2

unfoldable pub union : List Interval → List Interval → Option (List Interval)
unfolding union_loop
union [] js = some js
union (i ∷ is) [] = some (i ∷ is)
union (i ∷ is) (j ∷ js) =
    let first = start_lt i.s i.sopen j.s j.sopen in
    union_loop (if first then i.s else j.s) (if first then i.sopen else j.sopen) (i ∷ is) (j ∷ js)

-- The start of the next interval of the first vector, where there is one.
abbrev pub head_s : List Interval → ℕ
head_s [] = 0
head_s (i ∷ is) = i.s

abbrev pub head_sopen : List Interval → Bool
head_sopen [] = false
head_sopen (i ∷ is) = i.sopen

-- The loop of setdiff_helper<interval, interval>, with what copies the rest of the first vector.
-- `start` and `sopen` are where the part of the first interval that is left begins.
unfoldable pub setdiff_loop : ℕ → Bool → List Interval → List Interval → Option (List Interval)
unfolding push
setdiff_loop start sopen [] js = some []
setdiff_loop start sopen (i ∷ is) [] = push start i.e sopen i.eopen (some is)
setdiff_loop start sopen (i ∷ is) (j ∷ js) =
    let next1 = setdiff_loop (head_s is) (head_sopen is) is (j ∷ js) in
    let skip2 = setdiff_loop start sopen (i ∷ is) js in
    let cut2 = setdiff_loop j.e (not j.eopen) (i ∷ is) js in
    if end_lt_start i j
    then push start i.e sopen i.eopen next1
    else if start_lt j.e j.eopen start sopen
    then skip2
    else if start_lt start sopen j.s j.sopen
    then push start j.s sopen (not j.sopen) (if end_gt i.e i.eopen j.e j.eopen then cut2 else next1)
    else if start_ge start sopen j.s j.sopen && end_ge j.e j.eopen i.e i.eopen
    then next1
    else cut2

-- On an empty first vector the source reads `v1[0]`, which `operator[]` lets pass (see
-- Vector/Size.antt), and does not use it.
unfoldable pub setdiff : List Interval → List Interval → Option (List Interval)
unfolding setdiff_loop
setdiff is js = setdiff_loop (head_s is) (head_sopen is) is js
