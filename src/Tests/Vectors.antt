-- ===== src/Tests/Vectors.antt =====
-- Vectors of numbers, ordered by `<`.
use ztsdb.Base.{
  ℕ, ◌+◌, ◌-◌, ◌≤◌, ◌<◌, ◌≡◌, refl, true, false, ltb, Option, none, some, get_elem?, List, [], ◌∷◌,
  arith,
}
use ztsdb.Vector.{
  Vec, mem, size_max, ascending, push_back, setv, apply, grow_capacity, check_and_set_ordered,
}
use ztsdb.Vector.Flag.{check_and_set_ordered_lem, push_back-ordered, setv-ordered}
use ztsdb.Vector.Whole.{apply-ordered}
use ztsdb.Vector.Size.{grow_capacity_bounds}
use ztsdb.Vector.Edit.{insert}
use ztsdb.Vector.Edit.Inner.{insert-inner}
use ztsdb.Vector.Edit.Last.{insert-last_lost}

abbrev vec : List ℕ → Vec ℕ
vec xs = record { items = xs; ordered = true; capacity = 1024; alloc = mem }

abbrev junk : ℕ → ℕ
junk i = 100 + i

check_and_set_ordered_lem_example : (check_and_set_ordered ltb (vec (1 ∷ 3 ∷ []))).ordered ≡ true
check_and_set_ordered_lem_example = check_and_set_ordered_lem ltb (vec (1 ∷ 3 ∷ []))

push_back-ordered_example :
    (w : Vec ℕ) × (push_back ltb (vec (1 ∷ 3 ∷ [])) 2 ≡ some w)
    × (w.items ≡ 1 ∷ 3 ∷ 2 ∷ [])
    × (w.ordered ≡ ascending ltb w.items)
push_back-ordered_example = push_back-ordered ltb (vec (1 ∷ 3 ∷ [])) 2 refl refl

setv-ordered_example :
    setv ltb (vec (1 ∷ 3 ∷ 5 ∷ [])) 1 4 ≡ some (record (vec (1 ∷ 4 ∷ 5 ∷ [])) { ordered = true })
setv-ordered_example = setv-ordered ltb (vec (1 ∷ 3 ∷ 5 ∷ [])) 1 4 refl refl

-- 10 less the element, less the one of 2, 4 at the same position.
abbrev minus_both : ℕ → ℕ → Option ℕ
minus_both i x = elim (get_elem? {A = ℕ} (2 ∷ 4 ∷ []) i) [
  | none ↦ none
  | some u ↦ some (10 - x - u)
]

apply-ordered_example :
    apply ltb minus_both (vec (1 ∷ 3 ∷ []))
    ≡ some (record { items = 7 ∷ 3 ∷ []; ordered = false; capacity = 1024; alloc = mem })
apply-ordered_example = apply-ordered ltb minus_both (vec (1 ∷ 3 ∷ []))

insert-inner_example :
    (w : Vec ℕ) × (insert ltb junk (vec (1 ∷ 5 ∷ 6 ∷ [])) 1 (2 ∷ 3 ∷ []) ≡ some w)
    × (w.items ≡ 1 ∷ 2 ∷ 3 ∷ 5 ∷ 6 ∷ [])
insert-inner_example =
    insert-inner ltb junk (vec (1 ∷ 5 ∷ 6 ∷ [])) 1 2 (3 ∷ []) refl (omega arith) (omega arith)

insert-last_lost_example :
    (w : Vec ℕ) × (insert ltb junk (vec (1 ∷ 9 ∷ [])) 1 (5 ∷ []) ≡ some w)
    × (w.items ≡ 1 ∷ 5 ∷ 102 ∷ [])
insert-last_lost_example = insert-last_lost ltb junk (vec (1 ∷ 9 ∷ [])) 1 5 [] refl refl

grow_capacity_bounds_example : (900 < grow_capacity 900) × (grow_capacity 900 ≤ size_max)
grow_capacity_bounds_example = grow_capacity_bounds 900 (omega arith)
