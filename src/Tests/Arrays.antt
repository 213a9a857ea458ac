-- ===== src/Tests/Arrays.antt =====
-- An array of 2 rows and 2 x 3 columns, and a smaller one.
use ztsdb.Base.{ℕ, ◌≡◌, refl, ◌+◌, true, ltb, Option, some, List, [], ◌∷◌, map, get_elem?, arith}
use ztsdb.Vector.{Vec, mem}
use ztsdb.Index.Neg
use ztsdb.Index.Null
use ztsdb.Array.{
  Array, Axis, make, element, element_at, subset, subset_rows, columns, product, column,
}
use ztsdb.Array.Shape.{column-place}
use ztsdb.Array.Cells.{well_formed, element-make, element_at-element}
use ztsdb.Array.Rows.{items_of, subset_rows-part}
use ztsdb.Array.Columns.{Cycles, columns-choices}

abbrev junk : ℕ → ℕ
junk i = 1000 + i

abbrev first_column : Vec ℕ
first_column = record { items = 1 ∷ 2 ∷ 3 ∷ []; ordered = true; capacity = 3; alloc = mem }

abbrev second_column : Vec ℕ
second_column = record { items = 4 ∷ 5 ∷ 6 ∷ []; ordered = true; capacity = 3; alloc = mem }

abbrev array : Array ℕ
array = record { dim = 3 ∷ 2 ∷ []; cols = first_column ∷ second_column ∷ [] }

column-place_example : column (2 ∷ 3 ∷ []) (1 ∷ 2 ∷ []) ≡ some 5
unfolding product
column-place_example = column-place (2 ∷ 3 ∷ []) (1 ∷ 2 ∷ []) refl (omega arith)

element-make_example :
    (a : Array ℕ) × (make ltb 0 (2 ∷ 2 ∷ []) (5 ∷ 6 ∷ 7 ∷ 8 ∷ []) ≡ some a)
    × (well_formed a ≡ true)
    × ((junk : ℕ → ℕ) (i : ℕ) → element junk a i ≡ get_elem? (5 ∷ 6 ∷ 7 ∷ 8 ∷ []) i)
unfolding product
element-make_example = element-make ltb 0 (2 ∷ 2 ∷ []) 5 6 (7 ∷ 8 ∷ []) refl (omega arith)

element_at-element_example : element_at junk array (1 ∷ 1 ∷ []) ≡ element junk array 4
unfolding product
element_at-element_example =
    element_at-element junk array 1 (1 ∷ []) refl refl (omega arith) (omega arith)

subset_rows-part_example :
    (b : Array ℕ) × (subset_rows ltb junk array 2 1 ≡ some b)
    × (b.dim ≡ 2 ∷ 2 ∷ [])
    × (map items_of b.cols ≡ (2 ∷ 3 ∷ []) ∷ (5 ∷ 6 ∷ []) ∷ [])
    × (well_formed b ≡ true)
unfolding product
subset_rows-part_example =
    subset_rows-part ltb junk 3 (2 ∷ []) (first_column ∷ second_column ∷ []) 2 1 refl (omega arith)
      (omega arith)

-- All of two dimensions.
abbrev axes : List Axis
axes = (Null.getfirst 2, Null.getnext 2) ∷ (Null.getfirst 3, Null.getnext 3) ∷ []

abbrev axes_Cycles : Cycles axes ((0, 1 ∷ []) ∷ (0, 1 ∷ 2 ∷ []) ∷ [])
unfolding Null.getfirst Null.getnext
axes_Cycles = (
  refl,
  (refl, refl, (refl, refl, refl)),
  (refl, (refl, refl, (refl, refl, (refl, refl, refl))), refl),
)

columns-choices_example : columns 6 axes (2 ∷ 3 ∷ []) ≡ some (0 ∷ 1 ∷ 2 ∷ 3 ∷ 4 ∷ 5 ∷ [])
unfolding product
columns-choices_example =
    columns-choices 6 axes (2 ∷ 3 ∷ []) ((0, 1 ∷ []) ∷ (0, 1 ∷ 2 ∷ []) ∷ []) axes_Cycles refl
      (omega arith) (omega arith)

-- All rows but the second, of both columns.
abbrev all_columns : List Axis
all_columns = (Null.getfirst 2, Null.getnext 2) ∷ []

abbrev all_columns_Cycles : Cycles all_columns ((0, 1 ∷ []) ∷ [])
unfolding Null.getfirst Null.getnext
all_columns_Cycles = (refl, (refl, refl, (refl, refl, refl)), refl)

abbrev over_list : List ℕ → Vec ℕ
over_list xs = record { items = xs; ordered = true; capacity = 3; alloc = mem }

abbrev all_but_second : List ℕ → Option (List ℕ)
all_but_second xs = Neg.subset junk (over_list xs) (1 ∷ []) 3
