-- ===== src/Array.antt =====
-- src/array.hpp: arrays of any number of dimensions. An array keeps one Vector for each column, where
-- the columns run over all dimensions but the first, the second dimension fastest. The names of the
-- dimensions, the directory of a mapped array and its allocators are left out. `none` stands for an
-- exception, and for the access to a first dimension that there is none of.
pub mod Shape
pub mod Cells
pub mod Rows
pub mod Columns
pub mod Subset
use ztsdb.Base.{
  ℕ, zero, suc, ◌+◌, ◌-◌, ◌*◌, ◌/◌, ◌%◌, ◌^◌, Bool, true, false, ◌&&◌, ◌||◌, not, ltb, leb, ◌==◌,
  if◌then◌else◌, Option, none, some, List, [], ◌∷◌, ◌++◌, map, length, get_elem?, get_or, take,
  drop, replicate,
}
use ztsdb.Vector.{Vec, Alloc, mem, at, filled, of_list, push_back, grow_capacity, size as vec_size}
use ztsdb.Index.{Cursor, Step, start}

pub record Array {ℓ} (T : Type ℓ) : Type ℓ where
  pub dim : List ℕ
  pub cols : List (Vec T)

-- The number of elements below some dimensions. (The source multiplies doubles, which are exact
-- below 2^53.)
unfoldable pub product : List ℕ → ℕ
product [] = 1
product (d ∷ ds) = d * product ds

-- The number of columns that the dimensions ask for.
abbrev pub columns_of : List ℕ → ℕ
columns_of [] = 0
columns_of (d ∷ ds) = product ds

abbrev pub rows_of : List ℕ → ℕ
rows_of [] = 0
rows_of (d ∷ ds) = d

module _ {ℓ} {T : Type ℓ} where
  abbrev pub nrows : Array T → ℕ
  nrows a = rows_of a.dim

  abbrev pub size : Array T → ℕ
  size a = length a.cols * nrows a

  -- operator[](i): the array as one column.
  unfoldable pub element : (ℕ → T) → Array T → ℕ → Option T
  unfolding at
  element junk a i =
      if size a == 0
      then none
      else if leb (length a.cols) (i / nrows a) || leb (nrows a) (i % nrows a)
      then none
      else elim (get_elem? a.cols (i / nrows a)) [ none ↦ none | some v ↦ at junk v (i % nrows a) ]

-- The column of a position in every dimension but the first: the loop, with `mul` the number of
-- columns below the dimension at hand.
unfoldable pub column_from : ℕ → ℕ → List ℕ → List ℕ → Option ℕ
column_from col mul [] js = some col
column_from col mul (d ∷ ds) [] = none
column_from col mul (d ∷ ds) (j ∷ js) =
    let rest = column_from ((col + j * mul % 2 ^ 64) % 2 ^ 64) (mul * d % 2 ^ 64) ds js in
    if leb d j then none else rest

unfoldable pub column : List ℕ → List ℕ → Option ℕ
unfolding column_from
column ds js = column_from 0 1 ds js

module _ {ℓ} {T : Type ℓ} where
  -- operator[](vector)
  unfoldable pub element_at : (ℕ → T) → Array T → List ℕ → Option T
  unfolding column at
  element_at junk a [] = none
  element_at junk a (j ∷ js) = if not (length (j ∷ js) == length a.dim) then none else elim a.dim [
    | [] ↦ none
    | d ∷ ds ↦ if leb d j then none else elim (column ds js) [
      | none ↦ none
      | some col ↦ elim (get_elem? a.cols col) [ none ↦ none | some v ↦ at junk v j ]
    ]
  ]

module _ {ℓ} {T : Type ℓ} (lt : T → T → Bool) where
  -- One vector for each column, of `rows` elements of the data.
  unfoldable pub cut : ℕ → ℕ → List T → List (Vec T)
  unfolding of_list
  cut zero rows xs = []
  cut (suc n) rows xs = of_list lt (take rows xs) ∷ cut n rows (drop rows xs)

  -- Array(dim, v): `x` is the initial value of the type.
  unfoldable pub make : T → List ℕ → List T → Option (Array T)
  unfolding cut filled
  make x dim [] =
      some (record { dim = dim; cols = replicate (columns_of dim) (filled lt (rows_of dim) x) })
  make x dim (y ∷ []) =
      some (record { dim = dim; cols = replicate (columns_of dim) (filled lt (rows_of dim) y) })
  make x dim (y ∷ z ∷ ys) =
      if length (y ∷ z ∷ ys) == columns_of dim * rows_of dim
      then some (record { dim = dim; cols = cut (columns_of dim) (rows_of dim) (y ∷ z ∷ ys) })
      else none

  -- Vector(rsv, n)
  abbrev pub reserved : ℕ → Vec T
  reserved n = record { items = []; ordered = true; capacity = grow_capacity n; alloc = mem }

  -- subsetRows: one column, `n` rows from `from` on.
  unfoldable pub copy_rows : (ℕ → T) → ℕ → ℕ → Vec T → Vec T → Option (Vec T)
  unfolding at push_back
  copy_rows junk zero from v r = some r
  copy_rows junk (suc n) from v r = elim (at junk v from) [
    | none ↦ none
    | some x ↦ elim (push_back lt r x) [ none ↦ none | some r' ↦ copy_rows junk n (from + 1) v r' ]
  ]

  -- Every column, `rows` rows into a vector that reserves `n`.
  unfoldable pub copy_columns : (ℕ → T) → ℕ → ℕ → ℕ → List (Vec T) → Option (List (Vec T))
  unfolding copy_rows
  copy_columns junk n rows from [] = some []
  copy_columns junk n rows from (v ∷ vs) = elim (copy_rows junk rows from v (reserved n)) [
    | none ↦ none
    | some r ↦ elim (copy_columns junk n rows from vs) [ none ↦ none | some rs ↦ some (r ∷ rs) ]
  ]

  -- subsetRows(n, from); the loop runs from `from` to `from + n`, which wraps.
  unfoldable pub subset_rows : (ℕ → T) → Array T → ℕ → ℕ → Option (Array T)
  unfolding copy_columns
  subset_rows junk a n from = elim a.dim [
    | [] ↦ none
    | d ∷ ds ↦
        if ltb d ((from + n) % 2 ^ 64)
        then none
        else elim (copy_columns junk n ((from + n) % 2 ^ 64 - from) from a.cols) [
          | none ↦ none
          | some cs ↦ some (record { dim = n ∷ ds; cols = cs })
        ]
  ]

-- checkdims(v, u, i): can arrays of these dimensions be bound in dimension `i`? All others agree, and
-- are 1 where only one array has them. `k` is the dimension at hand.
unfoldable pub check_from : ℕ → ℕ → List ℕ → List ℕ → Bool
check_from i k [] [] = true
check_from i k (v ∷ vs) [] = (k == i || v == 1) && check_from i (k + 1) vs []
check_from i k [] (u ∷ us) = (k == i || u == 1) && check_from i (k + 1) [] us
check_from i k (v ∷ vs) (u ∷ us) = (k == i || v == u) && check_from i (k + 1) vs us

unfoldable pub check_dims : List ℕ → List ℕ → ℕ → Bool
unfolding check_from
check_dims v u i = if length v == 0 || length u == 0 then true else check_from i 0 v u

-- src/index.hpp, getfirstcol and getnextcol: the indices of all dimensions but the first, each by its
-- getfirst and getnext, and the cursor of each.
abbrev pub Axis : Type 0
Axis = Step × Step

unfoldable pub first_all : List Axis → Option (List Cursor)
first_all [] = some []
first_all ((first, next) ∷ axes) = elim (first start).0 [
  | false ↦ none
  | true ↦ elim (first_all axes) [ none ↦ none | some cs ↦ some ((first start).1 ∷ cs) ]
]

-- The first dimension that has a next position is moved on; those before it have started anew.
unfoldable pub next_all : List Axis → List Cursor → Option (List Cursor)
next_all [] cs = none
next_all (a ∷ axes) [] = none
next_all ((first, next) ∷ axes) (c ∷ cs) = elim (next c).0 [
  | true ↦ some ((next c).1 ∷ cs)
  | false ↦ elim (next_all axes cs) [ none ↦ none | some cs' ↦ some ((next c).1 ∷ cs') ]
]

abbrev pub value : Cursor → ℕ
value c = c.val

-- The column and the cursors, nothing (`some none`) at the end, `none` where an index is out of bounds.
abbrev pub at_column : List ℕ → Option (List Cursor) → Option (Option (ℕ × List Cursor))
at_column ds none = some none
at_column ds (some cs) = elim (column ds (map value cs)) [
  | none ↦ none
  | some col ↦ some (some (col, cs))
]

unfoldable pub getfirstcol : List Axis → List ℕ → Option (Option (ℕ × List Cursor))
unfolding first_all column
getfirstcol axes ds = at_column ds (first_all axes)

unfoldable pub getnextcol : List Axis → List ℕ → List Cursor → Option (Option (ℕ × List Cursor))
unfolding next_all column
getnextcol axes ds cs = at_column ds (next_all axes cs)

-- The columns that the loop over getfirstcol and getnextcol meets.
unfoldable pub columns_from :
    ℕ → List Axis → List ℕ → Option (Option (ℕ × List Cursor)) → Option (List ℕ)
unfolding getnextcol
columns_from fuel axes ds none = none
columns_from fuel axes ds (some none) = some []
columns_from zero axes ds (some (some (col, cs))) = none
columns_from (suc fuel) axes ds (some (some (col, cs))) =
    elim (columns_from fuel axes ds (getnextcol axes ds cs)) [
      | none ↦ none
      | some rest ↦ some (col ∷ rest)
    ]

unfoldable pub columns : ℕ → List Axis → List ℕ → Option (List ℕ)
unfolding columns_from getfirstcol
columns fuel axes ds = columns_from fuel axes ds (getfirstcol axes ds)

module _ {ℓ} {T : Type ℓ} where
  -- operator()(i), where no dimension is dropped: the first index (`rows`, its `subset`) takes its
  -- elements of every column that the others give. The columns of the result are lists of elements;
  -- their order flags and the names are left out.
  unfoldable pub subset_columns :
      (List T → Option (List T)) → List (Vec T) → List ℕ → Option (List (List T))
  subset_columns rows vs [] = some []
  subset_columns rows vs (col ∷ cols) = elim (get_elem? vs col) [
    | none ↦ none
    | some v ↦ elim (rows v.items) [
      | none ↦ none
      | some r ↦ elim (subset_columns rows vs cols) [ none ↦ none | some rs ↦ some (r ∷ rs) ]
    ]
  ]

  unfoldable pub subset :
      ℕ → (List T → Option (List T)) → List Axis → Array T → Option (List (List T))
  subset fuel rows axes a = elim a.dim [
    | [] ↦ none
    | d ∷ ds ↦ elim (columns fuel axes ds) [ none ↦ none | some cs ↦ subset_columns rows a.cols cs ]
  ]
