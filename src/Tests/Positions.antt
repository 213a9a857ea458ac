-- ===== src/Tests/Positions.antt =====
-- Indices that leave positions out, by time, and for writing, at concrete values.
use ztsdb.Base.{
  ℕ, ◌+◌, ◌≡◌, refl, true, false, ltb, Option, none, some, List, [], ◌∷◌, ◌==◌, if◌then◌else◌,
  arith,
}
use ztsdb.Vector.{Vec, null, at}
use ztsdb.Index.{visit}
use ztsdb.Index.Null
use ztsdb.Index.Neg
use ztsdb.Index.Assign.{subassign}
use ztsdb.Index.Written
use ztsdb.Index.Ordered

abbrev junk : ℕ → ℕ
junk i = 1000 + i

abbrev three_cells : Vec ℕ
three_cells = record { items = 7 ∷ 8 ∷ 9 ∷ []; ordered = true; capacity = 3; alloc = null }

subset-visit_example :
    Neg.subset junk three_cells (1 ∷ []) 3
    ≡ Neg.read_all
        (at junk three_cells)
        (visit 3 (Neg.getfirst (1 ∷ []) 3) (Neg.getnext (1 ∷ []) 3))
subset-visit_example = Neg.subset-visit junk three_cells (1 ∷ []) 3 3 refl (omega arith)

neg_subset_run : Neg.subset junk three_cells (1 ∷ []) 3 ≡ some (7 ∷ 9 ∷ [])
unfolding Neg.subset at
neg_subset_run = refl

-- An empty vector lets every position pass.
neg_subset_empty :
    Neg.subset junk (record three_cells { items = [] }) (1 ∷ []) 3 ≡ some (1000 ∷ 1002 ∷ [])
unfolding Neg.subset at
neg_subset_empty = refl

-- A search that finds 20 at 1 and nothing else.
abbrev search_20 : ℕ → List ℕ → Option ℕ
search_20 t vd = if t == 20 then some 1 else none

abbrev two_cells : Vec ℕ
two_cells = record { items = 5 ∷ 6 ∷ []; ordered = true; capacity = 2; alloc = null }

cells-subassign_example :
    Written.cells_of
      (subassign ltb 2 (Null.getfirst 2) (Null.getnext 2) two_cells (1 ∷ 2 ∷ 3 ∷ []) 1)
    ≡ some (2 ∷ 3 ∷ [])
unfolding visit Null.getfirst Null.getnext
cells-subassign_example =
    Written.cells-subassign ltb 2 (Null.getfirst 2) (Null.getnext 2) two_cells (1 ∷ 2 ∷ 3 ∷ []) 1

-- The order that sorts 2, 0, 1.
abbrev order_201 : List ℕ → List ℕ
order_201 vi = 1 ∷ 2 ∷ 0 ∷ []

-- `vidx` is not in order.
ordered_run : Ordered.make order_201 false (2 ∷ 0 ∷ 1 ∷ []) ≡ (1 ∷ 2 ∷ 0 ∷ [], 2 ∷ 0 ∷ 1 ∷ [])
unfolding Ordered.make
ordered_run = refl
