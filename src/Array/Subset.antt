-- ===== src/Array/Subset.antt =====
-- The elements that a subset of an array takes.
use ztsdb.Base.{ℕ, Bool, ltb, Option, none, some, List, ◌∷◌, map, get_or}
use ztsdb.Vector.{Vec}
use ztsdb.Array.{subset_columns}
use ztsdb.Array.Shape.{place}
use ztsdb.Array.Cells.{flat}

abbrev pub below : ℕ → ℕ → Bool
below d j = ltb j d

-- The elements at some rows and one choice of a position in the other dimensions.
abbrev pub row_elements : {T : Type 0} → T → List ℕ → List (Vec T) → List ℕ → List ℕ → List T
row_elements x dim vs js t = map (λ j. get_or (flat vs) (place dim (j ∷ t)) x) js

abbrev or_else : {T : Type 0} → T → Option T → T
or_else x none = x
or_else x (some y) = y

abbrev over :
    {T : Type 0}
    → (List T → Option (List T))
    → List (Vec T)
    → Option (List ℕ)
    → Option (List (List T))
over rows vs none = none
over rows vs (some cs) = subset_columns rows vs cs
