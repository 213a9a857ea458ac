-- ===== src/Index.antt =====
-- src/index.hpp: the indices of an array. Each kind of index holds what it selects by, and gives its
-- positions one by one, through `getfirst` and `getnext`.
pub mod Null
pub mod Ints
pub mod Bools
pub mod Neg
pub mod Names
pub mod Times
pub mod Assign
pub mod Written
pub mod Ordered
use ztsdb.Base.{
  ℕ, zero, suc, ◌+◌, ◌-◌, ◌≤◌, ◌<◌, ◌≡◌, refl, Bool, true, false, ltb, leb, if◌then◌else◌, Option,
  none, some, List, [], ◌∷◌, length, get_elem?, drop, arith,
}

-- What `getfirst` and `getnext` work on: `val`, a position in the array, and `i`, a position in the
-- index.
pub record Cursor : Type 0 where
  pub val : ℕ
  pub i : ℕ

abbrev pub start : Cursor
start = record { val = 0; i = 0 }

-- A step returns whether there is a position, and the cursor.
abbrev pub Step : Type 0
Step = Cursor → Bool × Cursor

-- The positions that a loop `while (getnext(val, i))` meets from a cursor on, that one included.
unfoldable pub walk : ℕ → Step → Cursor → List ℕ
walk zero getnext c = []
walk (suc fuel) getnext c =
    c.val ∷ elim (getnext c).0 [ true ↦ walk fuel getnext (getnext c).1 | false ↦ [] ]

-- `if (getfirst(val, i)) do ... while (getnext(val, i))`
unfoldable pub visit : ℕ → Step → Step → List ℕ
unfolding walk
visit fuel getfirst getnext = elim (getfirst start).0 [
  | true ↦ walk fuel getnext (getfirst start).1
  | false ↦ []
]

-- v[j] for each j, where one out of bounds throws.
unfoldable pub pick {ℓ} : {A : Type ℓ} → List A → List ℕ → Option (List A)
pick v [] = some []
pick v (j ∷ js) = elim (get_elem? v j) [
  | none ↦ none
  | some x ↦ elim (pick v js) [ none ↦ none | some xs ↦ some (x ∷ xs) ]
]
