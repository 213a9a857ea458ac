-- ===== src/Tests/Windows.antt =====
-- The operations along the rows of an array, on an array of 4 rows and 2 columns; 99 stands for NaN.
use ztsdb.Base.{
  not, ◌&&◌, get_or, ℕ, ◌+◌, ◌-◌, ◌≡◌, refl, Bool, true, false, ltb, leb, ◌==◌, Bool-cases, ◌⊎◌,
  inl, inr, Option, some, none, List, [], ◌∷◌, map, replicate, arith,
}
use ztsdb.Base.Int.{pos, negsuc}
use ztsdb.Vector.{Vec, mem, at, setv}
use ztsdb.Array.{Array}
use ztsdb.ArrayOps.{
  move_inplace, diff_inplace, rotate_inplace, cumul_inplace, locf_inplace, write, rev_inplace,
}
use ztsdb.ArrayOps.Loops.{Each}
use ztsdb.ArrayOps.Shift.{HasRows, shifted, move_inplace-shifted, diff_inplace-shifted}
use ztsdb.ArrayOps.Rotate.{rotated, rotate_inplace-rotated, rev_inplace-reversed}
use ztsdb.ArrayOps.Fold.{cumulated, cumul_inplace-running}
use ztsdb.ArrayOps.Locf.{carried, locf_inplace-carried}
use ztsdb.Rolling.{
  rollmin_inplace, rollmax_inplace, roll_loop, roll_step, take_in, let_out, put, new_front, store,
  push, pop_back, pop_front, roll_columns,
}
use ztsdb.Rolling.Minmax.{Windowed, rollmin-rollmax}

abbrev junk : ℕ → ℕ
junk i = 1000 + i

abbrev is_nan : ℕ → Bool
is_nan x = x == 99

abbrev column : List ℕ → Vec ℕ
column xs = record { items = xs; ordered = false; capacity = 4; alloc = mem }

abbrev array : Array ℕ
array = record {
  dim = 4 ∷ 2 ∷ [];
  cols = column (5 ∷ 3 ∷ 8 ∷ 1 ∷ []) ∷ column (2 ∷ 4 ∷ 6 ∷ 9 ∷ []) ∷ [];
}

abbrev gaps : Array ℕ
gaps = record { dim = 4 ∷ []; cols = column (5 ∷ 99 ∷ 99 ∷ 1 ∷ []) ∷ [] }

abbrev items_of : Option (Array ℕ) → List (List ℕ)
items_of none = []
items_of (some a) = map (λ v. v.items) a.cols

move_up_by_one :
    items_of (move_inplace ltb junk 99 (negsuc 0) array)
    ≡ (3 ∷ 8 ∷ 1 ∷ 99 ∷ []) ∷ (4 ∷ 6 ∷ 9 ∷ 99 ∷ []) ∷ []
unfolding move_inplace at setv
move_up_by_one = refl

rotate_down_by_three :
    items_of (rotate_inplace ltb junk 0 (pos 3) array)
    ≡ (3 ∷ 8 ∷ 1 ∷ 5 ∷ []) ∷ (4 ∷ 6 ∷ 9 ∷ 2 ∷ []) ∷ []
unfolding rotate_inplace setv
rotate_down_by_three = refl

-- A shift by more rows than there are is an exception.
move_too_far : move_inplace ltb junk 99 (pos 5) array ≡ none
unfolding move_inplace setv
move_too_far = refl

locf_by_one : items_of (locf_inplace ltb junk is_nan 99 (pos 1) gaps) ≡ (5 ∷ 5 ∷ 99 ∷ 1 ∷ []) ∷ []
unfolding locf_inplace at write setv
locf_by_one = refl

rollmin_of_two :
    items_of (rollmin_inplace ltb leb junk is_nan 99 (λ d. replicate d (7, 7)) 2 2 array)
    ≡ (99 ∷ 3 ∷ 3 ∷ 1 ∷ []) ∷ (99 ∷ 2 ∷ 4 ∷ 6 ∷ []) ∷ []
unfolding rollmin_inplace roll_columns roll_loop roll_step take_in at let_out put push store setv
    new_front pop_front pop_back
rollmin_of_two = refl

move_inplace-shifted_example :
    (b : Array ℕ) × (move_inplace ltb junk 99 (pos 2) array ≡ some b)
    × (b.dim ≡ array.dim)
    × Each (HasRows 99 (shifted 99 (λ x y. y) (pos 2) 4) 4) array.cols b.cols
move_inplace-shifted_example =
    move_inplace-shifted ltb junk 99 (pos 2) 4 (2 ∷ []) array refl refl (omega arith) (omega arith)

diff_inplace-shifted_example :
    (b : Array ℕ) × (diff_inplace ltb junk 99 ◌-◌ (pos 1) array ≡ some b)
    × (b.dim ≡ array.dim)
    × Each (HasRows 99 (shifted 99 ◌-◌ (pos 1) 4) 4) array.cols b.cols
diff_inplace-shifted_example =
    diff_inplace-shifted ltb junk 99 (pos 1) 4 (2 ∷ []) array refl ◌-◌ refl (omega arith)
      (omega arith)

rotate_inplace-rotated_example :
    (b : Array ℕ) × (rotate_inplace ltb junk 0 (negsuc 0) array ≡ some b)
    × (b.dim ≡ array.dim)
    × Each (HasRows 99 (rotated 99 (negsuc 0) 4) 4) array.cols b.cols
rotate_inplace-rotated_example =
    rotate_inplace-rotated ltb junk 99 0 (negsuc 0) 4 (2 ∷ []) array refl refl (omega arith)
      (omega arith)

rev_inplace-reversed_example :
    ((rev_inplace junk array).dim ≡ array.dim)
    × Each
        (HasRows 99 (λ xs j. get_or xs (4 - 1 - j) 99) 4)
        array.cols
        (rev_inplace junk array).cols
rev_inplace-reversed_example = rev_inplace-reversed junk 99 4 array refl

cumul_inplace-running_example :
    (b : Array ℕ) × (cumul_inplace ltb junk ◌+◌ true array ≡ some b)
    × (b.dim ≡ array.dim)
    × Each (HasRows 99 (cumulated 99 ◌+◌ true 4) 4) array.cols b.cols
cumul_inplace-running_example =
    cumul_inplace-running ltb junk 99 ◌+◌ true 4 array refl (omega arith) (omega arith)

locf_inplace-carried_example :
    (b : Array ℕ) × (locf_inplace ltb junk is_nan 99 (pos 1) gaps ≡ some b)
    × (b.dim ≡ gaps.dim)
    × Each (HasRows 99 (carried is_nan 99 1) 4) gaps.cols b.cols
locf_inplace-carried_example =
    locf_inplace-carried ltb junk is_nan 99 (pos 1) 4 [] gaps refl refl (omega arith) (omega arith)

-- The order of the elements, in which NaN is comparable with nothing, as for numbers of the machine.
abbrev le : ℕ → ℕ → Bool
le x y = not (is_nan x) && not (is_nan y) && leb x y

le_total : (x y : ℕ) → is_nan x ≡ false → is_nan y ≡ false → (le x y ≡ true) ⊎ (le y x ≡ true)
le_total x y p q = elim (Bool-cases (leb x y)) [
  | inl e ↦ inl (ground (arith, p, q, e))
  | inr e ↦ inr (ground (arith, p, q, e))
]

le_trans : (x y w : ℕ) → le x y ≡ true → le y w ≡ true → le x w ≡ true
le_trans x y w p q = ground arith

rollmin-rollmax_example :
    ((b : Array ℕ) × (rollmin_inplace ltb le junk is_nan 99 (λ d. replicate d (7, 7)) 3 2 array
        ≡ some b)
      × (b.dim ≡ array.dim)
      × Each (Windowed (λ x y. le y x) 99 4 3 2) array.cols b.cols)
    × ((b : Array ℕ) × (rollmax_inplace ltb le junk is_nan 99 (λ d. replicate d (7, 7)) 3 2 array
          ≡ some b)
        × (b.dim ≡ array.dim)
        × Each (Windowed le 99 4 3 2) array.cols b.cols)
rollmin-rollmax_example =
    rollmin-rollmax ltb le junk is_nan 99 4 3 2 (λ d. replicate d (7, 7)) (2 ∷ []) array le_total
      le_trans (omega arith) (omega arith) (omega arith) refl refl refl refl
