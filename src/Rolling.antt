-- ===== src/Rolling.antt =====
-- src/array_ops.hpp: the functions over a sliding window of rows, rollmin_inplace, rollmax_inplace,
-- rollmean_inplace, rollvar_inplace and rollcov; src/base_funcs_roll.cpp: checkParams.
-- The elements have NaN (`nan`, and the test `is_nan`) and are otherwise a parameter with its
-- operations. `none` stands for an exception and for a read behind the buffer of `dim[0]` elements.
pub mod Queue
pub mod Extreme
pub mod Minmax
use ztsdb.Base.{
  ℕ, zero, suc, ◌+◌, ◌-◌, ◌*◌, ◌/◌, ◌%◌, ◌^◌, Bool, true, false, ◌&&◌, ◌||◌, not, leb, ltb, ◌==◌,
  if◌then◌else◌, Option, none, some, List, [], ◌∷◌, ◌++◌, length, get_or, set, replicate,
}
use ztsdb.Vector.{Vec, size, at, setv}
use ztsdb.Array.{Array, size as array_size}

-- checkParams: only parameters that it lets through reach the loops.
unfoldable pub check_params {ℓ} : {T : Type ℓ} → Array T → ℕ → ℕ → Bool
check_params a window nbvalid =
    not (array_size a == 0)
    && (elim a.dim [ [] ↦ false | d ∷ ds ↦ not (leb window 0 || ltb d window) ])
    && not (leb nbvalid 1 || ltb window nbvalid)

-- The state of the loop over the rows of a column: `minima` (or `maxima`), the values with their
-- rows, of which those from `front` to `back` are in use, and the number of values that are not NaN.
pub record Roll {ℓ} (T : Type ℓ) : Type ℓ where
  pub buffer : List (T × ℕ)
  pub front : ℕ
  pub back : ℕ
  pub nbv : ℕ
  pub column : Vec T

module _ {ℓ} {T : Type ℓ} (worse : T → T → Bool) (z : T) where
  -- `while (back > front && minima[back-1].first >= x) --back;`
  unfoldable pub pop_back : List (T × ℕ) → ℕ → ℕ → T → ℕ
  pop_back buf front zero x = zero
  pop_back buf front (suc back) x =
      if ltb front (suc back) && worse (get_or buf back (z, 0)).0 x
      then pop_back buf front back x
      else suc back

  -- `while (minima[front].second <= limit) ++front;`, with `k` elements from `front` to the end of the
  -- buffer.
  unfoldable pub pop_front : List (T × ℕ) → ℕ → ℕ → ℕ → Option ℕ
  pop_front buf zero front limit = none
  pop_front buf (suc k) front limit = elim (leb (get_or buf front (z, 0)).1 limit) [
    | true ↦ pop_front buf k (front + 1) limit
    | false ↦ some front
  ]

  -- A value that is not NaN is added at the back.
  unfoldable pub push : ℕ → T → Roll T → Roll T
  push r x s =
      let b = pop_back s.buffer s.front s.back x in
      record s { buffer = set s.buffer b (x, r); back = suc b; nbv = s.nbv + 1 }

module _ {ℓ} {T : Type ℓ} (lt worse : T → T → Bool) (junk : ℕ → T) (is_nan : T → Bool)
    (nan : T) where
  unfoldable pub take_in : ℕ → Roll T → Option (Roll T)
  take_in r s = elim (at junk s.column r) [
    | none ↦ none
    | some x ↦ some (if is_nan x then s else push worse nan r x s)
  ]

  -- The row that leaves the window; `nbv` is unsigned.
  unfoldable pub let_out : ℕ → ℕ → Roll T → Option (Roll T)
  let_out window r s =
      if leb window r
      then elim (at junk s.column (r - window)) [
        | none ↦ none
        | some x ↦ some (if is_nan x then s else record s { nbv = (s.nbv + 2 ^ 64 - 1) % 2 ^ 64 })
      ]
      else some s

  -- The front of the window at row `r`.
  unfoldable pub new_front : ℕ → ℕ → ℕ → Roll T → Option ℕ
  new_front d window r s =
      if leb window r
      then pop_front worse nan s.buffer (d - s.front) s.front (r - window)
      else some s.front

  unfoldable pub store : ℕ → T → Roll T → Option (Roll T)
  store r x s = elim (setv lt s.column r x) [
    | none ↦ none
    | some w ↦ some (record s { column = w })
  ]

  unfoldable pub put : ℕ → ℕ → ℕ → ℕ → Roll T → Option (Roll T)
  put d window nbvalid r s =
      if leb nbvalid s.nbv
      then elim (new_front d window r s) [
        | none ↦ none
        | some f ↦ store r (get_or s.buffer f (nan, 0)).0 (record s { front = f })
      ]
      else store r nan s

  unfoldable pub roll_step : ℕ → ℕ → ℕ → ℕ → Roll T → Option (Roll T)
  roll_step d window nbvalid r s = elim (take_in r s) [
    | none ↦ none
    | some s' ↦ elim (let_out window r s') [ none ↦ none | some s'' ↦ put d window nbvalid r s'' ]
  ]

  -- The loop over the rows, `k` of which are left.
  unfoldable pub roll_loop : ℕ → ℕ → ℕ → ℕ → ℕ → Roll T → Option (Roll T)
  roll_loop d window nbvalid zero r s = some s
  roll_loop d window nbvalid (suc k) r s = elim (roll_step d window nbvalid r s) [
    | none ↦ none
    | some s' ↦ roll_loop d window nbvalid k (suc r) s'
  ]

  -- The columns one by one, with the one buffer.
  unfoldable pub roll_columns : ℕ → ℕ → ℕ → List (T × ℕ) → List (Vec T) → Option (List (Vec T))
  roll_columns d window nbvalid buf [] = some []
  roll_columns d window nbvalid buf (v ∷ vs) =
      elim (roll_loop d window nbvalid d 0
        (record { buffer = buf; front = 0; back = 0; nbv = 0; column = v })) [
          | none ↦ none
          | some s ↦ elim (roll_columns d window nbvalid s.buffer vs) [
            | none ↦ none
            | some ws ↦ some (s.column ∷ ws)
          ]
        ]

  -- `buf` is what the new buffer holds.
  unfoldable pub roll_inplace : (ℕ → List (T × ℕ)) → ℕ → ℕ → Array T → Option (Array T)
  roll_inplace buf window nbvalid a = elim a.dim [
    | [] ↦ none
    | d ∷ ds ↦ elim (roll_columns d window nbvalid (buf d) a.cols) [
      | none ↦ none
      | some cs ↦ some (record a { cols = cs })
    ]
  ]

module _ {ℓ} {T : Type ℓ} (lt le : T → T → Bool) (junk : ℕ → T) (is_nan : T → Bool) (nan : T) where
  unfoldable pub rollmin_inplace : (ℕ → List (T × ℕ)) → ℕ → ℕ → Array T → Option (Array T)
  unfolding roll_inplace
  rollmin_inplace = roll_inplace lt (λ a b. le b a) junk is_nan nan

  unfoldable pub rollmax_inplace : (ℕ → List (T × ℕ)) → ℕ → ℕ → Array T → Option (Array T)
  unfolding roll_inplace
  rollmax_inplace = roll_inplace lt le junk is_nan nan
