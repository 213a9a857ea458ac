-- ===== src/Align.antt =====
-- src/timezone/ztime_vector.hpp: for each instant of `y`, the element of `x` that lies closest to it
-- in a window around it. The windows, `start.plus(y[iy], start[iy])` and `end.plus(y[iy], end[iy])`,
-- are computed from time zones and come in as a list: a round is an instant and its window.
-- `none` stands for an exception.
pub mod Closest
pub mod Rounds
use ztsdb.Base.{
  ℕ, zero, suc, ◌+◌, ◌-◌, Bool, true, false, not, ◌&&◌, ◌||◌, ltb, leb, ◌==◌, if◌then◌else◌, Option,
  none, some, List, [], ◌∷◌, ◌++◌, length, get_elem?, get_or, take, drop,
}

pub record Round : Type 0 where
  pub at : ℕ
  pub ystart : ℕ
  pub yend : ℕ

-- tz::abs(a - b)
abbrev pub distance : ℕ → ℕ → ℕ
distance a b = if ltb a b then b - a else a - b

-- The first loop: with `fuel` elements left, the first position from ix on that is not before
-- `ystart`. In align_idx the test of the bound is `ix <= x.size()` (`strict` is false), so that at
-- the end it reads x[x.size()], which throws, but for an empty `x`, where it does not matter what the
-- unchecked read gives.
unfoldable pub advance : Bool → ℕ → List ℕ → ℕ → ℕ → Option ℕ
advance strict zero x ystart ix = if strict || length x == 0 then some ix else none
advance strict (suc fuel) x ystart ix =
    let rest = advance strict fuel x ystart (ix + 1) in
    if ltb (get_or x ix 0) ystart then rest else some ix

-- The second loop: on to the next element while it is in the window and strictly closer.
unfoldable pub closest : ℕ → List ℕ → Round → ℕ → ℕ
closest zero x r ix = ix
closest (suc fuel) x r ix =
    let rest = closest fuel x r (ix + 1) in
    if ltb (ix + 1) (length x)
      && (leb (get_or x (ix + 1) 0) r.yend
          && ltb (distance (get_or x (ix + 1) 0) r.at) (distance (get_or x ix 0) r.at))
    then rest
    else ix

-- One round, from ix on: where the loops stop, and whether there is an element in the window.
unfoldable pub round : Bool → List ℕ → Round → ℕ → Option (ℕ × Bool)
unfolding advance closest
round strict x r ix = elim (advance strict (length x - ix) x r.ystart ix) [
  | none ↦ none
  | some i ↦
      if leb (length x) i || ltb r.yend (get_or x i 0)
      then some (i, false)
      else some (closest (length x - i) x r i, true)
]

-- align_idx: positions count from 1; `none` stands for NaN.
unfoldable pub idx_loop : List ℕ → List Round → ℕ → Option (List (Option ℕ))
unfolding round
idx_loop x [] ix = some []
idx_loop x (r ∷ rs) ix = elim (round false x r ix) [
  | none ↦ none
  | some (i, found) ↦ elim (idx_loop x rs i) [
    | none ↦ none
    | some res ↦ some ((if found then some (i + 1) else none) ∷ res)
  ]
]

unfoldable pub align_idx : List ℕ → List Round → Option (List (Option ℕ))
unfolding idx_loop
align_idx x rs = idx_loop x rs 0

-- align_closest: the data at that position.
unfoldable pub closest_loop {ℓ} :
    {A : Type ℓ} → List ℕ → List A → A → List Round → ℕ → Option (List A)
unfolding round
closest_loop x xdata nan [] ix = some []
closest_loop x xdata nan (r ∷ rs) ix = elim (round true x r ix) [
  | none ↦ none
  | some (i, found) ↦ elim (closest_loop x xdata nan rs i) [
    | none ↦ none
    | some res ↦ some ((if found then get_or xdata i nan else nan) ∷ res)
  ]
]

unfoldable pub align_closest {ℓ} : {A : Type ℓ} → List ℕ → List A → A → List Round → Option (List A)
unfolding closest_loop
align_closest x xdata nan rs =
    if length xdata == length x then closest_loop x xdata nan rs 0 else none

-- std::lower_bound(x.begin() + ix, x.end(), t): the first position from ix on, with `fuel` elements
-- left, that is not before t. It is so for vectors in order, for which it is documented.
unfoldable pub lower_bound : ℕ → List ℕ → ℕ → ℕ → ℕ
lower_bound zero x t ix = ix
lower_bound (suc fuel) x t ix =
    let rest = lower_bound fuel x t (ix + 1) in if ltb (get_or x ix 0) t then rest else ix

-- align_func: `f` of the data in each window, the end of the window left out.
unfoldable pub align_func_loop {ℓ} :
    {A : Type ℓ} → (List A → A) → List ℕ → List A → List Round → ℕ → List A
unfolding lower_bound
align_func_loop f x xdata [] ix = []
align_func_loop f x xdata (r ∷ rs) ix =
    let i = lower_bound (length x - ix) x r.ystart ix in
    let j = lower_bound (length x - i) x r.yend i in
    (if leb (length x) i || leb r.yend (get_or x i 0)
      then f []
      else f (take (j - i) (drop i xdata)))
    ∷ align_func_loop f x xdata rs i

unfoldable pub align_func {ℓ} :
    {A : Type ℓ} → (List A → A) → List ℕ → List A → List Round → Option (List A)
unfolding align_func_loop
align_func f x xdata rs =
    if length xdata == length x then some (align_func_loop f x xdata rs 0) else none

-- op_zts: for each element of `x`, the cells of `ydata` between the bound of the element before and
-- its own bound in `y` are combined with its data by `f`; an element behind all of `y` changes nothing.
unfoldable pub op_loop {ℓ} :
    {A : Type ℓ} → (A → List A → List A) → List ℕ → List ℕ → List A → List A → ℕ → List A
unfolding lower_bound
op_loop f y [] xdata ydata from = ydata
op_loop f y (t ∷ x) [] ydata from = ydata
op_loop f y (t ∷ x) (a ∷ xdata) ydata from =
    let to = lower_bound (length y - from) y t from in
    let changed = take from ydata ++ f a (take (to - from) (drop from ydata)) ++ drop to ydata in
    let next = op_loop f y x xdata changed to in
    let same = op_loop f y x xdata ydata from in if to == length y then same else next

unfoldable pub op_zts {ℓ} :
    {A : Type ℓ} → (A → List A → List A) → List ℕ → List ℕ → List A → List A → Option (List A)
unfolding op_loop
op_zts f x y xdata ydata =
    if length xdata == length x then some (op_loop f y x xdata ydata 0) else none
