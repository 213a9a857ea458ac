-- ===== src/Moments/Covariance.antt =====
-- src/array_ops.hpp: rollcov, for every column of one array and every column of another.
-- The result keeps its columns and dimensions; its names are left out.
use ztsdb.Base.{
  ℕ, zero, suc, ◌+◌, ◌%◌, Bool, ◌&&◌, not, leb, ◌==◌, if◌then◌else◌, Option, none, some, List, [],
  ◌∷◌, ◌++◌, length, set, replicate,
}
use ztsdb.Vector.{Vec, at, push_back}
use ztsdb.Array.{Array, reserved}
use ztsdb.Moments.{Number, ring_of, ring_at, one_less}

-- Between two rows of rollcov.
pub record Cross {ℓ} (T : Type ℓ) : Type ℓ where
  pub ring_x : List T
  pub ring_y : List T
  pub ring_xy : List T
  pub nbv : ℕ
  pub sum_x : T
  pub sum_y : T
  pub sum_xy : T
  pub column : Vec T

module _ {ℓ} {T : Type ℓ} (lt : T → T → Bool) (junk : ℕ → T) (num : Number T) where
  open num use {nan, is_nan, zero_value, of_size, add, sub, mul, div}

  abbrev pub slot : ℕ → List T → ℕ → T
  slot sz ring r = ring_at lt junk num sz ring r

  unfoldable pub cov_add : ℕ → ℕ → T → T → Cross T → Cross T
  cov_add sz r x y s =
      if not (is_nan x) && not (is_nan y)
      then record s {
        ring_x = set s.ring_x (r % sz) x;
        ring_y = set s.ring_y (r % sz) y;
        ring_xy = set s.ring_xy (r % sz) (mul x y);
        nbv = s.nbv + 1;
        sum_x = add s.sum_x x;
        sum_y = add s.sum_y y;
        sum_xy = add s.sum_xy (mul x y);
      }
      else s

  unfoldable pub cov_drop : ℕ → ℕ → T → T → T → Cross T → Cross T
  cov_drop window r out_x out_y out_xy s =
      if leb window r && not (is_nan out_x) && not (is_nan out_y)
      then record s {
        nbv = one_less s.nbv;
        sum_x = sub s.sum_x out_x;
        sum_y = sub s.sum_y out_y;
        sum_xy = sub s.sum_xy out_xy;
      }
      else s

  unfoldable pub cov_put : ℕ → Cross T → Option (Cross T)
  cov_put nbvalid s =
      elim (push_back lt s.column (
        if leb nbvalid s.nbv
        then div (sub s.sum_xy (div (mul s.sum_x s.sum_y) (of_size s.nbv)))
            (of_size (one_less s.nbv))
        else nan)) [ none ↦ none | some w ↦ some (record s { column = w }) ]

  unfoldable pub cov_step : ℕ → ℕ → ℕ → Vec T → Vec T → ℕ → Cross T → Option (Cross T)
  cov_step sz window nbvalid vx vy r s = elim (at junk vx r) [
    | none ↦ none
    | some x ↦ elim (at junk vy r) [
      | none ↦ none
      | some y ↦ cov_put nbvalid (
          cov_drop window r (slot sz s.ring_x r) (slot sz s.ring_y r) (slot sz s.ring_xy r)
            (cov_add sz r x y s))
    ]
  ]

  unfoldable pub cov_loop : ℕ → ℕ → ℕ → Vec T → Vec T → ℕ → ℕ → Cross T → Option (Cross T)
  cov_loop sz window nbvalid vx vy zero r s = some s
  cov_loop sz window nbvalid vx vy (suc k) r s = elim (cov_step sz window nbvalid vx vy r s) [
    | none ↦ none
    | some s' ↦ cov_loop sz window nbvalid vx vy k (suc r) s'
  ]

  -- A new column of the result, with the rings of the columns before.
  abbrev pub restart : Cross T → Cross T
  restart s = record s {
    nbv = 0;
    sum_x = zero_value;
    sum_y = zero_value;
    sum_xy = zero_value;
    column = reserved lt 0;
  }

  -- One column of the first array with all of the second; the state carries the rings.
  unfoldable pub cov_row :
      ℕ → ℕ → ℕ → ℕ → Vec T → List (Vec T) → Cross T → Option (List (Vec T) × Cross T)
  cov_row sz window nbvalid rows vx [] s = some ([], s)
  cov_row sz window nbvalid rows vx (vy ∷ vys) s =
      elim (cov_loop sz window nbvalid vx vy rows 0 (restart s)) [
        | none ↦ none
        | some s' ↦ elim (cov_row sz window nbvalid rows vx vys s') [
          | none ↦ none
          | some (ws, s'') ↦ some (s'.column ∷ ws, s'')
        ]
      ]

  unfoldable pub cov_columns :
      ℕ → ℕ → ℕ → ℕ → List (Vec T) → List (Vec T) → Cross T → Option (List (Vec T))
  cov_columns sz window nbvalid rows [] vys s = some []
  cov_columns sz window nbvalid rows (vx ∷ vxs) vys s =
      elim (cov_row sz window nbvalid rows vx vys s) [
        | none ↦ none
        | some (ws, s') ↦ elim (cov_columns sz window nbvalid rows vxs vys s') [
          | none ↦ none
          | some zs ↦ some (ws ++ zs)
        ]
      ]

  abbrev pub fresh : ℕ → Cross T
  fresh sz = record {
    ring_x = replicate sz zero_value;
    ring_y = replicate sz zero_value;
    ring_xy = replicate sz zero_value;
    nbv = 0;
    sum_x = zero_value;
    sum_y = zero_value;
    sum_xy = zero_value;
    column = reserved lt 0;
  }

  -- dim[0] is set in the loop over the columns of x, so it is 0 where there are none.
  abbrev pub rows_set : List (Vec T) → ℕ → ℕ
  rows_set [] d = 0
  rows_set (v ∷ vs) d = d

  unfoldable pub with_dims : List ℕ → List ℕ → Option ℕ
  with_dims [] ys = none
  with_dims (x ∷ xs) [] = none
  with_dims (x ∷ xs) (y ∷ ys) = if x == y then some y else none

  unfoldable pub rollcov : ℕ → ℕ → Array T → Array T → Option (Array T)
  rollcov window nbvalid x y = elim (ring_of window) [
    | none ↦ none
    | some sz ↦ elim (with_dims x.dim y.dim) [
      | none ↦ none
      | some rows ↦ elim (cov_columns sz window nbvalid rows x.cols y.cols (fresh sz)) [
        | none ↦ none
        | some cs ↦
            some (record {
              dim = rows_set x.cols rows ∷ length x.cols ∷ length y.cols ∷ [];
              cols = cs;
            })
      ]
    ]
  ]
