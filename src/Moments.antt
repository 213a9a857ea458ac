-- ===== src/Moments.antt =====
-- src/array_ops.hpp: rollmean_inplace, rollvar_inplace and rollcov, which keep the values of the window
-- in a ring whose size is a power of two.
-- The arithmetic of the elements is a parameter. `none` stands for an exception.
pub mod Covariance
use ztsdb.Base.{
  ℕ, zero, suc, ◌+◌, ◌-◌, ◌*◌, ◌%◌, ◌^◌, Bool, true, false, ◌&&◌, not, leb, ltb, ◌==◌,
  if◌then◌else◌, Option, none, some, List, [], ◌∷◌, ◌++◌, get_or, set, replicate,
}
use ztsdb.Vector.{Vec, at, setv, push_back}
use ztsdb.Array.{Array, reserved}

-- The elements: NaN, and the operations that the loops use.
pub record Number {ℓ} (T : Type ℓ) : Type ℓ where
  pub nan : T
  pub is_nan : T → Bool
  pub zero_value : T
  pub negative : T → Bool
  pub of_size : ℕ → T
  pub add : T → T → T
  pub sub : T → T → T
  pub mul : T → T → T
  pub div : T → T → T

-- `while (ringsz < window) ringsz <<= 1;`, on 64 bits, with fuel.
unfoldable pub ring_size : ℕ → ℕ → ℕ → Option ℕ
ring_size zero sz window = none
ring_size (suc k) sz window = elim (ltb sz window) [
  | true ↦ ring_size k (sz * 2 % 2 ^ 64) window
  | false ↦ some sz
]

-- One ring more than there are shifts.
unfoldable pub ring_of : ℕ → Option ℕ
unfolding ring_size
ring_of window = ring_size 65 1 window

-- nbv - 1, unsigned.
abbrev pub one_less : ℕ → ℕ
one_less n = (n + 2 ^ 64 - 1) % 2 ^ 64

-- Between two rows of rollmean_inplace.
pub record Mean {ℓ} (T : Type ℓ) : Type ℓ where
  pub ring : List T
  pub nbv : ℕ
  pub mean : T
  pub column : Vec T

-- Between two rows of rollvar_inplace.
pub record Spread {ℓ} (T : Type ℓ) : Type ℓ where
  pub ring : List T
  pub ring2 : List T
  pub nbv : ℕ
  pub sum : T
  pub sum2 : T
  pub column : Vec T

module _ {ℓ} {T : Type ℓ} (lt : T → T → Bool) (junk : ℕ → T) (num : Number T) where
  open num use {nan, is_nan, zero_value, negative, of_size, add, sub, mul, div}

  -- ring[r & (sz - 1)], where `sz` is a power of two.
  abbrev pub ring_at : ℕ → List T → ℕ → T
  ring_at sz ring r = get_or ring (r % sz) zero_value

  -- A row with the value `x`; `out` is what the ring held.
  unfoldable pub mean_add : ℕ → ℕ → T → Mean T → Mean T
  mean_add sz r x s =
      if is_nan x
      then s
      else record s { ring = set s.ring (r % sz) x; nbv = s.nbv + 1; mean = add s.mean x }

  unfoldable pub mean_drop : ℕ → ℕ → T → Mean T → Mean T
  mean_drop window r out s =
      if leb window r && not (is_nan out)
      then record s { nbv = one_less s.nbv; mean = sub s.mean out }
      else s

  unfoldable pub mean_put : ℕ → ℕ → ℕ → Mean T → Option (Mean T)
  mean_put window nbvalid r s =
      elim (setv lt s.column r (if leb nbvalid s.nbv then div s.mean (of_size window) else nan)) [
        | none ↦ none
        | some w ↦ some (record s { column = w })
      ]

  unfoldable pub mean_step : ℕ → ℕ → ℕ → ℕ → Mean T → Option (Mean T)
  mean_step sz window nbvalid r s = elim (at junk s.column r) [
    | none ↦ none
    | some x ↦
        mean_put window nbvalid r (mean_drop window r (ring_at sz s.ring r) (mean_add sz r x s))
  ]

  -- The rows, `k` of which are left.
  unfoldable pub mean_loop : ℕ → ℕ → ℕ → ℕ → ℕ → Mean T → Option (Mean T)
  mean_loop sz window nbvalid zero r s = some s
  mean_loop sz window nbvalid (suc k) r s = elim (mean_step sz window nbvalid r s) [
    | none ↦ none
    | some s' ↦ mean_loop sz window nbvalid k (suc r) s'
  ]

  -- The columns, which share the ring.
  unfoldable pub mean_columns : ℕ → ℕ → ℕ → ℕ → List T → List (Vec T) → Option (List (Vec T))
  mean_columns sz d window nbvalid ring [] = some []
  mean_columns sz d window nbvalid ring (v ∷ vs) =
      elim (mean_loop sz window nbvalid d 0
        (record { ring = ring; nbv = 0; mean = zero_value; column = v })) [
          | none ↦ none
          | some s ↦ elim (mean_columns sz d window nbvalid s.ring vs) [
            | none ↦ none
            | some ws ↦ some (s.column ∷ ws)
          ]
        ]

  -- `none` also where the ring has no size: the loop that computes it does not end.
  unfoldable pub rollmean_inplace : ℕ → ℕ → Array T → Option (Array T)
  rollmean_inplace window nbvalid a = elim (ring_of window) [
    | none ↦ none
    | some sz ↦ elim a.dim [
      | [] ↦ none
      | d ∷ ds ↦ elim (mean_columns sz d window nbvalid (replicate sz zero_value) a.cols) [
        | none ↦ none
        | some cs ↦ some (record a { cols = cs })
      ]
    ]
  ]

  unfoldable pub var_add : ℕ → ℕ → T → Spread T → Spread T
  var_add sz r x s = if is_nan x then s else record s {
    ring = set s.ring (r % sz) x;
    ring2 = set s.ring2 (r % sz) (mul x x);
    nbv = s.nbv + 1;
    sum = add s.sum x;
    sum2 = add s.sum2 (mul x x);
  }

  unfoldable pub var_drop : ℕ → ℕ → T → T → Spread T → Spread T
  var_drop window r out out2 s =
      if leb window r && not (is_nan out)
      then record s { nbv = one_less s.nbv; sum = sub s.sum out; sum2 = sub s.sum2 out2 }
      else s

  -- The unbiased estimator; a negative one is stored and then replaced.
  abbrev pub var_of : Spread T → T
  var_of s = div (sub s.sum2 (div (mul s.sum s.sum) (of_size s.nbv))) (of_size (one_less s.nbv))

  unfoldable pub var_put : ℕ → ℕ → Spread T → Option (Spread T)
  var_put nbvalid r s = elim (setv lt s.column r (if leb nbvalid s.nbv then var_of s else nan)) [
    | none ↦ none
    | some w ↦
        if leb nbvalid s.nbv && negative (var_of s)
        then (elim (setv lt w r zero_value) [
          | none ↦ none
          | some w' ↦ some (record s { column = w' })
        ])
        else some (record s { column = w })
  ]

  unfoldable pub var_step : ℕ → ℕ → ℕ → ℕ → Spread T → Option (Spread T)
  var_step sz window nbvalid r s = elim (at junk s.column r) [
    | none ↦ none
    | some x ↦
        var_put nbvalid r
          (var_drop window r (ring_at sz s.ring r) (ring_at sz s.ring2 r) (var_add sz r x s))
  ]

  unfoldable pub var_loop : ℕ → ℕ → ℕ → ℕ → ℕ → Spread T → Option (Spread T)
  var_loop sz window nbvalid zero r s = some s
  var_loop sz window nbvalid (suc k) r s = elim (var_step sz window nbvalid r s) [
    | none ↦ none
    | some s' ↦ var_loop sz window nbvalid k (suc r) s'
  ]

  unfoldable pub var_columns :
      ℕ → ℕ → ℕ → ℕ → List T → List T → List (Vec T) → Option (List (Vec T))
  var_columns sz d window nbvalid ring ring2 [] = some []
  var_columns sz d window nbvalid ring ring2 (v ∷ vs) =
      elim (var_loop sz window nbvalid d 0 (record {
        ring = ring;
        ring2 = ring2;
        nbv = 0;
        sum = zero_value;
        sum2 = zero_value;
        column = v;
      })) [
        | none ↦ none
        | some s ↦ elim (var_columns sz d window nbvalid s.ring s.ring2 vs) [
          | none ↦ none
          | some ws ↦ some (s.column ∷ ws)
        ]
      ]

  unfoldable pub rollvar_inplace : ℕ → ℕ → Array T → Option (Array T)
  rollvar_inplace window nbvalid a = elim (ring_of window) [
    | none ↦ none
    | some sz ↦ elim a.dim [
      | [] ↦ none
      | d ∷ ds ↦
          elim (var_columns sz d window nbvalid (replicate sz zero_value) (replicate sz zero_value)
            a.cols) [ none ↦ none | some cs ↦ some (record a { cols = cs }) ]
    ]
  ]
