-- ===== src/ArrayOps.antt =====
-- src/array_ops.hpp: the operations that rewrite an array in place along its rows: move_inplace,
-- rotate_inplace, diff_inplace, cumul_inplace, rev_inplace and locf_inplace.
-- Each column is a Vector, read by operator[] and written by `setv`, so the flag on its order is that
-- of the source. `none` stands for an exception; the columns before it are rewritten in the source.
-- Elements have a missing value `nan` and the test `is_nan`, std::isnan. A `ssize_t` is an integer
-- that is no less than -2^63, and `n` there is taken to an unsigned number where the source does so.
pub mod Loops
pub mod Shift
pub mod Rotate
pub mod Fold
pub mod Locf
use ztsdb.Base.{
  ℕ, zero, suc, ◌+◌, ◌-◌, ◌/◌, ◌%◌, ◌^◌, Bool, true, false, leb, ltb, if◌then◌else◌, Option, none,
  some, List, [], ◌∷◌, map, get_or, replicate, set,
}
use ztsdb.Base.Int.{ℤ, pos, negsuc}
use ztsdb.Vector.{Vec, size, at, setv}
use ztsdb.Array.{Array}

module _ {ℓ} {T : Type ℓ} (lt : T → T → Bool) where
  -- setv(a.getcol(c), r, value), where the value is read from the column.
  unfoldable pub write : (Vec T → ℕ → Option T) → Vec T → ℕ → Option (Vec T)
  write value v r = elim (value v r) [ none ↦ none | some x ↦ setv lt v r x ]

  -- `for (r = first; ...; ++r)`, with `k` rounds left.
  unfoldable pub up : (Vec T → ℕ → Option T) → ℕ → ℕ → Vec T → Option (Vec T)
  unfolding write
  up value zero r v = some v
  up value (suc k) r v = elim (write value v r) [ none ↦ none | some w ↦ up value k (r + 1) w ]

  -- `for (r = ...; r >= last; --r)`, with `k` rounds left.
  unfoldable pub down : (Vec T → ℕ → Option T) → ℕ → ℕ → Vec T → Option (Vec T)
  unfolding write
  down value zero last v = some v
  down value (suc k) last v = elim (write value v (last + k)) [
    | none ↦ none
    | some w ↦ down value k last w
  ]

  -- A second loop, upwards.
  abbrev pub then_up : (Vec T → ℕ → Option T) → ℕ → ℕ → Option (Vec T) → Option (Vec T)
  then_up value k r o = elim o [ none ↦ none | some v ↦ up value k r v ]

module _ {ℓ} {T : Type ℓ} where
  -- `for (c = 0; c < a.v.size(); c++)`
  unfoldable pub each_column : (Vec T → Option (Vec T)) → List (Vec T) → Option (List (Vec T))
  each_column f [] = some []
  each_column f (v ∷ vs) = elim (f v) [
    | none ↦ none
    | some w ↦ elim (each_column f vs) [ none ↦ none | some ws ↦ some (w ∷ ws) ]
  ]

  abbrev pub constant : T → Vec T → ℕ → Option T
  constant x v r = some x

  abbrev pub combined : (T → T → T) → Option T → Option T → Option T
  combined f none y = none
  combined f (some x) none = none
  combined f (some x) (some y) = some (f x y)

  abbrev pub item : List T → ℕ → Option T
  item [] i = none
  item (x ∷ xs) zero = some x
  item (x ∷ xs) (suc i) = item xs i

  -- The operation on an array, from that on a column of `dim[0]` rows.
  unfoldable pub in_place : (ℕ → Vec T → Option (Vec T)) → Array T → Option (Array T)
  unfolding each_column
  in_place f a = elim a.dim [
    | [] ↦ none
    | d ∷ ds ↦ elim (each_column (f d) a.cols) [
      | none ↦ none
      | some cs ↦ some (record a { cols = cs })
    ]
  ]

module _ {ℓ} {T : Type ℓ} (junk : ℕ → T) where
  -- (*a.v[c])[r - n], and at n = -m.
  abbrev pub before : ℕ → Vec T → ℕ → Option T
  before n v r = at junk v (r - n)

  abbrev pub after : ℕ → Vec T → ℕ → Option T
  after m v r = at junk v (r + m)

  -- The rows from `from` on, `k` of them, one by one into a std::vector: nothing where the column has
  -- no such row.
  unfoldable pub saved : ℕ → ℕ → Vec T → Option (List T)
  unfolding at
  saved zero from v = some []
  saved (suc k) from v = elim (at junk v from) [
    | none ↦ none
    | some x ↦ elim (saved k (from + 1) v) [ none ↦ none | some xs ↦ some (x ∷ xs) ]
  ]

-- The rounds of `for (r = dim[0] - 1; r >= n; --r)`: where there is no row, it starts at 2^64 - 1.
abbrev pub rounds_down : ℕ → ℕ → ℕ
rounds_down d n = (d + 2 ^ 64 - 1) % 2 ^ 64 + 1 - n

-- dim[0] + n, at n = -m.
abbrev pub less : ℕ → ℕ → ℕ
less d m = (d + 2 ^ 64 - m) % 2 ^ 64

module _ {ℓ} {T : Type ℓ} (lt : T → T → Bool) (junk : ℕ → T) where
  module _ (nan : T) where
    -- A column of `d` rows, by `n` rows down, and by `m` rows up.
    unfoldable pub move_down : ℕ → ℕ → Vec T → Option (Vec T)
    unfolding up down
    move_down n d v = then_up lt (constant nan) n 0 (down lt (before junk n) (rounds_down d n) n v)

    unfoldable pub move_up : ℕ → ℕ → Vec T → Option (Vec T)
    unfolding up
    move_up m d v =
        then_up lt (constant nan) (d - less d m) (less d m) (up lt (after junk m) (less d m) 0 v)

    unfoldable pub move_column : ℤ → ℕ → Vec T → Option (Vec T)
    unfolding move_down move_up
    move_column (pos zero) = move_up 0
    move_column (pos (suc n)) = move_down (suc n)
    move_column (negsuc n) = move_up (suc n)

    unfoldable pub move_inplace : ℤ → Array T → Option (Array T)
    unfolding in_place move_column
    move_inplace n a = in_place (move_column n) a

    -- (*a.v[c])[r] - (*a.v[c])[r - n]
    module _ (sub : T → T → T) where
      unfoldable pub diff_down : ℕ → ℕ → Vec T → Option (Vec T)
      unfolding up down
      diff_down n d v =
          then_up lt (constant nan) n 0
            (down lt (λ w r. combined sub (at junk w r) (before junk n w r)) (rounds_down d n) n v)

      unfoldable pub diff_up : ℕ → ℕ → Vec T → Option (Vec T)
      unfolding up
      diff_up m d v =
          then_up lt (constant nan) (d - less d m) (less d m)
            (up lt (λ w r. combined sub (at junk w r) (after junk m w r)) (less d m) 0 v)

      unfoldable pub diff_column : ℤ → ℕ → Vec T → Option (Vec T)
      unfolding diff_down diff_up
      diff_column (pos zero) = diff_up 0
      diff_column (pos (suc n)) = diff_down (suc n)
      diff_column (negsuc n) = diff_up (suc n)

      unfoldable pub diff_inplace : ℤ → Array T → Option (Array T)
      unfolding in_place diff_column
      diff_inplace n a = in_place (diff_column n) a

  -- rotate_inplace. Where `n` exceeds the number of rows, dim[0] - n wraps, its loop copies nothing and
  -- the vector keeps its `n` initial values `x`.
  unfoldable pub rotate_down : T → ℕ → ℕ → Vec T → Option (Vec T)
  unfolding up down saved
  rotate_down x n d v = elim (if leb n d then saved junk n (d - n) v else some (replicate n x)) [
    | none ↦ none
    | some xs ↦ then_up lt (λ w r. item xs r) n 0 (down lt (before junk n) (rounds_down d n) n v)
  ]

  unfoldable pub rotate_up : ℕ → ℕ → Vec T → Option (Vec T)
  unfolding up saved
  rotate_up m d v = elim (saved junk m 0 v) [
    | none ↦ none
    | some xs ↦
        then_up lt (λ w r. item xs (r - less d m)) (d - less d m) (less d m)
          (up lt (after junk m) (less d m) 0 v)
  ]

  unfoldable pub rotate_column : T → ℤ → ℕ → Vec T → Option (Vec T)
  unfolding rotate_down rotate_up
  rotate_column x (pos zero) = rotate_up 0
  rotate_column x (pos (suc n)) = rotate_down x (suc n)
  rotate_column x (negsuc n) = rotate_up (suc n)

  unfoldable pub rotate_inplace : T → ℤ → Array T → Option (Array T)
  unfolding in_place rotate_column
  rotate_inplace x n a = in_place (rotate_column x n) a

  -- cumul_inplace<F>: the loops run over the size of the column.
  unfoldable pub cumul_column : (T → T → T) → Bool → Vec T → Option (Vec T)
  unfolding up down
  cumul_column f false v =
      up lt (λ w r. combined f (at junk w r) (before junk 1 w r)) (size v - 1) 1 v
  cumul_column f true v =
      down lt (λ w r. combined f (at junk w r) (after junk 1 w r)) (rounds_down (size v) 1) 0 v

  unfoldable pub cumul_inplace : (T → T → T) → Bool → Array T → Option (Array T)
  unfolding each_column cumul_column
  cumul_inplace f rev a = elim (each_column (cumul_column f rev) a.cols) [
    | none ↦ none
    | some cs ↦ some (record a { cols = cs })
  ]

module _ {ℓ} {T : Type ℓ} (junk : ℕ → T) where
  -- std::iter_swap of the iterators at `i` and `j`, whose references clear the flag on the order.
  unfoldable pub iter_swap : Vec T → ℕ → ℕ → Vec T
  iter_swap v i j = record v {
    items = set (set v.items i (get_or v.items j (junk j))) j (get_or v.items i (junk i));
    ordered = false;
  }

  -- The loop, with `k` rounds left, `start` and `stop` the positions of the iterators.
  unfoldable pub rev_loop : ℕ → ℕ → ℕ → Vec T → Vec T
  unfolding iter_swap
  rev_loop zero start stop v = v
  rev_loop (suc k) start stop v = rev_loop k (start + 1) (stop - 1) (iter_swap v start (stop - 1))

  unfoldable pub rev_column : Vec T → Vec T
  unfolding rev_loop
  rev_column v = rev_loop (size v / 2) 0 (size v) v

  unfoldable pub rev_inplace : Array T → Array T
  unfolding rev_column
  rev_inplace a = record a { cols = map rev_column a.cols }

-- static_cast<idx_type>(n)
abbrev pub to_unsigned : ℤ → ℕ
to_unsigned (pos n) = n
to_unsigned (negsuc n) = 2 ^ 64 - suc n

-- last_idx, or where it is -1 the row before.
abbrev pub last_or : Option ℕ → ℕ → ℕ
last_or none r = r - 1
last_or (some l) r = l

module _ {ℓ} {T : Type ℓ} (lt : T → T → Bool) (junk : ℕ → T) (is_nan : T → Bool) (nan : T) where
  -- The row `r` is NaN: the row before it is repeated, as long as the last row with a value is no more
  -- than `n` rows away.
  abbrev pub filled_from : ℕ → ℕ → Vec T → ℕ → Option T
  filled_from n l v r = if leb (r - l) n then at junk v (r - 1) else some nan

  -- The loop over the rows, `k` of which are left; `last` is last_idx where it is not -1.
  unfoldable pub locf_loop : ℕ → ℕ → ℕ → Option ℕ → Vec T → Option (Vec T)
  locf_loop n zero r last v = some v
  locf_loop n (suc k) r last v = elim (at junk v r) [
    | none ↦ none
    | some x ↦ elim (is_nan x) [
      | false ↦ locf_loop n k (r + 1) none v
      | true ↦ elim (write lt (filled_from n (last_or last r)) v r) [
        | none ↦ none
        | some w ↦ locf_loop n k (r + 1) (some (last_or last r)) w
      ]
    ]
  ]

  unfoldable pub locf_inplace : ℤ → Array T → Option (Array T)
  unfolding in_place locf_loop
  locf_inplace n a = in_place (λ d v. locf_loop (to_unsigned n) (d - 1) 1 none v) a
