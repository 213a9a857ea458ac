-- ===== src/ArrayOps/Rotate.antt =====
-- What rotate_inplace and rev_inplace of src/array_ops.hpp make of a column.
use ztsdb.Base.{
  ℕ, zero, suc, ◌+◌, ◌-◌, ◌/◌, ◌^◌, ◌≤◌, ◌<◌, ◌≡◌, refl, ap, subst, ◌∙◌, Bool, true, ◌||◌, ltb, leb,
  ◌==◌, if◌then◌else◌, Option, some, List, [], ◌∷◌, get_or, set, length-set, arith, map,
}
use ztsdb.Base.Int.{ℤ, pos, negsuc}
use ztsdb.Vector.{Vec, size}
use ztsdb.Array.{Array}
use ztsdb.ArrayOps.{
  up, down, rounds_down, then_up, before, after, item, saved, rotate_up, rotate_down, rotate_column,
  rotate_inplace, iter_swap, rev_loop, rev_column, rev_inplace,
}
use ztsdb.ArrayOps.Loops.{at_inside, get_or-set, get_or_eq, Each, are_full, in_place-Each}
use ztsdb.ArrayOps.Shift.{shift_down, shift_up, less_eq, rounds_down_eq, HasRows, abs}

-- Row `j` of a column of `d` rows that is rotated.
abbrev pub rotated : {T : Type 0} → T → ℤ → ℕ → List T → ℕ → T
rotated z (pos n) d xs j = if ltb j n then get_or xs (j + d - n) z else get_or xs (j - n) z
rotated z (negsuc n) d xs j =
    if ltb (j + suc n) d then get_or xs (j + suc n) z else get_or xs (j + suc n - d) z

HasRows-along :
    {T : Type 0} (z : T) (f : List T → ℕ → T) (d : ℕ) (v : Vec T) (o p : Option (Vec T))
    → o ≡ p
    → (w : Vec T) × (p ≡ some w) × HasRows z f d v w
    → (w : Vec T) × (o ≡ some w) × HasRows z f d v w
HasRows-along z f d v o p e (w, q, r) = (w, e ∙ q, r)

module _ {T : Type 0} (lt : T → T → Bool) (junk : ℕ → T) (z : T) where
  saved-item :
      (k from : ℕ) (v : Vec T)
      → from + k ≤ size v
      → size v < 2 ^ 64
      → (xs : List T) × (saved junk k from v ≡ some xs)
        × ((i : ℕ) → i < k → item xs i ≡ some (get_or v.items (from + i) z))
  unfolding saved
  saved-item zero from v h b = ([], refl, λ i l. absurd (omega arith))
  saved-item (suc k) from v h b =
      let (xs, e, r) = saved-item k (from + 1) v (omega arith) b in
      (
        get_or v.items from z ∷ xs,
        ground (arith, e, at_inside junk z v from (omega arith) b),
        λ i l. saved_row k from v xs r i l,
      )
    where
      saved_row :
          (k from : ℕ) (v : Vec T) (xs : List T)
          → ((i : ℕ) → i < k → item xs i ≡ some (get_or v.items (from + 1 + i) z))
          → (i : ℕ) → i < suc k
          → item (get_or v.items from z ∷ xs) i ≡ some (get_or v.items (from + i) z)
      saved_row k from v xs r zero l =
          ap (λ n. some (get_or v.items n z)) {x = from} {y = from + 0} (omega arith)
      saved_row k from v xs r (suc i) l =
          r i (omega arith)
          ∙ ap (λ n. some (get_or v.items n z)) {x = from + 1 + i} {y = from + suc i} (omega arith)

  module _ (d : ℕ) (v : Vec T) (s : size v ≡ d) (b : d < 2 ^ 64) where
    rotate_up-rows :
        (m : ℕ)
        → m ≤ d
        → (w : Vec T) × (rotate_up lt junk m d v ≡ some w)
          × HasRows z
              (λ xs j. if ltb (j + m) d then get_or xs (j + m) z else get_or v.items (j + m - d) z)
              d
              v
              w
    unfolding rotate_up
    rotate_up-rows m h =
        let (xs, e, r) = saved-item m 0 v (omega arith) (omega arith) in
        HasRows-along z
          (λ ys j. if ltb (j + m) d then get_or ys (j + m) z else get_or v.items (j + m - d) z) d v
          (rotate_up lt junk m d v)
          (then_up lt (λ w i. item xs (i - (d - m))) (d - (d - m)) (d - m)
            (up lt (after junk m) (d - m) 0 v))
          (rw (e, less_eq d m h b, rotate_up) refl)
          (shift_up lt z (λ x y. y) (λ j. get_or v.items (j + m - d) z) (after junk m)
            (λ w i. item xs (i - (d - m))) m (d - m) d v
            (λ w i a e. at_inside junk z w (i + m) a (omega arith))
            (λ w i a c.
              r (i - (d - m)) (omega arith)
              ∙ ap (λ n. some (get_or v.items n z)) {x = 0 + (i - (d - m))} {y = i + m - d}
                  (omega arith))
            s (omega arith))

    rotate_column-HasRows :
        (x : T) (n : ℤ)
        → abs n ≤ d
        → (w : Vec T) × (rotate_column lt junk x n d v ≡ some w) × HasRows z (rotated z n d) d v w
    unfolding rotate_column rotate_down
    rotate_column-HasRows x (pos zero) h =
        let (w, e, r) = rotate_up-rows 0 h in
        (
          w,
          e,
          (
            r.0,
            λ j l. ground (
              arith,
              r.1 j l,
              ap (λ i. get_or v.items i z) {x = j + 0} {y = j} (omega arith),
              ap (λ i. get_or v.items i z) {x = j - 0} {y = j} (omega arith),
            ),
          ),
        )
    rotate_column-HasRows x (pos (suc n)) h =
        let (xs, e, r) = saved-item (suc n) (d - suc n) v (omega arith) (omega arith) in
        let c : leb (suc n) d ≡ true = ground arith in
        HasRows-along z (rotated z (pos (suc n)) d) d v (rotate_down lt junk x (suc n) d v)
          (then_up lt (λ w i. item xs i) (suc n) 0
            (down lt (before junk (suc n)) (rounds_down d (suc n)) (suc n) v))
          (rw (c, e, rotate_down) refl)
          (shift_down lt z (λ x y. y) (λ j. get_or v.items (j + d - suc n) z) (before junk (suc n))
            (λ w i. item xs i) (suc n) (rounds_down d (suc n)) d v
            (λ w i a c e. at_inside junk z w (i - suc n) (omega arith) (omega arith))
            (λ w i a.
              r i a
              ∙ ap (λ n. some (get_or v.items n z)) {x = d - suc n + i} {y = i + d - suc n}
                  (omega arith))
            s (rounds_down_eq d (suc n) h b (omega arith)) (omega arith))
    rotate_column-HasRows x (negsuc n) h = rotate_up-rows (suc n) h

  -- For a well-formed array of fewer than 2^64 rows, and a rotation by no more rows than it has, in
  -- either direction: rotate_inplace gives an array of the same dimensions in which each row holds
  -- the one that many rows before it, around the end.
  pub rotate_inplace-rotated :
      (x : T) (n : ℤ) (d : ℕ) (ds : List ℕ) (a : Array T)
      → a.dim ≡ d ∷ ds
      → are_full d a.cols ≡ true
      → d < 2 ^ 64
      → abs n ≤ d
      → (b : Array T) × (rotate_inplace lt junk x n a ≡ some b)
        × (b.dim ≡ a.dim)
        × Each (HasRows z (rotated z n d) d) a.cols b.cols
  unfolding rotate_inplace
  rotate_inplace-rotated x n d ds a e full b h =
      in_place-Each (rotate_column lt junk x n) (HasRows z (rotated z n d) d) d ds a e
        (λ v s. rotate_column-HasRows d v s b x n h) full

-- The rows of a column of `d` rows whose first and last `k` have been swapped.
abbrev swapped : {T : Type 0} → T → ℕ → ℕ → List T → ℕ → T
swapped z d k xs j = if ltb j k || leb (d - k) j then get_or xs (d - 1 - j) z else get_or xs j z

swapped_inside :
    {T : Type 0} (z : T) (d k j : ℕ) (xs : List T)
    → k ≤ j
    → j < d - k
    → swapped z d k xs j ≡ get_or xs j z
swapped_inside z d k j xs h b = ground arith

swapped_row :
    {T : Type 0} {x y u t w a : T} (c : T) (start stop d j : ℕ)
    → start + stop ≡ d
    → start + 1 < stop
    → j < d
    → (stop - 1 ≡ j → x ≡ a)
    → (start ≡ j → y ≡ a)
    → w ≡ (if ltb j start || leb (d - start) j then a else c)
    → u ≡ (if stop - 1 == j then x else t)
    → t ≡ (if start == j then y else w)
    → u ≡ (if ltb j (start + 1) || leb (d - (start + 1)) j then a else c)
swapped_row c start stop d j e h b px py ew eu et = ground (arith, px, py)

-- A column of `d` rows with these elements.
abbrev Holds : {T : Type 0} → T → ℕ → (ℕ → T) → Vec T → Type 0
Holds z d f v = (size v ≡ d) × ((j : ℕ) → j < d → get_or v.items j z ≡ f j)

module _ {T : Type 0} (junk : ℕ → T) (z : T) where
  iter_swap-swapped :
      (start stop d : ℕ) (xs : List T) (v : Vec T)
      → start + stop ≡ d
      → start + 1 < stop
      → Holds z d (swapped z d start xs) v
      → Holds z d (swapped z d (start + 1) xs) (iter_swap junk v start (stop - 1))
  unfolding iter_swap
  iter_swap-swapped start stop d xs v e h r =
      let x = get_or v.items start (junk start) in
      let y = get_or v.items (stop - 1) (junk (stop - 1)) in
      let ex : x ≡ get_or xs start z =
        get_or_eq v.items start (junk start) z (omega (arith, r.0))
        ∙ r.1 start (omega arith)
        ∙ swapped_inside z d start start xs (omega arith) (omega arith) in
      let ey : y ≡ get_or xs (stop - 1) z =
        get_or_eq v.items (stop - 1) (junk (stop - 1)) z (omega (arith, r.0))
        ∙ r.1 (stop - 1) (omega arith)
        ∙ swapped_inside z d start (stop - 1) xs (omega arith) (omega arith) in
      let l = length-set v.items start y in
      (
        length-set (set v.items start y) (stop - 1) x ∙ l ∙ r.0,
        λ j b.
            swapped_row _ start stop d j e h b
              (λ p. ex ∙ ap (λ n. get_or xs n z) {x = start} {y = d - 1 - j} (omega arith))
              (λ p. ey ∙ ap (λ n. get_or xs n z) {x = stop - 1} {y = d - 1 - j} (omega arith))
              (r.1 j b) (get_or-set z (set v.items start y) (stop - 1) j x (omega (arith, r.0, l)))
              (get_or-set z v.items start j y (omega (arith, r.0))),
      )

  rev_loop-swapped :
      (k start stop d : ℕ) (xs : List T) (v : Vec T)
      → start + stop ≡ d
      → start + start + k + k ≤ d
      → Holds z d (swapped z d start xs) v
      → Holds z d (swapped z d (start + k) xs) (rev_loop junk k start stop v)
  unfolding rev_loop
  rev_loop-swapped zero start stop d xs v e h r =
      subst (λ n. Holds z d (swapped z d n xs) v) {x = start} {y = start + 0} (omega arith) r
  rev_loop-swapped (suc k) start stop d xs v e h r =
      subst
        (λ n.
          Holds z d (swapped z d n xs)
            (rev_loop junk k (start + 1) (stop - 1) (iter_swap junk v start (stop - 1))))
        {x = start + 1 + k} {y = start + suc k} (omega arith)
        (rev_loop-swapped k (start + 1) (stop - 1) d xs (iter_swap junk v start (stop - 1))
          (omega arith) (omega arith) (iter_swap-swapped start stop d xs v e (omega arith) r))

  rev_column-HasRows :
      (d : ℕ) (v : Vec T)
      → size v ≡ d
      → HasRows z (λ xs j. get_or xs (d - 1 - j) z) d v (rev_column junk v)
  unfolding rev_column
  rev_column-HasRows d v s =
      let r =
        rev_loop-swapped (size v / 2) 0 (size v) d v.items v (omega arith) (omega arith)
          (s, λ j b. ground arith) in
      (r.0, λ j b. ground (arith, r.1 j b))

  -- rev_inplace gives, of an array whose columns have `d` rows each, one of the same dimensions in
  -- which each row of a column holds the one as far from the end of the old column as it is from
  -- the start.
  pub rev_inplace-reversed :
      (d : ℕ) (a : Array T)
      → are_full d a.cols ≡ true
      → ((rev_inplace junk a).dim ≡ a.dim)
        × Each (HasRows z (λ xs j. get_or xs (d - 1 - j) z) d) a.cols (rev_inplace junk a).cols
  unfolding rev_inplace
  rev_inplace-reversed d a full = (refl, each a.cols full)
    where
      each :
          (vs : List (Vec T))
          → are_full d vs ≡ true
          → Each (HasRows z (λ xs j. get_or xs (d - 1 - j) z) d) vs (map (rev_column junk) vs)
      each [] h = refl
      each (v ∷ vs) h = (rev_column-HasRows d v (ground (arith, h)), each vs (ground (arith, h)))
