-- ===== src/ArrayOps/Shift.antt =====
-- What move_inplace, diff_inplace and rotate_inplace of src/array_ops.hpp make of a column.
use ztsdb.Base.{
  ℕ, zero, suc, ◌+◌, ◌-◌, ◌^◌, ◌≤◌, ◌<◌, ◌≡◌, refl, ap, ◌∙◌, Bool, ◌&&◌, ltb, leb, if◌then◌else◌,
  Option, some, true, List, ◌∷◌, get_or, arith,
}
use ztsdb.Base.Int.{ℤ, pos, negsuc}
use ztsdb.Vector.{Vec, size, at}
use ztsdb.Array.{Array}
use ztsdb.ArrayOps.{
  up, down, rounds_down, less, then_up, before, after, constant, combined, move_up, move_down,
  move_column, move_inplace, diff_up, diff_down, diff_column, diff_inplace,
}
use ztsdb.ArrayOps.Loops.{
  up-Rewritten, down-Rewritten, Rewritten-none, at_inside, Each, are_full, in_place-Each,
}

pub less_eq : (d m : ℕ) → m ≤ d → d < 2 ^ 64 → less d m ≡ d - m
less_eq d m h b = omega arith

pub rounds_down_eq : (d n : ℕ) → n ≤ d → d < 2 ^ 64 → 0 < n → n + rounds_down d n ≡ d
rounds_down_eq d n h b p = omega arith

two_phases :
    {T : Type 0} {u w : T} (x y f : T) (k m d j : ℕ)
    → k + m ≡ d
    → j < d
    → u ≡ (if leb k j && ltb j d then f else w)
    → w ≡ (if leb 0 j && ltb j k then x else y)
    → u ≡ (if ltb (j + m) d then x else f)
two_phases x y f k m d j h b q r = ground arith

-- A column of the same number of rows, with these elements.
abbrev pub HasRows : {T : Type 0} → T → (List T → ℕ → T) → ℕ → Vec T → Vec T → Type 0
HasRows z f d v w = (size w ≡ d) × ((j : ℕ) → j < d → get_or w.items j z ≡ f v.items j)

module _ {T : Type 0} (lt : T → T → Bool) (z : T) (g : T → T → T) (fill : ℕ → T) where
  -- Downwards by `n` rows, and the first `n` filled.
  pub shift_down :
      (value fills : Vec T → ℕ → Option T) (n k d : ℕ) (v : Vec T)
      → ((w : Vec T) (i : ℕ)
          → n ≤ i
          → i < size w
          → size w ≡ d
          → value w i ≡ some (g (get_or w.items i z) (get_or w.items (i - n) z)))
      → ((w : Vec T) (i : ℕ) → i < n → fills w i ≡ some (fill i))
      → size v ≡ d
      → n + k ≡ d
      → 0 < n
      → (w : Vec T) × (then_up lt fills n 0 (down lt value k n v) ≡ some w)
        × HasRows z
            (λ xs j. if ltb j n then fill j else g (get_or xs j z) (get_or xs (j - n) z))
            d
            v
            w
  shift_down value fills n k d v vals fs s h p =
      let xs = v.items in
      let target = λ (j : ℕ). g (get_or xs j z) (get_or xs (j - n) z) in
      let (w, e, r) =
        down-Rewritten lt z xs target value n d k v
          (λ u i a b done.
            vals u i a (omega (arith, done.0)) (omega (arith, done.0))
            ∙ ap (λ t. some t) (ground (arith, done.1 i, done.1 (i - n))))
          (omega arith) (omega arith) (refl, λ j. ground (arith, h)) in
      let (u, f, q) =
        up-Rewritten lt z w.items fill fills 0 n n 0 w (λ t i a b done. fs t i b) (omega arith)
          (omega arith) (omega (arith, r.0)) (Rewritten-none lt z w.items fill 0 w refl) in
      (
        u,
        ap (then_up lt fills n 0) e ∙ f,
        (omega (arith, q.0, r.0), λ j b. ground (arith, q.1 j, r.1 j)),
      )

  -- Upwards by `m` rows, the `k` rows that remain, and the last filled.
  pub shift_up :
      (value fills : Vec T → ℕ → Option T) (m k d : ℕ) (v : Vec T)
      → ((w : Vec T) (i : ℕ)
          → i + m < size w
          → size w ≡ d
          → value w i ≡ some (g (get_or w.items i z) (get_or w.items (i + m) z)))
      → ((w : Vec T) (i : ℕ) → k ≤ i → i < d → fills w i ≡ some (fill i))
      → size v ≡ d
      → k + m ≡ d
      → (w : Vec T) × (then_up lt fills (d - k) k (up lt value k 0 v) ≡ some w)
        × HasRows z
            (λ xs j. if ltb (j + m) d then g (get_or xs j z) (get_or xs (j + m) z) else fill j)
            d
            v
            w
  shift_up value fills m k d v vals fs s h =
      let xs = v.items in
      let target = λ (j : ℕ). g (get_or xs j z) (get_or xs (j + m) z) in
      let (w, e, r) =
        up-Rewritten lt z xs target value 0 k k 0 v
          (λ u i a b done.
            vals u i (omega (arith, done.0)) (omega (arith, done.0))
            ∙ ap (λ t. some t) (ground (arith, done.1 i, done.1 (i + m))))
          (omega arith) (omega arith) (omega arith) (refl, λ j. ground arith) in
      let (u, f, q) =
        up-Rewritten lt z w.items fill fills k d (d - k) k w (λ t i a b done. fs t i a b)
          (omega arith) (omega arith) (omega (arith, r.0))
          (Rewritten-none lt z w.items fill k w refl) in
      (
        u,
        ap (then_up lt fills (d - k) k) e ∙ f,
        (omega (arith, q.0, r.0), λ j b. two_phases _ _ _ k m d j h b (q.1 j) (r.1 j)),
      )

abbrev pub abs : ℤ → ℕ
abs (pos n) = n
abs (negsuc n) = suc n

-- The element of row `j` of a column of `d` rows, where the operation combines it with the row `n`
-- rows before (or after) by `g`, and `z` stands where there is no such row.
abbrev pub shifted : {T : Type 0} → T → (T → T → T) → ℤ → ℕ → List T → ℕ → T
shifted z g (pos n) d xs j = if ltb j n then z else g (get_or xs j z) (get_or xs (j - n) z)
shifted z g (negsuc n) d xs j =
    if ltb (j + suc n) d then g (get_or xs j z) (get_or xs (j + suc n) z) else z

-- Upwards by nothing is downwards by nothing.
HasRows-zero :
    {T : Type 0} (z : T) (g : T → T → T) (d : ℕ) (v w : Vec T)
    → HasRows z (λ xs j. if ltb (j + 0) d then g (get_or xs j z) (get_or xs (j + 0) z) else z) d v w
    → HasRows z (shifted z g (pos 0) d) d v w
HasRows-zero z g d v w r = (
  r.0,
  λ j b. ground (
    arith,
    r.1 j b,
    ap (λ i. get_or v.items i z) {x = j + 0} {y = j} (omega arith),
    ap (λ i. get_or v.items i z) {x = j - 0} {y = j} (omega arith),
  ),
)

module _ {T : Type 0} (lt : T → T → Bool) (junk : ℕ → T) (nan : T) where
  -- The passes by `n` rows, where each value is read within the column.
  module _ (g : T → T → T) (d : ℕ) (v : Vec T) (s : size v ≡ d) (b : d < 2 ^ 64) where
    pass_up :
        (value : Vec T → ℕ → Option T) (m : ℕ)
        → m ≤ d
        → ((w : Vec T) (i : ℕ)
            → i + m < size w
            → size w ≡ d
            → value w i ≡ some (g (get_or w.items i nan) (get_or w.items (i + m) nan)))
        → (w : Vec T) × (then_up lt
              (constant nan)
              (d - less d m)
              (less d m)
              (up lt value (less d m) 0 v)
            ≡ some w)
          × HasRows nan
              (λ xs j. if ltb (j + m) d then g (get_or xs j nan) (get_or xs (j + m) nan) else nan)
              d
              v
              w
    pass_up value m h vals = rw (less_eq d m h b) (
        shift_up lt nan g (λ j. nan) value (constant nan) m (d - m) d v vals (λ w i a c. refl) s
          (omega arith))

    pass_down :
        (value : Vec T → ℕ → Option T) (n : ℕ)
        → suc n ≤ d
        → ((w : Vec T) (i : ℕ)
            → suc n ≤ i
            → i < size w
            → size w ≡ d
            → value w i ≡ some (g (get_or w.items i nan) (get_or w.items (i - suc n) nan)))
        → (w : Vec T) × (then_up lt
              (constant nan)
              (suc n)
              0
              (down lt value (rounds_down d (suc n)) (suc n) v)
            ≡ some w)
          × HasRows nan (shifted nan g (pos (suc n)) d) d v w
    pass_down value n h vals =
        shift_down lt nan g (λ j. nan) value (constant nan) (suc n) (rounds_down d (suc n)) d v vals
          (λ w i a. refl) s (rounds_down_eq d (suc n) h b (omega arith)) (omega arith)

  pub combined_at :
      (g : T → T → T) (w : Vec T) (i j : ℕ)
      → i < size w
      → j < size w
      → size w < 2 ^ 64
      → combined g (at junk w i) (at junk w j)
        ≡ some (g (get_or w.items i nan) (get_or w.items j nan))
  combined_at g w i j h k b = rw (at_inside junk nan w i h b, at_inside junk nan w j k b) refl

  module _ (d : ℕ) (v : Vec T) (s : size v ≡ d) (b : d < 2 ^ 64) where
    move_column-HasRows :
        (n : ℤ)
        → abs n ≤ d
        → (w : Vec T) × (move_column lt junk nan n d v ≡ some w)
          × HasRows nan (shifted nan (λ x y. y) n d) d v w
    unfolding move_column move_down move_up
    move_column-HasRows (pos zero) h =
        let (w, e, r) =
          pass_up (λ x y. y) d v s b (after junk 0) 0 h
            (λ w i a e. at_inside junk nan w (i + 0) a (omega arith)) in
        (w, e, HasRows-zero nan (λ x y. y) d v w r)
    move_column-HasRows (pos (suc n)) h =
        pass_down (λ x y. y) d v s b (before junk (suc n)) n h
          (λ w i a c e. at_inside junk nan w (i - suc n) (omega arith) (omega arith))
    move_column-HasRows (negsuc n) h =
        pass_up (λ x y. y) d v s b (after junk (suc n)) (suc n) h
          (λ w i a e. at_inside junk nan w (i + suc n) a (omega arith))

    diff_column-HasRows :
        (sub : T → T → T) (n : ℤ)
        → abs n ≤ d
        → (w : Vec T) × (diff_column lt junk nan sub n d v ≡ some w)
          × HasRows nan (shifted nan sub n d) d v w
    unfolding diff_column diff_down diff_up
    diff_column-HasRows sub (pos zero) h =
        let (w, e, r) =
          pass_up sub d v s b (λ u i. combined sub (at junk u i) (after junk 0 u i)) 0 h
            (λ w i a e. combined_at sub w i (i + 0) (omega arith) a (omega arith)) in
        (w, e, HasRows-zero nan sub d v w r)
    diff_column-HasRows sub (pos (suc n)) h =
        pass_down sub d v s b (λ u i. combined sub (at junk u i) (before junk (suc n) u i)) n h
          (λ w i a c e. combined_at sub w i (i - suc n) c (omega arith) (omega arith))
    diff_column-HasRows sub (negsuc n) h =
        pass_up sub d v s b (λ u i. combined sub (at junk u i) (after junk (suc n) u i)) (suc n) h
          (λ w i a e. combined_at sub w i (i + suc n) (omega arith) a (omega arith))

  module _ (n : ℤ) (d : ℕ) (ds : List ℕ) (a : Array T) (e : a.dim ≡ d ∷ ds) where
    -- For a well-formed array of fewer than 2^64 rows, and a shift by no more rows than it has, in
    -- either direction: move_inplace gives an array of the same dimensions in which each row holds
    -- the one that many rows before it, and NaN where there is no such row.
    pub move_inplace-shifted :
        are_full d a.cols ≡ true
        → d < 2 ^ 64
        → abs n ≤ d
        → (b : Array T) × (move_inplace lt junk nan n a ≡ some b)
          × (b.dim ≡ a.dim)
          × Each (HasRows nan (shifted nan (λ x y. y) n d) d) a.cols b.cols
    unfolding move_inplace
    move_inplace-shifted full b h =
        in_place-Each (move_column lt junk nan n) (HasRows nan (shifted nan (λ x y. y) n d) d) d ds
          a e (λ v s. move_column-HasRows d v s b n h) full

    -- For a well-formed array of fewer than 2^64 rows, and a shift by no more rows than it has, in
    -- either direction: diff_inplace gives an array of the same dimensions in which each row holds
    -- its value less that of the row that many rows before, and NaN where there is no such row.
    pub diff_inplace-shifted :
        (sub : T → T → T)
        → are_full d a.cols ≡ true
        → d < 2 ^ 64
        → abs n ≤ d
        → (b : Array T) × (diff_inplace lt junk nan sub n a ≡ some b)
          × (b.dim ≡ a.dim)
          × Each (HasRows nan (shifted nan sub n d) d) a.cols b.cols
    unfolding diff_inplace
    diff_inplace-shifted sub full b h =
        in_place-Each (diff_column lt junk nan sub n) (HasRows nan (shifted nan sub n d) d) d ds a e
          (λ v s. diff_column-HasRows d v s b sub n h) full
