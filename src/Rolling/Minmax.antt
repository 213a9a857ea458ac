-- ===== src/Rolling/Minmax.antt =====
-- rollmin_inplace and rollmax_inplace of src/array_ops.hpp on arrays without NaN.
use ztsdb.Base.{
  ℕ, zero, suc, ◌^◌, ◌≤◌, ◌<◌, ◌≡◌, refl, Bool, true, false, not, all, ◌⊎◌, some, List, [], ◌∷◌,
  length, get_or, arith,
}
use ztsdb.Vector.{Vec, size}
use ztsdb.Array.{Array}
use ztsdb.ArrayOps.Loops.{Each, are_full}
use ztsdb.Rolling.{roll_columns, roll_inplace, rollmin_inplace, rollmax_inplace}
use ztsdb.Rolling.Extreme.{BestOf, roll_loop-BestOf}

-- No column has a NaN.
abbrev pub no_nan : {T : Type 0} → (T → Bool) → List (Vec T) → Bool
no_nan is_nan vs = all (λ v. all (λ x. not (is_nan x)) v.items) vs

-- Of two values that are not NaN, one is no better than the other.
abbrev pub IsTotalOn : {T : Type 0} → (T → T → Bool) → (T → Bool) → Type 0
IsTotalOn {T} worse is_nan =
    (x y : T) → is_nan x ≡ false → is_nan y ≡ false → (worse x y ≡ true) ⊎ (worse y x ≡ true)

-- Every row of the new column is the best of its window of the old one.
abbrev pub Windowed : {T : Type 0} → (T → T → Bool) → T → ℕ → ℕ → ℕ → Vec T → Vec T → Type 0
Windowed worse nan d window nbvalid v w =
    (size w ≡ d)
    × ((r : ℕ)
        → r < d
        → BestOf worse nan window nbvalid (λ j. get_or v.items j nan) r (get_or w.items r nan))

all-get_or :
    {T : Type 0} (is_nan : T → Bool) (nan : T) (xs : List T) (j : ℕ)
    → all (λ x. not (is_nan x)) xs ≡ true
    → j < length xs
    → is_nan (get_or xs j nan) ≡ false
all-get_or is_nan nan [] j h l = absurd (omega arith)
all-get_or is_nan nan (x ∷ xs) zero h l = ground arith
all-get_or is_nan nan (x ∷ xs) (suc j) h l =
    all-get_or is_nan nan xs j (ground (arith, h)) (omega arith)

module _ {T : Type 0} (lt worse : T → T → Bool) (junk : ℕ → T) (is_nan : T → Bool) (nan : T)
    (total : IsTotalOn worse is_nan)
    (trans : (x y w : T) → worse x y ≡ true → worse y w ≡ true → worse x w ≡ true)
    (d window nbvalid : ℕ) (bound : d < 2 ^ 64) (some_row : 0 < window)
    (valid : nbvalid ≤ window) where
  roll_columns-Windowed :
      (buf : List (T × ℕ)) (vs : List (Vec T))
      → length buf ≡ d
      → are_full d vs ≡ true
      → no_nan is_nan vs ≡ true
      → (ws : List (Vec T)) × (roll_columns lt worse junk is_nan nan d window nbvalid buf vs
          ≡ some ws)
        × Each (Windowed worse nan d window nbvalid) vs ws
  unfolding roll_columns
  roll_columns-Windowed buf [] l f h = ([], refl, refl)
  roll_columns-Windowed buf (v ∷ vs) l f h =
      let full : size v ≡ d = ground (arith, f) in
      let valued : (j : ℕ) → j < d → is_nan (get_or v.items j nan) ≡ false =
        λ j a. all-get_or is_nan nan v.items j (ground (arith, h)) (omega (arith, full)) in
      let (s, e, b, n, best) =
        roll_loop-BestOf lt worse junk is_nan nan d window nbvalid (λ j. get_or v.items j nan)
          (λ i j a b. total (get_or v.items i nan) (get_or v.items j nan) (valued i a) (valued j b))
          trans bound some_row valid buf v l full (λ j. refl) valued in
      let (ws, es, r) =
        roll_columns-Windowed s.buffer vs b (ground (arith, f)) (ground (arith, h)) in
      (s.column ∷ ws, rw (e, es, roll_columns) refl, ((n, best), r))

  roll_inplace-Windowed :
      (buf : ℕ → List (T × ℕ)) (ds : List ℕ) (a : Array T)
      → length (buf d) ≡ d
      → a.dim ≡ d ∷ ds
      → are_full d a.cols ≡ true
      → no_nan is_nan a.cols ≡ true
      → (b : Array T) × (roll_inplace lt worse junk is_nan nan buf window nbvalid a ≡ some b)
        × (b.dim ≡ a.dim)
        × Each (Windowed worse nan d window nbvalid) a.cols b.cols
  unfolding roll_inplace
  roll_inplace-Windowed buf ds a l e f h =
      let (ws, es, r) = roll_columns-Windowed (buf d) a.cols l f h in
      (record a { cols = ws }, ground (arith, e, es), refl, r)

module _ {T : Type 0} (lt le : T → T → Bool) (junk : ℕ → T) (is_nan : T → Bool) (nan : T) where
  rollmin_inplace-Windowed :
      (d window nbvalid : ℕ) (buf : ℕ → List (T × ℕ)) (ds : List ℕ) (a : Array T)
      → IsTotalOn le is_nan
      → ((x y w : T) → le x y ≡ true → le y w ≡ true → le x w ≡ true)
      → d < 2 ^ 64
      → 0 < window
      → nbvalid ≤ window
      → length (buf d) ≡ d
      → a.dim ≡ d ∷ ds
      → are_full d a.cols ≡ true
      → no_nan is_nan a.cols ≡ true
      → (b : Array T) × (rollmin_inplace lt le junk is_nan nan buf window nbvalid a ≡ some b)
        × (b.dim ≡ a.dim)
        × Each (Windowed (λ x y. le y x) nan d window nbvalid) a.cols b.cols
  unfolding rollmin_inplace
  rollmin_inplace-Windowed d window nbvalid buf ds a total trans bound w v =
      roll_inplace-Windowed lt (λ x y. le y x) junk is_nan nan (λ x y p q. total y x q p)
        (λ x y z p q. trans z y x q p) d window nbvalid bound w v buf ds a

  rollmax_inplace-Windowed :
      (d window nbvalid : ℕ) (buf : ℕ → List (T × ℕ)) (ds : List ℕ) (a : Array T)
      → IsTotalOn le is_nan
      → ((x y w : T) → le x y ≡ true → le y w ≡ true → le x w ≡ true)
      → d < 2 ^ 64
      → 0 < window
      → nbvalid ≤ window
      → length (buf d) ≡ d
      → a.dim ≡ d ∷ ds
      → are_full d a.cols ≡ true
      → no_nan is_nan a.cols ≡ true
      → (b : Array T) × (rollmax_inplace lt le junk is_nan nan buf window nbvalid a ≡ some b)
        × (b.dim ≡ a.dim)
        × Each (Windowed le nan d window nbvalid) a.cols b.cols
  unfolding rollmax_inplace
  rollmax_inplace-Windowed d window nbvalid buf ds a total trans bound w v =
      roll_inplace-Windowed lt le junk is_nan nan total trans d window nbvalid bound w v buf ds a

-- For elements with a transitive order, of which any two values other than NaN are comparable, in a
-- well-formed array of fewer than 2^64 rows and without NaN, a buffer of as many elements as rows,
-- and a window of at least one row and of at least `nbvalid`: rollmin_inplace and rollmax_inplace
-- give an array of the same dimensions, and in each column at every row NaN as long as there are
-- fewer than `nbvalid` rows, and then the least (the greatest) of the values of the last `window`
-- rows.
pub rollmin-rollmax :
    {T : Type 0} (lt le : T → T → Bool) (junk : ℕ → T) (is_nan : T → Bool) (nan : T)
    (d window nbvalid : ℕ) (buf : ℕ → List (T × ℕ)) (ds : List ℕ) (a : Array T)
    → IsTotalOn le is_nan
    → ((x y w : T) → le x y ≡ true → le y w ≡ true → le x w ≡ true)
    → d < 2 ^ 64
    → 0 < window
    → nbvalid ≤ window
    → length (buf d) ≡ d
    → a.dim ≡ d ∷ ds
    → are_full d a.cols ≡ true
    → no_nan is_nan a.cols ≡ true
    → ((b : Array T) × (rollmin_inplace lt le junk is_nan nan buf window nbvalid a ≡ some b)
        × (b.dim ≡ a.dim)
        × Each (Windowed (λ x y. le y x) nan d window nbvalid) a.cols b.cols)
      × ((b : Array T) × (rollmax_inplace lt le junk is_nan nan buf window nbvalid a ≡ some b)
          × (b.dim ≡ a.dim)
          × Each (Windowed le nan d window nbvalid) a.cols b.cols)
rollmin-rollmax lt le junk is_nan nan d window nbvalid buf ds a total trans bound w v l e f h = (
  rollmin_inplace-Windowed lt le junk is_nan nan d window nbvalid buf ds a total trans bound w v l e
      f h,
  rollmax_inplace-Windowed lt le junk is_nan nan d window nbvalid buf ds a total trans bound w v l e
      f h,
)
