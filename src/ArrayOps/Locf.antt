-- ===== src/ArrayOps/Locf.antt =====
-- What locf_inplace of src/array_ops.hpp makes of a column: the last value is carried over NaNs.
use ztsdb.Base.{
  ℕ, zero, suc, ◌+◌, ◌-◌, ◌^◌, ◌≤◌, ◌<◌, ◌≡◌, refl, ap, sym, ◌∙◌, subst, Bool, true, false, ltb,
  leb, ◌&&◌, if◌then◌else◌, Bool-cases, inl, inr, Option, none, some, List, ◌∷◌, length, get_or,
  arith,
}
use ztsdb.Base.Int.{ℤ}
use ztsdb.Vector.{Vec, size, at}
use ztsdb.Array.{Array}
use ztsdb.ArrayOps.{filled_from, last_or, locf_loop, to_unsigned, locf_inplace, write}
use ztsdb.ArrayOps.Loops.{Rewritten, write_step, at_inside, Each, are_full, in_place-Each}
use ztsdb.ArrayOps.Shift.{HasRows}

module _ {T : Type 0} (is_nan : T → Bool) (nan : T) (n : ℕ) where
  -- The number of rows since the last value, or since the first row.
  abbrev pub since : List T → ℕ → ℕ
  since xs zero = 0
  since xs (suc j) = if is_nan (get_or xs (suc j) nan) then since xs j + 1 else 0

  -- Row `j` of a column whose values are carried over `n` rows at most.
  abbrev pub carried : List T → ℕ → T
  carried xs j = if leb (since xs j) n then get_or xs (j - since xs j) nan else nan

  since-le : (xs : List T) (j : ℕ) → since xs j ≤ j
  since-le xs zero = omega arith
  since-le xs (suc j) = ground (arith, since-le xs j)

  carried_value :
      (xs : List T) (j : ℕ)
      → is_nan (get_or xs (suc j) nan) ≡ false
      → carried xs (suc j) ≡ get_or xs (suc j) nan
  carried_value xs j e =
      ground (arith, ap (λ i. get_or xs i nan) {x = suc j - 0} {y = suc j} (omega arith))

  -- A NaN is filled with what stands before it.
  carried_nan :
      (xs : List T) (j : ℕ)
      → is_nan (get_or xs (suc j) nan) ≡ true
      → carried xs (suc j) ≡ (if leb (since xs j + 1) n then carried xs j else nan)
  carried_nan xs j e = ground (
    arith,
    since-le xs j,
    ap (λ i. get_or xs i nan) {x = suc j - (since xs j + 1)} {y = j - since xs j} (omega arith),
  )

  filled_eq :
      {o : Option T} (x y : T) (m m' : ℕ)
      → o ≡ some x
      → m' ≡ m
      → y ≡ (if leb m n then x else nan)
      → (if leb m' n then o else some nan) ≡ some y
  filled_eq x y m m' a e f = ground arith

  carried_before :
      (xs : List T) (j : ℕ) (v : Vec T)
      → Rewritten nan xs (carried xs) 0 (suc j) v
      → get_or v.items j nan ≡ carried xs j
  carried_before xs j v r = before_eq _ _ (r.1 j)
    where
      before_eq : {x : T} (y z : T) → x ≡ (if leb 0 j && ltb j (suc j) then y else z) → x ≡ y
      before_eq y z h = ground arith

  carried_row :
      (xs : List T) (j : ℕ)
      → is_nan (get_or xs (suc j) nan) ≡ false
      → (i : ℕ) → suc j ≡ i
      → get_or xs i nan ≡ carried xs i
  carried_row xs j t i e =
      subst (λ m. get_or xs m nan ≡ carried xs m) e (sym (carried_value xs j t))

  kept_row :
      {x y z : T} (j i : ℕ)
      → x ≡ (if leb 0 i && ltb i (suc j) then y else z)
      → (suc j ≡ i → z ≡ y)
      → x ≡ (if leb 0 i && ltb i (suc (suc j)) then y else z)
  kept_row j i h e = ground (arith, e)

  first_row :
      (v : Vec T) (j : ℕ)
      → get_or v.items j nan
        ≡ (if leb 0 j && ltb j 1 then carried v.items j else get_or v.items j nan)
  first_row v zero = ground arith
  first_row v (suc j) = ground arith

  last_row : {x : T} (y z : T) (d j : ℕ) → j < d → x ≡ (if leb 0 j && ltb j d then y else z) → x ≡ y
  last_row y z d j h e = ground arith

  module _ (lt : T → T → Bool) (junk : ℕ → T) where
    filled_from-carried :
        (xs : List T) (j l : ℕ) (v : Vec T)
        → Rewritten nan xs (carried xs) 0 (suc j) v
        → suc j < length xs
        → length xs < 2 ^ 64
        → l ≡ j - since xs j
        → is_nan (get_or xs (suc j) nan) ≡ true
        → filled_from lt junk is_nan nan n l v (suc j) ≡ some (carried xs (suc j))
    filled_from-carried xs j l v r h b e t =
        let a = at_inside junk nan v (suc j - 1) (omega (arith, r.0)) (omega (arith, r.0)) in
        let g : get_or v.items (suc j - 1) nan ≡ carried xs j =
          ap (λ i. get_or v.items i nan) {x = suc j - 1} {y = j} (omega arith)
          ∙ carried_before xs j v r in
        let c : suc j - l ≡ since xs j + 1 = omega (arith, since-le xs j, e) in
        filled_eq (carried xs j) (carried xs (suc j)) (since xs j + 1) (suc j - l)
          (a ∙ ap (λ x. some x) g) c (carried_nan xs j t)

    locf_value :
        (k j : ℕ) (last : Option ℕ) (v : Vec T) (x : T)
        → at junk v (suc j) ≡ some x
        → is_nan x ≡ false
        → locf_loop lt junk is_nan nan n (suc k) (suc j) last v
          ≡ locf_loop lt junk is_nan nan n k (suc (suc j)) none v
    unfolding locf_loop
    locf_value k j last v x e t =
        rw (e, locf_loop)
          (rw t (ap (λ r. locf_loop lt junk is_nan nan n k r none v) {x = suc j + 1} (omega arith)))

    locf_nan :
        (k j : ℕ) (last : Option ℕ) (v w : Vec T) (x : T)
        → at junk v (suc j) ≡ some x
        → is_nan x ≡ true
        → write lt (filled_from lt junk is_nan nan n (last_or last (suc j))) v (suc j) ≡ some w
        → locf_loop lt junk is_nan nan n (suc k) (suc j) last v
          ≡ locf_loop lt junk is_nan nan n k (suc (suc j)) (some (last_or last (suc j))) w
    unfolding locf_loop
    locf_nan k j last v w x e t h =
        rw (e, locf_loop)
          (rw t (
            rw h (
              ap (λ r. locf_loop lt junk is_nan nan n k r (some (last_or last (suc j))) w)
                {x = suc j + 1} (omega arith))))

    locf_loop-carried :
        (k j : ℕ) (last : Option ℕ) (xs : List T) (v : Vec T)
        → Rewritten nan xs (carried xs) 0 (suc j) v
        → suc j + k ≡ length xs
        → length xs < 2 ^ 64
        → last_or last (suc j) ≡ j - since xs j
        → (w : Vec T) × (locf_loop lt junk is_nan nan n k (suc j) last v ≡ some w)
          × Rewritten nan xs (carried xs) 0 (length xs) w
    unfolding locf_loop
    locf_loop-carried zero j last xs v r h b e =
        (v, refl, subst (λ m. Rewritten nan xs (carried xs) 0 m v) (omega arith) r)
    locf_loop-carried (suc k) j last xs v r h b e =
        let a = at_inside junk nan v (suc j) (omega (arith, r.0)) (omega (arith, r.0)) in
        let g : get_or v.items (suc j) nan ≡ get_or xs (suc j) nan = ground (arith, r.1 (suc j)) in
        let c = a ∙ ap (λ x. some x) g in
        elim (Bool-cases (is_nan (get_or xs (suc j) nan))) [
          | inl t ↦
              let (w, s, q) =
                write_step lt nan xs (carried xs)
                  (filled_from lt junk is_nan nan n (last_or last (suc j))) v (suc j) 0 (suc j) 0
                  (suc (suc j)) r
                  (filled_from-carried xs j (last_or last (suc j)) v r (omega arith) b e t)
                  (omega arith) (λ i. ground arith) in
              let (u, f, o) =
                locf_loop-carried k (suc j) (some (last_or last (suc j))) xs w q (omega arith) b
                  (ground (arith, since-le xs j)) in
              (u, locf_nan k j last v w _ c t s ∙ f, o)
          | inr t ↦
              let q : Rewritten nan xs (carried xs) 0 (suc (suc j)) v =
                (r.0, λ i. kept_row j i (r.1 i) (carried_row xs j t i)) in
              let (u, f, o) =
                locf_loop-carried k (suc j) none xs v q (omega arith) b (ground arith) in
              (u, locf_value k j last v _ c t ∙ f, o)
        ]

    pub locf_column-HasRows :
        (d : ℕ) (v : Vec T)
        → size v ≡ d
        → 0 < d
        → d < 2 ^ 64
        → (w : Vec T) × (locf_loop lt junk is_nan nan n (d - 1) 1 none v ≡ some w)
          × HasRows nan carried d v w
    locf_column-HasRows d v s p b =
        let (w, e, r) =
          locf_loop-carried (d - 1) 0 none v.items v (refl, λ j. first_row v j) (omega arith)
            (omega arith) (omega arith) in
        (w, e, (r.0 ∙ s, λ j c. last_row _ _ (size v) j (omega arith) (r.1 j)))

-- For a well-formed array of fewer than 2^64 rows, and at least one: locf_inplace gives an array of
-- the same dimensions in which each row holds the value of the last row up to it that is not NaN
-- (or of the first row), if that is no more than `n` rows before, and NaN otherwise.
pub locf_inplace-carried :
    {T : Type 0} (lt : T → T → Bool) (junk : ℕ → T) (is_nan : T → Bool) (nan : T) (n : ℤ) (d : ℕ)
    (ds : List ℕ) (a : Array T)
    → a.dim ≡ d ∷ ds
    → are_full d a.cols ≡ true
    → 0 < d
    → d < 2 ^ 64
    → (b : Array T) × (locf_inplace lt junk is_nan nan n a ≡ some b)
      × (b.dim ≡ a.dim)
      × Each (HasRows nan (carried is_nan nan (to_unsigned n)) d) a.cols b.cols
unfolding locf_inplace
locf_inplace-carried lt junk is_nan nan n d ds a e full p b =
    in_place-Each (λ r v. locf_loop lt junk is_nan nan (to_unsigned n) (r - 1) 1 none v)
      (HasRows nan (carried is_nan nan (to_unsigned n)) d) d ds a e
      (λ v s. locf_column-HasRows is_nan nan (to_unsigned n) lt junk d v s p b) full
