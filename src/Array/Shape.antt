-- ===== src/Array/Shape.antt =====
-- The column of a position: within the bounds it is the position's place in column-major order.
use ztsdb.Base.{
  ℕ, suc, ◌+◌, ◌*◌, ◌%◌, ◌^◌, ◌≤◌, ◌<◌, ◌≡◌, refl, ap, sym, subst, ◌∙◌, Bool, true, false, ◌&&◌,
  ltb, leb, some, List, [], ◌∷◌, length, arith,
}
use native.Mathlib.Nat.{
  mul-suc, mul_comm, mul-add, mul_assoc, mul-le-mul_left, le-mul_of_pos_right, mul-zero,
}
use ztsdb.Array.{product, column_from, column}

-- Is there a position for every dimension, within it?
abbrev pub within : List ℕ → List ℕ → Bool
within [] [] = true
within [] (j ∷ js) = false
within (d ∷ ds) [] = false
within (d ∷ ds) (j ∷ js) = ltb j d && within ds js

-- The place of a position in column-major order.
abbrev pub place : List ℕ → List ℕ → ℕ
place [] js = 0
place (d ∷ ds) [] = 0
place (d ∷ ds) (j ∷ js) = j + d * place ds js

place_step : (j d p q : ℕ) → j < d → p < q → j + d * p < d * q
place_step j d p q h k =
    let a : d * suc p ≤ d * q = mul-le-mul_left {m = suc p} {n = q} d k in
    omega (arith, a, mul-suc d p)

pub place-product : (ds js : List ℕ) → within ds js ≡ true → place ds js < product ds
unfolding product
place-product [] [] h = omega arith
place-product [] (j ∷ js) h = absurd (ground (arith, h))
place-product (d ∷ ds) [] h = absurd (ground (arith, h))
place-product (d ∷ ds) (j ∷ js) h =
    place_step j d (place ds js) (product ds) (ground (arith, h))
      (place-product ds js (ground (arith, h)))

pub length-within : (ds js : List ℕ) → within ds js ≡ true → length js ≡ length ds
length-within [] [] h = refl
length-within [] (j ∷ js) h = absurd (ground (arith, h))
length-within (d ∷ ds) [] h = absurd (ground (arith, h))
length-within (d ∷ ds) (j ∷ js) h = ap suc (length-within ds js (ground (arith, h)))

-- The numbers of one round stay below 2^64.
round_bounds :
    (col mul j d q : ℕ)
    → j < d
    → col < mul
    → 0 < q
    → mul * (d * q) < 2 ^ 64
    → ((col + j * mul % 2 ^ 64) % 2 ^ 64 ≡ col + mul * j)
      × (mul * d % 2 ^ 64 ≡ mul * d)
      × (col + mul * j < mul * d)
round_bounds col mul j d q h k z b =
    let a : mul * suc j ≤ mul * d = mul-le-mul_left {m = suc j} {n = d} mul h in
    let s = mul-suc mul j in
    let c : mul * d ≤ mul * d * q = le-mul_of_pos_right {m = q} (mul * d) z in
    let e = mul_assoc mul d q in
    let m = mul_comm j mul in
    (omega (arith, a, s, c, e, m, b), omega (arith, c, e, b), omega (arith, a, s))

column_from_lem :
    (col mul : ℕ) (ds js : List ℕ)
    → within ds js ≡ true
    → col < mul
    → mul * product ds < 2 ^ 64
    → column_from col mul ds js ≡ some (col + mul * place ds js)
unfolding column_from product
column_from_lem col mul [] [] h k b = ap some (omega (arith, mul-zero mul))
column_from_lem col mul [] (j ∷ js) h k b = absurd (ground (arith, h))
column_from_lem col mul (d ∷ ds) [] h k b = absurd (ground (arith, h))
column_from_lem col mul (d ∷ ds) (j ∷ js) h k b =
    let w : within ds js ≡ true = ground (arith, h) in
    let l : ltb j d ≡ true = ground (arith, h) in
    let p = place-product ds js w in
    let (c, m, s) =
      round_bounds col mul j d (product ds) (ground (arith, l)) k (omega (arith, p)) b in
    let rec =
      column_from_lem (col + mul * j) (mul * d) ds js w s
        (subst (λ x. x < 2 ^ 64) (sym (mul_assoc mul d (product ds))) b) in
    let n : leb d j ≡ false = ground (arith, l) in
    rw (n, c, m, rec)
      (ap some (omega (arith, mul-add mul j (d * place ds js), mul_assoc mul d (place ds js))))

-- Within the bounds, for fewer than 2^64 columns, the column of a position is its place in
-- column-major order.
pub column-place :
    (ds js : List ℕ) → within ds js ≡ true → product ds < 2 ^ 64 → column ds js ≡ some (place ds js)
unfolding column
column-place ds js h b =
    column_from_lem 0 1 ds js h (omega arith) (omega (arith, b)) ∙ ap some (omega arith)
