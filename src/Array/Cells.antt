-- ===== src/Array/Cells.antt =====
-- The elements of an array: by one index, by one for each dimension, and after construction.
use ztsdb.Base.{
  ℕ, zero, suc, ◌+◌, ◌*◌, ◌/◌, ◌%◌, ◌^◌, ◌≤◌, ◌<◌, ◌≡◌, refl, ap, sym, ◌∙◌, Bool, true, false, ◌&&◌,
  ltb, leb, ◌==◌, none, some, List, [], ◌∷◌, ◌++◌, length, length-append, length-take, length-drop,
  get_elem?, get_or, take, drop, all, arith, Bool-cases, inl, inr,
}
use native.Mathlib.Nat.{
  mul-suc, mul-zero, mul_comm, mod-add-div, mod-lt, zero-mul, suc-mul, le-div_iff_mul-le,
  div-lt_iff_lt-mul,
}
use ztsdb.Vector.{Vec, at, of_list}
use ztsdb.Array.{Array, product, columns_of, rows_of, nrows, size, element, element_at, cut, make}
use ztsdb.Array.Shape.{length-within, within, place, place-product, column-place}

-- Every column has as many elements as the first dimension says, and there are as many columns as the
-- others say.
abbrev pub is_full : {T : Type 0} → ℕ → Vec T → Bool
is_full d v = length v.items == d

abbrev pub well_formed : {T : Type 0} → Array T → Bool
well_formed a = length a.cols == columns_of a.dim && all (is_full (rows_of a.dim)) a.cols

-- The element at a place of some columns of `d` elements each.
abbrev pub flat : {T : Type 0} → List (Vec T) → List T
flat [] = []
flat (v ∷ vs) = v.items ++ flat vs

some_injective : {T : Type 0} {a b : T} → some a ≡ some b → a ≡ b
some_injective {T} {a} {b} e = ap (λ o. elim o [ none ↦ a | some c ↦ c ]) e

is_full-length : {T : Type 0} (d : ℕ) (v : Vec T) → is_full d v ≡ true → length v.items ≡ d
is_full-length d v h = ground (arith, h)

pub get_elem?-all :
    {T : Type 0} (d : ℕ) (vs : List (Vec T)) (i : ℕ)
    → all (is_full d) vs ≡ true
    → i < length vs
    → (v : Vec T) × (get_elem? vs i ≡ some v) × (length v.items ≡ d)
get_elem?-all d [] i h l = absurd (omega arith)
get_elem?-all d (v ∷ vs) zero h l = (v, refl, ground (arith, h))
get_elem?-all d (v ∷ vs) (suc i) h l = get_elem?-all d vs i (ground (arith, h)) (omega arith)

at-get_or :
    {T : Type 0} (junk : ℕ → T) (v : Vec T) (i : ℕ)
    → i < length v.items
    → length v.items < 2 ^ 64
    → at junk v i ≡ some (get_or v.items i (junk i))
unfolding at
at-get_or junk v i h b = ground arith

get_elem?-append_left :
    {T : Type 0} (xs ys : List T) (i : ℕ) → i < length xs → get_elem? (xs ++ ys) i ≡ get_elem? xs i
get_elem?-append_left [] ys i h = absurd (omega arith)
get_elem?-append_left (x ∷ xs) ys zero h = refl
get_elem?-append_left (x ∷ xs) ys (suc i) h = get_elem?-append_left xs ys i (omega arith)

get_elem?-append_right :
    {T : Type 0} (xs ys : List T) (n i : ℕ)
    → n ≡ length xs + i
    → get_elem? (xs ++ ys) n ≡ get_elem? ys i
get_elem?-append_right [] ys n i h = ap (get_elem? ys) (omega (arith, h))
get_elem?-append_right (x ∷ xs) ys zero i h = absurd (omega (arith, h))
get_elem?-append_right (x ∷ xs) ys (suc n) i h = get_elem?-append_right xs ys n i (omega (arith, h))

pub get_elem?-get_or :
    {T : Type 0} (xs : List T) (i : ℕ) (y : T)
    → i < length xs
    → get_elem? xs i ≡ some (get_or xs i y)
get_elem?-get_or [] i y h = absurd (omega arith)
get_elem?-get_or (x ∷ xs) zero y h = refl
get_elem?-get_or (x ∷ xs) (suc i) y h = get_elem?-get_or xs i y (omega arith)

get_elem?-past : {T : Type 0} (xs : List T) (i : ℕ) → length xs ≤ i → get_elem? xs i ≡ none
get_elem?-past [] i h = refl
get_elem?-past (x ∷ xs) zero h = absurd (omega arith)
get_elem?-past (x ∷ xs) (suc i) h = get_elem?-past xs i (omega arith)

pub at-get_elem? :
    {T : Type 0} (junk : ℕ → T) (v : Vec T) (i : ℕ)
    → i < length v.items
    → length v.items < 2 ^ 64
    → at junk v i ≡ get_elem? v.items i
unfolding at
at-get_elem? junk v i h b = ground (arith, get_elem?-get_or v.items i (junk i) h)

pub get_elem?-flat :
    {T : Type 0} (d : ℕ) (vs : List (Vec T)) (v : Vec T) (c j : ℕ)
    → all (is_full d) vs ≡ true
    → get_elem? vs c ≡ some v
    → j < d
    → get_elem? (flat vs) (j + d * c) ≡ get_elem? v.items j
get_elem?-flat d [] v c j h e l = absurd (ground arith)
get_elem?-flat d (w ∷ vs) v zero j h e l =
    let n : length w.items ≡ d = ground (arith, h) in
    let k : j + d * 0 ≡ j = omega (arith, mul-zero d) in
    ap (get_elem? (w.items ++ flat vs)) k
    ∙ get_elem?-append_left w.items (flat vs) j (omega (arith, n, l))
    ∙ ap (λ u. get_elem? u.items j) (some_injective e)
get_elem?-flat d (w ∷ vs) v (suc c) j h e l =
    let n : length w.items ≡ d = ground (arith, h) in
    get_elem?-append_right w.items (flat vs) (j + d * suc c) (j + d * c)
      (omega (arith, mul-suc d c, n))
    ∙ get_elem?-flat d vs v c j (ground (arith, h)) e l

length-flat :
    {T : Type 0} (d : ℕ) (vs : List (Vec T))
    → all (is_full d) vs ≡ true
    → length (flat vs) ≡ d * length vs
length-flat d [] h = omega (arith, mul-zero d)
length-flat d (v ∷ vs) h = omega (
  arith,
  length-append v.items (flat vs),
  length-flat d vs (ground (arith, h)),
  mul-suc d (length vs),
  is_full-length d v (ground (arith, h)),
)

pos_of_mul : (n d : ℕ) → 0 < n * d → 0 < d
pos_of_mul n zero h = absurd (omega (arith, h, mul-zero n))
pos_of_mul n (suc d) h = omega arith

-- operator[] of a well-formed array gives the element of its columns, one after the other, and throws
-- behind the last; it never reads memory that nothing has written.
pub element-flat :
    {T : Type 0} (junk : ℕ → T) (a : Array T) (i : ℕ)
    → well_formed a ≡ true
    → rows_of a.dim < 2 ^ 64
    → element junk a i ≡ get_elem? (flat a.cols) i
unfolding element
element-flat junk a i w b =
    let full : all (is_full (nrows a)) a.cols ≡ true = ground (arith, w) in
    let n = length-flat (nrows a) a.cols full in
    let m = mul_comm (nrows a) (length a.cols) in
    elim (Bool-cases (ltb i (size a))) [
      | inr o ↦
          let past : length (flat a.cols) ≤ i = ground (arith, o, n, m) in
          let none_left = get_elem?-past (flat a.cols) i past in
          elim (Bool-cases (size a == 0)) [
            | inl e ↦ ground (arith, e, none_left)
            | inr e ↦
                let z : 0 < nrows a = pos_of_mul (length a.cols) (nrows a) (ground (arith, e)) in
                let c : length a.cols ≤ i / nrows a =
                  (le-div_iff_mul-le {k = nrows a} {x = length a.cols} {y = i} z).1
                    (ground (arith, o)) in
                let t : leb (length a.cols) (i / nrows a) ≡ true = ground (arith, c) in
                ground (arith, e, t, none_left)
          ]
      | inl o ↦
          let z : 0 < nrows a = pos_of_mul (length a.cols) (nrows a) (ground (arith, o)) in
          let c : i / nrows a < length a.cols =
            (div-lt_iff_lt-mul {k = nrows a} {x = i} {y = length a.cols} z).1 (ground (arith, o)) in
          let l : i % nrows a < nrows a = mod-lt i z in
          let (v, e, k) = get_elem?-all (nrows a) a.cols (i / nrows a) full c in
          let s : (size a == 0) ≡ false = ground (arith, o) in
          let t : leb (length a.cols) (i / nrows a) ≡ false = ground (arith, c) in
          let u : leb (nrows a) (i % nrows a) ≡ false = ground (arith, l) in
          let f = get_elem?-flat (nrows a) a.cols v (i / nrows a) (i % nrows a) full e l in
          let g = ap (get_elem? (flat a.cols)) (mod-add-div i (nrows a)) in
          let r = at-get_elem? junk v (i % nrows a) (omega (arith, l, k)) (omega (arith, b, k)) in
          ground (arith, s, t, u, e, r, f, g)
    ]

element_at-cells :
    {T : Type 0} (junk : ℕ → T) (dim : List ℕ) (cols : List (Vec T)) (j : ℕ) (js : List ℕ)
    → well_formed (record { dim = dim; cols = cols }) ≡ true
    → within dim (j ∷ js) ≡ true
    → rows_of dim < 2 ^ 64
    → columns_of dim < 2 ^ 64
    → element_at junk (record { dim = dim; cols = cols }) (j ∷ js)
      ≡ get_elem? (flat cols) (place dim (j ∷ js))
unfolding element_at
element_at-cells junk [] cols j js w h b c = absurd (ground (arith, h))
element_at-cells junk (d ∷ ds) cols j js w h b c =
    let i : within ds js ≡ true = ground (arith, h) in
    let n : length js ≡ length ds = length-within ds js i in
    let full : all (is_full d) cols ≡ true = ground (arith, w) in
    let m : length cols ≡ product ds = ground (arith, w) in
    let o : leb d j ≡ false = ground (arith, h) in
    let q = column-place ds js i c in
    let (v, e, k) =
      get_elem?-all d cols (place ds js) full (omega (arith, place-product ds js i, m)) in
    let l : j < d = ground (arith, o) in
    let r = at-get_elem? junk v j (omega (arith, l, k)) (omega (arith, b, k)) in
    let f = get_elem?-flat d cols v (place ds js) j full e l in ground (arith, n, o, q, e, r, f)

-- For a well-formed array of fewer than 2^64 rows and columns and a position within its bounds,
-- operator[] by one index for each dimension gives the element that operator[] by the place in
-- column-major order gives.
pub element_at-element :
    {T : Type 0} (junk : ℕ → T) (a : Array T) (j : ℕ) (js : List ℕ)
    → well_formed a ≡ true
    → within a.dim (j ∷ js) ≡ true
    → rows_of a.dim < 2 ^ 64
    → columns_of a.dim < 2 ^ 64
    → element_at junk a (j ∷ js) ≡ element junk a (place a.dim (j ∷ js))
unfolding element_at
element_at-element junk a j js w h b c =
    element_at-cells junk a.dim a.cols j js w h b c
    ∙ sym (element-flat junk a (place a.dim (j ∷ js)) w b)

take-append-drop : {T : Type 0} (n : ℕ) (xs : List T) → take n xs ++ drop n xs ≡ xs
take-append-drop zero xs = refl
take-append-drop (suc n) [] = refl
take-append-drop (suc n) (x ∷ xs) = ap (◌∷◌ x) (take-append-drop n xs)

flat-cut :
    {T : Type 0} (lt : T → T → Bool) (n d : ℕ) (xs : List T)
    → length xs ≡ n * d
    → flat (cut lt n d xs) ≡ xs
unfolding cut of_list
flat-cut lt zero d [] h = refl
flat-cut lt zero d (x ∷ xs) h = absurd (omega (arith, h, zero-mul d))
flat-cut lt (suc n) d xs h =
    ap (◌++◌ (take d xs))
      (flat-cut lt n d (drop d xs) (omega (arith, length-drop d xs, h, suc-mul n d)))
    ∙ take-append-drop d xs

is_full-cut :
    {T : Type 0} (lt : T → T → Bool) (n d : ℕ) (xs : List T)
    → length xs ≡ n * d
    → all (is_full d) (cut lt n d xs) ≡ true
unfolding cut of_list
is_full-cut lt zero d xs h = refl
is_full-cut lt (suc n) d xs h =
    let e : length (take d xs) ≡ d = omega (arith, length-take d xs, h, suc-mul n d) in
    let rec = is_full-cut lt n d (drop d xs) (omega (arith, length-drop d xs, h, suc-mul n d)) in
    ground (arith, e, rec)

length-cut : {T : Type 0} (lt : T → T → Bool) (n d : ℕ) (xs : List T) → length (cut lt n d xs) ≡ n
unfolding cut
length-cut lt zero d xs = refl
length-cut lt (suc n) d xs = ap suc (length-cut lt n d (drop d xs))

-- Of two elements and more, as many as the dimensions ask for, in fewer than 2^64 rows, the
-- constructor makes a well-formed array, and operator[] gives the elements back in their order.
pub element-make :
    {T : Type 0} (lt : T → T → Bool) (x : T) (dim : List ℕ) (y z : T) (ys : List T)
    → length (y ∷ z ∷ ys) ≡ columns_of dim * rows_of dim
    → rows_of dim < 2 ^ 64
    → (a : Array T) × (make lt x dim (y ∷ z ∷ ys) ≡ some a)
      × (well_formed a ≡ true)
      × ((junk : ℕ → T) (i : ℕ) → element junk a i ≡ get_elem? (y ∷ z ∷ ys) i)
unfolding make
element-make lt x dim y z ys h b =
    let xs = y ∷ z ∷ ys in
    let cs = cut lt (columns_of dim) (rows_of dim) xs in
    let w : well_formed (record { dim = dim; cols = cs }) ≡ true = ground (
      arith,
      length-cut lt (columns_of dim) (rows_of dim) xs,
      is_full-cut lt (columns_of dim) (rows_of dim) xs h,
    ) in
    (
      record { dim = dim; cols = cs },
      ground (arith, h),
      w,
      λ junk i.
          element-flat junk (record { dim = dim; cols = cs }) i w b
          ∙ ap (λ l. get_elem? l i) (flat-cut lt (columns_of dim) (rows_of dim) xs h),
    )
