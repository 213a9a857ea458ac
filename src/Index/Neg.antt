-- ===== src/Index/Neg.antt =====
-- IntIndexNeg: the positions to leave out, out of `sz`, in ascending order and without repetition.
use ztsdb.Base.{
  ℕ, zero, suc, ◌+◌, ◌-◌, ◌^◌, ◌≤◌, ◌<◌, ◌≡◌, ◌∙◌, get_elem?-none, refl, Bool, true, false, ◌&&◌,
  ◌||◌, not, ltb, leb, ◌==◌, if◌then◌else◌, Option, none, some, List, [], ◌∷◌, length, get_or, drop,
  arith, Bool-cases, inl, inr,
}
use ztsdb.Vector
use ztsdb.Vector.{Vec, at}
use ztsdb.Array.Cells.{at-get_elem?}
use ztsdb.Index.{Cursor, start, Step, walk, visit, pick}

-- IntIndexNeg(vi, sz): `sort_unique` sorts and removes repetitions.
unfoldable pub make : (List ℕ → List ℕ) → Bool → List ℕ → ℕ → Option (List ℕ)
make sort_unique ordered vi sz =
    let vi' = (if ltb 0 (length vi) && not ordered then sort_unique vi else vi) in
    if ltb 0 (length vi') && (leb sz (get_or vi' (length vi' - 1) 0) || sz == 0)
    then none
    else some vi'

-- The loop of getfirst and getnext, over what is left of the positions to leave out.
unfoldable pub skip : ℕ → List ℕ → Cursor → Cursor
skip sz [] c = c
skip sz (x ∷ rest) c =
    if x == c.val
    then skip sz rest (record { val = if ltb c.val sz then c.val + 1 else c.val; i = c.i + 1 })
    else c

unfoldable pub getfirst : List ℕ → ℕ → Step
unfolding skip
getfirst vi sz c = let c' = skip sz vi start in if c'.val == sz then (false, start) else (true, c')

unfoldable pub getnext : List ℕ → ℕ → Step
unfolding skip getfirst
getnext vi sz c =
    let c' = skip sz (drop c.i vi) (record c { val = c.val + 1 }) in
    if c'.val == sz then (false, (getfirst vi sz c').1) else (true, c')

-- size() and trueSize()
unfoldable pub size : List ℕ → ℕ → ℕ
size vi sz = sz - length vi

-- Is `j` next among what is left to leave out?
abbrev pub is_next : List ℕ → ℕ → Bool
is_next [] j = false
is_next (x ∷ rest) j = x == j

abbrev pub tail : List ℕ → List ℕ
tail [] = []
tail (x ∷ rest) = rest

-- subset(rv, v): `n` positions are left, from j on. `read j` is v[j].
unfoldable pub subset_from {ℓ} : {A : Type ℓ} → (ℕ → Option A) → ℕ → ℕ → List ℕ → Option (List A)
subset_from read zero j rest = some []
subset_from read (suc n) j rest =
    let left_out = subset_from read n (j + 1) (tail rest) in
    let kept = subset_from read n (j + 1) rest in
    if is_next rest j then left_out else elim (read j) [
      | none ↦ none
      | some x ↦ elim kept [ none ↦ none | some xs ↦ some (x ∷ xs) ]
    ]

unfoldable pub subset {ℓ} : {A : Type ℓ} → (ℕ → A) → Vec A → List ℕ → ℕ → Option (List A)
unfolding subset_from at
subset junk v vi sz = subset_from (at junk v) sz 0 vi

-- The positions from j on, `n` of them, less those in `rest`.
abbrev pub kept : ℕ → ℕ → List ℕ → List ℕ
kept zero j rest = []
kept (suc n) j rest = if is_next rest j then kept n (j + 1) (tail rest) else j ∷ kept n (j + 1) rest

module _ {A : Type 0} (read : ℕ → Option A) where
  -- What is read at each position, in order, if all can be read.
  abbrev pub read_all : List ℕ → Option (List A)
  read_all [] = some []
  read_all (j ∷ js) = elim (read j) [
    | none ↦ none
    | some x ↦ elim (read_all js) [ none ↦ none | some xs ↦ some (x ∷ xs) ]
  ]

  subset_from-read_all :
      (n j : ℕ) (rest : List ℕ) → subset_from read n j rest ≡ read_all (kept n j rest)
  unfolding subset_from
  subset_from-read_all zero j rest = refl
  subset_from-read_all (suc n) j rest =
      ground
        (arith, subset_from-read_all n (j + 1) rest, subset_from-read_all n (j + 1) (tail rest))

-- What is left to leave out ascends, from `j` on, and stays below `sz`.
abbrev pub leaves : ℕ → ℕ → List ℕ → Bool
leaves sz j [] = true
leaves sz j (x ∷ rest) = leb j x && ltb x sz && leaves sz (x + 1) rest

pub drop-suc :
    (vi : List ℕ) (i x : ℕ) (rest : List ℕ) → drop i vi ≡ x ∷ rest → drop (i + 1) vi ≡ rest
drop-suc [] zero x rest h = ground arith
drop-suc [] (suc i) x rest h = ground arith
drop-suc (y ∷ vi) zero x rest h = ground arith
drop-suc (y ∷ vi) (suc i) x rest h = ground (arith, drop-suc vi i x rest h)

-- The positions that a walk gives, from a position on that may have to be left out.
abbrev walk_from : ℕ → List ℕ → ℕ → Cursor → List ℕ
walk_from fuel vi sz c = if c.val == sz then [] else walk fuel (getnext vi sz) c

-- By induction on the fuel and, inside, on what is left to leave out.
walk-kept :
    (vi : List ℕ) (sz n fuel j i : ℕ) (rest : List ℕ)
    → drop i vi ≡ rest
    → j + n ≡ sz
    → n ≤ fuel
    → leaves sz j rest ≡ true
    → walk_from fuel vi sz (skip sz rest (record { val = j; i = i })) ≡ kept n j rest
unfolding walk getnext skip
walk-kept vi sz zero fuel j i [] d e h l = ground arith
walk-kept vi sz zero fuel j i (x ∷ rest) d e h l = ground arith
walk-kept vi sz (suc n) zero j i rest d e h l = absurd (omega arith)
walk-kept vi sz (suc n) (suc fuel) j i [] d e h l =
    ground (arith, d, walk-kept vi sz n fuel (j + 1) i [] d)
walk-kept vi sz (suc n) (suc fuel) j i (x ∷ rest) d e h l = elim (Bool-cases (x == j)) [
  | inl q ↦ ground (
    arith,
    q,
    drop-suc vi i x rest d,
    walk-kept vi sz n (suc fuel) (j + 1) (i + 1) rest (drop-suc vi i x rest d),
  )
  | inr q ↦ ground (arith, q, d, walk-kept vi sz n fuel (j + 1) i (x ∷ rest) d)
]

-- The negative index visits exactly the positions that are not to be left out, in ascending order,
-- for positions that ascend strictly and are in bounds.
visit-kept :
    (vi : List ℕ) (sz fuel : ℕ)
    → leaves sz 0 vi ≡ true
    → sz ≤ fuel
    → visit fuel (getfirst vi sz) (getnext vi sz) ≡ kept sz 0 vi
unfolding visit getfirst
visit-kept vi sz fuel l h = ground (arith, walk-kept vi sz sz fuel 0 0 vi refl (omega arith) h l)

-- subset by a negative index reads, by operator[] of the vector, exactly the positions that
-- getfirst and getnext give, in that order, and throws exactly where operator[] does at one of
-- them, for positions to leave out that ascend strictly and are in bounds, with fuel for as many
-- rounds as there are positions.
pub subset-visit :
    {A : Type 0} (junk : ℕ → A) (v : Vec A) (vi : List ℕ) (sz fuel : ℕ)
    → leaves sz 0 vi ≡ true
    → sz ≤ fuel
    → subset junk v vi sz ≡ read_all (at junk v) (visit fuel (getfirst vi sz) (getnext vi sz))
unfolding subset
subset-visit junk v vi sz fuel l h =
    rw (visit-kept vi sz fuel l h) (subset_from-read_all (at junk v) sz 0 vi)

at-outside :
    {A : Type 0} (junk : ℕ → A) (v : Vec A) (j : ℕ)
    → 0 < Vector.size v
    → Vector.size v < 2 ^ 64
    → Vector.size v ≤ j
    → at junk v j ≡ none
unfolding at
at-outside junk v j h b o = ground arith

-- Over a vector that has elements, what `read_all` reads is what `pick` takes.
read_all-pick :
    {A : Type 0} (junk : ℕ → A) (v : Vec A) (js : List ℕ)
    → 0 < Vector.size v
    → Vector.size v < 2 ^ 64
    → read_all (at junk v) js ≡ pick v.items js
unfolding pick
read_all-pick junk v [] h b = refl
read_all-pick junk v (j ∷ js) h b = elim (Bool-cases (ltb j (Vector.size v))) [
  | inl i ↦ ground (arith, at-get_elem? junk v j (ground (arith, i)) b, read_all-pick junk v js h b)
  | inr i ↦ ground (
    arith,
    get_elem?-none v.items j (ground (arith, i)),
    at-outside junk v j h b (ground (arith, i)),
  )
]

-- The same positions, taken out of a list.
pub subset-pick :
    {A : Type 0} (junk : ℕ → A) (v : Vec A) (vi : List ℕ) (sz fuel : ℕ)
    → leaves sz 0 vi ≡ true
    → sz ≤ fuel
    → 0 < Vector.size v
    → Vector.size v < 2 ^ 64
    → subset junk v vi sz ≡ pick v.items (visit fuel (getfirst vi sz) (getnext vi sz))
subset-pick junk v vi sz fuel l h some_row b =
    subset-visit junk v vi sz fuel l h
    ∙ read_all-pick junk v (visit fuel (getfirst vi sz) (getnext vi sz)) some_row b
