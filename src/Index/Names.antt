-- ===== src/Index/Names.antt =====
-- NameIndex: positions given by name, and the selection of dimension names by each kind of index.
use Prim.Native.String.{String}
use ztsdb.Base.{
  Option-cases, inl, inr, ℕ, zero, suc, ◌+◌, ◌≡◌, Bool, true, false, ltb, leb, if◌then◌else◌,
  Option, none, some, List, [], ◌∷◌, length, get_elem?, arith,
}
use ztsdb.Dname.{Dname, at_name, addafter}
use ztsdb.Index.{Cursor, pick}
use ztsdb.Index.Neg.{is_next, tail}

-- getfirst and getnext throw where a name is not there.
unfoldable pub getfirst : Dname → List String → Cursor → Option (Bool × Cursor)
unfolding at_name
getfirst names [] c = some (false, c)
getfirst names (s ∷ vs) c = elim (at_name names s) [
  | none ↦ none
  | some j ↦ some (true, record { val = j; i = 0 })
]

unfoldable pub getnext : Dname → List String → Cursor → Option (Bool × Cursor)
unfolding at_name getfirst
getnext names vs c = elim (get_elem? vs (c.i + 1)) [
  | some s ↦ elim (at_name names s) [
    | none ↦ none
    | some j ↦ some (true, record { val = j; i = c.i + 1 })
  ]
  | none ↦ elim (getfirst names vs (record c { i = c.i + 1 })) [
    | none ↦ none
    | some r ↦ some (false, r.1)
  ]
]

unfoldable pub subset {ℓ} : {A : Type ℓ} → List A → Dname → List String → Option (List A)
unfolding at_name
subset v names [] = some []
subset v names (s ∷ vs) = elim (at_name names s) [
  | none ↦ none
  | some j ↦ elim (get_elem? v j) [
    | none ↦ none
    | some x ↦ elim (subset v names vs) [ none ↦ none | some xs ↦ some (x ∷ xs) ]
  ]
]

-- The positions of the names, if all of them are there.
abbrev pub positions : Dname → List String → Option (List ℕ)
positions names [] = some []
positions names (s ∷ vs) = elim (at_name names s) [
  | none ↦ none
  | some j ↦ elim (positions names vs) [ none ↦ none | some js ↦ some (j ∷ js) ]
]

module _ {A : Type 0} (v : List A) where
  -- subset by names that are all there reads the positions that they are found at.
  pub subset-pick :
      (names : Dname) (vs : List String) (js : List ℕ)
      → positions names vs ≡ some js
      → subset v names vs ≡ pick v js
  unfolding subset pick
  subset-pick names [] js h = ground arith
  subset-pick names (s ∷ vs) js h = elim (Option-cases (at_name names s)) [
    | inl e ↦ ground (arith, e)
    | inr p ↦ elim (Option-cases (positions names vs)) [
      | inl q ↦ ground (arith, p.1, q)
      | inr q ↦ ground (arith, p.1, q.1, subset-pick names vs q.0 q.1)
    ]
  ]

-- NameIndex::selectNames
unfoldable pub select_names : Dname → Dname → List String → Option Dname
unfolding at_name addafter
select_names to from [] = some to
select_names to from (s ∷ vs) = elim (at_name from s) [
  | none ↦ none
  | some j ↦ select_names (addafter to s) from vs
]

-- A dimension of `n` positions without names.
abbrev pub unnamed : ℕ → Dname
unnamed n = record { sz = n; names = []; names_map = [] }

-- `tonames.addafter(fromnames.names[j])`, behind the test of the bound.
abbrev pub add_name : Dname → Dname → ℕ → Option Dname
add_name to from j =
    if leb from.sz j
    then none
    else elim (get_elem? from.names j) [ none ↦ none | some s ↦ some (addafter to s) ]

-- IntIndex::selectNames
unfoldable pub select_ints : Dname → Dname → List ℕ → Option Dname
select_ints to from [] = some to
select_ints to from (j ∷ js) = elim (add_name to from j) [
  | none ↦ none
  | some d ↦ select_ints d from js
]

unfoldable pub ints_select_names : Dname → Dname → List ℕ → Option Dname
unfolding select_ints
ints_select_names to from vi =
    if ltb 0 (length from.names) then select_ints to from vi else some (unnamed (length vi))

-- BoolIndex::selectNames, from position j on.
unfoldable pub select_bools : Dname → Dname → List Bool → ℕ → Option Dname
select_bools to from [] j = some to
select_bools to from (true ∷ vb) j = elim (add_name to from j) [
  | none ↦ none
  | some d ↦ select_bools d from vb (j + 1)
]
select_bools to from (false ∷ vb) j = select_bools to from vb (j + 1)

-- IntIndexNeg::selectNames: `n` positions are left, from j on.
unfoldable pub select_neg : Dname → Dname → ℕ → ℕ → List ℕ → Option Dname
select_neg to from zero j rest = some to
select_neg to from (suc n) j rest = if leb from.sz j then none else elim (is_next rest j) [
  | true ↦ select_neg to from n (j + 1) (tail rest)
  | false ↦ elim (get_elem? from.names j) [
    | none ↦ none
    | some s ↦ select_neg (addafter to s) from n (j + 1) rest
  ]
]
