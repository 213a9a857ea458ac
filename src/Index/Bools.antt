-- ===== src/Index/Bools.antt =====
-- BoolIndex: a flag for each position.
use ztsdb.Base.{
  ℕ, zero, suc, ◌&&◌, Option-cases, inl, inr, ◌+◌, ◌-◌, ◌%◌, ◌≡◌, refl, sym, ◌∙◌, Bool, true, false,
  ltb, ◌==◌, if◌then◌else◌, Option, none, some, List, [], ◌∷◌, length, get_elem?, get_or, arith,
}
use ztsdb.Index.{Cursor, Step, pick}

-- The scan of `getfirst`, with `fuel` positions left: the first flag set from i on.
unfoldable pub first_set : ℕ → List Bool → ℕ → Option ℕ
first_set zero vb i = none
first_set (suc fuel) vb i = if get_or vb i false then some i else first_set fuel vb (i + 1)

unfoldable pub getfirst : List Bool → Step
unfolding first_set
getfirst vb c = elim (first_set (length vb) vb 0) [
  | some i ↦ (true, record { val = i; i = i })
  | none ↦ (false, record c { i = length vb })
]

-- The loop of `getnext`, `for (; ++i < size; ++i)`: from i it tests i + 1, i + 3, i + 5, ...
unfoldable pub second_set : ℕ → List Bool → ℕ → Option ℕ
second_set zero vb i = none
second_set (suc fuel) vb i =
    if ltb (i + 1) (length vb)
    then (if get_or vb (i + 1) false then some (i + 1) else second_set fuel vb (i + 2))
    else none

unfoldable pub getnext : List Bool → Step
unfolding second_set getfirst
getnext vb c = elim (second_set (length vb) vb c.i) [
  | some i ↦ (true, record { val = i; i = i })
  | none ↦ (false, (getfirst vb c).1)
]

-- size() and trueSize()
unfoldable pub count : List Bool → ℕ
count [] = 0
count (b ∷ vb) = if b then count vb + 1 else count vb

-- subset(rv, v), from position j on.
unfoldable pub subset_from {ℓ} : {A : Type ℓ} → List A → List Bool → ℕ → Option (List A)
subset_from v [] j = some []
subset_from v (b ∷ vb) j =
    let rest = subset_from v vb (j + 1) in
    if b
    then elim (get_elem? v j) [
      | none ↦ none
      | some x ↦ elim rest [ none ↦ none | some xs ↦ some (x ∷ xs) ]
    ]
    else rest

unfoldable pub subset {ℓ} : {A : Type ℓ} → List A → List Bool → Option (List A)
unfolding subset_from
subset v vb = subset_from v vb 0

-- The positions of the flags that are set.
abbrev pub positions : List Bool → ℕ → List ℕ
positions [] j = []
positions (b ∷ vb) j = if b then j ∷ positions vb (j + 1) else positions vb (j + 1)

module _ {A : Type 0} (v : List A) where
  subset_from-pick : (vb : List Bool) (j : ℕ) → subset_from v vb j ≡ pick v (positions vb j)
  unfolding subset_from pick
  subset_from-pick [] j = refl
  subset_from-pick (b ∷ vb) j = ground (arith, subset_from-pick vb (j + 1))

  length-pick : (js : List ℕ) (xs : List A) → pick v js ≡ some xs → length xs ≡ length js
  unfolding pick
  length-pick [] xs h = ground arith
  length-pick (j ∷ js) xs h = elim (Option-cases (pick v js)) [
    | inl e ↦ ground (arith, e)
    | inr p ↦ ground (arith, p.1, length-pick js p.0 p.1)
  ]

length-positions : (vb : List Bool) (j : ℕ) → length (positions vb j) ≡ count vb
unfolding count
length-positions [] j = refl
length-positions (b ∷ vb) j = ground (arith, length-positions vb (j + 1))

module _ {A : Type 0} (v : List A) where
  -- subset by flags reads the positions that are set, in ascending order, and throws exactly where
  -- one of them is out of bounds.
  subset-positions : (vb : List Bool) → subset v vb ≡ pick v (positions vb 0)
  unfolding subset
  subset-positions vb = subset_from-pick v vb 0

  -- Where subset by flags does not throw, it gives as many elements as `size` says.
  pub length-subset : (vb : List Bool) (xs : List A) → subset v vb ≡ some xs → length xs ≡ count vb
  length-subset vb xs h =
      length-pick v (positions vb 0) xs (sym (subset-positions vb) ∙ h) ∙ length-positions vb 0

-- Are two positions an odd distance apart, the second behind the first?
abbrev pub odd_step : ℕ → ℕ → Bool
odd_step i j = ltb i j && ((j - i) % 2 == 1)

second_set-odd :
    (fuel : ℕ) (vb : List Bool) (i j : ℕ) → second_set fuel vb i ≡ some j → odd_step i j ≡ true
unfolding second_set
second_set-odd zero vb i j h = ground arith
second_set-odd (suc fuel) vb i j h = ground (arith, second_set-odd fuel vb (i + 2) j)

-- `getnext` only ever finds positions an odd number of places behind the one it starts from: a flag
-- set two places behind is passed over, although `subset` and `size` count it.
getnext-odd :
    (vb : List Bool) (c : Cursor) → (getnext vb c).0 ≡ true → odd_step c.i (getnext vb c).1.i ≡ true
unfolding getnext
getnext-odd vb c h = elim (Option-cases (second_set (length vb) vb c.i)) [
  | inl e ↦ ground (arith, e)
  | inr p ↦ ground (arith, p.1, second_set-odd (length vb) vb c.i p.0 p.1)
]
