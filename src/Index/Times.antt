-- ===== src/Index/Times.antt =====
-- DtimeIndex and IntervalIndex: the positions of a vector of instants that are equal to one of the
-- instants of the index, or lie in one of its intervals.
-- `bsearch` is the C library's function: where it finds an instant in a vector, if it does.
use ztsdb.Base.{
  ℕ, zero, suc, ◌+◌, ◌-◌, ◌≤◌, ◌≡◌, refl, Bool, true, false, ltb, leb, ◌==◌, if◌then◌else◌, Option,
  none, some, List, [], ◌∷◌, length, get_elem?, get_or, drop, arith, Option-cases, inl, inr,
}
use ztsdb.Interval.{Interval}
use ztsdb.Index.{Cursor, Step, walk, visit, pick}
use ztsdb.Index.Neg.{drop-suc}

module _ (bsearch : ℕ → List ℕ → Option ℕ) (idx vd : List ℕ) where
  -- The loop of getfirst, over what is left of the index.
  unfoldable pub find_from : List ℕ → Step
  find_from [] c = (false, c)
  find_from (t ∷ rest) c = elim (bsearch t vd) [
    | some j ↦ (true, record c { val = j })
    | none ↦ find_from rest (record c { i = c.i + 1 })
  ]

  unfoldable pub getfirst : Step
  unfolding find_from
  getfirst c = find_from (drop c.i idx) c

  unfoldable pub getnext : Step
  unfolding getfirst
  getnext c = getfirst (record c { i = c.i + 1 })

  unfoldable pub subset {ℓ} : {A : Type ℓ} → List A → Option (List A)
  unfolding getfirst getnext visit pick
  subset v = if length vd == length v then pick v (visit (length idx) getfirst getnext) else none

  -- Where the instants are found that are found.
  abbrev pub found : List ℕ → List ℕ
  found [] = []
  found (t ∷ rest) = elim (bsearch t vd) [ some j ↦ j ∷ found rest | none ↦ found rest ]

  abbrev walk_from : ℕ → Bool × Cursor → List ℕ
  walk_from fuel (true, c) = walk fuel getnext c
  walk_from fuel (false, c) = []

  walk-found :
      (rest : List ℕ) (fuel j i : ℕ)
      → drop i idx ≡ rest
      → length rest ≤ fuel
      → walk_from fuel (find_from rest (record { val = j; i = i })) ≡ found rest
  unfolding find_from walk getnext getfirst
  walk-found [] fuel j i d h = refl
  walk-found (t ∷ rest) zero j i d h = absurd (omega arith)
  walk-found (t ∷ rest) (suc fuel) j i d h =
      let later = drop-suc idx i t rest d in
      elim (Option-cases (bsearch t vd)) [
        | inl e ↦ ground (arith, e, walk-found rest (suc fuel) j (i + 1) later)
        | inr p ↦ let (k, e) = p in ground (arith, e, later, walk-found rest fuel k (i + 1) later)
      ]

  -- The index by instants visits the positions at which its instants are found, in the order of the
  -- index, and passes over those that are not found, with fuel for as many rounds as it has instants.
  visit-found : (fuel : ℕ) → length idx ≤ fuel → visit fuel getfirst getnext ≡ found idx
  unfolding visit getfirst
  visit-found fuel h = ground (arith, walk-found idx fuel 0 0 refl h)

-- DtimeIndex::trueSize(), from two positions on.
unfoldable pub instants_true_size : List ℕ → List ℕ → ℕ
instants_true_size [] us = 0
instants_true_size (t ∷ ts) [] = 0
instants_true_size (t ∷ ts) (u ∷ us) = elim (ltb t u) [
  | true ↦ instants_true_size ts (u ∷ us)
  | false ↦ elim (ltb u t) [
    | true ↦ instants_true_size (t ∷ ts) us
    | false ↦ instants_true_size ts us + 1
  ]
]

-- Is the instant before the interval, or behind it? As the loops of IntervalIndex ask.
abbrev pub is_before : Interval → ℕ → Bool
is_before j t = if j.sopen then leb t j.s else ltb t j.s

abbrev pub is_behind : Interval → ℕ → Bool
is_behind j t = if j.eopen then leb j.e t else ltb j.e t

-- std::upper_bound(vi.begin(), vi.end(), s) where the start is open, and else std::lower_bound: the
-- first position that is not before the interval, for instants in order.
unfoldable pub bound : Interval → List ℕ → ℕ
bound j [] = 0
bound j (t ∷ ts) = let rest = bound j ts in if is_before j t then rest + 1 else 0

module _ (idx : List Interval) (vi : List ℕ) where
  unfoldable pub interval_from : List Interval → Step
  unfolding bound
  interval_from [] c = (false, c)
  interval_from (j ∷ rest) c =
      let val = bound j vi in
      let next = interval_from rest (record { val = val; i = c.i + 1 }) in
      if val == length vi
      then next
      else if is_behind j (get_or vi val 0)
      then next
      else (true, record c { val = val })

  unfoldable pub interval_getfirst : Step
  unfolding interval_from
  interval_getfirst c = interval_from (drop c.i idx) c

  -- The loop of getnext, with fuel for the instants that are left.
  unfoldable pub interval_next : ℕ → Step
  unfolding interval_getfirst
  interval_next zero c = (false, c)
  interval_next (suc fuel) c =
      let rest = interval_next fuel (record c { val = c.val + 1 }) in
      let other = interval_getfirst (record c { i = c.i + 1 }) in
      elim (get_elem? idx c.i) [
        | none ↦ (false, c)
        | some j ↦
            if leb (length vi) c.val
            then (false, c)
            else if is_before j (get_or vi c.val 0)
            then rest
            else if is_behind j (get_or vi c.val 0)
            then other
            else (true, c)
      ]

  unfoldable pub interval_getnext : Step
  unfolding interval_next
  interval_getnext c = interval_next (length vi - c.val) (record c { val = c.val + 1 })

-- IntervalIndex::trueSize(), from two positions on.
unfoldable pub intervals_true_size : List ℕ → List Interval → ℕ
intervals_true_size [] js = 0
intervals_true_size (t ∷ ts) [] = 0
intervals_true_size (t ∷ ts) (j ∷ js) = elim (is_before j t) [
  | true ↦ intervals_true_size ts (j ∷ js)
  | false ↦ elim (is_behind j t) [
    | true ↦ intervals_true_size (t ∷ ts) js
    | false ↦ intervals_true_size ts (j ∷ js) + 1
  ]
]
