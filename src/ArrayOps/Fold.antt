-- ===== src/ArrayOps/Fold.antt =====
-- What cumul_inplace and locf_inplace of src/array_ops.hpp make of a column.
use ztsdb.Base.{
  ℕ, zero, suc, ◌+◌, ◌-◌, ◌^◌, ◌≤◌, ◌<◌, ◌≡◌, refl, ap, sym, ◌∙◌, Bool, true, false, ltb, leb, ◌&&◌,
  if◌then◌else◌, Bool-cases, inl, inr, some, List, get_or, arith,
}
use ztsdb.Vector.{Vec, size, at}
use ztsdb.Array.{Array}
use ztsdb.ArrayOps.{rounds_down, before, after, combined, cumul_column, cumul_inplace}
use ztsdb.ArrayOps.Loops.{Rewritten, up-Rewritten, down-Rewritten, Each, are_full, each_column-Each}
use ztsdb.ArrayOps.Shift.{HasRows, rounds_down_eq, combined_at}

-- The value after row `j`, where `row` gives the rows in the order in which they are taken.
abbrev pub running : {T : Type 0} → (T → T → T) → (ℕ → T) → ℕ → T
running f row zero = row 0
running f row (suc j) = f (row (suc j)) (running f row j)

-- The running value of each row, from the first on or from the last back.
abbrev pub cumulated : {T : Type 0} → T → (T → T → T) → Bool → ℕ → List T → ℕ → T
cumulated z f false d xs j = running f (λ i. get_or xs i z) j
cumulated z f true d xs j = running f (λ i. get_or xs (d - 1 - i) z) (d - 1 - j)

running-pred :
    {T : Type 0} (f : T → T → T) (row : ℕ → T) (i : ℕ)
    → 1 ≤ i
    → running f row i ≡ f (row i) (running f row (i - 1))
running-pred f row zero h = absurd (omega arith)
running-pred f row (suc i) h =
    ap (λ n. f (row (suc i)) (running f row n)) {x = i} {y = suc i - 1} (omega arith)

module _ {T : Type 0} (z : T) (f : T → T → T) (d : ℕ) (xs : List T) where
  -- A row that is taken: the first one keeps its value.
  row_forth :
      (u : Vec T) (hi j : ℕ)
      → Rewritten z xs (cumulated z f false d xs) 1 hi u
      → j < hi
      → get_or u.items j z ≡ cumulated z f false d xs j
  row_forth u hi zero r h = ground (arith, r.1 0)
  row_forth u hi (suc j) r h = ground (arith, r.1 (suc j))

  next_forth :
      (u : Vec T) (i : ℕ)
      → 1 ≤ i
      → Rewritten z xs (cumulated z f false d xs) 1 i u
      → f (get_or u.items i z) (get_or u.items (i - 1) z) ≡ cumulated z f false d xs i
  next_forth u i h r =
      ap (λ y. f y (get_or u.items (i - 1) z)) (ground (arith, r.1 i))
      ∙ ap (f (get_or xs i z)) (row_forth u i (i - 1) r (omega arith))
      ∙ sym (running-pred f (λ k. get_or xs k z) i h)

  row_back :
      (u : Vec T) (lo j : ℕ)
      → Rewritten z xs (cumulated z f true d xs) lo (d - 1) u
      → lo ≤ j
      → j < d
      → get_or u.items j z ≡ cumulated z f true d xs j
  row_back u lo j r a h = elim (Bool-cases (ltb j (d - 1))) [
    | inl e ↦ ground (arith, r.1 j)
    | inr e ↦
        let q : get_or u.items j z ≡ get_or xs j z = ground (arith, r.1 j) in
        q
        ∙ ap (λ n. get_or xs n z) {x = j} {y = d - 1 - 0} (ground arith)
        ∙ ap (running f (λ i. get_or xs (d - 1 - i) z)) {x = 0} {y = d - 1 - j} (ground arith)
  ]

  next_back :
      (u : Vec T) (i : ℕ)
      → i < d - 1
      → Rewritten z xs (cumulated z f true d xs) (i + 1) (d - 1) u
      → f (get_or u.items i z) (get_or u.items (i + 1) z) ≡ cumulated z f true d xs i
  next_back u i h r =
      let row = λ (k : ℕ). get_or xs (d - 1 - k) z in
      let q : get_or u.items i z ≡ get_or xs i z = ground (arith, r.1 i) in
      ap (λ y. f y (get_or u.items (i + 1) z))
        (q ∙ ap (λ n. get_or xs n z) {x = i} {y = d - 1 - (d - 1 - i)} (omega arith))
      ∙ ap (f (row (d - 1 - i))) (
          row_back u (i + 1) (i + 1) r (omega arith) (omega arith)
          ∙ ap (running f row) {x = d - 1 - (i + 1)} {y = d - 1 - i - 1} (omega arith))
      ∙ sym (running-pred f row (d - 1 - i) (omega arith))

module _ {T : Type 0} (lt : T → T → Bool) (junk : ℕ → T) (z : T) (f : T → T → T) where
  module _ (d : ℕ) (v : Vec T) (s : size v ≡ d) (p : 0 < d) (b : d < 2 ^ 64) where
    cumul_forth :
        (w : Vec T) × (cumul_column lt junk f false v ≡ some w)
        × HasRows z (cumulated z f false d) d v w
    unfolding cumul_column
    cumul_forth =
        let (w, e, r) =
          up-Rewritten lt z v.items (cumulated z f false d v.items)
            (λ u i. combined f (at junk u i) (before junk 1 u i)) 1 d (size v - 1) 1 v
            (λ u i a c done.
              combined_at lt junk z f u i (i - 1) (omega (arith, done.0)) (omega (arith, done.0))
                (omega (arith, done.0))
              ∙ ap (λ t. some t) (next_forth z f d v.items u i a done))
            (omega arith) (omega arith) (omega arith) (refl, λ j. ground arith) in
        (w, e, (r.0 ∙ s, λ j c. row_forth z f d v.items w d j r c))

    cumul_back :
        (w : Vec T) × (cumul_column lt junk f true v ≡ some w)
        × HasRows z (cumulated z f true d) d v w
    unfolding cumul_column
    cumul_back =
        let (w, e, r) =
          down-Rewritten lt z v.items (cumulated z f true d v.items)
            (λ u i. combined f (at junk u i) (after junk 1 u i)) 0 (d - 1) (rounds_down (size v) 1)
            v
            (λ u i a c done.
              combined_at lt junk z f u i (i + 1) (omega (arith, done.0)) (omega (arith, done.0))
                (omega (arith, done.0))
              ∙ ap (λ t. some t) (next_back z f d v.items u i c done))
            (omega (arith, rounds_down_eq (size v) 1)) (omega arith) (refl, λ j. unreached j) in
        (w, e, (r.0 ∙ s, λ j c. row_back z f d v.items w 0 j r (omega arith) c))
      where
        unreached :
            (j : ℕ)
            → get_or v.items j z ≡ (
                if leb (0 + rounds_down (size v) 1) j && ltb j (d - 1)
                then cumulated z f true d v.items j
                else get_or v.items j z)
        unreached j = ground (arith, rounds_down_eq (size v) 1)

    cumul_column-HasRows :
        (rev : Bool)
        → (w : Vec T) × (cumul_column lt junk f rev v ≡ some w)
          × HasRows z (cumulated z f rev d) d v w
    cumul_column-HasRows false = cumul_forth
    cumul_column-HasRows true = cumul_back

  -- For a well-formed array of fewer than 2^64 rows, and at least one: cumul_inplace gives an array
  -- of the same dimensions in which each row holds the function folded over the rows from the first
  -- one to it, or, in reverse, from the last one back to it.
  pub cumul_inplace-running :
      (rev : Bool) (d : ℕ) (a : Array T)
      → are_full d a.cols ≡ true
      → 0 < d
      → d < 2 ^ 64
      → (b : Array T) × (cumul_inplace lt junk f rev a ≡ some b)
        × (b.dim ≡ a.dim)
        × Each (HasRows z (cumulated z f rev d) d) a.cols b.cols
  unfolding cumul_inplace
  cumul_inplace-running rev d a full p b =
      let (ws, e, r) =
        each_column-Each (cumul_column lt junk f rev) (HasRows z (cumulated z f rev d) d) d a.cols
          (λ v s. cumul_column-HasRows d v s p b rev) full in
      (record a { cols = ws }, ground (arith, e), refl, r)
