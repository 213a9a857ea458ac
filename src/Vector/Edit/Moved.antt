-- ===== src/Vector/Edit/Moved.antt =====
-- The loops of insert: what they leave in each cell.
use ztsdb.Base.{
  ℕ, zero, suc, ◌+◌, ◌-◌, ◌<◌, ◌≤◌, ◌≡◌, refl, ap, sym, none, ◌∙◌, subst, Bool, true, false, ◌&&◌,
  ltb, leb, ◌==◌, Bool-cases, inl, inr, some, List, [], ◌∷◌, ◌++◌, length, get_or, set, length-set,
  arith, take, drop, length-take, length-drop, length-append,
}
use ztsdb.Vector.Edit.{move_down, moved, write_each}

module _ {ℓ} {T : Type ℓ} where
  get_or-set_self : (xs : List T) (i : ℕ) (x z : T) → i < length xs → get_or (set xs i x) i z ≡ x
  get_or-set_self [] i x z h = absurd (omega arith)
  get_or-set_self (y ∷ xs) zero x z h = refl
  get_or-set_self (y ∷ xs) (suc i) x z h = get_or-set_self xs i x z (omega arith)

  get_or-set_other :
      (xs : List T) (i j : ℕ) (x z : T) → (i == j) ≡ false → get_or (set xs i x) j z ≡ get_or xs j z
  get_or-set_other [] i j x z h = refl
  get_or-set_other (y ∷ xs) zero zero x z h = absurd (ground (arith, h))
  get_or-set_other (y ∷ xs) zero (suc j) x z h = refl
  get_or-set_other (y ∷ xs) (suc i) zero x z h = refl
  get_or-set_other (y ∷ xs) (suc i) (suc j) x z h = get_or-set_other xs i j x z (ground (arith, h))

  pub get_or-default :
      (xs : List T) (i : ℕ) (y z : T) → i < length xs → get_or xs i y ≡ get_or xs i z
  get_or-default [] i y z h = absurd (omega arith)
  get_or-default (x ∷ xs) zero y z h = refl
  get_or-default (x ∷ xs) (suc i) y z h = get_or-default xs i y z (omega arith)

  get_or-take :
      (n : ℕ) (xs : List T) (i : ℕ) (z : T) → i < n → get_or (take n xs) i z ≡ get_or xs i z
  get_or-take zero xs i z h = absurd (omega arith)
  get_or-take (suc n) [] i z h = refl
  get_or-take (suc n) (x ∷ xs) zero z h = refl
  get_or-take (suc n) (x ∷ xs) (suc i) z h = get_or-take n xs i z (omega arith)

  get_or-drop : (n : ℕ) (xs : List T) (i : ℕ) (z : T) → get_or (drop n xs) i z ≡ get_or xs (n + i) z
  get_or-drop zero xs i z = ap (λ t. get_or xs t z) (omega arith)
  get_or-drop (suc n) [] i z = refl
  get_or-drop (suc n) (x ∷ xs) i z =
      get_or-drop n xs i z
      ∙ ap (λ t. get_or (x ∷ xs) t z) {x = suc (n + i)} {y = suc n + i} (omega arith)

  pub get_or-append :
      (xs ys : List T) (i : ℕ) (z : T) → i < length xs → get_or (xs ++ ys) i z ≡ get_or xs i z
  get_or-append [] ys i z h = absurd (omega arith)
  get_or-append (x ∷ xs) ys zero z h = refl
  get_or-append (x ∷ xs) ys (suc i) z h = get_or-append xs ys i z (omega arith)

  -- Two lists of the same length with the same elements.
  same_elements :
      (xs ys : List T) (z : T)
      → length xs ≡ length ys
      → ((i : ℕ) → i < length xs → get_or xs i z ≡ get_or ys i z)
      → xs ≡ ys
  same_elements [] [] z l h = refl
  same_elements [] (y ∷ ys) z l h = absurd (omega (arith, l))
  same_elements (x ∷ xs) [] z l h = absurd (omega (arith, l))
  same_elements (x ∷ xs) (y ∷ ys) z l h =
      ap (λ a. a ∷ xs) (h 0 (omega arith))
      ∙ ap (◌∷◌ y) (same_elements xs ys z (omega (arith, l)) (λ i a. h (suc i) (omega arith)))

module _ {ℓ} {T : Type ℓ} (lt : T → T → Bool) (junk : ℕ → T) where
  write_each-cons :
      (c : T) (cells : List T) (p : ℕ) (xs : List T)
      → write_each lt junk (c ∷ cells) (suc p) xs ≡ c ∷ write_each lt junk cells p xs
  unfolding write_each
  write_each-cons c cells p [] = refl
  write_each-cons c cells p (x ∷ xs) = write_each-cons c (set cells p x) (suc p) xs

  -- The writes take the places of as many cells, and leave the others.
  pub write_each_lem :
      (cells : List T) (p : ℕ) (xs : List T)
      → p + length xs ≤ length cells
      → write_each lt junk cells p xs ≡ take p cells ++ xs ++ drop (p + length xs) cells
  unfolding write_each
  write_each_lem cells zero [] h =
      ap (λ n. drop n cells) {x = 0} {y = 0 + length {A = T} []} (omega arith)
  write_each_lem [] zero (x ∷ xs) h = absurd (omega arith)
  write_each_lem (c ∷ cells) zero (x ∷ xs) h =
      write_each-cons x cells 0 xs
      ∙ ap (◌∷◌ x) (write_each_lem cells 0 xs (omega arith))
      ∙ ap (λ n. x ∷ xs ++ drop n (c ∷ cells)) {x = suc (0 + length xs)} {y = 0 + length (x ∷ xs)}
          (omega arith)
  write_each_lem [] (suc p) xs h = absurd (omega arith)
  write_each_lem (c ∷ cells) (suc p) xs h =
      write_each-cons c cells p xs
      ∙ ap (◌∷◌ c) (write_each_lem cells p xs (omega arith))
      ∙ ap (λ n. c ∷ take p cells ++ xs ++ drop n (c ∷ cells)) {x = suc (p + length xs)}
          {y = suc p + length xs} (omega arith)

  -- Is the cell one that the loop writes?
  abbrev pub moves : ℕ → ℕ → ℕ → Bool
  moves p m i = ltb p i && leb i (p + m)

  -- Of at most `p + 1` new elements, the loop reads no cell before the first, and gives every cell that
  -- it writes what stood `k` cells before it.
  pub move_down_lem :
      (k p m : ℕ) (cells : List T) (z : T)
      → 0 < k
      → k ≤ p + 1
      → (new : List T) × (move_down lt junk k p m cells ≡ some new)
        × (length new ≡ length cells)
        × ((i : ℕ) → moves p m i ≡ false → get_or new i z ≡ get_or cells i z)
        × ((i : ℕ)
            → moves p m i ≡ true
            → i < length cells
            → get_or new i z ≡ get_or cells (i - k) z)
  unfolding move_down
  move_down_lem k p zero cells z a b =
      (cells, refl, refl, λ i h. refl, λ i h l. absurd (ground (arith, h)))
  move_down_lem k p (suc m) cells z a b =
      let t = p + suc m in
      let y = get_or cells (t - k) (junk (t - k)) in
      let cells' = set cells t y in
      let (new, e, n, outside, inside) = move_down_lem k p m cells' z a b in
      let safe : ltb t k ≡ false = ground (arith, a, b) in
      (
        new,
        rw safe e,
        n ∙ length-set cells t y,
        λ i h. outside i (ground (arith, h)) ∙ get_or-set_other cells t i y z (ground (arith, h)),
        λ i h l. elim (Bool-cases (t == i)) [
          | inl q ↦
              subst (λ j. get_or new j z ≡ get_or cells (j - k) z) {x = t} {y = i}
                (ground (arith, q))
                (outside t (ground arith)
                  ∙ get_or-set_self cells t y z (ground (arith, q, l))
                  ∙ get_or-default cells (t - k) (junk (t - k)) z (ground (arith, q, l)))
          | inr q ↦
              inside i (ground (arith, q, h)) (omega (arith, l, length-set cells t y))
              ∙ get_or-set_other cells t (i - k) y z (ground (arith, q, h))
        ],
      )

  -- What the loop leaves before the position, and behind the places of the new elements.
  pub moved-parts :
      (old pad : List T) (p k : ℕ)
      → 0 < k
      → k ≤ p + 1
      → p + 1 < length old
      → length pad ≡ k
      → (new : List T) × (moved lt junk old (old ++ pad) p k ≡ some new)
        × (length new ≡ length old + k)
        × (take p new ≡ take p old)
        × (drop (p + k) new ≡ drop p old)
  unfolding moved
  moved-parts old pad p k a b h l =
      let cells = old ++ pad in
      let size : length cells ≡ length old + k = omega (arith, l, length-append old pad) in
      let m = length cells - p in
      let z = junk 0 in
      let guard : (ltb 0 (length old) && ltb (p + 1) (length old)) ≡ true = ground (arith, h) in
      let (new, e, n, outside, inside) = move_down_lem k p m cells z a b in
      let same = n ∙ size in
      (
        new,
        rw guard e,
        same,
        same_elements (take p new) (take p old) z
            (omega (arith, length-take p new, length-take p old, same))
            (λ i c.
              let q : i < p = omega (arith, c, length-take p new) in
              get_or-take p new i z q
              ∙ outside i (ground (arith, q))
              ∙ get_or-append old pad i z (omega (arith, q, h))
              ∙ sym (get_or-take p old i z q)),
        same_elements (drop (p + k) new) (drop p old) z
            (omega (arith, length-drop (p + k) new, length-drop p old, same))
            (λ i c.
              let q : p + k + i < length cells = omega (arith, c, length-drop (p + k) new, n) in
              get_or-drop (p + k) new i z
              ∙ inside (p + k + i) (ground (arith, q, a)) q
              ∙ ap (λ t. get_or cells t z) {x = p + k + i - k} {y = p + i} (omega arith)
              ∙ get_or-append old pad (p + i) z (omega (arith, q, size))
              ∙ sym (get_or-drop p old i z)),
      )

  -- For more than `p + 1` new elements, the loop comes to read before the first cell.
  move_down_before :
      (k p m : ℕ) (cells : List T) → p + 1 < k → 0 < m → move_down lt junk k p m cells ≡ none
  unfolding move_down
  move_down_before k p zero cells h a = absurd (omega arith)
  move_down_before k p (suc zero) cells h a =
      let t : ltb (p + 1) k ≡ true = ground (arith, h) in rw t refl
  move_down_before k p (suc (suc m)) cells h a =
      let t = p + suc (suc m) in
      let y = get_or cells (t - k) (junk (t - k)) in
      elim (Bool-cases (ltb t k)) [
        | inl q ↦ rw q refl
        | inr q ↦ rw q (move_down_before k p (suc m) (set cells t y) h (omega arith))
      ]

  pub moved_before :
      (old cells : List T) (p k : ℕ)
      → p + 1 < k
      → p + 1 < length old
      → p < length cells
      → moved lt junk old cells p k ≡ none
  unfolding moved
  moved_before old cells p k h a b =
      let guard : (ltb 0 (length old) && ltb (p + 1) (length old)) ≡ true = ground (arith, a) in
      rw guard (move_down_before k p (length cells - p) cells h (omega (arith, b)))

  pub not_moved :
      (old cells : List T) (p k : ℕ) → length old ≤ p + 1 → moved lt junk old cells p k ≡ some cells
  unfolding moved
  not_moved old cells p k h =
      let guard : (ltb 0 (length old) && ltb (p + 1) (length old)) ≡ false = ground (arith, h) in
      rw guard refl
