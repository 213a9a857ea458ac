-- ===== src/Vector/Edit/Erase.antt =====
-- erase.
use ztsdb.Base.{
  zero, suc, ap, ◌∙◌, subst, [], ◌∷◌, get_or, set, length-set, ◌≤◌, ℕ, ◌+◌, ◌-◌, ◌<◌, ◌≡◌, refl,
  Bool, true, false, ltb, ◌==◌, if◌then◌else◌, some, List, ◌++◌, length, arith, take, drop,
  take-append_le,
}
use ztsdb.Vector.{Vec, size, resize, pad, has_alloc, grow_capacity}
use ztsdb.Vector.Edit.{move_up, erase}
use ztsdb.Vector.Edit.Moved.{get_or-default}
use ztsdb.Vector.Edit.Inner.{can_move_zero}

module _ {ℓ} {T : Type ℓ} (lt : T → T → Bool) (junk : ℕ → T) where
  resize-shrunk :
      (w : Vec T) (n : ℕ)
      → has_alloc w.alloc ≡ true
      → n < size w
      → resize junk w n 0 ≡ some (record w { items = take n w.items; capacity = grow_capacity n })
  unfolding resize
  resize-shrunk w n a h = ground (
    arith,
    can_move_zero w.alloc a,
    take-append_le n w.items (pad junk (length w.items - 0) (n + 0 - length w.items)),
  )

  length-move_up :
      (k p m : ℕ) (cells : List T) → length (move_up lt junk k p m cells) ≡ length cells
  unfolding move_up
  length-move_up k p zero cells = refl
  length-move_up k p (suc m) cells =
      let y = get_or cells (p + k) (junk (p + k)) in
      length-move_up k (suc p) m (set cells p y) ∙ length-set cells p y

  move_up-cons :
      (k p m : ℕ) (c : T) (cells : List T)
      → p + k + m ≤ length cells
      → move_up lt junk k (suc p) m (c ∷ cells) ≡ c ∷ move_up lt junk k p m cells
  unfolding move_up
  move_up-cons k p zero c cells h = refl
  move_up-cons k p (suc m) c cells h =
      let y = get_or (c ∷ cells) (suc p + k) (junk (suc p + k)) in
      let read : y ≡ get_or cells (p + k) (junk (p + k)) =
        ap (λ t. get_or (c ∷ cells) t (junk (suc p + k))) {x = suc p + k} {y = suc (p + k)}
          (omega arith)
        ∙ get_or-default cells (p + k) (junk (suc p + k)) (junk (p + k)) (omega (arith, h)) in
      move_up-cons k (suc p) m c (set cells p y) (omega (arith, h, length-set cells p y))
      ∙ ap (λ t. c ∷ move_up lt junk k (suc p) m (set cells p t)) read

  -- All elements behind the first, moved up by one.
  move_up-first :
      (c : T) (cells : List T)
      → take (length cells) (move_up lt junk 1 0 (length cells) (c ∷ cells)) ≡ cells
  unfolding move_up
  move_up-first c [] = refl
  move_up-first c (d ∷ cells) =
      ap (take (suc (length cells))) (move_up-cons 1 0 (length cells) d (d ∷ cells) (omega arith))
      ∙ ap (◌∷◌ d) (move_up-first d cells)

  move_up-kept :
      (xs : List T) (p m : ℕ)
      → p + 1 + m ≡ length xs
      → take (p + m) (move_up lt junk 1 p m xs) ≡ take p xs ++ drop (p + 1) xs
  move_up-kept [] p m h = absurd (omega arith)
  move_up-kept (c ∷ xs) zero m h =
      let moved_all = move_up lt junk 1 0 m (c ∷ xs) in
      ap (λ n. take n moved_all) {x = 0 + m} {y = m} (omega arith)
      ∙ subst (λ n. take n (move_up lt junk 1 0 n (c ∷ xs)) ≡ xs) {x = length xs} {y = m}
          (omega (arith, h)) (move_up-first c xs)
  move_up-kept (c ∷ xs) (suc p) m h =
      ap (take (suc p + m)) (move_up-cons 1 p m c xs (omega (arith, h)))
      ∙ ap (λ n. take n (c ∷ move_up lt junk 1 p m xs)) {x = suc p + m} {y = suc (p + m)}
          (omega arith)
      ∙ ap (◌∷◌ c) (move_up-kept xs p m (omega (arith, h)))
      ∙ ap (λ n. c ∷ take p xs ++ drop n (c ∷ xs)) {x = suc (p + 1)} {y = suc p + 1} (omega arith)

  -- `erase` inside a vector with an allocator removes that element and no other; it clears the flag
  -- unless the element was the last.
  erase_lem :
      (v : Vec T) (p : ℕ)
      → has_alloc v.alloc ≡ true
      → p < size v
      → (w : Vec T) × (erase lt junk v p ≡ some w)
        × (w.items ≡ take p v.items ++ drop (p + 1) v.items)
        × (w.ordered ≡ (if p + 1 == size v then v.ordered else false))
  unfolding erase
  erase_lem v p a h =
      let m = size v - 1 - p in
      let cells : Vec T = record v {
        items = move_up lt junk 1 p m v.items;
        ordered = if ltb (p + 1) (size v) then false else v.ordered;
      } in
      let n = length-move_up 1 p m v.items in
      (
        record cells {
          items = take (size v - 1) cells.items;
          capacity = grow_capacity (size v - 1);
        },
        resize-shrunk cells (size v - 1) a (omega (arith, n)),
        ap (λ t. take t cells.items) {x = size v - 1} {y = p + m} (omega arith)
            ∙ move_up-kept v.items p m (omega arith),
        ground arith,
      )
