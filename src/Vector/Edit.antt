-- ===== src/Vector/Edit.antt =====
-- Vector::insert and Vector::erase.
pub mod Moved
pub mod Inner
pub mod Last
pub mod End
pub mod Erase
use ztsdb.Base.{
  set, get_or, ℕ, zero, suc, ◌+◌, ◌-◌, ◌<◌, ◌≤◌, ◌≡◌, refl, sym, ap, ◌∙◌, subst, Bool, true, false,
  ◌&&◌, ltb, ◌==◌, if◌then◌else◌, Option, none, some, List, [], ◌∷◌, ◌++◌, length, get_elem?, arith,
  length-append, take, drop, take_all, take-append_le, take-take, drop-append_eq, drop_all,
  get_elem?-none, length-take, length-drop,
}
use mathlib.Core.List.{append-nil}
use ztsdb.Vector.Whole.{elem_lt-before}
use ztsdb.Vector.{
  Alloc, null, mem, flex, mmap, Vec, size, ascending_from, ascending, last_lt, elem_lt, resize, pad,
  can_move, has_alloc, grow_capacity,
}

module _ {ℓ} {T : Type ℓ} (lt : T → T → Bool) (junk : ℕ → T) where
  -- The loop that moves the elements down by `k`, with `m` rounds left: it stands at the cell `p + m`.
  -- It begins at the end, so that its first write is to a cell behind the last, which is none of the
  -- vector's. `none` stands for a read before the first cell, which has no defined behaviour.
  unfoldable pub move_down : ℕ → ℕ → ℕ → List T → Option (List T)
  move_down k p zero cells = some cells
  move_down k p (suc m) cells =
      let at = p + suc m in
      let rest = move_down k p m (set cells at (get_or cells (at - k) (junk (at - k)))) in
      if ltb at k then none else rest

  -- The code moves nothing where the position is the last element or the end.
  unfoldable pub moved : List T → List T → ℕ → ℕ → Option (List T)
  unfolding move_down
  moved old cells p k =
      if ltb 0 (length old) && ltb (p + 1) (length old)
      then move_down k p (length cells - p) cells
      else some cells

  -- The new elements are written one after the other.
  unfoldable pub write_each : List T → ℕ → List T → List T
  write_each cells p [] = cells
  write_each cells p (x ∷ xs) = write_each (set cells p x) (suc p) xs

  -- The flag that `insert` leaves: it compares the first new element with the one before it, and
  -- the last with the one behind it. Its loop over the new elements tests `c->ordered`, which the
  -- first write through the iterator has cleared, so no pair of new elements is compared.
  unfoldable pub insert_flag : Vec T → ℕ → T → List T → Option T → Bool
  unfolding elem_lt last_lt
  insert_flag v p x xs behind =
      let o1 = (if p == 0 then v.ordered else v.ordered && elem_lt lt v.items (p - 1) x) in
      elim behind [ none ↦ o1 | some y ↦ o1 && last_lt lt (x ∷ xs) y ]

  -- The vector `w` that `resize` has made of `v`, once the new elements are in.
  unfoldable pub inserted : Vec T → Vec T → ℕ → T → List T → Option (Vec T)
  unfolding moved write_each
  inserted v w p x xs = elim (moved v.items w.items p (length (x ∷ xs))) [
    | none ↦ none
    | some cells ↦
        let new = write_each cells p (x ∷ xs) in
        some (record w {
          items = new;
          ordered = insert_flag v p x xs (get_elem? new (p + length (x ∷ xs)));
        })
  ]

  -- insert(position, first, last), for a position up to the end.
  unfoldable pub insert : Vec T → ℕ → List T → Option (Vec T)
  insert v p [] = some v
  insert v p (x ∷ xs) = elim (resize junk v (size v + length (x ∷ xs)) 0) [
    | none ↦ none
    | some w ↦ inserted v w p x xs
  ]

  -- The loop of `erase`, which moves the elements up by `k`, with `m` rounds left, from the cell `p` on.
  unfoldable pub move_up : ℕ → ℕ → ℕ → List T → List T
  move_up k p zero cells = cells
  move_up k p (suc m) cells =
      move_up k (suc p) m (set cells p (get_or cells (p + k) (junk (p + k))))

  -- erase(position), for a position inside the vector. A write through an iterator clears the flag.
  unfoldable pub erase : Vec T → ℕ → Option (Vec T)
  unfolding resize move_up
  erase v p =
      let w = record v {
        items = move_up 1 p (size v - 1 - p) v.items;
        ordered = if ltb (p + 1) (size v) then false else v.ordered;
      } in
      resize junk w (size v - 1) 0

  -- erase(first, last), for positions inside the vector or at its end.
  unfoldable pub erase_range : Vec T → ℕ → ℕ → Option (Vec T)
  unfolding resize move_up
  erase_range v a b =
      let w = record v {
        items = move_up (b - a) a (size v - b) v.items;
        ordered = if ltb b (size v) then false else v.ordered;
      } in
      resize junk w (size v - (b - a)) 0
