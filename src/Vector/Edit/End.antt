-- ===== src/Vector/Edit/End.antt =====
-- insert at the end.
use ztsdb.Base.{
  ℕ, ◌+◌, ◌-◌, ◌≡◌, subst, Bool, true, false, ◌&&◌, ltb, if◌then◌else◌, none, some, List, [], ◌∷◌,
  ◌++◌, length, arith, length-append, take_all, take-append_le, drop_all, get_elem?-none,
}
use mathlib.Core.List.{append-nil}
use ztsdb.Vector.Whole.{elem_lt-before}
use ztsdb.Vector.{Vec, size, ascending_from, ascending, last_lt, elem_lt, pad, has_alloc}
use ztsdb.Vector.Edit.{insert_flag, write_each, insert}
use ztsdb.Vector.Edit.Moved.{write_each_lem, not_moved}
use ztsdb.Vector.Edit.Inner.{length-pad, filled_in, insert-inserted}

module _ {ℓ} {T : Type ℓ} (lt : T → T → Bool) (junk : ℕ → T) where
  end_cells :
      (v : Vec T) (x : T) (xs : List T)
      → write_each lt junk (v.items ++ pad junk (size v) (length (x ∷ xs))) (size v) (x ∷ xs)
        ≡ v.items ++ x ∷ xs
  end_cells v x xs =
      let k = length (x ∷ xs) in
      let cells = v.items ++ pad junk (size v) k in
      let len : length cells ≡ size v + k =
        omega (arith, length-append v.items (pad junk (size v) k), length-pad lt junk (size v) k) in
      rw (
        write_each_lem lt junk cells (size v) (x ∷ xs) (omega (arith, len)),
        drop_all (size v + k) cells (omega (arith, len)),
        take-append_le (size v) v.items (pad junk (size v) k) (omega arith),
        take_all (size v) v.items (omega arith),
        append-nil (v.items ++ x ∷ xs),
      )

  end_flag :
      (v : Vec T) (x : T) (xs : List T)
      → insert_flag lt junk v (size v) x xs none ≡ (v.ordered && last_lt lt v.items x)
  unfolding insert_flag last_lt
  end_flag v x xs = ground (
    arith,
    subst
        (λ l.
          (if ltb 0 (length v.items) then elem_lt lt l (length v.items - 1) x else true)
          ≡ last_lt lt v.items x)
        (append-nil v.items) (elem_lt-before lt v.items [] x),
  )

  end_ordered :
      (v : Vec T) (x : T) (xs : List T)
      → (filled_in lt junk v (size v) x xs (v.items ++ pad junk (size v) (length (x ∷ xs)))).ordered
        ≡ (v.ordered && last_lt lt v.items x)
  end_ordered v x xs = rw (end_cells v x xs) (
      rw
        (get_elem?-none (v.items ++ x ∷ xs) (size v + length (x ∷ xs))
          (omega (arith, length-append v.items (x ∷ xs))))
        (end_flag v x xs))

  -- `insert` at the end of a vector with an allocator appends the new elements. The flag it leaves
  -- depends on the old flag and on the first new element only.
  insert-end :
      (v : Vec T) (x : T) (xs : List T)
      → has_alloc v.alloc ≡ true
      → (w : Vec T) × (insert lt junk v (size v) (x ∷ xs) ≡ some w)
        × (w.items ≡ v.items ++ x ∷ xs)
        × (w.ordered ≡ (v.ordered && last_lt lt v.items x))
  insert-end v x xs a =
      let cells = v.items ++ pad junk (size v) (length (x ∷ xs)) in
      (
        filled_in lt junk v (size v) x xs cells,
        insert-inserted lt junk v (size v) x xs cells a
            (not_moved lt junk v.items cells (size v) (length (x ∷ xs)) (omega arith)),
        end_cells v x xs,
        end_ordered v x xs,
      )

  wrong_from :
      (y : T) (ys : List T) (x : T) (xs : List T)
      → ascending_from lt x xs ≡ false
      → ascending_from lt y (ys ++ x ∷ xs) ≡ false
  wrong_from y [] x xs d = ground arith
  wrong_from y (z ∷ ys) x xs d = ground (arith, wrong_from z ys x xs d)

  wrong_append :
      (ys : List T) (x : T) (xs : List T)
      → ascending_from lt x xs ≡ false
      → ascending lt (ys ++ x ∷ xs) ≡ false
  wrong_append [] x xs d = d
  wrong_append (y ∷ ys) x xs d = wrong_from y ys x xs d

  -- A list of two or more new elements that does not ascend, inserted at the end of an ascending
  -- vector whose last element is below the first of them, leaves a vector that is flagged as
  -- ascending and is not.
  insert-flag_wrong :
      (v : Vec T) (x : T) (xs : List T)
      → has_alloc v.alloc ≡ true
      → v.ordered ≡ true
      → last_lt lt v.items x ≡ true
      → ascending_from lt x xs ≡ false
      → (w : Vec T) × (insert lt junk v (size v) (x ∷ xs) ≡ some w)
        × (w.ordered ≡ true)
        × (ascending lt w.items ≡ false)
  insert-flag_wrong v x xs a o l d =
      let (w, p, q, r) = insert-end v x xs a in
      (w, p, ground (arith, r), rw q (wrong_append v.items x xs d))
