-- ===== src/Vector/Edit/Inner.antt =====
-- insert before the last element.
use ztsdb.Base.{
  ℕ, zero, suc, ◌+◌, ◌-◌, ◌<◌, ◌≤◌, ◌≡◌, refl, ap, Bool, true, none, get_elem?, some, List, ◌∷◌,
  ◌++◌, length, arith, length-append, take, drop, take_all,
}
use ztsdb.Vector.{
  Alloc, null, mem, flex, mmap, Vec, size, resize, pad, can_move, has_alloc, grow_capacity,
}
use ztsdb.Vector.Edit.{write_each, insert_flag, moved, inserted, insert}
use ztsdb.Vector.Edit.Moved.{write_each_lem, moved-parts, moved_before}

pub can_move_zero : (a : Alloc) → has_alloc a ≡ true → can_move a 0 ≡ true
can_move_zero null h = cc
can_move_zero mem h = refl
can_move_zero flex h = refl
can_move_zero mmap h = refl

module _ {ℓ} {T : Type ℓ} (lt : T → T → Bool) (junk : ℕ → T) where
  pub length-pad : (i n : ℕ) → length (pad junk i n) ≡ n
  length-pad i zero = refl
  length-pad i (suc n) = ap suc (length-pad (i + 1) n)

  -- What `resize` gives `insert` to write into.
  unfoldable pub grown : Vec T → ℕ → Vec T
  grown v k = record v {
    items = v.items ++ pad junk (size v) k;
    capacity = grow_capacity (size v + k);
  }

  resize-grown :
      (v : Vec T) (k : ℕ)
      → has_alloc v.alloc ≡ true
      → 0 < k
      → resize junk v (size v + k) 0 ≡ some (grown v k)
  unfolding resize grown
  resize-grown v k a h = ground (
    arith,
    can_move_zero v.alloc a,
    length-append v.items (pad junk (length v.items) k),
    length-pad (length v.items) k,
    take_all (length v.items + k) (v.items ++ pad junk (length v.items) k),
    ap (λ i. pad junk i k) (let e : length v.items - 0 ≡ length v.items = omega arith in e),
    ap (λ n. pad junk (length v.items) n)
        (let e : length v.items + k + 0 - length v.items ≡ k = omega arith in e),
  )

  -- What `inserted` makes of the cells that the move leaves.
  abbrev pub filled_in : Vec T → ℕ → T → List T → List T → Vec T
  filled_in v p x xs cells =
      let new = write_each lt junk cells p (x ∷ xs) in
      record (grown v (length (x ∷ xs))) {
        items = new;
        ordered = insert_flag lt junk v p x xs (get_elem? new (p + length (x ∷ xs)));
      }

  pub insert-inserted :
      (v : Vec T) (p : ℕ) (x : T) (xs cells : List T)
      → has_alloc v.alloc ≡ true
      → moved lt junk v.items (v.items ++ pad junk (size v) (length (x ∷ xs))) p (length (x ∷ xs))
        ≡ some cells
      → insert lt junk v p (x ∷ xs) ≡ some (filled_in v p x xs cells)
  unfolding insert inserted grown
  insert-inserted v p x xs cells a m =
      ground (arith, resize-grown v (length (x ∷ xs)) a (omega arith), m)

  -- insert of at most p + 1 new elements, at a position p before the last element of a vector with
  -- an allocator, puts the new elements there and keeps all the others, in order.
  pub insert-inner :
      (v : Vec T) (p : ℕ) (x : T) (xs : List T)
      → has_alloc v.alloc ≡ true
      → p + 1 < size v
      → length (x ∷ xs) ≤ p + 1
      → (w : Vec T) × (insert lt junk v p (x ∷ xs) ≡ some w)
        × (w.items ≡ take p v.items ++ (x ∷ xs) ++ drop p v.items)
  insert-inner v p x xs a h l =
      let k = length (x ∷ xs) in
      let (cells, e, n, before, behind) =
        moved-parts lt junk v.items (pad junk (size v) k) p k (omega arith) l h
          (length-pad (size v) k) in
      (
        filled_in v p x xs cells,
        insert-inserted v p x xs cells a e,
        rw (write_each_lem lt junk cells p (x ∷ xs) (omega (arith, n, h)), before, behind) refl,
      )

  -- For more new elements, the loop that moves the others comes to read before the first of them.
  insert-before :
      (v : Vec T) (p : ℕ) (x : T) (xs : List T)
      → has_alloc v.alloc ≡ true
      → p + 1 < size v
      → p + 1 < length (x ∷ xs)
      → insert lt junk v p (x ∷ xs) ≡ none
  unfolding insert inserted grown
  insert-before v p x xs a h l =
      let k = length (x ∷ xs) in
      let cells = v.items ++ pad junk (size v) k in
      let n = length-append v.items (pad junk (size v) k) in
      ground (
        arith,
        resize-grown v k a (omega arith),
        moved_before lt junk v.items cells p k l h (omega (arith, n, h)),
      )
