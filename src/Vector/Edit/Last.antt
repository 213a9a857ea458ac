-- ===== src/Vector/Edit/Last.antt =====
-- insert at the last element.
use ztsdb.Base.{
  ℕ, zero, suc, ◌+◌, ◌≡◌, refl, ap, ◌∙◌, subst, Bool, true, some, List, [], ◌∷◌, ◌++◌, length,
  arith, take, drop, length-append, take-append_le,
}
use ztsdb.Vector.{Vec, size, pad, has_alloc}
use ztsdb.Vector.Edit.{insert}
use ztsdb.Vector.Edit.Moved.{write_each_lem, not_moved}
use ztsdb.Vector.Edit.Inner.{length-pad, filled_in, insert-inserted}

module _ {ℓ} {T : Type ℓ} (lt : T → T → Bool) (junk : ℕ → T) where
  drop_last_pad : (j i n : ℕ) → j + 1 ≡ n → drop j (pad junk i n) ≡ junk (i + j) ∷ []
  drop_last_pad j i zero h = absurd (omega arith)
  drop_last_pad zero i (suc zero) h = ap (λ t. junk t ∷ []) (omega arith)
  drop_last_pad zero i (suc (suc n)) h = absurd (omega arith)
  drop_last_pad (suc j) i (suc n) h =
      drop_last_pad j (i + 1) n (omega arith) ∙ ap (λ t. junk t ∷ []) (omega arith)

  drop_behind : (old ys : List T) (j : ℕ) → drop (length old + j) (old ++ ys) ≡ drop j ys
  drop_behind [] ys j = ap (λ t. drop t ys) (omega arith)
  drop_behind (x ∷ old) ys j =
      subst (λ t. drop t (x ∷ old ++ ys) ≡ drop j ys)
        (let e : suc (length old + j) ≡ suc (length old) + j = omega arith in e)
        (drop_behind old ys j)

  last_cell :
      (old : List T) (p m : ℕ)
      → p + 1 ≡ length old
      → drop (p + suc m) (old ++ pad junk (length old) (suc m)) ≡ junk (p + suc m) ∷ []
  last_cell old p m h =
      let e : p + suc m ≡ length old + m = omega arith in
      rw e (
        drop_behind old (pad junk (length old) (suc m)) m
        ∙ drop_last_pad m (length old) (suc m) (omega arith))

  -- `insert` at the last element of a vector with an allocator does not move that element: it is
  -- overwritten, and the vector ends in a cell that nothing has written.
  pub insert-last_lost :
      (v : Vec T) (p : ℕ) (x : T) (xs : List T)
      → has_alloc v.alloc ≡ true
      → p + 1 ≡ size v
      → (w : Vec T) × (insert lt junk v p (x ∷ xs) ≡ some w)
        × (w.items ≡ take p v.items ++ (x ∷ xs) ++ junk (p + length (x ∷ xs)) ∷ [])
  insert-last_lost v p x xs a h =
      let k = length (x ∷ xs) in
      let cells = v.items ++ pad junk (size v) k in
      let n : length cells ≡ size v + k =
        omega (arith, length-append v.items (pad junk (size v) k), length-pad lt junk (size v) k) in
      (
        filled_in lt junk v p x xs cells,
        insert-inserted lt junk v p x xs cells a
            (not_moved lt junk v.items cells p k (omega arith)),
        rw
            (
              write_each_lem lt junk cells p (x ∷ xs) (omega (arith, n, h)),
              take-append_le p v.items (pad junk (size v) k) (omega arith),
              last_cell v.items p (length xs) h,
            )
            refl,
      )
