-- ===== src/Vector/Flag.antt =====
-- The flag `ordered` of a vector, and the operations that keep it exact.
use ztsdb.Base.{
  ℕ, zero, suc, ◌+◌, ◌-◌, ◌<◌, ◌≡◌, refl, sym, Bool, true, false, not, ◌&&◌, ltb, leb, ap, ◌∙◌,
  if◌then◌else◌, none, Bool-cases, inl, inr, some, List, [], ◌∷◌, ◌++◌, length, set, arith,
}
use ztsdb.Vector.{
  Vec, size, has_alloc, grow_capacity, ascending_from, ascending, scan, of_list, last_lt, push_back,
  check_from, check_and_set_ordered, elem_lt, lt_elem, setv,
}

module _ {ℓ} {T : Type ℓ} (lt : T → T → Bool) where
  last_lt-from :
      (y : T) (ys : List T) (x : T)
      → ascending_from lt y (ys ++ x ∷ []) ≡ (ascending_from lt y ys && last_lt lt (y ∷ ys) x)
  unfolding last_lt
  last_lt-from y [] x = ground arith
  last_lt-from y (z ∷ ys) x = ground (arith, last_lt-from z ys x)

  pub ascending-snoc :
      (xs : List T) (x : T) → ascending lt (xs ++ x ∷ []) ≡ (ascending lt xs && last_lt lt xs x)
  unfolding last_lt
  ascending-snoc [] x = refl
  ascending-snoc (y ∷ ys) x = last_lt-from y ys x

  scan_lem : (x : T) (ok : Bool) (ys : List T) → scan lt x ok ys ≡ (ok && ascending_from lt x ys)
  unfolding scan
  scan_lem x ok [] = ground arith
  scan_lem x ok (y ∷ ys) = ground (arith, scan_lem y (if not (lt x y) then false else ok) ys)

  -- A vector built from a list is flagged exactly when the list ascends strictly.
  of_list-ordered : (xs : List T) → (of_list lt xs).ordered ≡ ascending lt xs
  unfolding of_list
  of_list-ordered [] = refl
  of_list-ordered (x ∷ ys) = scan_lem x true ys

  check_from_lem : (x : T) (ys : List T) → check_from lt x ys ≡ ascending_from lt x ys
  unfolding check_from
  check_from_lem x [] = refl
  check_from_lem x (y ∷ ys) = ground (arith, check_from_lem y ys)

  -- `checkAndSetOrdered` sets the flag exactly, whatever it was.
  pub check_and_set_ordered_lem :
      (v : Vec T) → (check_and_set_ordered lt v).ordered ≡ ascending lt v.items
  unfolding check_and_set_ordered
  check_and_set_ordered_lem v = go v.items
    where
      go : (xs : List T) → elim xs [ [] ↦ true | x ∷ ys ↦ check_from lt x ys ] ≡ ascending lt xs
      go [] = refl
      go (x ∷ ys) = check_from_lem x ys

  -- `push_back` on a vector with an allocator, whose flag is exact, appends the element
  -- and leaves the flag exact.
  pub push_back-ordered :
      (v : Vec T) (x : T)
      → has_alloc v.alloc ≡ true
      → v.ordered ≡ ascending lt v.items
      → (w : Vec T) × (push_back lt v x ≡ some w)
        × (w.items ≡ v.items ++ x ∷ [])
        × (w.ordered ≡ ascending lt w.items)
  unfolding push_back
  push_back-ordered v x a h = (
    record v {
      items = v.items ++ x ∷ [];
      ordered = if ltb 0 (size v) then v.ordered && last_lt lt v.items x else true;
      capacity = if ltb v.capacity (size v + 1) then grow_capacity (size v) else v.capacity;
    },
    ground arith,
    refl,
    ground (arith, ascending-snoc v.items x),
  )

  -- The neighbours of a cell, as the tests of `setv` see them.
  abbrev fits_after : List T → ℕ → T → Bool
  fits_after xs i x = if ltb 0 i then elem_lt lt xs (i - 1) x else true

  abbrev fits_before : List T → ℕ → T → Bool
  fits_before xs i x = if ltb i (length xs - 1) then lt_elem lt x xs (i + 1) else true

  ascending_from-set :
      (y : T) (xs : List T) (i : ℕ) (x : T)
      → i < length xs
      → ascending_from lt y xs ≡ true
      → ascending_from lt y (set xs i x) ≡ (fits_after (y ∷ xs) (i + 1) x && fits_before xs i x)
  unfolding elem_lt lt_elem
  ascending_from-set y [] i x h a = absurd (omega arith)
  ascending_from-set y (z ∷ []) zero x h a = ground arith
  ascending_from-set y (z ∷ w ∷ xs) zero x h a = ground arith
  ascending_from-set y (z ∷ xs) (suc i) x h a = ground (arith, ascending_from-set z xs i x)

  pub ascending-set :
      (xs : List T) (i : ℕ) (x : T)
      → i < length xs
      → ascending lt xs ≡ true
      → ascending lt (set xs i x) ≡ (fits_after xs i x && fits_before xs i x)
  unfolding elem_lt lt_elem
  ascending-set [] i x h a = absurd (omega arith)
  ascending-set (z ∷ []) zero x h a = ground arith
  ascending-set (z ∷ w ∷ xs) zero x h a = ground arith
  ascending-set (z ∷ xs) (suc i) x h a = ground (arith, ascending_from-set z xs i x)

  setv_flag :
      (v : Vec T) (i : ℕ) (x : T)
      → v.ordered ≡ true
      → (let o1 = (if v.ordered && ltb 0 i then elem_lt lt v.items (i - 1) x else v.ordered) in
          if v.ordered && ltb i (size v - 1) then o1 && lt_elem lt x v.items (i + 1) else o1)
        ≡ (fits_after v.items i x && fits_before v.items i x)
  setv_flag v i x o = ground (arith, o)

  -- setv on a vector that is flagged, and ascends, throws exactly where the position is out of
  -- bounds; otherwise it writes that cell, changes no other, and leaves the flag telling whether
  -- the new elements ascend.
  pub setv-ordered :
      (v : Vec T) (i : ℕ) (x : T)
      → v.ordered ≡ true
      → ascending lt v.items ≡ true
      → setv lt v i x ≡ (
          if ltb i (size v)
          then some (record v { items = set v.items i x; ordered = ascending lt (set v.items i x) })
          else none)
  unfolding setv
  setv-ordered v i x o a = elim (Bool-cases (ltb i (size v))) [
    | inl h ↦
        let inside : leb (size v) i ≡ false = ground (arith, h) in
        let flag = sym (ascending-set v.items i x (ground (arith, h)) a) in
        rw (h, inside)
          (ap (λ f. some (record v { items = set v.items i x; ordered = f }))
            (setv_flag v i x o ∙ flag))
    | inr h ↦ let outside : leb (size v) i ≡ true = ground (arith, h) in rw (h, outside) refl
  ]
