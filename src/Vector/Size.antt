-- ===== src/Vector/Size.antt =====
-- Capacity, allocation sizes and bounds checks of a vector.
use ztsdb.Base.{
  ℕ, zero, suc, ◌+◌, ◌-◌, ◌*◌, ◌/◌, ◌^◌, ◌<◌, ◌≤◌, ◌≡◌, refl, sym, Bool-cases, inl, inr, ◌%◌, Bool,
  ltb, leb, ◌==◌, if◌then◌else◌, none, some, List, [], ◌∷◌, length, get_elem?, get_or, arith,
  length-append,
}
use native.Mathlib.Nat.{mul-le-mul_right, le-mul_of_pos_right}
use ztsdb.Vector.{Vec, size, size_max, grow_capacity, total_size, at, push_back}

-- The grown capacity is above the size that it is asked for, and is a 64-bit number.
pub grow_capacity_bounds :
    (n : ℕ) → n < size_max → (n < grow_capacity n) × (grow_capacity n ≤ size_max)
unfolding grow_capacity
grow_capacity_bounds n h = ground arith

div_room : (elt raw m : ℕ) → 0 < elt → raw * elt ≤ m → (raw ≤ m / elt) × (m / elt * elt ≤ m)
div_room elt raw m h k = (grind arith, grind arith)

size_fits : (elt raw n q m : ℕ) → 0 < elt → raw ≤ q → q * elt ≤ m → n ≤ q - raw → n * elt + raw ≤ m
size_fits elt raw n q m h r k l = omega (
  arith,
  mul-le-mul_right elt (let p : n + raw ≤ q = omega arith in p),
  le-mul_of_pos_right raw h,
)

-- The computation of an allocation's size does not wrap: it is the size of the header and the
-- elements, or the largest number, on which the allocation fails. The hypothesis bounds the sizes of
-- an element and of the header, which are small constants.
pub total_size-exact :
    (elt raw n : ℕ)
    → 0 < elt
    → raw * elt ≤ size_max
    → total_size elt raw n
      ≡ (if n == 0 then raw else if leb n (size_max / elt - raw) then n * elt + raw else size_max)
unfolding total_size
total_size-exact elt raw n h k =
    ground (arith, div_room elt raw size_max h k, size_fits elt raw n (size_max / elt) size_max h)

module _ {ℓ} {T : Type ℓ} where
  get_or-get_elem? :
      (xs : List T) (i : ℕ) (d : T) → i < length xs → get_elem? xs i ≡ some (get_or xs i d)
  get_or-get_elem? [] i d h = absurd (omega arith)
  get_or-get_elem? (x ∷ xs) zero d h = refl
  get_or-get_elem? (x ∷ xs) (suc i) d h = get_or-get_elem? xs i d (omega arith)

  get_elem?-out : (xs : List T) (i : ℕ) → length xs ≤ i → get_elem? xs i ≡ none
  get_elem?-out [] i h = refl
  get_elem?-out (x ∷ xs) zero h = absurd (omega arith)
  get_elem?-out (x ∷ xs) (suc i) h = get_elem?-out xs i (omega arith)

  -- On a vector that is not empty, `operator[]` gives the element inside the bounds and throws
  -- outside them.
  pub at_bounds :
      (junk : ℕ → T) (v : Vec T) (i : ℕ)
      → 0 < size v
      → size v < 2 ^ 64
      → at junk v i ≡ get_elem? v.items i
  unfolding at
  at_bounds junk v i h k = elim (Bool-cases (ltb ((size v + 2 ^ 64 - 1) % 2 ^ 64) i)) [
    | inl t ↦ rw (t, at) (sym (get_elem?-out v.items i (ground arith)))
    | inr f ↦ rw (f, at) (sym (get_or-get_elem? v.items i (junk i) (ground arith)))
  ]

  -- On an empty vector it never throws: `size() - 1` wraps to the largest number, and every index
  -- reads memory that nothing has written.
  at_empty :
      (junk : ℕ → T) (v : Vec T) (i : ℕ) → v.items ≡ [] → i < 2 ^ 64 → at junk v i ≡ some (junk i)
  unfolding at
  at_empty junk v i h k = ground arith

  -- `push_back` grows the capacity in time: the elements never outnumber it.
  push_back-capacity :
      (lt : T → T → Bool) (v w : Vec T) (x : T)
      → size v ≤ v.capacity
      → size v < size_max
      → push_back lt v x ≡ some w
      → size w ≤ w.capacity
  unfolding push_back
  push_back-capacity lt v w x h k p =
      ground (arith, grow_capacity_bounds (size v), length-append v.items (x ∷ []))
