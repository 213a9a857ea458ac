-- ===== src/Vector.antt =====
-- src/vector_base.hpp: the growable array of every column, and the flag that it keeps on whether
-- its elements ascend strictly by the comparator `O` (`lt` below).
-- A vector is its elements, the flag, the capacity and whether it has an allocator. What memory
-- holds beyond the written elements is the parameter `junk`. `none` stands for an exception.
pub mod Flag
pub mod Edit
pub mod Size
pub mod Whole
use ztsdb.Base.{
  ℕ, zero, suc, ◌+◌, ◌-◌, ◌*◌, ◌/◌, ◌%◌, ◌^◌, Bool, true, false, not, ◌&&◌, ◌||◌, ltb, leb, ◌==◌,
  if◌then◌else◌, Option, none, some, List, [], ◌∷◌, ◌++◌, length, get_elem?, get_or, set, take,
  drop, replicate,
}

abbrev pub size_max : ℕ
size_max = 2 ^ 64 - 1

-- VECTOR_INITIAL_ALLOC; the growth is 4/3.
abbrev pub initial_alloc : ℕ
initial_alloc = 1024

unfoldable pub grow_capacity : ℕ → ℕ
grow_capacity n =
    if ltb 0 n && ltb (size_max / 4) n
    then size_max
    else (if ltb n (initial_alloc / 2) then initial_alloc else n * 4 / 3)

-- getTotalSize<T>(n), at sizeof(T) and sizeof(RawVector<T>).
unfoldable pub total_size : ℕ → ℕ → ℕ → ℕ
total_size elt raw n =
    if ltb 0 n && ltb ((size_max / elt + 2 ^ 64 - raw) % 2 ^ 64) n
    then size_max
    else (n * elt + raw) % 2 ^ 64

-- Which allocator: none (a vector laid over a buffer), plain memory, pages that can shrink at the
-- front, or a file.
pub data Alloc : Type 0 where
  null mem flex mmap : Alloc

-- Can its `reallocate` give this many elements, dropping `from` at the front? Only the flexible one
-- accepts an address behind the start.
abbrev pub can_move : Alloc → ℕ → Bool
can_move null from = false
can_move flex from = true
can_move _ from = from == 0

abbrev pub has_alloc : Alloc → Bool
has_alloc null = false
has_alloc _ = true

pub record Vec {ℓ} (T : Type ℓ) : Type ℓ where
  pub items : List T
  pub ordered : Bool
  pub capacity : ℕ
  pub alloc : Alloc

module _ {ℓ} {T : Type ℓ} where
  abbrev pub size : Vec T → ℕ
  size v = length v.items

  -- operator[] throws where `i > size() - 1`, a comparison of unsigned numbers.
  unfoldable pub at : (ℕ → T) → Vec T → ℕ → Option T
  at junk v i =
      if ltb ((size v + 2 ^ 64 - 1) % 2 ^ 64) i then none else some (get_or v.items i (junk i))

  unfoldable pub front : Vec T → Option T
  front v = get_elem? v.items 0

  unfoldable pub back : Vec T → Option T
  back v = if size v == 0 then none else get_elem? v.items (size v - 1)

  -- resize(n, from): drops `from` elements at the front, then cuts or extends to n.
  abbrev pub pad : (ℕ → T) → ℕ → ℕ → List T
  pad junk k zero = []
  pad junk k (suc n) = junk k ∷ pad junk (k + 1) n

  unfoldable pub resize : (ℕ → T) → Vec T → ℕ → ℕ → Option (Vec T)
  resize junk v n from =
      if ltb (size v) from
      then none
      else if not (from == 0) || not (n == size v)
      then (if can_move v.alloc from
          then some (record v {
            items = take n (drop from v.items ++ pad junk (size v - from) (n + from - size v));
            capacity = grow_capacity n;
          })
          else none)
      else some v

  -- resize(n, from, v) fills what is new.
  unfoldable pub resize_fill : Vec T → ℕ → ℕ → T → Option (Vec T)
  unfolding resize
  resize_fill v n from x = if leb (size v) from then none else resize (λ i. x) v n from

module _ {ℓ} {T : Type ℓ} (lt : T → T → Bool) where
  -- Do the elements ascend strictly by the comparator?
  abbrev pub ascending_from : T → List T → Bool
  ascending_from x [] = true
  ascending_from x (y ∷ ys) = lt x y && ascending_from y ys

  abbrev pub ascending : List T → Bool
  ascending [] = true
  ascending (x ∷ xs) = ascending_from x xs

  -- Vector(n, value)
  unfoldable pub filled : ℕ → T → Vec T
  filled n x = record {
    items = replicate n x;
    ordered = if ltb 1 n then lt x x else true;
    capacity = grow_capacity n;
    alloc = mem;
  }

  -- The loop of the constructors from iterators and from a list: `ordered` is cleared at each pair
  -- that does not ascend.
  unfoldable pub scan : T → Bool → List T → Bool
  scan x ok [] = ok
  scan x ok (y ∷ ys) = scan y (if not (lt x y) then false else ok) ys

  unfoldable pub of_list : List T → Vec T
  unfolding scan
  of_list xs = record {
    items = xs;
    ordered = elim xs [ [] ↦ true | x ∷ ys ↦ scan x true ys ];
    capacity = grow_capacity (length xs);
    alloc = mem;
  }

  unfoldable pub last_lt : List T → T → Bool
  last_lt [] x = true
  last_lt (y ∷ []) x = lt y x
  last_lt (y ∷ z ∷ zs) x = last_lt (z ∷ zs) x

  unfoldable pub push_back : Vec T → T → Option (Vec T)
  unfolding last_lt
  push_back v x =
      if ltb v.capacity (size v + 1) && not (has_alloc v.alloc)
      then none
      else some (record v {
        items = v.items ++ x ∷ [];
        ordered = if ltb 0 (size v) then v.ordered && last_lt v.items x else true;
        capacity = if ltb v.capacity (size v + 1) then grow_capacity (size v) else v.capacity;
      })

  -- checkAndSetOrdered(), from the element at which its loop stands.
  unfoldable pub check_from : T → List T → Bool
  check_from x [] = true
  check_from x (y ∷ ys) = if not (lt x y) then false else check_from y ys

  unfoldable pub check_and_set_ordered : Vec T → Vec T
  unfolding check_from
  check_and_set_ordered v = record v {
    ordered = elim v.items [ [] ↦ true | x ∷ ys ↦ check_from x ys ];
  }

  -- Is the element at `i` below (above) x? Only asked inside the bounds.
  unfoldable pub elem_lt : List T → ℕ → T → Bool
  elem_lt xs i x = elim (get_elem? xs i) [ none ↦ true | some y ↦ lt y x ]

  unfoldable pub lt_elem : T → List T → ℕ → Bool
  lt_elem x xs i = elim (get_elem? xs i) [ none ↦ true | some y ↦ lt x y ]

  unfoldable pub setv : Vec T → ℕ → T → Option (Vec T)
  unfolding elem_lt lt_elem
  setv v i x =
      if leb (size v) i
      then none
      else let o1 = (if v.ordered && ltb 0 i then elem_lt v.items (i - 1) x else v.ordered) in
        let o2 =
          (if v.ordered && ltb i (size v - 1) then o1 && lt_elem x v.items (i + 1) else o1) in
        some (record v { items = set v.items i x; ordered = o2 })

  unfoldable pub setv_checkbefore : Vec T → ℕ → T → Option (Vec T)
  unfolding elem_lt
  setv_checkbefore v i x =
      if leb (size v) i
      then none
      else some (record v {
        items = set v.items i x;
        ordered = if v.ordered && ltb 0 i then elem_lt v.items (i - 1) x else v.ordered;
      })

  -- apply<F>(u...): a pass that rewrites each element in place, to the value of F at the element and
  -- the operands' elements at its position. `value i x` is that value, and `none` where an operand has
  -- no such element or F throws. `k` rounds are left, from element i on.
  unfoldable pub apply_loop : (ℕ → T → Option T) → ℕ → ℕ → Vec T → Option (Vec T)
  unfolding setv_checkbefore
  apply_loop value zero i v = some v
  apply_loop value (suc k) i v = elim (get_elem? v.items i) [
    | none ↦ none
    | some x ↦ elim (value i x) [
      | none ↦ none
      | some y ↦ elim (setv_checkbefore v i y) [
        | none ↦ none
        | some w ↦ apply_loop value k (i + 1) w
      ]
    ]
  ]

  unfoldable pub apply : (ℕ → T → Option T) → Vec T → Option (Vec T)
  unfolding apply_loop
  apply value v = apply_loop value (size v) 0 (record v { ordered = true })

  -- init(count, value), over a vector with an allocator.
  unfoldable pub init : Vec T → ℕ → T → Option (Vec T)
  unfolding resize
  init v n x = elim (resize (λ i. x) v n 0) [
    | none ↦ none
    | some w ↦ some (record w { items = replicate n x; ordered = if ltb 1 n then lt x x else true })
  ]
