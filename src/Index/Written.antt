-- ===== src/Index/Written.antt =====
-- What subassign leaves in the cells.
use ztsdb.Base.{
  ℕ, ◌+◌, ◌≡◌, refl, Bool, leb, if◌then◌else◌, Option, none, some, List, [], ◌∷◌, length, get_elem?,
  set, arith, Option-cases, inl, inr,
}
use ztsdb.Vector.{Vec, size, setv, setv_checkbefore}
use ztsdb.Index.{Step, visit}
use ztsdb.Index.Assign.{put_before, put_each, subassign}

module _ {T : Type 0} where
  abbrev pub items_of : Option (Vec T) → Option (List T)
  items_of none = none
  items_of (some v) = some v.items

  abbrev pub cells_of : Option (Vec T × ℕ) → Option (List T)
  cells_of none = none
  cells_of (some (v, vj)) = some v.items

  -- What is to be in the cells after the writes: the values of `u` from `vj` on, at the positions,
  -- a later write over an earlier one.
  abbrev pub written : List ℕ → List T → List T → ℕ → Option (List T)
  written [] xs u vj = some xs
  written (j ∷ js) xs u vj = elim (get_elem? u vj) [
    | none ↦ none
    | some x ↦ if leb (length xs) j then none else written js (set xs j x) u (vj + 1)
  ]

module _ {T : Type 0} (lt : T → T → Bool) where
  pub items-setv :
      (v : Vec T) (j : ℕ) (x : T)
      → items_of (setv lt v j x) ≡ (if leb (size v) j then none else some (set v.items j x))
  unfolding setv
  items-setv v j x = ground arith

  pub items-setv_checkbefore :
      (v : Vec T) (j : ℕ) (x : T)
      → items_of (setv_checkbefore lt v j x)
        ≡ (if leb (size v) j then none else some (set v.items j x))
  unfolding setv_checkbefore
  items-setv_checkbefore v j x = ground arith

  items-put_before :
      (js : List ℕ) (v : Vec T) (j : ℕ) (x : T)
      → items_of (put_before lt js v j x)
        ≡ (if leb (size v) j then none else some (set v.items j x))
  items-put_before [] v j x = items-setv v j x
  items-put_before (nextj ∷ js) v j x =
      ground (arith, items-setv v j x, items-setv_checkbefore v j x)

  cells-put_each :
      (js : List ℕ) (v : Vec T) (u : List T) (vj : ℕ)
      → cells_of (put_each lt js v u vj) ≡ written js v.items u vj
  unfolding put_each
  cells-put_each [] v u vj = refl
  cells-put_each (j ∷ js) v u vj = elim (Option-cases (get_elem? u vj)) [
    | inl e ↦ ground (arith, e)
    | inr p ↦
        let (x, e) = p in
        elim (Option-cases (put_before lt js v j x)) [
          | inl q ↦ ground (arith, e, q, items-put_before js v j x)
          | inr s ↦
              let (w, q) = s in
              ground (arith, e, q, items-put_before js v j x, cells-put_each js w u (vj + 1))
        ]
  ]

  -- subassign writes the values, from the position in them on, one after the other to the positions
  -- that the index gives, and throws exactly where a position is out of bounds or the values run out;
  -- which of the two functions writes a cell makes no difference to the cells.
  pub cells-subassign :
      (fuel : ℕ) (getfirst getnext : Step) (v : Vec T) (u : List T) (vj : ℕ)
      → cells_of (subassign lt fuel getfirst getnext v u vj)
        ≡ written (visit fuel getfirst getnext) v.items u vj
  unfolding subassign
  cells-subassign fuel getfirst getnext v u vj = cells-put_each (visit fuel getfirst getnext) v u vj
