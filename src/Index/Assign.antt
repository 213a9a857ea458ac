-- ===== src/Index/Assign.antt =====
-- subassign_generic and subassignScalar_generic: an index's positions written one by one. A position
-- directly before the next one is written by `setv_checkbefore`, any other by `setv`, so that the
-- flag on the order of the elements is kept up.
-- The positions are those that the index gives (`visit`); `next - j` wraps around below 0, and is
-- then above 1.
use ztsdb.Base.{
  ℕ, zero, suc, ◌+◌, Bool, ◌&&◌, leb, if◌then◌else◌, Option, none, some, List, [], ◌∷◌, get_elem?,
}
use ztsdb.Vector.{Vec, setv, setv_checkbefore}
use ztsdb.Index.{Step, visit}

module _ {ℓ} {T : Type ℓ} (lt : T → T → Bool) where
  -- One write, at `j`, where `nextj` is the next position.
  abbrev pub put : Vec T → ℕ → ℕ → T → Option (Vec T)
  put v j nextj x =
      if leb j nextj && leb nextj (j + 1) then setv_checkbefore lt v j x else setv lt v j x

  -- The write at `j`, before the writes at the positions `js`: the last one is by `setv`.
  abbrev pub put_before : List ℕ → Vec T → ℕ → T → Option (Vec T)
  put_before [] v j x = setv lt v j x
  put_before (nextj ∷ js) v j x = put v j nextj x

  -- The writes at the positions given, from `u` on; `vj` is where the next value stands. Reading
  -- behind the end of `u` throws.
  unfoldable pub put_each : List ℕ → Vec T → List T → ℕ → Option (Vec T × ℕ)
  put_each [] v u vj = some (v, vj)
  put_each (j ∷ js) v u vj = elim (get_elem? u vj) [
    | none ↦ none
    | some x ↦ elim (put_before js v j x) [ none ↦ none | some w ↦ put_each js w u (vj + 1) ]
  ]

  -- subassign_generic, with fuel for the positions.
  unfoldable pub subassign : ℕ → Step → Step → Vec T → List T → ℕ → Option (Vec T × ℕ)
  unfolding put_each visit
  subassign fuel getfirst getnext v u vj = put_each (visit fuel getfirst getnext) v u vj

  unfoldable pub put_scalar : List ℕ → Vec T → T → Option (Vec T)
  put_scalar [] v x = some v
  put_scalar (j ∷ js) v x = elim (put_before js v j x) [ none ↦ none | some w ↦ put_scalar js w x ]

  -- subassignScalar_generic
  unfoldable pub subassign_scalar : ℕ → Step → Step → Vec T → T → Option (Vec T)
  unfolding put_scalar visit
  subassign_scalar fuel getfirst getnext v x = put_scalar (visit fuel getfirst getnext) v x

  -- NullIndex::subassign: `n` positions are left, from j on.
  unfoldable pub assign_all : ℕ → ℕ → Vec T → List T → ℕ → Option (Vec T × ℕ)
  assign_all zero j v u vj = some (v, vj)
  assign_all (suc n) j v u vj = elim (get_elem? u vj) [
    | none ↦ none
    | some x ↦ elim (setv_checkbefore lt v j x) [
      | none ↦ none
      | some w ↦ assign_all n (j + 1) w u (vj + 1)
    ]
  ]

  -- NullIndex::subassignScalar
  unfoldable pub assign_all_scalar : ℕ → ℕ → Vec T → T → Option (Vec T)
  assign_all_scalar zero j v x = some v
  assign_all_scalar (suc n) j v x = elim (setv lt v j x) [
    | none ↦ none
    | some w ↦ assign_all_scalar n (j + 1) w x
  ]
