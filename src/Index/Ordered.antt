-- ===== src/Index/Ordered.antt =====
-- IntIndex_T: the positions in the order in which subassign writes to them (`vidx`), and which value
-- goes to each (`uidx`). Negative positions are not modelled.
-- `sort_idx` is Vector::sort_idx. Its result is used here as the place that each element goes to,
-- although it says which element goes to each place.
use ztsdb.Base.{
  ℕ, ◌+◌, ◌≡◌, refl, ap, ◌∙◌, Bool, true, leb, ◌==◌, if◌then◌else◌, Option, none, some, List, [],
  ◌∷◌, length, get_elem?, set, replicate, arith, Option-cases, inl, inr,
}
use ztsdb.Vector.{Vec, size, setv, setv_checkbefore}
use ztsdb.Index.Null.{range}
use ztsdb.Index.Written.{items_of, written, items-setv, items-setv_checkbefore}

-- `setv(dest, idx[j], xs[j])` for each j, inside the bounds.
abbrev pub scatter : List ℕ → List ℕ → List ℕ → List ℕ
scatter [] xs dest = dest
scatter (i ∷ is) [] dest = dest
scatter (i ∷ is) (x ∷ xs) dest = scatter is xs (set dest i x)

-- IntIndex_T(vi): `vidx` and `uidx`.
unfoldable pub make : (List ℕ → List ℕ) → Bool → List ℕ → List ℕ × List ℕ
make sort_idx ordered vi =
    let zeros = replicate (length vi) 0 in
    if ordered
    then (vi, range 0 (length vi))
    else (scatter (sort_idx vi) vi zeros, scatter (sort_idx vi) (range 0 (length vi)) zeros)

module _ {ℓ} {T : Type ℓ} (lt : T → T → Bool) where
  -- One write: `setv_checkbefore` where the next position is the one behind it.
  abbrev pub put_at : List ℕ → Vec T → ℕ → T → Option (Vec T)
  put_at [] v j x = setv lt v j x
  put_at (nextj ∷ js) v j x = if nextj == j + 1 then setv_checkbefore lt v j x else setv lt v j x

  -- subassign, from a position in `vidx` and `uidx` on.
  unfoldable pub subassign : List ℕ → List ℕ → Vec T → List T → ℕ → Option (Vec T)
  subassign [] us v u vj = some v
  subassign (j ∷ js) [] v u vj = some v
  subassign (j ∷ js) (k ∷ ks) v u vj = elim (get_elem? u (vj + k)) [
    | none ↦ none
    | some x ↦ elim (put_at js v j x) [ none ↦ none | some w ↦ subassign js ks w u vj ]
  ]

  -- subassignScalar
  unfoldable pub subassign_scalar : List ℕ → Vec T → T → Option (Vec T)
  subassign_scalar [] v x = some v
  subassign_scalar (j ∷ js) v x = elim (put_at js v j x) [
    | none ↦ none
    | some w ↦ subassign_scalar js w x
  ]

module _ {T : Type 0} (lt : T → T → Bool) where
  items-put_at :
      (js : List ℕ) (v : Vec T) (j : ℕ) (x : T)
      → items_of (put_at lt js v j x) ≡ (if leb (size v) j then none else some (set v.items j x))
  items-put_at [] v j x = items-setv lt v j x
  items-put_at (nextj ∷ js) v j x =
      ground (arith, items-setv lt v j x, items-setv_checkbefore lt v j x)

  items-subassign_from :
      (js : List ℕ) (v : Vec T) (u : List T) (vj k : ℕ)
      → items_of (subassign lt js (range k (length js)) v u vj) ≡ written js v.items u (vj + k)
  unfolding subassign
  items-subassign_from [] v u vj k = refl
  items-subassign_from (j ∷ js) v u vj k = elim (Option-cases (get_elem? u (vj + k))) [
    | inl e ↦ ground (arith, e)
    | inr p ↦
        let (x, e) = p in
        elim (Option-cases (put_at lt js v j x)) [
          | inl q ↦ ground (arith, e, q, items-put_at js v j x)
          | inr s ↦
              let (w, q) = s in
              ground (
                arith,
                e,
                q,
                items-put_at js v j x,
                items-subassign_from js w u vj (k + 1),
                ap (λ n. written js w.items u n)
                    (let a : vj + (k + 1) ≡ vj + k + 1 = omega arith in a),
              )
        ]
  ]

  -- subassign by an integer index that is flagged as ordered writes the values, from the position in
  -- them on, one after the other to its positions, and throws exactly where a position is out of
  -- bounds or the values run out.
  items-subassign :
      (sort_idx : List ℕ → List ℕ) (vi : List ℕ) (v : Vec T) (u : List T) (vj : ℕ)
      → items_of (subassign lt (make sort_idx true vi).0 (make sort_idx true vi).1 v u vj)
        ≡ written vi v.items u vj
  unfolding make
  items-subassign sort_idx vi v u vj =
      items-subassign_from vi v u vj 0
      ∙ ap (λ n. written vi v.items u n) (let a : vj + 0 ≡ vj = omega arith in a)
