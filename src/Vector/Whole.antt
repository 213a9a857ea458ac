-- ===== src/Vector/Whole.antt =====
-- `apply` and `init`, which rewrite every element of a vector and compute its flag as they go.
use ztsdb.Base.{
  ℕ, ◌+◌, ◌-◌, ◌≡◌, refl, sym, Bool, true, ◌&&◌, ltb, if◌then◌else◌, Option, none, Option-cases,
  inl, inr, some, List, [], ◌∷◌, ◌++◌, length, arith, get_elem?-append_length, set-append_length,
  length-append,
}
use mathlib.Core.List.{append_assoc, append-nil}
use ztsdb.Vector.{Vec, ascending, last_lt, elem_lt, setv_checkbefore, apply_loop, apply}
use ztsdb.Vector.Flag.{ascending-snoc}

module _ {ℓ} {T : Type ℓ} (lt : T → T → Bool) where
  elem_lt-last :
      (y : T) (pre rest : List T) (x : T)
      → elem_lt lt ((y ∷ pre) ++ rest) (length pre) x ≡ last_lt lt (y ∷ pre) x
  unfolding elem_lt last_lt
  elem_lt-last y [] rest x = refl
  elem_lt-last y (z ∷ pre) rest x = elem_lt-last z pre rest x

  pub elem_lt-before :
      (pre rest : List T) (x : T)
      → (if ltb 0 (length pre) then elem_lt lt (pre ++ rest) (length pre - 1) x else true)
        ≡ last_lt lt pre x
  unfolding last_lt
  elem_lt-before [] rest x = refl
  elem_lt-before (y ∷ pre) rest x = ground (arith, elem_lt-last y pre rest x)

  abbrev written : Vec T → List T → T → List T → Vec T
  written v pre y rest = record v {
    items = pre ++ y ∷ rest;
    ordered = ascending lt pre && last_lt lt pre y;
  }

  setv_checkbefore-written :
      (pre rest : List T) (x y : T) (i : ℕ) (v : Vec T)
      → i ≡ length pre
      → v.items ≡ pre ++ x ∷ rest
      → v.ordered ≡ ascending lt pre
      → setv_checkbefore lt v i y ≡ some (written v pre y rest)
  unfolding setv_checkbefore
  setv_checkbefore-written pre rest x y i v h e o = ground (
    arith,
    elem_lt-before pre (x ∷ rest) y,
    set-append_length pre x y rest,
    length-append pre (x ∷ rest),
  )

  -- The values of the elements of `xs`, which stand from position `i` on, if all have one.
  abbrev pub values : (ℕ → T → Option T) → ℕ → List T → Option (List T)
  values value i [] = some []
  values value i (x ∷ xs) = elim (value i x) [
    | none ↦ none
    | some y ↦ elim (values value (i + 1) xs) [ none ↦ none | some ys ↦ some (y ∷ ys) ]
  ]

  -- The vector `v` with the elements of `pre` and then those of `ys`, and with an exact flag.
  abbrev pub exact : Vec T → List T → Option (List T) → Option (Vec T)
  exact v pre none = none
  exact v pre (some ys) = some (record v { items = pre ++ ys; ordered = ascending lt (pre ++ ys) })

  -- What the pass does from behind `pre` on, with `rest` to go.
  apply_loop_lem :
      (value : ℕ → T → Option T) (rest pre : List T) (i : ℕ) (v : Vec T)
      → i ≡ length pre
      → v.items ≡ pre ++ rest
      → v.ordered ≡ ascending lt pre
      → apply_loop lt value (length rest) i v ≡ exact v pre (values value i rest)
  unfolding apply_loop
  apply_loop_lem value [] pre i v h e o = ground (arith, e, o, append-nil pre)
  apply_loop_lem value (x ∷ rest) pre i v h e o = elim (Option-cases (value i x)) [
    | inl q ↦ ground (arith, get_elem?-append_length pre x rest, h, e, q)
    | inr (y, q) ↦
        let pre' = pre ++ y ∷ [] in
        let w = written v pre y rest in
        let rec =
          apply_loop_lem value rest pre' (i + 1) w (omega (arith, length-append pre (y ∷ [])))
            (sym (append_assoc pre (y ∷ []) rest)) (sym (ascending-snoc lt pre y)) in
        let set_ok = setv_checkbefore-written pre rest x y i v h e o in
        elim (Option-cases (values value (i + 1) rest)) [
          | inl n ↦ ground (arith, get_elem?-append_length pre x rest, h, e, q, set_ok, rec, n)
          | inr (ys, n) ↦ ground (
            arith,
            get_elem?-append_length pre x rest,
            h,
            e,
            q,
            set_ok,
            rec,
            n,
            append_assoc pre (y ∷ []) ys,
          )
        ]
  ]

  -- apply throws exactly where the value that is to be written has none for some element; otherwise
  -- it rewrites each element to its value, and leaves the ordered flag exact, whatever it was
  -- before.
  pub apply-ordered :
      (value : ℕ → T → Option T) (v : Vec T)
      → apply lt value v ≡ exact v [] (values value 0 v.items)
  unfolding apply
  apply-ordered value v =
      apply_loop_lem value v.items [] 0 (record v { ordered = true }) refl refl refl
