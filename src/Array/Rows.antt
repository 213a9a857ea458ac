-- ===== src/Array/Rows.antt =====
-- The rows that subsetRows gives.
use ztsdb.Base.{
  ℕ, zero, suc, ◌+◌, ◌-◌, ◌%◌, ◌^◌, ◌≤◌, ◌<◌, ◌≡◌, refl, ap, sym, ◌∙◌, Bool, true, false, ◌&&◌, ltb,
  if◌then◌else◌, some, List, [], ◌∷◌, ◌++◌, map, length, length-take, length-drop, get_elem?, take,
  drop, all, arith,
}
use ztsdb.Vector.{Vec, mem, push_back, last_lt, has_alloc, grow_capacity}
use ztsdb.Array.{Array, reserved, copy_rows, copy_columns, subset_rows}
use ztsdb.Array.Cells.{well_formed, is_full, at-get_elem?}

-- The elements of a column, and some of them.
abbrev pub items_of : {T : Type 0} → Vec T → List T
items_of v = v.items

abbrev pub part_of : {T : Type 0} → ℕ → ℕ → Vec T → List T
part_of n from v = take n (drop from v.items)

drop_step :
    {T : Type 0} (n i : ℕ) (xs : List T)
    → i < length xs
    → (x : T) × (get_elem? xs i ≡ some x)
      × (take (suc n) (drop i xs) ≡ x ∷ take n (drop (suc i) xs))
drop_step n i [] h = absurd (omega arith)
drop_step n zero (x ∷ xs) h = (x, refl, refl)
drop_step n (suc i) (x ∷ xs) h = drop_step n i xs (omega arith)

append-append : {T : Type 0} (xs ys zs : List T) → (xs ++ ys) ++ zs ≡ xs ++ (ys ++ zs)
append-append [] ys zs = refl
append-append (x ∷ xs) ys zs = ap (◌∷◌ x) (append-append xs ys zs)

append-nil : {T : Type 0} (xs : List T) → xs ++ [] ≡ xs
append-nil [] = refl
append-nil (x ∷ xs) = ap (◌∷◌ x) (append-nil xs)

cons_eq : {T : Type 0} {x y : T} {xs ys : List T} → x ≡ y → xs ≡ ys → x ∷ xs ≡ y ∷ ys
cons_eq {T} {x} {y} {xs} {ys} e es = ap (λ z. z ∷ xs) e ∙ ap (◌∷◌ y) es

push_back-mem :
    {T : Type 0} (lt : T → T → Bool) (r : Vec T) (x : T)
    → r.alloc ≡ mem
    → (w : Vec T) × (push_back lt r x ≡ some w) × (w.items ≡ r.items ++ x ∷ []) × (w.alloc ≡ mem)
unfolding push_back
push_back-mem lt r x h =
    let free : has_alloc r.alloc ≡ true = ap has_alloc h in
    (
      record r {
        items = r.items ++ x ∷ [];
        ordered = if ltb 0 (length r.items) then r.ordered && last_lt lt r.items x else true;
        capacity =
            if ltb r.capacity (length r.items + 1)
            then grow_capacity (length r.items)
            else r.capacity;
      },
      ground (arith, free),
      refl,
      h,
    )

copy_rows-items :
    {T : Type 0} (lt : T → T → Bool) (junk : ℕ → T) (n from : ℕ) (v r : Vec T)
    → from + n ≤ length v.items
    → length v.items < 2 ^ 64
    → r.alloc ≡ mem
    → (w : Vec T) × (copy_rows lt junk n from v r ≡ some w)
      × (w.items ≡ r.items ++ part_of n from v)
unfolding copy_rows
copy_rows-items lt junk zero from v r h b m = (r, refl, sym (append-nil r.items))
copy_rows-items lt junk (suc n) from v r h b m =
    let (x, e, s) = drop_step n from v.items (omega (arith, h)) in
    let (u, p, i, m') = push_back-mem lt r x m in
    let (w, c, j) = copy_rows-items lt junk n (from + 1) v u (omega (arith, h)) b m' in
    (
      w,
      ground (arith, at-get_elem? junk v from (omega (arith, h)) b, e, p, c),
      j
          ∙ ap (λ l. l ++ part_of n (from + 1) v) i
          ∙ append-append r.items (x ∷ []) (part_of n (from + 1) v)
          ∙ ap (λ l. r.items ++ l)
              (sym (
                s
                ∙ ap (λ k. x ∷ take n (drop k v.items)) {x = suc from} {y = from + 1}
                    (omega arith))),
    )

copy_columns-items :
    {T : Type 0} (lt : T → T → Bool) (junk : ℕ → T) (n from d : ℕ) (vs : List (Vec T))
    → all (is_full d) vs ≡ true
    → from + n ≤ d
    → d < 2 ^ 64
    → (ws : List (Vec T)) × (copy_columns lt junk n n from vs ≡ some ws)
      × (map items_of ws ≡ map (part_of n from) vs)
      × (length ws ≡ length vs)
      × (all (is_full n) ws ≡ true)
unfolding copy_columns
copy_columns-items lt junk n from d [] f h b = ([], refl, refl, refl, refl)
copy_columns-items lt junk n from d (v ∷ vs) f h b =
    let k : length v.items ≡ d = ground (arith, f) in
    let (w, c, i) =
      copy_rows-items lt junk n from v (reserved lt n) (omega (arith, h, k)) (omega (arith, b, k))
        refl in
    let (ws, cs, is, l, a) = copy_columns-items lt junk n from d vs (ground (arith, f)) h b in
    let m : length w.items ≡ n =
      ap length i
      ∙ omega (arith, length-take n (drop from v.items), length-drop from v.items, h, k) in
    (w ∷ ws, ground (arith, c, cs), cons_eq i is, ap suc l, ground (arith, m, a))

-- Of a well-formed array of fewer than 2^64 rows that has the rows, subsetRows gives a well-formed
-- array of these rows of every column, with the other dimensions as they are.
pub subset_rows-part :
    {T : Type 0} (lt : T → T → Bool) (junk : ℕ → T) (d : ℕ) (ds : List ℕ) (vs : List (Vec T))
    (n from : ℕ)
    → well_formed (record { dim = d ∷ ds; cols = vs }) ≡ true
    → from + n ≤ d
    → d < 2 ^ 64
    → (b : Array T) × (subset_rows lt junk (record { dim = d ∷ ds; cols = vs }) n from ≡ some b)
      × (b.dim ≡ n ∷ ds)
      × (map items_of b.cols ≡ map (part_of n from) vs)
      × (well_formed b ≡ true)
unfolding subset_rows
subset_rows-part lt junk d ds vs n from w h b =
    let (ws, c, i, l, a) = copy_columns-items lt junk n from d vs (ground (arith, w)) h b in
    let t : ltb d ((from + n) % 2 ^ 64) ≡ false = ground (arith, h, b) in
    let rows : (from + n) % 2 ^ 64 - from ≡ n = omega (arith, h, b) in
    (
      record { dim = n ∷ ds; cols = ws },
      ground (arith, t, rows, c),
      refl,
      i,
      ground (arith, w, l, a),
    )
