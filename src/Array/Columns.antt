-- ===== src/Array/Columns.antt =====
-- The columns that the loop over getfirstcol and getnextcol meets, in which order.
use ztsdb.Base.{
  ℕ, zero, suc, ◌^◌, ◌≤◌, ◌<◌, ◌≡◌, refl, ap, sym, subst, ◌∙◌, true, false, Option, none, some,
  List, [], ◌∷◌, ◌++◌, map, length, all, arith,
}
use ztsdb.Index.{Cursor, Step, start}
use ztsdb.Array.{
  Axis, first_all, next_all, value, at_column, getfirstcol, getnextcol, columns_from, columns,
  column, product,
}
use ztsdb.Array.Shape.{within, place, column-place}

-- From a cursor on, `next` gives these positions, and then ends and is back where `first` begins.
abbrev pub Runs : Step → Cursor → Cursor → ℕ → List ℕ → Type 0
Runs next c0 c p [] = (c.val ≡ p) × ((next c).0 ≡ false) × ((next c).1 ≡ c0)
Runs next c0 c p (q ∷ ps) = (c.val ≡ p) × ((next c).0 ≡ true) × Runs next c0 (next c).1 q ps

-- The positions of each dimension, at least one, of an index that starts anew after its last.
abbrev pub Cycles : List Axis → List (ℕ × List ℕ) → Type 0
Cycles [] [] = true ≡ true
Cycles [] (p ∷ ps) = true ≡ false
Cycles (a ∷ axes) [] = true ≡ false
Cycles (a ∷ axes) ((p, ps) ∷ pss) =
    ((a.0 start).0 ≡ true) × Runs a.1 (a.0 start).1 (a.0 start).1 p ps × Cycles axes pss

abbrev pub each : List ℕ → List ℕ → List (List ℕ)
each [] t = []
each (p ∷ ps) t = (p ∷ t) ∷ each ps t

abbrev pub each_all : List ℕ → List (List ℕ) → List (List ℕ)
each_all ps [] = []
each_all ps (t ∷ ts) = each ps t ++ each_all ps ts

-- All choices of a position in every dimension, the first dimension fastest.
abbrev pub choices : List (ℕ × List ℕ) → List (List ℕ)
choices [] = [] ∷ []
choices ((p, ps) ∷ pss) = each_all (p ∷ ps) (choices pss)

-- From these cursors on, `next_all` gives these positions, and then ends.
abbrev pub Enumerates : List Axis → List Cursor → List ℕ → List (List ℕ) → Type 0
Enumerates axes cs t [] = (map value cs ≡ t) × (next_all axes cs ≡ none)
Enumerates axes cs t (u ∷ us) =
    (map value cs ≡ t)
    × (cs' : List Cursor) × (next_all axes cs ≡ some cs')
    × Enumerates axes cs' u us

cons_eq : {x y : ℕ} {xs ys : List ℕ} → x ≡ y → xs ≡ ys → x ∷ xs ≡ y ∷ ys
cons_eq {x} {y} {xs} {ys} e es = ap (λ z. z ∷ xs) e ∙ ap (◌∷◌ y) es

-- One dimension more in front: from `c` in it and `cs` in the others.
Enumerates-cons :
    (first next : Step) (c0 c : Cursor) (p0 p : ℕ) (ps0 ps : List ℕ) (axes : List Axis)
    (cs : List Cursor) (t : List ℕ) (ts : List (List ℕ))
    → Runs next c0 c0 p0 ps0
    → Runs next c0 c p ps
    → Enumerates axes cs t ts
    → Enumerates ((first, next) ∷ axes) (c ∷ cs) (p ∷ t) (each ps t ++ each_all (p0 ∷ ps0) ts)
unfolding next_all
Enumerates-cons first next c0 c p0 p ps0 (q ∷ ps) axes cs t [] r0 r e = (
  cons_eq r.0 e.0,
  (next c).1 ∷ cs,
  ground (arith, r.1),
  Enumerates-cons first next c0 (next c).1 p0 q ps0 ps axes cs t [] r0 r.2 e,
)
Enumerates-cons first next c0 c p0 p ps0 (q ∷ ps) axes cs t (u ∷ us) r0 r e = (
  cons_eq r.0 e.0,
  (next c).1 ∷ cs,
  ground (arith, r.1),
  Enumerates-cons first next c0 (next c).1 p0 q ps0 ps axes cs t (u ∷ us) r0 r.2 e,
)
Enumerates-cons first next c0 c p0 p ps0 [] axes cs t [] r0 r e =
    (cons_eq r.0 e.0, ground (arith, r.1, e.1))
Enumerates-cons first next c0 c p0 p ps0 [] axes cs t (u ∷ us) r0 r e = (
  cons_eq r.0 e.0,
  c0 ∷ e.1,
  ground (arith, r.1, r.2, e.2),
  Enumerates-cons first next c0 c0 p0 p0 ps0 ps0 axes e.1 u us r0 r0 e.3,
)

first_all-choices :
    (axes : List Axis) (pss : List (ℕ × List ℕ))
    → Cycles axes pss
    → (cs : List Cursor) × (t : List ℕ) × (ts : List (List ℕ)) × (first_all axes ≡ some cs)
      × (choices pss ≡ t ∷ ts)
      × Enumerates axes cs t ts
unfolding first_all next_all
first_all-choices [] [] h = ([], [], [], refl, refl, (refl, refl))
first_all-choices [] (p ∷ ps) h = absurd (ground (arith, h))
first_all-choices (a ∷ axes) [] h = absurd (ground (arith, h))
first_all-choices ((first, next) ∷ axes) ((p, ps) ∷ pss) h =
    let (cs, t, ts, f, c, e) = first_all-choices axes pss h.2 in
    let c0 = (first start).1 in
    (
      c0 ∷ cs,
      p ∷ t,
      each ps t ++ each_all (p ∷ ps) ts,
      ground (arith, h.0, f),
      ap (each_all (p ∷ ps)) c,
      Enumerates-cons first next c0 c0 p p ps ps axes cs t ts h.1 h.1 e,
    )

at_column-place :
    (ds : List ℕ) (cs : List Cursor) (t : List ℕ)
    → map value cs ≡ t
    → within ds t ≡ true
    → product ds < 2 ^ 64
    → at_column ds (some cs) ≡ some (some (place ds t, cs))
at_column-place ds cs t e w b =
    let q : column ds (map value cs) ≡ some (place ds t) =
      ap (column ds) e ∙ column-place ds t w b in
    rw (q, at_column) refl

abbrev with_column : ℕ → Option (List ℕ) → Option (List ℕ)
with_column col o = elim o [ none ↦ none | some rest ↦ some (col ∷ rest) ]

columns_from-Enumerates :
    (fuel : ℕ) (axes : List Axis) (ds : List ℕ) (cs : List Cursor) (t : List ℕ) (ts : List (List ℕ))
    → Enumerates axes cs t ts
    → all (within ds) (t ∷ ts) ≡ true
    → product ds < 2 ^ 64
    → length ts < fuel
    → columns_from fuel axes ds (at_column ds (some cs)) ≡ some (map (place ds) (t ∷ ts))
unfolding columns_from getnextcol
columns_from-Enumerates zero axes ds cs t ts e w b f = absurd (omega arith)
columns_from-Enumerates (suc fuel) axes ds cs t [] e w b f =
    let c = at_column-place ds cs t e.0 (ground (arith, w)) b in
    ap (columns_from (suc fuel) axes ds) c
    ∙ ap (with_column (place ds t)) (ap (λ o. columns_from fuel axes ds (at_column ds o)) e.1)
columns_from-Enumerates (suc fuel) axes ds cs t (u ∷ us) e w b f =
    let c = at_column-place ds cs t e.0 (ground (arith, w)) b in
    let rec =
      columns_from-Enumerates fuel axes ds e.1 u us e.3 (ground (arith, w)) b (omega arith) in
    ap (columns_from (suc fuel) axes ds) c
    ∙ ap (with_column (place ds t)) (ap (λ o. columns_from fuel axes ds (at_column ds o)) e.2 ∙ rec)

-- For indices that each have a position, start anew after their last, and stay within their
-- dimension, in an array of fewer than 2^64 columns, and for as many rounds as there are choices:
-- the loop over getfirstcol and getnextcol meets the columns of all choices of a position in every
-- dimension, the first of these dimensions fastest, and ends.
pub columns-choices :
    (fuel : ℕ) (axes : List Axis) (ds : List ℕ) (pss : List (ℕ × List ℕ))
    → Cycles axes pss
    → all (within ds) (choices pss) ≡ true
    → product ds < 2 ^ 64
    → length (choices pss) ≤ fuel
    → columns fuel axes ds ≡ some (map (place ds) (choices pss))
unfolding columns getfirstcol
columns-choices fuel axes ds pss h w b f =
    let (cs, t, ts, first, c, e) = first_all-choices axes pss h in
    ap (λ o. columns_from fuel axes ds (at_column ds o)) first
    ∙ columns_from-Enumerates fuel axes ds cs t ts e (subst (λ l. all (within ds) l ≡ true) c w) b
        (subst (λ l. length l ≤ fuel) c f)
    ∙ ap (λ l. some (map (place ds) l)) (sym c)
