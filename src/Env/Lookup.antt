-- ===== src/Env/Lookup.antt =====
-- What is found after a variable is set.
use Prim.Native.String.{String}
use text.Mathlib.Text.{◌==◌ as str_eq}
use text.Mathlib.TextEquality.{eq_iff}
use ztsdb.Base.{
  ◌≡◌, refl, ◌∙◌, ap, ◌⊎◌, sym, Bool, true, false, ◌&&◌, ◌||◌, not, if◌then◌else◌, none, some, List,
  [], ◌∷◌, arith, Bool-cases, inl, inr,
}
use ztsdb.Env.{
  is_temporary, lookup, put, is_some, Kind, base, closure, native, shadow, Frame, table, with_table,
  own, find, passes, add,
}

-- The cases of a test of two names.
pub str_eq-cases : (s t : String) → (str_eq s t ≡ true) × (s ≡ t) ⊎ (str_eq s t ≡ false)
str_eq-cases s t = elim (Bool-cases (str_eq s t)) [
  | inl e ↦ inl (e, (eq_iff s t).0 e)
  | inr e ↦ inr e
]

pub lookup-put :
    {V : Type 0} (m : List (String × V)) (s t : String) (v : V)
    → lookup (put m s v) t ≡ (if str_eq s t then some v else lookup m t)
unfolding lookup put
lookup-put [] s t v = refl
lookup-put ((k, w) ∷ m) s t v = elim (str_eq-cases k s) [
  | inl (e, q) ↦ ground (arith, e, ap (λ x. str_eq x t) q)
  | inr e ↦ elim (str_eq-cases s t) [
    | inl (g, q) ↦ ground (arith, e, g, ap (str_eq k) (sym q), lookup-put m s t v)
    | inr g ↦ ground (arith, e, g, lookup-put m s t v)
  ]
]

lookup-table :
    {V : Type 0} (f : Frame V) (s t : String) (v : V)
    → lookup (table (with_table f s (put (table f s) s v)) t) t
      ≡ (if str_eq s t then some v else lookup (table f t) t)
lookup-table f s t v = elim (str_eq-cases s t) [
  | inl (e, q) ↦ ground (arith, e, ap is_temporary q, lookup-put f.m s t v, lookup-put f.mtmp s t v)
  | inr e ↦ ground (arith, e, lookup-put f.m s t v, lookup-put f.mtmp s t v)
]

-- Whether a builtin's frame has an argument of the name.
abbrev pub is_argument : {V : Type 0} → Kind → Frame V → String → Bool
is_argument native f s = is_some (lookup f.mv s)
is_argument k f s = false

own-put :
    {V : Type 0} (k : Kind) (f : Frame V) (s t : String) (v : V)
    → passes k s ≡ false
    → is_argument k f s ≡ false
    → own k (with_table f s (put (table f s) s v)) t ≡ (if str_eq s t then some v else own k f t)
own-put base f s t v h n = lookup-table f s t v
own-put closure f s t v h n = lookup-table f s t v
own-put native f s t v h n = elim (str_eq-cases s t) [
  | inl (e, q) ↦ ground (arith, e, n, ap (lookup f.mv) q, lookup-table f s t v)
  | inr e ↦ ground (arith, e, n, lookup-table f s t v)
]
own-put shadow f s t v h n = elim (str_eq-cases s t) [
  | inl (e, q) ↦ ground (arith, h, e, ap is_temporary q, lookup-put f.mtmp s t v)
  | inr e ↦ ground (arith, h, e, lookup-put f.mtmp s t v)
]

-- No builtin's frame of the chain has an argument of the name.
abbrev pub free_of : {V : Type 0} → List (Frame V) → String → Bool
free_of [] s = true
free_of (f ∷ up) s = not (is_argument f.kind f s) && free_of up s

-- Some frame keeps variables of that name itself.
abbrev pub has_keeper : {V : Type 0} → List (Frame V) → String → Bool
has_keeper [] s = false
has_keeper (f ∷ up) s = not (passes f.kind s) || has_keeper up s

kind-with_table :
    {V : Type 0} (f : Frame V) (s : String) (t : List (String × V))
    → (with_table f s t).kind ≡ f.kind
kind-with_table f s t = ground arith

own-passes :
    {V : Type 0} (k : Kind) (f : Frame V) (s : String) → passes k s ≡ true → own k f s ≡ none
own-passes base f s h = ground (arith, h)
own-passes closure f s h = ground (arith, h)
own-passes native f s h = ground (arith, h)
own-passes shadow f s h = ground (arith, h)

-- A frame in place of another that finds the same, but for one name.
pub find-head :
    {V : Type 0} (f g : Frame V) (up : List (Frame V)) (s t : String) (v : V)
    → own g.kind g t ≡ (if str_eq s t then some v else own f.kind f t)
    → find (g ∷ up) t ≡ (if str_eq s t then some v else find (f ∷ up) t)
unfolding find
find-head f g up s t v e = ground (arith, e)

-- In a chain where some frame keeps the name and no builtin's argument has it, `add` succeeds, and
-- then finds the new value under that name, and what was found before under every other.
pub find-add :
    {V : Type 0} (c : List (Frame V)) (s : String) (v : V)
    → has_keeper c s ≡ true
    → free_of c s ≡ true
    → (c' : List (Frame V)) × (add c s v ≡ some c')
      × ((t : String) → find c' t ≡ (if str_eq s t then some v else find c t))
unfolding add find
find-add [] s v h n = absurd (ground arith)
find-add (f ∷ up) s v h n = elim (Bool-cases (passes f.kind s)) [
  | inl p ↦
      let (c', e, law) = find-add up s v (ground (arith, p)) (ground arith) in
      (
        f ∷ c',
        ground (arith, p, e),
        λ t. elim (str_eq-cases s t) [
          | inl (q, r) ↦ ground (arith, q, law t, own-passes f.kind f s p, ap (own f.kind f) r)
          | inr q ↦ ground (arith, q, law t)
        ],
      )
  | inr p ↦ (
    with_table f s (put (table f s) s v) ∷ up,
    ground (arith, p),
    λ t.
        let g = with_table f s (put (table f s) s v) in
        find-head f g up s t v (
          ap (λ k. own k g t) (kind-with_table f s (put (table f s) s v))
          ∙ own-put f.kind f s t v p (ground (arith, n))),
  )
]
