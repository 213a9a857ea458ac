-- ===== src/Env/Special.antt =====
-- What is found after a variable is set, or removed, across frames.
use Prim.Native.String.{String}
use text.Mathlib.Text.{◌==◌ as str_eq}
use ztsdb.Base.{
  ◌≡◌, refl, ap, Bool, true, false, ◌&&◌, ◌||◌, if◌then◌else◌, none, some, List, [], ◌∷◌, arith,
  Bool-cases, inl, inr,
}
use ztsdb.Env.{
  is_temporary, lookup, put, erase, is_some, Kind, base, closure, native, shadow, Frame, own, find,
  takes, add_special, without, removes, remove_special,
}
use ztsdb.Env.Lookup.{str_eq-cases, lookup-put, is_argument, free_of, find-head}

-- Every frame but a shadow one keeps variables.
abbrev pub keeps : Kind → Bool
keeps shadow = false
keeps k = true

-- Some frame that keeps variables has one of that name, or is the global one.
abbrev pub has_taker : {V : Type 0} → List (Frame V) → String → Bool
has_taker [] s = false
has_taker (f ∷ up) s =
    (keeps f.kind && (is_some (lookup f.m s) || str_eq f.name "global")) || has_taker up s

takes-keeps :
    {V : Type 0} (k : Kind) (f : Frame V) (s : String)
    → takes k f s ≡ (keeps k && (is_some (lookup f.m s) || str_eq f.name "global"))
takes-keeps base f s = refl
takes-keeps closure f s = refl
takes-keeps native f s = refl
takes-keeps shadow f s = refl

own-taken :
    {V : Type 0} (k : Kind) (f : Frame V) (s t : String) (v : V)
    → is_temporary s ≡ false
    → takes k f s ≡ true
    → is_argument k f s ≡ false
    → own k (record f { m = put f.m s v }) t ≡ (if str_eq s t then some v else own k f t)
own-taken base f s t v h y n = elim (str_eq-cases s t) [
  | inl (e, q) ↦ ground (arith, h, e, ap is_temporary q, lookup-put f.m s t v)
  | inr e ↦ ground (arith, h, e, lookup-put f.m s t v)
]
own-taken closure f s t v h y n = elim (str_eq-cases s t) [
  | inl (e, q) ↦ ground (arith, h, e, ap is_temporary q, lookup-put f.m s t v)
  | inr e ↦ ground (arith, h, e, lookup-put f.m s t v)
]
own-taken native f s t v h y n = elim (str_eq-cases s t) [
  | inl (e, q) ↦
      ground (arith, h, e, n, ap (lookup f.mv) q, ap is_temporary q, lookup-put f.m s t v)
  | inr e ↦ ground (arith, h, e, lookup-put f.m s t v)
]
own-taken shadow f s t v h y n = absurd (ground (arith, y))

own-untaken :
    {V : Type 0} (k : Kind) (f : Frame V) (s : String)
    → is_temporary s ≡ false
    → takes k f s ≡ false
    → is_argument k f s ≡ false
    → own k f s ≡ none
own-untaken base f s h y n = ground (arith, h, y)
own-untaken closure f s h y n = ground (arith, h, y)
own-untaken native f s h y n = ground (arith, h, y, n)
own-untaken shadow f s h y n = ground (arith, h)

-- For a name that is no temporary's, in a chain where some frame that is no shadow has it or is the
-- global one and no builtin's argument has it, add_special succeeds, and then finds the new value
-- under that name, and what was found before under every other.
pub find-add_special :
    {V : Type 0} (c : List (Frame V)) (s : String) (v : V)
    → is_temporary s ≡ false
    → has_taker c s ≡ true
    → free_of c s ≡ true
    → (c' : List (Frame V)) × (add_special c s v ≡ some c')
      × ((t : String) → find c' t ≡ (if str_eq s t then some v else find c t))
unfolding add_special find
find-add_special [] s v p h n = absurd (ground arith)
find-add_special (f ∷ up) s v p h n = elim (Bool-cases (takes f.kind f s)) [
  | inl y ↦ (
    record f { m = put f.m s v } ∷ up,
    ground (arith, y),
    λ t.
        find-head f (record f { m = put f.m s v }) up s t v
          (own-taken f.kind f s t v p y (ground (arith, n))),
  )
  | inr y ↦
      let (c', e, law) =
        find-add_special up s v p (ground (arith, y, takes-keeps f.kind f s)) (ground arith) in
      (
        f ∷ c',
        ground (arith, y, e),
        λ t. elim (str_eq-cases s t) [
          | inl (q, r) ↦
              ground (
                arith,
                q,
                law t,
                own-untaken f.kind f s p y (ground (arith, n)),
                ap (own f.kind f) r,
              )
          | inr q ↦ ground (arith, q, law t)
        ],
      )
]

lookup-erase :
    {V : Type 0} (m : List (String × V)) (s t : String)
    → str_eq s t ≡ false
    → lookup (erase m s) t ≡ lookup m t
unfolding lookup erase
lookup-erase [] s t h = refl
lookup-erase ((k, w) ∷ m) s t h = elim (str_eq-cases k s) [
  | inl (e, q) ↦ ground (arith, e, ap (λ x. str_eq x t) q)
  | inr e ↦ ground (arith, e, lookup-erase m s t h)
]

own-without :
    {V : Type 0} (k : Kind) (f : Frame V) (s t : String)
    → str_eq s t ≡ false
    → own k (without f s) t ≡ own k f t
own-without base f s t h = ground (arith, lookup-erase f.m s t h, lookup-erase f.mtmp s t h)
own-without closure f s t h = ground (arith, lookup-erase f.m s t h, lookup-erase f.mtmp s t h)
own-without native f s t h = ground (arith, lookup-erase f.m s t h, lookup-erase f.mtmp s t h)
own-without shadow f s t h = ground (arith, lookup-erase f.m s t h, lookup-erase f.mtmp s t h)

kind-without : {V : Type 0} (f : Frame V) (s : String) → (without f s).kind ≡ f.kind
kind-without f s = ground arith

own-removes :
    {V : Type 0} (k : Kind) (f : Frame V) (s : String)
    → is_temporary s ≡ false
    → str_eq s "" ≡ false
    → is_argument k f s ≡ false
    → is_some (own k f s) ≡ removes k f s
own-removes base f s p z n = ground (arith, p, z)
own-removes closure f s p z n = ground (arith, p, z)
own-removes native f s p z n = ground (arith, p, z, n)
own-removes shadow f s p z n = ground (arith, p, z)

-- For a name that is neither empty nor a temporary's, and that no builtin's argument has,
-- `remove_special` reports whether the variable was found, and every other name finds what it found
-- before.
find-remove_special :
    {V : Type 0} (c : List (Frame V)) (s : String)
    → is_temporary s ≡ false
    → str_eq s "" ≡ false
    → free_of c s ≡ true
    → ((remove_special c s).0 ≡ is_some (find c s))
      × ((t : String) → str_eq s t ≡ false → find (remove_special c s).1 t ≡ find c t)
unfolding remove_special find
find-remove_special [] s p z n = (refl, λ t h. refl)
find-remove_special (f ∷ up) s p z n =
    let (flag, law) = find-remove_special up s p z (ground arith) in
    let o = own-removes f.kind f s p z (ground (arith, n)) in
    elim (Bool-cases (removes f.kind f s)) [
      | inl y ↦ (
        ground (arith, y, o),
        λ t h. ground (
          arith,
          y,
          ap (λ k. own k (without f s) t) (kind-without f s),
          own-without f.kind f s t h,
        ),
      )
      | inr y ↦ (ground (arith, y, o, flag), λ t h. ground (arith, y, law t h))
    ]
