-- ===== src/Arguments/Covered.antt =====
-- Every formal argument has an entry in the result of processArgs of src/interp.cpp.
use Prim.Native.String.{String}
use ztsdb.Base.{
  ℕ, zero, suc, ◌-◌, ◌≤◌, ◌<◌, ◌≡◌, ap, sym, ◌∙◌, inl, inr, false, ◌==◌, if◌then◌else◌, Bool-cases,
  Option-cases, Option, none, some, List, [], ◌∷◌, ◌++◌, length, get_elem?, set, arith,
}
use ztsdb.Env.{lookup}
use ztsdb.Arguments.{Formal, tagged, symbol, ellipsis, ArgInfo, Signature, Slots, is_some, place}
use ztsdb.Arguments.Unused.{get_elem?-set, get_elem?-append}

-- The name of the formal argument at a position, if it is not `...`.
abbrev pub name_of : {X : Type 0} → Option (Formal X) → Option String
name_of none = none
name_of (some (tagged x d)) = some x
name_of (some (symbol x)) = some x
name_of (some ellipsis) = none

-- What processFormlist makes of the formal arguments.
pub record IsSignature {X : Type 0} (sig : Signature) (fs : List (Formal X)) : Type 0 where
  pub names :
      (x : String) (i : ℕ) → lookup sig.arg_map x ≡ some i → name_of (get_elem? fs i) ≡ some x
  pub at_pos : (p : ℕ) → sig.ellipsis_pos ≡ some p → get_elem? fs p ≡ some ellipsis
  pub pos_of : (p : ℕ) → get_elem? fs p ≡ some ellipsis → sig.ellipsis_pos ≡ some p

-- The number of entries for the formal arguments.
abbrev pub places : Option ℕ → ℕ → ℕ
places o n = if is_some o then n - 1 else n

place_lt : (p n i : ℕ) → p < n → i < n → (i == p) ≡ false → place (some p) i < n - 1
place_lt p n i h k e = ground arith

place_eq :
    (p i j : ℕ) → (i == p) ≡ false → (j == p) ≡ false → place (some p) i ≡ place (some p) j → i ≡ j
place_eq p i j h k e = ground arith

pub get_elem?-lt :
    {A : Type 0} (xs : List A) (i : ℕ) (x : A) → get_elem? xs i ≡ some x → i < length xs
get_elem?-lt [] i x h = absurd (ground (arith, h))
get_elem?-lt (y ∷ xs) zero x h = omega arith
get_elem?-lt (y ∷ xs) (suc i) x h = omega (arith, get_elem?-lt xs i x h)

pub name_lt :
    {X : Type 0} (fs : List (Formal X)) (i : ℕ) (x : String)
    → name_of (get_elem? fs i) ≡ some x
    → i < length fs
name_lt [] i x h = absurd (ground (arith, h))
name_lt (f ∷ fs) zero x h = omega arith
name_lt (f ∷ fs) (suc i) x h = omega (arith, name_lt fs i x h)

module _ {X : Type 0} (sig : Signature) (fs : List (Formal X)) (valid : IsSignature sig fs) where
  -- The entry at the place of the formal argument `i` has its name.
  abbrev pub Filled : ℕ → Slots X → Type 0
  Filled i res =
      (x : String)
      → name_of (get_elem? fs i) ≡ some x
      → (a : ArgInfo X) × (get_elem? res (place sig.ellipsis_pos i) ≡ some (some a)) × (a.name ≡ x)

  pub not_pos :
      (i p : ℕ) (x : String)
      → name_of (get_elem? fs i) ≡ some x
      → sig.ellipsis_pos ≡ some p
      → (i == p) ≡ false
  not_pos i p x h e = elim (Bool-cases (i == p)) [
    | inl t ↦ absurd (
        no_name (get_elem? fs i) x h
          (ap (get_elem? fs) {x = i} {y = p} (ground arith) ∙ valid.at_pos p e))
    | inr t ↦ t
  ]
    where
      no_name : (o : Option (Formal X)) (x : String) → name_of o ≡ some x → o ≡ some ellipsis → ⊥
      no_name none x h e = ground (arith, e)
      no_name (some (tagged y d)) x h e = ground (arith, e)
      no_name (some (symbol y)) x h e = ground (arith, e)
      no_name (some ellipsis) x h e = ground (arith, h)

  pub place-lt :
      (i : ℕ) (x : String)
      → name_of (get_elem? fs i) ≡ some x
      → place sig.ellipsis_pos i < places sig.ellipsis_pos (length fs)
  place-lt i x h = elim (Option-cases sig.ellipsis_pos) [
    | inl o ↦ rw o (name_lt fs i x h)
    | inr (p, o) ↦ rw o (
        place_lt p (length fs) i (get_elem?-lt fs p ellipsis (valid.at_pos p o)) (name_lt fs i x h)
          (not_pos i p x h o))
  ]

  place_injective :
      (i j : ℕ) (x y : String)
      → name_of (get_elem? fs i) ≡ some x
      → name_of (get_elem? fs j) ≡ some y
      → place sig.ellipsis_pos i ≡ place sig.ellipsis_pos j
      → i ≡ j
  place_injective i j x y h k e = elim (Option-cases sig.ellipsis_pos) [
    | inl o ↦ ground (arith, o)
    | inr (p, o) ↦
        place_eq p i j (not_pos i p x h o) (not_pos j p y k o)
          (ap (λ q. place q i) (sym o) ∙ e ∙ ap (λ q. place q j) o)
  ]

  abbrev pub IsLong : Slots X → Type 0
  IsLong res = places sig.ellipsis_pos (length fs) ≤ length res

  -- A write at the place of a formal argument, with its name, keeps the others.
  pub Filled-set :
      (i j : ℕ) (y : String) (a : ArgInfo X) (res : Slots X)
      → IsLong res
      → name_of (get_elem? fs j) ≡ some y
      → a.name ≡ y
      → Filled i res
      → Filled i (set res (place sig.ellipsis_pos j) (some a))
  Filled-set i j y a res l h e f x k =
      let g =
        get_elem?-set res (place sig.ellipsis_pos j) (place sig.ellipsis_pos i) (some a)
          (omega (arith, place-lt j y h)) in
      elim (Bool-cases (place sig.ellipsis_pos j == place sig.ellipsis_pos i)) [
        | inl t ↦
            let same : j ≡ i = place_injective j i y x h k (ground arith) in
            (
              a,
              ground (arith, g),
              e ∙ some_eq (sym h ∙ ap (λ n. name_of (get_elem? fs n)) same ∙ k),
            )
        | inr t ↦ let (b, u, v) = f x k in (b, ground (arith, g, u), v)
      ]
    where
      some_eq : {s t : String} → some s ≡ some t → s ≡ t
      some_eq e = cc

  pub Filled-set_self :
      (j : ℕ) (y : String) (a : ArgInfo X) (res : Slots X)
      → IsLong res
      → name_of (get_elem? fs j) ≡ some y
      → a.name ≡ y
      → Filled j (set res (place sig.ellipsis_pos j) (some a))
  Filled-set_self j y a res l h e x k =
      let g =
        get_elem?-set res (place sig.ellipsis_pos j) (place sig.ellipsis_pos j) (some a)
          (omega (arith, place-lt j y h)) in
      (a, ground (arith, g), e ∙ same_name y x h k)
    where
      same_name :
          (s t : String)
          → name_of (get_elem? fs j) ≡ some s
          → name_of (get_elem? fs j) ≡ some t
          → s ≡ t
      same_name s t p q = cc

  pub Filled-append : (i : ℕ) (res more : Slots X) → Filled i res → Filled i (res ++ more)
  Filled-append i res more f x k =
      let (a, u, v) = f x k in
      (a, get_elem?-append res more (place sig.ellipsis_pos i) (some a) u, v)
