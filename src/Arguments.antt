-- ===== src/Arguments.antt =====
-- src/ast.hpp, Function::processFormlist, and src/interp.cpp, getUnused and processArgs: how the
-- arguments of a call are matched with those of the function.
-- An expression is any type. An entry of the result that nothing has been written to (null pointers in
-- the source) is `none`. Locations are left out, and an error keeps the name that its message has.
pub mod Unused
pub mod Covered
pub mod Matched
pub mod Bound
use Prim.Native.String.{String}
use text.Mathlib.Text.{◌==◌ as str_eq}
use ztsdb.Base.{
  ℕ, zero, suc, ◌+◌, ◌-◌, Bool, true, false, ◌&&◌, not, ltb, leb, ◌==◌, if◌then◌else◌, Option, none,
  some, List, [], ◌∷◌, ◌++◌, length, get_elem?, get_or, set, drop, replicate,
}
use ztsdb.Env.{lookup}

-- A formal argument: with a default, without, and `...`.
pub data Formal {ℓ} (X : Type ℓ) : Type ℓ where
  tagged : String → X → Formal X
  symbol : String → Formal X
  ellipsis : Formal X

-- An actual argument, by name or by position, and whether it is a reference.
pub data Actual {ℓ} (X : Type ℓ) : Type ℓ where
  named : String → X → Bool → Actual X
  arg : X → Bool → Actual X

pub record ArgInfo {ℓ} (X : Type ℓ) : Type ℓ where
  pub name : String
  pub expr : X
  pub is_formal : Bool
  pub is_ellipsis : Bool
  pub is_ref : Bool

pub data Error : Type 0 where
  repeated : String → Error
  multiple : String → Error
  unused : Error
  missing : String → Error

pub data Result {ℓ} (A : Type ℓ) : Type ℓ where
  ok : A → Result A
  err : Error → Result A

-- argMap, and ellipsisPos where it is not -1.
pub record Signature : Type 0 where
  pub arg_map : List (String × ℕ)
  pub ellipsis_pos : Option ℕ

abbrev pub is_some {ℓ} : {A : Type ℓ} → Option A → Bool
is_some none = false
is_some (some a) = true

-- argMap.emplace, which keeps what is there.
unfoldable pub emplace : Signature → String → ℕ → Result Signature
emplace s x n = elim (lookup s.arg_map x) [
  | none ↦ ok (record s { arg_map = (x, n) ∷ s.arg_map })
  | some m ↦ err (repeated x)
]

-- The argument at position `n`.
unfoldable pub add_formal {ℓ} : {X : Type ℓ} → Formal X → ℕ → Signature → Result Signature
add_formal (tagged x e) n s = emplace s x n
add_formal (symbol x) n s = emplace s x n
add_formal ellipsis n s =
    if is_some s.ellipsis_pos then err (repeated "...") else ok (record s { ellipsis_pos = some n })

unfoldable pub formals_from {ℓ} : {X : Type ℓ} → List (Formal X) → ℕ → Signature → Result Signature
formals_from [] n s = ok s
formals_from (f ∷ fs) n s = elim (add_formal f n s) [
  | err e ↦ err e
  | ok s' ↦ formals_from fs (suc n) s'
]

unfoldable pub process_formlist {ℓ} : {X : Type ℓ} → List (Formal X) → Result Signature
process_formlist fs = formals_from fs 0 (record { arg_map = []; ellipsis_pos = none })

-- getUnused, from position `i` on: the first position that is not in use.
unfoldable pub unused_from : ℕ → List Bool → Option ℕ
unused_from i [] = none
unused_from i (true ∷ us) = unused_from (suc i) us
unused_from i (false ∷ us) = some i

-- After position `i`.
unfoldable pub next_unused : ℕ → List Bool → Option ℕ
unfolding unused_from
next_unused i us = unused_from (suc i) (drop (suc i) us)

abbrev pub Slots {ℓ} : Type ℓ → Type ℓ
Slots X = List (Option (ArgInfo X))

-- The place in the result of the formal argument at a position.
abbrev pub place : Option ℕ → ℕ → ℕ
place none i = i
place (some p) i = if ltb p i then i - 1 else i

module _ {ℓ} {X : Type ℓ} where
  -- Step 1: the named arguments whose name is that of a formal one. `us` and `gs` are ufargs and
  -- ugargs, `n` the position.
  unfoldable pub match_named :
      Signature
      → List (Actual X)
      → ℕ
      → List Bool
      → List Bool
      → Slots X
      → Result (List Bool × List Bool × Slots X)
  match_named sig [] n us gs res = ok (us, gs, res)
  match_named sig (arg e r ∷ acts) n us gs res = match_named sig acts (suc n) us gs res
  match_named sig (named x e r ∷ acts) n us gs res =
      elim (if str_eq x "" then none else lookup sig.arg_map x) [
        | none ↦ match_named sig acts (suc n) us gs res
        | some i ↦ elim (get_or us i false) [
          | true ↦ err (multiple x)
          | false ↦ match_named sig acts (suc n) (set us i true) (set gs n true) (
              set res (place sig.ellipsis_pos i) (
                some (record {
                  name = x;
                  expr = e;
                  is_formal = false;
                  is_ellipsis = false;
                  is_ref = r;
                })))
        ]
      ]

  abbrev pub in_ellipsis : String → X → Bool → Option (ArgInfo X)
  in_ellipsis x e r =
      some (record { name = x; expr = e; is_formal = false; is_ellipsis = true; is_ref = r })

  abbrev pub by_position : String → X → Bool → Option (ArgInfo X)
  by_position x e r =
      some (record { name = x; expr = e; is_formal = false; is_ellipsis = false; is_ref = r })

  abbrev pub by_default : String → X → Option (ArgInfo X)
  by_default x e =
      some (record { name = x; expr = e; is_formal = true; is_ellipsis = false; is_ref = false })

  -- Steps 2 and 3: the actual arguments that are left, in order, with ugargs. The formal one at hand is
  -- at `fidx`; where there is none, an argument that is left is an error.
  unfoldable pub match_positional :
      Signature
      → List (Formal X)
      → List Bool
      → List (Actual X)
      → List Bool
      → Option ℕ
      → Slots X
      → Result (Option ℕ × Slots X)
  match_positional sig fs us [] gs fidx res = ok (fidx, res)
  match_positional sig fs us (a ∷ acts) [] fidx res = ok (fidx, res)
  match_positional sig fs us (a ∷ acts) (true ∷ gs) fidx res =
      match_positional sig fs us acts gs fidx res
  match_positional sig fs us (a ∷ acts) (false ∷ gs) none res = err unused
  match_positional sig fs us (named x e r ∷ acts) (false ∷ gs) (some f) res =
      elim sig.ellipsis_pos [
        | none ↦ err unused
        | some p ↦ match_positional sig fs us acts gs (some f) (res ++ in_ellipsis x e r ∷ [])
      ]
  match_positional sig fs us (arg e r ∷ acts) (false ∷ gs) (some f) res = elim (get_elem? fs f) [
    | none ↦ err unused
    | some (tagged x d) ↦
        match_positional sig fs us acts gs (next_unused f us) (set res f (by_position x e r))
    | some (symbol x) ↦
        match_positional sig fs us acts gs (next_unused f us) (set res f (by_position x e r))
    | some ellipsis ↦ match_positional sig fs us acts gs (some f) (res ++ in_ellipsis "" e r ∷ [])
  ]

  -- Step 4: the defaults, from the formal argument at position `i` on; `us` is ufargs from there.
  unfoldable pub fill_defaults :
      Signature → List (Formal X) → List Bool → ℕ → Slots X → Result (Slots X)
  fill_defaults sig [] us i res = ok res
  fill_defaults sig (f ∷ fs) [] i res = ok res
  fill_defaults sig (f ∷ fs) (true ∷ us) i res = fill_defaults sig fs us (suc i) res
  fill_defaults sig (tagged x d ∷ fs) (false ∷ us) i res =
      fill_defaults sig fs us (suc i) (set res (place sig.ellipsis_pos i) (by_default x d))
  fill_defaults sig (ellipsis ∷ fs) (false ∷ us) i res = fill_defaults sig fs us (suc i) res
  fill_defaults sig (symbol x ∷ fs) (false ∷ us) i res = err (missing x)

  abbrev pub defaults_at :
      Signature → List (Formal X) → List Bool → Option ℕ → Slots X → Result (Slots X)
  defaults_at sig fs us none res = ok res
  defaults_at sig fs us (some i) res = fill_defaults sig (drop i fs) (drop i us) i res

  unfoldable pub process_args : Signature → List (Formal X) → List (Actual X) → Result (Slots X)
  process_args sig fs acts =
      let n = length fs in
      elim (match_named sig acts 0 (replicate n false) (replicate (length acts) false)
        (replicate (if is_some sig.ellipsis_pos then n - 1 else n) none)) [
          | err e ↦ err e
          | ok (us, gs, res) ↦ elim (match_positional sig fs us acts gs (unused_from 0 us) res) [
            | err e ↦ err e
            | ok (fidx, res') ↦ defaults_at sig fs us fidx res'
          ]
        ]
