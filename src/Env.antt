-- ===== src/Env.antt =====
-- src/env.hpp: the frames in which the interpreter keeps its variables. A chain is a frame and the
-- frames above it, the global one last. A name that begins with `?` is that of a temporary.
-- `none` stands for an exception, and for a step past the last frame, which has no defined behaviour.
-- A value is any type, with a test for functions. The flag that an argument is a reference is left out.
pub mod Lookup
pub mod Special
use Prim.Native.Char.{code}
use Prim.Native.String.{String}
use text.Mathlib.Text.{◌==◌ as str_eq}
use ztsdb.Base.{
  ℕ, zero, suc, ◌+◌, Bool, true, false, ◌&&◌, ◌||◌, not, ltb, leb, ◌==◌, if◌then◌else◌, Option,
  none, some, List, [], ◌∷◌, ◌++◌, length, set,
}

-- s[0] == '?'
abbrev pub is_temporary : String → Bool
is_temporary String.[] = false
is_temporary (String.◌∷◌ c s) = code c == b'?'

module _ {ℓ} {V : Type ℓ} where
  -- std::map<string, Value>; its order is not modelled.
  unfoldable pub lookup : List (String × V) → String → Option V
  lookup [] s = none
  lookup ((k, v) ∷ m) s = if str_eq k s then some v else lookup m s

  -- erase, then emplace
  unfoldable pub put : List (String × V) → String → V → List (String × V)
  put [] s v = (s, v) ∷ []
  put ((k, w) ∷ m) s v = if str_eq k s then (k, v) ∷ m else (k, w) ∷ put m s v

  unfoldable pub erase : List (String × V) → String → List (String × V)
  erase [] s = []
  erase ((k, w) ∷ m) s = if str_eq k s then m else (k, w) ∷ erase m s

  abbrev pub is_some : Option V → Bool
  is_some none = false
  is_some (some v) = true

pub data Kind : Type 0 where
  base closure native shadow : Kind

-- A shadow frame keeps temporaries only, and hands on what is none.
abbrev pub passes : Kind → String → Bool
passes shadow s = not (is_temporary s)
passes k s = false

-- A frame: `m` and `mtmp`, and the arguments of a builtin or a closure (`mv`) with the position of the
-- next one.
pub record Frame {ℓ} (V : Type ℓ) : Type ℓ where
  pub kind : Kind
  pub name : String
  pub m : List (String × V)
  pub mtmp : List (String × V)
  pub mv : List (String × V)
  pub current_pos : ℕ

module _ {ℓ} {V : Type ℓ} where
  -- `s[0] != '?' ? m : mtmp`
  abbrev pub table : Frame V → String → List (String × V)
  table f s = if is_temporary s then f.mtmp else f.m

  abbrev pub with_table : Frame V → String → List (String × V) → Frame V
  with_table f s t = if is_temporary s then record f { mtmp = t } else record f { m = t }

  -- What a frame itself finds: the arguments first, where it is a builtin's.
  abbrev pub own : Kind → Frame V → String → Option V
  own native f s = elim (lookup f.mv s) [ some v ↦ some v | none ↦ lookup (table f s) s ]
  own shadow f s = if is_temporary s then lookup f.mtmp s else none
  own base f s = lookup (table f s) s
  own closure f s = lookup (table f s) s

  -- find(s)
  unfoldable pub find : List (Frame V) → String → Option V
  find [] s = none
  find (f ∷ up) s = elim (own f.kind f s) [ some v ↦ some v | none ↦ find up s ]

  -- findLocal(s)
  unfoldable pub find_local : List (Frame V) → String → Option V
  find_local [] s = none
  find_local (f ∷ up) s = elim (passes f.kind s) [ true ↦ find_local up s | false ↦ own f.kind f s ]

  -- findR(s, funcall): what is no function is passed over where a function is looked for. (The builtin
  -- frame reads the type of the argument before it knows that there is one.)
  abbrev pub usable : (V → Bool) → Bool → Option V → Option V
  usable is_function funcall none = none
  usable is_function funcall (some v) = if not funcall || is_function v then some v else none

  abbrev pub own_usable : (V → Bool) → Bool → Kind → Frame V → String → Option V
  own_usable is_function funcall native f s = elim (usable is_function funcall (lookup f.mv s)) [
    | some v ↦ some v
    | none ↦ usable is_function funcall (lookup (table f s) s)
  ]
  own_usable is_function funcall shadow f s =
      if is_temporary s then usable is_function funcall (lookup f.mtmp s) else none
  own_usable is_function funcall base f s = usable is_function funcall (lookup (table f s) s)
  own_usable is_function funcall closure f s = usable is_function funcall (lookup (table f s) s)

  unfoldable pub find_r : (V → Bool) → Bool → List (Frame V) → String → Option V
  find_r is_function funcall [] s = none
  find_r is_function funcall (f ∷ up) s = elim (own_usable is_function funcall f.kind f s) [
    | some v ↦ some v
    | none ↦ find_r is_function funcall up s
  ]

  abbrev pub above : Frame V → Option (List (Frame V)) → Option (List (Frame V))
  above f none = none
  above f (some up) = some (f ∷ up)

  -- add(s, val)
  unfoldable pub add : List (Frame V) → String → V → Option (List (Frame V))
  add [] s v = none
  add (f ∷ up) s v = elim (passes f.kind s) [
    | true ↦ above f (add up s v)
    | false ↦ some (with_table f s (put (table f s) s v) ∷ up)
  ]

  -- addSpecial(s, val): the frame nearest by that has the name, or else the global one.
  abbrev pub takes : Kind → Frame V → String → Bool
  takes shadow f s = false
  takes k f s = is_some (lookup f.m s) || str_eq f.name "global"

  unfoldable pub add_special : List (Frame V) → String → V → Option (List (Frame V))
  add_special [] s v = none
  add_special (f ∷ up) s v = elim (takes f.kind f s) [
    | true ↦ some (record f { m = put f.m s v } ∷ up)
    | false ↦ above f (add_special up s v)
  ]

  -- addArg(s, val)
  unfoldable pub add_arg : List (Frame V) → String → V → Option (List (Frame V))
  unfolding add
  add_arg [] s v = none
  add_arg (f ∷ up) s v = elim f.kind [
    | base ↦ none
    | closure ↦ some (with_table f s (put (table f s) s v) ∷ up)
    | native ↦
        if ltb f.current_pos (length f.mv)
        then some
            (record f { mv = set f.mv f.current_pos (s, v); current_pos = f.current_pos + 1 } ∷ up)
        else none
    | shadow ↦ above f (add up s v)
  ]

  -- addEllipsis(s, val)
  unfoldable pub add_ellipsis : List (Frame V) → String → V → Option (List (Frame V))
  add_ellipsis [] s v = none
  add_ellipsis (f ∷ up) s v = elim f.kind [
    | base ↦ none
    | shadow ↦ none
    | closure ↦ some (record f { mv = f.mv ++ (s, v) ∷ [] } ∷ up)
    | native ↦ some (record f { mv = f.mv ++ (s, v) ∷ [] } ∷ up)
  ]

  -- `ml.erase(symb) == 1`, unless the name is empty
  abbrev pub has : Frame V → String → Bool
  has f s = not (str_eq s "") && is_some (lookup (table f s) s)

  abbrev pub without : Frame V → String → Frame V
  without f s = if str_eq s "" then f else with_table f s (erase (table f s) s)

  -- remove(symb): whether there was one, and the chain.
  unfoldable pub remove : List (Frame V) → String → Bool × List (Frame V)
  remove [] s = (false, [])
  remove (f ∷ up) s =
      let rest = remove up s in
      elim f.kind [
        | shadow ↦ (rest.0, f ∷ rest.1)
        | base ↦ (has f s, without f s ∷ up)
        | closure ↦ (has f s, without f s ∷ up)
        | native ↦ (has f s, without f s ∷ up)
      ]

  abbrev pub removes : Kind → Frame V → String → Bool
  removes shadow f s = false
  removes k f s = has f s

  -- removeSpecial(symb): from the frame nearest by that has the name.
  unfoldable pub remove_special : List (Frame V) → String → Bool × List (Frame V)
  remove_special [] s = (false, [])
  remove_special (f ∷ up) s = elim (removes f.kind f s) [
    | true ↦ (true, without f s ∷ up)
    | false ↦ ((remove_special up s).0, f ∷ (remove_special up s).1)
  ]
