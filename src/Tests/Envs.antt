-- ===== src/Tests/Envs.antt =====
-- Variables in a chain of frames: a call's temporaries, a closure, the global frame.
use Prim.Native.String.{String}
use text.Mathlib.Text.{◌==◌ as str_eq}
use ztsdb.Base.{ℕ, ◌≡◌, refl, if◌then◌else◌, none, some, List, [], ◌∷◌}
use ztsdb.Env.{base, closure, shadow, Frame, lookup, find, add, add_special, find_local}
use ztsdb.Env.Lookup.{find-add}
use ztsdb.Env.Special.{find-add_special}

abbrev chain : List (Frame ℕ)
chain =
    record { kind = shadow; name = "shadow"; m = []; mtmp = []; mv = []; current_pos = 0 }
    ∷ record {
      kind = closure;
      name = "closure";
      m = ("x", 1) ∷ [];
      mtmp = [];
      mv = [];
      current_pos = 0;
    }
    ∷ record {
      kind = base;
      name = "global";
      m = ("x", 2) ∷ ("y", 3) ∷ [];
      mtmp = [];
      mv = [];
      current_pos = 0;
    }
    ∷ []

find-add_example :
    (c' : List (Frame ℕ)) × (add chain "x" 7 ≡ some c')
    × ((t : String) → find c' t ≡ (if str_eq "x" t then some 7 else find chain t))
find-add_example = find-add chain "x" 7 refl refl

find-add_special_example :
    (c' : List (Frame ℕ)) × (add_special chain "y" 7 ≡ some c')
    × ((t : String) → find c' t ≡ (if str_eq "y" t then some 7 else find chain t))
unfolding lookup
find-add_special_example = find-add_special chain "y" 7 refl refl refl

found_above : find chain "y" ≡ some 3
unfolding find lookup
found_above = refl

not_local : find_local chain "y" ≡ none
unfolding find_local lookup
not_local = refl
