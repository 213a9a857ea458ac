-- ===== src/Tests/Calls.antt =====
-- Calls of a function with the formal arguments `x, y = 7, ..., z = 8`.
use Prim.Native.String.{String}
use ztsdb.Base.{ℕ, ◌≡◌, refl, true, false, Option, some, List, [], ◌∷◌}
use ztsdb.Arguments.{
  Formal, tagged, symbol, ellipsis, Actual, named, arg, ArgInfo, Result, ok, err, unused, missing,
  multiple, Error, repeated, Signature, Slots, place, process_formlist, process_args,
}
use ztsdb.Arguments.Bound.{process_args-bound}

abbrev formals : List (Formal ℕ)
formals = symbol "x" ∷ tagged "y" 7 ∷ ellipsis ∷ tagged "z" 8 ∷ []

abbrev sig : Signature
sig = record { arg_map = ("z", 3) ∷ ("y", 1) ∷ ("x", 0) ∷ []; ellipsis_pos = some 2 }

abbrev slot : String → ℕ → Option (ArgInfo ℕ)
slot x e =
    some (record { name = x; expr = e; is_formal = false; is_ellipsis = false; is_ref = false })

-- f(1, z = 2, 3, 4, w = 5)
abbrev acts : List (Actual ℕ)
acts = arg 1 false ∷ named "z" 2 false ∷ arg 3 false ∷ arg 4 false ∷ named "w" 5 false ∷ []

abbrev in_dots : String → ℕ → Option (ArgInfo ℕ)
in_dots x e =
    some (record { name = x; expr = e; is_formal = false; is_ellipsis = true; is_ref = false })

abbrev entries : Slots ℕ
entries = slot "x" 1 ∷ slot "y" 3 ∷ slot "z" 2 ∷ in_dots "" 4 ∷ in_dots "w" 5 ∷ []

formals_accepted : process_formlist formals ≡ ok sig
unfolding process_formlist ztsdb.Arguments.formals_from ztsdb.Arguments.add_formal
    ztsdb.Arguments.emplace ztsdb.Env.lookup
formals_accepted = refl

acts_matched : process_args sig formals acts ≡ ok entries
unfolding process_args ztsdb.Arguments.match_named ztsdb.Env.lookup ztsdb.Arguments.match_positional
    ztsdb.Arguments.unused_from ztsdb.Arguments.next_unused ztsdb.Arguments.fill_defaults
acts_matched = refl

-- f(y = 1): x has no default.
x_missing : process_args sig formals (named "y" 1 false ∷ []) ≡ err (missing "x")
unfolding process_args ztsdb.Arguments.match_named ztsdb.Env.lookup ztsdb.Arguments.match_positional
    ztsdb.Arguments.unused_from ztsdb.Arguments.fill_defaults
x_missing = refl

-- f(1, y = 1, y = 2)
y_twice :
    process_args sig formals (arg 1 false ∷ named "y" 1 false ∷ named "y" 2 false ∷ [])
    ≡ err (multiple "y")
unfolding process_args ztsdb.Arguments.match_named ztsdb.Env.lookup
y_twice = refl

process_args-bound_example :
    (a : ArgInfo ℕ) × (◌≡◌ {A = Option (Option (ArgInfo ℕ))} (some (slot "z" 2)) (some (some a)))
    × (a.name ≡ "z")
process_args-bound_example =
    process_args-bound formals acts sig entries formals_accepted acts_matched 3 "z" refl
