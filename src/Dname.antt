-- ===== src/Dname.antt =====
-- src/dname.cpp and src/dname.hpp: the names of one dimension of an array. Names may be missing and
-- may repeat; `namesMap` finds the positions of a name. `none` stands for an exception.
pub mod Lookup
pub mod Stale
use Prim.Native.String.{String}
use text.Mathlib.Text.{◌==◌ as str_eq}
use ztsdb.Base.{
  ℕ, zero, suc, ◌+◌, ◌-◌, Bool, true, false, not, ◌&&◌, ◌||◌, ltb, leb, ◌==◌, if◌then◌else◌, Option,
  none, some, List, [], ◌∷◌, ◌++◌, length, get_elem?, set, take, drop, replicate,
}

-- std::map<std::string, std::set<size_t>>; a set is its elements in ascending order.
abbrev pub NamesMap : Type 0
NamesMap = List (String × List ℕ)

unfoldable pub set_insert : ℕ → List ℕ → List ℕ
set_insert j [] = j ∷ []
set_insert j (i ∷ is) =
    let rest = set_insert j is in
    if ltb j i then j ∷ i ∷ is else if j == i then i ∷ is else i ∷ rest

-- One round of putNamesInMap: a new entry, or one more position in an old one.
unfoldable pub put_name : NamesMap → String → ℕ → NamesMap
unfolding set_insert
put_name [] s j = (s, j ∷ []) ∷ []
put_name ((k, is) ∷ m) s j =
    if str_eq k s then (k, set_insert j is) ∷ m else (k, is) ∷ put_name m s j

-- putNamesInMap, from position j on.
unfoldable pub put_names : List String → ℕ → NamesMap → NamesMap
unfolding put_name
put_names [] j m = m
put_names (s ∷ names) j m = put_names names (j + 1) (if str_eq s "" then m else put_name m s j)

abbrev pub first_of : List ℕ → Option ℕ
first_of [] = none
first_of (i ∷ is) = some i

-- `namesMap.find(s)`, then `*(e->second.begin())`.
unfoldable pub find_name : NamesMap → String → Option ℕ
find_name [] s = none
find_name ((k, is) ∷ m) s = if str_eq k s then first_of is else find_name m s

pub record Dname : Type 0 where
  pub sz : ℕ
  pub names : List String
  pub names_map : NamesMap

-- Dname(n, names)
unfoldable pub make : ℕ → List String → Option Dname
unfolding put_names
make n names =
    if not (length names == 0) && not (length names == n)
    then none
    else some (record { sz = n; names = names; names_map = put_names names 0 [] })

unfoldable pub has_names : Dname → Bool
has_names d = not (d.sz == 0) && d.sz == length d.names

-- The map made from scratch; where it is empty the names are dropped.
unfoldable pub rebuild : ℕ → List String → Dname
unfolding put_names
rebuild n names =
    let m = put_names names 0 [] in
    record { sz = n; names = if length m == 0 then [] else names; names_map = m }

-- assign(i, s)
unfoldable pub assign : Dname → ℕ → String → Option Dname
unfolding has_names rebuild
assign d i s =
    if leb d.sz i
    then none
    else if str_eq s "" && length d.names == 0
    then some d
    else if not (has_names d)
    then some (record d { names = set (replicate d.sz "") i s })
    else some (rebuild d.sz (set d.names i s))

-- addafter(s)
unfoldable pub addafter : Dname → String → Dname
unfolding put_name
addafter d s = if str_eq s "" && length d.names == 0 then record d { sz = d.sz + 1 } else record {
  sz = d.sz + 1;
  names = (if length d.names == 0 then replicate d.sz "" else d.names) ++ s ∷ [];
  names_map = put_name d.names_map s d.sz;
}

-- The loop of addafter(dn): unlike putNamesInMap it does not skip the empty name.
unfoldable pub put_all : List String → ℕ → NamesMap → NamesMap
unfolding put_name
put_all [] j m = m
put_all (s ∷ names) j m = put_all names (j + 1) (put_name m s j)

-- addafter(dn)
unfoldable pub addafter_dname : Dname → Dname → Dname
unfolding put_all
addafter_dname d dn = record {
  sz = d.sz + dn.sz;
  names =
      if length d.names == 0
      then (if length dn.names == 0 then [] else replicate d.sz "" ++ dn.names)
      else if length dn.names == 0
      then d.names ++ replicate dn.sz ""
      else d.names ++ dn.names;
  names_map = put_all dn.names d.sz d.names_map;
}

-- remove(n, nm): the name given is not read. Where there is no name at n the source has no defined
-- behaviour, and this gives `none`.
unfoldable pub remove : Dname → ℕ → Option Dname
unfolding rebuild
remove d n =
    if leb (length d.names) n
    then none
    else some (rebuild (d.sz - 1) (take n d.names ++ drop (n + 1) d.names))

-- operator[](s) and operator[](i)
unfoldable pub at_name : Dname → String → Option ℕ
unfolding find_name
at_name d s = find_name d.names_map s

unfoldable pub at_position : Dname → ℕ → Option String
at_position d i =
    if leb d.sz i then none else elim (get_elem? d.names i) [ none ↦ some "" | some s ↦ some s ]

-- remove(n) and remove(nm) look the other one up first.
unfoldable pub remove_position : Dname → ℕ → Option Dname
unfolding at_position remove
remove_position d n = elim (at_position d n) [ none ↦ none | some s ↦ remove d n ]

unfoldable pub remove_name : Dname → String → Option Dname
unfolding at_name remove
remove_name d s = elim (at_name d s) [ none ↦ none | some n ↦ remove d n ]
