-- ===== src/Dname/Lookup.antt =====
-- Looking a name up gives its first position.
use Prim.Native.String.{String}
use text.Mathlib.Text.{◌==◌ as str_eq}
use text.Mathlib.TextEquality.{eq_iff}
use ztsdb.Base.{
  ℕ, ◌+◌, ◌-◌, ◌≡◌, refl, Bool, true, false, ltb, ◌==◌, if◌then◌else◌, Option, none, some, List, [],
  ◌∷◌, ◌++◌, length, set, take, drop, arith, Bool-cases, inl, inr,
}
use ztsdb.Dname.{
  NamesMap, set_insert, put_name, put_names, put_all, first_of, find_name, Dname, make, has_names,
  rebuild, assign, addafter, addafter_dname, remove, at_name,
}

-- The first position of a name in a list of names whose first stands at `j`.
abbrev pub first_position : String → List String → ℕ → Option ℕ
first_position s [] j = none
first_position s (x ∷ names) j = if str_eq x s then some j else first_position s names (j + 1)

abbrev pub or_else : Option ℕ → Option ℕ → Option ℕ
or_else none o = o
or_else (some i) o = some i

-- A position found so far lies below the next one.
abbrev pub below : ℕ → Option ℕ → Bool
below j none = true
below j (some i) = ltb i j

first_of-set_insert :
    (j : ℕ) (is : List ℕ)
    → below j (first_of is) ≡ true
    → first_of (set_insert j is) ≡ or_else (first_of is) (some j)
unfolding set_insert
first_of-set_insert j [] h = refl
first_of-set_insert j (i ∷ is) h = ground arith

find_name-put_name :
    (m : NamesMap) (x s : String) (j : ℕ)
    → below j (find_name m s) ≡ true
    → find_name (put_name m x j) s
      ≡ (if str_eq x s then or_else (find_name m s) (some j) else find_name m s)
unfolding find_name put_name
find_name-put_name [] x s j h = ground arith
find_name-put_name ((k, is) ∷ m) x s j h = ground (
  arith,
  eq_iff k x,
  eq_iff k s,
  eq_iff x s,
  first_of-set_insert j is,
  find_name-put_name m x s j,
)

below_suc : (j : ℕ) (o : Option ℕ) → below j o ≡ true → below (j + 1) o ≡ true
below_suc j none h = refl
below_suc j (some i) h = ground arith

below-or_else :
    (j : ℕ) (o : Option ℕ) → below j o ≡ true → below (j + 1) (or_else o (some j)) ≡ true
below-or_else j none h = ground arith
below-or_else j (some i) h = ground arith

or_else_assoc : (o p q : Option ℕ) → or_else (or_else o p) q ≡ or_else o (or_else p q)
or_else_assoc none p q = refl
or_else_assoc (some i) p q = refl

-- What the map finds after a list of names has been put behind what it held.
find_name-put_all :
    (names : List String) (j : ℕ) (m : NamesMap) (s : String)
    → below j (find_name m s) ≡ true
    → find_name (put_all names j m) s ≡ or_else (find_name m s) (first_position s names j)
unfolding put_all
find_name-put_all [] j m s h = ground arith
find_name-put_all (x ∷ names) j m s h = ground (
  arith,
  find_name-put_name m x s j h,
  below_suc j (find_name m s),
  below-or_else j (find_name m s),
  or_else_assoc (find_name m s) (some j) (first_position s names (j + 1)),
  find_name-put_all names (j + 1) (put_name m x j) s,
)

find_name-put_names :
    (names : List String) (j : ℕ) (m : NamesMap) (s : String)
    → str_eq s "" ≡ false
    → below j (find_name m s) ≡ true
    → find_name (put_names names j m) s ≡ or_else (find_name m s) (first_position s names j)
unfolding put_names
find_name-put_names [] j m s e h = ground arith
find_name-put_names (x ∷ names) j m s e h = ground (
  arith,
  eq_iff x "",
  eq_iff x s,
  eq_iff s "",
  find_name-put_name m x s j h,
  below_suc j (find_name m s),
  below-or_else j (find_name m s),
  or_else_assoc (find_name m s) (some j) (first_position s names (j + 1)),
  find_name-put_names names (j + 1) m s e,
  find_name-put_names names (j + 1) (put_name m x j) s e,
)

-- After `Dname(n, names)`, looking up a name that is not empty gives its first position, and throws
-- where it is not among the names.
pub at_name-make :
    (n : ℕ) (names : List String) (d : Dname) (s : String)
    → str_eq s "" ≡ false
    → make n names ≡ some d
    → at_name d s ≡ first_position s names 0
unfolding make at_name find_name
at_name-make n names d s e h = ground (arith, find_name-put_names names 0 [] s e refl)

nil_of_length : (m : NamesMap) → (length m == 0) ≡ true → m ≡ []
nil_of_length [] h = refl
nil_of_length (e ∷ m) h = ground arith

find_name-rebuild :
    (n : ℕ) (names : List String) (s : String)
    → str_eq s "" ≡ false
    → at_name (rebuild n names) s ≡ first_position s (rebuild n names).names 0
unfolding rebuild at_name find_name
find_name-rebuild n names s e = elim (Bool-cases (length (put_names names 0 []) == 0)) [
  | inl h ↦ rw (h, nil_of_length (put_names names 0 []) h) refl
  | inr h ↦ rw h (find_name-put_names names 0 [] s e refl)
]

-- After `assign` to dimension names that there are, looking up a name that is not empty gives its
-- first position among the names there are then.
at_name-assign :
    (d w : Dname) (i : ℕ) (s t : String)
    → has_names d ≡ true
    → str_eq t "" ≡ false
    → assign d i s ≡ some w
    → at_name w t ≡ first_position t w.names 0
unfolding assign has_names
at_name-assign d w i s t h e a = ground (arith, find_name-rebuild d.sz (set d.names i s) t e)

-- addafter(s): a name behind the others is found where it is the first of its kind, and does not hide another.
pub at_name-addafter :
    (d : Dname) (x s : String)
    → str_eq s "" ≡ false
    → below d.sz (at_name d s) ≡ true
    → at_name (addafter d x) s
      ≡ (if str_eq x s then or_else (at_name d s) (some d.sz) else at_name d s)
unfolding addafter at_name
at_name-addafter d x s e h =
    ground (arith, eq_iff x "", eq_iff x s, eq_iff s "", find_name-put_name d.names_map x s d.sz h)

-- addafter(dn): a name is found where it was, or else at its first position in `dn`, shifted by the
-- extent so far.
at_name-addafter_dname :
    (d dn : Dname) (s : String)
    → below d.sz (at_name d s) ≡ true
    → at_name (addafter_dname d dn) s ≡ or_else (at_name d s) (first_position s dn.names d.sz)
unfolding addafter_dname at_name
at_name-addafter_dname d dn s h = find_name-put_all dn.names d.sz d.names_map s h

-- After the removal of a position, looking up a name that is not empty gives its first position
-- among the names that are left, and throws where it is not among them.
pub at_name-remove :
    (d w : Dname) (n : ℕ) (s : String)
    → str_eq s "" ≡ false
    → remove d n ≡ some w
    → at_name w s ≡ first_position s w.names 0
unfolding remove
at_name-remove d w n s e h =
    ground (arith, find_name-rebuild (d.sz - 1) (take n d.names ++ drop (n + 1) d.names) s e)
