-- ===== src/Tests/Dnames.antt =====
-- Dimension names at concrete values.
use ztsdb.Base.{◌≡◌, refl, some, [], ◌∷◌}
use ztsdb.Dname.{Dname, make, assign, remove, at_name}
use ztsdb.Dname.Lookup

-- The names "a", "b", "a".
abbrev three : Dname
three = record {
  sz = 3;
  names = "a" ∷ "b" ∷ "a" ∷ [];
  names_map = ("a", 0 ∷ 2 ∷ []) ∷ ("b", 1 ∷ []) ∷ [];
}

abbrev unnamed : Dname
unnamed = record { sz = 2; names = []; names_map = [] }

make-three : make 3 ("a" ∷ "b" ∷ "a" ∷ []) ≡ some three
unfolding make
make-three = refl

at_name-make_example : at_name three "a" ≡ some 0
at_name-make_example = Lookup.at_name-make 3 ("a" ∷ "b" ∷ "a" ∷ []) three "a" refl make-three

abbrev assigned : Dname
assigned = record {
  sz = 3;
  names = "b" ∷ "b" ∷ "a" ∷ [];
  names_map = ("b", 0 ∷ 1 ∷ []) ∷ ("a", 2 ∷ []) ∷ [];
}

assign-three : assign three 0 "b" ≡ some assigned
unfolding assign
assign-three = refl

abbrev removed : Dname
removed = record { sz = 2; names = "b" ∷ "a" ∷ []; names_map = ("b", 0 ∷ []) ∷ ("a", 1 ∷ []) ∷ [] }

remove-three : remove three 0 ≡ some removed
unfolding remove
remove-three = refl
