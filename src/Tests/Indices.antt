-- ===== src/Tests/Indices.antt =====
-- The indices at concrete positions.
use ztsdb.Base.{Bool, List, true, false, refl, ◌≡◌, [], ◌∷◌}
use ztsdb.Index.Bools

abbrev flags : List Bool
flags = true ∷ false ∷ true ∷ true ∷ []

-- From position 0 the flag at 3 is found, and the one at 2 is not.
flag_missed : (Bools.getnext flags (record { val = 0; i = 0 })).1.i ≡ 3
unfolding Bools.getnext
flag_missed = refl
