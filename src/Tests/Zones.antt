-- ===== src/Tests/Zones.antt =====
-- Offsets of a zone with three transitions, at concrete instants.
use ztsdb.Base.{ℕ, ◌≡◌, refl, true, Option, some, [], ◌∷◌, arith}
use ztsdb.Base.Int.{ℤ, pos}
use ztsdb.Zone.{Zone, bs, getoffset, seconds}
use ztsdb.Zone.Search.{in_force, bs-in_force}
use ztsdb.Zone.Offset.{walk_offset, getoffset-walk}

-- An hour more from second 100 on, none from 200, an hour more from 300.
abbrev zone : Zone
zone = record {
  ats = pos 100 ∷ pos 200 ∷ pos 300 ∷ [];
  types = 1 ∷ 0 ∷ 1 ∷ [];
  gmtoffs = pos 0 ∷ pos 3600 ∷ [];
  default_type = 0;
}

abbrev instant : ℤ
instant = pos 250000000000

bs-in_force_example :
    (i : ℕ) × (bs (pos 250) zone.ats ≡ some i) × (in_force (pos 250) zone.ats i ≡ true)
bs-in_force_example = bs-in_force (pos 250) zone.ats refl (omega arith) (omega arith) refl

getoffset-walk_example :
    (p : Option ℕ) × (getoffset zone instant ≡ some (p, walk_offset zone (seconds instant)))
getoffset-walk_example = getoffset-walk zone instant refl (omega arith) refl refl

walked : walk_offset zone (seconds instant) ≡ pos 0
walked = refl

found_at : getoffset zone (pos 350000000000) ≡ some (some 2, pos 3600)
unfolding getoffset
found_at = refl
