-- ===== src/Dname/Stale.antt =====
-- A name given to a dimension that had none is stored, and not found.
use Prim.Native.String.{String}
use text.Mathlib.Text.{◌==◌ as str_eq}
use ztsdb.Base.{
  ℕ, zero, suc, ◌<◌, ◌≡◌, refl, false, none, some, [], get_elem?, set, replicate, arith,
}
use ztsdb.Dname.{Dname, find_name, has_names, assign, at_name}

get_elem?-set-replicate :
    (n i : ℕ) (a b : String) → i < n → get_elem? (set (replicate n a) i b) i ≡ some b
get_elem?-set-replicate zero i a b h = absurd (omega arith)
get_elem?-set-replicate (suc n) zero a b h = refl
get_elem?-set-replicate (suc n) (suc i) a b h = get_elem?-set-replicate n i a b (omega arith)

-- `assign` of a name that is not empty, inside the bounds, to a dimension without names stores the
-- name and does not enter it into the map: the lookup by that name throws.
assign-stale :
    (d : Dname) (i : ℕ) (s : String)
    → d.names ≡ []
    → d.names_map ≡ []
    → i < d.sz
    → str_eq s "" ≡ false
    → (w : Dname) × (assign d i s ≡ some w) × (get_elem? w.names i ≡ some s) × (at_name w s ≡ none)
unfolding assign has_names at_name find_name
assign-stale d i s e m h t = (
  record d { names = set (replicate d.sz "") i s },
  rw (t, e) (ground arith),
  get_elem?-set-replicate d.sz i "" s h,
  rw m refl,
)
