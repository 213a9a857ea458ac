-- ===== src/Zone/Offset.antt =====
-- The offset at an instant, against a walk over the transitions.
use ztsdb.Base.{
  ℕ, zero, suc, ◌^◌, ◌<◌, ◌≡◌, refl, true, false, ◌&&◌, ◌||◌, ltb, ◌==◌, if◌then◌else◌, Option,
  none, some, List, [], ◌∷◌, length, get_or, pairwise, arith, Bool-cases, inl, inr,
}
use ztsdb.Base.Int.{ℤ, eq_ℤ, ltb_ℤ}
use ztsdb.Zone.{Zone, seconds, gmtoff, getoffset}
use ztsdb.Zone.Search.{at, all-at, in_force, bs-in_force}

-- The type in force at `t`, where `k` is the one before the transitions.
abbrev pub type_at : ℕ → List ℤ → List ℕ → ℤ → ℕ
type_at k [] js t = k
type_at k (a ∷ ats) [] t = k
type_at k (a ∷ ats) (j ∷ js) t = if ltb_ℤ t a then k else type_at j ats js t

type_at_before :
    (k : ℕ) (ats : List ℤ) (js : List ℕ) (t : ℤ)
    → (length ats == 0 || ltb_ℤ t (at ats 0)) ≡ true
    → type_at k ats js t ≡ k
type_at_before k [] js t h = refl
type_at_before k (a ∷ ats) [] t h = refl
type_at_before k (a ∷ ats) (j ∷ js) t h = ground arith

get_or_inside : (js : List ℕ) (i j k : ℕ) → i < length js → get_or js i j ≡ get_or js i k
get_or_inside [] i j k h = absurd (omega arith)
get_or_inside (x ∷ js) zero j k h = refl
get_or_inside (x ∷ js) (suc i) j k h = get_or_inside js i j k (omega arith)

pub type_at-in_force :
    (k : ℕ) (ats : List ℤ) (js : List ℕ) (t : ℤ) (i : ℕ)
    → pairwise ltb_ℤ ats ≡ true
    → length js ≡ length ats
    → in_force t ats i ≡ true
    → type_at k ats js t ≡ get_or js i k
type_at-in_force k [] js t i h l f = ground arith
type_at-in_force k (a ∷ ats) [] t i h l f = absurd (omega arith)
type_at-in_force k (a ∷ ats) (j ∷ js) t zero h l f = ground (arith, type_at_before j ats js t)
type_at-in_force k (a ∷ ats) (j ∷ js) t (suc i) h l f =
    let below : ltb_ℤ a (at ats i) ≡ true = all-at a ats i (ground arith) (ground (arith, f)) in
    let rest = type_at-in_force j ats js t i (ground arith) (omega arith) (ground (arith, f)) in
    ground (arith, below, rest, f, get_or_inside js i j k)

-- The offset that a walk over the transitions gives.
abbrev pub walk_offset : Zone → ℤ → ℤ
walk_offset z t = gmtoff z (type_at z.default_type z.ats z.types t)

-- For fewer than 2^31 transitions that ascend strictly, each with a type, and an instant whose second
-- is not that of the first transition, getoffset ends within its bounds, and gives the offset of the
-- last transition that is not behind the second, or the default one where there is none.
pub getoffset-walk :
    (z : Zone) (dt : ℤ)
    → pairwise ltb_ℤ z.ats ≡ true
    → length z.ats < 2 ^ 31
    → length z.types ≡ length z.ats
    → eq_ℤ (at z.ats 0) (seconds dt) ≡ false
    → (p : Option ℕ) × (getoffset z dt ≡ some (p, walk_offset z (seconds dt)))
unfolding getoffset
getoffset-walk z dt asc small types first =
    elim (Bool-cases (ltb 0 (length z.ats) && ltb_ℤ (at z.ats 0) (seconds dt))) [
      | inl e ↦
          let (i, q, force) =
            bs-in_force (seconds dt) z.ats asc small (ground (arith, e)) (ground (arith, e)) in
          let w = type_at-in_force z.default_type z.ats z.types (seconds dt) i asc types force in
          (some i, rw (e, q, w) refl)
      | inr e ↦
          let w =
            type_at_before z.default_type z.ats z.types (seconds dt) (ground (arith, e, first)) in
          (none, rw (e, w) refl)
    ]

-- In the second of the first transition getoffset gives the offset before it.
pub getoffset-first :
    (z : Zone) (dt : ℤ)
    → eq_ℤ (at z.ats 0) (seconds dt) ≡ true
    → getoffset z dt ≡ some (none, gmtoff z z.default_type)
unfolding getoffset
getoffset-first z dt e = ground (arith, e)
