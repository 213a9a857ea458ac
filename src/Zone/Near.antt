-- ===== src/Zone/Near.antt =====
-- The search for an offset from a position nearby.
use ztsdb.Base.{
  ℕ, zero, suc, ◌+◌, ◌-◌, ◌^◌, ◌<◌, ◌≡◌, refl, ap, subst, ◌∙◌, Bool, true, false, ◌&&◌, ◌||◌, not,
  ltb, leb, ◌==◌, if◌then◌else◌, Option, some, List, [], ◌∷◌, length, pairwise, arith, Bool-cases,
  inl, inr,
}
use ztsdb.Base.Int.{ℤ, pos, negsuc, eq_ℤ, ltb_ℤ}
use ztsdb.Zone.{Zone, seconds, nanos, gmtoff, offset_from, getoffset, forward, getoffset_near}
use ztsdb.Zone.Search.{at, all-at, found}
use ztsdb.Zone.Offset.{walk_offset, getoffset-walk, type_at-in_force}

-- The forward search from `i` stops at `j`: the transition at `j` is before the instant (or `j` is
-- where the search began), and the next one is not.
abbrev pub nearest : List ℤ → ℤ → ℕ → ℕ → Bool
nearest ats dt i j =
    (leb i j && (i == j || ltb_ℤ (nanos (at ats j)) dt))
    && (if ltb (j + 1) (length ats) then not (ltb_ℤ (nanos (at ats (j + 1))) dt) else true)

nearest_suc :
    (ats : List ℤ) (dt : ℤ) (i j : ℕ)
    → ltb_ℤ (nanos (at ats (i + 1))) dt ≡ true
    → nearest ats dt (i + 1) j ≡ true
    → nearest ats dt i j ≡ true
nearest_suc ats dt i j e h = elim (Bool-cases (i + 1 == j)) [
  | inl q ↦
      let p : i + 1 ≡ j = ground (arith, q) in
      let l : ltb_ℤ (nanos (at ats j)) dt ≡ true =
        subst (λ k. ltb_ℤ (nanos (at ats k)) dt ≡ true) p e in
      ground (arith, p, l, h)
  | inr q ↦ ground (arith, q, h)
]

forward-nearest :
    (n : ℕ) (ats : List ℤ) (dt : ℤ) (i : ℕ)
    → i + n + 1 ≡ length ats
    → nearest ats dt i (forward n ats dt i) ≡ true
unfolding forward
forward-nearest zero ats dt i h = ground arith
forward-nearest (suc n) ats dt i h = elim (Bool-cases (ltb_ℤ (nanos (at ats (i + 1))) dt)) [
  | inl e ↦
      rw (e, forward)
        (nearest_suc ats dt i (forward n ats dt (i + 1)) e
          (forward-nearest n ats dt (i + 1) (omega arith)))
  | inr e ↦ ground (arith, e)
]

-- From a position within the bounds, the forward search ends within them, at the last transition
-- before the instant, or where it began.
getoffset_near-nearest :
    (z : Zone) (dt : ℤ) (i : ℕ)
    → i < length z.ats
    → (j : ℕ) × (getoffset_near z dt (some i) true ≡ some (some j, offset_from z j))
      × (nearest z.ats dt i j ≡ true)
unfolding getoffset_near
getoffset_near-nearest z dt i h = (
  forward (length z.ats - 1 - i) z.ats dt i,
  refl,
  forward-nearest (length z.ats - 1 - i) z.ats dt i (omega arith),
)

seconds-nanos : (a : ℤ) → seconds (nanos a) ≡ a
seconds-nanos (pos n) = ground arith
seconds-nanos (negsuc n) = ground arith

first_below :
    (ats : List ℤ) (i : ℕ)
    → pairwise ltb_ℤ ats ≡ true
    → i + 1 < length ats
    → ltb_ℤ (at ats 0) (at ats (i + 1)) ≡ true
first_below [] i h b = absurd (omega arith)
first_below (a ∷ ats) i h b = ground (arith, all-at a ats i)

forward-here : (n : ℕ) (ats : List ℤ) (i : ℕ) → forward n ats (nanos (at ats (i + 1))) i ≡ i
unfolding forward
forward-here zero ats i = refl
forward-here (suc n) ats i = ground arith

-- At the very instant of a transition that is not the first, getoffset gives the offset from it on,
-- and the search from the transition before it gives the offset from that one on.
getoffset_near-differs :
    (z : Zone) (i : ℕ)
    → pairwise ltb_ℤ z.ats ≡ true
    → length z.ats < 2 ^ 31
    → length z.types ≡ length z.ats
    → i + 1 < length z.ats
    → (p : Option ℕ) × (getoffset z (nanos (at z.ats (i + 1))) ≡ some (p, offset_from z (i + 1)))
      × (getoffset_near z (nanos (at z.ats (i + 1))) (some i) true ≡ some (some i, offset_from z i))
unfolding getoffset_near
getoffset_near-differs z i asc small types h =
    let t = at z.ats (i + 1) in
    let s : seconds (nanos (at z.ats (i + 1))) ≡ at z.ats (i + 1) =
      seconds-nanos (at z.ats (i + 1)) in
    let b : ltb_ℤ (at z.ats 0) (at z.ats (i + 1)) ≡ true = first_below z.ats i asc h in
    let e : eq_ℤ (at z.ats 0) (seconds (nanos (at z.ats (i + 1)))) ≡ false =
      rw s (ground (arith, b)) in
    let (p, q) = getoffset-walk z (nanos (at z.ats (i + 1))) asc small types e in
    let w =
      type_at-in_force z.default_type z.ats z.types (at z.ats (i + 1)) (i + 1) asc types
        (found (at z.ats (i + 1)) z.ats (i + 1) asc h (ground arith)) in
    (
      p,
      q ∙ ap (λ t. some (p, walk_offset z t)) s ∙ ap (λ k. some (p, gmtoff z k)) w,
      ap (λ j. some (some j, offset_from z j)) (forward-here (length z.ats - 1 - i) z.ats i),
    )
