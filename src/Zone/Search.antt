-- ===== src/Zone/Search.antt =====
-- The binary search finds the transition in force.
use ztsdb.Base.{
  ℕ, zero, suc, ◌+◌, ◌-◌, ◌/◌, ◌^◌, ◌≤◌, ◌<◌, ◌≡◌, refl, sym, subst, ◌∙◌, ap, Bool, true, false,
  ◌&&◌, ◌||◌, ltb, leb, ◌==◌, if◌then◌else◌, some, List, [], ◌∷◌, length, get_elem?, get_or, all,
  pairwise, arith, Bool-cases, inl, inr,
}
use ztsdb.Base.Int.{ℤ, pos, eq_ℤ, ltb_ℤ}
use ztsdb.Zone.{bs_loop, bs, pred64, half_sum64}

-- The value at a position.
abbrev pub at : List ℤ → ℕ → ℤ
at ats i = get_or ats i (pos 0)

pub get_elem?-at : (ats : List ℤ) (i : ℕ) → i < length ats → get_elem? ats i ≡ some (at ats i)
get_elem?-at [] i h = absurd (omega arith)
get_elem?-at (a ∷ ats) zero h = refl
get_elem?-at (a ∷ ats) (suc i) h = get_elem?-at ats i (omega arith)

pub all-at :
    (a : ℤ) (ats : List ℤ) (k : ℕ)
    → all (ltb_ℤ a) ats ≡ true
    → k < length ats
    → ltb_ℤ a (at ats k) ≡ true
all-at a [] k h b = absurd (omega arith)
all-at a (y ∷ ats) zero h b = ground arith
all-at a (y ∷ ats) (suc k) h b = all-at a ats k (ground arith) (omega arith)

pub at_mono :
    (ats : List ℤ) (i : ℕ)
    → pairwise ltb_ℤ ats ≡ true
    → i + 1 < length ats
    → ltb_ℤ (at ats i) (at ats (i + 1)) ≡ true
at_mono [] i h b = absurd (omega arith)
at_mono (y ∷ ats) zero h b = all-at y ats 0 (ground arith) (omega arith)
at_mono (y ∷ ats) (suc i) h b = ground (arith, at_mono ats i)

-- Transition `i` is in force at `t`: it is not behind `t`, and the next one is.
abbrev pub in_force : ℤ → List ℤ → ℕ → Bool
in_force t ats i =
    ltb i (length ats)
    && ((if ltb_ℤ t (at ats i) then false else true)
        && (if ltb (i + 1) (length ats) then ltb_ℤ t (at ats (i + 1)) else true))

-- What the loop keeps: all before `first` is before `t`, and all behind `last` is behind it.
abbrev between : ℤ → List ℤ → ℕ → ℕ → Bool
between t ats first last =
    (leb first (last + 1) && ltb last (length ats))
    && ((first == 0 || ltb_ℤ (at ats (first - 1)) t)
        && (last + 1 == length ats || ltb_ℤ t (at ats (last + 1))))

half_sum_lem : (a b : ℕ) → a ≤ b + 1 → b < 2 ^ 31 → half_sum64 a b ≡ (a + b) / 2
half_sum_lem a b h s = omega arith

pred_lem : (a : ℕ) → 0 < a → a < 2 ^ 32 → pred64 a ≡ a - 1
pred_lem a h s = omega arith

stopped :
    (t : ℤ) (ats : List ℤ) (first last : ℕ)
    → between t ats first last ≡ true
    → leb first last ≡ false
    → (first ≡ last + 1) × (in_force t ats last ≡ true)
stopped t ats first last b e =
    let q : first ≡ last + 1 = ground (arith, b, e) in
    let p : first - 1 ≡ last = omega (arith, q) in (q, ground (arith, b, e, q, ap (at ats) p))

above :
    (t : ℤ) (ats : List ℤ) (first last m : ℕ)
    → between t ats first last ≡ true
    → m ≤ last
    → ltb_ℤ (at ats m) t ≡ true
    → between t ats (m + 1) last ≡ true
above t ats first last m b h e =
    let p : m + 1 - 1 ≡ m = omega arith in ground (arith, b, e, ap (at ats) p)

below :
    (t : ℤ) (ats : List ℤ) (first last m : ℕ)
    → between t ats first last ≡ true
    → first ≤ m
    → m ≤ last
    → ltb_ℤ (at ats 0) t ≡ true
    → ltb_ℤ (at ats m) t ≡ false
    → eq_ℤ (at ats m) t ≡ false
    → (0 < m) × (between t ats first (m - 1) ≡ true)
below t ats first last zero b f h z e n = absurd (ground (arith, z, e))
below t ats first last (suc m) b f h z e n = (omega arith, ground (arith, b, e, n))

pub found :
    (t : ℤ) (ats : List ℤ) (m : ℕ)
    → pairwise ltb_ℤ ats ≡ true
    → m < length ats
    → eq_ℤ (at ats m) t ≡ true
    → in_force t ats m ≡ true
found t ats m asc h e = elim (Bool-cases (ltb (m + 1) (length ats))) [
  | inl l ↦ ground (arith, e, l, at_mono ats m asc)
  | inr l ↦ ground (arith, e, l)
]

-- The rounds of the loop.
loop_up :
    (t : ℤ) (ats : List ℤ) (fuel first last m : ℕ) (a : ℤ)
    → leb first last ≡ true
    → get_elem? ats m ≡ some a
    → ltb_ℤ a t ≡ true
    → bs_loop (suc fuel) t ats first last m
      ≡ bs_loop fuel t ats (m + 1) last (half_sum64 (m + 1) last)
unfolding bs_loop
loop_up t ats fuel first last m a g r l = rw (g, r, l, bs_loop) refl

loop_hit :
    (t : ℤ) (ats : List ℤ) (fuel first last m : ℕ) (a : ℤ)
    → leb first last ≡ true
    → get_elem? ats m ≡ some a
    → ltb_ℤ a t ≡ false
    → eq_ℤ a t ≡ true
    → bs_loop (suc fuel) t ats first last m ≡ some m
unfolding bs_loop
loop_hit t ats fuel first last m a g r l e = rw (g, r, l, e, bs_loop) refl

loop_down :
    (t : ℤ) (ats : List ℤ) (fuel first last m m' : ℕ) (a : ℤ)
    → leb first last ≡ true
    → get_elem? ats m ≡ some a
    → ltb_ℤ a t ≡ false
    → eq_ℤ a t ≡ false
    → pred64 m ≡ m'
    → bs_loop (suc fuel) t ats first last m ≡ bs_loop fuel t ats first m' (half_sum64 first m')
unfolding bs_loop
loop_down t ats fuel first last m m' a g r l e d =
    subst
      (λ k. bs_loop (suc fuel) t ats first last m ≡ bs_loop fuel t ats first k (half_sum64 first k))
      d (rw (g, r, l, e, bs_loop) refl)

loop-in_force :
    (t : ℤ) (ats : List ℤ) (fuel first last : ℕ)
    → pairwise ltb_ℤ ats ≡ true
    → length ats < 2 ^ 31
    → ltb_ℤ (at ats 0) t ≡ true
    → last + 1 ≤ first + fuel
    → between t ats first last ≡ true
    → (i : ℕ) × (bs_loop (suc fuel) t ats first last (half_sum64 first last) ≡ some i)
      × (in_force t ats i ≡ true)
unfolding bs_loop
loop-in_force t ats zero first last asc small z h b =
    let (q, force) = stopped t ats first last b (ground (arith, b)) in
    let w : last < length ats = ground (arith, b) in
    let m : half_sum64 first last ≡ last = omega (arith, q, w) in
    let out : leb first last ≡ false = ground (arith, q) in (last, rw (out, m, bs_loop) refl, force)
loop-in_force t ats (suc fuel) first last asc small z h b =
    let w : last < length ats = ground (arith, b) in
    let o : first ≤ last + 1 = ground (arith, b) in
    let m : half_sum64 first last ≡ (first + last) / 2 = half_sum_lem first last o (omega arith) in
    elim (Bool-cases (leb first last)) [
      | inr out ↦
          let (q, force) = stopped t ats first last b out in
          let e : half_sum64 first last ≡ last = omega (arith, q, w) in
          (last, rw (out, e, bs_loop) refl, force)
      | inl go ↦
          let f : first ≤ half_sum64 first last = ground (arith, m, go) in
          let l : half_sum64 first last ≤ last = ground (arith, m, go) in
          let read = get_elem?-at ats (half_sum64 first last) (omega arith) in
          elim (Bool-cases (ltb_ℤ (at ats (half_sum64 first last)) t)) [
            | inl lt ↦
                let (i, e, force) =
                  loop-in_force t ats fuel (half_sum64 first last + 1) last asc small z
                    (omega arith) (above t ats first last (half_sum64 first last) b l lt) in
                (
                  i,
                  loop_up t ats (suc fuel) first last (half_sum64 first last) _ go read lt ∙ e,
                  force,
                )
            | inr ge ↦ elim (Bool-cases (eq_ℤ (at ats (half_sum64 first last)) t)) [
              | inl eq ↦ (
                half_sum64 first last,
                loop_hit t ats (suc fuel) first last (half_sum64 first last) _ go read ge eq,
                found t ats (half_sum64 first last) asc (omega arith) eq,
              )
              | inr ne ↦
                  let (p, b') = below t ats first last (half_sum64 first last) b f l z ge ne in
                  let d : pred64 (half_sum64 first last) ≡ half_sum64 first last - 1 =
                    pred_lem (half_sum64 first last) p (omega arith) in
                  let (i, e, force) =
                    loop-in_force t ats fuel first (half_sum64 first last - 1) asc small z
                      (omega arith) b' in
                  (
                    i,
                    loop_down t ats (suc fuel) first last (half_sum64 first last) _ _ go read ge ne
                          d
                        ∙ e,
                    force,
                  )
            ]
          ]
    ]

-- For fewer than 2^31 transitions that ascend strictly and an instant behind the first, bs ends
-- within its bounds, and gives the transition in force.
pub bs-in_force :
    (t : ℤ) (ats : List ℤ)
    → pairwise ltb_ℤ ats ≡ true
    → length ats < 2 ^ 31
    → 0 < length ats
    → ltb_ℤ (at ats 0) t ≡ true
    → (i : ℕ) × (bs t ats ≡ some i) × (in_force t ats i ≡ true)
unfolding bs
bs-in_force t ats asc small n z =
    let d : pred64 (length ats) ≡ length ats - 1 = pred_lem (length ats) n (omega arith) in
    let c : suc (length ats) ≡ length ats + 1 = omega arith in
    let start : length ats - 1 + 1 ≡ length ats = omega arith in
    let (i, e, force) =
      loop-in_force t ats (length ats) 0 (length ats - 1) asc small z (omega arith)
        (ground (arith, start)) in
    (
      i,
      subst (λ l. bs_loop (length ats + 1) t ats 0 l (half_sum64 0 l) ≡ some i) (sym d)
          (subst (λ f. bs_loop f t ats 0 (length ats - 1) (half_sum64 0 (length ats - 1)) ≡ some i)
            c e),
      force,
    )
