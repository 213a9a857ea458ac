-- ===== src/Zone.antt =====
-- src/timezone/zone.cpp: the offset of a time zone from UTC at an instant.
-- An instant is its number of nanoseconds since the epoch, a transition its number of seconds. What
-- `tzload` reads from a file is a parameter: the transitions, the type of each, and the offsets of
-- the types. `none` stands for a read out of bounds.
pub mod Search
pub mod Offset
pub mod Near
use ztsdb.Base.{
  ℕ, zero, suc, ◌+◌, ◌-◌, ◌*◌, ◌/◌, ◌%◌, ◌^◌, Bool, true, false, ◌&&◌, ltb, leb, ◌==◌,
  if◌then◌else◌, Option, none, some, List, [], ◌∷◌, length, get_elem?, get_or,
}
use ztsdb.Base.Int.{ℤ, pos, negsuc, pos_part, neg_part, sub_ℕ, eq_ℤ, ltb_ℤ}

-- tz::state: `ats`, `types`, the `tt_gmtoff` of `ttis`, and `defaulttype`.
pub record Zone : Type 0 where
  pub ats : List ℤ
  pub types : List ℕ
  pub gmtoffs : List ℤ
  pub default_type : ℕ

-- Nanoseconds to a second.
abbrev pub den : ℕ
den = 1000000000

-- dt.time_since_epoch().count() / den, rounded to zero
abbrev pub seconds : ℤ → ℤ
seconds (pos n) = pos (n / den)
seconds (negsuc n) = sub_ℕ 0 (suc n / den)

-- `a * 1s`
abbrev pub nanos : ℤ → ℤ
nanos (pos n) = pos (n * den)
nanos (negsuc n) = sub_ℕ 0 (suc n * den)

-- size_t arithmetic
abbrev pub pred64 : ℕ → ℕ
pred64 n = (n + 2 ^ 64 - 1) % 2 ^ 64

abbrev pub half_sum64 : ℕ → ℕ → ℕ
half_sum64 a b = (a + b) % 2 ^ 64 / 2

-- The loop of bs.
unfoldable pub bs_loop : ℕ → ℤ → List ℤ → ℕ → ℕ → ℕ → Option ℕ
bs_loop zero t ats first last middle = none
bs_loop (suc fuel) t ats first last middle = elim (leb first last) [
  | false ↦ some middle
  | true ↦ elim (get_elem? ats middle) [
    | none ↦ none
    | some a ↦ elim (ltb_ℤ a t) [
      | true ↦ bs_loop fuel t ats (middle + 1) last (half_sum64 (middle + 1) last)
      | false ↦ elim (eq_ℤ a t) [
        | true ↦ some middle
        | false ↦ bs_loop fuel t ats first (pred64 middle) (half_sum64 first (pred64 middle))
      ]
    ]
  ]
]

-- bs(t, ats, n), where n is the number of transitions.
unfoldable pub bs : ℤ → List ℤ → Option ℕ
unfolding bs_loop
bs t ats =
    let last = pred64 (length ats) in bs_loop (length ats + 1) t ats 0 last (half_sum64 0 last)

-- s->ttis[k].tt_gmtoff
abbrev pub gmtoff : Zone → ℕ → ℤ
gmtoff z k = get_or z.gmtoffs k (pos 0)

-- The offset from transition `i` on.
abbrev pub offset_from : Zone → ℕ → ℤ
offset_from z i = gmtoff z (get_or z.types i z.default_type)

-- getoffset(dt, pos): the position, or -1 (`none`), and the offset. getoffset(dt) gives the same
-- offset.
unfoldable pub getoffset : Zone → ℤ → Option (Option ℕ × ℤ)
unfolding bs
getoffset z dt =
    if ltb 0 (length z.ats) && ltb_ℤ (get_or z.ats 0 (pos 0)) (seconds dt)
    then elim (bs (seconds dt) z.ats) [ none ↦ none | some i ↦ some (some i, offset_from z i) ]
    else some (none, gmtoff z z.default_type)

-- getoffset(dt, pos, dir) for dir >= 0 and pos >= 0: the loop, with `n` transitions behind `pos`.
unfoldable pub forward : ℕ → List ℤ → ℤ → ℕ → ℕ
forward zero ats dt i = i
forward (suc n) ats dt i =
    let rest = forward n ats dt (i + 1) in
    if ltb_ℤ (nanos (get_or ats (i + 1) (pos 0))) dt then rest else i

-- For dir < 0: the loop goes back from `pos`.
unfoldable pub backward : ℕ → List ℤ → ℤ → ℕ
backward zero ats dt = 0
backward (suc i) ats dt =
    let rest = backward i ats dt in
    if ltb_ℤ dt (nanos (get_or ats (suc i) (pos 0))) then rest else suc i

-- getoffset(dt, pos, dir)
unfoldable pub getoffset_near : Zone → ℤ → Option ℕ → Bool → Option (Option ℕ × ℤ)
unfolding getoffset forward backward
getoffset_near z dt none ahead = getoffset z dt
getoffset_near z dt (some i) true =
    let j = forward (length z.ats - 1 - i) z.ats dt i in some (some j, offset_from z j)
getoffset_near z dt (some i) false =
    let j = backward i z.ats dt in
    some (
      some j,
      if ltb_ℤ (nanos (get_or z.ats j (pos 0))) dt
          then offset_from z j
          else gmtoff z z.default_type,
    )
