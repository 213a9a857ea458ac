-- ===== src/Align/Rounds.antt =====
-- One round of align_closest, over instants that ascend strictly.
use ztsdb.Base.{
  ℕ, zero, suc, ◌+◌, ◌-◌, ◌≤◌, ◌<◌, ◌≡◌, ap, subst, Bool, true, false, not, ◌&&◌, ◌||◌,
  if◌then◌else◌, pairwise, ltb, leb, some, List, length, get_or, arith, Bool-cases, inl, inr,
  Option-cases,
}
use ztsdb.Align.{Round, advance, closest, round}
use ztsdb.Align.Closest.{
  in_window, no_closer, advance_not_before, advance_least, get_or_mono, closest_least,
  closest_bounds,
}

closest_mono : (n : ℕ) (x : List ℕ) (r : Round) (i : ℕ) → leb i (closest n x r i) ≡ true
unfolding closest
closest_mono zero x r i = ground arith
closest_mono (suc n) x r i = ground (arith, closest_mono n x r (i + 1))

not_before :
    (x : List ℕ) (r : Round) (i k : ℕ)
    → pairwise ltb x ≡ true
    → i ≤ k
    → k < length x
    → leb r.ystart (get_or x i 0) ≡ true
    → leb r.ystart (get_or x k 0) ≡ true
not_before x r i k h a b e = elim (Bool-cases (ltb i k)) [
  | inl q ↦ let m = get_or_mono x i k h (ground (arith, q)) b in ground (arith, e, m)
  | inr q ↦ subst (λ j. leb r.ystart (get_or x j 0) ≡ true) (ground (arith, q)) e
]

-- Where the first loop has stopped at an element of the window, the second gives one of the window,
-- and none from there on is closer.
chosen :
    (x : List ℕ) (r : Round) (i k : ℕ)
    → pairwise ltb x ≡ true
    → in_window x r i ≡ true
    → i ≤ k
    → in_window x r k ≡ true
    → let j = closest (length x - i) x r i in (in_window x r j && no_closer x r j k) ≡ true
chosen x r i k h w a v =
    let bounds = closest_bounds (length x - i) x r i (ground (arith, w)) (ground (arith, w)) in
    let later = closest_mono (length x - i) x r i in
    let start =
      not_before x r i (closest (length x - i) x r i) h (ground (arith, later))
        (ground (arith, bounds)) (ground (arith, w)) in
    let near =
      closest_least (length x - i) x r i k h (omega arith) a (ground (arith, v))
        (ground (arith, v)) in
    ground (arith, bounds, start, near)

-- What a round that stops at `i` says of the element at `k`.
abbrev pub verdict : List ℕ → Round → ℕ → Bool → ℕ → Bool
verdict x r i found k =
    if found
    then in_window x r i && (not (in_window x r k) || no_closer x r i k)
    else not (in_window x r k)

-- Where the first loop stops behind the window, no element from there on is in the window.
late_lem :
    (x : List ℕ) (r : Round) (j k : ℕ)
    → pairwise ltb x ≡ true
    → ltb r.yend (get_or x j 0) ≡ true
    → j ≤ k
    → in_window x r k ≡ false
late_lem x r j k h late a = elim (Bool-cases (in_window x r k)) [
  | inr n ↦ n
  | inl w ↦ elim (Bool-cases (ltb j k)) [
    | inl m ↦
        let later = get_or_mono x j k h (ground (arith, m)) (ground (arith, w)) in
        absurd (ground (arith, late, later, w))
    | inr m ↦
        let same = ap (λ n. get_or x n 0) (let s : j ≡ k = ground (arith, m, a) in s) in
        absurd (ground (arith, late, same, w))
  ]
]

-- A round of align_closest that starts at a position of a vector that ascends strictly, and finds a
-- position, gives one in the window, such that no element of the window from the start on is
-- closer; where it finds none, no element from the start on is in the window.
pub round_closest :
    (x : List ℕ) (r : Round) (ix i k : ℕ) (found : Bool)
    → pairwise ltb x ≡ true
    → round true x r ix ≡ some (i, found)
    → ix ≤ k
    → verdict x r i found k ≡ true
unfolding round
round_closest x r ix i k found h e a =
    elim (Option-cases (advance true (length x - ix) x r.ystart ix)) [
      | inl q ↦ absurd (ground (arith, q, e))
      | inr p ↦
          let (j, q) = p in
          let least = advance_least (length x - ix) x r.ystart ix j k q a in
          elim (Bool-cases (leb (length x) j || ltb r.yend (get_or x j 0))) [
            | inl none_here ↦ elim (Bool-cases (ltb k j)) [
              | inl before ↦ ground (arith, q, e, none_here, least, before)
              | inr behind ↦ elim (Bool-cases (leb (length x) j)) [
                | inl over ↦ ground (arith, q, e, over, behind)
                | inr inside ↦
                    let late : ltb r.yend (get_or x j 0) ≡ true =
                      ground (arith, none_here, inside) in
                    let no = late_lem x r j k h late (ground (arith, behind)) in
                    ground (arith, q, e, inside, late, no)
              ]
            ]
            | inr here ↦
                let stops =
                  advance_not_before (length x - ix) x r.ystart ix j q (ground (arith, here)) in
                let w : in_window x r j ≡ true = ground (arith, here, stops) in
                let itself = chosen x r j j h w (omega arith) w in
                elim (Bool-cases (in_window x r k)) [
                  | inl v ↦
                      let near = chosen x r j k h w (ground (arith, least, v)) v in
                      ground (arith, q, e, here, itself, v, near)
                  | inr v ↦ ground (arith, q, e, here, itself, v)
                ]
          ]
    ]
