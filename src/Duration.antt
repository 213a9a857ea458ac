-- ===== src/Duration.antt =====
-- src/timezone/ztime.cpp: durations as text. A duration is its number of nanoseconds.
pub mod RoundTrip
use ztsdb.Base.{
  ℕ, zero, suc, ◌+◌, ◌-◌, ◌*◌, ◌/◌, ◌%◌, Bool, true, false, ◌&&◌, ◌||◌, not, ltb, leb, ◌==◌,
  if◌then◌else◌, Option, none, some, List, [], ◌∷◌, ◌++◌,
}
use ztsdb.Base.Int.{ℤ, pos, negsuc, sub_ℕ}
use ztsdb.Text.{is_digit, read_number, signed, show, show2, show3}

-- duration_from_string2: the loop over the fraction, `mul` nanoseconds to a unit of the digit at hand,
-- `i` digits read, `d` nanoseconds read so far.
unfoldable pub read_fraction : ℕ → ℕ → ℕ → List ℕ → Option ℕ
read_fraction mul i d [] = some d
read_fraction mul i d (c ∷ s) =
    let skip = read_fraction mul i d s in
    let next = read_fraction (mul / 10) (i + 1) (d + (c - b'0') * mul) s in
    if mul == 0
    then none
    else if (i == 3 || i == 6) && c == b'_'
    then skip
    else if is_digit c
    then next
    else none

-- From where the seconds have been read.
unfoldable pub read_rest : ℕ → List ℕ → Option ℕ
unfolding read_fraction
read_rest d [] = some d
read_rest d (c ∷ s) = if c == b'.' then read_fraction 100000000 0 d s else none

-- MM:SS, five bytes, after the hours.
unfoldable pub read_minutes : ℕ → List ℕ → Option ℕ
unfolding read_rest
read_minutes h (a ∷ b ∷ c ∷ d ∷ e ∷ s) =
    if is_digit a && is_digit b && c == b':' && is_digit d && is_digit e
    then read_rest
        ((h * 3600 + ((a - b'0') * 10 + (b - b'0')) * 60 + ((d - b'0') * 10 + (e - b'0')))
          * 1000000000)
        s
    else none
read_minutes h s = none

-- HHH:MM:SS, or seconds.
unfoldable pub read_unsigned : List ℕ → Option ℕ
unfolding read_rest read_minutes read_number
read_unsigned s = elim (read_number s) [
  | none ↦ none
  | some (n, rest) ↦ elim rest [
    | [] ↦ some (n * 1000000000)
    | c ∷ rest' ↦ if c == b':' then read_minutes n rest' else read_rest (n * 1000000000) (c ∷ rest')
  ]
]

abbrev pub with_sign : Bool → Option ℕ → Option ℤ
with_sign negative none = none
with_sign negative (some d) = some (signed negative d)

-- duration_from_string2
unfoldable pub read : List ℕ → Option ℤ
unfolding read_unsigned
read [] = with_sign false (read_unsigned [])
read (c ∷ s) =
    if c == b'-' then with_sign true (read_unsigned s) else with_sign false (read_unsigned (c ∷ s))

-- What to_string prints behind the seconds.
unfoldable pub show_fraction : ℕ → ℕ → ℕ → List ℕ
show_fraction ms us ns =
    if ms == 0 && us == 0 && ns == 0
    then []
    else b'.' ∷ show3 ms
      ++ (if us == 0 && ns == 0
          then []
          else b'_' ∷ show3 us ++ (if ns == 0 then [] else b'_' ∷ show3 ns))

-- to_string, for the duration without its sign.
unfoldable pub show_unsigned : ℕ → List ℕ
unfolding show_fraction
show_unsigned d =
    show2 (d / 3600000000000)
    ++ b':'
      ∷ (show2 (d / 60000000000 % 60)
          ++ b':'
            ∷ (show2 (d / 1000000000 % 60)
                ++ show_fraction (d / 1000000 % 1000) (d / 1000 % 1000) (d % 1000)))

-- to_string(duration). (The least 64-bit duration has no defined behaviour: its sign cannot be
-- changed.)
unfoldable pub to_string : ℤ → List ℕ
unfolding show_unsigned
to_string (pos d) = show_unsigned d
to_string (negsuc d) = b'-' ∷ show_unsigned (suc d)
