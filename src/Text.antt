-- ===== src/Text.antt =====
-- src/misc.cpp: readNumber, and what a stream prints for a number. Text is its bytes.
pub mod Digits
use ztsdb.Base.{
  ℕ, zero, suc, ◌+◌, ◌-◌, ◌*◌, ◌/◌, ◌%◌, Bool, true, false, ◌&&◌, ltb, leb, ◌==◌, if◌then◌else◌,
  Option, none, some, List, [], ◌∷◌, ◌++◌,
}
use ztsdb.Base.Int.{ℤ, pos, negsuc, sub_ℕ}

abbrev pub is_digit : ℕ → Bool
is_digit c = leb b'0' c && leb c b'9'

-- The loop of readNumber. An `int` that overflows has no defined behaviour; here it does not.
unfoldable pub read_digits : ℕ → List ℕ → ℕ × List ℕ
read_digits n [] = (n, [])
read_digits n (c ∷ s) =
    let rest = read_digits (10 * n + (c - b'0')) s in if is_digit c then rest else (n, c ∷ s)

-- readNumber(s, e, n, false); `none` stands for false.
unfoldable pub read_number : List ℕ → Option (ℕ × List ℕ)
unfolding read_digits
read_number [] = none
read_number (c ∷ s) = if is_digit c then some (read_digits (c - b'0') s) else none

abbrev pub signed : Bool → ℕ → ℤ
signed negative n = if negative then sub_ℕ 0 n else pos n

-- readNumber(s, e, n, true)
unfoldable pub read_signed : List ℕ → Option (ℤ × List ℕ)
unfolding read_number
read_signed [] = none
read_signed (c ∷ s) = elim (c == b'-') [
  | true ↦ elim (read_number s) [ none ↦ none | some (n, rest) ↦ some (signed true n, rest) ]
  | false ↦ elim (read_number (c ∷ s)) [ none ↦ none | some (n, rest) ↦ some (pos n, rest) ]
]

-- `ss << n`, with fuel for the digits.
unfoldable pub show_from : ℕ → ℕ → List ℕ
show_from zero n = []
show_from (suc fuel) n =
    let rest = show_from fuel (n / 10) ++ (b'0' + n % 10) ∷ [] in
    if ltb n 10 then (b'0' + n) ∷ [] else rest

unfoldable pub show : ℕ → List ℕ
unfolding show_from
show n = show_from (suc n) n

-- `ss << z` for an integer.
unfoldable pub show_signed : ℤ → List ℕ
show_signed (pos n) = show n
show_signed (negsuc n) = b'-' ∷ show (suc n)

-- `ss << std::setfill('0') << std::setw(2) << n`, and with 3
unfoldable pub show2 : ℕ → List ℕ
show2 n = if ltb n 10 then b'0' ∷ show n else show n

unfoldable pub show3 : ℕ → List ℕ
show3 n = if ltb n 10 then b'0' ∷ b'0' ∷ show n else if ltb n 100 then b'0' ∷ show n else show n
