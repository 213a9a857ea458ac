-- ===== src/Text/Digits.antt =====
-- A number that is printed is read back.
use ztsdb.Base.{
  ℕ, zero, suc, ◌+◌, ◌-◌, ◌*◌, ◌/◌, ◌%◌, ◌≤◌, ◌<◌, ◌≡◌, refl, ap, subst, ◌∙◌, Bool, true, false,
  ltb, some, List, [], ◌∷◌, ◌++◌, arith, Bool-cases, inl, inr,
}
use mathlib.Core.List.{append_assoc}
use ztsdb.Base.Int.{ℤ, pos, negsuc}
use ztsdb.Text.{
  is_digit, read_digits, read_number, signed, read_signed, show_from, show, show_signed, show2,
  show3,
}

-- Does the text begin with a digit?
abbrev pub starts : List ℕ → Bool
starts [] = false
starts (c ∷ s) = is_digit c

read_digits-digit :
    (n d : ℕ) (s : List ℕ) → d < 10 → read_digits n ((b'0' + d) ∷ s) ≡ read_digits (10 * n + d) s
unfolding read_digits
read_digits-digit n d s h =
    let e : b'0' + d - b'0' ≡ d = omega arith in
    ground (arith, ap (λ k. read_digits (10 * n + k) s) e)

read_digits-show_from :
    (fuel n : ℕ) (rest : List ℕ)
    → n < fuel
    → read_digits 0 (show_from fuel n ++ rest) ≡ read_digits n rest
unfolding show_from
read_digits-show_from zero n rest h = absurd (omega arith)
read_digits-show_from (suc fuel) n rest h = elim (Bool-cases (ltb n 10)) [
  | inl e ↦
      rw (e, show_from)
        (read_digits-digit 0 n rest (ground (arith, e))
          ∙ ap (λ k. read_digits k rest) (let z : 10 * 0 + n ≡ n = omega arith in z))
  | inr e ↦
      rw (e, show_from)
        (ap (read_digits 0) (append_assoc (show_from fuel (n / 10)) ((b'0' + n % 10) ∷ []) rest)
          ∙ read_digits-show_from fuel (n / 10) ((b'0' + n % 10) ∷ rest) (ground (arith, e))
          ∙ read_digits-digit (n / 10) (n % 10) rest (omega arith)
          ∙ ap (λ k. read_digits k rest) (let z : 10 * (n / 10) + n % 10 ≡ n = omega arith in z))
]

starts-append : (s t : List ℕ) → starts s ≡ true → starts (s ++ t) ≡ true
starts-append [] t h = ground arith
starts-append (c ∷ s) t h = h

starts-show_from : (fuel n : ℕ) → n < fuel → starts (show_from fuel n) ≡ true
unfolding show_from
starts-show_from zero n h = absurd (omega arith)
starts-show_from (suc fuel) n h = elim (Bool-cases (ltb n 10)) [
  | inl e ↦ rw (e, show_from) (ground (arith, e))
  | inr e ↦
      rw (e, show_from)
        (starts-append (show_from fuel (n / 10)) ((b'0' + n % 10) ∷ [])
          (starts-show_from fuel (n / 10) (ground (arith, e))))
]

read_number-starts : (s : List ℕ) → starts s ≡ true → read_number s ≡ some (read_digits 0 s)
unfolding read_number
read_number-starts [] h = ground arith
read_number-starts (c ∷ s) h =
    ground
      (arith, ap (λ k. read_digits k s) (let z : 10 * 0 + (c - b'0') ≡ c - b'0' = omega arith in z))

read_digits-stop : (n : ℕ) (s : List ℕ) → starts s ≡ false → read_digits n s ≡ (n, s)
unfolding read_digits
read_digits-stop n [] h = refl
read_digits-stop n (c ∷ s) h = ground arith

pub starts-show : (n : ℕ) (s : List ℕ) → starts (show n ++ s) ≡ true
unfolding show
starts-show n s = starts-append (show_from (suc n) n) s (starts-show_from (suc n) n (omega arith))

read_digits-show : (n : ℕ) (s : List ℕ) → read_digits 0 (show n ++ s) ≡ read_digits n s
unfolding show
read_digits-show n s = read_digits-show_from (suc n) n s (omega arith)

-- A number that is printed is read back, up to a byte that is no digit.
pub read_number-show :
    (n : ℕ) (s : List ℕ) → starts s ≡ false → read_number (show n ++ s) ≡ some (n, s)
read_number-show n s h =
    read_number-starts (show n ++ s) (starts-show n s)
    ∙ ap some (read_digits-show n s ∙ read_digits-stop n s h)

read_digits-zero : (s : List ℕ) → read_digits 0 (b'0' ∷ s) ≡ read_digits 0 s
read_digits-zero s = read_digits-digit 0 0 s (omega arith)

pub read_number-show2 :
    (n : ℕ) (s : List ℕ) → starts s ≡ false → read_number (show2 n ++ s) ≡ some (n, s)
unfolding show2
read_number-show2 n s h = elim (Bool-cases (ltb n 10)) [
  | inl e ↦
      rw (e, show2)
        (read_number-starts (b'0' ∷ show n ++ s) (ground arith)
          ∙ ap some
              (read_digits-zero (show n ++ s) ∙ read_digits-show n s ∙ read_digits-stop n s h))
  | inr e ↦ rw (e, show2) (read_number-show n s h)
]

read_signed-starts :
    (s : List ℕ) (n : ℕ) (rest : List ℕ)
    → starts s ≡ true
    → read_number s ≡ some (n, rest)
    → read_signed s ≡ some (pos n, rest)
unfolding read_signed
read_signed-starts [] n rest h e = ground arith
read_signed-starts (c ∷ s) n rest h e = ground (arith, e)

-- The sign is read where a number is printed with one.
pub read_signed-show_signed :
    (z : ℤ) (s : List ℕ) → starts s ≡ false → read_signed (show_signed z ++ s) ≡ some (z, s)
unfolding read_signed show_signed
read_signed-show_signed (pos n) s h =
    read_signed-starts (show n ++ s) n s (starts-show n s) (read_number-show n s h)
read_signed-show_signed (negsuc n) s h =
    rw (read_number-show (suc n) s h, read_signed)
      (let e : signed true (suc n) ≡ negsuc n = ground arith in ap (λ z. some (z, s)) e)

show_from-small : (f n : ℕ) → n < 10 → show_from (suc f) n ≡ (b'0' + n) ∷ []
unfolding show_from
show_from-small f n h = ground arith

show_from-two :
    (f n : ℕ)
    → 10 ≤ n
    → n < 100
    → show_from (suc (suc f)) n ≡ (b'0' + n / 10) ∷ (b'0' + n % 10) ∷ []
unfolding show_from
show_from-two f n h l = ground (arith, show_from-small f (n / 10))

show_from-three :
    (f n : ℕ)
    → 100 ≤ n
    → n < 1000
    → show_from (suc (suc (suc f))) n
      ≡ (b'0' + n / 100) ∷ (b'0' + n / 10 % 10) ∷ (b'0' + n % 10) ∷ []
unfolding show_from
show_from-three f n h l =
    let d : n / 10 / 10 ≡ n / 100 = omega arith in ground (arith, d, show_from-two f (n / 10))

show-small : (n : ℕ) → n < 10 → show n ≡ (b'0' + n) ∷ []
unfolding show
show-small n h = show_from-small n n h

show-two : (n : ℕ) → 10 ≤ n → n < 100 → show n ≡ (b'0' + n / 10) ∷ (b'0' + n % 10) ∷ []
unfolding show
show-two n h l =
    let p : suc (suc (n - 1)) ≡ suc n = omega arith in
    subst (λ f. show_from f n ≡ (b'0' + n / 10) ∷ (b'0' + n % 10) ∷ []) p
      (show_from-two (n - 1) n h l)

show-three :
    (n : ℕ)
    → 100 ≤ n
    → n < 1000
    → show n ≡ (b'0' + n / 100) ∷ (b'0' + n / 10 % 10) ∷ (b'0' + n % 10) ∷ []
unfolding show
show-three n h l =
    let p : suc (suc (suc (n - 2))) ≡ suc n = omega arith in
    subst (λ f. show_from f n ≡ (b'0' + n / 100) ∷ (b'0' + n / 10 % 10) ∷ (b'0' + n % 10) ∷ []) p
      (show_from-three (n - 2) n h l)

-- The two digits of a number below 100.
pub show2-digits : (n : ℕ) → n < 100 → show2 n ≡ (b'0' + n / 10) ∷ (b'0' + n % 10) ∷ []
unfolding show2
show2-digits n h = ground (arith, show-small n, show-two n)

-- The three digits of a number below 1000.
pub show3-digits :
    (n : ℕ) → n < 1000 → show3 n ≡ (b'0' + n / 100) ∷ (b'0' + n / 10 % 10) ∷ (b'0' + n % 10) ∷ []
unfolding show3
show3-digits n h = ground (arith, show-small n, show-two n, show-three n)

pub starts-show2 : (n : ℕ) (s : List ℕ) → starts (show2 n ++ s) ≡ true
unfolding show2
starts-show2 n s = ground (arith, starts-show n s)
