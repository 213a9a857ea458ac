-- ===== src/Duration/RoundTrip.antt =====
-- A duration that is printed is read back.
use ztsdb.Base.{
  ℕ, suc, ◌+◌, ◌-◌, ◌*◌, ◌/◌, ◌%◌, ◌<◌, ◌≡◌, refl, ap, sym, ◌∙◌, true, false, ◌&&◌, ◌==◌,
  if◌then◌else◌, some, List, [], ◌∷◌, ◌++◌, arith, Bool-cases, inl, inr,
}
use mathlib.Core.List.{append-nil}
use ztsdb.Base.Int.{ℤ, pos, negsuc}
use ztsdb.Text.{show2, show3}
use ztsdb.Text.Digits.{starts, starts-show2, read_number-show2, show2-digits, show3-digits}
use ztsdb.Duration.{
  read_fraction, read_rest, read_minutes, read_unsigned, with_sign, read, show_fraction,
  show_unsigned, to_string,
}

read_fraction-digit :
    (mul i d x : ℕ) (s : List ℕ)
    → x < 10
    → 0 < mul
    → read_fraction mul i d ((b'0' + x) ∷ s) ≡ read_fraction (mul / 10) (i + 1) (d + x * mul) s
unfolding read_fraction
read_fraction-digit mul i d x s h p =
    let e : b'0' + x - b'0' ≡ x = omega arith in
    ground (arith, ap (λ k. read_fraction (mul / 10) (i + 1) (d + k * mul) s) e)

-- Three digits, where a digit has the worth `mul`, then `a`, then `b`.
read_fraction-show3 :
    (mul a b i d n : ℕ) (s : List ℕ)
    → n < 1000
    → mul / 10 ≡ a
    → a / 10 ≡ b
    → 0 < b
    → read_fraction mul i d (show3 n ++ s)
      ≡ read_fraction (b / 10) (i + 1 + 1 + 1) (d + n / 100 * mul + n / 10 % 10 * a + n % 10 * b) s
read_fraction-show3 mul a b i d n s h p q z =
    ap (λ t. read_fraction mul i d (t ++ s)) (show3-digits n h)
    ∙ read_fraction-digit mul i d (n / 100) _ (omega arith) (omega arith)
    ∙ ap
        (λ m.
          read_fraction m (i + 1) (d + n / 100 * mul) ((b'0' + n / 10 % 10) ∷ (b'0' + n % 10) ∷ s))
        p
    ∙ read_fraction-digit a (i + 1) _ (n / 10 % 10) _ (omega arith) (omega arith)
    ∙ ap
        (λ m.
          read_fraction m (i + 1 + 1) (d + n / 100 * mul + n / 10 % 10 * a) ((b'0' + n % 10) ∷ s))
        q
    ∙ read_fraction-digit b (i + 1 + 1) _ (n % 10) s (omega arith) z

-- The three groups of three digits.
read_millis :
    (d n : ℕ) (s : List ℕ)
    → n < 1000
    → read_fraction 100000000 0 d (show3 n ++ s) ≡ read_fraction 100000 3 (d + n * 1000000) s
read_millis d n s h =
    read_fraction-show3 100000000 10000000 1000000 0 d n s h (omega arith) (omega arith)
      (omega arith)
    ∙ ap (λ k. read_fraction 100000 3 k s) (omega arith)

read_micros :
    (d n : ℕ) (s : List ℕ)
    → n < 1000
    → read_fraction 100000 3 d (b'_' ∷ show3 n ++ s) ≡ read_fraction 100 6 (d + n * 1000) s
unfolding read_fraction
read_micros d n s h =
    read_fraction-show3 100000 10000 1000 3 d n s h (omega arith) (omega arith) (omega arith)
    ∙ ap (λ k. read_fraction 100 6 k s) (omega arith)

read_nanos : (d n : ℕ) → n < 1000 → read_fraction 100 6 d (b'_' ∷ show3 n) ≡ some (d + n)
unfolding read_fraction
read_nanos d n h =
    ap (read_fraction 100 6 d) (sym (append-nil (show3 n)))
    ∙ read_fraction-show3 100 10 1 6 d n [] h (omega arith) (omega arith) (omega arith)
    ∙ ap some (omega arith)

abbrev nanos_text : ℕ → List ℕ
nanos_text ns = if ns == 0 then [] else b'_' ∷ show3 ns

abbrev micros_text : ℕ → ℕ → List ℕ
micros_text us ns = if us == 0 && ns == 0 then [] else b'_' ∷ show3 us ++ nanos_text ns

read_nanos_text : (d ns : ℕ) → ns < 1000 → read_fraction 100 6 d (nanos_text ns) ≡ some (d + ns)
unfolding read_fraction
read_nanos_text d ns h = elim (Bool-cases (ns == 0)) [
  | inl e ↦ ground (arith, e)
  | inr e ↦ rw (e, nanos_text) (read_nanos d ns h)
]

read_micros_text :
    (d us ns : ℕ)
    → us < 1000
    → ns < 1000
    → read_fraction 100000 3 d (micros_text us ns) ≡ some (d + us * 1000 + ns)
unfolding read_fraction
read_micros_text d us ns h k = elim (Bool-cases (us == 0 && ns == 0)) [
  | inl e ↦ ground (arith, e)
  | inr e ↦
      rw (e, micros_text)
        (read_micros d us (nanos_text ns) h ∙ read_nanos_text (d + us * 1000) ns k)
]

read_rest-show_fraction :
    (d ms us ns : ℕ)
    → ms < 1000
    → us < 1000
    → ns < 1000
    → read_rest d (show_fraction ms us ns) ≡ some (d + ms * 1000000 + us * 1000 + ns)
unfolding read_rest show_fraction
read_rest-show_fraction d ms us ns h k l = elim (Bool-cases (ms == 0 && us == 0 && ns == 0)) [
  | inl e ↦ ground (arith, e)
  | inr e ↦
      rw (e, show_fraction)
        (read_millis d ms (micros_text us ns) h ∙ read_micros_text (d + ms * 1000000) us ns k l)
]

read_minutes-show2 :
    (h m s : ℕ) (rest : List ℕ)
    → m < 60
    → s < 60
    → read_minutes h (show2 m ++ b':' ∷ (show2 s ++ rest))
      ≡ read_rest ((h * 3600 + m * 60 + s) * 1000000000) rest
unfolding read_minutes
read_minutes-show2 h m s rest p q =
    let a : b'0' + m / 10 - b'0' ≡ m / 10 = omega arith in
    let b : b'0' + m % 10 - b'0' ≡ m % 10 = omega arith in
    let c : b'0' + s / 10 - b'0' ≡ s / 10 = omega arith in
    let d : b'0' + s % 10 - b'0' ≡ s % 10 = omega arith in
    let t : h * 3600 + (m / 10 * 10 + m % 10) * 60 + (s / 10 * 10 + s % 10)
        ≡ h * 3600 + m * 60 + s =
      omega arith in
    rw (show2-digits m (omega arith), show2-digits s (omega arith), read_minutes, a, b, c, d, t)
      (ground arith)

-- Below 60 hours and more: the parts of a duration, put together again.
parts :
    (d : ℕ)
    → (d / 3600000000000 * 3600 + d / 60000000000 % 60 * 60 + d / 1000000000 % 60) * 1000000000
        + d / 1000000 % 1000 * 1000000
        + d / 1000 % 1000 * 1000
        + d % 1000
      ≡ d
parts d = omega arith

read_unsigned-show_unsigned : (d : ℕ) → read_unsigned (show_unsigned d) ≡ some d
unfolding read_unsigned show_unsigned
read_unsigned-show_unsigned d =
    rw (read_number-show2 (d / 3600000000000) _ refl, read_unsigned)
      (read_minutes-show2 (d / 3600000000000) (d / 60000000000 % 60) (d / 1000000000 % 60) _
          (omega arith) (omega arith)
        ∙ read_rest-show_fraction _ (d / 1000000 % 1000) (d / 1000 % 1000) (d % 1000) (omega arith)
            (omega arith) (omega arith)
        ∙ ap some (parts d))

read-starts : (s : List ℕ) → starts s ≡ true → read s ≡ with_sign false (read_unsigned s)
unfolding read
read-starts [] h = ground arith
read-starts (c ∷ s) h = ground arith

read-minus : (s : List ℕ) → read (b'-' ∷ s) ≡ with_sign true (read_unsigned s)
unfolding read
read-minus s = refl

starts-show_unsigned : (d : ℕ) → starts (show_unsigned d) ≡ true
unfolding show_unsigned
starts-show_unsigned d = starts-show2 (d / 3600000000000) _

-- Every duration that to_string prints is read back by duration_from_string2.
pub read-to_string : (d : ℤ) → read (to_string d) ≡ some d
unfolding to_string
read-to_string (pos d) =
    read-starts (show_unsigned d) (starts-show_unsigned d)
    ∙ ap (with_sign false) (read_unsigned-show_unsigned d)
read-to_string (negsuc d) =
    read-minus (show_unsigned (suc d))
    ∙ ap (with_sign true) (read_unsigned-show_unsigned (suc d))
    ∙ ap some (ground arith)
