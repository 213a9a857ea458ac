-- ===== src/Arguments/Unused.antt =====
-- Lists of flags and entries, and getUnused of src/interp.cpp: it finds the first flag that is not set.
use ztsdb.Base.{
  ℕ, zero, suc, ◌+◌, ◌≤◌, ◌<◌, ◌≡◌, refl, ap, sym, ◌∙◌, subst, ◌⊎◌, inl, inr, Bool-cases,
  length-drop, Bool, true, false, ◌==◌, if◌then◌else◌, Option, none, some, List, [], ◌∷◌, ◌++◌,
  length, get_elem?, get_or, set, drop, replicate, arith,
}
use ztsdb.Arguments.{unused_from, next_unused}

module _ {A : Type 0} where
  pub get_elem?-set :
      (xs : List A) (i j : ℕ) (x : A)
      → i < length xs
      → get_elem? (set xs i x) j ≡ (if i == j then some x else get_elem? xs j)
  get_elem?-set [] i j x h = absurd (omega arith)
  get_elem?-set (y ∷ ys) zero zero x h = refl
  get_elem?-set (y ∷ ys) zero (suc j) x h = ground arith
  get_elem?-set (y ∷ ys) (suc i) zero x h = ground arith
  get_elem?-set (y ∷ ys) (suc i) (suc j) x h = ground (arith, get_elem?-set ys i j x)

  pub get_elem?-append :
      (xs ys : List A) (i : ℕ) (x : A) → get_elem? xs i ≡ some x → get_elem? (xs ++ ys) i ≡ some x
  get_elem?-append [] ys i x h = absurd (ground (arith, h))
  get_elem?-append (z ∷ xs) ys zero x h = h
  get_elem?-append (z ∷ xs) ys (suc i) x h = get_elem?-append xs ys i x h

  pub get_elem?-drop : (i k : ℕ) (xs : List A) → get_elem? (drop i xs) k ≡ get_elem? xs (i + k)
  get_elem?-drop zero k xs = ap (get_elem? xs) (omega arith)
  get_elem?-drop (suc i) k [] = refl
  get_elem?-drop (suc i) k (x ∷ xs) =
      get_elem?-drop i k xs
      ∙ ap (get_elem? (x ∷ xs)) {x = suc (i + k)} {y = suc i + k} (omega arith)

  pub get_or-drop : (i k : ℕ) (xs : List A) (d : A) → get_or (drop i xs) k d ≡ get_or xs (i + k) d
  get_or-drop zero k xs d = ap (λ n. get_or xs n d) (omega arith)
  get_or-drop (suc i) k [] d = refl
  get_or-drop (suc i) k (x ∷ xs) d =
      get_or-drop i k xs d
      ∙ ap (λ n. get_or (x ∷ xs) n d) {x = suc (i + k)} {y = suc i + k} (omega arith)

pub get_or-replicate-false : (n i : ℕ) → get_or (replicate n false) i false ≡ false
get_or-replicate-false zero i = refl
get_or-replicate-false (suc n) zero = refl
get_or-replicate-false (suc n) (suc i) = get_or-replicate-false n i

-- All flags up to what is found are set; a flag out of bounds counts as not set.
abbrev pub SetBefore : List Bool → ℕ → Option ℕ → Type 0
SetBefore us i none = (k : ℕ) → i ≤ k → k < length us → get_or us k false ≡ true
SetBefore us i (some j) =
    (i ≤ j)
    × (j < length us)
    × (get_or us j false ≡ false)
    × ((k : ℕ) → i ≤ k → k < j → get_or us k false ≡ true)

eq_or_lt : (i k : ℕ) → i ≤ k → (i ≡ k) ⊎ (suc i ≤ k)
eq_or_lt i k h = elim (Bool-cases (i == k)) [
  | inl e ↦ inl (ground arith)
  | inr e ↦ inr (ground arith)
]

set_before :
    (us vs : List Bool) (i : ℕ)
    → ((k : ℕ) → get_or vs k false ≡ get_or us (i + k) false)
    → length us ≡ i + length vs
    → SetBefore us i (unused_from i vs)
unfolding unused_from
set_before us [] i same l = λ k a b. absurd (omega arith)
set_before us (false ∷ vs) i same l = (
  omega arith,
  omega arith,
  ap (λ n. get_or us n false) {x = i} {y = i + 0} (omega arith) ∙ sym (same 0),
  λ k a b. absurd (omega arith),
)
set_before us (true ∷ vs) i same l =
    set_step us vs i (unused_from (suc i) vs)
      (sym (same 0 ∙ ap (λ n. get_or us n false) {x = i + 0} {y = i} (omega arith)))
      (set_before us vs (suc i)
        (λ k.
          same (suc k) ∙ ap (λ n. get_or us n false) {x = i + suc k} {y = suc i + k} (omega arith))
        (omega arith))
  where
    at_or_after :
        (us : List Bool) (i k : ℕ)
        → get_or us i false ≡ true
        → (suc i ≤ k → get_or us k false ≡ true)
        → i ≤ k
        → get_or us k false ≡ true
    at_or_after us i k e f a = elim (eq_or_lt i k a) [
      | inl h ↦ subst (λ n. get_or us n false ≡ true) h e
      | inr h ↦ f h
    ]

    set_step :
        (us vs : List Bool) (i : ℕ) (o : Option ℕ)
        → get_or us i false ≡ true
        → SetBefore us (suc i) o
        → SetBefore us i o
    set_step us vs i none e f = λ k a b. at_or_after us i k e (λ h. f k h b) a
    set_step us vs i (some j) e f =
        (omega (arith, f.0), f.1, f.2, λ k a b. at_or_after us i k e (λ h. f.3 k h b) a)

pub unused_from-SetBefore : (us : List Bool) → SetBefore us 0 (unused_from 0 us)
unused_from-SetBefore us =
    set_before us us 0 (λ k. ap (λ n. get_or us n false) {x = k} {y = 0 + k} (omega arith))
      (omega arith)

pub next_unused-SetBefore :
    (i : ℕ) (us : List Bool) → i < length us → SetBefore us (suc i) (next_unused i us)
unfolding next_unused
next_unused-SetBefore i us h =
    set_before us (drop (suc i) us) (suc i) (λ k. get_or-drop (suc i) k us false)
      (omega (arith, length-drop (suc i) us))
