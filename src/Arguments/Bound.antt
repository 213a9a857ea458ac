-- ===== src/Arguments/Bound.antt =====
-- What processFormlist of src/ast.hpp knows of the formal arguments, and processArgs of src/interp.cpp
-- with it.
use Prim.Native.String.{String}
use ztsdb.Base.{
  ℕ, suc, ◌+◌, ◌≤◌, ◌<◌, ◌≡◌, ◌≢◌, refl, ap, sym, ◌∙◌, subst, inl, inr, ◌==◌, Bool-cases,
  Option-cases, Option, none, some, List, [], ◌∷◌, length, get_elem?, arith,
}
use ztsdb.Env.{lookup}
use ztsdb.Env.Lookup.{str_eq-cases}
use ztsdb.Arguments.{
  Formal, tagged, symbol, ellipsis, Actual, ArgInfo, ok, Signature, Slots, place, emplace,
  add_formal, formals_from, process_formlist, process_args,
}
use ztsdb.Arguments.Covered.{name_of, get_elem?-lt, IsSignature}
use ztsdb.Arguments.Matched.{OnOk, Result-cases, process_args-Filled}

nothing : (x : String) (i : ℕ) → lookup {V = ℕ} [] x ≡ some i → ⊥
unfolding lookup
nothing x i e = ground (arith, e)

module _ {X : Type 0} (fs : List (Formal X)) where
  -- The first `n` formal arguments are known.
  record IsKnown (n : ℕ) (s : Signature) : Type 0 where
    names : (x : String) (i : ℕ) → lookup s.arg_map x ≡ some i → name_of (get_elem? fs i) ≡ some x
    at_pos : (p : ℕ) → s.ellipsis_pos ≡ some p → get_elem? fs p ≡ some ellipsis
    pos_of : (p : ℕ) → p < n → get_elem? fs p ≡ some ellipsis → s.ellipsis_pos ≡ some p

  -- One formal argument more.
  later_pos :
      (n : ℕ) (s : Signature)
      → get_elem? fs n ≢ some ellipsis
      → ((p : ℕ) → p < n → get_elem? fs p ≡ some ellipsis → s.ellipsis_pos ≡ some p)
      → (p : ℕ) → p < suc n
      → get_elem? fs p ≡ some ellipsis
      → s.ellipsis_pos ≡ some p
  later_pos n s h k p l e = elim (Bool-cases (p == n)) [
    | inl t ↦ absurd (h (ap (get_elem? fs) {x = n} {y = p} (ground arith) ∙ e))
    | inr t ↦ k p (ground arith) e
  ]

  not_ellipsis : (o : Option (Formal X)) (x : String) → name_of o ≡ some x → o ≢ some ellipsis
  not_ellipsis none x h e = ground (arith, e)
  not_ellipsis (some (tagged y d)) x h e = ground (arith, e)
  not_ellipsis (some (symbol y)) x h e = ground (arith, e)
  not_ellipsis (some ellipsis) x h e = ground (arith, h)

  names-emplace :
      (x y : String) (n i : ℕ) (s : Signature)
      → name_of (get_elem? fs n) ≡ some x
      → ((i : ℕ) → lookup s.arg_map y ≡ some i → name_of (get_elem? fs i) ≡ some y)
      → lookup ((x, n) ∷ s.arg_map) y ≡ some i
      → name_of (get_elem? fs i) ≡ some y
  unfolding lookup
  names-emplace x y n i s h k e = elim (str_eq-cases x y) [
    | inl (t, q) ↦
        let same : n ≡ i = ground (arith, e, t) in
        ap (λ m. name_of (get_elem? fs m)) (sym same) ∙ h ∙ ap (λ z. some z) q
    | inr t ↦ k i (ground (arith, e, t))
  ]

  emplace-IsKnown :
      (x : String) (n : ℕ) (s : Signature)
      → name_of (get_elem? fs n) ≡ some x
      → IsKnown n s
      → OnOk (emplace s x n) (IsKnown (suc n))
  unfolding emplace
  emplace-IsKnown x n s h k = elim (Option-cases (lookup s.arg_map x)) [
    | inr (m, o) ↦ rw (o, emplace) refl
    | inl o ↦
        let known : IsKnown (suc n) (record s { arg_map = (x, n) ∷ s.arg_map }) = record {
          names = λ y i e. names-emplace x y n i s h (k.names y) e;
          at_pos = k.at_pos;
          pos_of = later_pos n s (not_ellipsis (get_elem? fs n) x h) k.pos_of;
        } in
        rw (o, emplace) known
  ]

  add_formal-IsKnown :
      (f : Formal X) (n : ℕ) (s : Signature)
      → get_elem? fs n ≡ some f
      → IsKnown n s
      → OnOk (add_formal f n s) (IsKnown (suc n))
  unfolding add_formal
  add_formal-IsKnown (tagged x d) n s h k = emplace-IsKnown x n s (ap name_of h) k
  add_formal-IsKnown (symbol x) n s h k = emplace-IsKnown x n s (ap name_of h) k
  add_formal-IsKnown ellipsis n s h k = elim (Option-cases s.ellipsis_pos) [
    | inr (p, o) ↦ rw (o, add_formal) refl
    | inl o ↦
        let known : IsKnown (suc n) (record s { ellipsis_pos = some n }) = record {
          names = k.names;
          at_pos = λ p e. ap (get_elem? fs) {x = p} {y = n} (ground (arith, e)) ∙ h;
          pos_of = λ p l e. elim (Bool-cases (p == n)) [
            | inl t ↦ ap (λ m. some m) {x = n} {y = p} (ground arith)
            | inr t ↦ absurd (ground (arith, o, k.pos_of p (ground arith) e))
          ];
        } in
        rw (o, add_formal) known
  ]

  formals_from-IsSignature :
      (fs' : List (Formal X)) (n : ℕ) (s : Signature)
      → ((k : ℕ) → get_elem? fs' k ≡ get_elem? fs (n + k))
      → length fs ≤ n + length fs'
      → IsKnown n s
      → OnOk (formals_from fs' n s) (λ t. IsSignature t fs)
  unfolding formals_from
  formals_from-IsSignature [] n s sf b k = record {
    names = k.names;
    at_pos = k.at_pos;
    pos_of = λ p e. k.pos_of p (omega (arith, get_elem?-lt fs p ellipsis e)) e;
  }
  formals_from-IsSignature (f ∷ fs') n s sf b k =
      let here = sym (sf 0 ∙ ap (get_elem? fs) {x = n + 0} {y = n} (omega arith)) in
      let a = add_formal-IsKnown f n s here k in
      elim (Result-cases (add_formal f n s)) [
        | inr (e, o) ↦ rw (o, formals_from) refl
        | inl (t, o) ↦
            rw (o, formals_from)
              (formals_from-IsSignature fs' (suc n) t
                (λ j. sf (suc j) ∙ ap (get_elem? fs) {x = n + suc j} {y = suc n + j} (omega arith))
                (omega arith) (subst (λ r. OnOk r (IsKnown (suc n))) o a))
      ]

-- Where processFormlist accepts the formal arguments and processArgs the actual ones, every formal
-- argument other than `...` has an entry of the result at its place, with its name.
pub process_args-bound :
    {X : Type 0} (fs : List (Formal X)) (acts : List (Actual X)) (sig : Signature) (res : Slots X)
    → process_formlist fs ≡ ok sig
    → process_args sig fs acts ≡ ok res
    → (j : ℕ) (x : String) → name_of (get_elem? fs j) ≡ some x
    → (a : ArgInfo X) × (get_elem? res (place sig.ellipsis_pos j) ≡ some (some a)) × (a.name ≡ x)
unfolding process_formlist
process_args-bound fs acts sig res p q =
    let none_known : IsKnown fs 0 (record { arg_map = []; ellipsis_pos = none }) = record {
      names = λ x i e. absurd (nothing x i e);
      at_pos = λ p e. absurd (ground (arith, e));
      pos_of = λ p l e. absurd (omega arith);
    } in
    let valid =
      formals_from-IsSignature fs fs 0 (record { arg_map = []; ellipsis_pos = none })
        (λ k. ap (get_elem? fs) {x = k} {y = 0 + k} (omega arith)) (omega arith) none_known in
    process_args-Filled sig fs (subst (λ r. OnOk r (λ t. IsSignature t fs)) p valid) acts res q
