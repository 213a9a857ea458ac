-- ===== src/Arguments/Matched.antt =====
-- The steps of processArgs of src/interp.cpp, and what they have filled.
use Prim.Native.String.{String}
use text.Mathlib.Text.{◌==◌ as str_eq}
use ztsdb.Base.{
  ℕ, suc, ◌+◌, ◌≤◌, ◌<◌, ◌≡◌, refl, ap, sym, ◌∙◌, subst, ◌⊎◌, inl, inr, Bool, true, false, ltb,
  ◌==◌, if◌then◌else◌, Bool-cases, Option-cases, Option, none, some, List, [], ◌∷◌, ◌++◌, length,
  get_elem?, get_or, set, drop, replicate, length-set, length-append, length-replicate, length-drop,
  arith,
}
use ztsdb.Env.{lookup}
use ztsdb.ArrayOps.Loops.{get_or-set}
use ztsdb.Arguments.{
  Formal, tagged, symbol, ellipsis, Actual, named, arg, ArgInfo, Result, Error, ok, err, Signature,
  Slots, place, by_position, in_ellipsis, unused_from, next_unused, match_named, match_positional,
  fill_defaults, defaults_at, process_args,
}
use ztsdb.Arguments.Unused.{
  get_elem?-drop, get_or-drop, get_or-replicate-false, SetBefore, unused_from-SetBefore,
  next_unused-SetBefore,
}
use ztsdb.Arguments.Covered.{
  name_of, name_lt, IsSignature, places, Filled, Filled-set, Filled-set_self, Filled-append, IsLong,
  not_pos,
}

-- The result, where there is one, is such.
abbrev pub OnOk : {A : Type 0} → Result A → (A → Type 0) → Type 0
OnOk (ok a) P = P a
OnOk (err e) P = true ≡ true

pub Result-cases :
    {A : Type 0} (r : Result A) → ((a : A) × (r ≡ ok a)) ⊎ ((e : Error) × (r ≡ err e))
Result-cases (ok a) = inl (a, refl)
Result-cases (err e) = inr (e, refl)

module _ {X : Type 0} (sig : Signature) (fs : List (Formal X)) (valid : IsSignature sig fs) where
  -- The formal arguments that are in use are filled; `...` is not in use.
  record IsMatched (us : List Bool) (res : Slots X) : Type 0 where
    flags : length us ≡ length fs
    long : IsLong sig fs valid res
    dots : (p : ℕ) → sig.ellipsis_pos ≡ some p → get_or us p false ≡ false
    filled : (i : ℕ) → get_or us i false ≡ true → Filled sig fs valid i res

  fill-IsMatched :
      (i : ℕ) (x : String) (a : ArgInfo X) (us : List Bool) (res : Slots X)
      → name_of (get_elem? fs i) ≡ some x
      → a.name ≡ x
      → IsMatched us res
      → IsMatched (set us i true) (set res (place sig.ellipsis_pos i) (some a))
  fill-IsMatched i x a us res h e m =
      let b : i < length us = omega (arith, name_lt fs i x h, m.flags) in
      record {
        flags = length-set us i true ∙ m.flags;
        long = omega (arith, length-set res (place sig.ellipsis_pos i) (some a), m.long);
        dots = λ p o.
            ground
              (arith, get_or-set false us i p true b, not_pos sig fs valid i p x h o, m.dots p o);
        filled = λ j t. elim (Bool-cases (i == j)) [
          | inl s ↦
              subst (λ k. Filled sig fs valid k (set res (place sig.ellipsis_pos i) (some a)))
                {x = i} {y = j} (ground arith) (Filled-set_self sig fs valid i x a res m.long h e)
          | inr s ↦
              Filled-set sig fs valid j i x a res m.long h e
                (m.filled j (ground (arith, get_or-set false us i j true b)))
        ];
      }

  found_name :
      (x : String) (i : ℕ)
      → (if str_eq x "" then none else lookup sig.arg_map x) ≡ some i
      → name_of (get_elem? fs i) ≡ some x
  found_name x i h = elim (Bool-cases (str_eq x "")) [
    | inl e ↦ absurd (ground (arith, h))
    | inr e ↦ valid.names x i (ground (arith, h))
  ]

  match_named-IsMatched :
      (acts : List (Actual X)) (n : ℕ) (us gs : List Bool) (res : Slots X)
      → IsMatched us res
      → OnOk (match_named sig acts n us gs res) (λ r. IsMatched r.0 r.2)
  unfolding match_named
  match_named-IsMatched [] n us gs res m = m
  match_named-IsMatched (arg e r ∷ acts) n us gs res m =
      match_named-IsMatched acts (suc n) us gs res m
  match_named-IsMatched (named x e r ∷ acts) n us gs res m =
      elim (Option-cases (if str_eq x "" then none else lookup sig.arg_map x)) [
        | inl o ↦ rw (o, match_named) (match_named-IsMatched acts (suc n) us gs res m)
        | inr (i, o) ↦ elim (Bool-cases (get_or us i false)) [
          | inl t ↦ rw (o, t, match_named) refl
          | inr t ↦
              rw (o, t, match_named)
                (match_named-IsMatched acts (suc n) (set us i true) (set gs n true)
                  (set res (place sig.ellipsis_pos i) (by_position x e r))
                  (fill-IsMatched i x
                    (record {
                      name = x;
                      expr = e;
                      is_formal = false;
                      is_ellipsis = false;
                      is_ref = r;
                    })
                    us res (found_name x i o) refl m))
        ]
      ]

  -- All formal arguments before the one at hand are filled, all of them where there is none.
  abbrev Upto : List Bool → Option ℕ → Slots X → Type 0
  Upto us none res = (i : ℕ) → Filled sig fs valid i res
  Upto us (some f) res =
      (f < length fs)
      × (get_or us f false ≡ false)
      × ((p : ℕ) → sig.ellipsis_pos ≡ some p → f ≤ p)
      × ((i : ℕ) → i < f → Filled sig fs valid i res)

  record IsReached (us : List Bool) (o : Option ℕ) (res : Slots X) : Type 0 where
    matched : IsMatched us res
    upto : Upto us o res

  outside : (i : ℕ) (res : Slots X) → length fs ≤ i → Filled sig fs valid i res
  outside i res h x k = absurd (omega (arith, name_lt fs i x k))

  -- The next position that is not in use.
  next-IsReached :
      (us : List Bool) (i : ℕ) (o : Option ℕ) (res : Slots X)
      → SetBefore us i o
      → IsMatched us res
      → ((p : ℕ) → sig.ellipsis_pos ≡ some p → i ≤ p)
      → ((j : ℕ) → j < i → Filled sig fs valid j res)
      → IsReached us o res
  next-IsReached us i none res b m d f = record {
    matched = m;
    upto = λ j. elim (Bool-cases (ltb j i)) [
      | inl t ↦ f j (ground arith)
      | inr t ↦ elim (Bool-cases (ltb j (length us))) [
        | inl l ↦ m.filled j (b j (ground arith) (ground arith))
        | inr l ↦ outside j res (omega (arith, m.flags, not_below l))
      ]
    ];
  }
    where
      not_below : {j n : ℕ} → ltb j n ≡ false → n ≤ j
      not_below e = ground arith
  next-IsReached us i (some k) res b m d f = record {
    matched = m;
    upto = (
      omega (arith, b.1, m.flags),
      b.2,
      λ p o. before p k (d p o) (m.dots p o) b.3,
      λ j l. elim (Bool-cases (ltb j i)) [
        | inl t ↦ f j (ground arith)
        | inr t ↦ m.filled j (b.3 j (ground arith) l)
      ],
    );
  }
    where
      before :
          (p k : ℕ)
          → i ≤ p
          → get_or us p false ≡ false
          → ((j : ℕ) → i ≤ j → j < k → get_or us j false ≡ true)
          → k ≤ p
      before p k a e b = elim (Bool-cases (ltb p k)) [
        | inl t ↦ absurd (ground (arith, b p a))
        | inr t ↦ ground arith
      ]

  set-IsMatched :
      (i : ℕ) (x : String) (a : ArgInfo X) (us : List Bool) (res : Slots X)
      → name_of (get_elem? fs i) ≡ some x
      → a.name ≡ x
      → IsMatched us res
      → IsMatched us (set res (place sig.ellipsis_pos i) (some a))
  set-IsMatched i x a us res h e m = record {
    flags = m.flags;
    long = omega (arith, length-set res (place sig.ellipsis_pos i) (some a), m.long);
    dots = m.dots;
    filled = λ j t. Filled-set sig fs valid j i x a res m.long h e (m.filled j t);
  }

  -- All up to and with `i` are filled, once it is.
  set-upto :
      (i : ℕ) (x : String) (a : ArgInfo X) (us : List Bool) (res : Slots X)
      → name_of (get_elem? fs i) ≡ some x
      → a.name ≡ x
      → IsMatched us res
      → ((j : ℕ) → j < i → Filled sig fs valid j res)
      → (j : ℕ) → j < suc i
      → Filled sig fs valid j (set res (place sig.ellipsis_pos i) (some a))
  set-upto i x a us res h e m f j l = elim (Bool-cases (i == j)) [
    | inl t ↦
        subst (λ k. Filled sig fs valid k (set res (place sig.ellipsis_pos i) (some a))) {x = i}
          {y = j} (ground arith) (Filled-set_self sig fs valid i x a res m.long h e)
    | inr t ↦ Filled-set sig fs valid j i x a res m.long h e (f j (ground arith))
  ]

  place_before : (o : Option ℕ) (f : ℕ) → ((p : ℕ) → o ≡ some p → f ≤ p) → place o f ≡ f
  place_before none f h = refl
  place_before (some p) f h = ground (arith, h p refl)

  put-IsReached :
      (f : ℕ) (x : String) (a : ArgInfo X) (us : List Bool) (res : Slots X)
      → name_of (get_elem? fs f) ≡ some x
      → a.name ≡ x
      → IsReached us (some f) res
      → IsReached us (next_unused f us) (set res f (some a))
  put-IsReached f x a us res h e r =
      let m = r.matched in
      subst (λ k. IsReached us (next_unused f us) (set res k (some a)))
        (place_before sig.ellipsis_pos f r.upto.2)
        (next-IsReached us (suc f) (next_unused f us) (set res (place sig.ellipsis_pos f) (some a))
          (next_unused-SetBefore f us (omega (arith, m.flags, r.upto.0)))
          (set-IsMatched f x a us res h e m)
          (λ p o. behind f p (r.upto.2 p o) (not_pos sig fs valid f p x h o))
          (set-upto f x a us res h e m r.upto.3))
    where
      behind : (f p : ℕ) → f ≤ p → (f == p) ≡ false → suc f ≤ p
      behind f p a b = ground arith

  append-Upto :
      (us : List Bool) (o : Option ℕ) (res more : Slots X) → Upto us o res → Upto us o (res ++ more)
  append-Upto us none res more u = λ i. Filled-append sig fs valid i res more (u i)
  append-Upto us (some f) res more u =
      (u.0, u.1, u.2, λ i l. Filled-append sig fs valid i res more (u.3 i l))

  append-IsReached :
      (us : List Bool) (o : Option ℕ) (res more : Slots X)
      → IsReached us o res
      → IsReached us o (res ++ more)
  append-IsReached us o res more r = record {
    matched = record {
      flags = r.matched.flags;
      long = omega (arith, length-append res more, r.matched.long);
      dots = r.matched.dots;
      filled = λ i t. Filled-append sig fs valid i res more (r.matched.filled i t);
    };
    upto = append-Upto us o res more r.upto;
  }

  match_positional-IsReached :
      (us : List Bool) (acts : List (Actual X)) (gs : List Bool) (o : Option ℕ) (res : Slots X)
      → IsReached us o res
      → OnOk (match_positional sig fs us acts gs o res) (λ r. IsReached us r.0 r.1)
  unfolding match_positional
  match_positional-IsReached us [] gs o res r = r
  match_positional-IsReached us (a ∷ acts) [] o res r = r
  match_positional-IsReached us (a ∷ acts) (true ∷ gs) o res r =
      match_positional-IsReached us acts gs o res r
  match_positional-IsReached us (a ∷ acts) (false ∷ gs) none res r = refl
  match_positional-IsReached us (named x e b ∷ acts) (false ∷ gs) (some f) res r =
      elim (Option-cases sig.ellipsis_pos) [
        | inl o ↦ rw (o, match_positional) refl
        | inr (p, o) ↦
            rw (o, match_positional)
              (match_positional-IsReached us acts gs (some f) (res ++ in_ellipsis x e b ∷ [])
                (append-IsReached us (some f) res (in_ellipsis x e b ∷ []) r))
      ]
  match_positional-IsReached us (arg e b ∷ acts) (false ∷ gs) (some f) res r =
      elim (Option-cases (get_elem? fs f)) [
        | inl o ↦ rw (o, match_positional) refl
        | inr (tagged x d, o) ↦
            rw (o, match_positional)
              (match_positional-IsReached us acts gs (next_unused f us)
                (set res f (by_position x e b)) (put-IsReached f x _ us res (ap name_of o) refl r))
        | inr (symbol x, o) ↦
            rw (o, match_positional)
              (match_positional-IsReached us acts gs (next_unused f us)
                (set res f (by_position x e b)) (put-IsReached f x _ us res (ap name_of o) refl r))
        | inr (ellipsis, o) ↦
            rw (o, match_positional)
              (match_positional-IsReached us acts gs (some f) (res ++ in_ellipsis "" e b ∷ [])
                (append-IsReached us (some f) res (in_ellipsis "" e b ∷ []) r))
      ]

  later_formal :
      (i : ℕ) (g : Formal X) (fs' : List (Formal X))
      → ((k : ℕ) → get_elem? (g ∷ fs') k ≡ get_elem? fs (i + k))
      → (k : ℕ) → get_elem? fs' k ≡ get_elem? fs (suc i + k)
  later_formal i g fs' sf k =
      sf (suc k) ∙ ap (get_elem? fs) {x = i + suc k} {y = suc i + k} (omega arith)

  formal_here :
      (i : ℕ) (g : Formal X) (fs' : List (Formal X))
      → ((k : ℕ) → get_elem? (g ∷ fs') k ≡ get_elem? fs (i + k))
      → some g ≡ get_elem? fs i
  formal_here i g fs' sf = sf 0 ∙ ap (get_elem? fs) {x = i + 0} {y = i} (omega arith)

  later_flag :
      (us : List Bool) (i : ℕ) (u : Bool) (us' : List Bool)
      → ((k : ℕ) → get_or (u ∷ us') k false ≡ get_or us (i + k) false)
      → (k : ℕ) → get_or us' k false ≡ get_or us (suc i + k) false
  later_flag us i u us' su k =
      su (suc k) ∙ ap (λ n. get_or us n false) {x = i + suc k} {y = suc i + k} (omega arith)

  flag_here :
      (us : List Bool) (i : ℕ) (u : Bool) (us' : List Bool)
      → ((k : ℕ) → get_or (u ∷ us') k false ≡ get_or us (i + k) false)
      → u ≡ get_or us i false
  flag_here us i u us' su = su 0 ∙ ap (λ n. get_or us n false) {x = i + 0} {y = i} (omega arith)

  and_this :
      (i : ℕ) (res : Slots X)
      → ((j : ℕ) → j < i → Filled sig fs valid j res)
      → Filled sig fs valid i res
      → (j : ℕ) → j < suc i
      → Filled sig fs valid j res
  and_this i res f g j l = elim (Bool-cases (i == j)) [
    | inl t ↦ subst (λ k. Filled sig fs valid k res) {x = i} {y = j} (ground arith) g
    | inr t ↦ f j (ground arith)
  ]

  fill_defaults-Filled :
      (us : List Bool) (fs' : List (Formal X)) (us' : List Bool) (i : ℕ) (res : Slots X)
      → ((k : ℕ) → get_elem? fs' k ≡ get_elem? fs (i + k))
      → ((k : ℕ) → get_or us' k false ≡ get_or us (i + k) false)
      → length us' ≡ length fs'
      → length fs ≤ i + length fs'
      → IsMatched us res
      → ((j : ℕ) → j < i → Filled sig fs valid j res)
      → OnOk (fill_defaults sig fs' us' i res) (λ r. (j : ℕ) → Filled sig fs valid j r)
  unfolding fill_defaults
  fill_defaults-Filled us [] us' i res sf su l b m f = λ j. elim (Bool-cases (ltb j i)) [
    | inl t ↦ f j (ground arith)
    | inr t ↦ outside j res (ground (arith, b))
  ]
  fill_defaults-Filled us (g ∷ fs') [] i res sf su l b m f = absurd (omega arith)
  fill_defaults-Filled us (g ∷ fs') (true ∷ us') i res sf su l b m f =
      fill_defaults-Filled us fs' us' (suc i) res (later_formal i g fs' sf)
        (later_flag us i true us' su) (omega arith) (omega arith) m
        (and_this i res f (m.filled i (sym (flag_here us i true us' su))))
  fill_defaults-Filled us (tagged x d ∷ fs') (false ∷ us') i res sf su l b m f =
      let h = ap name_of (sym (formal_here i (tagged x d) fs' sf)) in
      let a : ArgInfo X = record {
        name = x;
        expr = d;
        is_formal = true;
        is_ellipsis = false;
        is_ref = false;
      } in
      fill_defaults-Filled us fs' us' (suc i) (set res (place sig.ellipsis_pos i) (some a))
        (later_formal i (tagged x d) fs' sf) (later_flag us i false us' su) (omega arith)
        (omega arith) (set-IsMatched i x a us res h refl m) (set-upto i x a us res h refl m f)
  fill_defaults-Filled us (symbol x ∷ fs') (false ∷ us') i res sf su l b m f = refl
  fill_defaults-Filled us (ellipsis ∷ fs') (false ∷ us') i res sf su l b m f =
      fill_defaults-Filled us fs' us' (suc i) res (later_formal i ellipsis fs' sf)
        (later_flag us i false us' su) (omega arith) (omega arith) m
        (and_this i res f
          (λ x k. absurd (unnamed x (sym (ap name_of (sym (formal_here i ellipsis fs' sf))) ∙ k))))
    where
      unnamed : (x : String) → none ≡ some x → ⊥
      unnamed x e = ground (arith, e)

  defaults_at-Filled :
      (us : List Bool) (o : Option ℕ) (res : Slots X)
      → IsReached us o res
      → OnOk (defaults_at sig fs us o res) (λ r. (j : ℕ) → Filled sig fs valid j r)
  defaults_at-Filled us none res r = r.upto
  defaults_at-Filled us (some i) res r =
      fill_defaults-Filled us (drop i fs) (drop i us) i res (λ k. get_elem?-drop i k fs)
        (λ k. get_or-drop i k us false)
        (omega (arith, length-drop i us, length-drop i fs, r.matched.flags))
        (omega (arith, length-drop i fs)) r.matched r.upto.3

  start-IsMatched :
      IsMatched (replicate (length fs) false) (replicate (places sig.ellipsis_pos (length fs)) none)
  start-IsMatched = record {
    flags = length-replicate (length fs) false;
    long = omega (
      arith,
      length-replicate {A = Option (ArgInfo X)} (places sig.ellipsis_pos (length fs)) none,
    );
    dots = λ p o. get_or-replicate-false (length fs) p;
    filled = λ i t. absurd (never (get_or-replicate-false (length fs) i) t);
  }
    where
      never : {b : Bool} → b ≡ false → b ≡ true → ⊥
      never p q = ground (arith, p, q)

  -- Of arguments that match, every formal one but `...` has an entry with its name.
  pub process_args-Filled :
      (acts : List (Actual X)) (res : Slots X)
      → process_args sig fs acts ≡ ok res
      → (j : ℕ) → Filled sig fs valid j res
  unfolding process_args
  process_args-Filled acts res e =
      subst (λ r. OnOk r (λ s. (j : ℕ) → Filled sig fs valid j s)) e (all_filled acts)
    where
      all_filled :
          (acts : List (Actual X))
          → OnOk (process_args sig fs acts) (λ s. (j : ℕ) → Filled sig fs valid j s)
      all_filled acts =
          let n = length fs in
          let gs = replicate (length acts) false in
          let start : Slots X = replicate (places sig.ellipsis_pos n) none in
          let named = match_named sig acts 0 (replicate n false) gs start in
          let m = match_named-IsMatched acts 0 (replicate n false) gs start (start-IsMatched) in
          elim (Result-cases named) [
            | inr (e, o) ↦ rw (o, process_args) refl
            | inl ((us, gs', res), o) ↦
                let r =
                  next-IsReached us 0 (unused_from 0 us) res (unused_from-SetBefore us)
                    (subst (λ t. OnOk t (λ u. IsMatched u.0 u.2)) o m) (λ p q. omega arith)
                    (λ j l. absurd (omega arith)) in
                let p = match_positional-IsReached us acts gs' (unused_from 0 us) res r in
                elim (Result-cases (match_positional sig fs us acts gs' (unused_from 0 us) res)) [
                  | inr (e, q) ↦ rw (o, q, process_args) refl
                  | inl ((f, res'), q) ↦
                      rw (o, q, process_args)
                        (defaults_at-Filled us f res'
                          (subst (λ t. OnOk t (λ u. IsReached us u.0 u.1)) q p))
                ]
          ]
