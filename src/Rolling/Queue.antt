-- ===== src/Rolling/Queue.antt =====
-- The queue of rollmin_inplace and rollmax_inplace of src/array_ops.hpp. Each of its values is the
-- best of a stretch of rows, and the stretches follow one another up to the row at hand.
use ztsdb.Base.{
  ℕ, zero, suc, ◌+◌, ◌≤◌, ◌<◌, ◌≡◌, refl, sym, ap, subst, Bool, true, false, ltb, leb, Bool-cases,
  inl, inr, ◌⊎◌, some, List, length, get_or, set, arith,
}
use ztsdb.ArrayOps.Loops.{get_or-set}
use ztsdb.Rolling.{pop_back, pop_front}

module _ {T : Type 0} (worse : T → T → Bool) (z : T) (xs : ℕ → T) where
  abbrev pub entry : List (T × ℕ) → ℕ → T × ℕ
  entry buf i = get_or buf i (z, 0)

  -- `y` is no better than the newest value of the queue that ends at `b`.
  abbrev pub Below : List (T × ℕ) → ℕ → ℕ → T → Type 0
  Below buf (suc b) (suc n) y = worse y (entry buf b).0 ≡ true
  Below buf _ _ y = true ≡ true

  -- The best of the rows from `h` to `hi`, which is the last of them.
  abbrev pub Covers : T × ℕ → ℕ → ℕ → Type 0
  Covers e h hi =
      (e.1 + 1 ≡ hi)
      × (e.0 ≡ xs e.1)
      × (h ≤ e.1)
      × ((j : ℕ) → h ≤ j → j < hi → worse (xs j) e.0 ≡ true)

  -- The `n` entries that end at `b` are the best of the rows from `lo` to `hi`.
  abbrev pub Queue : List (T × ℕ) → ℕ → ℕ → ℕ → ℕ → Type 0
  Queue buf b zero hi lo = hi ≤ lo
  Queue buf zero (suc n) hi lo = true ≡ false
  Queue buf (suc b) (suc n) hi lo =
      (h : ℕ) × Covers (entry buf b) h hi × Below buf b n (entry buf b).0 × Queue buf b n h lo

  entry-set :
      (buf : List (T × ℕ)) (i j : ℕ) (e : T × ℕ)
      → i < length buf
      → j < i
      → entry (set buf i e) j ≡ entry buf j
  entry-set buf i j e h l = ground (arith, get_or-set (z, 0) buf i j e h)

  entry-set_self :
      (buf : List (T × ℕ)) (i : ℕ) (e : T × ℕ) → i < length buf → entry (set buf i e) i ≡ e
  entry-set_self buf i e h = ground (arith, get_or-set (z, 0) buf i i e h)

  -- A write behind the queue.
  Below-set :
      (buf : List (T × ℕ)) (b n i : ℕ) (e : T × ℕ) (y : T)
      → i < length buf
      → b ≤ i
      → Below buf b n y
      → Below (set buf i e) b n y
  Below-set buf zero n i e y h l q = refl
  Below-set buf (suc b) zero i e y h l q = refl
  Below-set buf (suc b) (suc n) i e y h l q =
      subst (λ p. worse y p.0 ≡ true) (sym (entry-set buf i b e h l)) q

  Queue-set :
      (buf : List (T × ℕ)) (b n hi lo i : ℕ) (e : T × ℕ)
      → i < length buf
      → b ≤ i
      → Queue buf b n hi lo
      → Queue (set buf i e) b n hi lo
  Queue-set buf b zero hi lo i e h l q = q
  Queue-set buf zero (suc n) hi lo i e h l q = q
  Queue-set buf (suc b) (suc n) hi lo i e h l q =
      let same = sym (entry-set buf i b e h l) in
      (
        q.0,
        subst (λ p. Covers p q.0 hi) same q.1,
        subst (λ p. Below (set buf i e) b n p.0) same
            (Below-set buf b n i e (entry buf b).0 h (omega arith) q.2),
        Queue-set buf b n q.0 lo i e h (omega arith) q.3,
      )

  pub push-Queue :
      (buf : List (T × ℕ)) (b n h hi lo : ℕ)
      → b < length buf
      → h ≤ hi
      → ((j : ℕ) → h ≤ j → j ≤ hi → worse (xs j) (xs hi) ≡ true)
      → Below buf b n (xs hi)
      → Queue buf b n h lo
      → Queue (set buf b (xs hi, hi)) (suc b) (suc n) (hi + 1) lo
  push-Queue buf b n h hi lo l m c w q =
      let e : T × ℕ = (xs hi, hi) in
      let same = sym (entry-set_self buf b e l) in
      (
        h,
        subst (λ p. Covers p h (hi + 1)) same (refl, refl, m, λ j a d. c j a (omega arith)),
        subst (λ p. Below (set buf b e) b n p.0) same
            (Below-set buf b n b e (xs hi) l (omega arith) w),
        Queue-set buf b n h lo b e l (omega arith) q,
      )

  -- The rows up to `d` are in a total order.
  abbrev pub IsTotal : ℕ → Type 0
  IsTotal d =
      (i j : ℕ) → i < d → j < d → (worse (xs i) (xs j) ≡ true) ⊎ (worse (xs j) (xs i) ≡ true)

  module _ (d : ℕ) (total : IsTotal d) where
    worse_of_not :
        (e : T × ℕ) (hi : ℕ)
        → e.0 ≡ xs e.1
        → e.1 < d
        → hi < d
        → worse e.0 (xs hi) ≡ false
        → worse (xs hi) e.0 ≡ true
    worse_of_not e hi q l m n = elim (total e.1 hi l m) [
      | inl t ↦ absurd (ground (arith, t, ap (λ x. worse x (xs hi)) q, n))
      | inr t ↦ ground (arith, t, ap (λ x. worse (xs hi) x) q)
    ]

    worse_refl : (e : T × ℕ) → e.0 ≡ xs e.1 → e.1 < d → worse e.0 e.0 ≡ true
    worse_refl e q l =
        subst (λ x. worse x x ≡ true) (sym q) (elim (total e.1 e.1 l l) [ inl t ↦ t | inr t ↦ t ])

    module _ (trans : (x y w : T) → worse x y ≡ true → worse y w ≡ true → worse x w ≡ true) where
      -- What is popped covers no more than the new value.
      cover_more :
          (x : T) (e : T × ℕ) (h hi r : ℕ)
          → Covers e h hi
          → worse e.0 x ≡ true
          → ((j : ℕ) → hi ≤ j → j ≤ r → worse (xs j) x ≡ true)
          → (j : ℕ) → h ≤ j
          → j ≤ r
          → worse (xs j) x ≡ true
      cover_more x e h hi r c w m j a b = elim (Bool-cases (ltb j hi)) [
        | inl l ↦ trans (xs j) e.0 x (c.3 j a (ground arith)) w
        | inr l ↦ m j (ground arith) b
      ]

      -- What pop_back leaves: `n'` entries, and the new value is the best of the rows after them.
      abbrev pub Popped : List (T × ℕ) → ℕ → ℕ → ℕ → ℕ → Type 0
      Popped buf front hi lo b =
          (n : ℕ) × (h : ℕ) × (h ≤ hi)
          × (b ≡ front + n)
          × ((j : ℕ) → h ≤ j → j ≤ hi → worse (xs j) (xs hi) ≡ true)
          × Below buf b n (xs hi)
          × Queue buf b n h lo

      pub pop_back-Queue :
          (buf : List (T × ℕ)) (front b n h hi lo : ℕ)
          → hi < d
          → b ≡ front + n
          → h ≤ hi
          → ((j : ℕ) → h ≤ j → j ≤ hi → worse (xs j) (xs hi) ≡ true)
          → Queue buf b n h lo
          → Popped buf front hi lo (pop_back worse z buf front b (xs hi))
      unfolding pop_back
      pop_back-Queue buf front zero zero h hi lo u e m c q = (0, h, m, omega arith, c, refl, q)
      pop_back-Queue buf front zero (suc n) h hi lo u e m c q = absurd (omega arith)
      pop_back-Queue buf front (suc b) zero h hi lo u e m c q =
          let t : ltb front (suc b) ≡ false = ground arith in
          let p : Popped buf front hi lo (suc b) = (0, h, m, e, c, refl, q) in rw t p
      pop_back-Queue buf front (suc b) (suc n) h hi lo u e m c q =
          let t : ltb front (suc b) ≡ true = ground arith in
          elim (Bool-cases (worse (entry buf b).0 (xs hi))) [
            | inl p ↦
                rw (t, p)
                  (pop_back-Queue buf front b n q.0 hi lo u (omega arith) (omega (arith, q.1))
                    (cover_more (xs hi) (entry buf b) q.0 h hi q.1 p c) q.3)
            | inr p ↦
                let w : Popped buf front hi lo (suc b) = (
                  suc n,
                  h,
                  m,
                  e,
                  c,
                  worse_of_not (entry buf b) hi q.1.1 (omega (arith, q.1.0)) u p,
                  q,
                ) in
                rw (t, p) w
          ]

      -- The oldest entry is the best of them all.
      newest-oldest :
          (buf : List (T × ℕ)) (b n o hi lo : ℕ)
          → hi ≤ d
          → o + n ≡ b
          → Queue buf (suc b) (suc n) hi lo
          → worse (entry buf b).0 (entry buf o).0 ≡ true
      newest-oldest buf b zero o hi lo u e q =
          subst (λ i. worse (entry buf b).0 (entry buf i).0 ≡ true) {x = b} {y = o} (omega arith)
            (worse_refl (entry buf b) q.1.1 (omega (arith, q.1.0)))
      newest-oldest buf zero (suc n) o hi lo u e q = absurd (omega arith)
      newest-oldest buf (suc b) (suc n) o hi lo u e q =
          trans (entry buf (suc b)).0 (entry buf b).0 (entry buf o).0 q.2
            (newest-oldest buf b n o q.0 lo (omega (arith, q.1.0, q.1.2)) (omega arith) q.3)

      pub oldest-best :
          (buf : List (T × ℕ)) (b n o hi lo : ℕ)
          → hi ≤ d
          → o + n ≡ b
          → Queue buf (suc b) (suc n) hi lo
          → (j : ℕ) → lo ≤ j
          → j < hi
          → worse (xs j) (entry buf o).0 ≡ true
      oldest-best buf b zero o hi lo u e q j a c =
          subst (λ i. worse (xs j) (entry buf i).0 ≡ true) {x = b} {y = o} (omega arith)
            (q.1.3 j (omega (arith, q.3)) c)
      oldest-best buf zero (suc n) o hi lo u e q j a c = absurd (omega arith)
      oldest-best buf (suc b) (suc n) o hi lo u e q j a c = elim (Bool-cases (ltb j q.0)) [
        | inl l ↦
            oldest-best buf b n o q.0 lo (omega (arith, q.1.0, q.1.2)) (omega arith) q.3 j a
              (ground arith)
        | inr l ↦
            trans (xs j) (entry buf (suc b)).0 (entry buf o).0 (q.1.3 j (ground arith) c)
              (newest-oldest buf (suc b) (suc n) o hi lo u e q)
      ]

  -- The oldest entry is one of the rows.
  pub oldest_row :
      (buf : List (T × ℕ)) (b n o hi lo : ℕ)
      → o + n ≡ b
      → Queue buf (suc b) (suc n) hi lo
      → ((entry buf o).0 ≡ xs (entry buf o).1) × ((entry buf o).1 < hi)
  oldest_row buf b zero o hi lo e q =
      subst (λ i. ((entry buf i).0 ≡ xs (entry buf i).1) × ((entry buf i).1 < hi)) {x = b} {y = o}
        (omega arith) (q.1.1, omega (arith, q.1.0))
  oldest_row buf zero (suc n) o hi lo e q = absurd (omega arith)
  oldest_row buf (suc b) (suc n) o hi lo e q =
      let rec = oldest_row buf b n o q.0 lo (omega arith) q.3 in
      (rec.0, omega (arith, rec.1, q.1.0, q.1.2))

  Below-less : (buf : List (T × ℕ)) (b n : ℕ) (y : T) → Below buf b (suc n) y → Below buf b n y
  Below-less buf zero n y q = refl
  Below-less buf (suc b) zero y q = refl
  Below-less buf (suc b) (suc n) y q = q

  -- Without its oldest entry.
  Queue-tail :
      (buf : List (T × ℕ)) (b n o hi lo : ℕ)
      → o + n ≡ b
      → Queue buf (suc b) (suc n) hi lo
      → Queue buf (suc b) n hi ((entry buf o).1 + 1)
  Queue-tail buf b zero o hi lo e q =
      subst (λ i. hi ≤ (entry buf i).1 + 1) {x = b} {y = o} (omega arith) (omega (arith, q.1.0))
  Queue-tail buf zero (suc n) o hi lo e q = absurd (omega arith)
  Queue-tail buf (suc b) (suc n) o hi lo e q = (
    q.0,
    q.1,
    Below-less buf (suc b) n (entry buf (suc b)).0 q.2,
    Queue-tail buf b n o q.0 lo (omega arith) q.3,
  )

  -- pop_front ends at an entry of a row behind the limit.
  pub pop_front-Queue :
      (buf : List (T × ℕ)) (k front b n hi lo limit : ℕ)
      → front + n ≡ b
      → b < front + k
      → limit + 1 < hi
      → lo ≤ limit + 1
      → Queue buf (suc b) (suc n) hi lo
      → (f : ℕ) × (n' : ℕ) × (lo' : ℕ) × (pop_front worse z buf k front limit ≡ some f)
        × (f + n' ≡ b)
        × (lo' ≤ limit + 1)
        × (limit < (entry buf f).1)
        × Queue buf (suc b) (suc n') hi lo'
  unfolding pop_front
  pop_front-Queue buf zero front b n hi lo limit e k h m q = absurd (omega arith)
  pop_front-Queue buf (suc k) front b zero hi lo limit e c h m q =
      let p : limit < (entry buf front).1 =
        subst (λ i. limit < (entry buf i).1) {x = b} {y = front} (omega arith)
          (omega (arith, q.1.0)) in
      let t : leb (entry buf front).1 limit ≡ false = ground arith in
      (front, 0, lo, rw (t, pop_front) refl, e, m, p, q)
  pop_front-Queue buf (suc k) front b (suc n) hi lo limit e c h m q =
      elim (Bool-cases (leb (entry buf front).1 limit)) [
        | inl t ↦
            let (f, n', lo', s, e', m', p, q') =
              pop_front-Queue buf k (front + 1) b n hi ((entry buf front).1 + 1) limit (omega arith)
                (omega arith) h (ground arith) (Queue-tail buf b (suc n) front hi lo e q) in
            (f, n', lo', rw (t, pop_front) s, e', m', p, q')
        | inr t ↦ (front, suc n, lo, rw (t, pop_front) refl, e, m, ground arith, q)
      ]
