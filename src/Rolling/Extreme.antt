-- ===== src/Rolling/Extreme.antt =====
-- rollmin_inplace and rollmax_inplace of src/array_ops.hpp on columns without NaN.
use ztsdb.Base.{
  ℕ, zero, suc, ◌+◌, ◌-◌, ◌%◌, ◌^◌, ◌≤◌, ◌<◌, ◌≡◌, refl, ap, sym, ◌∙◌, subst, Bool, true, false,
  leb, ◌==◌, if◌then◌else◌, Bool-cases, inl, inr, ◌⊎◌, some, List, length, get_or, set, length-set,
  arith,
}
use Prim.Native.Nat.{min}
use ztsdb.Vector.{Vec, size}
use ztsdb.ArrayOps.Loops.{get_or-set, at_inside, setv_inside}
use ztsdb.Rolling.{
  Roll, pop_back, push, take_in, let_out, new_front, store, put, roll_step, roll_loop,
}
use ztsdb.Rolling.Queue.{
  Queue, entry, IsTotal, push-Queue, pop_back-Queue, pop_front-Queue, oldest-best, oldest_row,
}

-- The value of row `r`: NaN before there are `nbvalid` rows, and then the best of the last `window`.
abbrev pub BestOf : {T : Type 0} → (T → T → Bool) → T → ℕ → ℕ → (ℕ → T) → ℕ → T → Type 0
BestOf worse nan window nbvalid xs r m =
    ((r + 1 < nbvalid) × (m ≡ nan))
    ⊎ ((nbvalid ≤ r + 1)
        × (i : ℕ) × (i ≤ r)
        × (r < i + window)
        × (m ≡ xs i)
        × ((j : ℕ) → j ≤ r → r < j + window → worse (xs j) m ≡ true))

pop_back-le :
    {T : Type 0} (worse : T → T → Bool) (z : T) (buf : List (T × ℕ)) (front b : ℕ) (x : T)
    → pop_back worse z buf front b x ≤ b
unfolding pop_back
pop_back-le worse z buf front zero x = omega arith
pop_back-le worse z buf front (suc b) x = ground (arith, pop_back-le worse z buf front b x)

module _ {T : Type 0} (lt worse : T → T → Bool) (junk : ℕ → T) (is_nan : T → Bool) (nan : T)
    (d window nbvalid : ℕ) (xs : ℕ → T) where
  -- The state before row `r`.
  record IsGood (r : ℕ) (s : Roll T) : Type 0 where
    entries : ℕ
    from : ℕ
    buffer_full : length s.buffer ≡ d
    used : s.back ≡ s.front + entries
    within : s.back ≤ r
    reaches : from ≤ r - window
    nbv_le : s.nbv ≤ r
    le_nbv : min r window ≤ s.nbv
    queue : Queue worse nan xs s.buffer s.back entries r from
    rows : size s.column ≡ d
    done : (j : ℕ) → j < r → BestOf worse nan window nbvalid xs j (get_or s.column.items j nan)
    left : (j : ℕ) → r ≤ j → get_or s.column.items j nan ≡ xs j

  take_in-push :
      (r : ℕ) (s : Roll T)
      → IsGood r s
      → r < d
      → d < 2 ^ 64
      → is_nan (xs r) ≡ false
      → take_in lt worse junk is_nan nan r s ≡ some (push worse nan r (xs r) s)
  unfolding take_in
  take_in-push r s g h b e =
      let a =
        at_inside junk nan s.column r (omega (arith, g.rows)) (omega (arith, g.rows))
        ∙ ap (λ x. some x) (g.left r (omega arith)) in
      rw (a, e, take_in) refl

  -- The count of the values stays between the rows of the window and all rows.
  let_out-nbv :
      (r : ℕ) (s : Roll T)
      → size s.column ≡ d
      → r < d
      → d < 2 ^ 64
      → s.nbv ≤ r + 1
      → min r window + 1 ≤ s.nbv
      → (m : ℕ) × (let_out lt worse junk is_nan nan window r s ≡ some (record s { nbv = m }))
        × (m ≤ r + 1)
        × (min (r + 1) window ≤ m)
  unfolding let_out
  let_out-nbv r s l h b n m = elim (Bool-cases (leb window r)) [
    | inl t ↦
        let a = at_inside junk nan s.column (r - window) (omega (arith, l)) (omega (arith, l)) in
        elim (Bool-cases (is_nan (get_or s.column.items (r - window) nan))) [
          | inl e ↦ (s.nbv, rw (t, a, e, let_out) refl, n, ground arith)
          | inr e ↦ (
            (s.nbv + 2 ^ 64 - 1) % 2 ^ 64,
            rw (t, a, e, let_out) refl,
            ground arith,
            ground arith,
          )
        ]
    | inr t ↦ (s.nbv, rw (t, let_out) refl, n, ground arith)
  ]

  -- The front of the window is its best value.
  new_front-best :
      (total : IsTotal worse nan xs d)
      (trans : (x y w : T) → worse x y ≡ true → worse y w ≡ true → worse x w ≡ true) (r b n lo : ℕ)
      (s : Roll T)
      → s.front + n ≡ b
      → b < d
      → r < d
      → 0 < window
      → lo ≤ r - window
      → nbvalid ≤ r + 1
      → Queue worse nan xs s.buffer (suc b) (suc n) (r + 1) lo
      → (f : ℕ) × (n' : ℕ) × (lo' : ℕ) × (new_front lt worse junk is_nan nan d window r s ≡ some f)
        × (f + n' ≡ b)
        × (lo' ≤ r + 1 - window)
        × BestOf worse nan window nbvalid xs r (entry worse nan xs s.buffer f).0
        × Queue worse nan xs s.buffer (suc b) (suc n') (r + 1) lo'
  unfolding new_front
  new_front-best total trans r b n lo s e k h w l v q = elim (Bool-cases (leb window r)) [
    | inl t ↦
        let (f, n', lo', p, e', m, past, q') =
          pop_front-Queue worse nan xs s.buffer (d - s.front) s.front b n (r + 1) lo (r - window) e
            (omega arith) (ground arith) (omega arith) q in
        let row = oldest_row worse nan xs s.buffer b n' f (r + 1) lo' e' q' in
        (
          f,
          n',
          lo',
          rw (t, new_front) p,
          e',
          ground arith,
          inr (
            v,
            (entry worse nan xs s.buffer f).1,
            omega (arith, row.1),
            ground arith,
            row.0,
            λ j a c.
                oldest-best worse nan xs d total trans s.buffer b n' f (r + 1) lo' (omega arith) e'
                  q' j (ground arith) (omega arith),
          ),
          q',
        )
    | inr t ↦
        let row = oldest_row worse nan xs s.buffer b n s.front (r + 1) lo e q in
        (
          s.front,
          n,
          lo,
          rw (t, new_front) refl,
          e,
          ground arith,
          inr (
            v,
            (entry worse nan xs s.buffer s.front).1,
            omega (arith, row.1),
            ground arith,
            row.0,
            λ j a c.
                oldest-best worse nan xs d total trans s.buffer b n s.front (r + 1) lo (omega arith)
                  e q j (ground arith) (omega arith),
          ),
          q,
        )
  ]

  stored_cell :
      (r : ℕ) (x : T) (s : Roll T)
      → r < size s.column
      → (w : Vec T) × (store lt worse junk is_nan nan r x s ≡ some (record s { column = w }))
        × (w.items ≡ set s.column.items r x)
  unfolding store
  stored_cell r x s h = let (w, e, i) = setv_inside lt s.column r x h in (w, rw (e, store) refl, i)

  -- The state after row `r`, from its parts.
  stored-IsGood :
      (r f b n lo m : ℕ) (s : Roll T) (buf : List (T × ℕ)) (x : T) (w : Vec T)
      → IsGood r s
      → r < d
      → length buf ≡ d
      → f + n ≡ b
      → b ≤ r
      → lo ≤ r + 1 - window
      → m ≤ r + 1
      → min (r + 1) window ≤ m
      → Queue worse nan xs buf (suc b) (suc n) (r + 1) lo
      → BestOf worse nan window nbvalid xs r x
      → w.items ≡ set s.column.items r x
      → IsGood (suc r) (record { buffer = buf; front = f; back = suc b; nbv = m; column = w })
  stored-IsGood r f b n lo m s buf x w g h l e k o mm ml q best i = record {
    entries = suc n;
    from = lo;
    buffer_full = l;
    used = omega arith;
    within = omega arith;
    reaches = omega arith;
    nbv_le = omega arith;
    le_nbv = omega arith;
    queue =
        subst (λ a. Queue worse nan xs buf (suc b) (suc n) a lo) {x = r + 1} {y = suc r}
          (omega arith) q;
    rows = ap length i ∙ length-set s.column.items r x ∙ g.rows;
    done = λ j a. done_row j a;
    left = λ j a. ground (
      arith,
      i,
      get_or-set nan s.column.items r j x (omega (arith, g.rows)),
      g.left j (omega arith),
    );
  }
    where
      read : (j : ℕ) → get_or w.items j nan ≡ (if r == j then x else get_or s.column.items j nan)
      read j =
          ap (λ ys. get_or ys j nan) i ∙ get_or-set nan s.column.items r j x (omega (arith, g.rows))

      done_row : (j : ℕ) → j < suc r → BestOf worse nan window nbvalid xs j (get_or w.items j nan)
      done_row j a = elim (Bool-cases (r == j)) [
        | inl t ↦
            let y : get_or w.items j nan ≡ x = ground (arith, read j) in
            subst (λ v. BestOf worse nan window nbvalid xs j v) (sym y)
              (subst (λ v. BestOf worse nan window nbvalid xs v x) {x = r} {y = j} (ground arith)
                best)
        | inr t ↦
            let y : get_or w.items j nan ≡ get_or s.column.items j nan = ground (arith, read j) in
            subst (λ v. BestOf worse nan window nbvalid xs j v) (sym y) (g.done j (ground arith))
      ]

  module _ (total : IsTotal worse nan xs d)
      (trans : (x y w : T) → worse x y ≡ true → worse y w ≡ true → worse x w ≡ true)
      (bound : d < 2 ^ 64) (some_row : 0 < window) (valid : nbvalid ≤ window) where
    worse_self : (r : ℕ) → r < d → worse (xs r) (xs r) ≡ true
    worse_self r h = elim (total r r h h) [ inl t ↦ t | inr t ↦ t ]

    put-IsGood :
        (r b n lo m : ℕ) (s : Roll T) (buf : List (T × ℕ))
        → IsGood r s
        → r < d
        → length buf ≡ d
        → s.front + n ≡ b
        → b ≤ r
        → lo ≤ r - window
        → m ≤ r + 1
        → min (r + 1) window ≤ m
        → Queue worse nan xs buf (suc b) (suc n) (r + 1) lo
        → (s' : Roll T) × (put lt worse junk is_nan nan d window nbvalid r
              (record { buffer = buf; front = s.front; back = suc b; nbv = m; column = s.column })
            ≡ some s')
          × IsGood (suc r) s'
    unfolding put
    put-IsGood r b n lo m s buf g h l e k o mm ml q =
        let t : Roll T = record {
          buffer = buf;
          front = s.front;
          back = suc b;
          nbv = m;
          column = s.column;
        } in
        elim (Bool-cases (leb nbvalid m)) [
          | inl c ↦
              let (f, n', lo', p, e', o', best, q') =
                new_front-best total trans r b n lo t e (omega arith) h some_row o (ground arith)
                  q in
              let x = (entry worse nan xs buf f).0 in
              let (w, u, i) = stored_cell r x (record t { front = f }) (omega (arith, g.rows)) in
              (
                record { buffer = buf; front = f; back = suc b; nbv = m; column = w },
                rw (c, p, put) u,
                stored-IsGood r f b n' lo' m s buf x w g h l e' k o' mm ml q' best i,
              )
          | inr c ↦
              let (w, u, i) = stored_cell r nan t (omega (arith, g.rows)) in
              (
                record { buffer = buf; front = s.front; back = suc b; nbv = m; column = w },
                rw (c, put) u,
                stored-IsGood r s.front b n lo m s buf nan w g h l e k (omega arith) mm ml q
                    (inl (ground arith, refl)) i,
              )
        ]

    roll_step-IsGood :
        (r : ℕ) (s : Roll T)
        → IsGood r s
        → r < d
        → is_nan (xs r) ≡ false
        → (s' : Roll T) × (roll_step lt worse junk is_nan nan d window nbvalid r s ≡ some s')
          × IsGood (suc r) s'
    unfolding roll_step push
    roll_step-IsGood r s g h e =
        let (n, l, low, p, cover, below, q) =
          pop_back-Queue worse nan xs d total trans s.buffer s.front s.back g.entries r r g.from h
            g.used (omega arith)
            (λ j a c.
              subst (λ i. worse (xs i) (xs r) ≡ true) {x = r} {y = j} (omega arith)
                (worse_self r h))
            g.queue in
        let b = pop_back worse nan s.buffer s.front s.back (xs r) in
        let b_le : b ≤ r =
          omega (arith, pop_back-le worse nan s.buffer s.front s.back (xs r), g.within) in
        let q' =
          push-Queue worse nan xs s.buffer b n l r g.from (omega (arith, g.buffer_full)) low cover
            below q in
        let (m, f, mm, ml) =
          let_out-nbv r (push worse nan r (xs r) s) g.rows h bound (omega (arith, g.nbv_le))
            (omega (arith, g.le_nbv)) in
        let (s', u, g') =
          put-IsGood r b n g.from m s (set s.buffer b (xs r, r)) g h
            (length-set s.buffer b (xs r, r) ∙ g.buffer_full) (sym p) b_le g.reaches mm ml q' in
        (s', rw (take_in-push r s g h bound e, f, roll_step) u, g')

    roll_loop-IsGood :
        (k r : ℕ) (s : Roll T)
        → IsGood r s
        → r + k ≡ d
        → ((j : ℕ) → j < d → is_nan (xs j) ≡ false)
        → (s' : Roll T) × (roll_loop lt worse junk is_nan nan d window nbvalid k r s ≡ some s')
          × IsGood d s'
    unfolding roll_loop
    roll_loop-IsGood zero r s g h e =
        (s, refl, subst (λ i. IsGood i s) {x = r} {y = d} (omega arith) g)
    roll_loop-IsGood (suc k) r s g h e =
        let (s', u, g') = roll_step-IsGood r s g (omega arith) (e r (omega arith)) in
        let (t, v, g'') = roll_loop-IsGood k (suc r) s' g' (omega arith) e in
        (t, rw (u, roll_loop) v, g'')

    pub roll_loop-BestOf :
        (buf : List (T × ℕ)) (v : Vec T)
        → length buf ≡ d
        → size v ≡ d
        → ((j : ℕ) → get_or v.items j nan ≡ xs j)
        → ((j : ℕ) → j < d → is_nan (xs j) ≡ false)
        → (s : Roll T) × (roll_loop lt worse junk is_nan nan d window nbvalid d 0
              (record { buffer = buf; front = 0; back = 0; nbv = 0; column = v })
            ≡ some s)
          × (length s.buffer ≡ d)
          × (size s.column ≡ d)
          × ((j : ℕ) → j < d → BestOf worse nan window nbvalid xs j (get_or s.column.items j nan))
    roll_loop-BestOf buf v l m same e =
        let start : Roll T = record { buffer = buf; front = 0; back = 0; nbv = 0; column = v } in
        let g : IsGood 0 start = record {
          entries = 0;
          from = 0;
          buffer_full = l;
          used = refl;
          within = omega arith;
          reaches = omega arith;
          nbv_le = omega arith;
          le_nbv = omega arith;
          queue = omega arith;
          rows = m;
          done = λ j a. absurd (omega arith);
          left = λ j a. same j;
        } in
        let (s, u, g') = roll_loop-IsGood d 0 start g (omega arith) e in
        (s, u, g'.buffer_full, g'.rows, g'.done)
