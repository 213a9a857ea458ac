-- ===== src/ArrayOps/Loops.antt =====
-- The loops of src/array_ops.hpp over the rows of a column, and the pass over the columns.
use ztsdb.Base.{
  ℕ, zero, suc, ◌+◌, ◌≤◌, ◌<◌, ◌≡◌, refl, ap, subst, ◌∙◌, Bool, true, false, ◌&&◌, ltb, leb, ◌==◌,
  if◌then◌else◌, Option, some, Option-cases, inl, inr, List, [], ◌∷◌, length, get_or, set,
  length-set, arith,
}
use ztsdb.Vector.{Vec, size, at, setv}
use ztsdb.Array.{Array}
use ztsdb.ArrayOps.{write, up, down, each_column, in_place}

pub get_or-set :
    {T : Type 0} (z : T) (xs : List T) (i j : ℕ) (x : T)
    → i < length xs
    → get_or (set xs i x) j z ≡ (if i == j then x else get_or xs j z)
get_or-set z [] i j x h = absurd (omega arith)
get_or-set z (y ∷ ys) zero zero x h = refl
get_or-set z (y ∷ ys) zero (suc j) x h = ground arith
get_or-set z (y ∷ ys) (suc i) zero x h = ground arith
get_or-set z (y ∷ ys) (suc i) (suc j) x h = ground (arith, get_or-set z ys i j x)

pub get_or_eq :
    {T : Type 0} (xs : List T) (i : ℕ) (x y : T) → i < length xs → get_or xs i x ≡ get_or xs i y
get_or_eq [] i x y h = absurd (omega arith)
get_or_eq (z ∷ xs) zero x y h = refl
get_or_eq (z ∷ xs) (suc i) x y h = get_or_eq xs i x y (omega arith)

pub get_or_past : {T : Type 0} (xs : List T) (i : ℕ) (z : T) → length xs ≤ i → get_or xs i z ≡ z
get_or_past [] i z h = refl
get_or_past (x ∷ xs) zero z h = absurd (omega arith)
get_or_past (x ∷ xs) (suc i) z h = get_or_past xs i z (omega arith)

module _ {T : Type 0} where
  pub at_inside :
      (junk : ℕ → T) (z : T) (v : Vec T) (i : ℕ)
      → i < size v
      → size v < 18446744073709551616
      → at junk v i ≡ some (get_or v.items i z)
  unfolding at
  at_inside junk z v i h b = ground (arith, get_or_eq v.items i (junk i) z h)

  pub setv_inside :
      (lt : T → T → Bool) (v : Vec T) (i : ℕ) (x : T)
      → i < size v
      → (w : Vec T) × (setv lt v i x ≡ some w) × (w.items ≡ set v.items i x)
  unfolding setv
  setv_inside lt v i x h = elim (Option-cases (setv lt v i x)) [
    | inl e ↦ absurd (ground (arith, e))
    | inr (w, e) ↦ (w, e, ground (arith, e))
  ]

module _ {T : Type 0} (lt : T → T → Bool) (value : Vec T → ℕ → Option T) where
  up-suc :
      (k r : ℕ) (v w : Vec T)
      → write lt value v r ≡ some w
      → up lt value (suc k) r v ≡ up lt value k (r + 1) w
  unfolding up
  up-suc k r v w e = rw (e, up) refl

  down-suc :
      (k lo : ℕ) (v w : Vec T)
      → write lt value v (lo + k) ≡ some w
      → down lt value (suc k) lo v ≡ down lt value k lo w
  unfolding down
  down-suc k lo v w e = rw (e, down) refl

-- A column whose rows from `lo` to `hi` are those of `target`, and the others still those of `xs`.
abbrev pub Rewritten : {T : Type 0} → T → List T → (ℕ → T) → ℕ → ℕ → Vec T → Type 0
Rewritten z xs target lo hi w =
    (size w ≡ length xs)
    × ((j : ℕ) → get_or w.items j z ≡ (if leb lo j && ltb j hi then target j else get_or xs j z))

module _ {T : Type 0} (lt : T → T → Bool) (z : T) (xs : List T) (target : ℕ → T) where
  pub write_step :
      (value : Vec T → ℕ → Option T) (v : Vec T) (r lo hi lo' hi' : ℕ)
      → Rewritten z xs target lo hi v
      → value v r ≡ some (target r)
      → r < length xs
      → ((j : ℕ) → (if r == j then true else leb lo j && ltb j hi) ≡ leb lo' j && ltb j hi')
      → (w : Vec T) × (write lt value v r ≡ some w) × Rewritten z xs target lo' hi' w
  unfolding write
  write_step value v r lo hi lo' hi' done e h grows =
      let (w, s, i) = setv_inside lt v r (target r) (omega (arith, done.0)) in
      (
        w,
        rw (e, write) s,
        (
          ap length i ∙ length-set v.items r (target r) ∙ done.0,
          λ j. ground (
            arith,
            i,
            get_or-set z v.items r j (target r) (omega (arith, done.0)),
            done.1 j,
            grows j,
          ),
        ),
      )

  -- Upwards: the rows of `target` are read off a column that is rewritten below.
  pub up-Rewritten :
      (value : Vec T → ℕ → Option T) (lo hi k r : ℕ) (v : Vec T)
      → ((w : Vec T) (i : ℕ)
          → lo ≤ i
          → i < hi
          → Rewritten z xs target lo i w
          → value w i ≡ some (target i))
      → lo ≤ r
      → r + k ≡ hi
      → hi ≤ length xs
      → Rewritten z xs target lo r v
      → (w : Vec T) × (up lt value k r v ≡ some w) × Rewritten z xs target lo hi w
  unfolding up
  up-Rewritten value lo hi zero r v vals a e h done =
      (v, refl, subst (λ n. Rewritten z xs target lo n v) (omega arith) done)
  up-Rewritten value lo hi (suc k) r v vals a e h done =
      let (w, s, d) =
        write_step value v r lo r lo (r + 1) done (vals v r a (omega arith) done) (omega arith)
          (λ j. ground arith) in
      let (u, t, f) = up-Rewritten value lo hi k (r + 1) w vals (omega arith) (omega arith) h d in
      (u, up-suc lt value k r v w s ∙ t, f)

  -- Downwards: they are read off a column that is rewritten above.
  pub down-Rewritten :
      (value : Vec T → ℕ → Option T) (lo hi k : ℕ) (v : Vec T)
      → ((w : Vec T) (i : ℕ)
          → lo ≤ i
          → i < hi
          → Rewritten z xs target (i + 1) hi w
          → value w i ≡ some (target i))
      → lo + k ≤ hi
      → hi ≤ length xs
      → Rewritten z xs target (lo + k) hi v
      → (w : Vec T) × (down lt value k lo v ≡ some w) × Rewritten z xs target lo hi w
  unfolding down
  down-Rewritten value lo hi zero v vals a h done =
      (v, refl, subst (λ n. Rewritten z xs target n hi v) (omega arith) done)
  down-Rewritten value lo hi (suc k) v vals a h done =
      let (w, s, d) =
        write_step value v (lo + k) (lo + suc k) hi (lo + k) hi done
          (vals v (lo + k) (omega arith) (omega arith)
            (subst (λ n. Rewritten z xs target n hi v) (omega arith) done))
          (omega arith) (λ j. ground arith) in
      let (u, t, f) = down-Rewritten value lo hi k w vals (omega arith) h d in
      (u, down-suc lt value k lo v w s ∙ t, f)

  -- Nothing is rewritten yet.
  pub Rewritten-none : (lo : ℕ) (v : Vec T) → v.items ≡ xs → Rewritten z xs target lo lo v
  Rewritten-none lo v e = (ap length e, λ j. ground (arith, e))

-- The columns of two lists one by one, of equal number.
abbrev pub Each : {T : Type 0} → (Vec T → Vec T → Type 0) → List (Vec T) → List (Vec T) → Type 0
Each R [] [] = true ≡ true
Each R [] (w ∷ ws) = true ≡ false
Each R (v ∷ vs) [] = true ≡ false
Each R (v ∷ vs) (w ∷ ws) = R v w × Each R vs ws

-- The columns of an array have its number of rows.
abbrev pub are_full : {T : Type 0} → ℕ → List (Vec T) → Bool
are_full d [] = true
are_full d (v ∷ vs) = size v == d && are_full d vs

pub each_column-Each :
    {T : Type 0} (f : Vec T → Option (Vec T)) (R : Vec T → Vec T → Type 0) (d : ℕ)
    (vs : List (Vec T))
    → ((v : Vec T) → size v ≡ d → (w : Vec T) × (f v ≡ some w) × R v w)
    → are_full d vs ≡ true
    → (ws : List (Vec T)) × (each_column f vs ≡ some ws) × Each R vs ws
unfolding each_column
each_column-Each f R d [] h full = ([], refl, refl)
each_column-Each f R d (v ∷ vs) h full =
    let (w, e, r) = h v (ground (arith, full)) in
    let (ws, es, rs) = each_column-Each f R d vs h (ground (arith, full)) in
    (w ∷ ws, ground (arith, e, es), (r, rs))

pub in_place-Each :
    {T : Type 0} (f : ℕ → Vec T → Option (Vec T)) (R : Vec T → Vec T → Type 0) (d : ℕ) (ds : List ℕ)
    (a : Array T)
    → a.dim ≡ d ∷ ds
    → ((v : Vec T) → size v ≡ d → (w : Vec T) × (f d v ≡ some w) × R v w)
    → are_full d a.cols ≡ true
    → (b : Array T) × (in_place f a ≡ some b) × (b.dim ≡ a.dim) × Each R a.cols b.cols
unfolding in_place
in_place-Each f R d ds a e h full =
    let (ws, g, r) = each_column-Each (f d) R d a.cols h full in
    (record a { cols = ws }, ground (arith, e, g), refl, r)
