-- ===== src/CowPtr/Isolation.antt =====
-- A write through one pointer is not seen through the others.
use ztsdb.Base.{
  ℕ, zero, suc, ◌+◌, ◌-◌, ◌<◌, ◌≡◌, refl, true, false, ltb, ◌==◌, if◌then◌else◌, some, List, ◌∷◌,
  [], ◌++◌, length, get_elem?, get_or, set, arith, inl, inr, get_elem?-append_length,
  set-append_length, Bool-cases,
}
use ztsdb.CowPtr.{Ptr, Heap, use_count, increment, read, deref, write, copy}

get_or-set_same : (xs : List ℕ) (i v : ℕ) → i < length xs → get_or (set xs i v) i 0 ≡ v
get_or-set_same [] i v h = absurd (omega arith)
get_or-set_same (x ∷ xs) zero v h = refl
get_or-set_same (x ∷ xs) (suc i) v h = get_or-set_same xs i v (omega arith)

module _ {T : Type 0} where
  get_elem?-set_other :
      (xs : List T) (i j : ℕ) (t : T) → (i == j) ≡ false → get_elem? (set xs i t) j ≡ get_elem? xs j
  get_elem?-set_other [] i j t h = refl
  get_elem?-set_other (x ∷ xs) zero zero t h = ground arith
  get_elem?-set_other (x ∷ xs) zero (suc j) t h = refl
  get_elem?-set_other (x ∷ xs) (suc i) zero t h = refl
  get_elem?-set_other (x ∷ xs) (suc i) (suc j) t h = get_elem?-set_other xs i j t (ground arith)

  get_elem?-set_same :
      (xs : List T) (i : ℕ) (t : T) → i < length xs → get_elem? (set xs i t) i ≡ some t
  get_elem?-set_same [] i t h = absurd (omega arith)
  get_elem?-set_same (x ∷ xs) zero t h = refl
  get_elem?-set_same (x ∷ xs) (suc i) t h = get_elem?-set_same xs i t (omega arith)

  get_elem?-append_before :
      (xs ys : List T) (i : ℕ) → i < length xs → get_elem? (xs ++ ys) i ≡ get_elem? xs i
  get_elem?-append_before [] ys i h = absurd (omega arith)
  get_elem?-append_before (x ∷ xs) ys zero h = refl
  get_elem?-append_before (x ∷ xs) ys (suc i) h = get_elem?-append_before xs ys i (omega arith)

  get_elem?-some : (xs : List T) (i : ℕ) → i < length xs → (x : T) × (get_elem? xs i ≡ some x)
  get_elem?-some [] i h = absurd (omega arith)
  get_elem?-some (x ∷ xs) zero h = (x, refl)
  get_elem?-some (x ∷ xs) (suc i) h = get_elem?-some xs i (omega arith)

  -- A write through a pointer that is neither const nor locked succeeds, the pointer then reads
  -- what was written, and any other pointer reads what it read before, as long as the two are
  -- counted as two (a count above 1) where they share an object.
  pub write-isolated :
      (h : Heap T) (q r : Ptr) (t : T)
      → q.flags.constref ≡ false
      → q.flags.locked ≡ false
      → q.p < length h.objects
      → r.p < length h.objects
      → (if q.p == r.p then ltb 1 (use_count h q) else true) ≡ true
      → (w : Heap T × Ptr) × (write h q t ≡ some w)
        × (read w.0 w.1 ≡ some t)
        × (read w.0 r ≡ read h r)
  unfolding write deref read
  write-isolated h q r t c k a b s =
      let (x, e) = get_elem?-some h.objects q.p a in
      elim (Bool-cases (ltb 1 (use_count h q))) [
        | inl many ↦ (
          (
            record {
              objects = h.objects ++ t ∷ [];
              counts = set h.counts q.count (use_count h q - 1) ++ 1 ∷ [];
            },
            record { flags = q.flags; p = length h.objects; count = length h.counts },
          ),
          ground (arith, many, c, k, e, set-append_length h.objects x t []),
          get_elem?-append_length h.objects t [],
          get_elem?-append_before h.objects (t ∷ []) r.p b,
        )
        | inr one ↦ (
          (record h { objects = set h.objects q.p t }, q),
          ground (arith, c, one),
          get_elem?-set_same h.objects q.p t a,
          get_elem?-set_other h.objects q.p r.p t (ground (arith, s, one)),
        )
      ]

  -- After the copy of a pointer whose count is above 0, and which is neither const nor locked, a
  -- write through the copy is not seen through the pointer.
  write-copy :
      (h : Heap T) (o : Ptr) (t : T)
      → o.flags.constref ≡ false
      → o.flags.locked ≡ false
      → o.p < length h.objects
      → o.count < length h.counts
      → 0 < use_count h o
      → (w : Heap T × Ptr) × (write (copy h o).0 (copy h o).1 t ≡ some w)
        × (read w.0 w.1 ≡ some t)
        × (read w.0 o ≡ read (copy h o).0 o)
  unfolding copy
  write-copy h o t c k a n u =
      write-isolated (increment h o) (record o { flags = record o.flags { last = false } }) o t c k
        a a (ground (arith, get_or-set_same h.counts o.count (use_count h o + 1) n))
