-- ===== src/CowPtr.antt =====
-- src/cow_ptr.hpp: the copy-on-write pointers to which all values of the interpreter are bound. A
-- pointer shares its object and a count of its sharers; a write through a pointer whose count is
-- above 1 first makes a copy. `none` stands for an exception.
pub mod Isolation
use ztsdb.Base.{
  ℕ, zero, suc, ◌+◌, ◌-◌, Bool, true, false, not, ◌&&◌, ◌||◌, ltb, if◌then◌else◌, Option, none,
  some, List, ◌∷◌, [], ◌++◌, length, get_elem?, get_or, set,
}

-- The flags of a pointer, but for NOFLAGS.
pub record Flags : Type 0 where
  pub ref : Bool
  pub locked : Bool
  pub constref : Bool
  pub tmp : Bool
  pub last : Bool

-- A pointer: its flags, and where its object and its count stand.
pub record Ptr : Type 0 where
  pub flags : Flags
  pub p : ℕ
  pub count : ℕ

abbrev pub set_ref : Ptr → Bool → Ptr
set_ref q b = record q { flags = record q.flags { ref = b } }

abbrev pub set_lock : Ptr → Bool → Ptr
set_lock q b = record q { flags = record q.flags { locked = b } }

abbrev pub set_const : Ptr → Ptr
set_const q = record q { flags = record q.flags { constref = true } }

abbrev pub reset_tmp : Ptr → Ptr
reset_tmp q = record q { flags = record q.flags { tmp = false } }

-- All objects and all counts. (A shared_ptr frees its cell when nothing holds it; here cells stay.)
pub record Heap {ℓ} (T : Type ℓ) : Type ℓ where
  pub objects : List T
  pub counts : List ℕ

module _ {ℓ} {T : Type ℓ} where
  -- use_count(). A count is a `long`; a decrement at 0 stays at 0 here.
  abbrev pub use_count : Heap T → Ptr → ℕ
  use_count h q = get_or h.counts q.count 0

  abbrev pub increment : Heap T → Ptr → Heap T
  increment h q = record h { counts = set h.counts q.count (use_count h q + 1) }

  abbrev pub decrement : Heap T → Ptr → Heap T
  decrement h q = record h { counts = set h.counts q.count (use_count h q - 1) }

  -- cow_ptr(flags, t), for a new object
  unfoldable pub make : Heap T → Flags → T → Heap T × Ptr
  make h f t = (
    record { objects = h.objects ++ t ∷ []; counts = h.counts ++ 1 ∷ [] },
    record { flags = f; p = length h.objects; count = length h.counts },
  )

  -- The object, through `operator*() const` and `operator->() const`.
  unfoldable pub read : Heap T → Ptr → Option T
  read h q = get_elem? h.objects q.p

  -- `operator*()` and `operator->()`: what makes sure that the pointer may be written through.
  unfoldable pub deref : Heap T → Ptr → Option (Heap T × Ptr)
  deref h q =
      if q.flags.constref
      then none
      else if ltb 1 (use_count h q)
      then (if q.flags.locked then none else elim (get_elem? h.objects q.p) [
        | none ↦ none
        | some t ↦ some (
            (
              record {
                objects = h.objects ++ t ∷ [];
                counts = set h.counts q.count (use_count h q - 1) ++ 1 ∷ [];
              },
              record { flags = q.flags; p = length h.objects; count = length h.counts },
            ))
      ])
      else some (h, q)

  -- `*q = t`
  unfoldable pub write : Heap T → Ptr → T → Option (Heap T × Ptr)
  unfolding deref
  write h q t = elim (deref h q) [
    | none ↦ none
    | some r ↦ some (record r.0 { objects = set r.0.objects r.1.p t }, r.1)
  ]

  -- cow_ptr(o)
  unfoldable pub copy : Heap T → Ptr → Heap T × Ptr
  copy h o = (increment h o, record o { flags = record o.flags { last = false } })

  -- operator=(o): the count that the pointer had stays as it is. It does not depend on the old
  -- pointer.
  unfoldable pub assign : Heap T → Ptr → Heap T × Ptr
  assign h o = (
    if o.flags.constref then h else increment h o,
    record o { flags = record o.flags { last = false } },
  )

  unfoldable pub set_tmp : Heap T → Ptr → Heap T × Ptr
  set_tmp h q = (decrement h q, record q { flags = record q.flags { tmp = true } })

  unfoldable pub set_last : Heap T → Ptr → Heap T × Ptr
  set_last h q = (decrement h q, record q { flags = record q.flags { last = true } })

  -- ~cow_ptr()
  unfoldable pub destroy : Heap T → Ptr → Heap T
  destroy h q = if not q.flags.last && not q.flags.tmp then decrement h q else h
