-- ===== src/Tests/Pointers.antt =====
-- Copy-on-write pointers at concrete values.
use ztsdb.Base.{ℕ, ◌≡◌, refl, false, some, [], ◌∷◌, arith}
use ztsdb.CowPtr.{Flags, Ptr, Heap, read, write}
use ztsdb.CowPtr.Isolation

abbrev no_flags : Flags
no_flags = record { ref = false; locked = false; constref = false; tmp = false; last = false }

-- Two pointers share the object 7.
abbrev shared : Heap ℕ
shared = record { objects = 7 ∷ []; counts = 2 ∷ [] }

abbrev pointer : Ptr
pointer = record { flags = no_flags; p = 0; count = 0 }

write-isolated_example :
    (w : Heap ℕ × Ptr) × (write shared pointer 9 ≡ some w)
    × (read w.0 w.1 ≡ some 9)
    × (read w.0 pointer ≡ read shared pointer)
write-isolated_example =
    Isolation.write-isolated shared pointer pointer 9 refl refl (omega arith) (omega arith) refl
