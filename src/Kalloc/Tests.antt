-- ===== src/Kalloc/Tests.antt =====
-- The page allocator's theorems at a small memory.
use ele3021_operating_system.Base.{true, [], ◌∷◌}
use ele3021_operating_system.Kalloc.{Kmem}

abbrev memory : Kmem
memory = record { end_addr = 0x80100000; use_lock = true; freelist = 0x80400000 ∷ 0x80500000 ∷ [] }
