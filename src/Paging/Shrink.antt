-- ===== src/Paging/Shrink.antt =====
-- Shrinking an address space: `deallocuvm`.
use ele3021_operating_system.Base.{
  ℕ, ◌+◌, ◌-◌, ◌*◌, ◌/◌, ◌%◌, ◌^◌, ◌≤◌, ◌<◌, ◌≡◌, refl, false, some, arith, leb,
}
use ele3021_operating_system.Kalloc.{page_size, kern_base, page_round_up}
use ele3021_operating_system.Paging.{Mem, unmap_from, deallocuvm}
use ele3021_operating_system.Paging.Space.{Role, IsSpace}
use ele3021_operating_system.Paging.Unmap.{IsUnmapped, unmap_from_lem}

-- How many pages a size takes.
abbrev pub page_count : ℕ → ℕ
page_count sz = (sz + page_size - 1) / page_size

deallocuvm_round :
    (m m' : Mem) (pgdir oldsz newsz : ℕ)
    → oldsz ≤ kern_base
    → newsz < oldsz
    → unmap_from (oldsz / page_size + 1) pgdir (page_count newsz * page_size) oldsz m ≡ some m'
    → deallocuvm pgdir oldsz newsz m ≡ some (newsz, m')
unfolding deallocuvm
deallocuvm_round m m' pgdir oldsz newsz top lt e =
    let less : leb oldsz newsz ≡ false = ground arith in
    let start : page_round_up newsz % 2 ^ 32 ≡ page_count newsz * page_size = omega arith in
    rw (less, start, e) refl

-- In a memory where every page of the address space has its own role (`IsSpace`), `deallocuvm` to a
-- smaller size, from one of at most KERNBASE, does not panic and answers the new size. Afterwards no
-- page of the user from the new size rounded up to the old one is mapped, all other entries of the
-- user's part are as before, exactly the pages of memory that stood behind the former ones have come
-- to the front of the free list, the last one first, and `IsSpace` holds.
pub deallocuvm_lem :
    (m : Mem) (pgdir : ℕ) (role : ℕ → Role) (oldsz newsz : ℕ)
    → IsSpace m pgdir role
    → oldsz ≤ kern_base
    → newsz < oldsz
    → (m' : Mem) × (deallocuvm pgdir oldsz newsz m ≡ some (newsz, m'))
      × IsUnmapped m m' pgdir (page_count newsz) (page_count oldsz - page_count newsz) role
deallocuvm_lem m pgdir role oldsz newsz h top lt =
    let (m', unmapped, u) =
      unmap_from_lem pgdir oldsz (oldsz / page_size + 1) (page_count oldsz - page_count newsz)
        (page_count newsz) m role h (omega arith) (omega arith) (omega arith) (λ z. omega arith) in
    (m', deallocuvm_round m m' pgdir oldsz newsz top lt unmapped, u)
