-- ===== src/Kalloc.antt =====
-- xv6-public/kalloc.c: the free list of pages. The junk that `kfree` writes into a page is not
-- modelled: a page is its address. `use_lock` only says whether the lock is taken.
pub mod Pages
mod Tests
use ele3021_operating_system.Base.{
  ℕ, zero, suc, ◌+◌, ◌-◌, ◌*◌, ◌/◌, ◌%◌, ◌^◌, Bool, true, false, ◌||◌, List, [], ◌∷◌, Option, none,
  some, ltb, leb, ◌==◌, ◌>>=◌, if◌then◌else◌, not,
}

abbrev pub page_size : ℕ
page_size = 4096

-- KERNBASE and PHYSTOP of xv6-public/memlayout.h.
abbrev pub kern_base : ℕ
kern_base = 0x80000000

abbrev pub phys_top : ℕ
phys_top = 0xE000000

-- `kmem`, with the address `end` that the linker gives.
pub record Kmem : Type 0 where
  pub end_addr : ℕ
  pub use_lock : Bool
  pub freelist : List ℕ

-- `V2P(v)`, on `uint`.
abbrev pub v2p : ℕ → ℕ
v2p v = (v + 2 ^ 32 - kern_base) % 2 ^ 32

-- The test of `kfree`.
abbrev pub is_bad_page : ℕ → Kmem → Bool
is_bad_page v m = not (v % page_size == 0) || ltb v m.end_addr || leb phys_top (v2p v)

-- `kfree(v)`; `none` is the panic.
unfoldable pub kfree : ℕ → Kmem → Option Kmem
kfree v m = if is_bad_page v m then none else some (record m { freelist = v ∷ m.freelist })

-- `kalloc()`; `none` is the null pointer.
unfoldable pub kalloc : Kmem → Option ℕ × Kmem
kalloc m = elim m.freelist [ [] ↦ (none, m) | r ∷ rest ↦ (some r, record m { freelist = rest }) ]

-- PGROUNDUP
abbrev pub page_round_up : ℕ → ℕ
page_round_up sz = (sz + page_size - 1) / page_size * page_size

-- The loop of `freerange`, with as many rounds as there are pages.
pub free_pages : ℕ → ℕ → Kmem → Option Kmem
free_pages zero p m = some m
free_pages (suc k) p m = kfree p m >>= λ m'. free_pages k (p + page_size) m'

pub freerange : ℕ → ℕ → Kmem → Option Kmem
freerange vstart vend m = let p = page_round_up vstart in free_pages ((vend - p) / page_size) p m

pub kinit1 : ℕ → ℕ → Kmem → Option Kmem
kinit1 vstart vend m = freerange vstart vend (record m { use_lock = false })

pub kinit2 : ℕ → ℕ → Kmem → Option Kmem
kinit2 vstart vend m = freerange vstart vend m >>= λ m'. some (record m' { use_lock = true })
