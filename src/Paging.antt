-- ===== src/Paging.antt =====
-- xv6-public/vm.c: page directories and page tables. A page of memory is named by its kernel address,
-- and holds 1024 words; `words p i` is the `i`th word of the page `p`. Numbers are `uint`.
--
-- `data`, the end of the kernel's code, is given by the linker and an argument here.
pub mod Space
pub mod Entries
pub mod Steps
pub mod Walk
pub mod Change
pub mod Unmap
pub mod Shrink
pub mod Rounds
pub mod Grow
pub mod Free
mod Tests
use ele3021_operating_system.Base.{
  ℕ, zero, suc, ◌+◌, ◌-◌, ◌*◌, ◌/◌, ◌%◌, ◌^◌, Bool, true, false, not, ◌&&◌, List, [], ◌∷◌, Option,
  none, some, ◌>>=◌, ltb, leb, ◌==◌, if◌then◌else◌, update,
}
use ele3021_operating_system.Base.Loops.{try_sweep}
use ele3021_operating_system.Kalloc.{
  Kmem, kalloc, kfree, page_size, kern_base, phys_top, v2p, page_round_up,
}

pub record Mem : Type 0 where
  pub kmem : Kmem
  pub words : ℕ → ℕ → ℕ

-- `P2V(a)`
abbrev pub p2v : ℕ → ℕ
p2v a = (a + kern_base) % 2 ^ 32

-- PDX and PTX
abbrev pub pdx : ℕ → ℕ
pdx va = va / 2 ^ 22 % 1024

abbrev pub ptx : ℕ → ℕ
ptx va = va / 2 ^ 12 % 1024

-- PTE_P, PTE_W and PTE_U
abbrev pub pte_p : ℕ
pte_p = 1

abbrev pub pte_w : ℕ
pte_w = 2

abbrev pub pte_u : ℕ
pte_u = 4

-- `pte & PTE_P`
abbrev pub present : ℕ → Bool
present pte = pte % 2 == 1

-- `pte & PTE_U`
abbrev pub is_user : ℕ → Bool
is_user pte = pte / 4 % 2 == 1

-- PTE_ADDR and PTE_FLAGS
abbrev pub pte_addr : ℕ → ℕ
pte_addr pte = pte - pte % page_size

abbrev pub pte_flags : ℕ → ℕ
pte_flags pte = pte % page_size

-- `perm | PTE_P`
abbrev pub with_p : ℕ → ℕ
with_p perm = if present perm then perm else perm + pte_p

-- The page that an entry points to.
abbrev pub page_of : ℕ → ℕ
page_of pte = p2v (pte_addr pte)

abbrev pub put_word : ℕ → ℕ → ℕ → Mem → Mem
put_word p i w m = record m { words = update m.words p (update (m.words p) i w) }

-- `memset(p, 0, PGSIZE)`
abbrev pub clear_page : ℕ → Mem → Mem
clear_page p m = record m { words = update m.words p (λ i. 0) }

-- `kalloc()` and `kfree(v)`, in memory.
unfoldable pub take_page : Mem → Option ℕ × Mem
take_page m = let (page, kmem) = kalloc m.kmem in (page, record m { kmem = kmem })

abbrev pub free_page : ℕ → Mem → Option Mem
free_page v m = kfree v m.kmem >>= λ kmem. some (record m { kmem = kmem })

-- `walkpgdir`, for an entry of the directory that is not present, with the page for the new table.
unfoldable pub new_table : ℕ → ℕ → Option ℕ × Mem → Option ℕ × Mem
new_table pgdir d (none, m) = (none, m)
new_table pgdir d (some t, m) =
    (some t, put_word pgdir d (v2p t + (pte_p + pte_w + pte_u)) (clear_page t m))

-- `walkpgdir(pgdir, va, alloc)`: the page table; the entry is its word `ptx va`.
unfoldable pub walkpgdir : ℕ → ℕ → Bool → Mem → Option ℕ × Mem
walkpgdir pgdir va alloc m =
    if present (m.words pgdir (pdx va))
    then (some (page_of (m.words pgdir (pdx va))), m)
    else (if alloc then new_table pgdir (pdx va) (take_page m) else (none, m))

-- A round of `mappages`, once `walkpgdir` has answered: `none` is the panic, `false` is -1.
unfoldable pub set_pte : ℕ → ℕ → ℕ → Option ℕ × Mem → Option (Bool × Mem)
set_pte va pa perm (none, m) = some (false, m)
set_pte va pa perm (some t, m) =
    if present (m.words t (ptx va))
    then none
    else some (true, put_word t (ptx va) (pa + with_p perm) m)

unfoldable pub map_page : ℕ → ℕ → ℕ → ℕ → Mem → Option (Bool × Mem)
map_page pgdir va pa perm m = set_pte va pa perm (walkpgdir pgdir va true m)

-- The rounds of `mappages`, for `n` pages from `a` on.
unfoldable pub map_pages : ℕ → ℕ → ℕ → ℕ → ℕ → Mem → Option (Bool × Mem)
map_pages zero pgdir a pa perm m = some (true, m)
map_pages (suc n) pgdir a pa perm m = map_page pgdir a pa perm m >>= λ r. elim r.0 [
  | false ↦ some (false, r.1)
  | true ↦ map_pages n pgdir ((a + page_size) % 2 ^ 32) ((pa + page_size) % 2 ^ 32) perm r.1
]

-- PGROUNDDOWN
abbrev pub page_round_down : ℕ → ℕ
page_round_down a = a - a % page_size

-- `mappages(pgdir, va, size, pa, perm)`: it goes from page to page until it has done the last.
unfoldable pub mappages : ℕ → ℕ → ℕ → ℕ → ℕ → Mem → Option (Bool × Mem)
mappages pgdir va size pa perm m =
    let a = page_round_down va in
    let last = page_round_down ((va + size + 2 ^ 32 - 1) % 2 ^ 32) in
    map_pages ((last + 2 ^ 32 - a) % 2 ^ 32 / page_size + 1) pgdir a pa perm m

-- The body of the loop of `deallocuvm` for a present entry, the `i`th of the table `t`.
unfoldable pub unmap_page : ℕ → ℕ → Mem → Option Mem
unmap_page t i m =
    if present (m.words t i)
    then (if pte_addr (m.words t i) == 0
        then none
        else (free_page (page_of (m.words t i)) m >>= λ m'. some (put_word t i 0 m')))
    else some m

-- The loop of `deallocuvm` from `a` on. Each round goes on by a page at least.
unfoldable pub unmap_from : ℕ → ℕ → ℕ → ℕ → Mem → Option Mem
unmap_from zero pgdir a oldsz m = some m
unmap_from (suc fuel) pgdir a oldsz m = elim (ltb a oldsz) [
  | false ↦ some m
  | true ↦ elim (walkpgdir pgdir a false m).0 [
    | none ↦ unmap_from fuel pgdir ((pdx a + 1) * 2 ^ 22 % 2 ^ 32) oldsz m
    | some t ↦
        unmap_page t (ptx a) m >>= λ m'. unmap_from fuel pgdir ((a + page_size) % 2 ^ 32) oldsz m'
  ]
]

-- `deallocuvm(pgdir, oldsz, newsz)`; `none` is a panic.
unfoldable pub deallocuvm : ℕ → ℕ → ℕ → Mem → Option (ℕ × Mem)
deallocuvm pgdir oldsz newsz m =
    if leb oldsz newsz
    then some (oldsz, m)
    else (unmap_from (oldsz / page_size + 1) pgdir (page_round_up newsz % 2 ^ 32) oldsz m >>= λ m'.
        some (newsz, m'))

-- What `allocuvm` does when a page is missing: it gives up what it has taken.
abbrev pub give_up : ℕ → ℕ → ℕ → Mem → Option Mem
give_up pgdir oldsz newsz m = deallocuvm pgdir newsz oldsz m >>= λ r. some r.1

-- The body of the loop of `allocuvm`, with what `kalloc` gave; `false` when it returns 0.
unfoldable pub add_page : ℕ → ℕ → ℕ → ℕ → Option ℕ × Mem → Option (Bool × Mem)
add_page pgdir a oldsz newsz (none, m) = give_up pgdir oldsz newsz m >>= λ m'. some (false, m')
add_page pgdir a oldsz newsz (some mem, m) =
    mappages pgdir a page_size (v2p mem) (pte_w + pte_u) (clear_page mem m) >>= λ r. elim r.0 [
      | true ↦ some (true, r.1)
      | false ↦ give_up pgdir oldsz newsz r.1 >>= λ q. free_page mem q >>= λ m'. some (false, m')
    ]

-- The loop of `allocuvm`, with `n` rounds left, from `a` on.
unfoldable pub alloc_from : ℕ → ℕ → ℕ → ℕ → ℕ → Mem → Option (Option ℕ × Mem)
alloc_from zero pgdir a oldsz newsz m = some (some newsz, m)
alloc_from (suc n) pgdir a oldsz newsz m = add_page pgdir a oldsz newsz (take_page m) >>= λ r.
    elim r.0 [
      | false ↦ some (none, r.1)
      | true ↦ alloc_from n pgdir ((a + page_size) % 2 ^ 32) oldsz newsz r.1
    ]

-- `allocuvm(pgdir, oldsz, newsz)`: the new size, or `none` for 0; the outer `none` is a panic.
unfoldable pub allocuvm : ℕ → ℕ → ℕ → Mem → Option (Option ℕ × Mem)
allocuvm pgdir oldsz newsz m =
    if leb kern_base newsz
    then some (none, m)
    else (if ltb newsz oldsz
        then some (some oldsz, m)
        else alloc_from ((page_round_up newsz - page_round_up oldsz) / page_size) pgdir
            (page_round_up oldsz) oldsz newsz m)

-- The body of the loop of `freevm`.
unfoldable pub free_table : ℕ → ℕ → Mem → Option Mem
free_table pgdir i m =
    if present (m.words pgdir i) then free_page (page_of (m.words pgdir i)) m else some m

-- `freevm(pgdir)`; `none` is a panic.
unfoldable pub freevm : ℕ → Mem → Option Mem
freevm pgdir m =
    if pgdir == 0
    then none
    else (deallocuvm pgdir kern_base 0 m >>= λ r.
        try_sweep (free_table pgdir) 1024 r.1 >>= λ m'. free_page pgdir m')
