-- ===== src/Paging/Tests.antt =====
-- A memory with a directory, one table and one user page, run through the theorems.
use ele3021_operating_system.Base.{
  ℕ, ◌-◌, ◌*◌, ◌/◌, ◌%◌, ℕ_discrete, ◌≤◌, ◌<◌, ◌≡◌, refl, ◌⊎◌, true, false, [], ◌∷◌, ◌++◌, IsNodup,
  none, some, arith, ◌==◌, if◌then◌else◌, length, update,
}
use ele3021_operating_system.Kalloc.Pages.{IsPage}
use ele3021_operating_system.Paging.{Mem, present, deallocuvm, allocuvm, freevm}
use ele3021_operating_system.Paging.Space.{
  Role, free, dir, table, user, other, entry, user_pages, IsSpace,
}
use ele3021_operating_system.Paging.Entries.{ne_eq}
use ele3021_operating_system.Paging.Shrink.{page_count, deallocuvm_lem}
use ele3021_operating_system.Paging.Unmap.{IsUnmapped, pages_behind}
use ele3021_operating_system.Paging.Free.{tables_behind, freevm_lem}
use ele3021_operating_system.Paging.Grow.{allocuvm_lem}
use ele3021_operating_system.Paging.Rounds.{IsGrown, IsRestored}

abbrev dir_page : ℕ
dir_page = 0x80200000

abbrev table_page : ℕ
table_page = 0x80201000

abbrev user_page : ℕ
user_page = 0x80202000

abbrev small_mem : Mem
small_mem = record {
  kmem = record { end_addr = 0x80100000; use_lock = true; freelist = 0x80203000 ∷ 0x80204000 ∷ [] };
  words = λ p i.
      if p == dir_page
      then (if i == 0 then 0x00201007 else 0)
      else (if p == table_page then (if i == 1 then 0x00202007 else 0) else 0);
}

abbrev small_role : ℕ → Role
small_role =
    update
      (update
        (update (update (update (λ p. other) dir_page dir) table_page (table 0)) user_page (user 1))
        0x80203000 free)
      0x80204000 free

is_page : (v : ℕ) → (0x80200000 ≤ v) × (v ≤ 0x80204000) × (v % 4096 ≡ 0) → IsPage 0x80100000 v
is_page v h =
    let a = h.0 in
    let b = h.1 in
    let c = h.2 in
    record { aligned = c; above = omega arith; in_kernel = omega arith; below = omega arith }

only_table : (d : ℕ) → present (small_mem.words dir_page d) ≡ true → d ≡ 0
only_table d pr = elim (ℕ_discrete d 0) [
  | yes e ↦ e
  | no ne ↦ absurd (let z : false ≡ true = rw (ne_eq ne) at pr in cc)
]

only_page : (k : ℕ) → k < user_pages → present (entry small_mem dir_page k) ≡ true → k ≡ 1
only_page k lt pr = elim (ℕ_discrete (k / 1024) 0) [
  | no ne ↦ absurd (let z : false ≡ true = rw (ne_eq ne) at pr in cc)
  | yes e ↦ elim (ℕ_discrete (k % 1024) 1) [
    | no ne ↦ absurd (let z : false ≡ true = rw (e, ne_eq ne) at pr in cc)
    | yes y ↦ omega arith
  ]
]

small_IsSpace : IsSpace small_mem dir_page small_role
small_IsSpace = record {
  is_dir = refl;
  dir_page = is_page _ (omega arith, omega arith, refl);
  table_pages = λ d lt pr. rw (only_table d pr) (is_page _ (omega arith, omega arith, refl));
  after_kernel = omega arith;
  are_free = (
    (refl, is_page _ (omega arith, omega arith, refl)),
    ((refl, is_page _ (omega arith, omega arith, refl)), tt),
  );
  nodup = (((λ z. omega arith), tt), (tt, tt));
  tables = λ d lt pr. rw (only_table d pr) refl;
  users = λ k lt pr. rw (only_page k lt pr) (refl, is_page _ (omega arith, omega arith, refl));
}

deallocuvm_lem_example :
    (m' : Mem) × (deallocuvm dir_page 8192 100 small_mem ≡ some (100, m'))
    × IsUnmapped small_mem m' dir_page
        (page_count 100)
        (page_count 8192 - page_count 100)
        small_role
deallocuvm_lem_example =
    deallocuvm_lem small_mem dir_page small_role 8192 100 small_IsSpace (omega arith) (omega arith)

-- One page more, for which there is room.
nothing_there :
    (j : ℕ)
    → page_count 8192 ≤ j
    → j < page_count 9000
    → present (entry small_mem dir_page j) ≡ false
nothing_there j lo hi = let z : j ≡ 2 = omega arith in rw z refl

allocuvm_lem_example :
    ((m' : Mem) × (allocuvm dir_page 8192 9000 small_mem ≡ some (some 9000, m'))
      × IsGrown small_mem m' dir_page (page_count 8192) (page_count 9000))
    ⊎ ((m' : Mem) × (allocuvm dir_page 8192 9000 small_mem ≡ some (none, m'))
        × IsRestored small_mem m' dir_page (page_count 8192) (page_count 9000)
        × (length small_mem.kmem.freelist < 2 * (page_count 9000 - page_count 8192)))
allocuvm_lem_example =
    allocuvm_lem small_mem dir_page small_role 8192 9000 small_IsSpace (omega arith) (omega arith)
      nothing_there

freevm_lem_example :
    (m' : Mem) × (freevm dir_page small_mem ≡ some m')
    × (m'.kmem.freelist
        ≡ dir_page
          ∷ (tables_behind 1024 (small_mem.words dir_page)
              ++ (pages_behind user_pages 0 small_mem dir_page ++ small_mem.kmem.freelist)))
    × IsNodup m'.kmem.freelist
freevm_lem_example = freevm_lem small_mem dir_page small_role small_IsSpace
