-- ===== src/Paging/Free.antt =====
-- Freeing an address space: `freevm`.
use ele3021_operating_system.Base.{
  ℕ, zero, suc, ◌-◌, ◌<◌, ◌≡◌, ◌≢◌, refl, ap, sym, ◌∙◌, ◌⊎◌, inl, inr, false, List, [], ◌∷◌, ◌++◌,
  some, arith, Bool-cases, if◌then◌else◌, ◌>>=◌, ◌==◌, All, All-map, IsNodup,
}
use ele3021_operating_system.Base.Loops.{try_sweep, try_sweep_total}
use ele3021_operating_system.Kalloc.{kern_base}
use ele3021_operating_system.Kalloc.Pages.{kfree_page}
use ele3021_operating_system.Paging.{Mem, present, page_of, free_page, free_table, freevm}
use ele3021_operating_system.Paging.Space.{Role, free, dir, table, user_pages, IsSpace}
use ele3021_operating_system.Paging.Steps.{with_free}
use ele3021_operating_system.Paging.Unmap.{IsUnmapped, pages_behind}
use ele3021_operating_system.Paging.Shrink.{page_count, deallocuvm_lem}

-- The page tables that the first `n` entries of the directory point to, the last one first.
unfoldable pub tables_behind : ℕ → (ℕ → ℕ) → List ℕ
tables_behind zero words = []
tables_behind (suc n) words =
    if present (words n) then page_of (words n) ∷ tables_behind n words else tables_behind n words

tables_behind_same :
    (n : ℕ) (w v : ℕ → ℕ) → ((i : ℕ) → w i ≡ v i) → tables_behind n w ≡ tables_behind n v
unfolding tables_behind
tables_behind_same zero w v same = refl
tables_behind_same (suc n) w v same = rw (same n, tables_behind_same n w v same) refl

module _ (m : Mem) (pgdir : ℕ) (role : ℕ → Role) (h : IsSpace m pgdir role) where
  -- A page that was free, or one of the first `n` tables.
  abbrev IsFreed : ℕ → ℕ → Type 0
  IsFreed n p = (role p ≡ free) ⊎ ((d : ℕ) × (d < n) × (role p ≡ table d))

  -- What the loop has done after `n` rounds.
  Freed : ℕ → Mem → Type 0
  Freed n m' =
      (m' ≡ with_free (tables_behind n (m.words pgdir) ++ m.kmem.freelist) m)
      × All (IsFreed n) (tables_behind n (m.words pgdir) ++ m.kmem.freelist)
      × IsNodup (tables_behind n (m.words pgdir) ++ m.kmem.freelist)

  later : (n p : ℕ) → IsFreed n p → IsFreed (suc n) p
  later n p (inl e) = inl e
  later n p (inr (d, lt, e)) = inr (d, omega arith, e)

  free_round :
      (n : ℕ) (a : Mem)
      → n < 1024
      → Freed n a
      → (b : Mem) × (free_table pgdir n a ≡ some b) × Freed (suc n) b
  unfolding Freed free_table tables_behind
  free_round n a lt (is_a, freed, nodup) = elim (Bool-cases (present (m.words pgdir n))) [
    | inr e ↦ (a, rw (is_a, e) refl, rw e (is_a, All-map _ _ (later n) _ freed, nodup))
    | inl e ↦
        let p = page_of (m.words pgdir n) in
        let before : Mem = with_free (tables_behind n (m.words pgdir) ++ m.kmem.freelist) m in
        let is_table : role p ≡ table n = h.tables n lt e in
        (
          with_free (p ∷ a.kmem.freelist) a,
          rw (is_a, e, kfree_page p before.kmem (h.table_pages n lt e)) refl,
          rw e (
            rw is_a refl,
            (inr (n, omega arith, is_table), All-map _ _ (later n) _ freed),
            (All-map _ _ (λ q f z. new_table n q f (ap role (sym z) ∙ is_table)) _ freed, nodup),
          ),
        )
  ]
    where
      new_table : (n q : ℕ) → IsFreed n q → role q ≢ table n
      new_table n q (inl e) z = let y : free ≡ table n = sym e ∙ z in cc
      new_table n q (inr (d, lt, e)) z = let y : d ≡ n = table_eq (sym e ∙ z) in omega arith
        where
          table_eq : {a b : ℕ} → table a ≡ table b → a ≡ b
          table_eq x = cc

  Freed-start : Freed 0 m
  unfolding Freed tables_behind
  Freed-start = (refl, All-map _ _ (λ p g. inl g.0) _ h.are_free, h.nodup)

  -- The loop and the directory itself.
  free_rest :
      (m' : Mem) × ((try_sweep (free_table pgdir) 1024 m >>= λ a. free_page pgdir a) ≡ some m')
      × (m'.kmem.freelist ≡ pgdir ∷ (tables_behind 1024 (m.words pgdir) ++ m.kmem.freelist))
      × IsNodup m'.kmem.freelist
  unfolding Freed
  free_rest =
      let before : Mem = with_free (tables_behind 1024 (m.words pgdir) ++ m.kmem.freelist) m in
      let (a, swept, (is_a, freed, nodup)) =
        try_sweep_total (free_table pgdir) Freed 1024 free_round m Freed-start 1024 (omega arith) in
      (
        with_free (pgdir ∷ a.kmem.freelist) a,
        rw (swept, is_a, kfree_page pgdir before.kmem h.dir_page) refl,
        rw is_a refl,
        rw is_a (All-map _ _ (λ q f z. not_dir q f (ap role (sym z) ∙ h.is_dir)) _ freed, nodup),
      )
    where
      not_dir : (q : ℕ) → IsFreed 1024 q → role q ≢ dir
      not_dir q (inl e) z = let y : free ≡ dir = sym e ∙ z in cc
      not_dir q (inr (d, lt, e)) z = let y : table d ≡ dir = sym e ∙ z in cc

-- In a memory where every page of the address space has its own role (`IsSpace`), `freevm` does not
-- panic. The free list begins with the directory, the pages of all its tables and all pages of memory
-- behind the entries of the user's part, the last of each first, and goes on as before; no page is in it
-- twice, so that each is freed exactly once.
pub freevm_lem :
    (m : Mem) (pgdir : ℕ) (role : ℕ → Role)
    → IsSpace m pgdir role
    → (m' : Mem) × (freevm pgdir m ≡ some m')
      × (m'.kmem.freelist
          ≡ pgdir
            ∷ (tables_behind 1024 (m.words pgdir)
                ++ (pages_behind user_pages 0 m pgdir ++ m.kmem.freelist)))
      × IsNodup m'.kmem.freelist
unfolding freevm
freevm_lem m pgdir role h =
    let (mid, unmapped, u) =
      deallocuvm_lem m pgdir role kern_base 0 h (omega arith) (omega arith) in
    let (m', rest, freelist, nodup) = free_rest mid pgdir u.role u.space in
    (m', rw (not_null, unmapped) rest, freelist ∙ ap (λ l. pgdir ∷ l) (lists mid u), nodup)
  where
    not_null : (pgdir == 0) ≡ false
    not_null = let a = h.dir_page.in_kernel in ground arith

    lists :
        (mid : Mem)
        (u : IsUnmapped m mid pgdir (page_count 0) (page_count kern_base - page_count 0) role)
        → tables_behind 1024 (mid.words pgdir) ++ mid.kmem.freelist
          ≡ tables_behind 1024 (m.words pgdir)
            ++ (pages_behind user_pages 0 m pgdir ++ m.kmem.freelist)
    lists mid u =
        let same = tables_behind_same 1024 (mid.words pgdir) (m.words pgdir) u.dir_same in
        rw same (ap (λ l. tables_behind 1024 (m.words pgdir) ++ l) u.freelist)
