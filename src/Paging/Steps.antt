-- ===== src/Paging/Steps.antt =====
-- Taking a page, giving one back, finding a table, and mapping or unmapping one page of the user.
use ele3021_operating_system.Base.{
  ℕ, ◌<◌, ◌≡◌, ◌≢◌, refl, ap, subst, sym, ◌∙◌, ◌⊎◌, inl, inr, List, [], ◌∷◌, none, some, All,
  All-map, IsNodup, update,
}
use ele3021_operating_system.Kalloc.Pages.{IsPage, kalloc_lem, kfree_page}
use ele3021_operating_system.Paging.{Mem, take_page, free_page}
use ele3021_operating_system.Paging.Space.{
  Role, free, other, entry, user_pages, IsSpace, role_ne, IsSpace-assign, scribble,
  IsSpace-scribble, entry-scribble,
}
use ele3021_operating_system.Paging.Entries.{eq_self, ne_eq}

-- The memory with another list of free pages.
abbrev pub with_free : List ℕ → Mem → Mem
with_free l m = record m { kmem = record m.kmem { freelist = l } }

module _ (m : Mem) (pgdir : ℕ) (role : ℕ → Role) (h : IsSpace m pgdir role) where
  -- The first free page loses its role when it is taken.
  IsSpace-take :
      (p : ℕ) (rest : List ℕ)
      → m.kmem.freelist ≡ p ∷ rest
      → IsSpace (with_free rest m) pgdir (update role p other)
        × (role p ≡ free)
        × IsPage m.kmem.end_addr p
  IsSpace-take p rest e =
      let (first, others) =
        subst (All (λ q. (role q ≡ free) × IsPage m.kmem.end_addr q)) e h.are_free in
      let (apart, nodup) = subst IsNodup e h.nodup in
      (
        record {
          is_dir = rw (role_ne role h.is_dir first.0 (λ z. cc)) h.is_dir;
          dir_page = h.dir_page;
          table_pages = h.table_pages;
          after_kernel = h.after_kernel;
          are_free = both rest apart others;
          nodup = nodup;
          tables =
              λ d lt pr. rw (role_ne role (h.tables d lt pr) first.0 (λ z. cc)) (h.tables d lt pr);
          users = λ k lt pr.
              let g = h.users k lt pr in (rw (role_ne role g.0 first.0 (λ z. cc)) g.0, g.1);
        },
        first.0,
        first.1,
      )
    where
      both :
          (l : List ℕ)
          → All (λ q. p ≢ q) l
          → All (λ q. (role q ≡ free) × IsPage m.kmem.end_addr q) l
          → All (λ q. (update role p other q ≡ free) × IsPage m.kmem.end_addr q) l
      both [] a b = tt
      both (q ∷ l) (ne, a) (g, b) = ((rw (ne_eq (λ z. ne (sym z))) g.0, g.1), both l a b)

  -- A page with no role goes to the free list.
  pub IsSpace-give :
      (p : ℕ)
      → role p ≡ other
      → IsPage m.kmem.end_addr p
      → (free_page p m ≡ some (with_free (p ∷ m.kmem.freelist) m))
        × IsSpace (with_free (p ∷ m.kmem.freelist) m) pgdir (update role p free)
  IsSpace-give p e page =
      let g = IsSpace-assign m pgdir role p free h e in
      (
        rw (kfree_page p m.kmem page) refl,
        record {
          is_dir = g.is_dir;
          dir_page = g.dir_page;
          table_pages = g.table_pages;
          after_kernel = g.after_kernel;
          are_free = ((rw (eq_self p) refl, page), g.are_free);
          nodup = (
            All-map _ _ (λ q f z. let y : free ≡ other = sym f.0 ∙ ap role (sym z) ∙ e in cc) _
                h.are_free,
            g.nodup,
          );
          tables = g.tables;
          users = g.users;
        },
      )

  -- `kalloc` with the page cleared: a page of its own that no entry reaches, or nothing.
  pub take_cleared :
      (f : ℕ → ℕ)
      → ((take_page m ≡ (none, m)) × (m.kmem.freelist ≡ []))
        ⊎ ((p : ℕ) × (rest : List ℕ) × (take_page m ≡ (some p, with_free rest m))
            × IsSpace (scribble p f (with_free rest m)) pgdir (update role p other)
            × ((k : ℕ)
                → k < user_pages
                → entry (scribble p f (with_free rest m)) pgdir k ≡ entry m pgdir k)
            × (role p ≡ free)
            × IsPage m.kmem.end_addr p
            × (m.kmem.freelist ≡ p ∷ rest))
  unfolding take_page
  take_cleared f = elim (kalloc_lem m.kmem) [
    | inl (e, none_left) ↦ inl (rw none_left refl, e)
    | inr (p, rest, e, taken) ↦
        let (g, was_free, page) = IsSpace-take p rest e in
        let z : update role p other p ≡ other = rw (eq_self p) refl in
        inr (
          p,
          rest,
          rw taken refl,
          IsSpace-scribble _ pgdir _ g p f z,
          entry-scribble _ pgdir _ g p f z,
          was_free,
          page,
          e,
        )
  ]
