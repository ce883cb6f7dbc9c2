-- ===== src/Paging/Space.antt =====
-- Which page of memory is what, for an address space of xv6-public/vm.c.
use ele3021_operating_system.Base.{
  ℕ, ◌/◌, ◌%◌, ◌^◌, ◌<◌, ◌≡◌, ◌≢◌, refl, ap, sym, ◌∙◌, inl, inr, true, false, ◌==◌, ==_iff, arith,
  Bool-cases, All, All-map, IsNodup, update, if◌then◌else◌,
}
use ele3021_operating_system.Kalloc.{kern_base}
use ele3021_operating_system.Kalloc.Pages.{IsPage}
use ele3021_operating_system.Paging.{Mem, present, page_of}

-- A page is free, the directory, the table of the entries from 1024 * d on, the memory behind the
-- user's page k, or none of these.
pub data Role : Type 0 where
  free : Role
  dir : Role
  table : ℕ → Role
  user : ℕ → Role
  other : Role

-- The entry for the page `k` of the address space; 0 when there is no table for it.
abbrev pub entry : Mem → ℕ → ℕ → ℕ
entry m pgdir k =
    if present (m.words pgdir (k / 1024))
    then m.words (page_of (m.words pgdir (k / 1024))) (k % 1024)
    else 0

-- The user's pages: those below KERNBASE.
abbrev pub user_pages : ℕ
user_pages = 2 ^ 19

-- Every page that the directory reaches has its own role, and the free pages have theirs: no page
-- is in two places.
pub record IsSpace (m : Mem) (pgdir : ℕ) (role : ℕ → Role) : Type 0 where
  pub is_dir : role pgdir ≡ dir
  pub dir_page : IsPage m.kmem.end_addr pgdir
  pub table_pages :
      (d : ℕ)
      → d < 1024
      → present (m.words pgdir d) ≡ true
      → IsPage m.kmem.end_addr (page_of (m.words pgdir d))
  pub after_kernel : kern_base < m.kmem.end_addr
  pub are_free : All (λ p. (role p ≡ free) × IsPage m.kmem.end_addr p) m.kmem.freelist
  pub nodup : IsNodup m.kmem.freelist
  pub tables :
      (d : ℕ)
      → d < 1024
      → present (m.words pgdir d) ≡ true
      → role (page_of (m.words pgdir d)) ≡ table d
  pub users :
      (k : ℕ)
      → k < user_pages
      → present (entry m pgdir k) ≡ true
      → (role (page_of (entry m pgdir k)) ≡ user k)
        × IsPage m.kmem.end_addr (page_of (entry m pgdir k))

pub role_ne :
    (role : ℕ → Role) {p q : ℕ} {r s : Role} → role p ≡ r → role q ≡ s → r ≢ s → (p == q) ≡ false
role_ne role {p} {q} h k ne = elim (Bool-cases (p == q)) [
  | inr e ↦ e
  | inl e ↦ absurd (ne (sym h ∙ ap role ((==_iff p q).0 e) ∙ k))
]

-- A page with no role may get one.
pub IsSpace-assign :
    (m : Mem) (pgdir : ℕ) (role : ℕ → Role) (p : ℕ) (r : Role)
    → IsSpace m pgdir role
    → role p ≡ other
    → IsSpace m pgdir (update role p r)
IsSpace-assign m pgdir role p r h e = record {
  is_dir = rw (role_ne role h.is_dir e (λ z. cc)) h.is_dir;
  dir_page = h.dir_page;
  table_pages = h.table_pages;
  after_kernel = h.after_kernel;
  are_free = All-map _ _ (λ q g. (rw (role_ne role g.0 e (λ z. cc)) g.0, g.1)) _ h.are_free;
  nodup = h.nodup;
  tables = λ d lt pr. rw (role_ne role (h.tables d lt pr) e (λ z. cc)) (h.tables d lt pr);
  users = λ k lt pr. let g = h.users k lt pr in (rw (role_ne role g.0 e (λ z. cc)) g.0, g.1);
}

-- The memory with the words of one page changed.
abbrev pub scribble : ℕ → (ℕ → ℕ) → Mem → Mem
scribble p f m = record m { words = update m.words p f }

module _ (m : Mem) (pgdir : ℕ) (role : ℕ → Role) (h : IsSpace m pgdir role) (p : ℕ) (f : ℕ → ℕ)
    (e : role p ≡ other) where
  dir_words : (i : ℕ) → (scribble p f m).words pgdir i ≡ m.words pgdir i
  dir_words i = rw (role_ne role h.is_dir e (λ z. cc)) refl

  -- Writing into a page with no role changes no entry.
  pub entry-scribble : (k : ℕ) → k < user_pages → entry (scribble p f m) pgdir k ≡ entry m pgdir k
  entry-scribble k lt = elim (Bool-cases (present (m.words pgdir (k / 1024)))) [
    | inr z ↦ rw (dir_words (k / 1024), z) refl
    | inl z ↦
        rw (dir_words (k / 1024), z, role_ne role (h.tables (k / 1024) (omega arith) z) e (λ y. cc))
          refl
  ]

  pub IsSpace-scribble : IsSpace (scribble p f m) pgdir role
  IsSpace-scribble = record {
    is_dir = h.is_dir;
    dir_page = h.dir_page;
    table_pages = λ d lt. rw (dir_words d) (h.table_pages d lt);
    after_kernel = h.after_kernel;
    are_free = h.are_free;
    nodup = h.nodup;
    tables = λ d lt. rw (dir_words d) (h.tables d lt);
    users = λ k lt. rw (entry-scribble k lt) (h.users k lt);
  }
