-- ===== src/Paging/Entries.antt =====
-- The entries of an address space once an entry of a table or of the directory is written.
use ele3021_operating_system.Base.{
  ℕ, ◌+◌, ◌/◌, ◌%◌, ◌<◌, ◌≡◌, ◌≢◌, refl, sym, ◌∙◌, inl, inr, true, false, ◌==◌, ==_iff, arith,
  Bool-cases, All-map, update, ℕ_discrete,
}
use ele3021_operating_system.Kalloc.{page_size, v2p}
use ele3021_operating_system.Kalloc.Pages.{IsPage}
use ele3021_operating_system.Paging.{Mem, present, page_of, put_word, pte_p, pte_w, pte_u}
use ele3021_operating_system.Paging.Space.{
  Role, table, user, other, entry, user_pages, IsSpace, role_ne, IsSpace-assign,
}

-- An entry made from a page's address and some flags.
pub page_of_entry :
    {end_addr p : ℕ} (f : ℕ) → IsPage end_addr p → f < page_size → page_of (v2p p + f) ≡ p
page_of_entry f h lt = let a = h.aligned in let b = h.in_kernel in let c = h.below in omega arith

pub present_entry : {end_addr p : ℕ} (f : ℕ) → IsPage end_addr p → present (v2p p + f) ≡ present f
present_entry {end_addr} {p} f h = let z : (v2p p + f) % 2 ≡ f % 2 = even in rw z refl
  where
    even : (v2p p + f) % 2 ≡ f % 2
    even = let a = h.aligned in let b = h.in_kernel in let c = h.below in omega arith

pub eq_self : (n : ℕ) → (n == n) ≡ true
eq_self n = (==_iff n n).1 refl

pub ne_eq : {a b : ℕ} → a ≢ b → (a == b) ≡ false
ne_eq ne = ground arith

module _ (m : Mem) (pgdir : ℕ) (role : ℕ → Role) (h : IsSpace m pgdir role) where
  -- A new table, all zeros, at an entry of the directory that has none.
  module _ (t d : ℕ) (page : IsPage m.kmem.end_addr t) (e : role t ≡ other)
      (absent : present (m.words pgdir d) ≡ false) (zeros : (i : ℕ) → m.words t i ≡ 0) where
    abbrev m₁ : Mem
    m₁ = put_word pgdir d (v2p t + (pte_p + pte_w + pte_u)) m

    pub entry-new_table : (k : ℕ) → k < user_pages → entry m₁ pgdir k ≡ entry m pgdir k
    entry-new_table k lt = elim (Bool-cases (k / 1024 == d)) [
      | inl z ↦
          rw
            (
              eq_self pgdir,
              z,
              present_entry 7 page,
              page_of_entry 7 page (omega arith),
              role_ne role e h.is_dir (λ y. cc),
              zeros,
              (==_iff _ _).0 z,
              absent,
            )
            refl
      | inr z ↦ elim (Bool-cases (present (m.words pgdir (k / 1024)))) [
        | inr y ↦ rw (eq_self pgdir, z, y) refl
        | inl y ↦
            rw
              (
                eq_self pgdir,
                z,
                y,
                role_ne role (h.tables (k / 1024) (omega arith) y) h.is_dir (λ x. cc),
              )
              refl
      ]
    ]

    new_tables :
        (i : ℕ)
        → i < 1024
        → present (m₁.words pgdir i) ≡ true
        → update role t (table d) (page_of (m₁.words pgdir i)) ≡ table i
    new_tables i lt = elim (Bool-cases (i == d)) [
      | inl z ↦
          rw (eq_self pgdir, z, page_of_entry 7 page (omega arith), eq_self t, (==_iff i d).0 z)
            (λ _. refl)
      | inr z ↦
          rw (eq_self pgdir, z)
            (λ y. rw (role_ne role (h.tables i lt y) e (λ x. cc)) (h.tables i lt y))
    ]

    pub IsSpace-new_table : IsSpace m₁ pgdir (update role t (table d))
    IsSpace-new_table =
        let g = IsSpace-assign m pgdir role t (table d) h e in
        record {
          is_dir = g.is_dir;
          dir_page = g.dir_page;
          table_pages = λ i lt. elim (Bool-cases (i == d)) [
            | inl z ↦ rw (eq_self pgdir, z) (λ _. rw (page_of_entry 7 page (omega arith)) page)
            | inr z ↦ rw (eq_self pgdir, z) (h.table_pages i lt)
          ];
          after_kernel = g.after_kernel;
          are_free = g.are_free;
          nodup = g.nodup;
          tables = new_tables;
          users = λ k lt. rw (entry-new_table k lt) (g.users k lt);
        }

  -- The word for the page `k` of the table that has it.
  module _ (k v : ℕ) (kt : k < user_pages) (there : present (m.words pgdir (k / 1024)) ≡ true) where
    abbrev m₂ : Mem
    m₂ = put_word (page_of (m.words pgdir (k / 1024))) (k % 1024) v m

    pub same_dir : (i : ℕ) → m₂.words pgdir i ≡ m.words pgdir i
    same_dir i = rw (role_ne role h.is_dir (h.tables (k / 1024) (omega arith) there) (λ y. cc)) refl

    pub entry-put_self : entry m₂ pgdir k ≡ v
    entry-put_self =
        rw
          (
            same_dir (k / 1024),
            there,
            eq_self (page_of (m.words pgdir (k / 1024))),
            eq_self (k % 1024),
          )
          refl

    pub entry-put_ne : (j : ℕ) → j < user_pages → j ≢ k → entry m₂ pgdir j ≡ entry m pgdir j
    entry-put_ne j lt ne = elim (Bool-cases (present (m.words pgdir (j / 1024)))) [
      | inr z ↦ rw (same_dir (j / 1024), z) refl
      | inl z ↦ elim (ℕ_discrete (j / 1024) (k / 1024)) [
        | yes y ↦
            rw
              (
                same_dir (j / 1024),
                z,
                y,
                eq_self (page_of (m.words pgdir (k / 1024))),
                ne_eq {a = j % 1024} {b = k % 1024} (λ x. ne (omega arith)),
              )
              refl
        | no y ↦
            rw
              (
                same_dir (j / 1024),
                z,
                role_ne role (h.tables (j / 1024) (omega arith) z)
                    (h.tables (k / 1024) (omega arith) there) (λ x. y (table_eq x)),
              )
              refl
      ]
    ]
      where
        table_eq : {a b : ℕ} → table a ≡ table b → a ≡ b
        table_eq x = cc

    pub IsSpace-put :
        (present v ≡ true → (role (page_of v) ≡ user k) × IsPage m.kmem.end_addr (page_of v))
        → IsSpace m₂ pgdir role
    IsSpace-put g = record {
      is_dir = h.is_dir;
      dir_page = h.dir_page;
      table_pages = λ d lt. rw (same_dir d) (h.table_pages d lt);
      after_kernel = h.after_kernel;
      are_free = h.are_free;
      nodup = h.nodup;
      tables = λ d lt. rw (same_dir d) (h.tables d lt);
      users = λ j lt. elim (ℕ_discrete j k) [
        | no y ↦ rw (entry-put_ne j lt y) (h.users j lt)
        | yes y ↦ rw (y, entry-put_self) g
      ];
    }

  -- The page that stood behind an entry which is absent now has no role any more.
  pub IsSpace-forget :
      (k p : ℕ)
      → k < user_pages
      → role p ≡ user k
      → present (entry m pgdir k) ≡ false
      → IsSpace m pgdir (update role p other)
  IsSpace-forget k p kt e absent = record {
    is_dir = rw (role_ne role h.is_dir e (λ z. cc)) h.is_dir;
    dir_page = h.dir_page;
    table_pages = h.table_pages;
    after_kernel = h.after_kernel;
    are_free = All-map _ _ (λ q g. (rw (role_ne role g.0 e (λ z. cc)) g.0, g.1)) _ h.are_free;
    nodup = h.nodup;
    tables = λ d lt pr. rw (role_ne role (h.tables d lt pr) e (λ z. cc)) (h.tables d lt pr);
    users = λ j lt pr.
        let g = h.users j lt pr in (rw (role_ne role g.0 e (λ z. apart j pr (user_eq z))) g.0, g.1);
  }
    where
      user_eq : {a b : ℕ} → user a ≡ user b → a ≡ b
      user_eq x = cc

      apart : (j : ℕ) → present (entry m pgdir j) ≡ true → j ≢ k
      apart j pr y = let z : true ≡ false = sym (rw y at pr) ∙ absent in cc
