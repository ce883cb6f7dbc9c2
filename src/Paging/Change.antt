-- ===== src/Paging/Change.antt =====
-- Mapping and unmapping one page of the user.
use ele3021_operating_system.Base.{
  ℕ, ◌+◌, ◌*◌, ◌/◌, ◌%◌, ◌≤◌, ◌<◌, ◌≡◌, ◌≢◌, refl, sym, ◌∙◌, ◌⊎◌, inl, inr, true, false, [], ◌∷◌,
  ap, some, ◌==◌, arith, Bool-cases, update, if◌then◌else◌, length,
}
use ele3021_operating_system.Kalloc.{page_size, v2p}
use ele3021_operating_system.Kalloc.Pages.{IsPage, kfree_page}
use ele3021_operating_system.Paging.{
  Mem, present, page_of, put_word, pte_p, pte_w, pte_u, pte_addr, map_page, set_pte, unmap_page,
}
use ele3021_operating_system.Paging.Space.{
  Role, free, dir, table, user, other, entry, user_pages, IsSpace, role_ne, IsSpace-assign,
}
use ele3021_operating_system.Paging.Entries.{
  same_dir, page_of_entry, eq_self, ne_eq, IsSpace-put, entry-put_self, entry-put_ne,
  IsSpace-forget,
}
use ele3021_operating_system.Paging.Steps.{IsSpace-give, with_free}
use ele3021_operating_system.Paging.Walk.{walk_lem, IsWalked, ptx_page}

-- A page that is not for the tables, now or later.
abbrev pub IsKept : (ℕ → Role) → ℕ → Type 0
IsKept role q = (role q ≢ free) × (role q ≢ dir) × ((d : ℕ) → role q ≢ table d)

pub other-IsKept : (role : ℕ → Role) (q : ℕ) → role q ≡ other → IsKept role q
other-IsKept role q e =
    (λ z. no_free (sym e ∙ z), λ z. no_dir (sym e ∙ z), λ d z. no_table (sym e ∙ z))
  where
    no_free : other ≢ free
    no_free z = cc

    no_dir : other ≢ dir
    no_dir z = cc

    no_table : {d : ℕ} → other ≢ table d
    no_table z = cc

pub user-IsKept : (role : ℕ → Role) (q k : ℕ) → role q ≡ user k → IsKept role q
user-IsKept role q k e =
    (λ z. no_free (sym e ∙ z), λ z. no_dir (sym e ∙ z), λ d z. no_table (sym e ∙ z))
  where
    no_free : user k ≢ free
    no_free z = cc

    no_dir : user k ≢ dir
    no_dir z = cc

    no_table : {d : ℕ} → user k ≢ table d
    no_table z = cc

-- The space `m'` is `m` but for the entry of the page `k`, which is `v`.
pub record IsPlaced (m m' : Mem) (pgdir k v : ℕ) (was : ℕ → Role) : Type 0 where
  pub role : ℕ → Role
  pub space : IsSpace m' pgdir role
  pub self : entry m' pgdir k ≡ v
  pub others : (j : ℕ) → j < user_pages → j ≢ k → entry m' pgdir j ≡ entry m pgdir j
  pub same_end : m'.kmem.end_addr ≡ m.kmem.end_addr
  pub used : length m.kmem.freelist ≤ length m'.kmem.freelist + 1
  pub content : (q : ℕ) → IsKept was q → (i : ℕ) → m'.words q i ≡ m.words q i

module _ (m : Mem) (pgdir : ℕ) (role : ℕ → Role) (h : IsSpace m pgdir role) (k : ℕ)
    (kt : k < user_pages) where
  -- A page with no role is mapped where nothing is mapped, unless there is no page for a table.
  pub map_page_lem :
      (p : ℕ)
      → role p ≡ other
      → IsPage m.kmem.end_addr p
      → present (entry m pgdir k) ≡ false
      → ((map_page pgdir (k * page_size) (v2p p) (pte_w + pte_u) m ≡ some (false, m))
          × (m.kmem.freelist ≡ []))
        ⊎ ((m' : Mem) × (map_page pgdir (k * page_size) (v2p p) (pte_w + pte_u) m ≡ some (true, m'))
            × IsPlaced m m' pgdir k (v2p p + (pte_p + pte_w + pte_u)) role)
  unfolding map_page set_pte
  map_page_lem p e page absent = elim (walk_lem m pgdir role h k kt) [
    | inl (none_left, no_free) ↦ inl (rw none_left refl, no_free)
    | inr (t, mid, walked, w) ↦
        let v = v2p p + (pte_p + pte_w + pte_u) in
        let e' : w.role' p ≡ other = w.kept p (λ z. let y : other ≡ free = sym e ∙ z in cc) ∙ e in
        let g : IsSpace mid pgdir (update w.role' p (user k)) =
          IsSpace-assign mid pgdir w.role' p (user k) w.space e' in
        let page' : IsPage mid.kmem.end_addr p = rw w.same_end page in
        let word : present (mid.words t (k % 1024)) ≡ false = rw (← w.at) (word_absent w) in
        inr (
          put_word t (k % 1024) v mid,
          rw (walked, ptx_page k kt, word) refl,
          rw (← w.at) (record {
            role = update w.role' p (user k);
            space = IsSpace-put mid pgdir _ g k v kt w.there (λ _. (
              rw (page_of_entry 7 page (omega arith), eq_self p) refl,
              rw (page_of_entry 7 page (omega arith)) page',
            ));
            self = entry-put_self mid pgdir _ g k v kt w.there;
            others = λ j lt ne. entry-put_ne mid pgdir _ g k v kt w.there j lt ne ∙ w.same j lt;
            same_end = w.same_end;
            used = w.used;
            content = λ q (nf, nd, nt) i. rw (ne_eq (not_table w q nf nt)) (w.content q nf nd i);
          }),
        )
  ]
    where
      not_table :
          {t : ℕ} {mid : Mem} (w : IsWalked m mid pgdir role k t) (q : ℕ)
          → role q ≢ free
          → ((d : ℕ) → role q ≢ table d)
          → q ≢ page_of (mid.words pgdir (k / 1024))
      not_table w q nf nt z =
          nt (k / 1024)
            (sym (w.kept q nf) ∙ ap w.role' z ∙ w.space.tables (k / 1024) (omega arith) w.there)

      word_absent :
          {t : ℕ} {mid : Mem} (w : IsWalked m mid pgdir role k t)
          → present (mid.words (page_of (mid.words pgdir (k / 1024))) (k % 1024)) ≡ false
      word_absent w = rw (← w.same k kt, w.there) at absent

  -- What is mapped there is freed; nothing else changes.
  pub unmap_page_lem :
      present (m.words pgdir (k / 1024)) ≡ true
      → (m' : Mem) × (unmap_page (page_of (m.words pgdir (k / 1024))) (k % 1024) m ≡ some m')
        × ((r : ℕ → Role) × IsSpace m' pgdir r × ((q : ℕ) → role q ≡ other → r q ≡ other))
        × (present (entry m' pgdir k) ≡ false)
        × ((j : ℕ) → j < user_pages → j ≢ k → entry m' pgdir j ≡ entry m pgdir j)
        × (m'.kmem.freelist ≡ (
            if present (entry m pgdir k)
            then page_of (entry m pgdir k) ∷ m.kmem.freelist
            else m.kmem.freelist))
        × (m'.kmem.end_addr ≡ m.kmem.end_addr)
        × ((i : ℕ) → m'.words pgdir i ≡ m.words pgdir i)
  unfolding unmap_page
  unmap_page_lem there = elim (Bool-cases (present (entry m pgdir k))) [
    | inr e ↦
        let word : present (m.words (page_of (m.words pgdir (k / 1024))) (k % 1024)) ≡ false =
          rw there at e in
        (m, rw word refl, (role, h, λ q z. z), e, λ j lt ne. refl, rw e refl, refl, λ i. refl)
    | inl e ↦
        let t = page_of (m.words pgdir (k / 1024)) in
        let same : entry m pgdir k ≡ m.words t (k % 1024) = rw there refl in
        let p = page_of (m.words t (k % 1024)) in
        let word : present (m.words t (k % 1024)) ≡ true = rw same at e in
        let (role_p, page) = rw same at (h.users k kt e) in
        let mid : Mem = put_word t (k % 1024) 0 m in
        let g = IsSpace-put m pgdir role h k 0 kt there (λ z. absurd (ground arith)) in
        let absent : present (entry mid pgdir k) ≡ false =
          rw (entry-put_self m pgdir role h k 0 kt there) refl in
        let g' = IsSpace-forget mid pgdir role g k p kt role_p absent in
        let (_, g'') = IsSpace-give mid pgdir _ g' p (rw (eq_self p) refl) page in
        (
          with_free (p ∷ m.kmem.freelist) mid,
          rw (word, not_first (m.words t (k % 1024)) page, kfree_page p m.kmem page) refl,
          (_, g'', λ q z. rw (role_ne role z role_p (λ y. cc)) z),
          absent,
          entry-put_ne m pgdir role h k 0 kt there,
          rw (e, same) refl,
          refl,
          same_dir m pgdir role h k 0 kt there,
        )
  ]
    where
      not_first : (w : ℕ) → IsPage m.kmem.end_addr (page_of w) → (pte_addr w == 0) ≡ false
      not_first w page = ne_eq (λ z. let a = page.above in let b = h.after_kernel in omega arith)
