-- ===== src/Paging/Walk.antt =====
-- Finding a table, and mapping or unmapping one page of the user.
use ele3021_operating_system.Base.{
  ℕ, ◌+◌, ◌*◌, ◌/◌, ◌%◌, ◌≤◌, ◌<◌, ◌≡◌, ◌≢◌, refl, ap, ◌∙◌, ◌⊎◌, inl, inr, true, false, [], none,
  some, arith, Bool-cases, update, length,
}
use ele3021_operating_system.Kalloc.{page_size, v2p}
use ele3021_operating_system.Paging.{
  Mem, present, page_of, put_word, pte_p, pte_w, pte_u, walkpgdir, new_table, pdx, ptx,
}
use ele3021_operating_system.Paging.Space.{
  Role, free, dir, table, other, entry, user_pages, IsSpace, role_ne, scribble,
}
use ele3021_operating_system.Paging.Entries.{
  page_of_entry, present_entry, eq_self, ne_eq, IsSpace-new_table, entry-new_table,
}
use ele3021_operating_system.Paging.Steps.{take_cleared, with_free}

-- What `walkpgdir` leaves when it found the table `t` for the page `k`.
pub record IsWalked (m m' : Mem) (pgdir : ℕ) (role : ℕ → Role) (k t : ℕ) : Type 0 where
  pub role' : ℕ → Role
  pub space : IsSpace m' pgdir role'
  pub there : present (m'.words pgdir (k / 1024)) ≡ true
  pub at : page_of (m'.words pgdir (k / 1024)) ≡ t
  pub same : (j : ℕ) → j < user_pages → entry m' pgdir j ≡ entry m pgdir j
  pub kept : (p : ℕ) → role p ≢ free → role' p ≡ role p
  pub same_end : m'.kmem.end_addr ≡ m.kmem.end_addr
  pub used : length m.kmem.freelist ≤ length m'.kmem.freelist + 1
  pub content : (q : ℕ) → role q ≢ free → role q ≢ dir → (i : ℕ) → m'.words q i ≡ m.words q i

pub pdx_page : (k : ℕ) → k < user_pages → pdx (k * page_size) ≡ k / 1024
pdx_page k lt = omega arith

pub ptx_page : (k : ℕ) → k < user_pages → ptx (k * page_size) ≡ k % 1024
ptx_page k lt = omega arith

module _ (m : Mem) (pgdir : ℕ) (role : ℕ → Role) (h : IsSpace m pgdir role) (k : ℕ)
    (kt : k < user_pages) where
  -- The table is there, or a cleared page becomes the table, or there is no page.
  pub walk_lem :
      ((walkpgdir pgdir (k * page_size) true m ≡ (none, m)) × (m.kmem.freelist ≡ []))
      ⊎ ((t : ℕ) × (m' : Mem) × (walkpgdir pgdir (k * page_size) true m ≡ (some t, m'))
          × IsWalked m m' pgdir role k t)
  unfolding walkpgdir new_table
  walk_lem = elim (Bool-cases (present (m.words pgdir (k / 1024)))) [
    | inl e ↦ inr (
      page_of (m.words pgdir (k / 1024)),
      m,
      rw (pdx_page k kt, e) refl,
      record {
        role' = role;
        space = h;
        there = e;
        at = refl;
        same = λ j lt. refl;
        kept = λ p ne. refl;
        same_end = refl;
        used = omega arith;
        content = λ q nf nd i. refl;
      },
    )
    | inr e ↦ elim (take_cleared m pgdir role h (λ i. 0)) [
      | inl (none_left, no_free) ↦ inl (rw (pdx_page k kt, e, none_left) refl, no_free)
      | inr (t, rest, taken, g, same, was_free, page, first) ↦
          let mid : Mem = scribble t (λ i. 0) (with_free rest m) in
          let z : update role t other t ≡ other = rw (eq_self t) refl in
          let absent : present (mid.words pgdir (k / 1024)) ≡ false =
            rw (role_ne role h.is_dir was_free (λ y. cc)) e in
          let zeros : (i : ℕ) → mid.words t i ≡ 0 = λ i. rw (eq_self t) refl in
          let m' : Mem = put_word pgdir (k / 1024) (v2p t + (pte_p + pte_w + pte_u)) mid in
          let set : m'.words pgdir (k / 1024) ≡ v2p t + 7 =
            rw (eq_self pgdir, eq_self (k / 1024)) refl in
          inr (
            t,
            m',
            rw (pdx_page k kt, e, taken) refl,
            record {
              role' = update (update role t other) t (table (k / 1024));
              space = IsSpace-new_table mid pgdir _ g t (k / 1024) page z absent zeros;
              there = rw (set, present_entry 7 page) refl;
              at = rw set (page_of_entry 7 page (omega arith));
              same = λ j lt.
                  entry-new_table mid pgdir _ g t (k / 1024) page z absent zeros j lt ∙ same j lt;
              kept = λ p ne. rw (ne_eq (free_ne p t ne was_free)) refl;
              same_end = refl;
              used = rw first (omega arith);
              content =
                  λ q nf nd i. rw (ne_eq (free_ne q t nf was_free), ne_eq (free_ne' q nd)) refl;
            },
          )
    ]
  ]
    where
      free_ne : (p t : ℕ) → role p ≢ free → role t ≡ free → p ≢ t
      free_ne p t ne e z = ne (ap role z ∙ e)

      free_ne' : (q : ℕ) → role q ≢ dir → q ≢ pgdir
      free_ne' q nd z = nd (ap role z ∙ h.is_dir)
