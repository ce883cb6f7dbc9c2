-- ===== src/Paging/Rounds.antt =====
-- The rounds of `allocuvm`, as they begin and end.
use ele3021_operating_system.Base.{
  ℕ, suc, ◌+◌, ◌-◌, ◌*◌, ◌/◌, ◌%◌, ◌^◌, ◌≤◌, ◌<◌, ◌≡◌, refl, ◌∙◌, Bool, true, false, Option, none,
  some, arith, length, ◌>>=◌,
}
use ele3021_operating_system.Kalloc.{page_size, kern_base, v2p}
use ele3021_operating_system.Paging.{
  Mem, clear_page, page_round_down, present, page_of, pte_p, pte_w, pte_u, pte_flags, take_page,
  free_page, map_page, map_pages, mappages, give_up, add_page, alloc_from,
}
use ele3021_operating_system.Paging.Space.{Role, other, entry, user_pages, IsSpace}
use ele3021_operating_system.Paging.Shrink.{page_count, deallocuvm_lem}

-- The space `m'` is `m` with the user's pages from `k` to `l` mapped, writable.
pub record IsGrown (m m' : Mem) (pgdir k l : ℕ) : Type 0 where
  pub role : ℕ → Role
  pub space : IsSpace m' pgdir role
  pub mapped : (j : ℕ) → k ≤ j → j < l → pte_flags (entry m' pgdir j) ≡ pte_p + pte_w + pte_u
  pub below : (j : ℕ) → j < k → j < user_pages → entry m' pgdir j ≡ entry m pgdir j
  pub above : (j : ℕ) → l ≤ j → j < user_pages → entry m' pgdir j ≡ entry m pgdir j
  pub same_end : m'.kmem.end_addr ≡ m.kmem.end_addr
  pub used : length m.kmem.freelist ≤ length m'.kmem.freelist + 2 * (l - k)
  pub cleared : (j : ℕ) → k ≤ j → j < l → (i : ℕ) → m'.words (page_of (entry m' pgdir j)) i ≡ 0

-- The space `m'` is `m`, with nothing mapped from `k` to `l`.
pub record IsRestored (m m' : Mem) (pgdir k l : ℕ) : Type 0 where
  pub role : ℕ → Role
  pub space : IsSpace m' pgdir role
  pub absent : (j : ℕ) → k ≤ j → j < l → present (entry m' pgdir j) ≡ false
  pub below : (j : ℕ) → j < k → j < user_pages → entry m' pgdir j ≡ entry m pgdir j
  pub above : (j : ℕ) → l ≤ j → j < user_pages → entry m' pgdir j ≡ entry m pgdir j

-- `mappages` of one page.
mappages_page :
    (pgdir k pa perm : ℕ) (m : Mem)
    → k < user_pages
    → mappages pgdir (k * page_size) page_size pa perm m ≡ map_page pgdir (k * page_size) pa perm m
unfolding mappages map_pages
mappages_page pgdir k pa perm m lt =
    let first : page_round_down (k * page_size) ≡ k * page_size = omega arith in
    let end : page_round_down ((k * page_size + page_size + 2 ^ 32 - 1) % 2 ^ 32) ≡ k * page_size =
      omega arith in
    let once : (k * page_size + 2 ^ 32 - k * page_size) % 2 ^ 32 / page_size + 1 ≡ 1 =
      omega arith in
    rw (first, end, once, map_pages) (one_round (map_page pgdir (k * page_size) pa perm m))
  where
    one_round :
        (o : Option (Bool × Mem))
        → (o >>= λ r. elim r.0 [ false ↦ some (false, r.1) | true ↦ some (true, r.1) ]) ≡ o
    one_round none = refl
    one_round (some (true, m)) = refl
    one_round (some (false, m)) = refl

module _ (pgdir oldsz newsz : ℕ) (top : newsz < kern_base) (m₀ : Mem) where
  -- What `allocuvm` has done up to the page `k`.
  abbrev pub Grown : Mem → ℕ → Type 0
  Grown m k = IsGrown m₀ m pgdir (page_count oldsz) k

  abbrev pub Restored : Mem → Type 0
  Restored m = IsRestored m₀ m pgdir (page_count oldsz) (page_count newsz)

  pub give_up_lem :
      (m : Mem) (role : ℕ → Role)
      → oldsz < newsz
      → IsSpace m pgdir role
      → ((j : ℕ) → j < page_count oldsz → j < user_pages → entry m pgdir j ≡ entry m₀ pgdir j)
      → ((j : ℕ) → page_count newsz ≤ j → j < user_pages → entry m pgdir j ≡ entry m₀ pgdir j)
      → (m' : Mem) × (give_up pgdir oldsz newsz m ≡ some m')
        × ((r : Restored m') × ((q : ℕ) → role q ≡ other → r.role q ≡ other)
            × (m'.kmem.end_addr ≡ m.kmem.end_addr))
  give_up_lem m role lt h below above =
      let (m', given, u) = deallocuvm_lem m pgdir role newsz oldsz h (omega arith) lt in
      (
        m',
        rw given refl,
        (
          record {
            role = u.role;
            space = u.space;
            absent = λ j lo hi. u.absent j lo (omega arith);
            below = λ j hi kt. u.below j hi kt ∙ below j hi kt;
            above = λ j lo kt. u.above j (omega arith) kt ∙ above j lo kt;
          },
          u.kept,
          u.same_end,
        ),
      )

  module _ (n k : ℕ) (m : Mem) (kt : k < user_pages) where
    pub round_none :
        (q : Mem)
        → take_page m ≡ (none, m)
        → give_up pgdir oldsz newsz m ≡ some q
        → alloc_from (suc n) pgdir (k * page_size) oldsz newsz m ≡ some (none, q)
    unfolding alloc_from add_page
    round_none q taken given = rw (taken, given) refl

    pub round_full :
        (m₁ m₂ q m' : Mem) (p : ℕ)
        → take_page m ≡ (some p, m₁)
        → map_page pgdir (k * page_size) (v2p p) (pte_w + pte_u) (clear_page p m₁)
          ≡ some (false, m₂)
        → give_up pgdir oldsz newsz m₂ ≡ some q
        → free_page p q ≡ some m'
        → alloc_from (suc n) pgdir (k * page_size) oldsz newsz m ≡ some (none, m')
    unfolding alloc_from add_page
    round_full m₁ m₂ q m' p taken full given freed =
        rw
          (
            taken,
            mappages_page pgdir k (v2p p) (pte_w + pte_u) (clear_page p m₁) kt,
            full,
            given,
            freed,
          )
          refl

    pub round_mapped :
        (m₁ m' : Mem) (p : ℕ)
        → take_page m ≡ (some p, m₁)
        → map_page pgdir (k * page_size) (v2p p) (pte_w + pte_u) (clear_page p m₁) ≡ some (true, m')
        → alloc_from (suc n) pgdir (k * page_size) oldsz newsz m
          ≡ alloc_from n pgdir ((k + 1) * page_size) oldsz newsz m'
    unfolding alloc_from add_page
    round_mapped m₁ m' p taken mapped =
        let next : (k * page_size + page_size) % 2 ^ 32 ≡ (k + 1) * page_size = omega arith in
        rw (taken, mappages_page pgdir k (v2p p) (pte_w + pte_u) (clear_page p m₁) kt, mapped, next)
          refl
