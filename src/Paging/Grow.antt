-- ===== src/Paging/Grow.antt =====
-- Growing an address space: `allocuvm`.
use ele3021_operating_system.Base.{
  ℕ, zero, suc, ◌+◌, ◌-◌, ◌*◌, ◌/◌, ◌%◌, ◌≤◌, ◌<◌, ◌≡◌, refl, subst, ◌∙◌, ◌⊎◌, inl, inr, true,
  false, none, some, arith, ℕ_discrete, ltb, leb, length, update,
}
use ele3021_operating_system.Kalloc.{page_size, kern_base, v2p, page_round_up}
use ele3021_operating_system.Kalloc.Pages.{IsPage}
use ele3021_operating_system.Paging.{
  Mem, present, page_of, pte_p, pte_w, pte_u, pte_flags, alloc_from, allocuvm,
}
use ele3021_operating_system.Paging.Space.{
  Role, user, other, entry, user_pages, IsSpace, role_ne, scribble,
}
use ele3021_operating_system.Paging.Entries.{eq_self, page_of_entry}
use ele3021_operating_system.Paging.Steps.{take_cleared, IsSpace-give, with_free}
use ele3021_operating_system.Paging.Change.{map_page_lem, other-IsKept, user-IsKept}
use ele3021_operating_system.Paging.Shrink.{page_count}
use ele3021_operating_system.Paging.Rounds.{
  IsGrown, IsRestored, Grown, Restored, give_up_lem, round_none, round_full, round_mapped,
}

module _ (pgdir oldsz newsz : ℕ) (top : newsz < kern_base) (m₀ : Mem) where
  -- A round of the loop gets on by a page, or gives all up.
  alloc_round :
      (n k : ℕ) (m : Mem)
      → k < page_count newsz
      → page_count oldsz ≤ k
      → present (entry m₀ pgdir k) ≡ false
      → Grown pgdir oldsz newsz top m₀ m k
      → ((m' : Mem) × (alloc_from (suc n) pgdir (k * page_size) oldsz newsz m ≡ some (none, m'))
          × Restored pgdir oldsz newsz top m₀ m'
          × (length m₀.kmem.freelist < 2 * (page_count newsz - page_count oldsz)))
        ⊎ ((m' : Mem) × (alloc_from (suc n) pgdir (k * page_size) oldsz newsz m
              ≡ alloc_from n pgdir ((k + 1) * page_size) oldsz newsz m')
            × Grown pgdir oldsz newsz top m₀ m' (k + 1))
  alloc_round n k m lt le absent g = elim (take_cleared m pgdir g.role g.space (λ i. 0)) [
    | inl (none_left, no_free) ↦
        let (m', given, (r, _, _)) =
          give_up_lem pgdir oldsz newsz top m₀ m g.role grows g.space g.below
            (λ j lo. g.above j (omega arith)) in
        inl (
          m',
          round_none pgdir oldsz newsz top m₀ n k m kt m' none_left given,
          r,
          few (rw no_free at g.used),
        )
    | inr (p, rest, taken, h, same, was_free, page, first) ↦
        let mid : Mem = scribble p (λ i. 0) (with_free rest m) in
        let no_role : update g.role p other p ≡ other = rw (eq_self p) refl in
        let absent' : present (entry mid pgdir k) ≡ false =
          rw (same k (omega arith), g.above k (omega arith) (omega arith)) absent in
        elim (map_page_lem mid pgdir _ h k (omega arith) p no_role page absent') [
          | inl (no_table, no_free) ↦
              let (q, given, (r, kept, same_end)) =
                give_up_lem pgdir oldsz newsz top m₀ mid _ grows h
                  (λ j lo kt. same j kt ∙ g.below j lo kt)
                  (λ j hi kt. same j kt ∙ g.above j (omega arith) kt) in
              let page' : IsPage q.kmem.end_addr p =
                rw (same_end, g.same_end) (rw g.same_end at page) in
              let (freed, space) = IsSpace-give q pgdir r.role r.space p (kept p no_role) page' in
              inl (
                _,
                round_full pgdir oldsz newsz top m₀ n k m kt _ mid q _ p taken no_table given freed,
                record {
                  role = _;
                  space = space;
                  absent = r.absent;
                  below = r.below;
                  above = r.above;
                },
                few' (rw (first, no_free) at g.used),
              )
          | inr (m', mapped, s) ↦ inr (
            m',
            round_mapped pgdir oldsz newsz top m₀ n k m kt _ m' p taken mapped,
            record {
              role = s.role;
              space = s.space;
              mapped = λ j lo hi. elim (ℕ_discrete j k) [
                | yes e ↦ rw (e, s.self) (flags_entry page)
                | no ne ↦
                    rw (s.others j (omega arith) ne, same j (omega arith))
                      (g.mapped j lo (omega arith))
              ];
              below = λ j lo jt. s.others j jt (λ z. omega arith) ∙ same j jt ∙ g.below j lo jt;
              above = λ j hi jt.
                  s.others j jt (λ z. omega arith) ∙ same j jt ∙ g.above j (omega arith) jt;
              same_end = s.same_end ∙ g.same_end;
              used = more_used _ _ _ (rw first at g.used) s.used;
              cleared = λ j lo hi i. elim (ℕ_discrete j k) [
                | yes e ↦
                    rw (e, s.self, page_of_entry 7 page (omega arith))
                      (s.content p (other-IsKept (update g.role p other) p no_role) i
                        ∙ rw (eq_self p) refl)
                | no ne ↦
                    let q = page_of (entry m pgdir j) in
                    let (is_user, _) =
                      g.space.users j (omega arith)
                        (present_flags _ (g.mapped j lo (omega arith))) in
                    let is_user' : update g.role p other q ≡ user j =
                      rw (role_ne g.role is_user was_free (λ z. cc)) is_user in
                    rw (s.others j (omega arith) ne, same j (omega arith))
                      (s.content q (user-IsKept (update g.role p other) q j is_user') i
                        ∙ rw (role_ne g.role is_user was_free (λ z. cc))
                            (g.cleared j lo (omega arith) i))
              ];
            },
          )
        ]
  ]
    where
      grows : oldsz < newsz
      grows = omega arith

      kt : k < user_pages
      kt = omega arith

      present_flags : (e : ℕ) → pte_flags e ≡ pte_p + pte_w + pte_u → present e ≡ true
      present_flags e h = let z : e % 2 ≡ 1 = omega arith in rw z refl

      flags_entry :
          {end_addr p : ℕ}
          → IsPage end_addr p
          → pte_flags (v2p p + (pte_p + pte_w + pte_u)) ≡ pte_p + pte_w + pte_u
      flags_entry page =
          let a = page.aligned in let b = page.in_kernel in let c = page.below in omega arith

      few :
          length m₀.kmem.freelist ≤ 0 + 2 * (k - page_count oldsz)
          → length m₀.kmem.freelist < 2 * (page_count newsz - page_count oldsz)
      few u = omega arith

      few' :
          length m₀.kmem.freelist ≤ 1 + 2 * (k - page_count oldsz)
          → length m₀.kmem.freelist < 2 * (page_count newsz - page_count oldsz)
      few' u = omega arith

      more_used :
          (a b c : ℕ)
          → a ≤ suc b + 2 * (k - page_count oldsz)
          → b ≤ c + 1
          → a ≤ c + 2 * (k + 1 - page_count oldsz)
      more_used a b c u v = omega arith

  alloc_from_lem :
      (n k : ℕ) (m : Mem)
      → k + n ≡ page_count newsz
      → page_count oldsz ≤ k
      → ((j : ℕ) → page_count oldsz ≤ j → j < page_count newsz → present (entry m₀ pgdir j) ≡ false)
      → Grown pgdir oldsz newsz top m₀ m k
      → ((m' : Mem) × (alloc_from n pgdir (k * page_size) oldsz newsz m ≡ some (some newsz, m'))
          × Grown pgdir oldsz newsz top m₀ m' (page_count newsz))
        ⊎ ((m' : Mem) × (alloc_from n pgdir (k * page_size) oldsz newsz m ≡ some (none, m'))
            × Restored pgdir oldsz newsz top m₀ m'
            × (length m₀.kmem.freelist < 2 * (page_count newsz - page_count oldsz)))
  unfolding alloc_from
  alloc_from_lem zero k m sum le absent g =
      let z : k ≡ page_count newsz = omega arith in
      inl (m, refl, subst (Grown pgdir oldsz newsz top m₀ m) z g)
  alloc_from_lem (suc n) k m sum le absent g =
      elim (alloc_round n k m (omega arith) le (absent k le (omega arith)) g) [
        | inl failed ↦ inr failed
        | inr (mid, round, g') ↦
            elim (alloc_from_lem n (k + 1) mid (omega arith) (omega arith) absent g') [
              | inl (m', rest, grown) ↦ inl (m', round ∙ rest, grown)
              | inr (m', rest, restored, few) ↦ inr (m', round ∙ rest, restored, few)
            ]
      ]

-- `allocuvm` from `oldsz` to a size that is not smaller and below KERNBASE, in a memory where every page
-- of the address space has its own role (`IsSpace`) and none of the new pages is mapped, does not panic.
-- Either it answers `newsz`, and then exactly the new pages are mapped, for the user to write, and the
-- memory behind them is all 0; or it answers 0, and then none of the new pages is mapped, and fewer
-- pages were free than a page and a table for each of them. Either way the other entries of the user's part are as before, and `IsSpace`
-- holds: no page of memory stands behind two pages of the user, or is free at the same time.
pub allocuvm_lem :
    (m : Mem) (pgdir : ℕ) (role : ℕ → Role) (oldsz newsz : ℕ)
    → IsSpace m pgdir role
    → oldsz ≤ newsz
    → newsz < kern_base
    → ((j : ℕ) → page_count oldsz ≤ j → j < page_count newsz → present (entry m pgdir j) ≡ false)
    → ((m' : Mem) × (allocuvm pgdir oldsz newsz m ≡ some (some newsz, m'))
        × IsGrown m m' pgdir (page_count oldsz) (page_count newsz))
      ⊎ ((m' : Mem) × (allocuvm pgdir oldsz newsz m ≡ some (none, m'))
          × IsRestored m m' pgdir (page_count oldsz) (page_count newsz)
          × (length m.kmem.freelist < 2 * (page_count newsz - page_count oldsz)))
unfolding allocuvm
allocuvm_lem m pgdir role oldsz newsz h le top absent =
    let not_high : leb kern_base newsz ≡ false = ground arith in
    let not_less : ltb newsz oldsz ≡ false = ground arith in
    let rounds : (page_round_up newsz - page_round_up oldsz) / page_size
        ≡ page_count newsz - page_count oldsz =
      omega arith in
    rw (not_high, not_less, rounds) loop
  where
    start : IsGrown m m pgdir (page_count oldsz) (page_count oldsz)
    start = record {
      role = role;
      space = h;
      mapped = λ j lo hi. absurd (omega arith);
      below = λ j lo jt. refl;
      above = λ j lo jt. refl;
      same_end = refl;
      used = omega arith;
      cleared = λ j lo hi i. absurd (omega arith);
    }

    loop :
        ((m' : Mem) × (alloc_from
              (page_count newsz - page_count oldsz)
              pgdir
              (page_round_up oldsz)
              oldsz
              newsz
              m
            ≡ some (some newsz, m'))
          × IsGrown m m' pgdir (page_count oldsz) (page_count newsz))
        ⊎ ((m' : Mem) × (alloc_from
                (page_count newsz - page_count oldsz)
                pgdir
                (page_round_up oldsz)
                oldsz
                newsz
                m
              ≡ some (none, m'))
            × IsRestored m m' pgdir (page_count oldsz) (page_count newsz)
            × (length m.kmem.freelist < 2 * (page_count newsz - page_count oldsz)))
    loop =
        alloc_from_lem pgdir oldsz newsz top m (page_count newsz - page_count oldsz)
          (page_count oldsz) m (omega arith) (omega arith) absent start
