-- ===== src/Kalloc/Pages.antt =====
-- Which pages the page allocator takes back, and what it gives.
use ele3021_operating_system.Base.{
  ℕ, zero, suc, ◌+◌, ◌-◌, ◌*◌, ◌/◌, ◌%◌, ◌≤◌, ◌<◌, ◌≡◌, ◌⊎◌, inl, inr, refl, false, List, [], ◌∷◌,
  ◌++◌, none, some, arith, All, All-map, All-append,
}
use mathlib.Core.List.{append_assoc}
use ele3021_operating_system.Kalloc.{
  page_size, kern_base, phys_top, Kmem, is_bad_page, kfree, kalloc, page_round_up, free_pages,
  freerange,
}

-- `kalloc` takes the first free page, or fails when there is none and changes nothing.
pub kalloc_lem :
    (m : Kmem)
    → ((m.freelist ≡ []) × (kalloc m ≡ (none, m)))
      ⊎ ((page : ℕ) × (rest : List ℕ) × (m.freelist ≡ page ∷ rest)
          × (kalloc m ≡ (some page, record m { freelist = rest })))
unfolding kalloc
kalloc_lem m = split m.freelist refl
  where
    split :
        (l : List ℕ)
        → m.freelist ≡ l
        → ((m.freelist ≡ []) × (kalloc m ≡ (none, m)))
          ⊎ ((page : ℕ) × (rest : List ℕ) × (m.freelist ≡ page ∷ rest)
              × (kalloc m ≡ (some page, record m { freelist = rest })))
    split [] h = inl (h, ground (arith, h))
    split (p ∷ rest) h = inr (p, rest, h, ground (arith, h))

-- A page of the kernel's part of memory, above the kernel's own end.
pub record IsPage (end_addr v : ℕ) : Type 0 where
  pub aligned : v % page_size ≡ 0
  pub above : end_addr ≤ v
  pub in_kernel : kern_base ≤ v
  pub below : v < kern_base + phys_top

IsPage-good : (v : ℕ) (m : Kmem) → IsPage m.end_addr v → is_bad_page v m ≡ false
IsPage-good v m p = ground arith

pub kfree_page :
    (v : ℕ) (m : Kmem)
    → IsPage m.end_addr v
    → kfree v m ≡ some (record m { freelist = v ∷ m.freelist })
unfolding kfree
kfree_page v m p = rw (IsPage-good v m p)

-- The `k` pages from `p` on, the last one first.
pub pages_from : ℕ → ℕ → List ℕ
pages_from zero p = []
pages_from (suc k) p = pages_from k (p + page_size) ++ (p ∷ [])

free_pages_lem :
    (k p : ℕ) (m : Kmem)
    → p % page_size ≡ 0
    → m.end_addr ≤ p
    → kern_base ≤ p
    → p + k * page_size ≤ kern_base + phys_top
    → free_pages k p m ≡ some (record m { freelist = pages_from k p ++ m.freelist })
unfolding free_pages pages_from
free_pages_lem zero p m al ab kn le = refl
free_pages_lem (suc k) p m al ab kn le =
    rw
      (
        kfree_page p m (omega arith),
        append_assoc (pages_from k (p + page_size)) (p ∷ []) m.freelist,
      )
      (free_pages_lem k (p + page_size) (record m { freelist = p ∷ m.freelist }) (omega arith)
        (omega arith) (omega arith) (omega arith))

-- Within the kernel's part of memory `freerange` does not panic, and puts exactly the whole pages of
-- the range on the free list.
freerange_lem :
    (vstart vend : ℕ) (m : Kmem)
    → m.end_addr ≤ vstart
    → kern_base ≤ vstart
    → page_round_up vstart ≤ vend
    → vend ≤ kern_base + phys_top
    → let p = page_round_up vstart in
      freerange vstart vend m
      ≡ some (record m { freelist = pages_from ((vend - p) / page_size) p ++ m.freelist })
unfolding freerange
freerange_lem vstart vend m above kernel le top =
    free_pages_lem _ _ m (omega arith) (omega arith) (omega arith) (omega arith)

-- Those are the page addresses in the range.
pub pages_from-range :
    (k p : ℕ)
    → All
        (λ v. (v % page_size ≡ p % page_size) × (p ≤ v) × (v + page_size ≤ p + k * page_size))
        (pages_from k p)
unfolding pages_from
pages_from-range zero p = tt
pages_from-range (suc k) p =
    All-append _ (pages_from k (p + page_size)) (p ∷ [])
      (All-map _ _ (λ v h. omega arith) (pages_from k (p + page_size))
        (pages_from-range k (p + page_size)))
      (omega arith, tt)
