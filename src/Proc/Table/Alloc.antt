-- ===== src/Proc/Table/Alloc.antt =====
-- `allocproc` and `get_base`.
use ele3021_operating_system.Base.{
  ℕ, ◌+◌, ◌^◌, ◌≤◌, ◌<◌, ◌≡◌, ◌≢◌, refl, sym, ap, ◌∙◌, ◌⊎◌, inl, inr, true, false, List, [], ◌∷◌,
  Option, none, some, get_elem?, arith, Option-cases, ℕ_discrete, All, some_eq,
}
use ele3021_operating_system.Base.Find.{
  find_index, modify, IsFirst, find_index-some, find_index-none, get_elem?-modify_self,
  get_elem?-modify_ne,
}
use mathlib.Core.Bool.{false≢true}
use ele3021_operating_system.Kalloc.Pages.{kalloc_lem}
use ele3021_operating_system.Proc.{unused, Proc, is_unused}
use ele3021_operating_system.Proc.Table.{
  Kernel, embryo_of, set_kstack, set_state, give_stack, take_page, next_of, claim, allocproc,
}

-- `allocproc` gave the entry `i`, with the page `page` for its kernel stack, and left `k'`.
pub record Allocates (k : Kernel) (i page : ℕ) (k' : Kernel) : Type 0 where
  pub first : IsFirst (λ p. is_unused p.state) k.procs i
  pub entry : get_elem? k'.procs i ≡ some (set_kstack page (embryo_of (next_of k) first.entry))
  pub others : (j : ℕ) → i ≢ j → get_elem? k'.procs j ≡ get_elem? k.procs j
  pub next : k'.nextpid ≡ k.nextpid + 1
  pub stack : k.kmem.freelist ≡ page ∷ k'.kmem.freelist

-- `allocproc` failed and left `k'`: no entry is UNUSED, or no page is free. No process changes, but
-- the entry that was tried, which stays UNUSED.
pub data Refuses (k k' : Kernel) : Type 0 where
  no_entry : All (λ p. is_unused p.state ≡ false) k.procs → k' ≡ k → Refuses k k'
  no_page :
      (i : ℕ) (p : Proc)
      → k.kmem.freelist ≡ []
      → IsFirst (λ p. is_unused p.state) k.procs i
      → get_elem? k'.procs i ≡ some p
      → is_unused p.state ≡ true
      → k'.nextpid ≡ k.nextpid + 1
      → ((j : ℕ) → i ≢ j → get_elem? k'.procs j ≡ get_elem? k.procs j)
      → Refuses k k'

-- The two outcomes of `allocproc`.
abbrev Outcomes : Kernel → Option ℕ × Kernel → Type 0
Outcomes k r =
    ((i : ℕ) × (page : ℕ) × (r.0 ≡ some i) × Allocates k i page r.1)
    ⊎ ((r.0 ≡ none) × Refuses k r.1)

module _ (k : Kernel) (i : ℕ) (r : IsFirst (λ p. is_unused p.state) k.procs i) where
  abbrev claimed : List Proc
  claimed = modify i (embryo_of (next_of k)) k.procs

  claimed_entry : get_elem? claimed i ≡ some (embryo_of (next_of k) r.entry)
  claimed_entry = get_elem?-modify_self (embryo_of (next_of k)) i k.procs r.entry r.at

  modified_others :
      (f : Proc → Proc) (j : ℕ) → i ≢ j → get_elem? (modify i f claimed) j ≡ get_elem? k.procs j
  modified_others f j ne =
      get_elem?-modify_ne f i j claimed ne
      ∙ get_elem?-modify_ne (embryo_of (next_of k)) i j k.procs ne

  give_stack_lem : Outcomes k (give_stack i (take_page (claim i k)))
  unfolding give_stack
  give_stack_lem = elim (kalloc_lem k.kmem) [
    | inl (e, q) ↦ rw q (
        inr (
          refl,
          Refuses.no_page i (set_state unused (set_kstack 0 (embryo_of (next_of k) r.entry))) e r
              (get_elem?-modify_self _ i claimed (embryo_of (next_of k) r.entry) claimed_entry) refl
              refl (modified_others _),
        ))
    | inr (page, rest, e, q) ↦ rw q (
        inl (
          i,
          page,
          refl,
          record {
            first = r;
            entry = get_elem?-modify_self _ i claimed (embryo_of (next_of k) r.entry) claimed_entry;
            others = modified_others _;
            next = refl;
            stack = e;
          },
        ))
  ]

-- `allocproc` takes the first UNUSED entry, gives it the next pid and a free page, and clears its
-- scheduling and LWP fields; or it fails, for want of an entry or of a page.
pub allocproc_lem :
    (k : Kernel)
    → let (result, k') = allocproc k in
      ((i : ℕ) × (page : ℕ) × (result ≡ some i) × Allocates k i page k')
      ⊎ ((result ≡ none) × Refuses k k')
unfolding allocproc
allocproc_lem k = elim (Option-cases (find_index (λ p. is_unused p.state) k.procs)) [
  | inl e ↦ rw (e, allocproc) (inr (refl, Refuses.no_entry (find_index-none _ k.procs e) refl))
  | inr (i, e) ↦ rw (e, allocproc) (give_stack_lem k i (find_index-some _ k.procs i e))
]

-- Every process in use has a pid of its own, below the next one.
pub record HasPids (k : Kernel) : Type 0 where
  pub below :
      (i : ℕ) (p : Proc)
      → get_elem? k.procs i ≡ some p
      → is_unused p.state ≡ false
      → p.pid < k.nextpid
  pub distinct :
      (i j : ℕ) (p q : Proc)
      → get_elem? k.procs i ≡ some p
      → is_unused p.state ≡ false
      → get_elem? k.procs j ≡ some q
      → is_unused q.state ≡ false
      → p.pid ≡ q.pid
      → i ≡ j

-- That the pids are apart as long as the counter has not passed the numbers of 32 bits.
abbrev pub KeepsPids : Kernel → Type 0
KeepsPids k = k.nextpid ≤ 2 ^ 32 → HasPids k

next_of_small : (k : Kernel) → k.nextpid < 2 ^ 32 → next_of k ≡ k.nextpid
next_of_small k h = ground arith

-- The processes in use of `k'` are those of `k`, but for one that may have got the next pid.
pub KeepsPids-step :
    (i : ℕ) (k k' : Kernel)
    → k.nextpid ≤ k'.nextpid
    → ((j : ℕ) (p : Proc)
        → get_elem? k'.procs j ≡ some p
        → is_unused p.state ≡ false
        → (get_elem? k.procs j ≡ some p)
          ⊎ ((j ≡ i) × (p.pid ≡ next_of k) × (k.nextpid < k'.nextpid)))
    → KeepsPids k
    → KeepsPids k'
KeepsPids-step i k k' le from keeps fits = record {
  below = λ j p e u. elim (from j p e u) [
    | inl old ↦ omega (arith, ok.below j p old u)
    | inr new ↦ omega (arith, next_of_small k (omega arith))
  ];
  distinct = λ a b p q e u f v same. elim (from a p e u) [
    | inl old ↦ elim (from b q f v) [
      | inl old' ↦ ok.distinct a b p q old u old' v same
      | inr new' ↦ absurd (omega (arith, ok.below a p old u, next_of_small k (omega arith)))
    ]
    | inr new ↦ elim (from b q f v) [
      | inl old' ↦ absurd (omega (arith, ok.below b q old' v, next_of_small k (omega arith)))
      | inr new' ↦ omega arith
    ]
  ];
}
  where
    ok : HasPids k
    ok = keeps (omega arith)

-- `allocproc` keeps the pids apart, also when it fails.
pub allocproc-KeepsPids : (k : Kernel) → KeepsPids k → KeepsPids (allocproc k).1
allocproc-KeepsPids k ok = elim (allocproc_lem k) [
  | inl (i, page, e, r) ↦
      KeepsPids-step i k (allocproc k).1 (omega (arith, r.next))
        (λ j p at used. elim (ℕ_discrete i j) [
          | yes same ↦
              let e : p ≡ set_kstack page (embryo_of (next_of k) r.first.entry) =
                some_eq (sym at ∙ rw (← same) r.entry) in
              inr (sym same, ap (λ z. z.pid) e, omega (arith, r.next))
          | no ne ↦ inl (sym (r.others j ne) ∙ at)
        ])
        ok
  | inr (e, r) ↦ refused (allocproc k).1 r
]
  where
    refused : (k' : Kernel) → Refuses k k' → KeepsPids k'
    refused k' (Refuses.no_entry all same) = rw same ok
    refused k' (Refuses.no_page i p none_free first at un next others) =
        KeepsPids-step i k k' (omega arith)
          (λ j q here used. elim (ℕ_discrete i j) [
            | yes same ↦
                let e : q ≡ p = some_eq (sym here ∙ rw (← same) at) in
                absurd (false≢true (sym used ∙ ap (λ z. is_unused z.state) e ∙ un))
            | no ne ↦ inl (sym (others j ne) ∙ here)
          ])
          ok
