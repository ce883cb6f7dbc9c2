-- ===== src/Proc/Table/Reap.antt =====
-- `wait` and `thread_join`: how an ended child or thread is taken off the table.
use ele3021_operating_system.Base.{
  ℕ, ◌+◌, ◌*◌, ◌≡◌, ◌≢◌, refl, ap, ◌⊎◌, inl, inr, Bool, true, false, [], ◌∷◌, ◌++◌, none, some,
  get_elem?, arith, Option-cases, Bool-cases, All, ◌==◌, ==_iff, set,
}
use ele3021_operating_system.Base.Find.{
  find_index, modify, IsFirst, find_index-some, find_index-none, get_elem?-modify_self,
  get_elem?-modify_ne,
}
use ele3021_operating_system.Kalloc.{kfree}
use ele3021_operating_system.Proc.{Proc}
use ele3021_operating_system.Proc.Table.{
  Call, deallocuvm, freevm, Kernel, Round, returns, fails, sleeps, panics, free_entry, reap,
  reap_child, wait, is_child, is_zombie_child, reap_thread, join_thread, is_ended_thread,
  thread_join, page_size,
}

-- The entry `i` of `k`, which was `p`, was cleaned up: its stack is free again, its memory was given
-- to vm.c, and no other process changed.
pub record Frees (k : Kernel) (i : ℕ) (p : Proc) (call : Call) (clean : Proc → Proc) (k' : Kernel)
    : Type 0 where
  pub was : get_elem? k.procs i ≡ some p
  pub entry : get_elem? k'.procs i ≡ some (clean p)
  pub others : (j : ℕ) → i ≢ j → get_elem? k'.procs j ≡ get_elem? k.procs j
  pub stack : kfree p.kstack k.kmem ≡ some k'.kmem
  pub memory : k'.calls ≡ k.calls ++ (call ∷ [])
  pub next : k'.nextpid ≡ k.nextpid
  pub slots : k'.stable ≡ k.stable

free_entry-cases :
    (k : Kernel) (i : ℕ) (p : Proc) (call : Call) (clean : Proc → Proc)
    → get_elem? k.procs i ≡ some p
    → ((free_entry i p.kstack call clean k ≡ none) × (kfree p.kstack k.kmem ≡ none))
      ⊎ ((k' : Kernel) × (free_entry i p.kstack call clean k ≡ some k')
          × Frees k i p call clean k'
          × (k'.stable ≡ k.stable))
unfolding free_entry
free_entry-cases k i p call clean at = elim (Option-cases (kfree p.kstack k.kmem)) [
  | inl e ↦ inl (rw (e, free_entry), e)
  | inr (kmem, e) ↦ inr (
    record k { kmem = kmem; calls = k.calls ++ (call ∷ []); procs = modify i clean k.procs },
    rw (e, free_entry),
    record {
      was = at;
      entry = get_elem?-modify_self clean i k.procs p at;
      others = λ j ne. get_elem?-modify_ne clean i j k.procs ne;
      stack = e;
      memory = refl;
      next = refl;
      slots = refl;
    },
    refl,
  )
]

-- What each answer of a round of `wait` says.
abbrev pub Waits : ℕ → Bool → Kernel → Round ℕ → Type 0
Waits cur killed k (returns pid k') =
    (i : ℕ) × (p : Proc) × IsFirst (is_zombie_child cur) k.procs i
    × (pid ≡ p.pid)
    × Frees k i p (freevm p.pgdir) reap k'
Waits cur killed k fails =
    All (λ p. is_zombie_child cur p ≡ false) k.procs
    × ((killed ≡ true) ⊎ All (λ p. is_child cur p ≡ false) k.procs)
Waits cur killed k sleeps =
    All (λ p. is_zombie_child cur p ≡ false) k.procs
    × (killed ≡ false)
    × ((i : ℕ) × IsFirst (is_child cur) k.procs i)
Waits cur killed k panics =
    (i : ℕ) × (p : Proc) × IsFirst (is_zombie_child cur) k.procs i
    × (get_elem? k.procs i ≡ some p)
    × (kfree p.kstack k.kmem ≡ none)

reap_child-Waits :
    (cur : ℕ) (killed : Bool) (k : Kernel) (i : ℕ) (r : IsFirst (is_zombie_child cur) k.procs i)
    → Waits cur killed k (reap_child i (some r.entry) k)
unfolding reap_child
reap_child-Waits cur killed k i r =
    elim (free_entry-cases k i r.entry (freevm r.entry.pgdir) reap r.at) [
      | inl (f, bad) ↦ rw (f, reap_child) (i, r.entry, r, r.at, bad)
      | inr (k', f, done, same) ↦ rw (f, reap_child) (i, r.entry, r, refl, done)
    ]

-- `wait` frees the first ended child and returns its pid; with no ended child it fails if the caller
-- was killed or has no child, and sleeps otherwise; it panics only if the child's stack is no page.
pub wait-Waits : (cur : ℕ) (killed : Bool) (k : Kernel) → Waits cur killed k (wait cur killed k)
unfolding wait
wait-Waits cur killed k = elim (Option-cases (find_index (is_zombie_child cur) k.procs)) [
  | inr (i, e) ↦
      let r = find_index-some (is_zombie_child cur) k.procs i e in
      rw (e, wait, r.at) (reap_child-Waits cur killed k i r)
  | inl e ↦
      let dead = find_index-none (is_zombie_child cur) k.procs e in
      elim (Option-cases (find_index (is_child cur) k.procs)) [
        | inl f ↦ rw (e, f, wait) (dead, inr (find_index-none (is_child cur) k.procs f))
        | inr (j, f) ↦ elim (Bool-cases killed) [
          | inl g ↦ rw (e, f, g, wait) (dead, inl refl)
          | inr g ↦ rw (e, f, g, wait) (dead, refl, (j, find_index-some (is_child cur) k.procs j f))
        ]
      ]
]

-- What each answer of a round of `thread_join` says.
abbrev pub Joins : ℕ → Proc → Kernel → Round ℕ → Type 0
Joins thread cur k (returns retval k') =
    (i : ℕ) × (p : Proc) × (k1 : Kernel) × (cur.lwpid ≡ 0)
    × IsFirst (is_ended_thread thread cur.pid) k.procs i
    × (retval ≡ p.retval)
    × Frees k i p (deallocuvm p.pgdir (p.sbase + 2 * page_size) p.sbase) reap_thread k1
    × (k' ≡ record k1 { stable = set k.stable p.snum false })
Joins thread cur k fails =
    (cur.lwpid ≢ 0)
    ⊎ ((cur.killed ≡ true) × All (λ p. is_ended_thread thread cur.pid p ≡ false) k.procs)
Joins thread cur k sleeps =
    (cur.lwpid ≡ 0)
    × (cur.killed ≡ false)
    × All (λ p. is_ended_thread thread cur.pid p ≡ false) k.procs
Joins thread cur k panics =
    (i : ℕ) × (p : Proc) × (cur.lwpid ≡ 0)
    × IsFirst (is_ended_thread thread cur.pid) k.procs i
    × (get_elem? k.procs i ≡ some p)
    × (kfree p.kstack k.kmem ≡ none)

join_thread-Joins :
    (thread : ℕ) (cur : Proc) (k : Kernel) (i : ℕ)
    (r : IsFirst (is_ended_thread thread cur.pid) k.procs i)
    → cur.lwpid ≡ 0
    → Joins thread cur k (join_thread i (some r.entry) k)
unfolding join_thread
join_thread-Joins thread cur k i r normal =
    elim (free_entry-cases k i r.entry call reap_thread r.at) [
      | inl (f, bad) ↦ rw (f, join_thread) (i, r.entry, normal, r, r.at, bad)
      | inr (k', f, done, same) ↦
          rw (f, join_thread)
            (
              i,
              r.entry,
              k',
              normal,
              r,
              refl,
              done,
              ap (λ z. let x : Kernel = record k' { stable = set z r.entry.snum false } in x) same,
            )
    ]
  where
    call : Call
    call = deallocuvm r.entry.pgdir (r.entry.sbase + 2 * page_size) r.entry.sbase

-- `thread_join(thread)` frees the first ended thread with that number of the calling process, gives
-- its stack slot back and returns its value; it fails for a caller that is an LWP, or that was killed
-- while no such thread has ended, and sleeps otherwise; it panics only if the stack is no page.
pub thread_join-Joins :
    (thread : ℕ) (cur : Proc) (k : Kernel) → Joins thread cur k (thread_join thread cur k)
unfolding thread_join
thread_join-Joins thread cur k = elim (Bool-cases (cur.lwpid == 0)) [
  | inr lwp ↦ rw lwp (inl (ground arith))
  | inl e0 ↦
      let normal = (==_iff cur.lwpid 0).0 e0 in
      elim (Option-cases (find_index (is_ended_thread thread cur.pid) k.procs)) [
        | inr (i, e) ↦
            let r = find_index-some (is_ended_thread thread cur.pid) k.procs i e in
            rw (e0, e, thread_join, r.at) (join_thread-Joins thread cur k i r normal)
        | inl e ↦
            let none_ended = find_index-none (is_ended_thread thread cur.pid) k.procs e in
            elim (Bool-cases cur.killed) [
              | inl g ↦ rw (e0, e, g, thread_join) (inr (refl, none_ended))
              | inr g ↦ rw (e0, e, g, thread_join) (normal, refl, none_ended)
            ]
      ]
]
