-- ===== src/Proc/Life/Forks.antt =====
-- What `fork` gives the child.
use ele3021_operating_system.Base.{
  ℕ, ◌≡◌, ◌≢◌, refl, sym, ap, subst, ◌∙◌, ◌⊎◌, inl, inr, true, false, Option, none, some, get_elem?,
  some_eq, if◌then◌else◌, Bool-cases, Option-cases, ltb,
}
use ele3021_operating_system.Base.Find.{modify, get_elem?-modify_self, get_elem?-modify_ne}
use ele3021_operating_system.Kalloc.{kfree}
use ele3021_operating_system.Proc.{Proc, runnable, is_unused}
use ele3021_operating_system.Proc.Table.{Kernel, allocproc, set_kstack, embryo_of, next_of}
use ele3021_operating_system.Proc.Table.Alloc.{Allocates, Refuses, allocproc_lem}
use ele3021_operating_system.Proc.Life.{
  Vm, panics, fails, returns, dup_files, mark_forked, child_of, fork_copied, copied, fork_new, fork,
}

-- The entry `i` of `k'`, which was UNUSED, is a child of the process `c`, whose entry is `cur`: it has
-- the number `pid` and a copy of the caller's registers, less the result of `fork`, and may run.
pub record Forks (c : ℕ) (cur : Proc) (k : Kernel) (pid : ℕ) (k' : Kernel) : Type 0 where
  pub index : ℕ
  pub was : Proc
  pub was_at : get_elem? k.procs index ≡ some was
  pub was_unused : is_unused was.state ≡ true
  pub child : Proc
  pub at : get_elem? k'.procs index ≡ some child
  pub numbered : (pid ≡ next_of k) × (child.pid ≡ pid)
  pub ready : (child.state ≡ runnable) × (child.parent ≡ some c) × (child.killed ≡ was.killed)
  pub memory : child.sz ≡ cur.sz
  pub resumes :
      (child.tf.eax ≡ 0)
      × (child.tf.eip ≡ cur.tf.eip)
      × (child.tf.esp ≡ cur.tf.esp)
      × (child.tf.others ≡ cur.tf.others)
  pub marked : child.forked ≡ ltb 0 cur.lwpid
  pub others : (j : ℕ) → index ≢ j → get_elem? k'.procs j ≡ get_elem? k.procs j

-- The child as `fork` finds it after `mark_forked`.
abbrev marks : Proc → ℕ → Proc → Proc
marks cur lwpid p = if ltb 0 cur.lwpid then record p { forked = true; lwpid = lwpid } else p

module _ (cur : Proc) (i : ℕ) (k : Kernel) where
  mark_forked-at :
      (p : Proc)
      → get_elem? k.procs i ≡ some p
      → get_elem? (mark_forked cur i k).procs i ≡ some (marks cur k.nextlwpid p)
  mark_forked-at p at = elim (Bool-cases (ltb 0 cur.lwpid)) [
    | inl e ↦ rw e (get_elem?-modify_self _ i k.procs p at)
    | inr e ↦ rw e at
  ]

  mark_forked_ne : (j : ℕ) → i ≢ j → get_elem? (mark_forked cur i k).procs j ≡ get_elem? k.procs j
  mark_forked_ne j ne = elim (Bool-cases (ltb 0 cur.lwpid)) [
    | inl e ↦ rw e (get_elem?-modify_ne _ i j k.procs ne)
    | inr e ↦ rw e refl
  ]

marks-forked :
    (cur : Proc) (n : ℕ) (p : Proc) → p.forked ≡ false → (marks cur n p).forked ≡ ltb 0 cur.lwpid
marks-forked cur n p h = elim (Bool-cases (ltb 0 cur.lwpid)) [ inl e ↦ rw e refl | inr e ↦ rw e h ]

marks-pid :
    (cur : Proc) (n : ℕ) (p : Proc)
    → ((marks cur n p).pid ≡ p.pid) × ((marks cur n p).killed ≡ p.killed)
marks-pid cur n p = elim (Bool-cases (ltb 0 cur.lwpid)) [
  | inl e ↦ rw e (refl, refl)
  | inr e ↦ rw e (refl, refl)
]

returns_eq : {n m : ℕ} {a b : Kernel} → returns n a ≡ returns m b → (n ≡ m) × (a ≡ b)
returns_eq h = (cc, cc)

panics≢returns : {n : ℕ} {b : Kernel} → panics ≡ returns n b → ⊥
panics≢returns h = cc

fails≢returns : {n : ℕ} {a b : Kernel} → fails a ≡ returns n b → ⊥
fails≢returns h = cc

-- The entry that `allocproc` gave, as `fork` has marked it.
abbrev marked_entry :
    (cur : Proc) (k : Kernel) (i page : ℕ) (k1 : Kernel) → Allocates k i page k1 → Proc
marked_entry cur k i page k1 new =
    marks cur k1.nextlwpid (set_kstack page (embryo_of (next_of k) new.first.entry))

-- `fork_copied`, for the entry that `allocproc` gave.
copied-Forks :
    (c : ℕ) (cur : Proc) (k k1 : Kernel) (i page pid : ℕ) (r : Option ℕ × Kernel) (k' : Kernel)
    (new : Allocates k i page k1)
    → r.1.procs ≡ (mark_forked cur i k1).procs
    → fork_copied c cur i (marked_entry cur k i page k1 new) r ≡ returns pid k'
    → Forks c cur k pid k'
unfolding fork_copied
copied-Forks c cur k k1 i page pid (none, k2) k' new same h =
    elim (Option-cases (kfree (marked_entry cur k i page k1 new).kstack k2.kmem)) [
      | inl e ↦ absurd (panics≢returns (rw (e, fork_copied) at h))
      | inr (kmem, e) ↦ absurd (fails≢returns (rw (e, fork_copied) at h))
    ]
copied-Forks c cur k k1 i page pid (some pgdir, k2) k' new same h =
    elim (Option-cases (dup_files (marked_entry cur k i page k1 new).ofile cur.ofile k2.files)) [
      | inl e ↦ absurd (panics≢returns (rw (e, fork_copied) at h))
      | inr (q, e) ↦
          let np = marked_entry cur k i page k1 new in
          let (n, z) = returns_eq (rw (e, fork_copied) at h) in
          let table : modify i (child_of c cur pgdir q.0) k2.procs ≡ k'.procs =
            ap (λ y. y.procs) z in
          let entry = set_kstack page (embryo_of (next_of k) new.first.entry) in
          let np_at : get_elem? k2.procs i ≡ some np =
            ap (λ l. get_elem? l i) same ∙ mark_forked-at cur i k1 entry new.entry in
          let (number, kills) = marks-pid cur k1.nextlwpid entry in
          record {
            index = i;
            was = new.first.entry;
            was_at = new.first.at;
            was_unused = new.first.passes;
            child = child_of c cur pgdir q.0 np;
            at =
                ap (λ l. get_elem? l i) (sym table)
                ∙ get_elem?-modify_self (child_of c cur pgdir q.0) i k2.procs np np_at;
            numbered = (sym n ∙ number, n);
            ready = (refl, refl, kills);
            memory = refl;
            resumes = (refl, refl, refl, refl);
            marked = marks-forked cur k1.nextlwpid entry refl;
            others = λ j ne.
                ap (λ l. get_elem? l j) (sym table)
                ∙ get_elem?-modify_ne (child_of c cur pgdir q.0) i j k2.procs ne
                ∙ ap (λ l. get_elem? l j) same
                ∙ mark_forked_ne cur i k1 j ne
                ∙ new.others j ne;
          }
    ]

fork_new-Forks :
    (vm : Vm) (c : ℕ) (cur : Proc) (k : Kernel) (pid : ℕ) (r : Option ℕ × Kernel) (k' : Kernel)
    → ((i : ℕ) × (page : ℕ) × (r.0 ≡ some i) × Allocates k i page r.1)
      ⊎ ((r.0 ≡ none) × Refuses k r.1)
    → fork_new vm c cur r ≡ returns pid k'
    → Forks c cur k pid k'
unfolding fork_new
fork_new-Forks vm c cur k pid (none, k1) k' o h = absurd (fails≢returns h)
fork_new-Forks vm c cur k pid (some i, k1) k' (inr (e, r)) h = cc
fork_new-Forks vm c cur k pid (some i, k1) k' (inl (j, page, e, new)) h =
    let z : j ≡ i = sym (some_eq e) in
    let new' : Allocates k i page k1 = subst (λ m. Allocates k m page k1) z new in
    copied-Forks c cur k k1 i page pid (copied vm cur (mark_forked cur i k1)) k' new' refl
      (rw (mark_forked-at cur i k1 _ new'.entry, fork_new) at h)

-- A `fork` that succeeds turns an UNUSED entry into a RUNNABLE child of the caller with the next pid,
-- which it returns, the caller's memory size, and the caller's registers, but 0 for the result; the
-- child is marked as forked exactly if the caller is an LWP, and no other entry changes.
pub fork-Forks :
    (vm : Vm) (c : ℕ) (cur : Proc) (k : Kernel) {pid : ℕ} {k' : Kernel}
    → fork vm c cur k ≡ returns pid k'
    → Forks c cur k pid k'
unfolding fork
fork-Forks vm c cur k {pid} {k'} h =
    fork_new-Forks vm c cur k pid (allocproc k) k' (allocproc_lem k) h
