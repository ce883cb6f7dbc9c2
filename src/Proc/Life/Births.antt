-- ===== src/Proc/Life/Births.antt =====
-- `fork`, `thread_create` and `growproc` keep the pids apart and disturb no CPU.
use ele3021_operating_system.Base.{
  ℕ, ◌+◌, ◌≡◌, ◌≢◌, refl, sym, ap, subst, ◌∙◌, ◌⊎◌, inl, inr, true, false, Option, none, some,
  get_elem?, arith, some_eq, ℕ_discrete, Bool-cases, Option-cases, ltb,
}
use ele3021_operating_system.Base.Find.{modify, get_elem?-modify_before}
use ele3021_operating_system.Kalloc.{kfree}
use ele3021_operating_system.Proc.{Proc, is_unused, is_running, embryo}
use ele3021_operating_system.Proc.Table.{Kernel, allocproc, set_kstack, embryo_of, next_of}
use ele3021_operating_system.Proc.Table.Alloc.{
  Allocates, Refuses, no_entry, no_page, allocproc_lem, allocproc-KeepsPids,
}
use ele3021_operating_system.Proc.Life.{
  Vm, Result, panics, fails, returns, dup_files, mark_forked, child_of, drop_stack, fork_copied,
  copied, fork_new, fork,
}
use ele3021_operating_system.Proc.Life.Quiet.{
  runs, Quiet, Quiet-refl, Quiet-trans, Evolves, Evolves-same, Quiet-elsewhere, Quiet-modify,
}

-- A relation between the kernel before a call and after it, unless the call panics.
abbrev pub After : (Kernel → Type 0) → Result → Type 0
After P panics = Unit
After P (fails k) = P k
After P (returns n k) = P k

pub After-map :
    (P Q : Kernel → Type 0) → ((k : Kernel) → P k → Q k) → (r : Result) → After P r → After Q r
After-map P Q f panics h = tt
After-map P Q f (fails k) h = f k h
After-map P Q f (returns n k) h = f k h

-- The entry that `allocproc` found, if it found one, is an EMBRYO.
abbrev pub IsEmbryo : Kernel → Option ℕ → Type 0
IsEmbryo k none = Unit
IsEmbryo k (some i) = (p : Proc) → get_elem? k.procs i ≡ some p → p.state ≡ embryo

not_running : (p : Proc) → is_unused p.state ≡ true → is_running p.state ≡ false
not_running p h = ground arith

-- A table that changes at `i` only, where neither the old nor the new entry runs.
calm_but :
    (k k' : Kernel) (i : ℕ) (p p' : Proc)
    → get_elem? k.procs i ≡ some p
    → is_running p.state ≡ false
    → get_elem? k'.procs i ≡ some p'
    → is_running p'.state ≡ false
    → ((j : ℕ) → i ≢ j → get_elem? k'.procs j ≡ get_elem? k.procs j)
    → (j : ℕ) → runs (get_elem? k'.procs j) ≡ runs (get_elem? k.procs j)
calm_but k k' i p p' at rest at' rest' others j = elim (ℕ_discrete i j) [
  | yes e ↦ rw (← e) (ap runs at' ∙ rest' ∙ sym (ap runs at ∙ rest))
  | no ne ↦ ap runs (others j ne)
]

Allocates-calm :
    (k : Kernel) (i page : ℕ) (k' : Kernel)
    → Allocates k i page k'
    → (j : ℕ) → runs (get_elem? k'.procs j) ≡ runs (get_elem? k.procs j)
Allocates-calm k i page k' r =
    calm_but k k' i r.first.entry (set_kstack page (embryo_of (next_of k) r.first.entry)) r.first.at
      (not_running r.first.entry r.first.passes) r.entry refl r.others

Refuses-calm :
    (k k' : Kernel)
    → Refuses k k'
    → (j : ℕ) → runs (get_elem? k'.procs j) ≡ runs (get_elem? k.procs j)
Refuses-calm k k' (no_entry all e) = λ j. ap (λ z. runs (get_elem? z.procs j)) e
Refuses-calm k k' (no_page i p empty first at free next others) =
    calm_but k k' i first.entry p first.at (not_running first.entry first.passes) at
      (not_running p free) others

pub allocproc-Quiet :
    (k : Kernel) → Quiet k (allocproc k).1 × IsEmbryo (allocproc k).1 (allocproc k).0
allocproc-Quiet k = (
  record { pids = allocproc-KeepsPids k; calm = calm (allocproc_lem k) },
  fresh (allocproc_lem k),
)
  where
    calm :
        (((i : ℕ) × (page : ℕ) × ((allocproc k).0 ≡ some i) × Allocates k i page (allocproc k).1)
          ⊎ (((allocproc k).0 ≡ none) × Refuses k (allocproc k).1))
        → (j : ℕ) → runs (get_elem? (allocproc k).1.procs j) ≡ runs (get_elem? k.procs j)
    calm (inl (i, page, e, r)) j = Allocates-calm k i page (allocproc k).1 r j
    calm (inr (e, r)) j = Refuses-calm k (allocproc k).1 r j

    fresh :
        (((i : ℕ) × (page : ℕ) × ((allocproc k).0 ≡ some i) × Allocates k i page (allocproc k).1)
          ⊎ (((allocproc k).0 ≡ none) × Refuses k (allocproc k).1))
        → IsEmbryo (allocproc k).1 (allocproc k).0
    fresh (inl (i, page, e, r)) =
        subst (IsEmbryo (allocproc k).1) (sym e)
          (λ p at. sym (ap (λ z. z.state) (some_eq (sym r.entry ∙ at))))
    fresh (inr (e, r)) = subst (IsEmbryo (allocproc k).1) (sym e) tt

-- A change of an EMBRYO at `i` that leaves it no UNUSED or RUNNING entry, or gives it up.
embryo-Evolves :
    (p p' : Proc) → p.state ≡ embryo → p'.pid ≡ p.pid → is_running p'.state ≡ false → Evolves p p'
embryo-Evolves p p' e n rest = record {
  calm = rest ∙ sym (ap is_running e);
  used = λ h. (ap is_unused e, n);
}

module _ (i : ℕ) (f : Proc → Proc) where
  -- A change of the EMBRYO at `i` to an entry that does not run.
  pub embryo-Quiet :
      (k k' : Kernel)
      → IsEmbryo k (some i)
      → k.nextpid ≡ k'.nextpid
      → k'.procs ≡ modify i f k.procs
      → ((p : Proc) → (f p).pid ≡ p.pid)
      → ((p : Proc) → is_running (f p).state ≡ false)
      → Quiet k k'
  embryo-Quiet k k' em n e pid rest =
      Quiet-modify k k' i f n e (λ p at. embryo-Evolves p (f p) (em p at) (pid p) (rest p))

  -- A change that keeps the state leaves an EMBRYO one.
  pub IsEmbryo-modify :
      (k k' : Kernel)
      → IsEmbryo k (some i)
      → k'.procs ≡ modify i f k.procs
      → ((p : Proc) → (f p).state ≡ p.state)
      → IsEmbryo k' (some i)
  IsEmbryo-modify k k' em e same p at =
      let (q, here, z) =
        get_elem?-modify_before f i k.procs p (ap (λ l. get_elem? l i) (sym e) ∙ at) in
      sym (ap (λ y. y.state) z) ∙ same q ∙ em q here

fork_copied-Quiet :
    (c : ℕ) (cur : Proc) (i : ℕ) (np : Proc) (r : Option ℕ × Kernel)
    → IsEmbryo r.1 (some i)
    → After (Quiet r.1) (fork_copied c cur i np r)
unfolding fork_copied
fork_copied-Quiet c cur i np (none, k) em = elim (Option-cases (kfree np.kstack k.kmem)) [
  | inl e ↦ rw (e, fork_copied) tt
  | inr (kmem, e) ↦
      rw (e, fork_copied) (embryo-Quiet i drop_stack k _ em refl refl (λ p. refl) (λ p. refl))
]
fork_copied-Quiet c cur i np (some pgdir, k) em =
    elim (Option-cases (dup_files np.ofile cur.ofile k.files)) [
      | inl e ↦ rw (e, fork_copied) tt
      | inr (q, e) ↦
          rw (e, fork_copied)
            (embryo-Quiet i (child_of c cur pgdir q.0) k _ em refl refl (λ p. refl) (λ p. refl))
    ]

mark_forked-Quiet :
    (cur : Proc) (i : ℕ) (k : Kernel)
    → IsEmbryo k (some i)
    → Quiet k (mark_forked cur i k) × IsEmbryo (mark_forked cur i k) (some i)
mark_forked-Quiet cur i k em = elim (Bool-cases (ltb 0 cur.lwpid)) [
  | inl e ↦ rw e (
    Quiet-modify k marked i mark refl refl (λ p at. Evolves-same p (mark p) refl refl),
    IsEmbryo-modify i mark k marked em refl (λ p. refl),
  )
  | inr e ↦ rw e (Quiet-refl k, em)
]
  where
    mark : Proc → Proc
    mark p = record p { forked = true; lwpid = k.nextlwpid }

    marked : Kernel
    marked = record k { nextlwpid = k.nextlwpid + 1; procs = modify i mark k.procs }

fork_new-Quiet :
    (vm : Vm) (c : ℕ) (cur : Proc) (r : Option ℕ × Kernel)
    → IsEmbryo r.1 r.0
    → After (Quiet r.1) (fork_new vm c cur r)
unfolding fork_new
fork_new-Quiet vm c cur (none, k) em = Quiet-refl k
fork_new-Quiet vm c cur (some i, k) em =
    let (q, em') = mark_forked-Quiet cur i k em in
    let k1 = mark_forked cur i k in
    elim (Option-cases (get_elem? k1.procs i)) [
      | inl e ↦ rw (e, fork_new) tt
      | inr (np, e) ↦
          rw (e, fork_new)
            (After-map (Quiet (copied vm cur k1).1) (Quiet k)
              (λ k2 h.
                Quiet-trans q (Quiet-trans (Quiet-elsewhere k1 (copied vm cur k1).1 refl refl) h))
              (fork_copied c cur i np (copied vm cur k1))
              (fork_copied-Quiet c cur i np (copied vm cur k1) em'))
    ]

pub fork-Quiet : (vm : Vm) (c : ℕ) (cur : Proc) (k : Kernel) → After (Quiet k) (fork vm c cur k)
unfolding fork
fork-Quiet vm c cur k =
    let (q, em) = allocproc-Quiet k in
    After-map (Quiet (allocproc k).1) (Quiet k) (λ k' h. Quiet-trans q h)
      (fork_new vm c cur (allocproc k)) (fork_new-Quiet vm c cur (allocproc k) em)
