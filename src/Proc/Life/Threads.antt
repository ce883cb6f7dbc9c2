-- ===== src/Proc/Life/Threads.antt =====
-- `thread_create` and `growproc` keep the pids apart and disturb no CPU.
use ele3021_operating_system.Base.{
  ℕ, zero, suc, ◌+◌, ◌*◌, ◌≡◌, refl, ap, subst, inl, inr, [], ◌∷◌, Option, none, some, get_elem?,
  some_eq, Bool-cases, Option-cases, not, ◌++◌, >>=-eq-some,
}
use ele3021_operating_system.Base.Find.{modify, find_index}
use ele3021_operating_system.Base.Int.{ℤ, pos, negsuc, ◌+ℤ◌}
use ele3021_operating_system.Kalloc.{page_size}
use ele3021_operating_system.Proc.{switchuvm, Proc, unused}
use ele3021_operating_system.Proc.Table.{Kernel, allocproc, get_base, take_slot, set_state, idup}
use ele3021_operating_system.Proc.Life.{Vm, dup_files}
use ele3021_operating_system.Proc.Life.Thread.{
  lwp_of, start_at, thread_mapped, thread_stack, thread_based, thread_new, thread_create,
  take_bases, bases_of, resize, set_sz, resized, growproc, manager,
}
use ele3021_operating_system.Proc.Life.Quiet.{
  Quiet, Quiet-refl, Quiet-trans, Evolves-same, Quiet-elsewhere, Quiet-modify,
}
use ele3021_operating_system.Proc.Life.Births.{
  After, After-map, IsEmbryo, allocproc-Quiet, embryo-Quiet, IsEmbryo-modify,
}

thread_mapped-Quiet :
    (cur : Proc) (routine i : ℕ) (np : Proc) (r : Option ℕ × Kernel)
    → IsEmbryo r.1 (some i)
    → After (Quiet r.1) (thread_mapped cur routine i np r)
unfolding thread_mapped
thread_mapped-Quiet cur routine i np (none, k) em =
    embryo-Quiet i (λ p. set_state unused (record p { sz = 0 })) k _ em refl refl (λ p. refl)
      (λ p. refl)
thread_mapped-Quiet cur routine i np (some sz, k) em =
    elim (Option-cases (dup_files np.ofile cur.ofile k.files)) [
      | inl e ↦ rw (e, thread_mapped) tt
      | inr (q, e) ↦
          rw (e, thread_mapped)
            (embryo-Quiet i (start_at routine sz q.0) k _ em refl refl (λ p. refl) (λ p. refl))
    ]

thread_based-Quiet :
    (vm : Vm) (cur : Proc) (routine i : ℕ) (r : Option (ℕ × Kernel)) (k : Kernel)
    → ((s : ℕ) (k1 : Kernel) → r ≡ some (s, k1) → Quiet k k1 × IsEmbryo k1 (some i))
    → After (Quiet k) (thread_based vm cur routine i r)
unfolding thread_based
thread_based-Quiet vm cur routine i none k h = tt
thread_based-Quiet vm cur routine i (some (s, k1)) k h =
    let (q, em) = h s k1 refl in
    let r = thread_stack vm cur i s k1 in
    elim (Option-cases (get_elem? r.1.procs i)) [
      | inl e ↦ rw (e, thread_based) tt
      | inr (np, e) ↦
          rw (e, thread_based)
            (After-map (Quiet r.1) (Quiet k)
              (λ k2 g. Quiet-trans q (
                Quiet-trans
                  (Quiet-modify k1 r.1 i based refl refl
                    (λ p at. Evolves-same p (based p) refl refl))
                  g))
              (thread_mapped cur routine i np r)
              (thread_mapped-Quiet cur routine i np r
                (IsEmbryo-modify i based k1 r.1 em refl (λ p. refl))))
    ]
  where
    based : Proc → Proc
    based p = record p { sbase = cur.sz + 2 * page_size * (s + 1) }

pub get_base-Quiet :
    (i : ℕ) (k k1 : Kernel) (s : ℕ)
    → get_base i k ≡ some (s, k1)
    → Quiet k k1 × (IsEmbryo k (some i) → IsEmbryo k1 (some i))
unfolding get_base
get_base-Quiet i k k1 s h = elim (Option-cases (find_index not k.stable)) [
  | inl e ↦ absurd (nothing (rw (e, get_base) at h))
  | inr (t, e) ↦
      let z : take_slot t i k ≡ k1 = ap (λ r. r.1) (some_eq (rw (e, get_base) at h)) in
      subst (λ k1. Quiet k k1 × (IsEmbryo k (some i) → IsEmbryo k1 (some i))) z
        (
          Quiet-modify k (take_slot t i k) i (λ p. record p { snum = t }) refl refl
              (λ p at. Evolves-same p (record p { snum = t }) refl refl),
          λ em.
              IsEmbryo-modify i (λ p. record p { snum = t }) k (take_slot t i k) em refl
                (λ p. refl),
        )
]
  where
    nothing : ◌≡◌ {A = Option (ℕ × Kernel)} none (some (s, k1)) → ⊥
    nothing q = cc

thread_new-Quiet :
    (vm : Vm) (c : ℕ) (cur : Proc) (routine : ℕ) (r : Option ℕ × Kernel)
    → IsEmbryo r.1 r.0
    → After (Quiet r.1) (thread_new vm c cur routine r)
unfolding thread_new
thread_new-Quiet vm c cur routine (none, k) em = Quiet-refl k
thread_new-Quiet vm c cur routine (some i, k) em =
    thread_based-Quiet vm cur routine i (get_base i k0) k (λ s k1 e.
      let (q, keep) = get_base-Quiet i k0 k1 s e in
      (
        Quiet-trans (Quiet-modify k k0 i new refl refl (λ p at. Evolves-same p (new p) refl refl))
            q,
        keep (IsEmbryo-modify i new k k0 em refl (λ p. refl)),
      ))
  where
    new : Proc → Proc
    new = lwp_of c cur k.nextlwpid

    k0 : Kernel
    k0 = record k {
      num_lwp = k.num_lwp +ℤ pos 1;
      nextlwpid = k.nextlwpid + 1;
      calls = k.calls ++ (idup cur.cwd ∷ []);
      procs = modify i (lwp_of c cur k.nextlwpid) k.procs;
    }

pub thread_create-Quiet :
    (vm : Vm) (c : ℕ) (cur : Proc) (routine : ℕ) (k : Kernel)
    → After (Quiet k) (thread_create vm c cur routine k)
unfolding thread_create
thread_create-Quiet vm c cur routine k =
    let (q, em) = allocproc-Quiet k in
    After-map (Quiet (allocproc k).1) (Quiet k) (λ k' h. Quiet-trans q h)
      (thread_new vm c cur routine (allocproc k))
      (thread_new-Quiet vm c cur routine (allocproc k) em)

take_bases-Quiet : (n c : ℕ) (k : Kernel) {k' : Kernel} → take_bases n c k ≡ some k' → Quiet k k'
unfolding take_bases
take_bases-Quiet zero c k {k'} h = subst (Quiet k) (some_eq h) (Quiet-refl k)
take_bases-Quiet (suc n) c k h =
    let (r, e, g) = >>=-eq-some (get_base c k) (λ r. take_bases n c r.1) h in
    Quiet-trans (get_base-Quiet c k r.1 r.0 e).0 (take_bases-Quiet n c r.1 g)

resized-Quiet :
    (m : ℕ) (cur : Proc) (k : Kernel) (r : Option ℕ × Kernel)
    → Quiet k r.1
    → After (Quiet k) (resized m cur r)
unfolding resized
resized-Quiet m cur k (none, k1) q = q
resized-Quiet m cur k (some sz, k1) q = elim (Bool-cases (switchuvm cur)) [
  | inr e ↦ rw (e, resized) tt
  | inl e ↦
      rw (e, resized)
        (Quiet-trans q (
          Quiet-modify k1 _ m (set_sz sz) refl refl
            (λ p at. Evolves-same p (set_sz sz p) refl refl)))
]

resize-Quiet :
    (vm : Vm) (pgdir : ℕ) (n : ℤ) (sz : ℕ) (k : Kernel) → Quiet k (resize vm pgdir n sz k).1
unfolding resize
resize-Quiet vm pgdir (pos zero) sz k = Quiet-refl k
resize-Quiet vm pgdir (pos (suc n)) sz k = Quiet-elsewhere k _ refl refl
resize-Quiet vm pgdir (negsuc n) sz k = Quiet-elsewhere k _ refl refl

pub growproc-Quiet :
    (vm : Vm) (c : ℕ) (cur : Proc) (n : ℤ) (k : Kernel) → After (Quiet k) (growproc vm c cur n k)
unfolding growproc
growproc-Quiet vm c cur n k = elim (Option-cases (take_bases (bases_of n) c k)) [
  | inl e ↦ rw (e, growproc) tt
  | inr (k1, e) ↦ elim (Option-cases (manager c cur)) [
    | inl f ↦ rw (e, f, growproc) tt
    | inr (m, f) ↦ elim (Option-cases (get_elem? k1.procs m)) [
      | inl g ↦ rw (e, f, g, growproc) tt
      | inr (p, g) ↦
          rw (e, f, g, growproc)
            (resized-Quiet m cur k (resize vm cur.pgdir n p.sz k1) (
              Quiet-trans (take_bases-Quiet (bases_of n) c k e)
                (resize-Quiet vm cur.pgdir n p.sz k1)))
    ]
  ]
]
