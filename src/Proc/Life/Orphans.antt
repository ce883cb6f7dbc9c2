-- ===== src/Proc/Life/Orphans.antt =====
-- What a process that has left leaves behind: no open file, no current directory and no child.
use ele3021_operating_system.Base.{
  ℕ, ◌+◌, ◌*◌, >>=-eq-some, ◌≡◌, ◌≢◌, refl, sym, ap, subst, ◌∙◌, inl, inr, List, [], ◌∷◌, Option,
  none, some, get_elem?, arith, some_eq, ℕ_discrete, Bool-cases, Option-cases, length, ◌==◌, ◌++◌,
}
use ele3021_operating_system.Base.Find.{modify, get_elem?-modify_ne, get_elem?-modify_before}
use ele3021_operating_system.Base.Loops.{sweep, try_sweep, try_sweep_upto}
use ele3021_operating_system.Base.Int.{is_zero, ◌-ℤ◌, pos}
use ele3021_operating_system.Kalloc.{kfree, page_size}
use ele3021_operating_system.Proc.{Proc, zombie, is_zombie, same_mode, strd_set_sched}
use ele3021_operating_system.Proc.Table.{
  Kernel, Call, deallocuvm, reap_thread, free_entry, iput, set_state,
}
use ele3021_operating_system.Proc.Life.{close_files, no_files}
use ele3021_operating_system.Proc.Life.Exit.{
  panics, sleeps, gone, end_thread, adopt_one, wake_parent, return_share, leave, exit_round, exit,
}
use ele3021_operating_system.Proc.Life.Adopt.{adopted-orphans}

gone_eq : {a b : Kernel} → gone a ≡ gone b → a ≡ b
gone_eq h = cc

-- No entry of `k` is a child of `c`, and that of `c` is a ZOMBIE.
abbrev pub Ended : ℕ → Kernel → Type 0
Ended c k =
    (j : ℕ) (q : Proc)
    → get_elem? k.procs j ≡ some q
    → (q.parent ≢ some c) × (c ≡ j → q.state ≡ zombie)

stopped-Ended :
    (c init : ℕ) (ps : List Proc) (k : Kernel)
    → c ≢ init
    → Ended c
        (record k { procs = modify c (set_state zombie) (sweep (adopt_one c init) (length ps) ps) })
stopped-Ended c init ps k ne j q at = elim (ℕ_discrete c j) [
  | no other ↦ (
    adopted-orphans c init ps j q ne
        (sym (get_elem?-modify_ne (set_state zombie) c j after other) ∙ at),
    λ e. absurd (other e),
  )
  | yes same ↦
      let (p, here, z) =
        get_elem?-modify_before (set_state zombie) c after q
          (ap (get_elem? (modify c (set_state zombie) after)) same ∙ at) in
      (
        λ e. adopted-orphans c init ps c p ne here (ap (λ y. y.parent) z ∙ e),
        λ e. sym (ap (λ y. y.state) z),
      )
]
  where
    after : List Proc
    after = sweep (adopt_one c init) (length ps) ps

return_share_init : (cur : Proc) (k : Kernel) → (return_share cur k).initproc ≡ k.initproc
return_share_init cur k = elim (Bool-cases (same_mode cur.mode strd_set_sched)) [
  | inl e ↦ rw e refl
  | inr e ↦ rw e refl
]

leave-Ended :
    (c : ℕ) (cur : Proc) (k k' : Kernel) → c ≢ k.initproc → leave c cur k ≡ gone k' → Ended c k'
unfolding leave
leave-Ended c cur k k' ne h = elim (Option-cases (close_files cur.ofile k.files)) [
  | inl e ↦ absurd (nothing (rw (e, leave) at h))
  | inr (r, e) ↦
      let k1 : Kernel = record k {
        files = r.1;
        calls = k.calls ++ (r.0 ++ (iput cur.cwd ∷ []));
        procs =
            wake_parent cur
              (modify c (λ p. record p { ofile = no_files p.ofile; cwd = none }) k.procs);
      } in
      let k2 = return_share cur k1 in
      subst (Ended c) (gone_eq (rw (e, leave) at h))
        (stopped-Ended c k2.initproc k2.procs k2 (λ q. ne (q ∙ return_share_init cur k1)))
]
  where
    nothing : panics ≡ gone k' → ⊥
    nothing q = cc

free_entry_init :
    (i kstack : ℕ) (call : Call) (clean : Proc → Proc) (k k' : Kernel)
    → free_entry i kstack call clean k ≡ some k'
    → k'.initproc ≡ k.initproc
unfolding free_entry
free_entry_init i kstack call clean k k' h = elim (Option-cases (kfree kstack k.kmem)) [
  | inl e ↦ absurd (nothing (rw (e, free_entry) at h))
  | inr (kmem, e) ↦ sym (ap (λ z. z.initproc) (some_eq (rw (e, free_entry) at h)))
]
  where
    nothing : ◌≡◌ {A = Option Kernel} none (some k') → ⊥
    nothing q = cc

end_thread_init :
    (pid i : ℕ) (k k' : Kernel) → end_thread pid i k ≡ some k' → k'.initproc ≡ k.initproc
unfolding end_thread
end_thread_init pid i k k' h = elim (Option-cases (get_elem? k.procs i)) [
  | inl e ↦ sym (init (rw (e, end_thread) at h))
  | inr (p, e) ↦ elim (Bool-cases (p.lwppid == pid)) [
    | inr f ↦ sym (init (rw (e, f, end_thread) at h))
    | inl f ↦ elim (Bool-cases (is_zombie p.state)) [
      | inr g ↦ sym (init (rw (e, f, g, end_thread) at h))
      | inl g ↦
          let call = deallocuvm p.pgdir (p.sbase + 2 * page_size) p.sbase in
          let (k1, e1, e2) =
            >>=-eq-some (free_entry i p.kstack call reap_thread k)
              (λ k'. some (let z : Kernel = record k' { num_lwp = k'.num_lwp -ℤ pos 1 } in z))
              (rw (e, f, g, end_thread) at h) in
          sym (init e2) ∙ free_entry_init i p.kstack call reap_thread k k1 e1
    ]
  ]
]
  where
    init : {a : Kernel} → some a ≡ some k' → a.initproc ≡ k'.initproc
    init q = ap (λ z. z.initproc) (some_eq q)

exit_round-Ended :
    (c : ℕ) (cur : Proc) (k k' : Kernel)
    → c ≢ k.initproc
    → exit_round c cur k ≡ gone k'
    → Ended c k'
unfolding exit_round
exit_round-Ended c cur k k' ne h =
    elim (Option-cases (try_sweep (end_thread cur.pid) (length k.procs) k)) [
      | inl e ↦ absurd (panics≢ (rw (e, exit_round) at h))
      | inr (k1, e) ↦ elim (Bool-cases (is_zero k1.num_lwp)) [
        | inr f ↦ absurd (sleeps≢ (rw (e, f, exit_round) at h))
        | inl f ↦ leave-Ended c cur k1 k' (λ q. ne (q ∙ same k1 e)) (rw (e, f, exit_round) at h)
      ]
    ]
  where
    panics≢ : panics ≡ gone k' → ⊥
    panics≢ q = cc

    sleeps≢ : {a : Kernel} → sleeps a ≡ gone k' → ⊥
    sleeps≢ q = cc

    same :
        (k1 : Kernel)
        → try_sweep (end_thread cur.pid) (length k.procs) k ≡ some k1
        → k1.initproc ≡ k.initproc
    same k1 e =
        try_sweep_upto (end_thread cur.pid) (λ m s. s.initproc ≡ k.initproc)
          (λ m s s' q e. end_thread_init cur.pid m s s' e ∙ q) (length k.procs) k k1 refl e

-- If `exit` ends the process `c`, every process has a parent other than `c` or none afterwards, and
-- `c` is a ZOMBIE.
pub exit-Ended : (c : ℕ) (cur : Proc) (k k' : Kernel) → exit c cur k ≡ gone k' → Ended c k'
unfolding exit
exit-Ended c cur k k' h = elim (Bool-cases (c == k.initproc)) [
  | inl e ↦ absurd (panics≢ (rw e at h))
  | inr e ↦
      let ne : c ≢ k.initproc = λ q. ground (arith, q) in
      elim (Bool-cases (cur.lwpid == 0)) [
        | inl f ↦ exit_round-Ended c cur _ k' ne (simp (e, f) at h)
        | inr f ↦ elim (Bool-cases cur.forked) [
          | inl g ↦ leave-Ended c cur k k' ne (simp (e, f, g) at h)
          | inr g ↦ elim (Option-cases cur.parent) [
            | inl p ↦ absurd (panics≢ (simp (e, f, g, p) at h))
            | inr (m, p) ↦ leave-Ended c cur _ k' ne (simp (e, f, g, p) at h)
          ]
        ]
      ]
]
  where
    panics≢ : panics ≡ gone k' → ⊥
    panics≢ q = cc
