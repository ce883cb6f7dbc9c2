-- ===== src/Proc/Life/Ends.antt =====
-- `exit`, `thread_exit`, `wait`, `thread_join` and `kill` keep the pids apart; only the process that
-- ends leaves its CPU.
use ele3021_operating_system.Base.{
  ℕ, ◌+◌, ◌*◌, ◌≡◌, ◌≢◌, refl, sym, ap, subst, ◌∙◌, inl, inr, true, false, List, [], ◌∷◌, Option,
  none, some, get_elem?, arith, some_eq, ℕ_discrete, Bool-cases, Option-cases, >>=-eq-some, ◌==◌,
  ◌++◌,
}
use ele3021_operating_system.Base.Find.{modify, get_elem?-modify_self, get_elem?-modify_ne}
use ele3021_operating_system.Base.Int.{pos, ◌-ℤ◌}
use ele3021_operating_system.Kalloc.{kfree, page_size}
use ele3021_operating_system.Proc.{Proc, of_proc, is_unused, is_running, is_zombie}
use ele3021_operating_system.Proc.Table.{Kernel, Call, deallocuvm, wakeup1, free_entry, reap_thread}
use ele3021_operating_system.Proc.Table.Alloc.{KeepsPids}
use ele3021_operating_system.Proc.Life.Exit.{set_killed, end_thread}
use ele3021_operating_system.Proc.Life.Quiet.{
  runs, Quiet, Quiet-refl, Quiet-trans, Evolves, Evolves-same, Evolve-modify, Evolve-trans,
  Evolve-Quiet, Quiet-elsewhere, Quiet-modify, wakeup1-Evolve,
}

-- The process `c` stops running, and no other process goes on or off a CPU.
pub record Left (c : ℕ) (k k' : Kernel) : Type 0 where
  pub pids : KeepsPids k → KeepsPids k'
  pub others : (j : ℕ) → c ≢ j → runs (get_elem? k'.procs j) ≡ runs (get_elem? k.procs j)
  pub stopped : runs (get_elem? k'.procs c) ≡ false

pub Quiet-Left : {c : ℕ} {a b d : Kernel} → Quiet a b → Left c b d → Left c a d
Quiet-Left q l = record {
  pids = λ h. l.pids (q.pids h);
  others = λ j ne. l.others j ne ∙ q.calm j;
  stopped = l.stopped;
}

pub runs-some :
    (o : Option Proc) → runs o ≡ true → (p : Proc) × (o ≡ some p) × (is_running p.state ≡ true)
runs-some none h = cc
runs-some (some p) h = (p, refl, h)

-- A running process that is given another state.
pub stop-Left :
    (c : ℕ) (f : Proc → Proc) (k k' : Kernel)
    → runs (get_elem? k.procs c) ≡ true
    → k.nextpid ≡ k'.nextpid
    → k'.procs ≡ modify c f k.procs
    → ((p : Proc) → (f p).pid ≡ p.pid)
    → ((p : Proc) → is_running (f p).state ≡ false)
    → Left c k k'
stop-Left c f k k' on n e pid rest =
    let (p, at, r) = runs-some (get_elem? k.procs c) on in
    let used : is_unused p.state ≡ false = ground arith in
    let here = λ (j : ℕ). ap (λ l. get_elem? l j) e in
    record {
      stopped = ap runs (here c ∙ get_elem?-modify_self f c k.procs p at) ∙ rest p;
      others = λ j ne. ap runs (here j ∙ get_elem?-modify_ne f c j k.procs ne);
      pids = λ keeps fits.
          let ok = keeps (omega arith) in
          record {
            below = λ i q at' u.
                let (q0, at0, u0, same) = before k.procs i q p at used (sym (here i) ∙ at') u in
                omega (arith, ok.below i q0 at0 u0);
            distinct = λ i j q r at' u at'' v same.
                let (q0, at0, u0, eq) = before k.procs i q p at used (sym (here i) ∙ at') u in
                let (r0, at1, u1, er) = before k.procs j r p at used (sym (here j) ∙ at'') v in
                ok.distinct i j q0 r0 at0 u0 at1 u1 (omega arith);
          };
    }
  where
    before :
        (ps : List Proc) (i : ℕ) (q p : Proc)
        → get_elem? ps c ≡ some p
        → is_unused p.state ≡ false
        → get_elem? (modify c f ps) i ≡ some q
        → is_unused q.state ≡ false
        → (q0 : Proc) × (get_elem? ps i ≡ some q0) × (is_unused q0.state ≡ false) × (q0.pid ≡ q.pid)
    before ps i q p at used at' u = elim (ℕ_discrete c i) [
      | no ne ↦ (q, sym (get_elem?-modify_ne f c i ps ne) ∙ at', u, refl)
      | yes same ↦
          let z : f p ≡ q =
            some_eq (
              sym (get_elem?-modify_self f c ps p at)
              ∙ ap (get_elem? (modify c f ps)) same
              ∙ at') in
          (p, ap (get_elem? ps) (sym same) ∙ at, used, sym (pid p) ∙ ap (λ y. y.pid) z)
    ]

-- What is freed was a zombie.
pub zombie-Evolves :
    (p p' : Proc) → is_zombie p.state ≡ true → is_unused p'.state ≡ true → Evolves p p'
zombie-Evolves p p' z u = record {
  calm = ground arith;
  used = λ h. absurd (false≢true' (sym h ∙ u));
}
  where
    false≢true' : false ≡ true → ⊥
    false≢true' h = cc

pub free_entry-Quiet :
    (i kstack : ℕ) (call : Call) (clean : Proc → Proc) (k : Kernel) {k' : Kernel}
    → ((p : Proc) → is_unused (clean p).state ≡ true)
    → ((p : Proc) → get_elem? k.procs i ≡ some p → is_zombie p.state ≡ true)
    → free_entry i kstack call clean k ≡ some k'
    → Quiet k k'
unfolding free_entry
free_entry-Quiet i kstack call clean k {k'} cleans ended h =
    elim (Option-cases (kfree kstack k.kmem)) [
      | inl e ↦ absurd (nothing (rw (e, free_entry) at h))
      | inr (kmem, e) ↦
          let freed : Kernel = record k {
            kmem = kmem;
            calls = k.calls ++ (call ∷ []);
            procs = modify i clean k.procs;
          } in
          subst (Quiet k) (some_eq (rw (e, free_entry) at h)) (
            Quiet-modify k freed i clean refl refl
              (λ p at. zombie-Evolves p (clean p) (ended p at) (cleans p)))
    ]
  where
    nothing : ◌≡◌ {A = Option Kernel} none (some k') → ⊥
    nothing q = cc

pub end_thread-Quiet : (pid i : ℕ) (k k' : Kernel) → end_thread pid i k ≡ some k' → Quiet k k'
unfolding end_thread
end_thread-Quiet pid i k k' h = elim (Option-cases (get_elem? k.procs i)) [
  | inl e ↦ subst (Quiet k) (some_eq (rw (e, end_thread) at h)) (Quiet-refl k)
  | inr (p, e) ↦ elim (Bool-cases (p.lwppid == pid)) [
    | inr f ↦ subst (Quiet k) (some_eq (rw (e, f, end_thread) at h)) (Quiet-refl k)
    | inl f ↦ elim (Bool-cases (is_zombie p.state)) [
      | inl g ↦
          let call = deallocuvm p.pgdir (p.sbase + 2 * page_size) p.sbase in
          let (k1, e1, e2) =
            >>=-eq-some (free_entry i p.kstack call reap_thread k)
              (λ k'. some (let z : Kernel = record k' { num_lwp = k'.num_lwp -ℤ pos 1 } in z))
              (rw (e, f, g, end_thread) at h) in
          Quiet-trans
            (free_entry-Quiet i p.kstack call reap_thread k (λ q. refl)
              (λ q at. ap (λ z. is_zombie z.state) (some_eq (sym at ∙ e)) ∙ g) e1)
            (subst (Quiet k1) (some_eq e2) (Quiet-elsewhere k1 _ refl refl))
      | inr g ↦ subst (Quiet k) (some_eq (rw (e, f, g, end_thread) at h)) (
          Evolve-Quiet k (record k { procs = wakeup1 (of_proc i) (modify i set_killed k.procs) })
            (omega arith)
            (Evolve-trans k.procs (modify i set_killed k.procs) _
              (Evolve-modify set_killed i k.procs (λ q at. Evolves-same q (set_killed q) refl refl))
              (wakeup1-Evolve (of_proc i) (modify i set_killed k.procs))))
    ]
  ]
]
