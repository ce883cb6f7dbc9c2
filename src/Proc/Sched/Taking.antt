-- ===== src/Proc/Sched/Taking.antt =====
-- A CPU takes a process.
use ele3021_operating_system.Base.{
  ℕ, ◌≡◌, ◌≢◌, refl, sym, ap, subst, ◌∙◌, true, false, none, some, get_elem?, arith, some_eq,
  ℕ_discrete, set,
}
use ele3021_operating_system.Base.Find.{modify, get_elem?-modify_self, get_elem?-modify_ne}
use ele3021_operating_system.Proc.{Proc, is_unused, is_runnable, running}
use ele3021_operating_system.Proc.Table.{Kernel, set_state}
use ele3021_operating_system.Proc.Life.Quiet.{runs}
use ele3021_operating_system.Proc.Sched.{Cpu, System}
use ele3021_operating_system.Proc.Sched.Cpus.{
  IsPlaced, proc_of, on_cpu, changed, changed_here, changed_there, some≢none,
}

-- A CPU without a process takes the process `i` that is RUNNABLE.
pub take-IsPlaced :
    (s : System) (n i next : ℕ) (cpu : Cpu) (p : Proc)
    → get_elem? s.cpus n ≡ some cpu
    → cpu.proc ≡ none
    → get_elem? s.kernel.procs i ≡ some p
    → is_runnable p.state ≡ true
    → IsPlaced s
    → IsPlaced (record {
      kernel = record s.kernel { procs = modify i (set_state running) s.kernel.procs };
      cpus = set s.cpus n (record { proc = some i; next = next });
    })
take-IsPlaced s n i next cpu p at idle here can ok = record {
  pids = λ fits.
      let pids = ok.pids fits in
      record {
        below = λ j q at' u.
            let (q0, at0, u0, same) = before j q at' u in omega (arith, pids.below j q0 at0 u0);
        distinct = λ a b q r at' u at'' v same.
            let (q0, at0, u0, eq) = before a q at' u in
            let (r0, at1, u1, er) = before b r at'' v in
            pids.distinct a b q0 r0 at0 u0 at1 u1 (omega arith);
      };
  running = λ m j h. elim (ℕ_discrete n m) [
    | yes same ↦
        let e : i ≡ j = some_eq (sym set_here ∙ ap (on_cpu t) same ∙ h) in
        subst (λ z. runs (get_elem? k'.procs z) ≡ true) e now
    | no ne ↦ kept j (ok.running m j (sym (there m ne) ∙ h))
  ];
  placed = λ j h. elim (ℕ_discrete i j) [
    | yes same ↦ (n, set_here ∙ ap some same)
    | no ne ↦
        let (m, h0) = ok.placed j (sym (ap runs (others j ne)) ∙ h) in
        (m, there m (λ e. some≢none (sym was_idle ∙ ap (on_cpu s) e ∙ h0)) ∙ h0)
  ];
  alone = λ a b j h h'. elim (ℕ_discrete n a) [
    | yes same ↦ elim (ℕ_discrete n b) [
      | yes same' ↦ sym same ∙ same'
      | no ne ↦
          absurd
            (not_on b j (some_eq (sym set_here ∙ ap (on_cpu t) same ∙ h)) (sym (there b ne) ∙ h'))
    ]
    | no ne ↦ elim (ℕ_discrete n b) [
      | yes same' ↦
          absurd
            (not_on a j (some_eq (sym set_here ∙ ap (on_cpu t) same' ∙ h')) (sym (there a ne) ∙ h))
      | no ne' ↦ ok.alone a b j (sym (there a ne) ∙ h) (sym (there b ne') ∙ h')
    ]
  ];
}
  where
    k' : Kernel
    k' = record s.kernel { procs = modify i (set_state running) s.kernel.procs }

    cpu' : Cpu
    cpu' = record { proc = some i; next = next }

    t : System
    t = changed s n cpu cpu' at k'

    was_idle : on_cpu s n ≡ none
    was_idle = ap proc_of at ∙ idle

    set_here : on_cpu t n ≡ some i
    set_here = changed_here s n cpu cpu' at k'

    there : (m : ℕ) → n ≢ m → on_cpu t m ≡ on_cpu s m
    there = changed_there s n cpu cpu' at k'

    entry : get_elem? k'.procs i ≡ some (set_state running p)
    entry = get_elem?-modify_self (set_state running) i s.kernel.procs p here

    others : (j : ℕ) → i ≢ j → get_elem? k'.procs j ≡ get_elem? s.kernel.procs j
    others j ne = get_elem?-modify_ne (set_state running) i j s.kernel.procs ne

    now : runs (get_elem? k'.procs i) ≡ true
    now = ap runs entry

    rested : runs (get_elem? s.kernel.procs i) ≡ false
    rested = ap runs here ∙ ground arith

    kept : (j : ℕ) → runs (get_elem? s.kernel.procs j) ≡ true → runs (get_elem? k'.procs j) ≡ true
    kept j h = elim (ℕ_discrete i j) [
      | yes same ↦ subst (λ z. runs (get_elem? k'.procs z) ≡ true) same now
      | no ne ↦ ap runs (others j ne) ∙ h
    ]

    not_on : (m j : ℕ) → i ≡ j → on_cpu s m ≡ some j → ⊥
    not_on m j e h =
        false≢ (sym rested ∙ ap (λ z. runs (get_elem? s.kernel.procs z)) e ∙ ok.running m j h)
      where
        false≢ : false ≡ true → ⊥
        false≢ q = cc

    before :
        (j : ℕ) (q : Proc)
        → get_elem? k'.procs j ≡ some q
        → is_unused q.state ≡ false
        → (q0 : Proc) × (get_elem? s.kernel.procs j ≡ some q0)
          × (is_unused q0.state ≡ false)
          × (q0.pid ≡ q.pid)
    before j q at' u = elim (ℕ_discrete i j) [
      | yes same ↦
          let e : set_state running p ≡ q =
            some_eq (sym entry ∙ ap (get_elem? k'.procs) same ∙ at') in
          (p, ap (get_elem? s.kernel.procs) (sym same) ∙ here, ground arith, ap (λ z. z.pid) e)
      | no ne ↦ (q, sym (others j ne) ∙ at', u, refl)
    ]
