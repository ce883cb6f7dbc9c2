-- ===== src/Proc/Sched/Cpus.antt =====
-- That a process runs exactly if it is on a CPU, on one only, and that the pids stay apart until their
-- counter is used up: what happens to this when a process takes or leaves a CPU.
use ele3021_operating_system.Base.{
  ℕ, ◌≡◌, ◌≢◌, sym, ap, subst, ◌∙◌, true, false, Option, none, some, get_elem?, some_eq, ℕ_discrete,
  set, get_elem?-set_self, get_elem?-set_ne,
}
use ele3021_operating_system.Proc.Table.{Kernel}
use ele3021_operating_system.Proc.Table.Alloc.{KeepsPids}
use ele3021_operating_system.Proc.Life.Quiet.{runs, Quiet}
use ele3021_operating_system.Proc.Life.Ends.{Left}
use ele3021_operating_system.Proc.Sched.{Cpu, System, switched}

-- The process on the CPU `n`.
abbrev pub proc_of : Option Cpu → Option ℕ
proc_of none = none
proc_of (some cpu) = cpu.proc

abbrev pub on_cpu : System → ℕ → Option ℕ
on_cpu s n = proc_of (get_elem? s.cpus n)

pub record IsPlaced (s : System) : Type 0 where
  pub pids : KeepsPids s.kernel
  pub running : (n c : ℕ) → on_cpu s n ≡ some c → runs (get_elem? s.kernel.procs c) ≡ true
  pub placed : (c : ℕ) → runs (get_elem? s.kernel.procs c) ≡ true → (n : ℕ) × (on_cpu s n ≡ some c)
  pub alone : (n m c : ℕ) → on_cpu s n ≡ some c → on_cpu s m ≡ some c → n ≡ m

pub Quiet-IsPlaced :
    (s : System) (k' : Kernel)
    → IsPlaced s
    → Quiet s.kernel k'
    → IsPlaced (record s { kernel = k' })
Quiet-IsPlaced s k' ok q = record {
  pids = q.pids ok.pids;
  running = λ n c h. q.calm c ∙ ok.running n c h;
  placed = λ c h. ok.placed c (sym (q.calm c) ∙ h);
  alone = ok.alone;
}

module _ (s : System) (n : ℕ) (cpu cpu' : Cpu) (at : get_elem? s.cpus n ≡ some cpu) where
  abbrev pub changed : Kernel → System
  changed k' = record { kernel = k'; cpus = set s.cpus n cpu' }

  pub changed_here : (k' : Kernel) → on_cpu (changed k') n ≡ cpu'.proc
  changed_here k' = ap proc_of (get_elem?-set_self s.cpus n cpu' cpu at)

  pub changed_there : (k' : Kernel) (m : ℕ) → n ≢ m → on_cpu (changed k') m ≡ on_cpu s m
  changed_there k' m ne = ap proc_of (get_elem?-set_ne s.cpus n m cpu' ne)

pub some≢none : {c : ℕ} → ◌≡◌ {A = Option ℕ} none (some c) → ⊥
some≢none h = cc

-- A CPU without a process finds none.
pub idle-IsPlaced :
    (s : System) (n next : ℕ) (cpu : Cpu)
    → get_elem? s.cpus n ≡ some cpu
    → cpu.proc ≡ none
    → IsPlaced s
    → IsPlaced (record s { cpus = set s.cpus n (record { proc = none; next = next }) })
idle-IsPlaced s n next cpu at idle ok = record {
  pids = ok.pids;
  running = λ m j h. ok.running m j (sym (same m) ∙ h);
  placed = λ j h. let (m, h0) = ok.placed j h in (m, same m ∙ h0);
  alone = λ a b j h h'. ok.alone a b j (sym (same a) ∙ h) (sym (same b) ∙ h');
}
  where
    empty : Cpu
    empty = record { proc = none; next = next }

    same : (m : ℕ) → on_cpu (changed s n cpu empty at s.kernel) m ≡ on_cpu s m
    same m = elim (ℕ_discrete n m) [
      | yes e ↦
          subst (λ z. on_cpu (changed s n cpu empty at s.kernel) z ≡ on_cpu s z) e
            (changed_here s n cpu empty at s.kernel ∙ sym (ap proc_of at ∙ idle))
      | no ne ↦ changed_there s n cpu empty at s.kernel m ne
    ]

-- The process on a CPU leaves it.
pub Left-IsPlaced :
    (s : System) (n c : ℕ) (cpu : Cpu) (k' : Kernel)
    → get_elem? s.cpus n ≡ some cpu
    → cpu.proc ≡ some c
    → IsPlaced s
    → Left c s.kernel k'
    → IsPlaced (record { kernel = k'; cpus = set s.cpus n (switched cpu) })
Left-IsPlaced s n c cpu k' at on ok l = record {
  pids = l.pids ok.pids;
  running = λ m j h. elim (ℕ_discrete n m) [
    | yes same ↦ absurd (some≢none (sym here ∙ ap (on_cpu t) same ∙ h))
    | no ne ↦
        let h0 = sym (there m ne) ∙ h in
        l.others j (λ e. ne (ok.alone n m c before (h0 ∙ ap some (sym e)))) ∙ ok.running m j h0
  ];
  placed = λ j h. elim (ℕ_discrete c j) [
    | yes same ↦ absurd (stopped same h)
    | no ne ↦
        let (m, h0) = ok.placed j (sym (l.others j ne) ∙ h) in
        (m, there m (λ e. ne (some_eq (sym before ∙ ap (on_cpu s) e ∙ h0))) ∙ h0)
  ];
  alone = λ a b j h h'. ok.alone a b j (was a j h) (was b j h');
}
  where
    t : System
    t = changed s n cpu (switched cpu) at k'

    before : on_cpu s n ≡ some c
    before = ap proc_of at ∙ on

    here : on_cpu t n ≡ none
    here = changed_here s n cpu (switched cpu) at k'

    there : (m : ℕ) → n ≢ m → on_cpu t m ≡ on_cpu s m
    there = changed_there s n cpu (switched cpu) at k'

    was : (a j : ℕ) → on_cpu t a ≡ some j → on_cpu s a ≡ some j
    was a j h = elim (ℕ_discrete n a) [
      | yes same ↦ absurd (some≢none (sym here ∙ ap (on_cpu t) same ∙ h))
      | no ne ↦ sym (there a ne) ∙ h
    ]

    stopped : {j : ℕ} → c ≡ j → runs (get_elem? k'.procs j) ≡ true → ⊥
    stopped e h = false≢ (sym l.stopped ∙ ap (λ z. runs (get_elem? k'.procs z)) e ∙ h)
      where
        false≢ : false ≡ true → ⊥
        false≢ q = cc
