-- ===== src/Proc/Sched/Safety.antt =====
-- Every history of steps keeps each process on at most one CPU, and the pids apart while there are
-- numbers left.
use ele3021_operating_system.Base.{
  ℕ, ◌+◌, ◌^◌, ◌≤◌, ◌≡◌, true, ap, subst, ◌∙◌, inl, inr, Option, none, some, get_elem?, arith,
  some_eq, Bool-cases, Option-cases, set,
}
use ele3021_operating_system.Base.Find.{modify, find_from, find_from-some}
use ele3021_operating_system.Proc.{switchuvm, is_runnable, running}
use ele3021_operating_system.Proc.Table.{Kernel, set_state}
use ele3021_operating_system.Proc.Table.Alloc.{HasPids}
use ele3021_operating_system.Proc.Life.{Vm}
use ele3021_operating_system.Proc.Life.Quiet.{runs, Evolve-Quiet, wakeup1-Evolve}
use ele3021_operating_system.Proc.Sched.{Cpu, System, scheduler, Step, Reach}
use ele3021_operating_system.Proc.Sched.Calls.{Runs-Quiet, Leaves-Left}
use ele3021_operating_system.Proc.Sched.Taking.{take-IsPlaced}
use ele3021_operating_system.Proc.Sched.Cpus.{
  IsPlaced, proc_of, on_cpu, Quiet-IsPlaced, Left-IsPlaced, idle-IsPlaced,
}

scheduler-IsPlaced :
    (s : System) (n : ℕ) (cpu cpu' : Cpu) (k' : Kernel)
    → get_elem? s.cpus n ≡ some cpu
    → cpu.proc ≡ none
    → scheduler cpu s.kernel ≡ some (cpu', k')
    → IsPlaced s
    → IsPlaced (record { kernel = k'; cpus = set s.cpus n cpu' })
unfolding scheduler
scheduler-IsPlaced s n cpu cpu' k' at idle h ok =
    elim (Option-cases (find_from cpu.next (λ p. is_runnable p.state) s.kernel.procs)) [
      | inl e ↦
          let z : (record { proc = none; next = 0 }, s.kernel) ≡ (cpu', k') =
            some_eq (rw (e, scheduler) at h) in
          subst
            (λ r. IsPlaced (let y : System = record { kernel = r.1; cpus = set s.cpus n r.0 } in y))
            z (idle-IsPlaced s n 0 cpu at idle ok)
      | inr (i, e) ↦
          let (le, (p, here, can), before) =
            find_from-some (λ p. is_runnable p.state) cpu.next s.kernel.procs i e in
          elim (Bool-cases (switchuvm p)) [
            | inr f ↦ absurd (nothing (rw (e, here, f, scheduler) at h))
            | inl f ↦
                let z : (
                  (let y : Cpu = record { proc = some i; next = i + 1 } in y),
                  (let y : Kernel = record s.kernel {
                    procs = modify i (set_state running) s.kernel.procs;
                  } in
                      y),
                )
                    ≡ (cpu', k') =
                  some_eq (rw (e, here, f, scheduler) at h) in
                subst
                  (λ r.
                    IsPlaced
                      (let y : System = record { kernel = r.1; cpus = set s.cpus n r.0 } in y))
                  z (take-IsPlaced s n i (i + 1) cpu p at idle here can ok)
          ]
    ]
  where
    nothing : ◌≡◌ {A = Option (Cpu × Kernel)} none (some (cpu', k')) → ⊥
    nothing q = cc

step-IsPlaced : (vm : Vm) {s t : System} → Step vm s t → IsPlaced s → IsPlaced t
step-IsPlaced vm {s} (Step.wakes chan) ok =
    Quiet-IsPlaced s _ ok
      (Evolve-Quiet s.kernel _ (omega arith) (wakeup1-Evolve chan s.kernel.procs))
step-IsPlaced vm {s} (Step.runs n c cpu cur at on here r) ok =
    Quiet-IsPlaced s _ ok (Runs-Quiet vm c cur s.kernel r)
step-IsPlaced vm {s} (Step.leaves n c cpu cur {k'} at on here l) ok =
    Left-IsPlaced s n c cpu k' at on ok
      (Leaves-Left vm c cur s.kernel (ok.running n c (ap proc_of at ∙ on)) l)
step-IsPlaced vm {s} (Step.schedules n cpu cpu' {k'} at idle e) ok =
    scheduler-IsPlaced s n cpu cpu' k' at idle e ok

Reach-IsPlaced : (vm : Vm) {s t : System} → Reach vm s t → IsPlaced s → IsPlaced t
Reach-IsPlaced vm Reach.booted ok = ok
Reach-IsPlaced vm (Reach.after_step step r) ok = step-IsPlaced vm step (Reach-IsPlaced vm r ok)

-- The pids are apart, a process is RUNNING exactly if it is on a CPU, and it is on one CPU only.
pub record IsScheduled (s : System) : Type 0 where
  pub pids : HasPids s.kernel
  pub running : (n c : ℕ) → on_cpu s n ≡ some c → runs (get_elem? s.kernel.procs c) ≡ true
  pub placed : (c : ℕ) → runs (get_elem? s.kernel.procs c) ≡ true → (n : ℕ) × (on_cpu s n ≡ some c)
  pub alone : (n m c : ℕ) → on_cpu s n ≡ some c → on_cpu s m ≡ some c → n ≡ m

-- Whatever steps the CPUs and the processes take, in any order, from a state with the pids apart, in
-- which the RUNNING processes are those on the CPUs and each is on one only, to a state whose count
-- of pids has not passed 2 ^ 32 (so that the 32-bit counter has given no number twice): in the state
-- reached the pids are apart, a process is RUNNING exactly if it is on a CPU, and it is on one CPU
-- only.
pub Reach-IsScheduled :
    (vm : Vm) {s t : System}
    → Reach vm s t
    → IsScheduled s
    → t.kernel.nextpid ≤ 2 ^ 32
    → IsScheduled t
Reach-IsScheduled vm {s} {t} r ok fits = record {
  pids = end.pids fits;
  running = end.running;
  placed = end.placed;
  alone = end.alone;
}
  where
    end : IsPlaced t
    end = Reach-IsPlaced vm r (record {
      pids = λ below. ok.pids;
      running = ok.running;
      placed = ok.placed;
      alone = ok.alone;
    })
