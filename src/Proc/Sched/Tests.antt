-- ===== src/Proc/Sched/Tests.antt =====
-- The theorems on the CPUs at a system of two CPUs, and at one process that runs again and again.
use ele3021_operating_system.Base.{
  ℕ, zero, suc, ◌+◌, ◌≤◌, ◌≡◌, refl, sym, ap, ◌∙◌, true, [], ◌∷◌, none, some, get_elem?, arith,
}
use ele3021_operating_system.Base.Find.{find_from, find_index, modify}
use ele3021_operating_system.Proc.{of_proc, runnable, Proc}
use ele3021_operating_system.Proc.Table.{Kernel, wakeup1}
use ele3021_operating_system.Proc.Life.{Vm}
use ele3021_operating_system.Proc.Life.Quiet.{runs}
use ele3021_operating_system.Proc.Sched.{
  Cpu, System, scheduler, switched, Step, Reach, Leaves, yield,
}
use ele3021_operating_system.Proc.Sched.Cpus.{on_cpu}
use ele3021_operating_system.Proc.Sched.Safety.{IsScheduled, Reach-IsScheduled}
use ele3021_operating_system.Proc.Sched.Turns.{Turns, Takes, turn_comes}
use ele3021_operating_system.Proc.Samples.{blank, shell, kernel, kernel-HasPids}

-- Memory that never runs out and never is taken.
abbrev free_vm : Vm
free_vm = record {
  copyuvm = λ pgdir sz m. (some pgdir, m);
  allocuvm = λ pgdir old new m. (some new, m);
}

abbrev idle : Cpu
idle = record { proc = none; next = 0 }

abbrev busy : Cpu
busy = record { proc = some 1; next = 2 }

abbrev system : System
system = record { kernel = kernel; cpus = busy ∷ idle ∷ [] }

system-IsScheduled : IsScheduled system
system-IsScheduled = record {
  pids = kernel-HasPids;
  running = running;
  placed = placed;
  alone = alone;
}
  where
    first : (n c : ℕ) → on_cpu system n ≡ some c → (n ≡ 0) × (1 ≡ c)
    first zero c h = (refl, ground arith)
    first (suc zero) c h = cc
    first (suc (suc n)) c h = cc

    running : (n c : ℕ) → on_cpu system n ≡ some c → runs (get_elem? kernel.procs c) ≡ true
    running n c h = let (e, f) = first n c h in rw (← f) refl

    placed : (c : ℕ) → runs (get_elem? kernel.procs c) ≡ true → (n : ℕ) × (on_cpu system n ≡ some c)
    placed zero h = cc
    placed (suc zero) h = (0, refl)
    placed (suc (suc zero)) h = cc
    placed (suc (suc (suc zero))) h = cc
    placed (suc (suc (suc (suc c)))) h = cc

    alone : (n m c : ℕ) → on_cpu system n ≡ some c → on_cpu system m ≡ some c → n ≡ m
    alone n m c h h' = let (e, f) = first n c h in let (e', f') = first m c h' in e ∙ sym e'

-- The shell yields, and init is woken.
abbrev yielded : System
yielded = record { kernel = yield 1 kernel; cpus = switched busy ∷ idle ∷ [] }

abbrev woken : System
woken = record yielded {
  kernel = record yielded.kernel { procs = wakeup1 (of_proc 0) yielded.kernel.procs };
}

history : Reach free_vm system woken
history =
    Reach.after_step (Step.wakes (of_proc 0))
      (Reach.after_step (Step.leaves 0 1 busy shell refl refl refl Leaves.yields) Reach.booted)

Reach-IsScheduled_example : IsScheduled woken
Reach-IsScheduled_example = Reach-IsScheduled free_vm history system-IsScheduled (omega arith)

abbrev ready : Proc
ready = record shell { state = runnable; kstack = 0x80400000; pgdir = 0x80600000 }

abbrev again : Kernel
again = record kernel { procs = blank ∷ ready ∷ [] }

abbrev past : Cpu
past = record { proc = some 1; next = 2 }

-- The process is taken, then the end of the table is passed, and so on.
abbrev cursor : ℕ → Cpu
cursor zero = idle
cursor (suc zero) = past
cursor (suc (suc t)) = cursor t

turns : Turns cursor (λ t. again)
unfolding scheduler find_from find_index modify
turns = record { decides = decides }
  where
    plus_one : (t : ℕ) → t + 1 ≡ suc t
    plus_one t = omega arith

    decides :
        (t : ℕ)
        → (cpu : Cpu) × (k : Kernel) × (scheduler (cursor t) again ≡ some (cpu, k))
          × ((cursor (t + 1)).next ≡ cpu.next)
    decides zero = (past, _, refl, refl)
    decides (suc zero) = (idle, again, refl, refl)
    decides (suc (suc t)) =
        let (cpu, k, e, f) = decides t in
        (
          cpu,
          k,
          e,
          ap (λ z. (cursor z).next) (plus_one (suc (suc t)))
              ∙ sym (ap (λ z. (cursor z).next) (plus_one t))
              ∙ f,
        )

turn_comes_example : (t : ℕ) × (t ≤ 2) × Takes 1 (cursor t) again
turn_comes_example = turn_comes 1 2 turns (λ t. (ready, refl, refl)) (λ t. omega arith)
