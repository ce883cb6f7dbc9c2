-- ===== src/Proc/Sched.antt =====
-- xv6-public/proc.c: how the CPUs share the process table. `scheduler`, `yield` and `sleep`, and the
-- steps that the CPUs and the running processes take, in any order.
--
-- A step is one call, made as a whole; the code makes them apart by `ptable.lock`.
pub mod Calls
pub mod Cpus
pub mod Taking
pub mod Safety
pub mod Turns
mod Tests
use ele3021_operating_system.Base.{
  ℕ, zero, suc, ◌+◌, ◌≡◌, Bool, true, false, not, ◌&&◌, List, Option, none, some, ◌==◌, get_elem?,
  set, if◌then◌else◌,
}
use ele3021_operating_system.Base.Find.{find_from, modify}
use ele3021_operating_system.Base.Int.{ℤ}
use ele3021_operating_system.Proc.{
  sleeping, runnable, running, Chan, null, of_proc, Proc, is_runnable, switchuvm,
}
use ele3021_operating_system.Proc.Table.{
  Kernel, Round, set_state, wakeup1, kill, wait, thread_join, get_base,
}
use ele3021_operating_system.Proc.Life.{Vm, Result, fork}
use ele3021_operating_system.Proc.Life.Thread.{thread_create, growproc}
use ele3021_operating_system.Proc.Life.Exit.{Exit, exit, exit_round, thread_exit}

-- `struct cpu`: the process on it, and where the loop of its `scheduler` goes on in the table.
pub record Cpu : Type 0 where
  pub proc : Option ℕ
  pub next : ℕ

pub record System : Type 0 where
  pub kernel : Kernel
  pub cpus : List Cpu

-- The loop of `scheduler` until it switches to a process, or has passed the end of the table, where
-- it starts again; `none` is a panic of `switchuvm`.
unfoldable pub scheduler : Cpu → Kernel → Option (Cpu × Kernel)
scheduler cpu k = elim (find_from cpu.next (λ p. is_runnable p.state) k.procs) [
  | none ↦ some (record { proc = none; next = 0 }, k)
  | some i ↦ elim (get_elem? k.procs i) [
    | none ↦ none
    | some p ↦
        if switchuvm p
        then some (
          record { proc = some i; next = i + 1 },
          record k { procs = modify i (set_state running) k.procs },
        )
        else none
  ]
]

-- `scheduler` after `swtch`: the process is off the CPU.
abbrev pub switched : Cpu → Cpu
switched cpu = record cpu { proc = none }

-- `yield()` of the process `c`, until `sched` switches.
abbrev pub yield : ℕ → Kernel → Kernel
yield c k = record k { procs = modify c (set_state runnable) k.procs }

-- `sleep(chan, lk)` of the process `c`, until `sched` switches.
abbrev pub sleep : ℕ → Chan → Kernel → Kernel
sleep c chan k = record k {
  procs = modify c (λ p. record p { chan = chan; state = sleeping }) k.procs;
}

-- `sleep`, after it: "Tidy up".
abbrev pub tidy : ℕ → Kernel → Kernel
tidy c k = record k { procs = modify c (λ p. record p { chan = null }) k.procs }

-- The kernel that a call leaves, if it did not panic.
abbrev pub after : Result → Option Kernel
after Result.panics = none
after (Result.fails k) = some k
after (Result.returns n k) = some k

-- The kernel after a call that does not sleep, if it did not panic.
abbrev pub after_round : Kernel → Round ℕ → Option Kernel
after_round k (Round.returns n k') = some k'
after_round k Round.fails = some k
after_round k Round.sleeps = none
after_round k Round.panics = none

-- The kernel when a process that ends, or waits on itself to end, has left its CPU.
abbrev pub after_exit : ℕ → Exit → Option Kernel
after_exit c Exit.panics = none
after_exit c (Exit.sleeps k) = some (sleep c (of_proc c) k)
after_exit c (Exit.gone k) = some k

module _ (vm : Vm) (c : ℕ) (cur : Proc) where
  -- The process `c`, whose entry is `cur`, makes a call and runs on.
  pub data Runs (k : Kernel) : Kernel → Type 0 where
    forks : {k' : Kernel} → after (fork vm c cur k) ≡ some k' → Runs k k'
    creates :
        {k' : Kernel} (routine : ℕ) → after (thread_create vm c cur routine k) ≡ some k' → Runs k k'
    grows : {k' : Kernel} (n : ℤ) → after (growproc vm c cur n k) ≡ some k' → Runs k k'
    bases : {k' : Kernel} {s : ℕ} → get_base c k ≡ some (s, k') → Runs k k'
    kills : (pid : ℕ) → Runs k (record k { procs = (kill pid cur k.procs).0 })
    waits : {k' : Kernel} → after_round k (wait c cur.killed k) ≡ some k' → Runs k k'
    joins :
        {k' : Kernel} (thread : ℕ) → after_round k (thread_join thread cur k) ≡ some k' → Runs k k'
    tidies : Runs k (tidy c k)

  -- The process makes a call that takes it off its CPU.
  pub data Leaves (k : Kernel) : Kernel → Type 0 where
    yields : Leaves k (yield c k)
    sleeps : (chan : Chan) → Leaves k (sleep c chan k)
    exits : {k' : Kernel} → after_exit c (exit c cur k) ≡ some k' → Leaves k k'
    exits_on : {k' : Kernel} → after_exit c (exit_round c cur k) ≡ some k' → Leaves k k'
    thread_exits :
        {k' : Kernel} (retval : ℕ)
        → after_exit c (thread_exit c cur retval k) ≡ some k'
        → Leaves k k'

-- What happens next: something, perhaps an interrupt, wakes processes up; a process on the CPU `n`
-- makes a call; or the scheduler of the CPU `n`, which has no process, looks for one.
pub data Step (vm : Vm) (s : System) : System → Type 0 where
  wakes :
      (chan : Chan)
      → Step vm s (record s { kernel = record s.kernel { procs = wakeup1 chan s.kernel.procs } })
  runs :
      (n c : ℕ) (cpu : Cpu) (cur : Proc) {k' : Kernel}
      → get_elem? s.cpus n ≡ some cpu
      → cpu.proc ≡ some c
      → get_elem? s.kernel.procs c ≡ some cur
      → Runs vm c cur s.kernel k'
      → Step vm s (record s { kernel = k' })
  leaves :
      (n c : ℕ) (cpu : Cpu) (cur : Proc) {k' : Kernel}
      → get_elem? s.cpus n ≡ some cpu
      → cpu.proc ≡ some c
      → get_elem? s.kernel.procs c ≡ some cur
      → Leaves vm c cur s.kernel k'
      → Step vm s (record { kernel = k'; cpus = set s.cpus n (switched cpu) })
  schedules :
      (n : ℕ) (cpu cpu' : Cpu) {k' : Kernel}
      → get_elem? s.cpus n ≡ some cpu
      → cpu.proc ≡ none
      → scheduler cpu s.kernel ≡ some (cpu', k')
      → Step vm s (record { kernel = k'; cpus = set s.cpus n cpu' })

-- The states that steps lead to from `first`.
pub data Reach (vm : Vm) (first : System) : System → Type 0 where
  booted : Reach vm first first
  after_step :
      {before now : System} → Step vm before now → Reach vm first before → Reach vm first now
