-- ===== src/Proc/Samples.antt =====
-- Entries of `ptable.proc` for the tests.
use ele3021_operating_system.Base.{
  ℕ, zero, suc, ◌<◌, ◌≡◌, true, false, List, [], ◌∷◌, none, some, get_elem?, arith,
}
use ele3021_operating_system.Base.Int.{pos}
use ele3021_operating_system.Proc.{
  unused, sleeping, running, zombie, strd_sched, top, null, of_proc, Proc, is_unused,
}
use ele3021_operating_system.Proc.Table.{Kernel}
use ele3021_operating_system.Proc.Table.Alloc.{HasPids}

abbrev pub blank : Proc
blank = record {
  sz = 0;
  pgdir = 0;
  kstack = 0;
  state = unused;
  pid = 0;
  parent = none;
  chan = null;
  killed = false;
  name = [];
  tf = record { eax = 0; eip = 0; esp = 0; others = [] };
  ofile = [];
  cwd = none;
  mode = strd_sched;
  strd = record { pass = pos 0; stride = pos 0; share = pos 0 };
  mlfq = record { tick = pos 0; lev = top; priority = pos 0 };
  lwpid = 0;
  lwppid = 0;
  retval = 0;
  sbase = 0;
  snum = 0;
  forked = false;
}

-- init waits for its children; the shell runs; an LWP of the shell has ended.
abbrev pub init_proc : Proc
init_proc = record blank { state = sleeping; pid = 1; chan = of_proc 0 }

abbrev pub shell : Proc
shell = record blank { state = running; pid = 2; parent = some 0 }

abbrev pub thread : Proc
thread = record blank {
  state = zombie;
  pid = 3;
  parent = some 1;
  lwpid = 1;
  lwppid = 2;
  retval = 42;
  kstack = 0x80400000;
}

abbrev pub table : List Proc
table = init_proc ∷ shell ∷ thread ∷ blank ∷ []

abbrev pub kernel : Kernel
kernel = record {
  procs = table;
  initproc = 0;
  nextpid = 4;
  nextlwpid = 2;
  num_lwp = pos 1;
  stable = true ∷ false ∷ [];
  files = [];
  strd_share_sum = pos 0;
  strd_sum = pos 100;
  kmem = record { end_addr = 0x80100000; use_lock = true; freelist = 0x80500000 ∷ [] };
  calls = [];
}

pub kernel-HasPids : HasPids kernel
kernel-HasPids = record { below = below; distinct = distinct }
  where
    below : (i : ℕ) (p : Proc) → get_elem? table i ≡ some p → is_unused p.state ≡ false → p.pid < 4
    below zero p e u = ground arith
    below (suc zero) p e u = ground arith
    below (suc (suc zero)) p e u = ground arith
    below (suc (suc (suc zero))) p e u = absurd (ground arith)
    below (suc (suc (suc (suc i)))) p e u = absurd (ground arith)

    distinct :
        (i j : ℕ) (p q : Proc)
        → get_elem? table i ≡ some p
        → is_unused p.state ≡ false
        → get_elem? table j ≡ some q
        → is_unused q.state ≡ false
        → p.pid ≡ q.pid
        → i ≡ j
    distinct i j p q e u f v same = ground (arith, pid_of i p e u, pid_of j q f v)
      where
        pid_of :
            (i : ℕ) (p : Proc)
            → get_elem? table i ≡ some p
            → is_unused p.state ≡ false
            → p.pid ≡ suc i
        pid_of zero p e u = ground arith
        pid_of (suc zero) p e u = ground arith
        pid_of (suc (suc zero)) p e u = ground arith
        pid_of (suc (suc (suc zero))) p e u = absurd (ground arith)
        pid_of (suc (suc (suc (suc i)))) p e u = absurd (ground arith)
