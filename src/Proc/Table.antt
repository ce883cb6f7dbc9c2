-- ===== src/Proc/Table.antt =====
-- xv6-public/proc.c: the life of an entry of `ptable.proc`. Each function runs with `ptable.lock`
-- held where the code holds it. Calls into other files are recorded in order.
pub mod Alloc
pub mod Wake
pub mod Killed
pub mod Reap
pub mod Reaped
mod Tests
use ele3021_operating_system.Base.{
  ℕ, zero, suc, ◌+◌, ◌*◌, ◌%◌, ◌^◌, Bool, true, false, not, ◌&&◌, ◌||◌, List, [], ◌∷◌, Option, none,
  some, ltb, ◌==◌, if◌then◌else◌, map, set, get_elem?, ◌++◌,
}
use ele3021_operating_system.Base.Find.{find_index, modify}
use ele3021_operating_system.Base.Int.{ℤ, pos, ◌-ℤ◌}
use ele3021_operating_system.File.{File, Close}
use ele3021_operating_system.Kalloc.{Kmem, kalloc, kfree, page_size}
use ele3021_operating_system.Proc.{
  TrapFrame, ProcState, unused, embryo, sleeping, runnable, running, zombie, strd_sched, MlfqLev,
  top, Chan, null, of_proc, Proc, is_unused, is_sleeping, is_zombie, same_chan, same_parent,
}

-- A call into another part: vm.c, or file.c and fs.c when a process lets a file go.
pub data Call : Type 0 where
  iput idup : Option ℕ → Call
  closes : Close → Call
  deallocuvm : (pgdir oldsz newsz : ℕ) → Call
  freevm : (pgdir : ℕ) → Call

-- `nextpid` and `nextlwpid` count on here; the `int nextpid` of the code is the count modulo 2 ^ 32.
pub record Kernel : Type 0 where
  pub procs : List Proc
  pub initproc : ℕ
  pub nextpid : ℕ
  pub nextlwpid : ℕ
  pub num_lwp : ℤ
  pub stable : List Bool
  pub files : List File
  pub strd_share_sum : ℤ
  pub strd_sum : ℤ
  pub kmem : Kmem
  pub calls : List Call

-- An entry as `allocproc` finds it UNUSED and leaves it as EMBRYO, with the number `pid`.
abbrev pub embryo_of : ℕ → Proc → Proc
embryo_of pid p = record p {
  state = embryo;
  pid = pid;
  strd = record { pass = pos 0; stride = pos 0; share = pos 0 };
  mlfq = record { tick = pos 0; lev = top; priority = pos 0 };
  mode = strd_sched;
  lwpid = 0;
  lwppid = 0;
  retval = 0;
  sbase = 0;
  snum = 0;
  forked = false;
}

abbrev pub set_state : ProcState → Proc → Proc
set_state state p = record p { state = state }

abbrev pub set_kstack : ℕ → Proc → Proc
set_kstack kstack p = record p { kstack = kstack }

-- The second part of `allocproc`: the kernel stack of the entry `i`.
unfoldable pub give_stack : ℕ → Option ℕ × Kernel → Option ℕ × Kernel
give_stack i (none, k') =
    (none, record k' { procs = modify i (λ p. set_state unused (set_kstack 0 p)) k'.procs })
give_stack i (some page, k') = (some i, record k' { procs = modify i (set_kstack page) k'.procs })

-- `kalloc()`, in the kernel.
abbrev pub take_page : Kernel → Option ℕ × Kernel
take_page k = let (page, kmem) = kalloc k.kmem in (page, record k { kmem = kmem })

-- `nextpid++`: the pid is what the 32 bits of the counter hold.
abbrev pub next_of : Kernel → ℕ
next_of k = k.nextpid % 2 ^ 32

abbrev pub claim : ℕ → Kernel → Kernel
claim i k = record k { procs = modify i (embryo_of (next_of k)) k.procs; nextpid = k.nextpid + 1 }

-- `allocproc()`: the index of the new process, if there is one.
unfoldable pub allocproc : Kernel → Option ℕ × Kernel
allocproc k = elim (find_index (λ p. is_unused p.state) k.procs) [
  | none ↦ (none, k)
  | some i ↦ give_stack i (take_page (claim i k))
]

-- The slot `s` is used by the process `i`.
abbrev pub take_slot : ℕ → ℕ → Kernel → Kernel
take_slot s i k = record k {
  stable = set k.stable s true;
  procs = modify i (λ p. record p { snum = s }) k.procs;
}

-- `get_base(p)` of the process `i`; `none` is the panic.
unfoldable pub get_base : ℕ → Kernel → Option (ℕ × Kernel)
get_base i k = elim (find_index not k.stable) [ none ↦ none | some s ↦ some (s, take_slot s i k) ]

abbrev pub wake : Chan → Proc → Proc
wake chan p = if is_sleeping p.state && same_chan p.chan chan then set_state runnable p else p

-- `wakeup1(chan)`
unfoldable pub wakeup1 : Chan → List Proc → List Proc
wakeup1 chan ps = map (wake chan) ps

abbrev pub kill_one : Proc → Proc
kill_one p = record p { killed = true; state = (if is_sleeping p.state then runnable else p.state) }

-- `kill(pid)`, called by the process `cur`; the result 0 is `true`, -1 is `false`.
unfoldable pub kill : ℕ → Proc → List Proc → List Proc × Bool
kill pid cur ps =
    if ltb 0 cur.lwpid
    then (map (λ p. if ltb 0 p.lwpid then kill_one p else p) ps, true)
    else elim (find_index (λ p. p.pid == pid) ps) [
      | none ↦ (ps, false)
      | some i ↦ (modify i kill_one ps, true)
    ]

-- What a round of a waiting loop does.
pub data Round (A : Type 0) : Type 0 where
  returns : A → Kernel → Round A
  fails : Round A
  sleeps : Round A
  panics : Round A

-- What `wait` leaves of the child that it found.
abbrev pub reap : Proc → Proc
reap p = record p {
  kstack = 0;
  pid = 0;
  parent = none;
  name = set p.name 0 0;
  killed = false;
  state = unused;
}

-- `kfree(p->kstack)` and the calls that free the entry `i`; `none` is the panic of `kfree`.
unfoldable pub free_entry : ℕ → ℕ → Call → (Proc → Proc) → Kernel → Option Kernel
free_entry i kstack call clean k = elim (kfree kstack k.kmem) [
  | none ↦ none
  | some kmem ↦
      some
        (record k { kmem = kmem; calls = k.calls ++ (call ∷ []); procs = modify i clean k.procs })
]

abbrev pub is_child : ℕ → Proc → Bool
is_child cur p = same_parent p.parent (some cur)

abbrev pub is_zombie_child : ℕ → Proc → Bool
is_zombie_child cur p = is_child cur p && is_zombie p.state

-- The branch of `wait` for the zombie `p`, at index `i`: it returns the pid.
unfoldable pub reap_child : ℕ → Option Proc → Kernel → Round ℕ
reap_child i none k = panics
reap_child i (some p) k = elim (free_entry i p.kstack (freevm p.pgdir) reap k) [
  | none ↦ panics
  | some k' ↦ returns p.pid k'
]

-- One round of the loop of `wait`, called by the process `cur` with its flag `killed`.
unfoldable pub wait : ℕ → Bool → Kernel → Round ℕ
wait cur killed k = elim (find_index (is_zombie_child cur) k.procs) [
  | some i ↦ reap_child i (get_elem? k.procs i) k
  | none ↦ elim (find_index (is_child cur) k.procs) [
    | none ↦ fails
    | some j ↦ if killed then fails else sleeps
  ]
]

-- What `thread_join` leaves of the thread that it found.
abbrev pub reap_thread : Proc → Proc
reap_thread p = record (reap p) {
  lwpid = 0;
  lwppid = 0;
  sbase = 0;
  snum = 0;
  forked = false;
  retval = 0;
}

abbrev pub is_ended_thread : ℕ → ℕ → Proc → Bool
is_ended_thread thread pid p = p.lwpid == thread && (p.lwppid == pid && is_zombie p.state)

-- The branch of `thread_join` for the ended thread `p`, at index `i`: it gives back `p->retval`.
unfoldable pub join_thread : ℕ → Option Proc → Kernel → Round ℕ
join_thread i none k = panics
join_thread i (some p) k =
    elim (free_entry i p.kstack (deallocuvm p.pgdir (p.sbase + 2 * page_size) p.sbase) reap_thread
      k) [
        | none ↦ panics
        | some k' ↦ returns p.retval (record k' { stable = set k'.stable p.snum false })
      ]

-- `thread_join(thread, retval)`, called by the process `cur`: the test and one round of the loop.
unfoldable pub thread_join : ℕ → Proc → Kernel → Round ℕ
thread_join thread cur k =
    if not (cur.lwpid == 0)
    then fails
    else elim (find_index (is_ended_thread thread cur.pid) k.procs) [
      | some i ↦ join_thread i (get_elem? k.procs i) k
      | none ↦ if cur.killed then fails else sleeps
    ]
