-- ===== src/Proc.antt =====
-- xv6-public/proc.h and the tables at the top of xv6-public/proc.c: processes, light-weight processes
-- (LWP) and the kernel's variables. A `struct proc *` is an index into `ptable.proc`.
pub mod Stride
pub mod Table
pub mod Life
pub mod Sched
pub mod Samples
use ele3021_operating_system.Base.{
  ℕ, Bool, true, false, not, ◌&&◌, List, Option, none, some, ◌==◌, get_elem?, set,
}
use ele3021_operating_system.Base.Int.{ℤ}

-- `enum procstate`
pub data ProcState : Type 0 where
  unused embryo sleeping runnable running zombie : ProcState

-- `enum sched_mode`
pub data SchedMode : Type 0 where
  strd_sched strd_set_sched mlfq_sched : SchedMode

-- `enum mlfq_lev`
pub data MlfqLev : Type 0 where
  top mid low : MlfqLev

-- `struct proc_strd`
pub record ProcStrd : Type 0 where
  pub pass : ℤ
  pub stride : ℤ
  pub share : ℤ

-- `struct proc_mlfq`
pub record ProcMlfq : Type 0 where
  pub tick : ℤ
  pub lev : MlfqLev
  pub priority : ℤ

-- `struct proc_mlfqs`
pub record ProcMlfqs : Type 0 where
  pub pass : ℤ
  pub stride : ℤ
  pub share : ℤ
  pub totaltick : ℤ
  pub topn : ℤ
  pub midn : ℤ
  pub lown : ℤ

-- What a process sleeps on: nothing, the address of a process, or another address.
pub data Chan : Type 0 where
  null : Chan
  of_proc : ℕ → Chan
  address : ℕ → Chan

-- The user registers that `struct trapframe` saves, those that this model does not name in `others`.
pub record TrapFrame : Type 0 where
  pub eax : ℕ
  pub eip : ℕ
  pub esp : ℕ
  pub others : List ℕ

-- `struct proc`, less its kernel stack's content. An open file is an index into `ftable.file`, and the
-- current directory an inode's address.
pub record Proc : Type 0 where
  pub sz : ℕ
  pub pgdir : ℕ
  pub kstack : ℕ
  pub state : ProcState
  pub pid : ℕ
  pub parent : Option ℕ
  pub chan : Chan
  pub killed : Bool
  pub name : List ℕ
  pub tf : TrapFrame
  pub ofile : List (Option ℕ)
  pub cwd : Option ℕ
  pub mode : SchedMode
  pub strd : ProcStrd
  pub mlfq : ProcMlfq
  pub lwpid : ℕ
  pub lwppid : ℕ
  pub retval : ℕ
  pub sbase : ℕ
  pub snum : ℕ
  pub forked : Bool

abbrev pub is_runnable : ProcState → Bool
is_runnable runnable = true
is_runnable _ = false

abbrev pub is_unused : ProcState → Bool
is_unused unused = true
is_unused _ = false

abbrev pub is_running : ProcState → Bool
is_running running = true
is_running _ = false

abbrev pub is_sleeping : ProcState → Bool
is_sleeping sleeping = true
is_sleeping _ = false

abbrev pub is_zombie : ProcState → Bool
is_zombie zombie = true
is_zombie _ = false

-- The tests of `switchuvm(p)`, which panics unless they hold.
abbrev pub switchuvm : Proc → Bool
switchuvm p = not (p.kstack == 0) && not (p.pgdir == 0)

abbrev pub same_mode : SchedMode → SchedMode → Bool
same_mode strd_sched strd_sched = true
same_mode strd_set_sched strd_set_sched = true
same_mode mlfq_sched mlfq_sched = true
same_mode _ _ = false

abbrev pub same_chan : Chan → Chan → Bool
same_chan null null = true
same_chan (of_proc i) (of_proc j) = i == j
same_chan (address a) (address b) = a == b
same_chan _ _ = false

abbrev pub same_parent : Option ℕ → Option ℕ → Bool
same_parent none none = true
same_parent (some i) (some j) = i == j
same_parent _ _ = false
