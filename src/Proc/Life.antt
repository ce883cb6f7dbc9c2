-- ===== src/Proc/Life.antt =====
-- xv6-public/proc.c: how processes and light-weight processes (LWP) begin and end. `c` is the index of
-- the current process and `cur` its entry. A null pointer that the code would follow panics here.
--
-- What the calls into xv6-public/vm.c answer is in `Vm`, an argument of the functions.
pub mod Thread
pub mod Exit
pub mod Quiet
pub mod Births
pub mod Threads
pub mod Ends
pub mod Leaving
pub mod Forks
pub mod Adopt
pub mod Orphans
mod Tests
use ele3021_operating_system.Base.{
  ℕ, zero, suc, ◌+◌, ◌-◌, ◌*◌, ◌/◌, ◌%◌, ◌^◌, Bool, true, false, not, ◌&&◌, List, [], ◌∷◌, Option,
  none, some, ◌>>=◌, ltb, ◌==◌, if◌then◌else◌, map, get_elem?, ◌++◌, length,
}
use ele3021_operating_system.Base.Find.{modify}
use ele3021_operating_system.Base.Int.{ℤ, pos, negsuc, ◌+ℤ◌, ◌-ℤ◌, is_zero, ltb_ℤ}
use ele3021_operating_system.File.{File, Close, filedup, fileclose}
use ele3021_operating_system.Kalloc.{Kmem, kfree, page_size}
use ele3021_operating_system.Proc.{
  ProcState, unused, runnable, zombie, strd_set_sched, Chan, null, of_proc, TrapFrame, Proc,
  is_zombie, same_mode, same_parent,
}
use ele3021_operating_system.Proc.Table.{
  Call, iput, idup, closes, deallocuvm, Kernel, allocproc, set_state, get_base, wakeup1, free_entry,
  reap_thread,
}

-- `copyuvm(pgdir, sz)` and `allocuvm(pgdir, oldsz, newsz)` with the free pages they find and leave;
-- `none` is 0.
pub record Vm : Type 0 where
  pub copyuvm : ℕ → ℕ → Kmem → Option ℕ × Kmem
  pub allocuvm : ℕ → ℕ → ℕ → Kmem → Option ℕ × Kmem

-- What a call comes to: a panic, -1, or a result.
pub data Result : Type 0 where
  panics : Result
  fails : Kernel → Result
  returns : ℕ → Kernel → Result

-- `safestrcpy(to, from, sizeof(to))` on the arrays.
abbrev pub copy_name : List ℕ → List ℕ → List ℕ
copy_name [] from = []
copy_name (_ ∷ []) from = 0 ∷ []
copy_name (_ ∷ t ∷ to) [] = 0 ∷ t ∷ to
copy_name (_ ∷ t ∷ to) (x ∷ from) =
    x ∷ (let rest = copy_name (t ∷ to) from in if x == 0 then 0 ∷ to else rest)

-- `for(i = 0; i < NOFILE; i++) if(curproc->ofile[i]) np->ofile[i] = filedup(curproc->ofile[i]);`
unfoldable pub dup_files :
    List (Option ℕ) → List (Option ℕ) → List File → Option (List (Option ℕ) × List File)
dup_files [] theirs fs = some ([], fs)
dup_files (o ∷ mine) [] fs = some (o ∷ mine, fs)
dup_files (o ∷ mine) (none ∷ theirs) fs = dup_files mine theirs fs >>= λ r. some (o ∷ r.0, r.1)
dup_files (o ∷ mine) (some f ∷ theirs) fs =
    filedup f fs >>= λ fs'. dup_files mine theirs fs' >>= λ r. some (some f ∷ r.0, r.1)

abbrev pub closed : Option Close → List Call
closed none = []
closed (some a) = closes a ∷ []

-- The loop that closes all open files: the calls it makes, and the table after it.
unfoldable pub close_files : List (Option ℕ) → List File → Option (List Call × List File)
close_files [] fs = some ([], fs)
close_files (none ∷ os) fs = close_files os fs
close_files (some f ∷ os) fs =
    fileclose f fs >>= λ r. close_files os r.1 >>= λ q. some (closed r.0 ++ q.0, q.1)

abbrev pub no_files : List (Option ℕ) → List (Option ℕ)
no_files os = map (λ _. none) os

-- `fork`: the child of an LWP is marked, and takes an LWP's number.
abbrev pub mark_forked : Proc → ℕ → Kernel → Kernel
mark_forked cur i k =
    if ltb 0 cur.lwpid
    then record k {
      nextlwpid = k.nextlwpid + 1;
      procs = modify i (λ p. record p { forked = true; lwpid = k.nextlwpid }) k.procs;
    }
    else k

abbrev pub child_of : ℕ → Proc → ℕ → List (Option ℕ) → Proc → Proc
child_of c cur pgdir ofile p = record p {
  pgdir = pgdir;
  sz = cur.sz;
  parent = some c;
  tf = record cur.tf { eax = 0 };
  ofile = ofile;
  cwd = cur.cwd;
  name = copy_name p.name cur.name;
  state = runnable;
}

-- The kernel stack of an entry that is given up again.
abbrev pub drop_stack : Proc → Proc
drop_stack p = record p { kstack = 0; state = unused }

-- `fork` after `copyuvm`: the child `np` stands at `i`.
unfoldable pub fork_copied : ℕ → Proc → ℕ → Proc → Option ℕ × Kernel → Result
fork_copied c cur i np (none, k) = elim (kfree np.kstack k.kmem) [
  | none ↦ panics
  | some kmem ↦ fails (record k { kmem = kmem; procs = modify i drop_stack k.procs })
]
fork_copied c cur i np (some pgdir, k) = elim (dup_files np.ofile cur.ofile k.files) [
  | none ↦ panics
  | some r ↦ returns np.pid (record k {
    files = r.1;
    calls = k.calls ++ (idup cur.cwd ∷ []);
    procs = modify i (child_of c cur pgdir r.0) k.procs;
  })
]

abbrev pub copied : Vm → Proc → Kernel → Option ℕ × Kernel
copied vm cur k =
    let (pgdir, kmem) = vm.copyuvm cur.pgdir cur.sz k.kmem in (pgdir, record k { kmem = kmem })

unfoldable pub fork_new : Vm → ℕ → Proc → Option ℕ × Kernel → Result
fork_new vm c cur (none, k) = fails k
fork_new vm c cur (some i, k) =
    let k1 = mark_forked cur i k in
    elim (get_elem? k1.procs i) [
      | none ↦ panics
      | some np ↦ fork_copied c cur i np (copied vm cur k1)
    ]

-- `fork()`
unfoldable pub fork : Vm → ℕ → Proc → Kernel → Result
fork vm c cur k = fork_new vm c cur (allocproc k)
