-- ===== src/Proc/Life/Thread.antt =====
-- xv6-public/proc.c: `thread_create` and `growproc`.
use ele3021_operating_system.Base.{
  ℕ, zero, suc, ◌+◌, ◌-◌, ◌*◌, ◌/◌, ◌%◌, ◌^◌, List, [], ◌∷◌, Option, none, some, ◌>>=◌, ltb, ◌==◌,
  if◌then◌else◌, get_elem?, ◌++◌,
}
use ele3021_operating_system.Base.Find.{modify}
use ele3021_operating_system.Base.Int.{ℤ, pos, negsuc, ◌+ℤ◌}
use ele3021_operating_system.Kalloc.{page_size}
use ele3021_operating_system.Proc.{switchuvm, unused, runnable, Proc}
use ele3021_operating_system.Proc.Table.{idup, deallocuvm, Kernel, allocproc, set_state, get_base}
use ele3021_operating_system.Proc.Life.{Vm, Result, panics, fails, returns, copy_name, dup_files}

-- `thread_create`: the manager's pid and index are those of an LWP's manager.
abbrev pub manager_pid : Proc → ℕ
manager_pid cur = if ltb 0 cur.lwpid then cur.lwppid else cur.pid

abbrev pub manager : ℕ → Proc → Option ℕ
manager c cur = if ltb 0 cur.lwpid then cur.parent else some c

abbrev pub lwp_of : ℕ → Proc → ℕ → Proc → Proc
lwp_of c cur lwpid p = record p {
  lwppid = manager_pid cur;
  parent = manager c cur;
  lwpid = lwpid;
  pgdir = cur.pgdir;
  tf = cur.tf;
  name = copy_name p.name cur.name;
  cwd = cur.cwd;
}

abbrev pub start_at : ℕ → ℕ → List (Option ℕ) → Proc → Proc
start_at routine sz ofile p = record p {
  sz = sz;
  tf = record p.tf { esp = sz - 8; eip = routine };
  ofile = ofile;
  state = runnable;
}

-- The last part of `thread_create`, once `allocuvm` has answered for the LWP `np` at `i`. It returns
-- the LWP's number, which the code stores in `*thread`.
unfoldable pub thread_mapped : Proc → ℕ → ℕ → Proc → Option ℕ × Kernel → Result
thread_mapped cur routine i np (none, k) =
    fails (record k { procs = modify i (λ p. set_state unused (record p { sz = 0 })) k.procs })
thread_mapped cur routine i np (some sz, k) = elim (dup_files np.ofile cur.ofile k.files) [
  | none ↦ panics
  | some r ↦
      returns np.lwpid
        (record k { files = r.1; procs = modify i (start_at routine sz r.0) k.procs })
]

-- The stack of the LWP at `i`: the base from the slot `s`, and `allocuvm` above it.
abbrev pub thread_stack : Vm → Proc → ℕ → ℕ → Kernel → Option ℕ × Kernel
thread_stack vm cur i s k =
    let sbase = cur.sz + 2 * page_size * (s + 1) in
    let (sz, kmem) = vm.allocuvm cur.pgdir sbase (sbase + 2 * page_size) k.kmem in
    (sz, record k { kmem = kmem; procs = modify i (λ p. record p { sbase = sbase }) k.procs })

unfoldable pub thread_based : Vm → Proc → ℕ → ℕ → Option (ℕ × Kernel) → Result
thread_based vm cur routine i none = panics
thread_based vm cur routine i (some (s, k)) =
    let r = thread_stack vm cur i s k in
    elim (get_elem? r.1.procs i) [ none ↦ panics | some np ↦ thread_mapped cur routine i np r ]

unfoldable pub thread_new : Vm → ℕ → Proc → ℕ → Option ℕ × Kernel → Result
thread_new vm c cur routine (none, k) = fails k
thread_new vm c cur routine (some i, k) = thread_based vm cur routine i (
    get_base i (record k {
      num_lwp = k.num_lwp +ℤ pos 1;
      nextlwpid = k.nextlwpid + 1;
      calls = k.calls ++ (idup cur.cwd ∷ []);
      procs = modify i (lwp_of c cur k.nextlwpid) k.procs;
    }))

-- `thread_create(thread, start_routine, arg)`. The two words it writes to the new stack, the argument
-- and the return address, are user memory and not modelled.
unfoldable pub thread_create : Vm → ℕ → Proc → ℕ → Kernel → Result
thread_create vm c cur routine k = thread_new vm c cur routine (allocproc k)

-- `growproc`: a stack slot for every two pages.
unfoldable pub take_bases : ℕ → ℕ → Kernel → Option Kernel
take_bases zero c k = some k
take_bases (suc n) c k = get_base c k >>= λ r. take_bases n c r.1

abbrev pub bases_of : ℤ → ℕ
bases_of (pos n) = n / (2 * page_size)
bases_of (negsuc n) = 0

-- What `deallocuvm(pgdir, oldsz, newsz)` returns.
abbrev pub deallocated : ℕ → ℕ → ℕ
deallocated oldsz newsz = if ltb newsz oldsz then newsz else oldsz

-- The new size, from `allocuvm` or `deallocuvm`; `none` is 0.
unfoldable pub resize : Vm → ℕ → ℤ → ℕ → Kernel → Option ℕ × Kernel
resize vm pgdir (pos zero) sz k = (some sz, k)
resize vm pgdir (pos (suc n)) sz k =
    let (sz', kmem) = vm.allocuvm pgdir sz ((sz + suc n) % 2 ^ 32) k.kmem in
    (sz', record k { kmem = kmem })
resize vm pgdir (negsuc n) sz k =
    let newsz = (sz + 2 ^ 32 - suc n) % 2 ^ 32 in
    let sz' = deallocated sz newsz in
    (
      (if sz' == 0 then none else some sz'),
      record k { calls = k.calls ++ (deallocuvm pgdir sz newsz ∷ []) },
    )

abbrev pub set_sz : ℕ → Proc → Proc
set_sz sz p = record p { sz = sz }

-- The process `m` whose size it is gets its new size. The failure returns with `ptable.lock` held.
unfoldable pub resized : ℕ → Proc → Option ℕ × Kernel → Result
resized m cur (none, k) = fails k
resized m cur (some sz, k) =
    if switchuvm cur then returns 0 (record k { procs = modify m (set_sz sz) k.procs }) else panics

-- `growproc(n)`: an LWP grows its manager.
unfoldable pub growproc : Vm → ℕ → Proc → ℤ → Kernel → Result
growproc vm c cur n k = elim (take_bases (bases_of n) c k) [
  | none ↦ panics
  | some k1 ↦ elim (manager c cur) [
    | none ↦ panics
    | some m ↦ elim (get_elem? k1.procs m) [
      | none ↦ panics
      | some p ↦ resized m cur (resize vm cur.pgdir n p.sz k1)
    ]
  ]
]
