-- ===== src/Proc/Life/Exit.antt =====
-- xv6-public/proc.c: `exit` and `thread_exit`.
use ele3021_operating_system.Base.{
  ℕ, ◌+◌, ◌*◌, true, List, [], ◌∷◌, Option, none, some, ◌>>=◌, ◌==◌, if◌then◌else◌, get_elem?, ◌++◌,
  length,
}
use ele3021_operating_system.Base.Find.{modify}
use ele3021_operating_system.Base.Loops.{sweep, try_sweep}
use ele3021_operating_system.Base.Int.{pos, ◌+ℤ◌, ◌-ℤ◌, is_zero}
use ele3021_operating_system.Kalloc.{page_size}
use ele3021_operating_system.Proc.{
  zombie, strd_set_sched, Chan, null, of_proc, Proc, is_zombie, same_mode, same_parent,
}
use ele3021_operating_system.Proc.Table.{
  iput, deallocuvm, Kernel, set_state, wakeup1, free_entry, reap_thread,
}
use ele3021_operating_system.Proc.Life.{close_files, no_files}

-- How a process ends: a panic, a sleep on itself until its LWPs are gone, or its end, in `sched`.
pub data Exit : Type 0 where
  panics : Exit
  sleeps : Kernel → Exit
  gone : Kernel → Exit

abbrev pub set_killed : Proc → Proc
set_killed p = record p { killed = true }

-- The body of the loop of `exit` over the table, for a manager with the number `pid`.
unfoldable pub end_thread : ℕ → ℕ → Kernel → Option Kernel
end_thread pid i k = elim (get_elem? k.procs i) [
  | none ↦ some k
  | some p ↦
      if p.lwppid == pid
      then (if is_zombie p.state
          then (free_entry i p.kstack (deallocuvm p.pgdir (p.sbase + 2 * page_size) p.sbase)
                reap_thread k
              >>= λ k'. some (record k' { num_lwp = k'.num_lwp -ℤ pos 1 }))
          else some (record k { procs = wakeup1 (of_proc i) (modify i set_killed k.procs) }))
      else some k
]

-- The body of the loop that passes abandoned children to init.
unfoldable pub adopt_one : ℕ → ℕ → ℕ → List Proc → List Proc
adopt_one c init i ps = elim (get_elem? ps i) [
  | none ↦ ps
  | some p ↦
      if same_parent p.parent (some c)
      then (let given = modify i (λ q. record q { parent = some init }) ps in
          if is_zombie p.state then wakeup1 (of_proc init) given else given)
      else ps
]

-- What a process sleeps on that waits for its children: null if there is no parent.
abbrev pub parent_chan : Proc → Chan
parent_chan p = elim p.parent [ none ↦ null | some i ↦ of_proc i ]

abbrev pub wake_parent : Proc → List Proc → List Proc
wake_parent cur ps = elim cur.parent [
  | none ↦ if cur.lwpid == 0 then wakeup1 null ps else ps
  | some i ↦ wakeup1 (of_proc i) ps
]

-- `if(curproc->mode == STRD_SET_SCHED)`: its share goes back.
abbrev pub return_share : Proc → Kernel → Kernel
return_share cur k =
    if same_mode cur.mode strd_set_sched
    then record k {
      strd_sum = k.strd_sum +ℤ cur.strd.share;
      strd_share_sum = k.strd_share_sum -ℤ cur.strd.share;
    }
    else k

-- `exit`, from the closing of the files on.
unfoldable pub leave : ℕ → Proc → Kernel → Exit
leave c cur k = elim (close_files cur.ofile k.files) [
  | none ↦ panics
  | some r ↦
      let k1 = record k {
        files = r.1;
        calls = k.calls ++ (r.0 ++ (iput cur.cwd ∷ []));
        procs =
            wake_parent cur
              (modify c (λ p. record p { ofile = no_files p.ofile; cwd = none }) k.procs);
      } in
      let k2 = return_share cur k1 in
      let ps = sweep (adopt_one c k2.initproc) (length k2.procs) k2.procs in
      gone (record k2 { procs = modify c (set_state zombie) ps })
]

-- One round of the loop of `exit` for a manager.
unfoldable pub exit_round : ℕ → Proc → Kernel → Exit
exit_round c cur k = elim (try_sweep (end_thread cur.pid) (length k.procs) k) [
  | none ↦ panics
  | some k' ↦ if is_zero k'.num_lwp then leave c cur k' else sleeps k'
]

-- `exit()`, up to its first sleep; after a sleep it goes on with `exit_round`.
unfoldable pub exit : ℕ → Proc → Kernel → Exit
exit c cur k =
    if c == k.initproc
    then panics
    else (if cur.lwpid == 0
        then exit_round c cur (record k { procs = modify c set_killed k.procs })
        else (if cur.forked then leave c cur k else elim cur.parent [
          | none ↦ panics
          | some m ↦ leave c cur (record k { procs = modify m set_killed k.procs })
        ]))

-- `thread_exit(retval)`
unfoldable pub thread_exit : ℕ → Proc → ℕ → Kernel → Exit
thread_exit c cur retval k =
    if c == k.initproc then panics else elim (close_files cur.ofile k.files) [
      | none ↦ panics
      | some r ↦ gone (record k {
        files = r.1;
        calls = k.calls ++ (r.0 ++ (iput cur.cwd ∷ []));
        num_lwp = k.num_lwp -ℤ pos 1;
        procs = modify c (set_state zombie) (
            wakeup1 (parent_chan cur) (
              modify c (λ p. record p { ofile = no_files p.ofile; cwd = none; retval = retval })
                k.procs));
      })
    ]
