-- ===== src/Proc/Table/Tests.antt =====
-- The theorems on the process table at a small table.
use ele3021_operating_system.Base.{◌≡◌, refl, true, false, [], ◌∷◌, some}
use ele3021_operating_system.Base.Find.{find_index, modify}
use ele3021_operating_system.Kalloc.{kalloc, kfree}
use ele3021_operating_system.Proc.Table.{
  Kernel, Round, freevm, give_stack, free_entry, reap, reap_child, allocproc, kill, wait,
  thread_join,
}
use ele3021_operating_system.Proc.Table.Killed.{KillAnswers, kill_lem}
use ele3021_operating_system.Proc.Table.Reaped.{WaitAnswers, JoinAnswers, wait_lem, thread_join_lem}
use ele3021_operating_system.Proc.Samples.{kernel, blank, init_proc, shell, thread, table}

alloc_run : (allocproc kernel).0 ≡ some 3
unfolding allocproc find_index give_stack kalloc modify
alloc_run = refl

kill_lem_example : KillAnswers 1 thread table (kill 1 thread table)
kill_lem_example = kill_lem 1 thread table

wait_lem_example : WaitAnswers 1 false kernel (wait 1 false kernel)
wait_lem_example = wait_lem 1 false kernel

thread_join_lem_example : JoinAnswers 1 shell kernel (thread_join 1 shell kernel)
thread_join_lem_example = thread_join_lem 1 shell kernel

-- The kernel after the shell has waited for its thread.
abbrev waited : Kernel
waited = record kernel {
  procs = init_proc ∷ shell ∷ reap thread ∷ blank ∷ [];
  kmem = record { end_addr = 0x80100000; use_lock = true; freelist = 0x80400000 ∷ 0x80500000 ∷ [] };
  calls = freevm 0 ∷ [];
}

wait_run : wait 1 false kernel ≡ Round.returns 3 waited
unfolding wait reap_child free_entry find_index modify kfree
wait_run = refl
