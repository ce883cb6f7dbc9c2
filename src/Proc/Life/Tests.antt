-- ===== src/Proc/Life/Tests.antt =====
-- The theorems on the lives of processes at a small table.
use ele3021_operating_system.Base.{◌≡◌, refl, true, [], ◌∷◌, none, some}
use ele3021_operating_system.Base.Find.{find_index, modify}
use ele3021_operating_system.Base.Loops.{sweep, try_sweep}
use ele3021_operating_system.Base.Int.{pos, ◌-ℤ◌}
use ele3021_operating_system.Kalloc.{kalloc, kfree}
use ele3021_operating_system.Proc.{runnable, zombie}
use ele3021_operating_system.Proc.Table.{
  Kernel, deallocuvm, iput, idup, allocproc, give_stack, free_entry, reap_thread, wakeup1,
}
use ele3021_operating_system.Proc.Life.{
  Vm, returns, fork, fork_new, fork_copied, dup_files, close_files,
}
use ele3021_operating_system.Proc.Life.Exit.{gone, end_thread, adopt_one, leave, exit_round, exit}
use ele3021_operating_system.Proc.Life.Forks.{Forks, fork-Forks}
use ele3021_operating_system.Proc.Life.Orphans.{Ended, exit-Ended}
use ele3021_operating_system.Proc.Samples.{blank, init_proc, shell, thread, kernel}

-- Memory that never runs out and never is taken.
abbrev free_vm : Vm
free_vm = record {
  copyuvm = λ pgdir sz m. (some pgdir, m);
  allocuvm = λ pgdir old new m. (some new, m);
}

-- The kernel after the shell has forked.
abbrev forked : Kernel
forked = record kernel {
  procs =
      init_proc
      ∷ shell
      ∷ thread
      ∷ record blank { state = runnable; pid = 4; parent = some 1; kstack = 0x80500000 }
      ∷ [];
  nextpid = 5;
  kmem = record { end_addr = 0x80100000; use_lock = true; freelist = [] };
  calls = idup none ∷ [];
}

fork_run : fork free_vm 1 shell kernel ≡ returns 4 forked
unfolding fork fork_new fork_copied dup_files allocproc find_index give_stack kalloc modify
fork_run = refl

fork-Forks_example : Forks 1 shell kernel 4 forked
fork-Forks_example = fork-Forks free_vm 1 shell kernel fork_run

-- The kernel after the shell has ended, with its thread.
abbrev ended : Kernel
ended = record kernel {
  procs =
      record init_proc { state = runnable }
      ∷ record shell { killed = true; state = zombie }
      ∷ reap_thread thread
      ∷ blank
      ∷ [];
  num_lwp = pos 0;
  kmem = record { end_addr = 0x80100000; use_lock = true; freelist = 0x80400000 ∷ 0x80500000 ∷ [] };
  calls = deallocuvm 0 8192 0 ∷ iput none ∷ [];
}

exit_run : exit 1 shell kernel ≡ gone ended
unfolding exit exit_round leave end_thread adopt_one close_files free_entry try_sweep sweep wakeup1
    modify kfree ◌-ℤ◌
exit_run = refl

exit-Ended_example : Ended 1 ended
exit-Ended_example = exit-Ended 1 shell kernel ended exit_run
