-- ===== src/Proc/Stride/Tests.antt =====
-- The theorems on the stride scheduler at a small table.
use ele3021_operating_system.Base.{ℕ, ◌≡◌, ◌↔◌, refl, [], ◌∷◌, none, some, arith, Any}
use ele3021_operating_system.Base.Find.{modify}
use ele3021_operating_system.Base.Int.{pos, ◌+ℤ◌, ◌-ℤ◌, div_ℤ, wrap_int, negsuc}
use ele3021_operating_system.Proc.{runnable, strd_sched, strd_set_sched, mlfq_sched, Proc}
use ele3021_operating_system.Proc.Stride.{
  Sched, returns, granted, cpu_share, run_mlfq, update_strd, get_num, count_mode, update_procs,
  update_proc, update_mode, init_pass, zero_passes, restart,
}
use ele3021_operating_system.Proc.Stride.Balance.{IsBalanced}
use ele3021_operating_system.Proc.Stride.Shares.{ShareAnswers, cpu_share-IsBalanced}
use ele3021_operating_system.Proc.Stride.Strides.{Traps, update_strd-Traps}
use ele3021_operating_system.Proc.Samples.{init_proc, shell}

-- Two runnable processes of the stride class beside the shell.
abbrev books_at_start : Sched
books_at_start = record {
  procs =
      record init_proc { state = runnable }
      ∷ shell
      ∷ record init_proc { state = runnable; pid = 4 }
      ∷ [];
  mlfqs = record {
    pass = pos 0;
    stride = pos 0;
    share = pos 0;
    totaltick = pos 0;
    topn = pos 0;
    midn = pos 0;
    lown = pos 0;
  };
  strd_share_sum = pos 0;
  strd_sum = pos 100;
}

books_at_start-IsBalanced : IsBalanced books_at_start
unfolding ◌+ℤ◌
books_at_start-IsBalanced = record {
  balanced = refl;
  not_negative = omega arith;
  at_most = omega arith;
  mlfq_not_negative = omega arith;
  mlfq_at_most = omega arith;
}

abbrev with_strd : ℕ → ℕ → Proc → Proc
with_strd stride share p = record p {
  strd = record { pass = pos 0; stride = pos stride; share = pos share };
}

-- After the shell has asked for 10: the two others share 90. The shell, which is RUNNING, has got its
-- mode and its share, and no stride.
abbrev after_request : Sched
after_request = record books_at_start {
  procs =
      with_strd 222 45 (record init_proc { state = runnable })
      ∷ with_strd 0 10 (record shell { mode = strd_set_sched })
      ∷ with_strd 222 45 (record init_proc { state = runnable; pid = 4 })
      ∷ [];
  strd_share_sum = pos 10;
  strd_sum = pos 90;
}

cpu_share_run : cpu_share 1 (pos 10) books_at_start ≡ returns 0 after_request
unfolding cpu_share modify restart update_strd get_num count_mode update_procs update_proc
    update_mode div_ℤ init_pass zero_passes ◌+ℤ◌ ◌-ℤ◌ wrap_int
cpu_share_run = refl

cpu_share-IsBalanced_example :
    ShareAnswers 1 (pos 10) books_at_start (cpu_share 1 (pos 10) books_at_start)
cpu_share-IsBalanced_example =
    cpu_share-IsBalanced 1 (pos 10) books_at_start books_at_start-IsBalanced (omega arith)

-- A request of INT_MAX wraps the sum to -2147483639, which passes the test for 20.
granted_overflow : (granted 1 (pos 2147483647) after_request).strd_share_sum ≡ negsuc 2147483638
unfolding ◌+ℤ◌ wrap_int
granted_overflow = refl

abbrev after_mlfq : Sched
after_mlfq = record books_at_start {
  procs =
      with_strd 250 40 (record init_proc { state = runnable })
      ∷ record shell { mode = mlfq_sched }
      ∷ with_strd 250 40 (record init_proc { state = runnable; pid = 4 })
      ∷ [];
  mlfqs = record {
    pass = pos 0;
    stride = pos 500;
    share = pos 20;
    totaltick = pos 0;
    topn = pos 1;
    midn = pos 0;
    lown = pos 0;
  };
  strd_sum = pos 80;
}

run_mlfq_run : run_mlfq 1 books_at_start ≡ some after_mlfq
unfolding run_mlfq modify update_strd get_num count_mode update_procs update_proc update_mode div_ℤ
    init_pass zero_passes ◌+ℤ◌ ◌-ℤ◌
run_mlfq_run = refl

update_strd-Traps_example :
    (update_strd books_at_start ≡ none)
    ↔ Any
        (Traps 100 (get_num strd_sched books_at_start) (get_num mlfq_sched books_at_start) 0)
        books_at_start.procs
update_strd-Traps_example = update_strd-Traps books_at_start 100 0 refl refl
