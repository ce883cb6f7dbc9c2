-- ===== src/Proc/Sched/Calls.antt =====
-- What the calls of a running process do to the table.
use ele3021_operating_system.Base.{
  ℕ, ◌≡◌, refl, sym, subst, ◌∙◌, inl, inr, Bool, true, some, get_elem?, arith, some_eq, ℕ_discrete,
  if◌then◌else◌, Bool-cases, Option-cases, ltb, ◌==◌,
}
use ele3021_operating_system.Base.Find.{find_index}
use ele3021_operating_system.Proc.{Proc, Chan, of_proc, is_unused, is_zombie}
use ele3021_operating_system.Proc.Table.{
  Kernel, Call, Round, kill, kill_one, is_zombie_child, is_ended_thread,
}
use ele3021_operating_system.Proc.Table.Reap.{Frees, Waits, Joins, wait-Waits, thread_join-Joins}
use ele3021_operating_system.Proc.Life.{Vm, Result}
use ele3021_operating_system.Proc.Life.Exit.{Exit}
use ele3021_operating_system.Proc.Life.Quiet.{
  runs, Quiet, Quiet-refl, Quiet-trans, Evolves, Evolves-same, Evolve-map, Evolve-Quiet,
  EvolvesAt-refl, Quiet-elsewhere, Quiet-modify, kill_one-Evolves, Evolves-refl,
}
use ele3021_operating_system.Proc.Life.Births.{After, fork-Quiet}
use ele3021_operating_system.Proc.Life.Threads.{thread_create-Quiet, growproc-Quiet, get_base-Quiet}
use ele3021_operating_system.Proc.Life.Ends.{Left, Quiet-Left, stop-Left, zombie-Evolves}
use ele3021_operating_system.Proc.Life.Leaving.{
  Exits, exit-Exits, exit_round-Exits, thread_exit-Exits,
}
use ele3021_operating_system.Proc.Sched.{sleep, after, after_round, after_exit, Runs, Leaves}

abbrev kill_if : Proc → Proc
kill_if p = if ltb 0 p.lwpid then kill_one p else p

after-Quiet :
    (k : Kernel) (r : Result) {k' : Kernel} → After (Quiet k) r → after r ≡ some k' → Quiet k k'
after-Quiet k Result.panics h e = cc
after-Quiet k (Result.fails k1) h e = subst (Quiet k) (some_eq e) h
after-Quiet k (Result.returns n k1) h e = subst (Quiet k) (some_eq e) h

Frees-Quiet :
    {k k' : Kernel} {i : ℕ} {p : Proc} {call : Call} {clean : Proc → Proc}
    → ((p : Proc) → is_unused (clean p).state ≡ true)
    → is_zombie p.state ≡ true
    → Frees k i p call clean k'
    → Quiet k k'
Frees-Quiet {k} {k'} {i} {p} {clean = clean} cleans z r =
    Evolve-Quiet k k' (omega (arith, r.next)) (λ j. elim (ℕ_discrete i j) [
      | yes same ↦ rw (← same, r.was, r.entry) (zombie-Evolves p (clean p) z (cleans p))
      | no ne ↦ rw (r.others j ne) (EvolvesAt-refl (get_elem? k.procs j))
    ])

Waits-Quiet :
    (c : ℕ) (killed : Bool) (k : Kernel) (r : Round ℕ) {k' : Kernel}
    → Waits c killed k r
    → after_round k r ≡ some k'
    → Quiet k k'
Waits-Quiet c killed k (Round.returns n k1) (i, p, first, same, r) e =
    subst (Quiet k) (some_eq e) (
      Frees-Quiet (λ q. refl) (ended first.entry p first.passes (some_eq (sym first.at ∙ r.was))) r)
  where
    ended : (p q : Proc) → is_zombie_child c p ≡ true → p ≡ q → is_zombie q.state ≡ true
    ended p q h eq = rw (← eq) (ground arith)
Waits-Quiet c killed k Round.fails h e = subst (Quiet k) (some_eq e) (Quiet-refl k)
Waits-Quiet c killed k Round.sleeps h e = cc
Waits-Quiet c killed k Round.panics h e = cc

Joins-Quiet :
    (thread : ℕ) (cur : Proc) (k : Kernel) (r : Round ℕ) {k' : Kernel}
    → Joins thread cur k r
    → after_round k r ≡ some k'
    → Quiet k k'
Joins-Quiet thread cur k (Round.returns n k2) (i, p, k1, normal, first, same, r, last) e =
    Quiet-trans
      (Frees-Quiet (λ q. refl) (ended first.entry p first.passes (some_eq (sym first.at ∙ r.was)))
        r)
      (subst (Quiet k1) (sym last ∙ some_eq e) (Quiet-elsewhere k1 _ refl refl))
  where
    ended :
        (p q : Proc) → is_ended_thread thread cur.pid p ≡ true → p ≡ q → is_zombie q.state ≡ true
    ended p q h eq = rw (← eq) (ground arith)
Joins-Quiet thread cur k Round.fails h e = subst (Quiet k) (some_eq e) (Quiet-refl k)
Joins-Quiet thread cur k Round.sleeps h e = cc
Joins-Quiet thread cur k Round.panics h e = cc

kill-Quiet :
    (pid : ℕ) (cur : Proc) (k : Kernel) → Quiet k (record k { procs = (kill pid cur k.procs).0 })
unfolding kill
kill-Quiet pid cur k = elim (Bool-cases (ltb 0 cur.lwpid)) [
  | inl e ↦ rw (e, kill) (Evolve-Quiet k _ (omega arith) (Evolve-map kill_if if-Evolves k.procs))
  | inr e ↦ elim (Option-cases (find_index (λ p. p.pid == pid) k.procs)) [
    | inl f ↦ simp (e, f) (Quiet-elsewhere k _ refl refl)
    | inr (i, f) ↦ simp (e, f) (Quiet-modify k _ i kill_one refl refl (λ p at. kill_one-Evolves p))
  ]
]
  where
    if-Evolves : (p : Proc) → Evolves p (kill_if p)
    if-Evolves p = elim (Bool-cases (ltb 0 p.lwpid)) [
      | inl e ↦ rw (e, kill_if) (kill_one-Evolves p)
      | inr e ↦ rw (e, kill_if) (Evolves-refl p)
    ]

pub Runs-Quiet :
    (vm : Vm) (c : ℕ) (cur : Proc) (k : Kernel) {k' : Kernel} → Runs vm c cur k k' → Quiet k k'
Runs-Quiet vm c cur k (Runs.forks e) = after-Quiet k _ (fork-Quiet vm c cur k) e
Runs-Quiet vm c cur k (Runs.creates routine e) =
    after-Quiet k _ (thread_create-Quiet vm c cur routine k) e
Runs-Quiet vm c cur k (Runs.grows n e) = after-Quiet k _ (growproc-Quiet vm c cur n k) e
Runs-Quiet vm c cur k (Runs.bases {k'} {s} e) = (get_base-Quiet c k k' s e).0
Runs-Quiet vm c cur k (Runs.kills pid) = kill-Quiet pid cur k
Runs-Quiet vm c cur k (Runs.waits e) = Waits-Quiet c cur.killed k _ (wait-Waits c cur.killed k) e
Runs-Quiet vm c cur k (Runs.joins thread e) =
    Joins-Quiet thread cur k _ (thread_join-Joins thread cur k) e
Runs-Quiet vm c cur k Runs.tidies =
    Quiet-modify k _ c _ refl refl (λ p at. Evolves-same p _ refl refl)

sleep-Left :
    (c : ℕ) (chan : Chan) (k : Kernel)
    → runs (get_elem? k.procs c) ≡ true
    → Left c k (sleep c chan k)
sleep-Left c chan k on = stop-Left c _ k _ on refl refl (λ p. refl) (λ p. refl)

after_exit-Left :
    (c : ℕ) (k : Kernel) (r : Exit) {k' : Kernel}
    → runs (get_elem? k.procs c) ≡ true
    → Exits c k r
    → after_exit c r ≡ some k'
    → Left c k k'
after_exit-Left c k Exit.panics on h e = cc
after_exit-Left c k (Exit.sleeps k1) on h e =
    subst (Left c k) (some_eq e) (Quiet-Left h (sleep-Left c (of_proc c) k1 (h.calm c ∙ on)))
after_exit-Left c k (Exit.gone k1) on h e = subst (Left c k) (some_eq e) h

pub Leaves-Left :
    (vm : Vm) (c : ℕ) (cur : Proc) (k : Kernel) {k' : Kernel}
    → runs (get_elem? k.procs c) ≡ true
    → Leaves vm c cur k k'
    → Left c k k'
Leaves-Left vm c cur k on Leaves.yields = stop-Left c _ k _ on refl refl (λ p. refl) (λ p. refl)
Leaves-Left vm c cur k on (Leaves.sleeps chan) = sleep-Left c chan k on
Leaves-Left vm c cur k on (Leaves.exits e) = after_exit-Left c k _ on (exit-Exits c cur k on) e
Leaves-Left vm c cur k on (Leaves.exits_on e) =
    after_exit-Left c k _ on (exit_round-Exits c cur k on) e
Leaves-Left vm c cur k on (Leaves.thread_exits retval e) =
    after_exit-Left c k _ on (thread_exit-Exits c cur retval k on) e
