-- ===== src/Proc/Table/Reaped.antt =====
-- What `wait` and `thread_join` promise, without reference to their own tests and updates.
use ele3021_operating_system.Base.{
  ℕ, ◌+◌, ◌*◌, ◌≡◌, ◌≢◌, refl, ap, ◌⊎◌, inl, inr, Bool, true, false, [], ◌∷◌, Option, none, some,
  ◌++◌, get_elem?, arith, set, ==_iff,
}
use ele3021_operating_system.Base.Such.{
  IsNowhere, IsFirstOf, Decides, All-IsNowhere, IsFirst-IsFirstOf,
}
use ele3021_operating_system.Kalloc.{kfree}
use ele3021_operating_system.Proc.{ProcState, unused, zombie, Proc, is_zombie, same_parent}
use ele3021_operating_system.Proc.Table.{
  Call, deallocuvm, freevm, Kernel, Round, returns, fails, sleeps, panics, wait, is_child,
  is_zombie_child, is_ended_thread, thread_join, page_size,
}
use ele3021_operating_system.Proc.Table.Reap.{Frees, Waits, Joins, wait-Waits, thread_join-Joins}

abbrev pub IsChild : ℕ → Proc → Type 0
IsChild cur p = p.parent ≡ some cur

abbrev pub IsZombieChild : ℕ → Proc → Type 0
IsZombieChild cur p = (p.parent ≡ some cur) × (p.state ≡ zombie)

abbrev pub IsEnded : ℕ → ℕ → Proc → Type 0
IsEnded thread pid p = (p.lwpid ≡ thread) × (p.lwppid ≡ pid) × (p.state ≡ zombie)

-- From `k` to `k'` the entry `i`, which was `p`, became `p'`, and no other changed; the kernel stack
-- of `p` is free again, `call` was made, and no pid was given out.
pub record Clears (k : Kernel) (i : ℕ) (p p' : Proc) (call : Call) (k' : Kernel) : Type 0 where
  pub entry : get_elem? k'.procs i ≡ some p'
  pub others : (j : ℕ) → i ≢ j → get_elem? k'.procs j ≡ get_elem? k.procs j
  pub stack : kfree p.kstack k.kmem ≡ some k'.kmem
  pub memory : k'.calls ≡ k.calls ++ (call ∷ [])
  pub next : k'.nextpid ≡ k.nextpid

-- What each answer of a round of `wait` promises.
abbrev pub WaitAnswers : ℕ → Bool → Kernel → Round ℕ → Type 0
WaitAnswers cur killed k (returns pid k') =
    (i : ℕ) × (p : Proc) × IsFirstOf (IsZombieChild cur) k.procs i p
    × (pid ≡ p.pid)
    × Clears k i p
        (record p {
          kstack = 0;
          pid = 0;
          parent = none;
          name = set p.name 0 0;
          killed = false;
          state = unused;
        })
        (freevm p.pgdir) k'
    × (k'.stable ≡ k.stable)
WaitAnswers cur killed k fails =
    IsNowhere (IsZombieChild cur) k.procs × ((killed ≡ true) ⊎ IsNowhere (IsChild cur) k.procs)
WaitAnswers cur killed k sleeps =
    IsNowhere (IsZombieChild cur) k.procs
    × (killed ≡ false)
    × ((i : ℕ) × (p : Proc) × IsFirstOf (IsChild cur) k.procs i p)
WaitAnswers cur killed k panics =
    (i : ℕ) × (p : Proc) × IsFirstOf (IsZombieChild cur) k.procs i p
    × (kfree p.kstack k.kmem ≡ none)

-- What each answer of a round of `thread_join` promises.
abbrev pub JoinAnswers : ℕ → Proc → Kernel → Round ℕ → Type 0
JoinAnswers thread cur k (returns retval k') =
    (i : ℕ) × (p : Proc) × (cur.lwpid ≡ 0)
    × IsFirstOf (IsEnded thread cur.pid) k.procs i p
    × (retval ≡ p.retval)
    × Clears k i p
        (record p {
          kstack = 0;
          pid = 0;
          parent = none;
          name = set p.name 0 0;
          killed = false;
          state = unused;
          lwpid = 0;
          lwppid = 0;
          sbase = 0;
          snum = 0;
          forked = false;
          retval = 0;
        })
        (deallocuvm p.pgdir (p.sbase + 2 * page_size) p.sbase) k'
    × (k'.stable ≡ set k.stable p.snum false)
JoinAnswers thread cur k fails =
    (cur.lwpid ≢ 0) ⊎ ((cur.killed ≡ true) × IsNowhere (IsEnded thread cur.pid) k.procs)
JoinAnswers thread cur k sleeps =
    (cur.lwpid ≡ 0) × (cur.killed ≡ false) × IsNowhere (IsEnded thread cur.pid) k.procs
JoinAnswers thread cur k panics =
    (i : ℕ) × (p : Proc) × (cur.lwpid ≡ 0)
    × IsFirstOf (IsEnded thread cur.pid) k.procs i p
    × (kfree p.kstack k.kmem ≡ none)

is_zombie_iff :
    (s : ProcState) → (is_zombie s ≡ true → s ≡ zombie) × (s ≡ zombie → is_zombie s ≡ true)
is_zombie_iff s = (λ h. ground arith, λ h. rw h refl)

same_parent_iff :
    (o : Option ℕ) (c : ℕ)
    → (same_parent o (some c) ≡ true → o ≡ some c) × (o ≡ some c → same_parent o (some c) ≡ true)
same_parent_iff none c = (λ h. cc, λ h. cc)
same_parent_iff (some i) c = (λ h. rw ((==_iff i c).0 h) refl, λ h. (==_iff i c).1 cc)

is_child-Decides : (cur : ℕ) → Decides (is_child cur) (IsChild cur)
is_child-Decides cur = record {
  yes_if = λ p. (same_parent_iff p.parent cur).0;
  no_if = λ p h e. absurd (ground (arith, (same_parent_iff p.parent cur).1 e));
}

is_zombie_child-Decides : (cur : ℕ) → Decides (is_zombie_child cur) (IsZombieChild cur)
is_zombie_child-Decides cur = record {
  yes_if = λ p h.
      ((same_parent_iff p.parent cur).0 (ground arith), (is_zombie_iff p.state).0 (ground arith));
  no_if = λ p h e.
      absurd (ground (arith, (same_parent_iff p.parent cur).1 e.0, (is_zombie_iff p.state).1 e.1));
}

is_ended_thread-Decides :
    (thread pid : ℕ) → Decides (is_ended_thread thread pid) (IsEnded thread pid)
is_ended_thread-Decides thread pid = record {
  yes_if = λ p h. (
    (==_iff p.lwpid thread).0 (ground arith),
    (==_iff p.lwppid pid).0 (ground arith),
    (is_zombie_iff p.state).0 (ground arith),
  );
  no_if = λ p h e. absurd (
      ground (
        arith,
        (==_iff p.lwpid thread).1 e.0,
        (==_iff p.lwppid pid).1 e.1,
        (is_zombie_iff p.state).1 e.2,
      ));
}

Frees-Clears :
    {k k' : Kernel} {i : ℕ} {p : Proc} {call : Call} {clean : Proc → Proc}
    → Frees k i p call clean k'
    → Clears k i p (clean p) call k'
Frees-Clears r = record {
  entry = r.entry;
  others = r.others;
  stack = r.stack;
  memory = r.memory;
  next = r.next;
}

Waits-WaitAnswers :
    (cur : ℕ) (killed : Bool) (k : Kernel) (r : Round ℕ)
    → Waits cur killed k r
    → WaitAnswers cur killed k r
Waits-WaitAnswers cur killed k (returns pid k') (i, p, first, same, r) = (
  i,
  p,
  IsFirst-IsFirstOf (is_zombie_child-Decides cur) first r.was,
  same,
  Frees-Clears r,
  r.slots,
)
Waits-WaitAnswers cur killed k fails (dead, inl h) =
    (All-IsNowhere k.procs (is_zombie_child-Decides cur) dead, inl h)
Waits-WaitAnswers cur killed k fails (dead, inr h) = (
  All-IsNowhere k.procs (is_zombie_child-Decides cur) dead,
  inr (All-IsNowhere k.procs (is_child-Decides cur) h),
)
Waits-WaitAnswers cur killed k sleeps (dead, alive, (i, first)) = (
  All-IsNowhere k.procs (is_zombie_child-Decides cur) dead,
  alive,
  (i, first.entry, IsFirst-IsFirstOf (is_child-Decides cur) first first.at),
)
Waits-WaitAnswers cur killed k panics (i, p, first, at, bad) =
    (i, p, IsFirst-IsFirstOf (is_zombie_child-Decides cur) first at, bad)

-- `wait`, called by the process `cur`, returns the pid of the first entry whose parent is `cur` and
-- that is a ZOMBIE: the entry is UNUSED then, with no pid, parent, name or kernel stack and not
-- marked as killed, its stack is free again and its page directory goes to `freevm`; no other entry
-- changes. Where there is no such entry, it fails if the caller was killed or no entry has the parent
-- `cur`, and sleeps if the caller was not killed and some entry has. It panics only if such an
-- entry's stack is no page that `kfree` takes.
pub wait_lem : (cur : ℕ) (killed : Bool) (k : Kernel) → WaitAnswers cur killed k (wait cur killed k)
wait_lem cur killed k = Waits-WaitAnswers cur killed k _ (wait-Waits cur killed k)

Joins-JoinAnswers :
    (thread : ℕ) (cur : Proc) (k : Kernel) (r : Round ℕ)
    → Joins thread cur k r
    → JoinAnswers thread cur k r
Joins-JoinAnswers thread cur k (returns retval k') (i, p, k1, normal, first, same, r, last) = (
  i,
  p,
  normal,
  IsFirst-IsFirstOf (is_ended_thread-Decides thread cur.pid) first r.was,
  same,
  rw last (
      let c = Frees-Clears r in
      record {
        entry = c.entry;
        others = c.others;
        stack = c.stack;
        memory = c.memory;
        next = c.next;
      }),
  ap (λ z. z.stable) last,
)
Joins-JoinAnswers thread cur k fails (inl lwp) = inl lwp
Joins-JoinAnswers thread cur k fails (inr (dead, h)) =
    inr (dead, All-IsNowhere k.procs (is_ended_thread-Decides thread cur.pid) h)
Joins-JoinAnswers thread cur k sleeps (normal, alive, h) =
    (normal, alive, All-IsNowhere k.procs (is_ended_thread-Decides thread cur.pid) h)
Joins-JoinAnswers thread cur k panics (i, p, normal, first, at, bad) =
    (i, p, normal, IsFirst-IsFirstOf (is_ended_thread-Decides thread cur.pid) first at, bad)

-- `thread_join(thread)` of a process that is no LWP returns the value of the first entry with that
-- LWP number whose LWP parent number is the caller's pid and that is a ZOMBIE: the entry is UNUSED
-- then, with its LWP fields cleared as well, its kernel stack and its stack slot are free again and
-- its two pages of user stack go to `deallocuvm`; no other entry changes. It fails for an LWP, and
-- for a caller that was killed where there is no such entry; it sleeps for another caller where there
-- is none. It panics only if such an entry's stack is no page that `kfree` takes.
pub thread_join_lem :
    (thread : ℕ) (cur : Proc) (k : Kernel) → JoinAnswers thread cur k (thread_join thread cur k)
thread_join_lem thread cur k = Joins-JoinAnswers thread cur k _ (thread_join-Joins thread cur k)
