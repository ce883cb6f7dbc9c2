-- ===== src/Proc/Stride.antt =====
-- xv6-public/proc.c: shares, strides and passes of the stride scheduler and of its MLFQ class.
-- A division by zero traps: `none`.
pub mod Balance
pub mod Books
pub mod Shares
pub mod Strides
pub mod Passes
mod Tests
use ele3021_operating_system.Base.{
  ℕ, zero, suc, ◌+◌, ◌-◌, ◌/◌, Bool, true, false, ◌&&◌, ◌||◌, List, [], ◌∷◌, Option, none, some,
  ltb, leb, ◌==◌, ◌>>=◌, if◌then◌else◌, get_elem?, set,
}
use ele3021_operating_system.Base.Find.{modify}
use ele3021_operating_system.Base.Int.{ℤ, pos, negsuc, ◌+ℤ◌, ◌-ℤ◌, ltb_ℤ, div_ℤ, is_zero, wrap_int}
use ele3021_operating_system.Proc.{
  SchedMode, strd_sched, strd_set_sched, mlfq_sched, MlfqLev, top, ProcStrd, ProcMlfq, ProcMlfqs,
  Proc, is_runnable, same_mode,
}

-- What these functions read and change: `ptable.proc`, `mlfqs`, `strd_share_sum` and `strd_sum`.
pub record Sched : Type 0 where
  pub procs : List Proc
  pub mlfqs : ProcMlfqs
  pub strd_share_sum : ℤ
  pub strd_sum : ℤ

-- `get_num(sm)`: the loop counts up; the count is that of the list.
pub count_mode : SchedMode → List Proc → ℕ
count_mode sm [] = 0
count_mode sm (p ∷ ps) =
    (if is_runnable p.state && same_mode p.mode sm then 1 else 0) + count_mode sm ps

pub get_num : SchedMode → Sched → ℕ
get_num sm k = count_mode sm k.procs

abbrev pub with_share : Proc → ℤ → ℤ → Proc
with_share p share stride = record p {
  strd = record { pass = p.strd.pass; stride = stride; share = share };
}

-- The `switch` of `update_strd`, for a RUNNABLE process.
pub update_mode : ℤ → ℕ → ℕ → ProcMlfqs → Proc → SchedMode → Option (ProcMlfqs × Proc)
update_mode strd_sum n1 n2 q p strd_sched = do
  share ← div_ℤ strd_sum (pos n1)
  stride ← div_ℤ (pos 10001) share
  some (q, with_share p share stride)
update_mode strd_sum n1 n2 q p strd_set_sched = do
  stride ← div_ℤ (pos 10001) p.strd.share
  some (q, with_share p p.strd.share stride)
update_mode strd_sum n1 n2 q p mlfq_sched =
    if n2 == 0 then some (record q { share = pos 0 }, with_share p (pos 0) (pos 0)) else (do
      share ← div_ℤ q.share (pos n2)
      stride ← div_ℤ (pos 10001) share
      some (q, with_share p share stride))

-- The body of the loop of `update_strd`.
pub update_proc : ℤ → ℕ → ℕ → ProcMlfqs → Proc → Option (ProcMlfqs × Proc)
update_proc strd_sum n1 n2 q p =
    if is_runnable p.state then update_mode strd_sum n1 n2 q p p.mode else some (q, p)

pub update_procs : ℤ → ℕ → ℕ → ProcMlfqs → List Proc → Option (ProcMlfqs × List Proc)
update_procs strd_sum n1 n2 q [] = some (q, [])
update_procs strd_sum n1 n2 q (p ∷ ps) = do
  a ← update_proc strd_sum n1 n2 q p
  b ← update_procs strd_sum n1 n2 a.0 ps
  some (b.0, a.1 ∷ b.1)

pub update_strd : Sched → Option Sched
update_strd k =
    update_procs k.strd_sum (get_num strd_sched k) (get_num mlfq_sched k) k.mlfqs k.procs >>= λ r.
    some (record k { mlfqs = r.0; procs = r.1 })

abbrev pub zero_pass : Proc → Proc
zero_pass p =
    if is_runnable p.state
    then record p { strd = record { pass = pos 0; stride = p.strd.stride; share = p.strd.share } }
    else p

pub zero_passes : List Proc → List Proc
zero_passes [] = []
zero_passes (p ∷ ps) = zero_pass p ∷ zero_passes ps

pub init_pass : Sched → Sched
init_pass k = record k { procs = zero_passes k.procs; mlfqs = record k.mlfqs { pass = pos 0 } }

-- A process that takes part in the stride scheduling.
abbrev pub is_stride : Proc → Bool
is_stride p =
    is_runnable p.state && (same_mode p.mode strd_sched || same_mode p.mode strd_set_sched)

-- The body of the loop of `get_min_pass`.
pub less_pass : ℤ → Proc → ℤ
less_pass min p = if is_stride p && ltb_ℤ p.strd.pass min then p.strd.pass else min

pub min_pass : ℤ → List Proc → ℤ
min_pass min [] = min
min_pass min (p ∷ ps) = min_pass (less_pass min p) ps

pub get_min_pass : Sched → ℤ
get_min_pass k =
    let min = min_pass (pos 99999999) k.procs in
    if ltb 0 (get_num mlfq_sched k) && ltb_ℤ k.mlfqs.pass min then k.mlfqs.pass else min

abbrev pub set_mode : SchedMode → Proc → Proc
set_mode mode p = record p { mode = mode }

abbrev pub set_share : ℤ → Proc → Proc
set_share share p = record p {
  strd = record { pass = p.strd.pass; stride = p.strd.stride; share = share };
}

pub data CpuShare : Type 0 where
  panics : CpuShare
  traps : CpuShare
  returns : ℕ → Sched → CpuShare

-- `update_strd(); init_pass();` and the return of `cpu_share`.
pub restart : ℕ → Option Sched → CpuShare
restart r none = traps
restart r (some k) = returns r (init_pass k)

-- The share that a process gets back when its request is refused.
pub default_share : Sched → Option ℤ
default_share k =
    div_ℤ ((if get_num mlfq_sched k == 0 then pos 100 else pos 80) -ℤ k.strd_share_sum)
      (pos (get_num strd_sched k))

-- The state once the share is given out, before the check.
abbrev pub granted : ℕ → ℤ → Sched → Sched
granted i share k = record k {
  strd_share_sum = wrap_int (k.strd_share_sum +ℤ share);
  strd_sum = wrap_int (k.strd_sum -ℤ share);
  procs = modify i (λ p. set_share share (set_mode strd_set_sched p)) k.procs;
}

-- The roll back.
abbrev pub refused : ℕ → ℤ → Sched → Sched
refused i share k = record k {
  strd_share_sum = wrap_int (k.strd_share_sum -ℤ share);
  strd_sum = wrap_int (k.strd_sum +ℤ share);
  procs = modify i (set_mode strd_sched) k.procs;
}

-- What is left to do after the roll back.
pub refuse : ℕ → Sched → Option Sched
refuse i k =
    default_share k >>= λ d. update_strd (record k { procs = modify i (set_share d) k.procs })

-- `cpu_share(share)` of the process `i`.
pub cpu_share : ℕ → ℤ → Sched → CpuShare
cpu_share i share k =
    let g = granted i share k in
    if ltb_ℤ k.strd_share_sum (pos 0) || ltb_ℤ share (pos 0)
    then panics
    else (if ltb_ℤ (pos 20) g.strd_share_sum
        then restart 1 (refuse i (refused i share g))
        else restart 0 (update_strd g))

-- The first process by MLFQ sets the share of its class.
abbrev pub set_up : Sched → Sched
set_up k =
    if is_zero k.mlfqs.share
    then record k {
      mlfqs = record k.mlfqs { share = pos 20; stride = pos (10001 / 20); pass = pos 0 };
      strd_sum = k.strd_sum -ℤ pos 20;
    }
    else k

-- The process `i` goes to the top level.
abbrev pub join : ℕ → Sched → Sched
join i k = record k {
  mlfqs = record k.mlfqs { topn = k.mlfqs.topn +ℤ pos 1 };
  procs =
      modify i
        (λ p. record p {
          mode = mlfq_sched;
          mlfq = record { tick = p.mlfq.tick; lev = top; priority = pos 0 };
        })
        k.procs;
}

-- `run_MLFQ()` of the process `i`; `none` is a trap.
pub run_mlfq : ℕ → Sched → Option Sched
run_mlfq i k = update_strd (join i (set_up k)) >>= λ r. some (init_pass r)
