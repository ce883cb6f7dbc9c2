-- ===== src/Spin.antt =====
-- xv6-public/spinlock.c: a spin lock that several CPUs take and release at the same time. Each CPU
-- goes through `acquire` and `release` again and again, in steps that are atomic in the code.
--
-- The two `pushcli` and `popcli` inside `holding` undo each other and are left out.
pub mod Exclusion
mod Tests
use ele3021_operating_system.Base.{
  ℕ, ◌+◌, ◌-◌, Bool, true, false, not, ◌&&◌, List, [], ◌∷◌, Option, none, some, ◌>>=◌, ◌==◌,
  if◌then◌else◌, update,
}

-- `struct spinlock`, less its name and call stack; a CPU is its number.
pub record Spinlock : Type 0 where
  pub locked : Bool
  pub cpu : Option ℕ

-- Where a CPU is: before `acquire`; at its `xchg`; past it, before `lk->cpu` is set; between `acquire`
-- and `release`; in `release` before `locked` is cleared; and before its `popcli`.
pub data Where : Type 0 where
  outside spinning taken inside leaving freed : Where

-- The interrupt flag, the fields of `struct cpu` for it, and where the CPU is.
pub record Cpu : Type 0 where
  pub flag : Bool
  pub ncli : ℕ
  pub intena : Bool
  pub at : Where

pub record System : Type 0 where
  pub lock : Spinlock
  pub cpus : ℕ → Cpu

abbrev pub pushcli : Cpu → Cpu
pushcli c = record c {
  flag = false;
  intena = (if c.ncli == 0 then c.flag else c.intena);
  ncli = c.ncli + 1;
}

-- `popcli()`; `none` is a panic.
abbrev pub popcli : Cpu → Option Cpu
popcli c =
    if c.flag
    then none
    else (if c.ncli == 0
        then none
        else some (record c { ncli = c.ncli - 1; flag = c.ncli - 1 == 0 && c.intena }))

abbrev pub is_cpu : Option ℕ → ℕ → Bool
is_cpu none n = false
is_cpu (some m) n = m == n

-- `holding(lock)` on the CPU `n`
abbrev pub holding : Spinlock → ℕ → Bool
holding lock n = lock.locked && is_cpu lock.cpu n

abbrev pub with_cpu : ℕ → Cpu → Spinlock → System → System
with_cpu n c lock s = record { lock = lock; cpus = update s.cpus n c }

-- `acquire(lk)` up to the `xchg`
abbrev pub begin_acquire : ℕ → Cpu → System → Option System
begin_acquire n c s =
    if holding s.lock n
    then none
    else some (with_cpu n (record (pushcli c) { at = Where.spinning }) s.lock s)

-- The `xchg` of `acquire`, once
abbrev pub exchange : ℕ → Cpu → System → Option System
exchange n c s =
    if s.lock.locked
    then some s
    else some (with_cpu n (record c { at = Where.taken }) (record s.lock { locked = true }) s)

-- `release(lk)` up to `lk->cpu = 0`
abbrev pub begin_release : ℕ → Cpu → System → Option System
begin_release n c s =
    if holding s.lock n
    then some (with_cpu n (record c { at = Where.leaving }) (record s.lock { cpu = none }) s)
    else none

abbrev pub advance_at : Where → ℕ → Cpu → System → Option System
advance_at Where.outside n c s = begin_acquire n c s
advance_at Where.spinning n c s = exchange n c s
advance_at Where.taken n c s =
    some (with_cpu n (record c { at = Where.inside }) (record s.lock { cpu = some n }) s)
advance_at Where.inside n c s = begin_release n c s
advance_at Where.leaving n c s =
    some (with_cpu n (record c { at = Where.freed }) (record s.lock { locked = false }) s)
advance_at Where.freed n c s =
    popcli c >>= λ c'. some (with_cpu n (record c' { at = Where.outside }) s.lock s)

-- What the CPU `n` does next, in `acquire` and `release`; `none` is a panic.
unfoldable pub advance : ℕ → System → Option System
advance n s = advance_at (s.cpus n).at n (s.cpus n) s

-- The CPUs advance in the order of the list.
unfoldable pub run_cpus : List ℕ → System → Option System
run_cpus [] s = some s
run_cpus (n ∷ ns) s = advance n s >>= run_cpus ns

-- `initlock`, and CPUs with these interrupt flags.
abbrev pub initlock : (ℕ → Bool) → System
initlock flags = record {
  lock = record { locked = false; cpu = none };
  cpus = λ n. record { flag = flags n; ncli = 0; intena = false; at = Where.outside };
}
