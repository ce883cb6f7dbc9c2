-- ===== src/Syscall.antt =====
-- xv6-public/syscall.c, and the descriptors of xv6-public/sysfile.c: how the kernel reads the
-- arguments of a system call, and what `dup` and `close` do with them. `mem` is the byte at each user
-- address, `cur` is `myproc()`.
pub mod Bounds
pub mod Counts
pub mod Calls
mod Tests
use ele3021_operating_system.Base.{
  ℕ, zero, suc, ◌+◌, ◌-◌, ◌*◌, ◌%◌, ◌^◌, Bool, true, false, ◌||◌, List, Option, none, some, ltb,
  leb, ◌==◌, ◌>>=◌, if◌then◌else◌, get_elem?, set,
}
use ele3021_operating_system.Base.Find.{find_index}
use ele3021_operating_system.Base.Int.{ℤ, pos, negsuc}
use ele3021_operating_system.Proc.{Proc}
use ele3021_operating_system.File.{File, Close, filedup, fileclose}

-- `*(int*)addr`, as a word: the first byte is the lowest.
abbrev pub word_at : (ℕ → ℕ) → ℕ → ℕ
word_at mem a = mem a + mem (a + 1) * 2 ^ 8 + mem (a + 2) * 2 ^ 16 + mem (a + 3) * 2 ^ 24

-- A word as an `int`.
abbrev pub as_int : ℕ → ℤ
as_int w = if ltb w (2 ^ 31) then pos w else negsuc (2 ^ 32 - w - 1)

-- `fetchint(addr, ip)`: the word, or `none` for -1.
unfoldable pub fetchint : ℕ → Proc → (ℕ → ℕ) → Option ℕ
fetchint addr cur mem =
    if leb cur.sz addr || ltb cur.sz ((addr + 4) % 2 ^ 32) then none else some (word_at mem addr)

-- The loop of `fetchstr`, with `k` bytes left before `ep`: how far it is to the end of the string.
unfoldable pub scan_str : ℕ → ℕ → (ℕ → ℕ) → Option ℕ
scan_str zero s mem = none
scan_str (suc k) s mem =
    let rest = scan_str k (s + 1) mem in if mem s == 0 then some 0 else (rest >>= λ n. some (suc n))

-- `fetchstr(addr, pp)`: the length of the string, or `none` for -1; the string stands at `addr`.
unfoldable pub fetchstr : ℕ → Proc → (ℕ → ℕ) → Option ℕ
fetchstr addr cur mem = if leb cur.sz addr then none else scan_str (cur.sz - addr) addr mem

-- `argint(n, ip)`
unfoldable pub argint : ℕ → Proc → (ℕ → ℕ) → Option ℕ
argint n cur mem = fetchint ((cur.tf.esp + 4 + 4 * n) % 2 ^ 32) cur mem

-- The test of `argptr` for the pointer `i`.
abbrev pub is_outside : ℕ → ℤ → Proc → Bool
is_outside i (negsuc size) cur = true
is_outside i (pos size) cur = leb cur.sz i || ltb cur.sz ((i + size) % 2 ^ 32)

-- `argptr(n, pp, size)`: the pointer, or `none` for -1.
unfoldable pub argptr : ℕ → ℤ → Proc → (ℕ → ℕ) → Option ℕ
argptr n size cur mem = argint n cur mem >>= λ i. if is_outside i size cur then none else some i

-- `argstr(n, pp)`: the pointer and the length of the string.
unfoldable pub argstr : ℕ → Proc → (ℕ → ℕ) → Option (ℕ × ℕ)
argstr n cur mem = argint n cur mem >>= λ addr. fetchstr addr cur mem >>= λ len. some (addr, len)

-- NOFILE
abbrev pub nofile : ℕ
nofile = 16

abbrev pub named_file : ℕ → Option (Option ℕ) → Option (ℕ × ℕ)
named_file fd none = none
named_file fd (some none) = none
named_file fd (some (some f)) = some (fd, f)

-- `argfd`, for the descriptor `fd`: the descriptor and its file.
unfoldable pub descriptor : ℤ → Proc → Option (ℕ × ℕ)
descriptor (negsuc fd) cur = none
descriptor (pos fd) cur = if leb nofile fd then none else named_file fd (get_elem? cur.ofile fd)

-- `argfd(n, pfd, pf)`; `none` is -1.
unfoldable pub argfd : ℕ → Proc → (ℕ → ℕ) → Option (ℕ × ℕ)
argfd n cur mem = argint n cur mem >>= λ w. descriptor (as_int w) cur

abbrev pub is_free_fd : Option ℕ → Bool
is_free_fd none = true
is_free_fd (some f) = false

-- `fdalloc(f)`: the descriptor, and the process with it.
unfoldable pub fdalloc : ℕ → Proc → Option (ℕ × Proc)
fdalloc f cur = find_index is_free_fd cur.ofile >>= λ fd.
    some (fd, record cur { ofile = set cur.ofile fd (some f) })

-- `sys_dup()`: the descriptor or `none` for -1, with the process and the table of files after it. The
-- outer `none` is a panic.
unfoldable pub sys_dup : Proc → (ℕ → ℕ) → List File → Option (Option ℕ × Proc × List File)
sys_dup cur mem fs = elim (argfd 0 cur mem) [
  | none ↦ some (none, cur, fs)
  | some r ↦ elim (fdalloc r.1 cur) [
    | none ↦ some (none, cur, fs)
    | some q ↦ filedup r.1 fs >>= λ fs'. some (some q.0, q.1, fs')
  ]
]

-- `sys_close()`: what the last `fileclose` goes on to do, or `none` for -1.
unfoldable pub sys_close :
    Proc → (ℕ → ℕ) → List File → Option (Option (Option Close) × Proc × List File)
sys_close cur mem fs = elim (argfd 0 cur mem) [
  | none ↦ some (none, cur, fs)
  | some r ↦
      fileclose r.1 fs >>= λ q. some (some q.0, record cur { ofile = set cur.ofile r.0 none }, q.1)
]
