-- ===== src/Pipe.antt =====
-- xv6-public/pipe.c: the ring buffer of a pipe. A function is one round of its loop that sleeps and
-- tries again; the wakeups of `nread` and `nwrite` are not modelled.
pub mod Bytes
pub mod Writing
pub mod Reading
mod Tests
use ele3021_operating_system.Base.{
  ℕ, zero, suc, ◌+◌, ◌%◌, ◌^◌, Bool, true, false, not, ◌&&◌, ◌||◌, List, [], ◌∷◌, get_or, set,
  length, ◌==◌, if◌then◌else◌,
}

abbrev pub pipe_size : ℕ
pipe_size = 512

-- `struct pipe`; `cells` is its field `data`, and the counters are `uint`.
pub record Pipe : Type 0 where
  pub cells : List ℕ
  pub nread : ℕ
  pub nwrite : ℕ
  pub readopen : Bool
  pub writeopen : Bool

-- `pipealloc` on the page that `kalloc` gave: what the page held stays in the cells.
abbrev pub new_pipe : List ℕ → Pipe
new_pipe junk = record { cells = junk; nread = 0; nwrite = 0; readopen = true; writeopen = true }

-- `pipeclose(p, writable)`, and whether the pipe's page is then freed.
pub pipeclose : Pipe → Bool → Pipe × Bool
pipeclose p writable =
    let p' : Pipe =
      (if writable then record p { writeopen = false } else record p { readopen = false }) in
    (p', not p'.readopen && not p'.writeopen)

-- `p->nwrite == p->nread + PIPESIZE`
abbrev pub is_full : Pipe → Bool
is_full p = p.nwrite == (p.nread + pipe_size) % 2 ^ 32

abbrev pub is_empty : Pipe → Bool
is_empty p = p.nread == p.nwrite

-- `p->data[p->nwrite++ % PIPESIZE] = x`
abbrev pub put : ℕ → Pipe → Pipe
put x p = record p {
  cells = set p.cells (p.nwrite % pipe_size) x;
  nwrite = (p.nwrite + 1) % 2 ^ 32;
}

-- What a call comes to: -1, sleep, or a result; a sleeping writer has bytes left to write.
pub data Written : Type 0 where
  fails : Pipe → Written
  sleeps : Pipe → List ℕ → Written
  returns : Pipe → Written

-- `pipewrite(p, addr, n)` for the `n` bytes at `addr`, up to a sleep; `killed` is that of the caller.
pub pipewrite : Bool → Pipe → List ℕ → Written
pipewrite killed p [] = returns p
pipewrite killed p (x ∷ xs) =
    let rest = pipewrite killed (put x p) xs in
    if is_full p then (if not p.readopen || killed then fails p else sleeps p (x ∷ xs)) else rest

-- The copying loop of `piperead`: the bytes, and the pipe after it.
pub read_bytes : ℕ → Pipe → List ℕ × Pipe
read_bytes zero p = ([], p)
read_bytes (suc n) p =
    let (bytes, p') = read_bytes n (record p { nread = (p.nread + 1) % 2 ^ 32 }) in
    if is_empty p then ([], p) else (get_or p.cells (p.nread % pipe_size) 0 ∷ bytes, p')

pub data Read : Type 0 where
  fails : Read
  sleeps : Read
  returns : List ℕ → Pipe → Read

-- `piperead(p, addr, n)`
pub piperead : Bool → Pipe → ℕ → Read
piperead killed p n =
    let (bytes, p') = read_bytes n p in
    if is_empty p && p.writeopen then (if killed then fails else sleeps) else returns bytes p'
