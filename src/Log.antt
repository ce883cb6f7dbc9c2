-- ===== src/Log.antt =====
-- xv6-public/log.c: the redo log of the file system, over a disk that writes one block at a time.
--
-- The disk keeps its header block (at `log.start`) decoded, apart from the other blocks. `cache` is
-- what `bread` returns for a block: its buffer. `past` collects the states that the disk had before
-- each `bwrite`, so that a crash at any moment is one of those states or the present one.
mod Redo
pub mod Recover
pub mod Commit
pub mod Mixed
pub mod Record
pub mod Full
mod Tests
use ele3021_operating_system.Base.{
  ℕ, zero, suc, ◌+◌, ◌-◌, List, [], ◌∷◌, Bool, true, false, get_or, set, replicate, update, ltb,
  ◌==◌, ◌||◌, if◌then◌else◌, length,
}
use ele3021_operating_system.Base.Int.{ℤ, pos, negsuc, ◌+ℤ◌, ◌-ℤ◌, ltb_ℤ, is_zero}

-- BSIZE bytes, only moved whole by the log.
abbrev pub Block : Type 0
Block = List ℕ

abbrev pub log_size : ℕ
log_size = 30

-- `struct logheader`
pub record LogHeader : Type 0 where
  pub n : ℕ
  pub block : List ℕ

pub record Disk : Type 0 where
  pub head : LogHeader
  pub blocks : ℕ → Block

-- `struct log`, the buffer cache and the disk.
pub record Machine : Type 0 where
  pub start : ℕ
  pub outstanding : ℤ
  pub committing : Bool
  pub full : Bool
  pub lh : LogHeader
  pub cache : ℕ → Block
  pub cached_head : LogHeader
  pub dirty : ℕ → Bool
  pub disk : Disk
  pub past : List Disk

-- `bwrite` of the buffer of block `b`, whose content is `v`.
abbrev pub bwrite : ℕ → Block → Machine → Machine
bwrite b v m = record m {
  cache = update m.cache b v;
  dirty = update m.dirty b false;
  disk = record { head = m.disk.head; blocks = update m.disk.blocks b v };
  past = m.disk ∷ m.past;
}

-- The body of the loop in `install_trans`.
abbrev pub install_one : ℕ → Machine → Machine
install_one tail m = bwrite (get_or m.lh.block tail 0) (m.cache (m.start + tail + 1)) m

-- `k` rounds of that loop, from `tail` on.
pub install_from : ℕ → ℕ → Machine → Machine
install_from zero tail m = m
install_from (suc k) tail m = install_from k (suc tail) (install_one tail m)

pub install_trans : Machine → Machine
install_trans m = install_from m.lh.n 0 m

-- `for (i = 0; i < n; i++) to[i] = from[i];`
abbrev pub copy_blocks : ℕ → List ℕ → List ℕ → List ℕ
copy_blocks zero to from = to
copy_blocks (suc n) (_ ∷ to) (x ∷ from) = x ∷ copy_blocks n to from
copy_blocks (suc n) to from = to

pub read_head : Machine → Machine
read_head m = record m {
  lh = record {
    n = m.cached_head.n;
    block = copy_blocks m.cached_head.n m.lh.block m.cached_head.block;
  };
}

pub write_head : Machine → Machine
write_head m =
    let h : LogHeader = record {
      n = m.lh.n;
      block = copy_blocks m.lh.n m.cached_head.block m.lh.block;
    } in
    record m {
      cached_head = h;
      disk = record { head = h; blocks = m.disk.blocks };
      past = m.disk ∷ m.past;
    }

-- `log.lh.n = 0; write_head();`
pub clear_log : Machine → Machine
clear_log m = write_head (record m { lh = record { n = 0; block = m.lh.block } })

pub recover_from_log : Machine → Machine
recover_from_log m = clear_log (install_trans (read_head m))

-- A machine that starts on the disk `d`: its memory is cleared and its cache is cold. The second
-- part of `initlog` takes the place of the log from the super block.
abbrev pub boot : ℕ → Disk → Machine
boot start d = record {
  start = start;
  outstanding = pos 0;
  committing = false;
  full = false;
  lh = record { n = 0; block = replicate log_size 0 };
  cache = d.blocks;
  cached_head = d.head;
  dirty = λ _. false;
  disk = d;
  past = [];
}

pub initlog : ℕ → Disk → Machine
initlog start d = recover_from_log (boot start d)

-- The body of the loop in `write_log`: the cached block goes to its slot in the log.
abbrev pub write_one : ℕ → Machine → Machine
write_one tail m = bwrite (m.start + tail + 1) (m.cache (get_or m.lh.block tail 0)) m

pub write_from : ℕ → ℕ → Machine → Machine
write_from zero tail m = m
write_from (suc k) tail m = write_from k (suc tail) (write_one tail m)

pub write_log : Machine → Machine
write_log m = write_from m.lh.n 0 m

pub commit : Machine → Machine
commit m = if ltb 0 m.lh.n then write_head (write_log m) else m

-- `return -1` is `false`, `return 0` is `true`.
pub sync : Machine → Machine × Bool
sync m =
    if ltb m.lh.n (log_size - 1) || ltb (log_size - 1) m.lh.n
    then (m, false)
    else (clear_log (install_trans m), true)

-- What a call does: it panics, it goes to sleep and tries again later, or it returns.
pub data Outcome (A : Type 0) : Type 0 where
  panics : Outcome A
  sleeps : Outcome A
  returns : A → Outcome A

-- One round of the loop in `begin_op`.
pub begin_op : Machine → Outcome Machine
begin_op m =
    if m.committing
    then sleeps
    else (if ltb (log_size - 1) m.lh.n
        then sleeps
        else returns (record m { outstanding = m.outstanding +ℤ pos 1 }))

-- The commit of `end_op`, once `committing` is set.
abbrev pub finish : Machine → Machine
finish m =
    let c = commit m in
    let s = (if c.full then (sync c).0 else c) in record s { committing = false }

pub end_op : Machine → Outcome Machine
end_op m =
    let left = m.outstanding -ℤ pos 1 in
    if m.committing
    then panics
    else (if is_zero left
        then returns (finish (record m { outstanding = left; committing = true }))
        else returns (record m { outstanding = left }))

-- The first index `i < n` that holds block `b`, or `n`: the search loop of `log_write`.
abbrev pub find_slot : ℕ → ℕ → List ℕ → ℕ
find_slot b zero l = 0
find_slot b (suc n) [] = 0
find_slot b (suc n) (x ∷ l) = if x == b then 0 else suc (find_slot b n l)

-- The new header of `log_write`, with its flag and the mark on the buffer.
logged : ℕ → Machine → Machine
logged b m =
    let i = find_slot b m.lh.n m.lh.block in
    let l = set m.lh.block i b in
    let d = update m.dirty b true in
    if i == m.lh.n
    then record m {
      lh = record { n = m.lh.n + 1; block = l };
      full = m.full || (m.lh.n + 1 == log_size - 1);
      dirty = d;
    }
    else record m { lh = record { n = m.lh.n; block = l }; dirty = d }

-- `log_write(b)`, after the caller changed the buffer of block `b`.
pub log_write : ℕ → Machine → Outcome Machine
unfolding logged
log_write b m =
    if ltb m.lh.n log_size
    then (if ltb_ℤ m.outstanding (pos 1) then panics else returns (logged b m))
    else panics
