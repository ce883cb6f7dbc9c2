-- ===== src/Fs.antt =====
-- xv6-public/fs.c: the blocks of a file. An inode names 10 blocks directly, and others through one, two
-- or three levels of indirect blocks.
--
-- The free map is decoded: `used b` is its bit for block `b`. `words b i` is the `i`th `uint` of the
-- buffer of block `b`; a changed buffer is not told apart from its `log_write`.
pub mod Tree
pub mod Grow
pub mod Bmap
pub mod Blocks
pub mod Range
pub mod Trunc
mod Tests
use ele3021_operating_system.Base.{
  ℕ, zero, suc, ◌+◌, ◌-◌, ◌*◌, ◌/◌, ◌%◌, Bool, true, false, Option, none, some, ◌>>=◌, ltb, ◌==◌,
  if◌then◌else◌, update,
}

-- NDIRECT, NINDIRECT, NDINDIRECT and NTINDIRECT of xv6-public/fs.h.
abbrev pub ndirect : ℕ
ndirect = 10

abbrev pub nindirect : ℕ
nindirect = 128

abbrev pub ndindirect : ℕ
ndindirect = 16384

abbrev pub ntindirect : ℕ
ntindirect = 2097152

-- The super block's size, the free map, the buffers, and `ip->addrs` and `ip->size` of the inode at
-- hand, which is not told apart from its copy on the disk.
pub record Store : Type 0 where
  pub size : ℕ
  pub used : ℕ → Bool
  pub words : ℕ → ℕ → ℕ
  pub addrs : ℕ → ℕ
  pub file_size : ℕ

-- Where the number of a block stands: in the inode, or in an indirect block.
pub data Place : Type 0 where
  in_inode : ℕ → Place
  in_block : ℕ → ℕ → Place

abbrev pub read : Place → Store → ℕ
read (in_inode i) s = s.addrs i
read (in_block b i) s = s.words b i

abbrev pub write : Place → ℕ → Store → Store
write (in_inode i) addr s = record s { addrs = update s.addrs i addr }
write (in_block b i) addr s = record s { words = update s.words b (update (s.words b) i addr) }

-- The scan of `balloc`: `k` blocks from `b` on.
pub find_free : ℕ → ℕ → (ℕ → Bool) → Option ℕ
find_free zero b used = none
find_free (suc k) b used = if used b then find_free k (b + 1) used else some b

-- `balloc(dev)`: the block, which is marked and filled with 0; `none` is the panic.
pub balloc : Store → Option (ℕ × Store)
balloc s = find_free s.size 0 s.used >>= λ b.
    some (b, record s { used = update s.used b true; words = update s.words b (λ i. 0) })

-- `if((addr = *p) == 0) *p = addr = balloc(dev);`
pub get_slot : Place → Store → Option (ℕ × Store)
get_slot p s =
    if read p s == 0 then (balloc s >>= λ r. some (r.0, write p r.0 r.1)) else some (read p s, s)

-- `bmap(ip, bn)`: the block, and what was allocated for it; `none` is a panic.
pub bmap : ℕ → Store → Option (ℕ × Store)
bmap bn s =
    let bn1 = bn - ndirect in
    let bn2 = bn1 - nindirect in
    let bn3 = bn2 - ndindirect in
    if ltb bn ndirect
    then get_slot (in_inode bn) s
    else (if ltb bn1 nindirect
        then (do r ← get_slot (in_inode ndirect) s; get_slot (in_block r.0 bn1) r.1)
        else (if ltb bn2 ndindirect
            then (do
              r ← get_slot (in_inode (ndirect + 1)) s
              r2 ← get_slot (in_block r.0 (bn2 / nindirect)) r.1
              get_slot (in_block r2.0 (bn2 % nindirect)) r2.1)
            else (if ltb bn3 ntindirect
                then (do
                  r ← get_slot (in_inode (ndirect + 2)) s
                  r2 ← get_slot (in_block r.0 (bn3 / ndindirect)) r.1
                  r3 ← get_slot (in_block r2.0 (bn3 % ndindirect / nindirect)) r2.1
                  get_slot (in_block r3.0 (bn3 % ndindirect % nindirect)) r3.1)
                else none)))
