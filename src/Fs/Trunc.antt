-- ===== src/Fs/Trunc.antt =====
-- xv6-public/fs.c: `bfree` and `itrunc`, which frees every block of a file.
pub mod Cut
pub mod Remove
pub mod Drop
pub mod Below
pub mod Whole
use ele3021_operating_system.Base.{
  ℕ, ◌+◌, Bool, true, false, Option, none, some, ◌>>=◌, ◌==◌, if◌then◌else◌, update,
}
use ele3021_operating_system.Base.Loops.{try_sweep}
use ele3021_operating_system.Fs.{Store, Place, in_inode, in_block, read, write, ndirect, nindirect}

-- `bfree(dev, b)`; `none` is the panic.
unfoldable pub bfree : ℕ → Store → Option Store
bfree b s = if s.used b then some (record s { used = update s.used b false }) else none

-- `bfree(dev, *p); *p = 0;`
unfoldable pub drop_block : Place → Store → Option Store
drop_block p s = bfree (read p s) s >>= λ s'. some (write p 0 s')

-- `if(*p){ bfree(dev, *p); *p = 0; }`
unfoldable pub free_slot : Place → Store → Option Store
free_slot p s = if read p s == 0 then some s else drop_block p s

-- The same for a block of block numbers, each of which `inner` frees first.
unfoldable pub free_indirect : (Place → Store → Option Store) → Place → Store → Option Store
free_indirect inner p s =
    if read p s == 0
    then some s
    else (try_sweep (λ j. inner (in_block (read p s) j)) nindirect s >>= λ s'. drop_block p s')

-- `itrunc(ip)`
unfoldable pub itrunc : Store → Option Store
itrunc s = do
  s0 ← try_sweep (λ i. free_slot (in_inode i)) ndirect s
  s1 ← free_indirect free_slot (in_inode ndirect) s0
  s2 ← free_indirect (free_indirect free_slot) (in_inode (ndirect + 1)) s1
  s3 ← free_indirect (free_indirect (free_indirect free_slot)) (in_inode (ndirect + 2)) s2
  some (record s3 { file_size = 0 })
