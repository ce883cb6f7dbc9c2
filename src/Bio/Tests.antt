-- ===== src/Bio/Tests.antt =====
-- The cache after the first `bget`.
use ele3021_operating_system.Base.{◌≡◌, refl, some, get_elem?, replicate, false}
use ele3021_operating_system.Base.Find.{modify}
use ele3021_operating_system.Bio.{Buf, Cache, binit, walk_next, walk_prev, recycle, bget, brelse}
use ele3021_operating_system.Bio.Lru.{IsCache}
use ele3021_operating_system.Bio.Gets.{GetAnswers, bget_lem}
use ele3021_operating_system.Bio.Keep.{bget-IsCache}
use ele3021_operating_system.Bio.Uses.{Uses, Uses-IsCache}
use ele3021_operating_system.Bio.Release.{binit-IsCache}

-- Block 5 of device 1 goes to buffer 0, the last in the list.
abbrev held : Buf
held = record {
  valid = false;
  dirty = false;
  dev = 1;
  blockno = 5;
  refcnt = 1;
  bytes = replicate 512 0;
}

abbrev filled : Cache
filled = record { bufs = modify 0 (recycle 1 5) binit.bufs; order = binit.order }

bget_run : bget 1 5 binit ≡ some (0, filled)
unfolding bget walk_next walk_prev modify
bget_run = refl

filled-IsCache : IsCache filled
filled-IsCache = bget-IsCache 1 5 binit binit-IsCache bget_run

filled_at : get_elem? filled.bufs 0 ≡ some held
unfolding modify
filled_at = refl

bget_lem_example : GetAnswers 1 5 binit (bget 1 5 binit)
bget_lem_example = bget_lem 1 5 binit

used : Uses (brelse 0 filled)
used = Uses.releases 0 held filled filled_at (Uses.gets 1 5 0 binit bget_run Uses.boots)

Uses-IsCache_example : IsCache (brelse 0 filled)
Uses-IsCache_example = Uses-IsCache used
