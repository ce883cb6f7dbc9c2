-- ===== src/Bio/Uses.antt =====
-- The buffer cache after any calls of `bget` and `brelse`.
use ele3021_operating_system.Base.{ℕ, ◌≡◌, some, get_elem?}
use ele3021_operating_system.Bio.{Buf, Cache, binit, bget, brelse}
use ele3021_operating_system.Bio.Lru.{IsCache}
use ele3021_operating_system.Bio.Keep.{bget-IsCache}
use ele3021_operating_system.Bio.Release.{brelse-IsCache, binit-IsCache}

-- The caches that the kernel gets to: it takes blocks, and releases buffers.
pub data Uses : Cache → Type 0 where
  boots : Uses binit
  gets :
      (dev blockno i : ℕ) (k : Cache) {k' : Cache}
      → bget dev blockno k ≡ some (i, k')
      → Uses k
      → Uses k'
  releases :
      (i : ℕ) (b : Buf) (k : Cache) → get_elem? k.bufs i ≡ some b → Uses k → Uses (brelse i k)

-- After `binit` and any calls of `bget` and `brelse` on buffers of the cache, no block of a device
-- other than 0 is in two buffers, and the list in order of use holds each buffer once. (Of device 0
-- nothing is said: the buffers of `binit` all have device 0 and block 0.)
pub Uses-IsCache : {k : Cache} → Uses k → IsCache k
Uses-IsCache boots = binit-IsCache
Uses-IsCache (gets dev blockno i k h before) = bget-IsCache dev blockno k (Uses-IsCache before) h
Uses-IsCache (releases i b k at before) = brelse-IsCache i k b (Uses-IsCache before) at
