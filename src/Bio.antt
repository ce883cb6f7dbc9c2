-- ===== src/Bio.antt =====
-- xv6-public/bio.c: the buffer cache. A `struct buf *` is an index into `bcache.buf`; `order` is the
-- list from `bcache.head.next` on, the buffer used last at its head. The sleep lock of a buffer, which
-- `bget` takes and `brelse` gives back, and the disk driver are not modelled here.
pub mod Lru
pub mod Gets
pub mod Keep
pub mod Release
pub mod Uses
mod Tests
use ele3021_operating_system.Base.{
  ℕ, zero, suc, ◌+◌, ◌-◌, ◌%◌, ◌^◌, Bool, true, false, not, ◌&&◌, List, [], ◌∷◌, Option, none, some,
  get_elem?, replicate, ◌==◌, if◌then◌else◌,
}
use ele3021_operating_system.Base.Find.{modify}

-- `struct buf`, with the flags B_VALID and B_DIRTY.
pub record Buf : Type 0 where
  pub valid : Bool
  pub dirty : Bool
  pub dev : ℕ
  pub blockno : ℕ
  pub refcnt : ℕ
  pub bytes : List ℕ

-- `bcache`
pub record Cache : Type 0 where
  pub bufs : List Buf
  pub order : List ℕ

abbrev pub nbuf : ℕ
nbuf = 30

-- The loop of `binit` after `k` rounds: each buffer goes to the head.
abbrev pub link_all : ℕ → List ℕ
link_all zero = []
link_all (suc k) = k ∷ link_all k

-- `binit()`, on a cache that is all zero.
abbrev pub binit : Cache
binit = record {
  bufs = replicate nbuf (record {
    valid = false;
    dirty = false;
    dev = 0;
    blockno = 0;
    refcnt = 0;
    bytes = replicate 512 0;
  });
  order = link_all nbuf;
}

-- A test on the buffer at an index.
abbrev pub test : (Buf → Bool) → Option Buf → Bool
test f none = false
test f (some b) = f b

-- The walks of `bget` along `next` and along `prev`, up to the first buffer that passes.
pub walk_next : (ℕ → Bool) → List ℕ → Option ℕ
walk_next f [] = none
walk_next f (i ∷ l) = if f i then some i else walk_next f l

pub walk_prev : (ℕ → Bool) → List ℕ → Option ℕ
walk_prev f [] = none
walk_prev f (i ∷ l) = elim (walk_prev f l) [ some j ↦ some j | none ↦ if f i then some i else none ]

abbrev pub is_block : ℕ → ℕ → Buf → Bool
is_block dev blockno b = b.dev == dev && b.blockno == blockno

abbrev pub is_reusable : Buf → Bool
is_reusable b = b.refcnt == 0 && not b.dirty

abbrev pub hold : Buf → Buf
hold b = record b { refcnt = (b.refcnt + 1) % 2 ^ 32 }

-- `b->flags = 0` clears both flags.
abbrev pub recycle : ℕ → ℕ → Buf → Buf
recycle dev blockno b = record b {
  dev = dev;
  blockno = blockno;
  valid = false;
  dirty = false;
  refcnt = 1;
}

-- `bget(dev, blockno)`: the buffer, and the cache after it; `none` is the panic.
pub bget : ℕ → ℕ → Cache → Option (ℕ × Cache)
bget dev blockno k =
    elim (walk_next (λ i. test (is_block dev blockno) (get_elem? k.bufs i)) k.order) [
      | some i ↦ some (i, record k { bufs = modify i hold k.bufs })
      | none ↦ elim (walk_prev (λ i. test is_reusable (get_elem? k.bufs i)) k.order) [
        | some i ↦ some (i, record k { bufs = modify i (recycle dev blockno) k.bufs })
        | none ↦ none
      ]
    ]

-- The list without the buffer `i`.
pub unlink : ℕ → List ℕ → List ℕ
unlink i [] = []
unlink i (j ∷ l) = if i == j then unlink i l else j ∷ unlink i l

abbrev pub release : Buf → Buf
release b = record b { refcnt = (b.refcnt + 2 ^ 32 - 1) % 2 ^ 32 }

-- `brelse(b)` of the buffer `i`, whose lock the caller holds.
pub brelse : ℕ → Cache → Cache
brelse i k =
    let bufs = modify i release k.bufs in
    if test (λ b. b.refcnt == 0) (get_elem? bufs i)
    then record { bufs = bufs; order = i ∷ unlink i k.order }
    else record { bufs = bufs; order = k.order }
