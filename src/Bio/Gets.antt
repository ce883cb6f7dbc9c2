-- ===== src/Bio/Gets.antt =====
-- What `bget` promises, without reference to its own tests and updates.
use ele3021_operating_system.Base.{
  ℕ, ◌+◌, ◌%◌, ◌^◌, ◌≡◌, ◌≢◌, ◌⊎◌, inl, inr, Bool, true, false, List, ◌∷◌, ◌++◌, Option, none, some,
  get_elem?, arith, All, All-map, ==_iff,
}
use ele3021_operating_system.Base.Such.{Decides}
use ele3021_operating_system.Bio.{Buf, Cache, test, is_block, is_reusable, bget}
use ele3021_operating_system.Bio.Lru.{Gives, bget-Gives}

abbrev pub IsBlock : ℕ → ℕ → Buf → Type 0
IsBlock dev blockno b = (b.dev ≡ dev) × (b.blockno ≡ blockno)

-- No one holds the buffer, and its content need not go to the disk.
abbrev pub IsUnused : Buf → Type 0
IsUnused b = (b.refcnt ≡ 0) × (b.dirty ≡ false)

-- No buffer whose index is in the list has the property.
abbrev pub Lacks : (Buf → Type 0) → Cache → List ℕ → Type 0
Lacks P k l = All (λ i. (b : Buf) → get_elem? k.bufs i ≡ some b → ¬ P b) l

-- From `k` to `k'` the buffer `i` changes from `b` to `b'`, and nothing else does.
pub record Moves (k : Cache) (i : ℕ) (b b' : Buf) (k' : Cache) : Type 0 where
  pub before : get_elem? k.bufs i ≡ some b
  pub after : get_elem? k'.bufs i ≡ some b'
  pub others : (j : ℕ) → i ≢ j → get_elem? k'.bufs j ≡ get_elem? k.bufs j
  pub same_order : k'.order ≡ k.order

-- What `bget(dev, blockno)` answers.
abbrev pub GetAnswers : ℕ → ℕ → Cache → Option (ℕ × Cache) → Type 0
GetAnswers dev blockno k none = Lacks (IsBlock dev blockno) k k.order × Lacks IsUnused k k.order
GetAnswers dev blockno k (some (i, k')) =
    ((b : Buf) × IsBlock dev blockno b
      × Moves k i b
          (record {
            valid = b.valid;
            dirty = b.dirty;
            dev = dev;
            blockno = blockno;
            refcnt = (b.refcnt + 1) % 2 ^ 32;
            bytes = b.bytes;
          })
          k')
    ⊎ ((b : Buf) × Lacks (IsBlock dev blockno) k k.order
        × IsUnused b
        × ((newer : List ℕ) × (older : List ℕ) × (k.order ≡ newer ++ (i ∷ older))
            × Lacks IsUnused k older)
        × Moves k i b
            (record {
              valid = false;
              dirty = false;
              dev = dev;
              blockno = blockno;
              refcnt = 1;
              bytes = b.bytes;
            })
            k')

is_block-Decides : (dev blockno : ℕ) → Decides (is_block dev blockno) (IsBlock dev blockno)
is_block-Decides dev blockno = record {
  yes_if =
      λ b h. ((==_iff b.dev dev).0 (ground arith), (==_iff b.blockno blockno).0 (ground arith));
  no_if =
      λ b h e. absurd (ground (arith, (==_iff b.dev dev).1 e.0, (==_iff b.blockno blockno).1 e.1));
}

is_reusable-Decides : Decides is_reusable IsUnused
is_reusable-Decides = record {
  yes_if = λ b h. ((==_iff b.refcnt 0).0 (ground arith), ground arith);
  no_if = λ b h e. absurd (ground (arith, (==_iff b.refcnt 0).1 e.0, e.1));
}

module _ {f : Buf → Bool} {P : Buf → Type 0} (d : Decides f P) where
  All-Lacks :
      (k : Cache) (l : List ℕ) → All (λ i. test f (get_elem? k.bufs i) ≡ false) l → Lacks P k l
  All-Lacks k l = All-map _ _ (λ i h b at. d.no_if b (rw at at h)) l

  test_holds : (o : Option Buf) (b : Buf) → test f o ≡ true → o ≡ some b → P b
  test_holds o b h at = d.yes_if b (rw at at h)

-- The answer holds for the buffers as the code tests and changes them.
Gives-GetAnswers :
    (dev blockno : ℕ) (k : Cache) (r : Option (ℕ × Cache))
    → Gives dev blockno k r
    → GetAnswers dev blockno k r
Gives-GetAnswers dev blockno k none (no_hit, no_free) = (
  All-Lacks (is_block-Decides dev blockno) k k.order no_hit,
  All-Lacks is_reusable-Decides k k.order no_free,
)
Gives-GetAnswers dev blockno k (some (i, k')) (inl (hit, c)) =
    let is = test_holds (is_block-Decides dev blockno) _ c.buf hit c.before in
    inl (
      c.buf,
      is,
      record {
        before = c.before;
        after = rw (← is.0, ← is.1) c.after;
        others = c.others;
        same_order = c.same_order;
      },
    )
Gives-GetAnswers dev blockno k (some (i, k')) (inr (no_hit, last, c)) = inr (
  c.buf,
  All-Lacks (is_block-Decides dev blockno) k k.order no_hit,
  test_holds is_reusable-Decides _ c.buf last.passes c.before,
  (last.before, last.after, last.split, All-Lacks is_reusable-Decides k last.after last.others),
  record { before = c.before; after = c.after; others = c.others; same_order = c.same_order },
)

-- `bget(dev, blockno)` gives a buffer that has the block, with its flags and content unchanged and
-- one user more (of 32 bits). If no buffer of the list has it, `bget` gives the buffer nearest to the
-- end of the list that no one holds and that is not dirty: it is for the block then, with one user,
-- not valid and not dirty, its bytes still the old ones. No other buffer and no place in the list
-- changes. It panics only if no buffer of the list has the block and each one is held or dirty.
pub bget_lem : (dev blockno : ℕ) (k : Cache) → GetAnswers dev blockno k (bget dev blockno k)
bget_lem dev blockno k = Gives-GetAnswers dev blockno k _ (bget-Gives dev blockno k)
