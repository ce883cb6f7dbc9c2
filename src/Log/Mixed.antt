-- ===== src/Log/Mixed.antt =====
-- Commits are not installed at once, so a second commit writes over the slots of the first while the
-- old header is still in force: a crash then mixes two transactions.
use ele3021_operating_system.Base.{
  ℕ, zero, suc, ◌≤◌, ◌<◌, ◌≡◌, sym, ◌∙◌, inl, inr, Any, List, get_or, arith, ap, lt→ltb,
}
use ele3021_operating_system.Log.{
  Disk, Machine, write_one, write_from, write_log, write_head, commit,
}
use ele3021_operating_system.Log.Redo.{redo-entry, IsDistinct, view}

module _ (P : Disk → Type 0) where
  -- A state that the disk has had is not forgotten.
  write_from-Any : (k t : ℕ) (m : Machine) → Any P m.past → Any P (write_from k t m).past
  unfolding write_from
  write_from-Any zero t m h = h
  write_from-Any (suc k) t m h = write_from-Any k (suc t) (write_one t m) (inr h)

  -- The disk after the first block that `commit` writes, if it writes a second.
  commit-first : (m : Machine) → 1 < m.lh.n → P (write_one 0 m).disk → Any P (commit m).past
  unfolding commit write_head write_log write_from
  commit-first m lt h = rw (lt→ltb 0 m.lh.n (omega arith)) (inr (two m.lh.n lt))
    where
      two : (n : ℕ) → 1 < n → Any P (write_from n 0 m).past
      two zero lt = absurd (omega arith)
      two (suc zero) lt = absurd (omega arith)
      two (suc (suc n)) lt = write_from-Any n 2 (write_one 1 (write_one 0 m)) (inl h)

-- The log on disk holds a commit of at least two blocks, and the log in memory holds the same block
-- in slot 0. Then `commit` leaves the disk for a while in a state whose log tells of the new content
-- of the block of slot 0, and of every other block of the earlier commit as it was: if both blocks
-- were changed, recovery from there keeps half of the transaction.
pub commit_mixed :
    (m : Machine) (j : ℕ)
    → IsDistinct m.disk.head.block m.disk.head.n
    → m.disk.head.n ≤ m.lh.n
    → get_or m.disk.head.block 0 0 ≡ get_or m.lh.block 0 0
    → 0 < j
    → j < m.disk.head.n
    → let a = get_or m.disk.head.block 0 0 in
      let b = get_or m.disk.head.block j 0 in
      Any
        (λ d. (view m.start d a ≡ m.cache a) × (view m.start d b ≡ view m.start m.disk b))
        (commit m).past
commit_mixed m j dis le same pos lt = commit-first _ m (omega arith) (
  redo-entry m.start h m.disk.head.n after 0 dis (omega arith) ∙ ground (arith, ap m.cache same),
  redo-entry m.start h m.disk.head.n after j dis lt
      ∙ ground arith
      ∙ sym (redo-entry m.start h m.disk.head.n m.disk.blocks j dis lt),
)
  where
    h : List ℕ
    h = m.disk.head.block

    after : ℕ → List ℕ
    after = (write_one 0 m).disk.blocks
