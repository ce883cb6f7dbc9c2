-- ===== src/Log/Commit.antt =====
-- `write_log` and `commit`: a transaction that changes no block of an earlier commit again reaches
-- the disk whole or not at all.
use ele3021_operating_system.Base.{
  ℕ, zero, suc, ◌+◌, ◌≤◌, ◌<◌, ◌≡◌, ◌≢◌, refl, sym, ◌∙◌, ap, ap₂, subst, ◌⊎◌, inl, inr, All,
  All-map, length, List, [], get_or, arith, ◌==◌, ltb, dec_lt, Bool-cases, ==_iff, false,
}
use mathlib.Core.Bool.{false≢true}
use ele3021_operating_system.Log.{
  Block, LogHeader, Disk, Machine, log_size, copy_blocks, write_one, write_from, write_log,
  write_head, commit,
}
use ele3021_operating_system.Log.Redo.{
  redo, redo-suc, redo-zero, redo-other, redo-redo, redo-blocks, Outside, view,
}
use ele3021_operating_system.Log.Recover.{get_or-copy_blocks}

-- A block that is not a slot of the log.
abbrev pub IsHome : ℕ → ℕ → Type 0
IsHome start b = (b < start) ⊎ (start + log_size < b)

-- A machine that is about to commit. The log on disk holds a first part of the log in memory, and no
-- block of that part has been changed since.
pub record IsReady (m : Machine) : Type 0 where
  pub small : m.lh.n ≤ log_size
  pub no_past : m.past ≡ []
  pub earlier : m.disk.head.n ≤ m.lh.n
  pub whole : length m.lh.block ≡ log_size
  pub whole_head : length m.cached_head.block ≡ log_size
  pub outside : Outside m.start m.lh.block m.lh.n
  pub same : (i : ℕ) → i < m.disk.head.n → get_or m.disk.head.block i 0 ≡ get_or m.lh.block i 0
  pub kept :
      (i : ℕ)
      → i < m.disk.head.n
      → m.cache (get_or m.lh.block i 0) ≡ m.disk.blocks (m.start + i + 1)

-- The log in memory, with the cache and the disk below it as they are when `write_log` begins.
module _ (s : ℕ) (l : List ℕ) (n : ℕ) (c f : ℕ → Block) (h : LogHeader) where
  -- The disk has the first `done` slots written, and its old header.
  pub record Partway (d : Disk) : Type 0 where
    pub done : ℕ
    pub within : done ≤ n
    pub same_head : d.head ≡ h
    pub slots : (k : ℕ) → k < done → d.blocks (s + k + 1) ≡ c (get_or l k 0)
    pub rest : (b : ℕ) → (b ≤ s) ⊎ (s + done < b) → d.blocks b ≡ f b

  pub record Written (t : ℕ) (m : Machine) : Type 0 where
    pub same_start : m.start ≡ s
    pub same_lh : m.lh ≡ record { n = n; block = l }
    pub same_head : m.disk.head ≡ h
    pub cache : (b : ℕ) → IsHome s b → m.cache b ≡ c b
    pub slots : (k : ℕ) → k < t → m.disk.blocks (s + k + 1) ≡ c (get_or l k 0)
    pub rest : (b : ℕ) → (b ≤ s) ⊎ (s + t < b) → m.disk.blocks b ≡ f b
    pub crashes : All Partway m.past

  module _ (out : Outside s l n) (small : n ≤ log_size) where
    write_one-Written :
        {t : ℕ} {m : Machine} → t < n → Written t m → Written (suc t) (write_one t m)
    write_one-Written {t} {m} lt r = record {
      same_start = r.same_start;
      same_lh = r.same_lh;
      same_head = r.same_head;
      cache = λ b home. ground (arith, home, r.cache b home, r.same_start);
      slots = λ k p. ground (
        arith,
        r.slots k,
        ap (λ z. get_or z.block t 0) r.same_lh,
        r.cache (get_or l t 0) (out t lt),
        r.same_start,
      );
      rest = λ b p. ground (arith, p, r.rest b, r.same_start);
      crashes = (
        record {
          done = t;
          within = omega arith;
          same_head = r.same_head;
          slots = r.slots;
          rest = r.rest;
        },
        r.crashes,
      );
    }

    write_from-Written :
        (k t : ℕ) {m : Machine} → t + k ≤ n → Written t m → Written (t + k) (write_from k t m)
    unfolding write_from
    write_from-Written zero t {m} le r = subst (λ z. Written z m) (omega arith) r
    write_from-Written (suc k) t {m} le r =
        subst (λ z. Written z (write_from k (suc t) (write_one t m))) (omega arith)
          (write_from-Written k (suc t) (omega arith) (write_one-Written (omega arith) r))

    pub write_all-Written : (m : Machine) → Written 0 m → Written n (write_from n 0 m)
    write_all-Written m r =
        let e : 0 + n ≡ n = omega arith in
        subst (λ z. Written z (write_from n 0 m)) e (write_from-Written n 0 (omega arith) r)

write_from-cached_head : (k t : ℕ) (m : Machine) → (write_from k t m).cached_head ≡ m.cached_head
unfolding write_from
write_from-cached_head zero t m = refl
write_from-cached_head (suc k) t m = write_from-cached_head k (suc t) (write_one t m)

module _ (m : Machine) (ready : IsReady m) where
  abbrev start : ℕ
  start = m.start

  abbrev written : Machine
  written = write_log m

  written_lem : Written start m.lh.block m.lh.n m.cache m.disk.blocks m.disk.head m.lh.n written
  unfolding write_log
  written_lem =
      write_all-Written start m.lh.block m.lh.n m.cache m.disk.blocks m.disk.head ready.outside
        ready.small m
        (record {
          same_start = refl;
          same_lh = refl;
          same_head = refl;
          cache = λ b home. refl;
          slots = λ k lt. absurd (omega arith);
          rest = λ b p. refl;
          crashes = rw ready.no_past tt;
        })

  -- Until the header is written, the log on disk tells of the disk as it was.
  view-Partway :
      (d : Disk)
      → Partway start m.lh.block m.lh.n m.cache m.disk.blocks m.disk.head d
      → (b : ℕ) → IsHome start b
      → view start d b ≡ view start m.disk b
  view-Partway d p b home =
      ap (λ h. redo start h.block h.n d.blocks b) p.same_head
      ∙ redo-redo start m.disk.head.block m.disk.blocks d.blocks b m.disk.head.n 0 slot
          (omega arith) (home_lem ∙ sym (redo-zero start m.disk.head.block m.disk.blocks b))
    where
      slot : (k : ℕ) → k < m.disk.head.n → d.blocks (start + k + 1) ≡ m.disk.blocks (start + k + 1)
      slot k lt = elim (dec_lt k p.done) [
        | yes over ↦ p.slots k over ∙ ready.kept k lt
        | no later ↦ p.rest (start + k + 1) (inr (omega arith))
      ]

      home_lem : d.blocks b ≡ m.disk.blocks b
      home_lem = ground (arith, home, p.rest b, p.within, ready.small)

  -- The header that is written at last.
  abbrev committed : LogHeader
  committed = record { n = m.lh.n; block = copy_blocks m.lh.n m.cached_head.block m.lh.block }

  committed_lem : (i : ℕ) → i < m.lh.n → get_or committed.block i 0 ≡ get_or m.lh.block i 0
  committed_lem i lt =
      get_or-copy_blocks m.lh.n m.cached_head.block m.lh.block i lt
        (omega (arith, ready.small, ready.whole_head)) (omega (arith, ready.small, ready.whole))

  committed-head : (write_head written).disk.head ≡ committed
  unfolding write_head write_log
  committed-head =
      ap₂
        (λ (z : LogHeader) (y : LogHeader).
          let h : LogHeader = record { n = z.n; block = copy_blocks z.n y.block z.block } in h)
        written_lem.same_lh (write_from-cached_head m.lh.n 0 m)

  -- A block that the log in memory names is read from its last slot, which holds its buffer.
  redo-named :
      (k : ℕ)
      → k ≤ m.lh.n
      → (i : ℕ) → i < k
      → redo start m.lh.block k written.disk.blocks (get_or m.lh.block i 0)
        ≡ m.cache (get_or m.lh.block i 0)
  redo-named zero le i lt = absurd (omega arith)
  redo-named (suc k) le i lt = elim (Bool-cases (get_or m.lh.block i 0 == get_or m.lh.block k 0)) [
    | inl here ↦
        rw (redo-suc start m.lh.block k written.disk.blocks (get_or m.lh.block i 0), here)
          (written_lem.slots k le ∙ ap m.cache (sym ((==_iff _ _).0 here)))
    | inr other ↦
        rw (redo-suc start m.lh.block k written.disk.blocks (get_or m.lh.block i 0), other)
          (redo-named k (omega arith) i (below other))
  ]
    where
      below : (get_or m.lh.block i 0 == get_or m.lh.block k 0) ≡ false → i < k
      below other = elim (dec_lt i k) [
        | yes p ↦ p
        | no p ↦
            let e : i ≡ k = omega arith in
            absurd (false≢true (sym other ∙ (==_iff _ _).1 (ap (λ z. get_or m.lh.block z 0) e)))
      ]

  -- A machine is ready if its log fits, names blocks outside the log only, and changes no block of an
  -- earlier commit again. Then no crash before the last write of `commit`, that of the header, changes
  -- what the disk tells of any block outside the log.
  pub commit_crash :
      All (λ d. (b : ℕ) → IsHome start b → view start d b ≡ view start m.disk b) (commit m).past
  unfolding commit write_head
  commit_crash = elim (Bool-cases (ltb 0 m.lh.n)) [
    | inl some_block ↦ rw some_block (
      view-Partway written.disk (record {
        done = m.lh.n;
        within = omega arith;
        same_head = written_lem.same_head;
        slots = written_lem.slots;
        rest = written_lem.rest;
      }),
      All-map _ _ view-Partway written.past written_lem.crashes,
    )
    | inr no_block ↦ rw (no_block, ready.no_past) tt
  ]

  -- What the disk tells once the header is there.
  view-committed :
      (b : ℕ)
      → view start (write_head written).disk b ≡ redo start m.lh.block m.lh.n written.disk.blocks b
  unfolding write_head
  view-committed b =
      ap (λ h. redo start h.block h.n written.disk.blocks b) committed-head
      ∙ redo-blocks start committed.block m.lh.block m.lh.n written.disk.blocks b committed_lem

  view-other :
      (b : ℕ)
      → IsHome start b
      → ((i : ℕ) → i < m.lh.n → b ≢ get_or m.lh.block i 0)
      → redo start m.lh.block m.lh.n written.disk.blocks b ≡ view start m.disk b
  view-other b home ne =
      redo-other start m.lh.block m.lh.n written.disk.blocks b ne
      ∙ ground (arith, home, written_lem.rest b, ready.small)
      ∙ sym (
          redo-other start m.disk.head.block m.disk.head.n m.disk.blocks b
            (λ i lt. rw (ready.same i lt) (ne i (omega (arith, ready.earlier)))))

  -- After the `commit` of a ready machine every block of the transaction is told as its buffer, and
  -- every other block outside the log as before.
  pub commit_lem :
      let d = (commit m).disk in
      ((i : ℕ)
        → i < m.lh.n
        → view start d (get_or m.lh.block i 0) ≡ m.cache (get_or m.lh.block i 0))
      × ((b : ℕ)
          → IsHome start b
          → ((i : ℕ) → i < m.lh.n → b ≢ get_or m.lh.block i 0)
          → view start d b ≡ view start m.disk b)
  unfolding commit
  commit_lem = elim (Bool-cases (ltb 0 m.lh.n)) [
    | inl some_block ↦ rw some_block (
      λ i lt. view-committed (get_or m.lh.block i 0) ∙ redo-named m.lh.n (omega arith) i lt,
      λ b home ne. view-committed b ∙ view-other b home ne,
    )
    | inr no_block ↦ rw no_block (λ i lt. absurd (ground arith), λ b home ne. refl)
  ]
