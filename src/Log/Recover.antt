-- ===== src/Log/Recover.antt =====
-- `install_trans` and `recover_from_log`: the disk after recovery is the disk seen through its log,
-- and a crash during recovery loses nothing.
use ele3021_operating_system.Base.{
  ℕ, zero, suc, ◌+◌, ◌≤◌, ◌<◌, ◌≡◌, refl, sym, ◌∙◌, ap, subst, List, [], ◌∷◌, All, All-map, length,
  replicate, get_or, arith,
}
use ele3021_operating_system.Log.{
  Block, LogHeader, Disk, Machine, log_size, install_one, install_from, install_trans, copy_blocks,
  read_head, write_head, clear_log, recover_from_log, boot, initlog,
}
use ele3021_operating_system.Log.Redo.{
  redo, redo-suc, redo-zero, redo-slot, slot-ne-home, redo-blocks, view, IsLogDisk, redo-redo,
  Outside,
}

pub get_or-copy_blocks :
    (n : ℕ) (to from : List ℕ) (i : ℕ)
    → i < n
    → n ≤ length to
    → n ≤ length from
    → get_or (copy_blocks n to from) i 0 ≡ get_or from i 0
get_or-copy_blocks zero to from i h p q = absurd (omega arith)
get_or-copy_blocks (suc n) [] from i h p q = absurd (omega arith)
get_or-copy_blocks (suc n) (x ∷ to) [] i h p q = absurd (omega arith)
get_or-copy_blocks (suc n) (x ∷ to) (y ∷ from) zero h p q = refl
get_or-copy_blocks (suc n) (x ∷ to) (y ∷ from) (suc i) h p q =
    get_or-copy_blocks n to from i (omega arith) (omega arith) (omega arith)

-- The log in memory and the disk below it, as they are when the installation begins.
module _ (s : ℕ) (l : List ℕ) (n : ℕ) (h : LogHeader) (f : ℕ → Block) where
  -- The disk has the first `t` entries installed, for some `t`, and its old header.
  pub record Partway (d : Disk) : Type 0 where
    pub done : ℕ
    pub within : done ≤ n
    pub same_head : d.head ≡ h
    pub installed : (b : ℕ) → d.blocks b ≡ redo s l done f b

  pub record Installed (t : ℕ) (m : Machine) : Type 0 where
    pub same_start : m.start ≡ s
    pub same_blocks : m.lh.block ≡ l
    pub same_head : m.disk.head ≡ h
    pub slots : (k : ℕ) → k < n → m.cache (s + k + 1) ≡ f (s + k + 1)
    pub content : (b : ℕ) → m.disk.blocks b ≡ redo s l t f b
    pub crashes : All Partway m.past

  module _ (out : Outside s l n) (small : n ≤ log_size) where
    install_one-Installed :
        {t : ℕ} {m : Machine} → t < n → Installed t m → Installed (suc t) (install_one t m)
    install_one-Installed {t} {m} lt r = record {
      same_start = r.same_start;
      same_blocks = r.same_blocks;
      same_head = r.same_head;
      slots = λ k p. ground (
        arith,
        r.slots k p,
        slot-ne-home s l n t k out lt (omega arith),
        ap (λ z. get_or z t 0) r.same_blocks,
      );
      content = λ b. ground (
        arith,
        redo-suc s l t f b,
        r.content b,
        r.slots t lt,
        ap (λ z. get_or z t 0) r.same_blocks,
        ap (λ z. m.cache (z + t + 1)) r.same_start,
      );
      crashes = (
        record { done = t; within = omega arith; same_head = r.same_head; installed = r.content },
        r.crashes,
      );
    }

    install_from-Installed :
        (k t : ℕ) {m : Machine} → t + k ≤ n → Installed t m → Installed (t + k) (install_from k t m)
    unfolding install_from
    install_from-Installed zero t {m} le r = subst (λ z. Installed z m) (omega arith) r
    install_from-Installed (suc k) t {m} le r =
        subst (λ z. Installed z (install_from k (suc t) (install_one t m))) (omega arith)
          (install_from-Installed k (suc t) (omega arith) (install_one-Installed (omega arith) r))

    pub install_all-Installed : (m : Machine) → Installed 0 m → Installed n (install_from n 0 m)
    install_all-Installed m r =
        let e : 0 + n ≡ n = omega arith in
        subst (λ z. Installed z (install_from n 0 m)) e (install_from-Installed n 0 (omega arith) r)

  -- Reading the disk through the log gives the same before, in the middle of and after the
  -- installation.
  pub redo-Partway :
      Outside s l n
      → n ≤ log_size
      → (d : Disk) → Partway d
      → (b : ℕ) → redo s l n d.blocks b ≡ redo s l n f b
  redo-Partway out small d p b =
      redo-redo s l f d.blocks b n p.done
        (λ k lt.
          p.installed (s + k + 1)
          ∙ redo-slot s l p.done f k (λ i q. out i (omega (arith, p.within))) (omega arith))
        p.within (p.installed b)

-- The cache holds what the disk holds.
abbrev pub IsCoherent : Machine → Type 0
IsCoherent m = (b : ℕ) → m.cache b ≡ m.disk.blocks b

install_from-IsCoherent : (k t : ℕ) (m : Machine) → IsCoherent m → IsCoherent (install_from k t m)
unfolding install_from
install_from-IsCoherent zero t m c = c
install_from-IsCoherent (suc k) t m c =
    install_from-IsCoherent k (suc t) (install_one t m) (λ b. ground (arith, c b))

module _ (start : ℕ) (d : Disk) (ok : IsLogDisk start d) where
  abbrev entries : List ℕ
  entries = copy_blocks d.head.n (replicate log_size 0) d.head.block

  entries_lem : (i : ℕ) → i < d.head.n → get_or entries i 0 ≡ get_or d.head.block i 0
  entries_lem i lt =
      get_or-copy_blocks d.head.n (replicate log_size 0) d.head.block i lt (omega (arith, ok.fits))
        (omega (arith, ok.fits, ok.whole))

  entries-Outside : Outside start entries d.head.n
  entries-Outside i lt = rw (entries_lem i lt) (ok.outside i lt)

  abbrev installed : Machine
  installed = install_trans (read_head (boot start d))

  installed_lem : Installed start entries d.head.n d.head d.blocks d.head.n installed
  unfolding install_trans read_head
  installed_lem =
      install_all-Installed start entries d.head.n d.head d.blocks entries-Outside ok.fits
        (read_head (boot start d))
        (record {
          same_start = refl;
          same_blocks = refl;
          same_head = refl;
          slots = λ k lt. refl;
          content = λ b. sym (redo-zero start entries d.blocks b);
          crashes = tt;
        })

  -- For a log that fits and holds only blocks outside itself, `initlog` leaves an empty log, and on
  -- the disk and in the cache what the log said of each block.
  pub initlog_lem :
      let m = initlog start d in
      (m.disk.head.n ≡ 0)
      × (m.lh.n ≡ 0)
      × ((b : ℕ) → (m.disk.blocks b ≡ view start d b) × (m.cache b ≡ view start d b))
  unfolding initlog recover_from_log clear_log write_head read_head install_trans
  initlog_lem = (refl, refl, λ b. (content b, coherent b ∙ content b))
    where
      content : (b : ℕ) → installed.disk.blocks b ≡ view start d b
      content b =
          installed_lem.content b
          ∙ redo-blocks start entries d.head.block d.head.n d.blocks b entries_lem

      coherent : IsCoherent installed
      coherent = install_from-IsCoherent d.head.n 0 (read_head (boot start d)) (λ b. refl)

  view-Partway :
      (c : Disk)
      → Partway start entries d.head.n d.head d.blocks c
      → (b : ℕ) → view start c b ≡ view start d b
  view-Partway c p b =
      ap (λ h. redo start h.block h.n c.blocks b) p.same_head
      ∙ sym (redo-blocks start entries d.head.block d.head.n c.blocks b entries_lem)
      ∙ redo-Partway start entries d.head.n d.head d.blocks entries-Outside ok.fits c p b
      ∙ redo-blocks start entries d.head.block d.head.n d.blocks b entries_lem

  -- Wherever the machine stops during `initlog`, from such a log, the log tells of the same disk as
  -- before: a second recovery gives what the first would have given.
  pub initlog_crash :
      let m = initlog start d in
      All (λ c. (b : ℕ) → view start c b ≡ view start d b) (m.disk ∷ m.past)
  unfolding initlog recover_from_log clear_log write_head read_head install_trans
  initlog_crash = (
    λ b. redo-zero start _ installed.disk.blocks b ∙ (initlog_lem.2 b).0,
    (
      view-Partway installed.disk (record {
        done = d.head.n;
        within = omega arith;
        same_head = installed_lem.same_head;
        installed = installed_lem.content;
      }),
      All-map _ _ view-Partway installed.past installed_lem.crashes,
    ),
  )
