-- ===== src/Log/Record.antt =====
-- `log_write`: how a changed block is entered in the log in memory.
use ele3021_operating_system.Base.{
  ℕ, zero, suc, ◌+◌, ◌≤◌, ◌<◌, ◌≡◌, ◌≢◌, refl, ap, ◌⊎◌, inl, inr, length, List, [], ◌∷◌, get_or,
  set, arith, true, false, ◌==◌, if◌then◌else◌, Bool-cases, length-set, get_or-set_self,
  get_or-set_ne, ==_iff, dec_lt,
}
use ele3021_operating_system.Base.Int.{pos, ltb_ℤ}
use ele3021_operating_system.Log.{Machine, returns, log_size, find_slot, logged, log_write}
use ele3021_operating_system.Log.Redo.{IsDistinct, Outside}
use ele3021_operating_system.Log.Commit.{IsHome}

find_slot-le : (b n : ℕ) (l : List ℕ) → find_slot b n l ≤ n
find_slot-le b zero l = omega arith
find_slot-le b (suc n) [] = omega arith
find_slot-le b (suc n) (x ∷ l) = ground (arith, find_slot-le b n l)

find_slot_found :
    (b n : ℕ) (l : List ℕ) → n ≤ length l → find_slot b n l < n → get_or l (find_slot b n l) 0 ≡ b
find_slot_found b zero l le lt = absurd (omega arith)
find_slot_found b (suc n) [] le lt = absurd (omega arith)
find_slot_found b (suc n) (x ∷ l) le lt = elim (Bool-cases (x == b)) [
  | inl e ↦ rw e ((==_iff x b).0 e)
  | inr e ↦ rw e (find_slot_found b n l (omega arith) (ground arith))
]

find_slot_missing :
    (b n : ℕ) (l : List ℕ) → find_slot b n l ≡ n → n ≤ length l → (i : ℕ) → i < n → get_or l i 0 ≢ b
find_slot_missing b zero l e le i lt = absurd (omega arith)
find_slot_missing b (suc n) [] e le i lt = absurd (omega arith)
find_slot_missing b (suc n) (x ∷ l) e le zero lt = ground arith
find_slot_missing b (suc n) (x ∷ l) e le (suc i) lt =
    find_slot_missing b n l (ground arith) (omega arith) i (omega arith)

-- The log in memory: it fits, names no block twice, and names no block of the log.
pub record IsLog (m : Machine) : Type 0 where
  pub small : m.lh.n ≤ log_size
  pub whole : length m.lh.block ≡ log_size
  pub distinct : IsDistinct m.lh.block m.lh.n
  pub outside : Outside m.start m.lh.block m.lh.n

-- What `log_write(b)` did to the machine `m`.
pub record Logs (b : ℕ) (m m' : Machine) : Type 0 where
  pub entered : (i : ℕ) × (i < m'.lh.n) × (get_or m'.lh.block i 0 ≡ b)
  pub kept : (i : ℕ) → i < m.lh.n → get_or m'.lh.block i 0 ≡ get_or m.lh.block i 0
  pub grown :
      (m'.lh.n ≡ m.lh.n)
      ⊎ ((m'.lh.n ≡ m.lh.n + 1) × ((i : ℕ) → i < m.lh.n → get_or m.lh.block i 0 ≢ b))
  pub pinned : m'.dirty b ≡ true
  pub others : (x : ℕ) → x ≢ b → m'.dirty x ≡ m.dirty x
  pub same_disk : m'.disk ≡ m.disk
  pub same_start : m'.start ≡ m.start
  pub same_length : length m'.lh.block ≡ length m.lh.block

module _ (b : ℕ) (m : Machine) (ok : IsLog m) (lt : m.lh.n < log_size) where
  abbrev i : ℕ
  i = find_slot b m.lh.n m.lh.block

  -- Where `set` writes, and where it does not.
  at :
      (v j : ℕ)
      → v < length m.lh.block
      → get_or (set m.lh.block v b) j 0 ≡ (if j == v then b else get_or m.lh.block j 0)
  at v j lt = elim (Bool-cases (j == v)) [
    | inl e ↦ rw (e, (==_iff j v).0 e) (get_or-set_self m.lh.block v b 0 lt)
    | inr e ↦ rw e (get_or-set_ne m.lh.block v j b 0 (ground arith))
  ]

  Logs-logged : Logs b m (logged b m)
  unfolding logged
  Logs-logged = elim (Bool-cases (i == m.lh.n)) [
    | inl new ↦
        let e : i ≡ m.lh.n = (==_iff _ _).0 new in
        rw new (record {
          entered = (m.lh.n, omega arith, ground (arith, e, at i m.lh.n (omega (arith, ok.whole))));
          kept = λ j p. ground (arith, e, at i j (omega (arith, ok.whole)));
          grown = inr (refl, find_slot_missing b m.lh.n m.lh.block e (omega (arith, ok.whole)));
          pinned = ground arith;
          others = λ x ne. ground arith;
          same_disk = refl;
          same_start = refl;
          same_length = length-set m.lh.block i b;
        })
    | inr old ↦
        let p : i < m.lh.n = ground (arith, find_slot-le b m.lh.n m.lh.block) in
        let found : get_or m.lh.block i 0 ≡ b =
          find_slot_found b m.lh.n m.lh.block (omega (arith, ok.whole)) p in
        rw old (record {
          entered = (i, p, ground (arith, at i i (omega (arith, ok.whole))));
          kept = λ j q. ground (
            arith,
            found,
            at i j (omega (arith, ok.whole)),
            ap (λ z. get_or m.lh.block z 0) {x = j} {y = i},
          );
          grown = inl refl;
          pinned = ground arith;
          others = λ x ne. ground arith;
          same_disk = refl;
          same_start = refl;
          same_length = length-set m.lh.block i b;
        })
  ]

-- A new entry keeps the log in memory sound.
Logs-IsLog :
    {b : ℕ} {m m' : Machine}
    → IsLog m
    → IsHome m.start b
    → m.lh.n < log_size
    → Logs b m m'
    → IsLog m'
Logs-IsLog {b} {m} {m'} ok home lt r = record {
  small = grind (arith, r.grown);
  whole = omega (arith, r.same_length, ok.whole);
  distinct = distinct r.grown;
  outside = λ i p. elim (dec_lt i m.lh.n) [
    | yes q ↦ ground (arith, ok.outside i q, r.kept i q, r.same_start)
    | no q ↦ outside r.grown i p q
  ];
}
  where
    last :
        (m'.lh.n ≡ m.lh.n + 1) × ((i : ℕ) → i < m.lh.n → get_or m.lh.block i 0 ≢ b)
        → get_or m'.lh.block m.lh.n 0 ≡ b
    last g = ground (arith, r.entered.1, r.entered.2, g.0, r.kept r.entered.0, g.1 r.entered.0)

    outside :
        (m'.lh.n ≡ m.lh.n)
          ⊎ ((m'.lh.n ≡ m.lh.n + 1) × ((i : ℕ) → i < m.lh.n → get_or m.lh.block i 0 ≢ b))
        → (i : ℕ) → i < m'.lh.n
        → ¬ (i < m.lh.n)
        → IsHome m'.start (get_or m'.lh.block i 0)
    outside (inl e) i p q = absurd (omega arith)
    outside (inr g) i p q = let e : i ≡ m.lh.n = omega arith in rw (e, last g, r.same_start) home

    distinct :
        (m'.lh.n ≡ m.lh.n)
          ⊎ ((m'.lh.n ≡ m.lh.n + 1) × ((i : ℕ) → i < m.lh.n → get_or m.lh.block i 0 ≢ b))
        → IsDistinct m'.lh.block m'.lh.n
    distinct (inl e) i j p q h = ground (arith, ok.distinct i j, r.kept i, r.kept j)
    distinct (inr g) i j p q h =
        ground (arith, ok.distinct i j, r.kept i, r.kept j, last g, g.1 i, g.1 j)

-- With room in the log and an operation under way, `log_write` succeeds: it enters the block, once,
-- keeps the earlier entries in their slots, pins the buffer, writes nothing to the disk, and leaves a
-- sound log.
pub log_write_lem :
    (b : ℕ) (m : Machine)
    → IsLog m
    → IsHome m.start b
    → m.lh.n < log_size
    → ltb_ℤ m.outstanding (pos 1) ≡ false
    → (m' : Machine) × (log_write b m ≡ returns m') × Logs b m m' × IsLog m'
unfolding log_write
log_write_lem b m ok home lt open_op =
    (logged b m, ground arith, Logs-logged b m ok lt, Logs-IsLog ok home lt (Logs-logged b m ok lt))
