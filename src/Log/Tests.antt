-- ===== src/Log/Tests.antt =====
-- Runs of the log on a small disk, and the log's theorems at concrete machines.
use ele3021_operating_system.Base.{
  ℕ, zero, suc, ◌+◌, ◌-◌, ◌<◌, ◌≡◌, ◌≢◌, ◌⊎◌, inr, refl, All, Any, [], ◌∷◌, true, false, get_or,
  replicate, update, arith,
}
use ele3021_operating_system.Base.Int.{pos}
use ele3021_operating_system.Log.{
  Block, LogHeader, Disk, Machine, panics, sleeps, returns, log_size, initlog, commit, sync,
  begin_op, end_op, log_write, recover_from_log, install_trans, install_from, clear_log, write_head,
  read_head, write_log, write_from,
}
use ele3021_operating_system.Log.Redo.{redo, view, IsLogDisk, IsDistinct, Outside}
use ele3021_operating_system.Log.Recover.{initlog_lem, initlog_crash}
use ele3021_operating_system.Log.Commit.{IsHome, IsReady, commit_crash, commit_lem}
use ele3021_operating_system.Log.Mixed.{commit_mixed}
use ele3021_operating_system.Log.Record.{IsLog, Logs, log_write_lem}
use ele3021_operating_system.Log.Full.{sync_lem, log_stuck}

-- Blocks 100 and 101 are entered, with a byte each; the log starts at block 2.
abbrev two : LogHeader
two = record { n = 2; block = 100 ∷ 101 ∷ replicate 28 0 }

abbrev empty : LogHeader
empty = record { n = 0; block = replicate 30 0 }

abbrev changed : ℕ → Block
changed = update (update (λ _. []) 100 (1 ∷ [])) 101 (2 ∷ [])

abbrev ready : Machine
ready = record {
  start = 2;
  outstanding = pos 1;
  committing = false;
  full = false;
  lh = two;
  cache = changed;
  cached_head = empty;
  dirty = λ _. true;
  disk = record { head = empty; blocks = λ _. [] };
  past = [];
}

-- The disk after the commit: the bytes are in slots 3 and 4.
abbrev logged_disk : Disk
logged_disk = record { head = two; blocks = update (update (λ _. []) 3 (1 ∷ [])) 4 (2 ∷ []) }

commit_run : (commit ready).disk.head ≡ two
unfolding commit write_head write_log write_from
commit_run = refl

recover_run :
    ((initlog 2 logged_disk).disk.blocks 100 ≡ 1 ∷ [])
    × ((initlog 2 logged_disk).disk.blocks 101 ≡ 2 ∷ [])
unfolding initlog recover_from_log clear_log install_trans install_from read_head write_head
recover_run = (refl, refl)

two-Outside : Outside 2 two.block 2
two-Outside zero lt = inr (omega arith)
two-Outside (suc zero) lt = inr (omega arith)
two-Outside (suc (suc i)) lt = absurd (omega arith)

logged_disk-IsLogDisk : IsLogDisk 2 logged_disk
logged_disk-IsLogDisk = record { fits = omega arith; whole = refl; outside = two-Outside }

ready-IsReady : IsReady ready
ready-IsReady = record {
  small = omega arith;
  no_past = refl;
  earlier = omega arith;
  whole = refl;
  whole_head = refl;
  outside = two-Outside;
  same = λ i lt. absurd (omega arith);
  kept = λ i lt. absurd (omega arith);
}

initlog_lem_example :
    let m = initlog 2 logged_disk in
    (m.disk.head.n ≡ 0)
    × (m.lh.n ≡ 0)
    × ((b : ℕ) → (m.disk.blocks b ≡ view 2 logged_disk b) × (m.cache b ≡ view 2 logged_disk b))
initlog_lem_example = initlog_lem 2 logged_disk logged_disk-IsLogDisk

initlog_crash_example :
    let m = initlog 2 logged_disk in
    All (λ c. (b : ℕ) → view 2 c b ≡ view 2 logged_disk b) (m.disk ∷ m.past)
initlog_crash_example = initlog_crash 2 logged_disk logged_disk-IsLogDisk

commit_crash_example :
    All (λ d. (b : ℕ) → IsHome 2 b → view 2 d b ≡ view 2 ready.disk b) (commit ready).past
commit_crash_example = commit_crash ready ready-IsReady

commit_lem_example :
    let d = (commit ready).disk in
    ((i : ℕ) → i < 2 → view 2 d (get_or two.block i 0) ≡ changed (get_or two.block i 0))
    × ((b : ℕ)
        → IsHome 2 b
        → ((i : ℕ) → i < 2 → b ≢ get_or two.block i 0)
        → view 2 d b ≡ view 2 ready.disk b)
commit_lem_example = commit_lem ready ready-IsReady

-- The same two blocks, committed and then changed again.
abbrev again : Machine
again = record ready {
  disk = logged_disk;
  cached_head = two;
  cache = update (update (λ _. []) 100 (8 ∷ [])) 101 (9 ∷ []);
}

two-IsDistinct : IsDistinct two.block 2
two-IsDistinct zero zero p q e = refl
two-IsDistinct zero (suc zero) p q e = absurd (omega arith)
two-IsDistinct (suc zero) zero p q e = absurd (omega arith)
two-IsDistinct (suc zero) (suc zero) p q e = refl
two-IsDistinct (suc (suc i)) j p q e = absurd (omega arith)
two-IsDistinct i (suc (suc j)) p q e = absurd (omega arith)

commit_mixed_example :
    Any (λ d. (view 2 d 100 ≡ 8 ∷ []) × (view 2 d 101 ≡ view 2 logged_disk 101)) (commit again).past
commit_mixed_example =
    commit_mixed again 1 two-IsDistinct (omega arith) refl (omega arith) (omega arith)

ready-IsLog : IsLog ready
ready-IsLog = record {
  small = omega arith;
  whole = refl;
  distinct = two-IsDistinct;
  outside = two-Outside;
}

log_write_lem_example :
    (m' : Machine) × (log_write 77 ready ≡ returns m') × Logs 77 ready m' × IsLog m'
log_write_lem_example = log_write_lem 77 ready ready-IsLog (inr (omega arith)) (omega arith) refl

abbrev hundred_changed : ℕ → Block
hundred_changed = update (λ _. 7 ∷ []) 100 (1 ∷ [])

-- A log in which one entry short of all is block 100.
abbrev nearly_full : Machine
nearly_full = record ready {
  lh = record { n = 29; block = replicate 30 100 };
  cache = hundred_changed;
  disk = record { head = two; blocks = λ _. 7 ∷ [] };
}

get_or-hundreds : (k i : ℕ) → i < k → get_or {A = ℕ} (replicate k 100) i 0 ≡ 100
get_or-hundreds zero i lt = absurd (omega arith)
get_or-hundreds (suc k) zero lt = refl
get_or-hundreds (suc k) (suc i) lt = get_or-hundreds k i (omega arith)

sync_lem_example :
    let (m', done) = sync nearly_full in
    ((29 ≡ log_size - 1)
      × (done ≡ true)
      × (m'.lh.n ≡ 0)
      × (m'.disk.head.n ≡ 0)
      × ((b : ℕ) → m'.disk.blocks b ≡ redo 2 (replicate 30 100) 29 (λ _. 7 ∷ []) b))
    ⊎ ((29 ≢ log_size - 1) × (done ≡ false) × (m' ≡ nearly_full))
sync_lem_example =
    sync_lem nearly_full (λ i lt. inr (omega (arith, get_or-hundreds 30 i))) refl
      (λ k lt. slots k lt)
  where
    slots : (k : ℕ) → k < 29 → hundred_changed (2 + k + 1) ≡ 7 ∷ []
    slots k lt = ground arith

abbrev overfull : Machine
overfull = record ready { lh = record { n = 30; block = replicate 30 100 }; full = true }

log_stuck_example :
    (begin_op overfull ≡ sleeps)
    × ((b : ℕ) → log_write b overfull ≡ panics)
    × ((m' : Machine) → end_op overfull ≡ returns m' → m'.lh.n ≡ 30)
log_stuck_example = log_stuck overfull refl refl
