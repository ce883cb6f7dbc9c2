-- ===== src/Log/Full.antt =====
-- `sync` and the bounds on the log: what happens when it fills up.
use ele3021_operating_system.Base.{
  ℕ, zero, suc, ◌+◌, ◌-◌, ◌<◌, ◌≡◌, refl, sym, ◌⊎◌, inl, inr, Bool-cases, true, false, arith, ltb,
  [], ◌||◌, ap, ◌≢◌,
}
use ele3021_operating_system.Base.Int.{pos, ◌-ℤ◌}
use ele3021_operating_system.Log.{
  Machine, panics, sleeps, returns, log_size, install_trans, clear_log, write_head, write_from,
  write_log, write_one, commit, sync, begin_op, finish, end_op, log_write,
}
use ele3021_operating_system.Log.Redo.{redo, redo-zero, Outside}
use ele3021_operating_system.Log.Recover.{install_all-Installed}

-- `sync` with exactly LOGSIZE - 1 entries installs them all and empties the log, in memory and on
-- disk; with any other number it fails and changes nothing. It relies on the buffers of the slots,
-- which hold what the disk holds there.
pub sync_lem :
    (m : Machine)
    → Outside m.start m.lh.block m.lh.n
    → m.past ≡ []
    → ((k : ℕ) → k < m.lh.n → m.cache (m.start + k + 1) ≡ m.disk.blocks (m.start + k + 1))
    → let (m', done) = sync m in
      ((m.lh.n ≡ log_size - 1)
        × (done ≡ true)
        × (m'.lh.n ≡ 0)
        × (m'.disk.head.n ≡ 0)
        × ((b : ℕ) → m'.disk.blocks b ≡ redo m.start m.lh.block m.lh.n m.disk.blocks b))
      ⊎ ((m.lh.n ≢ log_size - 1) × (done ≡ false) × (m' ≡ m))
unfolding sync clear_log write_head install_trans
sync_lem m out no_past slots =
    elim (Bool-cases (ltb m.lh.n (log_size - 1) || ltb (log_size - 1) m.lh.n)) [
      | inl other ↦ rw other (inr (ground arith, refl, refl))
      | inr full ↦ rw full (
          inl (
            ground arith,
            refl,
            refl,
            refl,
            (install_all-Installed m.start m.lh.block m.lh.n m.disk.head m.disk.blocks out
                (ground arith) m
                (record {
                  same_start = refl;
                  same_blocks = refl;
                  same_head = refl;
                  slots = slots;
                  content = λ b. sym (redo-zero m.start m.lh.block m.disk.blocks b);
                  crashes = rw no_past tt;
                })).content,
          ))
    ]

write_from-lh : (k t : ℕ) (m : Machine) → (write_from k t m).lh ≡ m.lh
unfolding write_from
write_from-lh zero t m = refl
write_from-lh (suc k) t m = write_from-lh k (suc t) (write_one t m)

commit-n : (m : Machine) → (commit m).lh.n ≡ m.lh.n
unfolding commit write_head write_log
commit-n m = elim (Bool-cases (ltb 0 m.lh.n)) [
  | inl e ↦ rw e (ap (λ h. h.n) (write_from-lh m.lh.n 0 m))
  | inr e ↦ rw e
]

sync_full : (m : Machine) → m.lh.n ≡ log_size → (sync m).0 ≡ m
unfolding sync
sync_full m e = ground arith

finish-n : (m : Machine) → m.lh.n ≡ log_size → (finish m).lh.n ≡ log_size
finish-n m e = ground (arith, commit-n m, sync_full (commit m))

-- A log with LOGSIZE entries is never emptied again: `begin_op` sleeps, `log_write` panics, and each
-- `end_op` that returns leaves the LOGSIZE entries, since its `sync` only acts on LOGSIZE - 1.
pub log_stuck :
    (m : Machine)
    → m.lh.n ≡ log_size
    → m.committing ≡ false
    → (begin_op m ≡ sleeps)
      × ((b : ℕ) → log_write b m ≡ panics)
      × ((m' : Machine) → end_op m ≡ returns m' → m'.lh.n ≡ log_size)
unfolding begin_op log_write end_op
log_stuck m e idle = (
  ground arith,
  λ b. ground arith,
  λ m' h.
      ground
        (arith, finish-n (record m { outstanding = m.outstanding -ℤ pos 1; committing = true })),
)
