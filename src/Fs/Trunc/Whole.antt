-- ===== src/Fs/Trunc/Whole.antt =====
-- `itrunc` on a whole file.
use ele3021_operating_system.Base.{
  ℕ, suc, ◌-◌, ◌≤◌, ◌<◌, ◌≡◌, ◌≢◌, refl, sym, ap, subst, ◌∙◌, ◌⊎◌, inl, inr, true, false, List, All,
  length, arith, Option, some, ℕ_discrete,
}
use ele3021_operating_system.Base.Loops.{try_sweep, try_sweep_total}
use ele3021_operating_system.Fs.{Store, Place, in_inode, in_block, read, ndirect}
use ele3021_operating_system.Fs.Tree.{Live, depth, IsTree}
use ele3021_operating_system.Fs.Bmap.{lookup}
use ele3021_operating_system.Fs.Trunc.{free_slot, free_indirect, itrunc}
use ele3021_operating_system.Fs.Trunc.Cut.{Cut, Cut-refl, Cut-same, Cut-trans, Cut-weaken}
use ele3021_operating_system.Fs.Trunc.Below.{Frees, free_slot-Frees, free_indirect-Frees}

-- The first `n` entries of `ip->addrs`.
abbrev InInode : ℕ → Place → Type 0
InInode n q = (i : ℕ) × (i < n) × (q ≡ in_inode i)

in_inode_eq : {i j : ℕ} → in_inode i ≡ in_inode j → i ≡ j
in_inode_eq h = cc

module _ (level : ℕ → ℕ) (s : Store) (ok : IsTree level s) where
  -- The next entry of `ip->addrs`, with all that is below it.
  next-Cut :
      (free : Place → Store → Option Store) (d m : ℕ) (t : Store)
      → Frees d free
      → m < 13
      → m - 9 ≡ d
      → Cut level 3 (InInode m) s t
      → (t' : Store) × (free (in_inode m) t ≡ some t') × Cut level 3 (InInode (suc m)) s t'
  next-Cut free d m t frees lt deep c =
      let (t', h, r) = frees c.level' t (in_inode m) c.tree lt deep in
      (
        t',
        h,
        Cut-same to from (
            Cut-trans ok c outside (Cut-weaken (omega arith) r) elsewhere
              (λ q e. (subst (Live c.level') (sym e) lt, omega (arith, ap (depth level) e)))),
      )
    where
      outside : (x j : ℕ) → level x ≤ 3 → InInode m (in_block x j) → ⊥
      outside x j low (i, small, e) = apart e
        where
          apart : in_block x j ≡ in_inode i → ⊥
          apart q = cc

      elsewhere : (q : Place) → q ≡ in_inode m → InInode m q → ⊥
      elsewhere q e (i, small, e') = omega (arith, in_inode_eq (sym e ∙ e'))

      to : (q : Place) → (InInode m q ⊎ (q ≡ in_inode m)) → InInode (suc m) q
      to q (inl (i, small, e)) = (i, omega arith, e)
      to q (inr e) = (m, omega arith, e)

      from : (q : Place) → InInode (suc m) q → InInode m q ⊎ (q ≡ in_inode m)
      from q (i, small, e) = elim (ℕ_discrete i m) [
        | yes z ↦ inr (e ∙ ap in_inode z)
        | no ne ↦ inl (i, omega arith, e)
      ]

  direct-Cut :
      (t : Store) × (try_sweep (λ i. free_slot (in_inode i)) ndirect s ≡ some t)
      × Cut level 3 (InInode 10) s t
  direct-Cut =
      try_sweep_total (λ i. free_slot (in_inode i)) (λ m. Cut level 3 (InInode m) s) 10
        (λ m t lt c. next-Cut free_slot 0 m t free_slot-Frees (omega arith) (omega arith) c) s
        (Cut-refl 3 ok (λ q h. absurd (omega (arith, h.1)))) 10 (omega arith)

  itrunc-Cut :
      (t : Store) × (itrunc s ≡ some (record t { file_size = 0 })) × Cut level 3 (InInode 13) s t
  unfolding itrunc
  itrunc-Cut =
      let single = free_indirect-Frees free_slot 0 free_slot-Frees in
      let double = free_indirect-Frees (free_indirect free_slot) 1 single in
      let triple = free_indirect-Frees (free_indirect (free_indirect free_slot)) 2 double in
      let (t0, h0, c0) = direct-Cut in
      let (t1, h1, c1) = next-Cut _ 1 10 t0 single (omega arith) refl c0 in
      let (t2, h2, c2) = next-Cut _ 2 11 t1 double (omega arith) refl c1 in
      let (t3, h3, c3) = next-Cut _ 3 12 t2 triple (omega arith) refl c2 in
      (t3, rw (h0, h1, h2, h3) refl, c3)

-- What `itrunc` leaves of the file in `s`.
pub record Truncates (level : ℕ → ℕ) (s s' : Store) : Type 0 where
  pub addrs : (i : ℕ) → i < 13 → s'.addrs i ≡ 0
  pub size : s'.file_size ≡ 0
  pub freed :
      (root : ℕ) (js : List ℕ)
      → root < 13
      → All (λ j. j < 128) js
      → length js ≤ root - 9
      → lookup s root js ≢ 0
      → s'.used (lookup s root js) ≡ false
  pub fewer : (b : ℕ) → s.used b ≡ false → s'.used b ≡ false
  pub others :
      (b : ℕ)
      → s.used b ≡ true
      → s'.used b ≡ false
      → (q : Place) × Live level q × (read q s ≡ b) × (b ≢ 0)

-- `itrunc` of a file whose blocks form a tree does not panic: it frees every block that a path from
-- the inode leads to, the indirect blocks included, and no block that the file does not name; the
-- inode names no block afterwards and its size is 0.
pub itrunc_lem :
    (level : ℕ → ℕ) (s : Store)
    → IsTree level s
    → (s' : Store) × (itrunc s ≡ some s') × Truncates level s s'
itrunc_lem level s ok =
    let (t, h, c) = itrunc-Cut level s ok in
    (
      record t { file_size = 0 },
      h,
      record {
        addrs = λ i lt. c.empty (in_inode i) lt (i, lt, refl);
        size = refl;
        freed = λ root js lt small short found.
            c.gone (in_inode root) js (root, lt, refl) small short found;
        fewer = c.fewer;
        others = c.others;
      },
    )
