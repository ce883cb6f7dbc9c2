-- ===== src/Proc/Stride/Shares.antt =====
-- The bookkeeping of `cpu_share` and `run_MLFQ`: the shares always make up 100.
use ele3021_operating_system.Base.{
  ℕ, ◌≡◌, refl, sym, ◌∙◌, ◌⊎◌, inl, inr, true, ◌||◌, Option, none, some, arith, Bool-cases,
  >>=-eq-some, some_eq, subst,
}
use ele3021_operating_system.Base.Int.{
  ℤ, pos, negsuc, ◌+ℤ◌, ◌-ℤ◌, ◌≤ℤ◌, ltb_ℤ, is_zero, is_zero-true, wrap_int, int_laws, ltb_ℤ-false,
  ltb_ℤ-true,
}
use ele3021_operating_system.Proc.Stride.Balance.{
  books, IsBalanced, max_request, pos_total, neg_total, share_sum_fits, sum_fits, share_sum_back,
  sum_back,
}
use ele3021_operating_system.Proc.Stride.Books.{
  SameBooks-trans, init_pass-SameBooks, update_strd-SameBooks, refuse-SameBooks, restart-SameBooks,
}
use ele3021_operating_system.Proc.Stride.{
  Sched, CpuShare, panics, traps, returns, restart, refuse, update_strd, init_pass, granted,
  refused, cpu_share, set_up, join, run_mlfq,
}

-- What a call of `cpu_share(share)` that returns did to the books.
pub record Books (share : ℤ) (k : Sched) (r : ℕ) (k' : Sched) : Type 0 where
  pub asked : pos 0 ≤ℤ share
  pub same_mlfq : k'.mlfqs.share ≡ k.mlfqs.share
  pub outcome :
      ((r ≡ 0)
        × (k.strd_share_sum +ℤ share ≤ℤ pos 20)
        × (k'.strd_share_sum ≡ k.strd_share_sum +ℤ share)
        × (k'.strd_sum ≡ k.strd_sum -ℤ share))
      ⊎ ((r ≡ 1)
          × (pos 21 ≤ℤ k.strd_share_sum +ℤ share)
          × (k'.strd_share_sum ≡ k.strd_share_sum)
          × (k'.strd_sum ≡ k.strd_sum))

-- A request is granted (0) exactly when the shares given out stay within 20; a refused one (1) leaves
-- the books as they were.
cpu_share_lem :
    (i : ℕ) (share : ℤ) (k : Sched) {r : ℕ} {k' : Sched}
    → IsBalanced k
    → share ≤ℤ max_request
    → cpu_share i share k ≡ returns r k'
    → Books share k r k'
unfolding cpu_share
cpu_share_lem i share k {r} {k'} ok small h =
    elim (Bool-cases (ltb_ℤ k.strd_share_sum (pos 0) || ltb_ℤ share (pos 0))) [
      | inl e ↦ absurd (ground arith)
      | inr e ↦
          let asked : pos 0 ≤ℤ share = ground (arith, ltb_ℤ-false share (pos 0)) in
          let fits = share_sum_fits share k ok asked small in
          elim (Bool-cases (ltb_ℤ (pos 20) (wrap_int (k.strd_share_sum +ℤ share)))) [
            | inl over ↦
                let t =
                  restart-SameBooks 1 (refused i share (granted i share k)) _
                    (λ k1. refuse-SameBooks i (refused i share (granted i share k)) {r = k1})
                    (rw (e, over) at h) in
                record {
                  asked = asked;
                  same_mlfq = t.1.share;
                  outcome = inr (
                    sym t.0,
                    over_20 (rw fits at over),
                    t.1.share_sum ∙ share_sum_back share k ok asked small,
                    t.1.sum ∙ sum_back share k ok asked small,
                  );
                }
            | inr within ↦
                let t =
                  restart-SameBooks 0 (granted i share k) _
                    (λ k1. update_strd-SameBooks (granted i share k) {r = k1})
                    (rw (e, within) at h) in
                record {
                  asked = asked;
                  same_mlfq = t.1.share;
                  outcome = inl (
                    sym t.0,
                    ltb_ℤ-false (pos 20) _ (rw fits at within),
                    t.1.share_sum ∙ fits,
                    t.1.sum ∙ sum_fits share k ok asked small,
                  );
                }
          ]
    ]
  where
    over_20 :
        ltb_ℤ (pos 20) (k.strd_share_sum +ℤ share) ≡ true → pos 21 ≤ℤ k.strd_share_sum +ℤ share
    over_20 q = ground (arith, ltb_ℤ-true (pos 20) (k.strd_share_sum +ℤ share))

returns-IsBalanced :
    (i : ℕ) (share : ℤ) (k : Sched) {r : ℕ} {k' : Sched}
    → IsBalanced k
    → share ≤ℤ max_request
    → cpu_share i share k ≡ returns r k'
    → IsBalanced k'
returns-IsBalanced i share k {r} {k'} ok small h = elim b.outcome [
  | inl g ↦ record {
    balanced =
        rw (g.2, g.3, b.same_mlfq)
          (omega
            (int_laws, pos_total share k ok b.asked small, neg_total share k ok b.asked small));
    not_negative = rw g.2 (omega (int_laws, b.asked, ok.not_negative));
    at_most = rw g.2 g.1;
    mlfq_not_negative = rw b.same_mlfq ok.mlfq_not_negative;
    mlfq_at_most = rw b.same_mlfq ok.mlfq_at_most;
  }
  | inr g ↦ record {
    balanced = rw (g.2, g.3, b.same_mlfq) ok.balanced;
    not_negative = rw g.2 ok.not_negative;
    at_most = rw g.2 ok.at_most;
    mlfq_not_negative = rw b.same_mlfq ok.mlfq_not_negative;
    mlfq_at_most = rw b.same_mlfq ok.mlfq_at_most;
  }
]
  where
    b : Books share k r k'
    b = cpu_share_lem i share k ok small h

-- What each outcome of `cpu_share(share)` of the process `i` says.
abbrev pub ShareAnswers : ℕ → ℤ → Sched → CpuShare → Type 0
ShareAnswers i share k panics = share ≤ℤ negsuc 0
ShareAnswers i share k traps =
    (pos 0 ≤ℤ share)
    × (((k.strd_share_sum +ℤ share ≤ℤ pos 20) × (update_strd (granted i share k) ≡ none))
        ⊎ ((pos 21 ≤ℤ k.strd_share_sum +ℤ share)
            × (refuse i (refused i share (granted i share k)) ≡ none)))
ShareAnswers i share k (returns r k') = Books share k r k' × IsBalanced k'

restart≢panics : (n : ℕ) (o : Option Sched) → restart n o ≡ panics → ⊥
unfolding restart
restart≢panics n none h = cc
restart≢panics n (some k) h = cc

restart-traps : (n : ℕ) (o : Option Sched) → restart n o ≡ traps → o ≡ none
unfolding restart
restart-traps n none h = refl
restart-traps n (some k) h = cc

module _ (i : ℕ) (share : ℤ) (k : Sched) (ok : IsBalanced k) (small : share ≤ℤ max_request) where
  answers : (r : CpuShare) → cpu_share i share k ≡ r → ShareAnswers i share k r
  unfolding cpu_share
  answers panics h = elim (Bool-cases (ltb_ℤ k.strd_share_sum (pos 0) || ltb_ℤ share (pos 0))) [
    | inl e ↦ negative (ground arith)
    | inr e ↦ elim (Bool-cases (ltb_ℤ (pos 20) (wrap_int (k.strd_share_sum +ℤ share)))) [
      | inl over ↦ absurd (restart≢panics 1 _ (rw (e, over) at h))
      | inr within ↦ absurd (restart≢panics 0 _ (rw (e, within) at h))
    ]
  ]
    where
      negative : ltb_ℤ share (pos 0) ≡ true → share ≤ℤ negsuc 0
      negative q = ground (arith, ltb_ℤ-true share (pos 0))
  answers traps h = elim (Bool-cases (ltb_ℤ k.strd_share_sum (pos 0) || ltb_ℤ share (pos 0))) [
    | inl e ↦ absurd (ground arith)
    | inr e ↦
        let asked : pos 0 ≤ℤ share = ground (arith, ltb_ℤ-false share (pos 0)) in
        let fits = share_sum_fits share k ok asked small in
        elim (Bool-cases (ltb_ℤ (pos 20) (wrap_int (k.strd_share_sum +ℤ share)))) [
          | inl over ↦ (asked, inr (above (rw fits at over), restart-traps 1 _ (rw (e, over) at h)))
          | inr within ↦ (
            asked,
            inl (
              ltb_ℤ-false (pos 20) _ (rw fits at within),
              restart-traps 0 _ (rw (e, within) at h),
            ),
          )
        ]
  ]
    where
      above :
          ltb_ℤ (pos 20) (k.strd_share_sum +ℤ share) ≡ true → pos 21 ≤ℤ k.strd_share_sum +ℤ share
      above q = ground (arith, ltb_ℤ-true (pos 20) (k.strd_share_sum +ℤ share))
  answers (returns r k') h =
      (cpu_share_lem i share k ok small h, returns-IsBalanced i share k ok small h)

-- On balanced books, a request of up to 2 ^ 31 - 21, with which the 32-bit sums do not overflow,
-- panics exactly if it is negative. A request of 0 or more that returns is granted (0) if the shares
-- given out stay within 20 with it, and refused (1) otherwise; a granted one moves the share, a
-- refused one moves nothing, and the books stay balanced. It traps only where `update_strd` does on
-- the granted state, or what follows the roll back does. The books are balanced if the three shares
-- make up 100 and neither `cpu_share` nor MLFQ has more than 20 of them or less than 0.
pub cpu_share-IsBalanced :
    (i : ℕ) (share : ℤ) (k : Sched)
    → IsBalanced k
    → share ≤ℤ max_request
    → ShareAnswers i share k (cpu_share i share k)
cpu_share-IsBalanced i share k ok small = answers i share k ok small _ refl

set_up-books :
    (k : Sched) → (books (set_up k) ≡ books k) × ((set_up k).strd_share_sum ≡ k.strd_share_sum)
set_up-books k = elim (Bool-cases (is_zero k.mlfqs.share)) [
  | inl z ↦ rw z (rw (is_zero-true k.mlfqs.share z) (omega int_laws), refl)
  | inr nz ↦ rw nz (refl, refl)
]

set_up-mlfq :
    (k : Sched)
    → pos 0 ≤ℤ k.mlfqs.share
    → k.mlfqs.share ≤ℤ pos 20
    → (pos 0 ≤ℤ (set_up k).mlfqs.share) × ((set_up k).mlfqs.share ≤ℤ pos 20)
set_up-mlfq k low high = elim (Bool-cases (is_zero k.mlfqs.share)) [
  | inl z ↦ rw z (omega arith, omega arith)
  | inr nz ↦ rw nz (low, high)
]

-- The first process that joins MLFQ moves 20 from the stride class to it; the books stay balanced.
run_mlfq-IsBalanced :
    (i : ℕ) (k : Sched) {r : Sched} → IsBalanced k → run_mlfq i k ≡ some r → IsBalanced r
unfolding run_mlfq
run_mlfq-IsBalanced i k {r} ok h =
    let (u, e, hr) = >>=-eq-some (update_strd (join i (set_up k))) (λ r. some (init_pass r)) h in
    let b = SameBooks-trans (update_strd-SameBooks (join i (set_up k)) e) (init_pass-SameBooks u) in
    let s = set_up-books k in
    let m = set_up-mlfq k ok.mlfq_not_negative ok.mlfq_at_most in
    subst IsBalanced (some_eq hr) (record {
      balanced = rw (b.sum, b.share_sum, b.share) (s.0 ∙ ok.balanced);
      not_negative = rw (b.share_sum, s.1) ok.not_negative;
      at_most = rw (b.share_sum, s.1) ok.at_most;
      mlfq_not_negative = rw b.share m.0;
      mlfq_at_most = rw b.share m.1;
    })
