-- ===== src/Proc/Stride/Balance.antt =====
-- When the books of the shares are balanced, and that the sums of `cpu_share` then fit an `int`.
use ele3021_operating_system.Base.{◌≡◌, ap}
use ele3021_operating_system.Base.Int.{
  ℤ, pos, ◌+ℤ◌, ◌-ℤ◌, ◌≤ℤ◌, wrap_int, wrap_int_fits, pos_part, neg_part, int_laws, add-sub_cancel,
  sub-add_cancel,
}
use ele3021_operating_system.Proc.Stride.{Sched}

-- What the three accounts add up to.
abbrev pub books : Sched → ℤ
books k = k.strd_sum +ℤ k.strd_share_sum +ℤ k.mlfqs.share

-- The accounts make up 100, no more than 20 is given out by `cpu_share`, and no more than 20 to MLFQ.
pub record IsBalanced (k : Sched) : Type 0 where
  pub balanced : books k ≡ pos 100
  pub not_negative : pos 0 ≤ℤ k.strd_share_sum
  pub at_most : k.strd_share_sum ≤ℤ pos 20
  pub mlfq_not_negative : pos 0 ≤ℤ k.mlfqs.share
  pub mlfq_at_most : k.mlfqs.share ≤ℤ pos 20

-- The largest request that no `int` sum of balanced books overflows with: 2 ^ 31 - 1 - 20.
abbrev pub max_request : ℤ
max_request = pos 2147483627

-- The sums of `cpu_share` fit an `int`, for balanced books and a request that is not too large.
module _ (share : ℤ) (k : Sched) (ok : IsBalanced k) (asked : pos 0 ≤ℤ share)
    (small : share ≤ℤ max_request) where
  pub pos_total : pos_part (books k) ≡ 100
  pos_total = ap pos_part ok.balanced

  pub neg_total : neg_part (books k) ≡ 0
  neg_total = ap neg_part ok.balanced

  pub share_sum_fits : wrap_int (k.strd_share_sum +ℤ share) ≡ k.strd_share_sum +ℤ share
  share_sum_fits =
      wrap_int_fits (k.strd_share_sum +ℤ share)
        (omega (int_laws, asked, small, ok.not_negative, ok.at_most))
        (omega (int_laws, asked, small, ok.not_negative, ok.at_most))

  sum_range : (pos 60 ≤ℤ k.strd_sum) × (k.strd_sum ≤ℤ pos 100)
  sum_range = (
    omega (int_laws, pos_total, neg_total, ok.at_most, ok.mlfq_at_most),
    omega (int_laws, pos_total, neg_total, ok.not_negative, ok.mlfq_not_negative),
  )

  pub sum_fits : wrap_int (k.strd_sum -ℤ share) ≡ k.strd_sum -ℤ share
  sum_fits =
      wrap_int_fits (k.strd_sum -ℤ share) (omega (int_laws, asked, small, sum_range.0, sum_range.1))
        (omega (int_laws, asked, small, sum_range.0, sum_range.1))

  pub share_sum_back : wrap_int (wrap_int (k.strd_share_sum +ℤ share) -ℤ share) ≡ k.strd_share_sum
  share_sum_back =
      rw (share_sum_fits, add-sub_cancel k.strd_share_sum share)
        (wrap_int_fits k.strd_share_sum (omega (int_laws, ok.not_negative, ok.at_most))
          (omega (int_laws, ok.not_negative, ok.at_most)))

  pub sum_back : wrap_int (wrap_int (k.strd_sum -ℤ share) +ℤ share) ≡ k.strd_sum
  sum_back =
      rw (sum_fits, sub-add_cancel k.strd_sum share)
        (wrap_int_fits k.strd_sum (omega (int_laws, sum_range.0, sum_range.1))
          (omega (int_laws, sum_range.0, sum_range.1)))
