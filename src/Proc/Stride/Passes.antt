-- ===== src/Proc/Stride/Passes.antt =====
-- `get_min_pass` and `init_pass`: the least pass, and passes that start at 0.
use ele3021_operating_system.Base.{
  ◌<◌, ◌≡◌, refl, sym, ◌∙◌, ◌⊎◌, inl, inr, true, ◌&&◌, List, [], ◌∷◌, arith, Bool-cases, Any, All,
  All-map, ltb,
}
use ele3021_operating_system.Base.Int.{
  ℤ, pos, ◌≤ℤ◌, ltb_ℤ, ltb_ℤ-false, ltb_ℤ-true, le_refl_ℤ, le_trans_ℤ,
}
use ele3021_operating_system.Proc.{mlfq_sched, Proc}
use ele3021_operating_system.Proc.Stride.{
  Sched, get_num, is_stride, less_pass, min_pass, get_min_pass,
}

less_pass-le : (min : ℤ) (p : Proc) → less_pass min p ≤ℤ min
unfolding less_pass
less_pass-le min p = elim (Bool-cases (is_stride p && ltb_ℤ p.strd.pass min)) [
  | inl less ↦ rw less (ltb_ℤ-true p.strd.pass min (ground arith)).0
  | inr more ↦ rw more (le_refl_ℤ min)
]

less_pass-le_pass : (min : ℤ) (p : Proc) → is_stride p ≡ true → less_pass min p ≤ℤ p.strd.pass
unfolding less_pass
less_pass-le_pass min p h = elim (Bool-cases (ltb_ℤ p.strd.pass min)) [
  | inl less ↦ rw (h, less) (le_refl_ℤ p.strd.pass)
  | inr more ↦ rw (h, more) (ltb_ℤ-false p.strd.pass min more)
]

less_pass-cases :
    (min : ℤ) (p : Proc)
    → (less_pass min p ≡ min) ⊎ ((is_stride p ≡ true) × (p.strd.pass ≡ less_pass min p))
unfolding less_pass
less_pass-cases min p = ground arith

min_pass-le : (min : ℤ) (ps : List Proc) → min_pass min ps ≤ℤ min
unfolding min_pass
min_pass-le min [] = le_refl_ℤ min
min_pass-le min (p ∷ ps) = omega (arith, min_pass-le (less_pass min p) ps, less_pass-le min p)

min_pass-le-All :
    (min : ℤ) (ps : List Proc) → All (λ p. is_stride p ≡ true → min_pass min ps ≤ℤ p.strd.pass) ps
unfolding min_pass
min_pass-le-All min [] = tt
min_pass-le-All min (p ∷ ps) = (
  λ h. omega (arith, min_pass-le (less_pass min p) ps, less_pass-le_pass min p h),
  min_pass-le-All (less_pass min p) ps,
)

min_pass_attained :
    (min : ℤ) (ps : List Proc)
    → (min_pass min ps ≡ min) ⊎ Any (λ p. (is_stride p ≡ true) × (p.strd.pass ≡ min_pass min ps)) ps
unfolding min_pass
min_pass_attained min [] = inl refl
min_pass_attained min (p ∷ ps) = elim (min_pass_attained (less_pass min p) ps) [
  | inl first ↦ elim (less_pass-cases min p) [
    | inl same ↦ inl (first ∙ same)
    | inr here ↦ inr (inl (here.0, here.1 ∙ sym first))
  ]
  | inr later ↦ inr (inr later)
]

-- `get_min_pass` is at most 99999999, at most the pass of each RUNNABLE process of the stride class,
-- and, if an MLFQ process is RUNNABLE, at most the pass of the MLFQ class; and it is one of these.
get_min_pass_lem :
    (k : Sched)
    → let m = get_min_pass k in
      (m ≤ℤ pos 99999999)
      × All (λ p. is_stride p ≡ true → m ≤ℤ p.strd.pass) k.procs
      × (0 < get_num mlfq_sched k → m ≤ℤ k.mlfqs.pass)
      × ((m ≡ pos 99999999)
          ⊎ Any (λ p. (is_stride p ≡ true) × (p.strd.pass ≡ m)) k.procs
          ⊎ ((0 < get_num mlfq_sched k) × (m ≡ k.mlfqs.pass)))
unfolding get_min_pass
get_min_pass_lem k = elim (Bool-cases (ltb 0 (get_num mlfq_sched k) && ltb_ℤ k.mlfqs.pass least)) [
  | inl class ↦
      let lt : k.mlfqs.pass ≤ℤ least = (ltb_ℤ-true k.mlfqs.pass least (ground arith)).0 in
      rw class (
        le_trans_ℤ k.mlfqs.pass least (pos 99999999) lt (min_pass-le (pos 99999999) k.procs),
        All-map _ _ (λ p h e. le_trans_ℤ k.mlfqs.pass least p.strd.pass lt (h e)) k.procs
            (min_pass-le-All (pos 99999999) k.procs),
        λ h. le_refl_ℤ k.mlfqs.pass,
        inr (inr (ground arith, refl)),
      )
  | inr stride ↦ rw stride (
    min_pass-le (pos 99999999) k.procs,
    min_pass-le-All (pos 99999999) k.procs,
    λ h. ltb_ℤ-false k.mlfqs.pass least (ground arith),
    elim (min_pass_attained (pos 99999999) k.procs) [ inl e ↦ inl e | inr a ↦ inr (inl a) ],
  )
]
  where
    least : ℤ
    least = min_pass (pos 99999999) k.procs
