-- ===== src/Proc/Stride/Strides.antt =====
-- `update_strd`: when it divides by zero.
use ele3021_operating_system.Base.{
  ℕ, zero, suc, ◌+◌, ◌≤◌, ◌<◌, ◌/◌, ◌*◌, ◌≡◌, ◌↔◌, refl, ◌∙◌, ap, inl, inr, true, false, List, [],
  ◌∷◌, none, some, ◌==◌, if◌then◌else◌, arith, Bool-cases, Option-cases, Any, ◌>>=◌, >>=-some_iff,
}
use ele3021_operating_system.Base.Int.{ℤ, pos, negsuc, pos_part, div_ℤ}
use mathlib.Core.Bool.{false≢true}
use ele3021_operating_system.Proc.{
  SchedMode, strd_sched, strd_set_sched, mlfq_sched, ProcMlfqs, Proc, is_runnable, same_mode,
}
use ele3021_operating_system.Proc.Stride.{
  Sched, count_mode, get_num, with_share, update_mode, update_proc, update_procs, update_strd,
}
use ele3021_operating_system.Proc.Stride.Books.{update_proc-mlfqs}

div-eq-zero : (a b : ℕ) → 0 < b → (pos (a / b) ≡ pos 0) ↔ (a < b)
div-eq-zero a b h = (λ e. below (ap pos_part e), λ lt. ap pos (small lt))
  where
    small : a < b → a / b ≡ 0
    small lt = grind arith

    below : a / b ≡ 0 → a < b
    below e = omega (arith, ap (λ (z : ℕ). b * z) e)

-- The last division of each case traps at 0 alone.
trap_iff :
    {A : Type 0} (v : ℤ) (f : ℤ → A)
    → ((div_ℤ (pos 10001) v >>= λ x. some (f x)) ≡ none) ↔ (v ≡ pos 0)
unfolding div_ℤ
trap_iff (pos zero) f = (λ h. refl, λ h. refl)
trap_iff (pos (suc b)) f = (λ h. cc, λ h. absurd (ground arith))
trap_iff (negsuc b) f = (λ h. cc, λ h. cc)

↔-trans : {A B C : Type 0} → A ↔ B → B ↔ C → A ↔ C
↔-trans f g = (λ a. g.0 (f.0 a), λ c. f.1 (g.1 c))

-- What makes `update_strd` trap at a RUNNABLE process: too many processes for the share of their
-- class, or a share of 0.
module _ (s n1 n2 t : ℕ) where
  abbrev TrapsIn : Proc → SchedMode → Type 0
  TrapsIn p strd_sched = s < n1
  TrapsIn p strd_set_sched = p.strd.share ≡ pos 0
  TrapsIn p mlfq_sched = t < n2

  abbrev pub Traps : Proc → Type 0
  Traps p = (is_runnable p.state ≡ true) × TrapsIn p p.mode

  abbrev counted : SchedMode → ℕ
  counted strd_sched = n1
  counted strd_set_sched = 1
  counted mlfq_sched = n2

  div-cases : (v : ℤ) (a b : ℕ) → v ≡ pos a → 0 < b → div_ℤ v (pos b) ≡ some (pos (a / b))
  unfolding div_ℤ
  div-cases v a zero e h = absurd (omega arith)
  div-cases v a (suc b) e h = rw e

  update_mode-traps :
      (q : ProcMlfqs) (p : Proc) (mode : SchedMode)
      → q.share ≡ pos t
      → 0 < counted mode
      → (update_mode (pos s) n1 n2 q p mode ≡ none) ↔ TrapsIn p mode
  unfolding update_mode
  update_mode-traps q p strd_sched e h = rw (div-cases (pos s) s n1 refl h) (
      ↔-trans (trap_iff (pos (s / n1)) (λ x. (q, with_share p (pos (s / n1)) x)))
        (div-eq-zero s n1 h))
  update_mode-traps q p strd_set_sched e h =
      trap_iff p.strd.share (λ x. (q, with_share p p.strd.share x))
  update_mode-traps q p mlfq_sched e h =
      rw (test n2 h, div-cases q.share t n2 e h)
        (↔-trans (trap_iff (pos (t / n2)) (λ x. (q, with_share p (pos (t / n2)) x)))
          (div-eq-zero t n2 h))
    where
      test : (n : ℕ) → 0 < n → (n == 0) ≡ false
      test n h = ground arith

  update_proc-Traps :
      (q : ProcMlfqs) (p : Proc)
      → q.share ≡ pos t
      → (is_runnable p.state ≡ true → 0 < counted p.mode)
      → (update_proc (pos s) n1 n2 q p ≡ none) ↔ Traps p
  unfolding update_proc
  update_proc-Traps q p e h = elim (Bool-cases (is_runnable p.state)) [
    | inl run ↦
        let i = update_mode-traps q p p.mode e (h run) in rw run (λ z. (refl, i.0 z), λ z. i.1 z.1)
    | inr idle ↦ rw idle (λ z. cc, λ z. absurd (false≢true z.0))
  ]

  -- A process that is counted makes the count of its class positive.
  counted_lem :
      (p : Proc) (ps : List Proc)
      → count_mode strd_sched (p ∷ ps) ≤ n1
      → count_mode mlfq_sched (p ∷ ps) ≤ n2
      → is_runnable p.state ≡ true
      → 0 < counted p.mode
  unfolding count_mode
  counted_lem p ps c1 c2 run = by_mode p.mode (rw run at c1) (rw run at c2)
    where
      by_mode :
          (mode : SchedMode)
          → (if same_mode mode strd_sched then 1 else 0) + count_mode strd_sched ps ≤ n1
          → (if same_mode mode mlfq_sched then 1 else 0) + count_mode mlfq_sched ps ≤ n2
          → 0 < counted mode
      by_mode strd_sched a b = omega arith
      by_mode strd_set_sched a b = omega arith
      by_mode mlfq_sched a b = omega arith

  update_procs-Traps :
      (q : ProcMlfqs) (ps : List Proc)
      → q.share ≡ pos t
      → count_mode strd_sched ps ≤ n1
      → count_mode mlfq_sched ps ≤ n2
      → (update_procs (pos s) n1 n2 q ps ≡ none) ↔ Any Traps ps
  unfolding update_procs count_mode
  update_procs-Traps q [] e c1 c2 = (λ h. absurd (ground arith), λ h. absurd h)
  update_procs-Traps q (p ∷ ps) e c1 c2 =
      let i = update_proc-Traps q p e (counted_lem p ps c1 c2) in
      let tails = λ (q' : ProcMlfqs) (same : q' ≡ q).
        update_procs-Traps q' ps (ap (λ z. z.share) same ∙ e) (omega arith) (omega arith) in
      elim (Option-cases (update_proc (pos s) n1 n2 q p)) [
        | inl trap ↦ rw trap (λ h. inl (i.0 trap), λ h. refl)
        | inr (a, step) ↦
            let rest = tails a.0 (update_proc-mlfqs (pos s) n1 n2 q p (omega arith) step) in
            let last = >>=-some_iff (update_procs (pos s) n1 n2 a.0 ps) (pair a.1) in
            rw step (
              λ h. inr (rest.0 (last.0 h)),
              elim [
                | inl bad ↦ absurd (ground (arith, i.1 bad, step))
                | inr later ↦ last.1 (rest.1 later)
              ],
            )
      ]
    where
      pair : Proc → ProcMlfqs × List Proc → ProcMlfqs × List Proc
      pair p' b = (b.0, p' ∷ b.1)

-- `update_strd` divides by zero exactly when some RUNNABLE process belongs to a class with more
-- RUNNABLE processes than its share has units, or has asked for a share of 0 by `cpu_share`.
pub update_strd-Traps :
    (k : Sched) (s t : ℕ)
    → k.strd_sum ≡ pos s
    → k.mlfqs.share ≡ pos t
    → (update_strd k ≡ none) ↔ Any (Traps s (get_num strd_sched k) (get_num mlfq_sched k) t) k.procs
unfolding update_strd get_num
update_strd-Traps k s t es et =
    ↔-trans (>>=-some_iff _ (λ r. record k { mlfqs = r.0; procs = r.1 }))
      (rw es (update_procs-Traps s _ _ t k.mlfqs k.procs et (omega arith) (omega arith)))
