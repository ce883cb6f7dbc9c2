-- ===== src/Proc/Stride/Books.antt =====
-- The three accounts of the shares in `update_strd`, `init_pass` and a refused request: they are left
-- alone.
use ele3021_operating_system.Base.{
  ℕ, ◌≤◌, ◌≡◌, refl, sym, ◌∙◌, ap, inl, inr, ◌&&◌, List, [], ◌∷◌, Option, none, some, if◌then◌else◌,
  arith, Bool-cases, ◌>>=◌, >>=-eq-some, some_eq, subst,
}
use ele3021_operating_system.Base.Find.{modify}
use ele3021_operating_system.Base.Int.{ℤ}
use ele3021_operating_system.Proc.{
  SchedMode, strd_sched, strd_set_sched, mlfq_sched, ProcMlfqs, Proc, is_runnable, same_mode,
}
use ele3021_operating_system.Proc.Stride.{
  Sched, count_mode, get_num, update_mode, update_proc, update_procs, update_strd, init_pass,
  set_share, returns, restart, default_share, refuse,
}

-- The branch of `update_strd` that clears `mlfqs.share` is never taken: a process that could take it
-- is one of the `n2` that were counted.
update_mode-mlfqs :
    (s : ℤ) (n1 n2 : ℕ) (q : ProcMlfqs) (p : Proc) (mode : SchedMode) {r : ProcMlfqs × Proc}
    → (if same_mode mode mlfq_sched then 1 else 0) ≤ n2
    → update_mode s n1 n2 q p mode ≡ some r
    → r.0 ≡ q
unfolding update_mode
update_mode-mlfqs s n1 n2 q p strd_sched le h = ground arith
update_mode-mlfqs s n1 n2 q p strd_set_sched le h = ground arith
update_mode-mlfqs s n1 n2 q p mlfq_sched le h = ground arith

pub update_proc-mlfqs :
    (s : ℤ) (n1 n2 : ℕ) (q : ProcMlfqs) (p : Proc) {r : ProcMlfqs × Proc}
    → (if is_runnable p.state && same_mode p.mode mlfq_sched then 1 else 0) ≤ n2
    → update_proc s n1 n2 q p ≡ some r
    → r.0 ≡ q
unfolding update_proc
update_proc-mlfqs s n1 n2 q p {r} le h = elim (Bool-cases (is_runnable p.state)) [
  | inl e ↦ update_mode-mlfqs s n1 n2 q p p.mode {r = r} (ground arith) (ground arith)
  | inr e ↦ ground arith
]

pub update_procs-mlfqs :
    (s : ℤ) (n1 n2 : ℕ) (q : ProcMlfqs) (ps : List Proc) {r : ProcMlfqs × List Proc}
    → count_mode mlfq_sched ps ≤ n2
    → update_procs s n1 n2 q ps ≡ some r
    → r.0 ≡ q
unfolding update_procs count_mode
update_procs-mlfqs s n1 n2 q [] le h = ground arith
update_procs-mlfqs s n1 n2 q (p ∷ ps) {r} le h =
    let (a, ea, ha) =
      >>=-eq-some (update_proc s n1 n2 q p)
        (λ a. update_procs s n1 n2 a.0 ps >>= λ b. some (b.0, a.1 ∷ b.1)) h in
    let (b, eb, hb) = >>=-eq-some (update_procs s n1 n2 a.0 ps) (λ b. some (b.0, a.1 ∷ b.1)) ha in
    let same : a.0 ≡ q = update_proc-mlfqs s n1 n2 q p (omega arith) ea in
    ap (λ z. z.0) (sym (some_eq hb)) ∙ update_procs-mlfqs s n1 n2 a.0 ps (omega arith) eb ∙ same

-- `update_strd` leaves the books alone.
pub update_strd-books :
    (k : Sched) {r : Sched}
    → update_strd k ≡ some r
    → (r.mlfqs ≡ k.mlfqs) × (r.strd_sum ≡ k.strd_sum) × (r.strd_share_sum ≡ k.strd_share_sum)
unfolding update_strd
update_strd-books k {r} h =
    let (a, ea, ha) =
      >>=-eq-some
        (update_procs k.strd_sum (get_num strd_sched k) (get_num mlfq_sched k) k.mlfqs k.procs)
        (λ a. some (record k { mlfqs = a.0; procs = a.1 })) h in
    let e : record k { mlfqs = a.0; procs = a.1 } ≡ r = some_eq ha in
    (
      ap (λ z. z.mlfqs) (sym e)
          ∙ update_procs-mlfqs k.strd_sum (get_num strd_sched k) (get_num mlfq_sched k) k.mlfqs
              k.procs (unfold get_num in omega arith) ea,
      ap (λ z. z.strd_sum) (sym e),
      ap (λ z. z.strd_share_sum) (sym e),
    )

restart-returns :
    (r : ℕ) (o : Option Sched) {r' : ℕ} {k' : Sched}
    → restart r o ≡ returns r' k'
    → (k : Sched) × (o ≡ some k) × (r ≡ r') × (init_pass k ≡ k')
unfolding restart
restart-returns r none h = absurd (ground arith)
restart-returns r (some k) h = (k, refl, ground arith, ground arith)

-- The books of two states agree.
pub record SameBooks (k k' : Sched) : Type 0 where
  pub share : k'.mlfqs.share ≡ k.mlfqs.share
  pub sum : k'.strd_sum ≡ k.strd_sum
  pub share_sum : k'.strd_share_sum ≡ k.strd_share_sum

pub init_pass-SameBooks : (k : Sched) → SameBooks k (init_pass k)
unfolding init_pass
init_pass-SameBooks k = record { share = refl; sum = refl; share_sum = refl }

pub SameBooks-trans : {a b c : Sched} → SameBooks a b → SameBooks b c → SameBooks a c
SameBooks-trans p q = record {
  share = q.share ∙ p.share;
  sum = q.sum ∙ p.sum;
  share_sum = q.share_sum ∙ p.share_sum;
}

pub update_strd-SameBooks : (k : Sched) {r : Sched} → update_strd k ≡ some r → SameBooks k r
update_strd-SameBooks k h =
    let (a, b, c) = update_strd-books k h in
    record { share = ap (λ q. q.share) a; sum = b; share_sum = c }

pub refuse-SameBooks : (i : ℕ) (k : Sched) {r : Sched} → refuse i k ≡ some r → SameBooks k r
unfolding refuse
refuse-SameBooks i k {r} h =
    let (d, e, u) =
      >>=-eq-some (default_share k)
        (λ d. update_strd (record k { procs = modify i (set_share d) k.procs })) h in
    let s = update_strd-SameBooks (record k { procs = modify i (set_share d) k.procs }) u in
    record { share = s.share; sum = s.sum; share_sum = s.share_sum }

-- `restart` of a step that keeps the books keeps them too.
pub restart-SameBooks :
    (n : ℕ) (k : Sched) (o : Option Sched) {r : ℕ} {k' : Sched}
    → ((k1 : Sched) → o ≡ some k1 → SameBooks k k1)
    → restart n o ≡ returns r k'
    → (n ≡ r) × SameBooks k k'
restart-SameBooks n k o keep h =
    let (k1, e1, er, e2) = restart-returns n o h in
    (er, subst (SameBooks k) e2 (SameBooks-trans (keep k1 e1) (init_pass-SameBooks k1)))
