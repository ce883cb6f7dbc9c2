-- ===== src/Proc/Table/Killed.antt =====
-- What `kill` promises, whoever calls it.
use ele3021_operating_system.Base.{
  ℕ, ◌<◌, ◌≡◌, ◌≢◌, refl, ◌∙◌, ◌⊎◌, inl, inr, Bool, true, false, List, some, get_elem?, arith,
  Option-cases, Bool-cases, if◌then◌else◌, ltb, ltb→lt, get_elem?-map, map, ◌==◌, ==_iff,
}
use ele3021_operating_system.Base.Find.{
  find_index, find_index-some, find_index-none, get_elem?-modify_self, get_elem?-modify_ne,
}
use ele3021_operating_system.Base.Such.{
  IsNowhere, IsFirstOf, Decides, All-IsNowhere, IsFirst-IsFirstOf,
}
use ele3021_operating_system.Proc.{ProcState, sleeping, runnable, Proc, is_sleeping}
use ele3021_operating_system.Proc.Table.{kill_one, kill}

abbrev pub IsPid : ℕ → Proc → Type 0
IsPid pid p = p.pid ≡ pid

-- `q` is `p`, marked as killed, and RUNNABLE if it slept.
abbrev pub IsKilled : Proc → Proc → Type 0
IsKilled p q =
    ((p.state ≡ sleeping) × (q ≡ record p { killed = true; state = runnable }))
    ⊎ ((p.state ≢ sleeping) × (q ≡ record p { killed = true }))

-- What the table `ps'` and the answer of `kill(pid)` are.
abbrev pub KillAnswers : ℕ → Proc → List Proc → List Proc × Bool → Type 0
KillAnswers pid cur ps (ps', ok) =
    ((0 < cur.lwpid)
      × (ok ≡ true)
      × ((i : ℕ) (p : Proc)
          → get_elem? ps i ≡ some p
          → (q : Proc) × (get_elem? ps' i ≡ some q)
            × (((0 < p.lwpid) × IsKilled p q) ⊎ ((p.lwpid ≡ 0) × (q ≡ p)))))
    ⊎ ((cur.lwpid ≡ 0) × (ok ≡ false) × (ps' ≡ ps) × IsNowhere (IsPid pid) ps)
    ⊎ ((cur.lwpid ≡ 0)
        × (ok ≡ true)
        × ((i : ℕ) × (p : Proc) × (q : Proc) × IsFirstOf (IsPid pid) ps i p
            × (get_elem? ps' i ≡ some q)
            × IsKilled p q
            × ((j : ℕ) → i ≢ j → get_elem? ps' j ≡ get_elem? ps j)))

is_sleeping-cases :
    (s : ProcState)
    → ((is_sleeping s ≡ true) × (s ≡ sleeping)) ⊎ ((is_sleeping s ≡ false) × (s ≢ sleeping))
is_sleeping-cases s = elim (Bool-cases (is_sleeping s)) [
  | inl e ↦ inl (e, ground arith)
  | inr e ↦ inr (e, λ h. absurd (awake (rw h at e)))
]
  where
    awake : is_sleeping sleeping ≡ false → ⊥
    awake h = cc

kill_one-IsKilled : (p : Proc) → IsKilled p (kill_one p)
kill_one-IsKilled p = elim (is_sleeping-cases p.state) [
  | inl (e, s) ↦ inl (s, rw (e, kill_one) refl)
  | inr (e, s) ↦ inr (s, rw (e, kill_one) refl)
]

IsPid-Decides : (pid : ℕ) → Decides {A = Proc} (λ p. p.pid == pid) (IsPid pid)
IsPid-Decides pid = record {
  yes_if = λ p. (==_iff p.pid pid).0;
  no_if = λ p h e. absurd (ground (arith, (==_iff p.pid pid).1 e));
}

kill_lwps_lem :
    (ps : List Proc) (i : ℕ) (p : Proc)
    → get_elem? ps i ≡ some p
    → (q : Proc) × (get_elem? (map (λ p. if ltb 0 p.lwpid then kill_one p else p) ps) i ≡ some q)
      × (((0 < p.lwpid) × IsKilled p q) ⊎ ((p.lwpid ≡ 0) × (q ≡ p)))
kill_lwps_lem ps i p at = elim (Bool-cases (ltb 0 p.lwpid)) [
  | inl e ↦ (
    kill_one p,
    get_elem?-map (λ p. if ltb 0 p.lwpid then kill_one p else p) ps i p at ∙ rw e,
    inl (ltb→lt _ _ e, kill_one-IsKilled p),
  )
  | inr e ↦ (
    p,
    get_elem?-map (λ p. if ltb 0 p.lwpid then kill_one p else p) ps i p at ∙ rw e,
    inr (ground arith, refl),
  )
]

-- `kill(pid)` of an LWP does not look at the pid: it succeeds, marks every entry that has an LWP
-- number as killed and wakes it if it slept, and leaves the others alone, whatever their pid. Called
-- by a process that is no LWP it does this to the first entry with that pid and to no other; without
-- such an entry it fails and changes nothing.
pub kill_lem : (pid : ℕ) (cur : Proc) (ps : List Proc) → KillAnswers pid cur ps (kill pid cur ps)
unfolding kill
kill_lem pid cur ps = elim (Bool-cases (ltb 0 cur.lwpid)) [
  | inl lwp ↦ rw (lwp, kill) (inl (ltb→lt _ _ lwp, refl, kill_lwps_lem ps))
  | inr normal ↦
      let none_of : cur.lwpid ≡ 0 = ground arith in
      elim (Option-cases (find_index (λ p. p.pid == pid) ps)) [
        | inl e ↦
            rw (normal, e, kill)
              (inr (
                inl (
                  none_of,
                  refl,
                  refl,
                  All-IsNowhere ps (IsPid-Decides pid) (find_index-none _ ps e),
                )))
        | inr (i, e) ↦
            let r = find_index-some (λ p. p.pid == pid) ps i e in
            rw (normal, e, kill)
              (inr (
                inr (
                  none_of,
                  refl,
                  (
                    i,
                    r.entry,
                    kill_one r.entry,
                    IsFirst-IsFirstOf (IsPid-Decides pid) r r.at,
                    get_elem?-modify_self kill_one i ps r.entry r.at,
                    kill_one-IsKilled r.entry,
                    λ j ne. get_elem?-modify_ne kill_one i j ps ne,
                  ),
                )))
      ]
]
