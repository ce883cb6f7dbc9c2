-- ===== src/Spin/Exclusion.antt =====
-- Mutual exclusion, and no panic.
use ele3021_operating_system.Base.{
  ℕ, ◌-◌, ◌≡◌, ◌≢◌, refl, sym, ap, subst, ◌∙◌, Bool, true, false, ◌&&◌, List, [], ◌∷◌, Option, none,
  some, ◌==◌, ==_iff, update, Bool-cases, inl, inr, ℕ_discrete, some_eq, arith,
}
use ele3021_operating_system.Spin.{
  Spinlock, Where, Cpu, System, holding, is_cpu, with_cpu, advance_at, advance, run_cpus, initlock,
  pushcli,
}

-- The CPU has done its `xchg` and not yet cleared `locked`.
abbrev pub in_section : Where → Bool
in_section Where.taken = true
in_section Where.inside = true
in_section Where.leaving = true
in_section _ = false

-- Interrupts are as they were outside, and off everywhere else.
abbrev pub Fits : Bool → Where → Cpu → Type 0
Fits flag Where.outside c = (c.flag ≡ flag) × (c.ncli ≡ 0)
Fits flag _ c = (c.flag ≡ false) × (c.ncli ≡ 1) × (c.intena ≡ flag)

pub record IsExclusive (flags : ℕ → Bool) (s : System) : Type 0 where
  pub fits : (n : ℕ) → Fits (flags n) (s.cpus n).at (s.cpus n)
  pub owned : (n : ℕ) → (s.cpus n).at ≡ Where.inside → s.lock.cpu ≡ some n
  pub owner : (n : ℕ) → s.lock.cpu ≡ some n → (s.cpus n).at ≡ Where.inside
  pub locked : (n : ℕ) → in_section (s.cpus n).at ≡ true → s.lock.locked ≡ true
  pub alone : (n m : ℕ) → in_section (s.cpus n).at ≡ true → in_section (s.cpus m).at ≡ true → n ≡ m

true≢false : true ≡ false → ⊥
true≢false h = cc

module _ (flags : ℕ → Bool) (s : System) (n : ℕ) (c : Cpu) (lock : Spinlock)
    (ok : IsExclusive flags s) where
  here : (update s.cpus n c) n ≡ c
  here = rw ((==_iff n n).1 refl) refl

  there : (m : ℕ) → m ≢ n → (update s.cpus n c) m ≡ s.cpus m
  there m ne = elim (Bool-cases (m == n)) [
    | inl e ↦ absurd (ne ((==_iff m n).0 e))
    | inr e ↦ rw e refl
  ]

  -- One CPU moves, and the lock changes.
  with_cpu-IsExclusive :
      Fits (flags n) c.at c
      → (c.at ≡ Where.inside → lock.cpu ≡ some n)
      → ((m : ℕ) → m ≢ n → s.lock.cpu ≡ some m → lock.cpu ≡ some m)
      → (lock.cpu ≡ some n → c.at ≡ Where.inside)
      → ((m : ℕ) → m ≢ n → lock.cpu ≡ some m → s.lock.cpu ≡ some m)
      → (in_section c.at ≡ true → lock.locked ≡ true)
      → ((m : ℕ)
          → m ≢ n
          → in_section (s.cpus m).at ≡ true
          → (in_section c.at ≡ false) × (lock.locked ≡ true))
      → IsExclusive flags (with_cpu n c lock s)
  with_cpu-IsExclusive fit owned owned' owner owner' locked apart = record {
    fits = λ m. elim (ℕ_discrete m n) [
      | yes e ↦
          subst (λ z. Fits (flags z) (update s.cpus n c z).at (update s.cpus n c z)) (sym e)
            (subst (λ z. Fits (flags n) z.at z) (sym here) fit)
      | no ne ↦ subst (λ z. Fits (flags m) z.at z) (sym (there m ne)) (ok.fits m)
    ];
    owned = λ m h. elim (ℕ_discrete m n) [
      | yes e ↦
          owned (ap (λ z. z.at) (sym here) ∙ ap (λ z. (update s.cpus n c z).at) (sym e) ∙ h)
          ∙ ap some (sym e)
      | no ne ↦ owned' m ne (ok.owned m (ap (λ z. z.at) (sym (there m ne)) ∙ h))
    ];
    owner = λ m h. elim (ℕ_discrete m n) [
      | yes e ↦ ap (λ z. (update s.cpus n c z).at) e ∙ ap (λ z. z.at) here ∙ owner (h ∙ ap some e)
      | no ne ↦ ap (λ z. z.at) (there m ne) ∙ ok.owner m (owner' m ne h)
    ];
    locked = λ m h. elim (ℕ_discrete m n) [
      | yes e ↦ locked (mine m e h)
      | no ne ↦ (apart m ne (theirs m ne h)).1
    ];
    alone = λ m q h h'. elim (ℕ_discrete m n) [
      | yes e ↦ elim (ℕ_discrete q n) [
        | yes e' ↦ e ∙ sym e'
        | no ne' ↦ absurd (true≢false (sym (mine m e h) ∙ (apart q ne' (theirs q ne' h')).0))
      ]
      | no ne ↦ elim (ℕ_discrete q n) [
        | yes e' ↦ absurd (true≢false (sym (mine q e' h') ∙ (apart m ne (theirs m ne h)).0))
        | no ne' ↦ ok.alone m q (theirs m ne h) (theirs q ne' h')
      ]
    ];
  }
    where
      mine : (m : ℕ) → m ≡ n → in_section (update s.cpus n c m).at ≡ true → in_section c.at ≡ true
      mine m e h =
          ap (λ z. in_section z.at) (sym here)
          ∙ ap (λ z. in_section (update s.cpus n c z).at) (sym e)
          ∙ h

      theirs :
          (m : ℕ)
          → m ≢ n
          → in_section (update s.cpus n c m).at ≡ true
          → in_section (s.cpus m).at ≡ true
      theirs m ne h = ap (λ z. in_section z.at) (sym (there m ne)) ∙ h

module _ (flags : ℕ → Bool) (s : System) (n : ℕ) (ok : IsExclusive flags s) where
  Keeps : Option System → Type 0
  Keeps o = (s' : System) × (o ≡ some s') × IsExclusive flags s'

  fit_at : (w : Where) → (s.cpus n).at ≡ w → Fits (flags n) w (s.cpus n)
  fit_at w h = subst (λ z. Fits (flags n) z (s.cpus n)) h (ok.fits n)

  -- No other CPU is in the section when this one is.
  no_other : (m : ℕ) → in_section (s.cpus n).at ≡ true → m ≢ n → in_section (s.cpus m).at ≡ true → ⊥
  no_other m mine ne theirs = ne (ok.alone m n theirs mine)

  not_owner : (w : Where) → (s.cpus n).at ≡ w → (w ≡ Where.inside → ⊥) → s.lock.cpu ≡ some n → ⊥
  not_owner w h ne e = ne (sym h ∙ ok.owner n e)

  is_cpu-true : (o : Option ℕ) → is_cpu o n ≡ true → o ≡ some n
  is_cpu-true none h = cc
  is_cpu-true (some m) h = ap some ((==_iff m n).0 h)

  mine : (w : Where) → (s.cpus n).at ≡ w → in_section w ≡ true → in_section (s.cpus n).at ≡ true
  mine w h i = ap in_section h ∙ i

  advances : (w : Where) → (s.cpus n).at ≡ w → Keeps (advance_at w n (s.cpus n) s)
  unfolding Keeps
  advances Where.outside h =
      let fit = fit_at Where.outside h in
      elim (Bool-cases (holding s.lock n)) [
        | inl e ↦
            absurd (not_owner Where.outside h (λ q. cc) (is_cpu-true s.lock.cpu (ground arith)))
        | inr e ↦ (
          with_cpu n (record (pushcli (s.cpus n)) { at = Where.spinning }) s.lock s,
          rw e refl,
          with_cpu-IsExclusive flags s n _ s.lock ok
              (refl, omega (arith, fit), rw ((==_iff (s.cpus n).ncli 0).1 fit.1) fit.0) (λ q. cc)
              (λ m ne q. q) (λ q. absurd (not_owner Where.outside h (λ z. cc) q)) (λ m ne q. q)
              (λ q. cc) (λ m ne q. (refl, ok.locked m q)),
        )
      ]
  advances Where.spinning h = elim (Bool-cases s.lock.locked) [
    | inl e ↦ (s, rw e refl, ok)
    | inr e ↦ (
      with_cpu n (record (s.cpus n) { at = Where.taken }) (record s.lock { locked = true }) s,
      rw e refl,
      with_cpu-IsExclusive flags s n _ _ ok (fit_at Where.spinning h) (λ q. cc) (λ m ne q. q)
          (λ q. absurd (not_owner Where.spinning h (λ z. cc) q)) (λ m ne q. q) (λ q. refl)
          (λ m ne q. absurd (true≢false (sym (ok.locked m q) ∙ e))),
    )
  ]
  advances Where.taken h =
      let i = mine Where.taken h refl in
      (
        _,
        refl,
        with_cpu-IsExclusive flags s n _ _ ok (fit_at Where.taken h) (λ q. refl)
            (λ m ne q. absurd (no_other m i ne (ap in_section (ok.owner m q)))) (λ q. refl)
            (λ m ne q. absurd (ne (sym (some_eq q)))) (λ q. ok.locked n i)
            (λ m ne q. absurd (no_other m i ne q)),
      )
  advances Where.inside h =
      let i = mine Where.inside h refl in
      let own = ok.owned n h in
      (
        with_cpu n (record (s.cpus n) { at = Where.leaving }) (record s.lock { cpu = none }) s,
        rw (ok.locked n i, own, (==_iff n n).1 refl) refl,
        with_cpu-IsExclusive flags s n _ _ ok (fit_at Where.inside h) (λ q. cc)
            (λ m ne q. absurd (ne (sym (some_eq (sym own ∙ q))))) (λ q. cc) (λ m ne q. cc)
            (λ q. ok.locked n i) (λ m ne q. absurd (no_other m i ne q)),
      )
  advances Where.leaving h =
      let i = mine Where.leaving h refl in
      (
        _,
        refl,
        with_cpu-IsExclusive flags s n _ _ ok (fit_at Where.leaving h) (λ q. cc) (λ m ne q. q)
            (λ q. absurd (not_owner Where.leaving h (λ z. cc) q)) (λ m ne q. q) (λ q. cc)
            (λ m ne q. absurd (no_other m i ne q)),
      )
  advances Where.freed h =
      let (off, one, before) = fit_at Where.freed h in
      let c' : Cpu = record (s.cpus n) {
        ncli = (s.cpus n).ncli - 1;
        flag = (s.cpus n).ncli - 1 == 0 && (s.cpus n).intena;
        at = Where.outside;
      } in
      (
        with_cpu n c' s.lock s,
        simp (off, one) refl,
        with_cpu-IsExclusive flags s n c' s.lock ok (rw one before, omega (arith, one)) (λ q. cc)
            (λ m ne q. q) (λ q. absurd (not_owner Where.freed h (λ z. cc) q)) (λ m ne q. q)
            (λ q. cc) (λ m ne q. (refl, ok.locked m q)),
      )

initlock-IsExclusive : (flags : ℕ → Bool) → IsExclusive flags (initlock flags)
initlock-IsExclusive flags = record {
  fits = λ n. (refl, refl);
  owned = λ n h. cc;
  owner = λ n h. cc;
  locked = λ n h. cc;
  alone = λ n m h. cc;
}

advance-IsExclusive :
    (flags : ℕ → Bool) (n : ℕ) (s : System)
    → IsExclusive flags s
    → (s' : System) × (advance n s ≡ some s') × IsExclusive flags s'
unfolding advance Keeps
advance-IsExclusive flags n s ok = advances flags s n ok (s.cpus n).at refl

run_cpus-IsExclusive :
    (flags : ℕ → Bool) (order : List ℕ) (s : System)
    → IsExclusive flags s
    → (s' : System) × (run_cpus order s ≡ some s') × IsExclusive flags s'
unfolding run_cpus
run_cpus-IsExclusive flags [] s ok = (s, refl, ok)
run_cpus-IsExclusive flags (n ∷ order) s ok =
    let (s1, e, ok1) = advance-IsExclusive flags n s ok in
    let (s', e', ok') = run_cpus-IsExclusive flags order s1 ok1 in (s', rw (e, run_cpus) e', ok')

-- Whatever order the CPUs advance in, from a free lock, `acquire` and `release` do not panic; at most
-- one CPU is past its `xchg` and has not cleared `locked`; it holds the lock between `acquire` and
-- `release`; and interrupts are off on a CPU from its `pushcli` to its `popcli`, and outside as at
-- the start.
pub run_cpus_lem :
    (flags : ℕ → Bool) (order : List ℕ)
    → (s : System) × (run_cpus order (initlock flags) ≡ some s) × IsExclusive flags s
run_cpus_lem flags order =
    run_cpus-IsExclusive flags order (initlock flags) (initlock-IsExclusive flags)
