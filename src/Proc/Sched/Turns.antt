-- ===== src/Proc/Sched/Turns.antt =====
-- The turns of one CPU's scheduler: a RUNNABLE process is not passed over for ever.
use ele3021_operating_system.Base.{
  ℕ, zero, suc, ◌+◌, ◌-◌, ◌≤◌, ◌<◌, ◌≡◌, refl, sym, ap, subst, ◌∙◌, ◌⊎◌, inl, inr, true, false,
  Option, none, some, get_elem?, arith, some_eq, Bool-cases, Option-cases, ltb, if◌then◌else◌,
  length, get_elem?-lt, ltb→lt, lt→ltb, ℕ_discrete,
}
use ele3021_operating_system.Base.Find.{find_from, find_from-some, find_from-none}
use ele3021_operating_system.Proc.{switchuvm, Proc, is_runnable}
use ele3021_operating_system.Proc.Table.{Kernel}
use ele3021_operating_system.Proc.Sched.{Cpu, scheduler}

-- What the scheduler of a CPU finds and decides, turn after turn: each turn goes on in the table where
-- the one before has stopped. Between the turns, the kernel may change.
pub record Turns (cpus : ℕ → Cpu) (kernels : ℕ → Kernel) : Type 0 where
  pub decides :
      (t : ℕ)
      → (cpu : Cpu) × (k : Kernel) × (scheduler (cpus t) (kernels t) ≡ some (cpu, k))
        × ((cpus (t + 1)).next ≡ cpu.next)

-- The process `i` is RUNNABLE.
abbrev pub CanRun : ℕ → Kernel → Type 0
CanRun i k = (p : Proc) × (get_elem? k.procs i ≡ some p) × (is_runnable p.state ≡ true)

-- The CPU's next turn takes the process `i`.
abbrev pub Takes : ℕ → Cpu → Kernel → Type 0
Takes i cpu k =
    (cpu' : Cpu) × (k' : Kernel) × (scheduler cpu k ≡ some (cpu', k')) × (cpu'.proc ≡ some i)

-- How many turns may pass at most before that of the process `i`.
abbrev waiting : ℕ → ℕ → ℕ → ℕ
waiting i size next = if ltb i next then (size - next) + (i + 1) else i - next

module _ (i size : ℕ) where
  waiting_before : (next : ℕ) → next ≤ i → waiting i size next ≡ i - next
  waiting_before next le = elim (Bool-cases (ltb i next)) [
    | inl e ↦ absurd (omega (arith, ltb→lt i next e))
    | inr e ↦ rw e refl
  ]

  waiting_after : (next : ℕ) → i < next → waiting i size next ≡ (size - next) + (i + 1)
  waiting_after next lt = rw (lt→ltb i next lt) refl

  -- A turn takes the process or brings its turn nearer.
  nearer :
      (cpu cpu' : Cpu) (k k' : Kernel)
      → CanRun i k
      → length k.procs ≤ size
      → scheduler cpu k ≡ some (cpu', k')
      → (cpu'.proc ≡ some i) ⊎ (waiting i size cpu'.next < waiting i size cpu.next)
  unfolding scheduler
  nearer cpu cpu' k k' (p, at, can) bound h =
      elim (Option-cases (find_from cpu.next (λ p. is_runnable p.state) k.procs)) [
        | inl e ↦
            let z : 0 ≡ cpu'.next = ap (λ r. r.0.next) (some_eq (rw (e, scheduler) at h)) in
            inr (elim (Bool-cases (ltb i cpu.next)) [
              | inr f ↦ absurd (
                  no_more (
                    sym (
                      find_from-none (λ p. is_runnable p.state) cpu.next k.procs e i p
                        (ground arith) at)
                    ∙ can))
              | inl f ↦ omega (
                arith,
                waiting_after cpu.next (ltb→lt i cpu.next f),
                waiting_before cpu'.next (omega arith),
              )
            ])
        | inr (j, e) ↦
            let (le, (q, here, runs), before) =
              find_from-some (λ p. is_runnable p.state) cpu.next k.procs j e in
            elim (Bool-cases (switchuvm q)) [
              | inr f ↦ absurd (nothing (rw (e, here, f, scheduler) at h))
              | inl f ↦
                  let z = some_eq (rw (e, here, f, scheduler) at h) in
                  let on : some j ≡ cpu'.proc = ap (λ r. r.0.proc) z in
                  let next : j + 1 ≡ cpu'.next = ap (λ r. r.0.next) z in
                  elim (ℕ_discrete j i) [
                    | yes same ↦ inl (sym on ∙ ap some same)
                    | no ne ↦ inr (elim (Bool-cases (ltb i cpu.next)) [
                      | inl g ↦
                          let lt = ltb→lt i cpu.next g in
                          omega (
                            arith,
                            waiting_after cpu.next lt,
                            waiting_after cpu'.next (omega arith),
                            get_elem?-lt k.procs j q here,
                          )
                      | inr g ↦
                          let lt : j < i = elim (Bool-cases (ltb i j)) [
                            | inl past ↦ absurd (
                                no_more
                                  (sym (before i p (ground arith) (ltb→lt i j past) at) ∙ can))
                            | inr f' ↦ ground arith
                          ] in
                          omega (
                            arith,
                            waiting_before cpu.next (ground arith),
                            waiting_before cpu'.next (omega arith),
                          )
                    ])
                  ]
            ]
      ]
    where
      no_more : false ≡ true → ⊥
      no_more q = cc

      nothing : ◌≡◌ {A = Option (Cpu × Kernel)} none (some (cpu', k')) → ⊥
      nothing q = cc

  one_turn :
      {cpus : ℕ → Cpu} {kernels : ℕ → Kernel}
      → Turns cpus kernels
      → ((t : ℕ) → CanRun i (kernels t))
      → ((t : ℕ) → length (kernels t).procs ≤ size)
      → (t : ℕ)
      → Takes i (cpus t) (kernels t)
        ⊎ (waiting i size (cpus (t + 1)).next < waiting i size (cpus t).next)
  one_turn {cpus} {kernels} turns can bound t =
      let (cpu', k', h, next) = turns.decides t in
      elim (nearer (cpus t) cpu' (kernels t) k' (can t) (bound t) h) [
        | inl now ↦ inl (cpu', k', h, now)
        | inr near ↦
            inr (subst (λ n. waiting i size n < waiting i size (cpus t).next) (sym next) near)
      ]

  turn_in :
      {cpus : ℕ → Cpu} {kernels : ℕ → Kernel}
      → Turns cpus kernels
      → ((t : ℕ) → CanRun i (kernels t))
      → ((t : ℕ) → length (kernels t).procs ≤ size)
      → (m t : ℕ) → waiting i size (cpus t).next ≤ m
      → (u : ℕ) × (u ≤ t + m) × Takes i (cpus u) (kernels u)
  turn_in turns can bound zero t le = elim (one_turn turns can bound t) [
    | inl now ↦ (t, omega arith, now)
    | inr near ↦ absurd (omega arith)
  ]
  turn_in turns can bound (suc m) t le = elim (one_turn turns can bound t) [
    | inl now ↦ (t, omega arith, now)
    | inr near ↦
        let (u, small, takes) = turn_in turns can bound m (t + 1) (omega arith) in
        (u, omega arith, takes)
  ]

-- In the turns of a CPU's scheduler, if at each of them the process `i` is RUNNABLE, the table has at
-- most `size` entries, and `switchuvm` does not panic: one of the first `size + 1` turns takes it.
pub turn_comes :
    {cpus : ℕ → Cpu} {kernels : ℕ → Kernel} (i size : ℕ)
    → Turns cpus kernels
    → ((t : ℕ) → CanRun i (kernels t))
    → ((t : ℕ) → length (kernels t).procs ≤ size)
    → (t : ℕ) × (t ≤ size) × Takes i (cpus t) (kernels t)
turn_comes {cpus} {kernels} i size turns can bound =
    let (p, at, run) = can 0 in
    let (d, le, takes) =
      turn_in i size turns can bound (waiting i size (cpus 0).next) 0 (omega arith) in
    (
      d,
      omega (
        arith,
        waiting_bound (cpus 0).next (omega (arith, bound 0, get_elem?-lt (kernels 0).procs i p at)),
      ),
      takes,
    )
  where
    waiting_bound : (next : ℕ) → i < size → waiting i size next ≤ size
    waiting_bound next lt = ground arith
