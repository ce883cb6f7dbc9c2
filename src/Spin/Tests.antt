-- ===== src/Spin/Tests.antt =====
-- Two CPUs, with interrupts on and off, that contend for the lock.
use ele3021_operating_system.Base.{◌≡◌, ◌==◌, [], ◌∷◌, some}
use ele3021_operating_system.Spin.{System, run_cpus, initlock}
use ele3021_operating_system.Spin.Exclusion.{IsExclusive, run_cpus_lem}

run_cpus_lem_example :
    (s : System) × (run_cpus (0 ∷ 1 ∷ 1 ∷ 0 ∷ 1 ∷ 1 ∷ 1 ∷ 0 ∷ []) (initlock (λ n. n == 0)) ≡ some s)
    × IsExclusive (λ n. n == 0) s
run_cpus_lem_example = run_cpus_lem (λ n. n == 0) (0 ∷ 1 ∷ 1 ∷ 0 ∷ 1 ∷ 1 ∷ 1 ∷ 0 ∷ [])
