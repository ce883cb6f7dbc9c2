-- ===== src/Proc/Life/Leaving.antt =====
-- What a whole `exit` or `thread_exit` does to the table.
use ele3021_operating_system.Base.{
  ℕ, ◌≡◌, refl, sym, ◌∙◌, inl, inr, true, List, [], ◌∷◌, none, some, get_elem?, arith, Bool-cases,
  Option-cases, length, ◌==◌, ◌++◌,
}
use ele3021_operating_system.Base.Find.{modify}
use ele3021_operating_system.Base.Loops.{sweep, sweep_upto, try_sweep, try_sweep_upto}
use ele3021_operating_system.Base.Int.{pos, ◌-ℤ◌, is_zero}
use ele3021_operating_system.Proc.{
  Proc, null, of_proc, zombie, is_zombie, same_mode, strd_set_sched, same_parent,
}
use ele3021_operating_system.Proc.Table.{Kernel, iput, wakeup1, set_state}
use ele3021_operating_system.Proc.Life.{close_files, no_files}
use ele3021_operating_system.Proc.Life.Exit.{
  Exit, panics, sleeps, gone, set_killed, end_thread, adopt_one, parent_chan, wake_parent,
  return_share, leave, exit_round, exit, thread_exit,
}
use ele3021_operating_system.Proc.Life.Quiet.{
  runs, Quiet, Quiet-refl, Quiet-trans, Evolves-same, Evolve, Evolve-modify, Evolve-trans,
  Evolve-Quiet, Quiet-elsewhere, Quiet-modify, wakeup1-Evolve, Evolve-refl,
}
use ele3021_operating_system.Proc.Life.Ends.{Left, Quiet-Left, stop-Left, end_thread-Quiet}

adopt_one-Evolve : (c init i : ℕ) (ps : List Proc) → Evolve ps (adopt_one c init i ps)
unfolding adopt_one
adopt_one-Evolve c init i ps = elim (Option-cases (get_elem? ps i)) [
  | inl e ↦ rw (e, adopt_one) (Evolve-refl ps)
  | inr (p, e) ↦ elim (Bool-cases (same_parent p.parent (some c))) [
    | inr f ↦ rw (e, f, adopt_one) (Evolve-refl ps)
    | inl f ↦
        let given = modify i (λ q. record q { parent = some init }) ps in
        let ev : Evolve ps given =
          Evolve-modify (λ q. record q { parent = some init }) i ps
            (λ q at. Evolves-same q (record q { parent = some init }) refl refl) in
        elim (Bool-cases (is_zombie p.state)) [
          | inl g ↦
              rw (e, f, g, adopt_one)
                (Evolve-trans ps given (wakeup1 (of_proc init) given) ev
                  (wakeup1-Evolve (of_proc init) given))
          | inr g ↦ rw (e, f, g, adopt_one) ev
        ]
  ]
]

pub adopt-Evolve : (c init n : ℕ) (ps : List Proc) → Evolve ps (sweep (adopt_one c init) n ps)
adopt-Evolve c init n ps =
    sweep_upto (adopt_one c init) (λ m. Evolve ps)
      (λ m s h. Evolve-trans ps s (adopt_one c init m s) h (adopt_one-Evolve c init m s)) ps
      (Evolve-refl ps) n

wake_parent-Evolve : (cur : Proc) (ps : List Proc) → Evolve ps (wake_parent cur ps)
wake_parent-Evolve cur ps = elim (Option-cases cur.parent) [
  | inr (i, e) ↦ rw (e, wake_parent) (wakeup1-Evolve (of_proc i) ps)
  | inl e ↦ elim (Bool-cases (cur.lwpid == 0)) [
    | inl f ↦ rw (e, f, wake_parent) (wakeup1-Evolve null ps)
    | inr f ↦ rw (e, f, wake_parent) (Evolve-refl ps)
  ]
]

abbrev let_go : Proc → Proc
let_go p = record p { ofile = no_files p.ofile; cwd = none }

-- What an end leaves: `c` runs no more, or it waits for its threads; a panic is no step.
abbrev pub Exits : ℕ → Kernel → Exit → Type 0
Exits c k panics = Unit
Exits c k (sleeps k') = Quiet k k'
Exits c k (gone k') = Left c k k'

Exits-trans : (c : ℕ) (a b : Kernel) (e : Exit) → Quiet a b → Exits c b e → Exits c a e
Exits-trans c a b panics q h = tt
Exits-trans c a b (sleeps k') q h = Quiet-trans q h
Exits-trans c a b (gone k') q h = Quiet-Left q h

return_share_same : (cur : Proc) (k : Kernel) → (return_share cur k).procs ≡ k.procs
return_share_same cur k = elim (Bool-cases (same_mode cur.mode strd_set_sched)) [
  | inl e ↦ rw e refl
  | inr e ↦ rw e refl
]

return_share_next : (cur : Proc) (k : Kernel) → (return_share cur k).nextpid ≡ k.nextpid
return_share_next cur k = elim (Bool-cases (same_mode cur.mode strd_set_sched)) [
  | inl e ↦ rw e refl
  | inr e ↦ rw e refl
]

leave-Exits :
    (c : ℕ) (cur : Proc) (k : Kernel)
    → runs (get_elem? k.procs c) ≡ true
    → Exits c k (leave c cur k)
unfolding leave
leave-Exits c cur k on = elim (Option-cases (close_files cur.ofile k.files)) [
  | inl e ↦ rw (e, leave) tt
  | inr (r, e) ↦
      let k1 : Kernel = record k {
        files = r.1;
        calls = k.calls ++ (r.0 ++ (iput cur.cwd ∷ []));
        procs = wake_parent cur (modify c let_go k.procs);
      } in
      let k2 = return_share cur k1 in
      let k3 : Kernel = record k2 {
        procs = sweep (adopt_one c k2.initproc) (length k2.procs) k2.procs;
      } in
      let q1 : Quiet k k1 = Evolve-Quiet k k1 (omega arith) (
        Evolve-trans k.procs (modify c let_go k.procs) k1.procs
          (Evolve-modify let_go c k.procs (λ p at. Evolves-same p (let_go p) refl refl))
          (wake_parent-Evolve cur (modify c let_go k.procs))) in
      let q2 : Quiet k1 k2 =
        Quiet-elsewhere k1 k2 (sym (return_share_next cur k1)) (sym (return_share_same cur k1)) in
      let q3 : Quiet k2 k3 =
        Evolve-Quiet k2 k3 (omega arith) (adopt-Evolve c k2.initproc (length k2.procs) k2.procs) in
      let q = Quiet-trans q1 (Quiet-trans q2 q3) in
      rw (e, leave)
        (Quiet-Left q (
          stop-Left c (set_state zombie) k3
            (record k3 { procs = modify c (set_state zombie) k3.procs }) (q.calm c ∙ on) refl refl
            (λ p. refl) (λ p. refl)))
]

end_threads-Quiet :
    (pid n : ℕ) (k k' : Kernel) → try_sweep (end_thread pid) n k ≡ some k' → Quiet k k'
end_threads-Quiet pid n k k' h =
    try_sweep_upto (end_thread pid) (λ m. Quiet k)
      (λ m s s' q e. Quiet-trans q (end_thread-Quiet pid m s s' e)) n k k' (Quiet-refl k) h

pub exit_round-Exits :
    (c : ℕ) (cur : Proc) (k : Kernel)
    → runs (get_elem? k.procs c) ≡ true
    → Exits c k (exit_round c cur k)
unfolding exit_round
exit_round-Exits c cur k on =
    elim (Option-cases (try_sweep (end_thread cur.pid) (length k.procs) k)) [
      | inl e ↦ rw (e, exit_round) tt
      | inr (k1, e) ↦
          let q = end_threads-Quiet cur.pid (length k.procs) k k1 e in
          elim (Bool-cases (is_zero k1.num_lwp)) [
            | inr f ↦ rw (e, f, exit_round) q
            | inl f ↦
                rw (e, f, exit_round)
                  (Exits-trans c k k1 (leave c cur k1) q (leave-Exits c cur k1 (q.calm c ∙ on)))
          ]
    ]

kill-Quiet : (m : ℕ) (k : Kernel) → Quiet k (record k { procs = modify m set_killed k.procs })
kill-Quiet m k =
    Quiet-modify k _ m set_killed refl refl (λ p at. Evolves-same p (set_killed p) refl refl)

pub exit-Exits :
    (c : ℕ) (cur : Proc) (k : Kernel) → runs (get_elem? k.procs c) ≡ true → Exits c k (exit c cur k)
unfolding exit
exit-Exits c cur k on = elim (Bool-cases (c == k.initproc)) [
  | inl e ↦ rw e tt
  | inr e ↦ elim (Bool-cases (cur.lwpid == 0)) [
    | inl f ↦
        let k1 : Kernel = record k { procs = modify c set_killed k.procs } in
        let q : Quiet k k1 = kill-Quiet c k in
        rw (e, f)
          (Exits-trans c k k1 (exit_round c cur k1) q (exit_round-Exits c cur k1 (q.calm c ∙ on)))
    | inr f ↦ elim (Bool-cases cur.forked) [
      | inl g ↦ simp (e, f, g) (leave-Exits c cur k on)
      | inr g ↦ elim (Option-cases cur.parent) [
        | inl h ↦ simp (e, f, g, h) tt
        | inr (m, h) ↦
            let k1 : Kernel = record k { procs = modify m set_killed k.procs } in
            let q : Quiet k k1 = kill-Quiet m k in
            simp (e, f, g, h)
              (Exits-trans c k k1 (leave c cur k1) q (leave-Exits c cur k1 (q.calm c ∙ on)))
      ]
    ]
  ]
]

pub thread_exit-Exits :
    (c : ℕ) (cur : Proc) (retval : ℕ) (k : Kernel)
    → runs (get_elem? k.procs c) ≡ true
    → Exits c k (thread_exit c cur retval k)
unfolding thread_exit
thread_exit-Exits c cur retval k on = elim (Bool-cases (c == k.initproc)) [
  | inl e ↦ rw (e, thread_exit) tt
  | inr e ↦ elim (Option-cases (close_files cur.ofile k.files)) [
    | inl f ↦ rw (e, f, thread_exit) tt
    | inr (r, f) ↦
        let g = λ (p : Proc).
          (let z : Proc = record p { ofile = no_files p.ofile; cwd = none; retval = retval } in
            z) in
        let k1 : Kernel = record k {
          files = r.1;
          calls = k.calls ++ (r.0 ++ (iput cur.cwd ∷ []));
          num_lwp = k.num_lwp -ℤ pos 1;
          procs = wakeup1 (parent_chan cur) (modify c g k.procs);
        } in
        let q : Quiet k k1 = Evolve-Quiet k k1 (omega arith) (
          Evolve-trans k.procs (modify c g k.procs) k1.procs
            (Evolve-modify g c k.procs (λ p at. Evolves-same p (g p) refl refl))
            (wakeup1-Evolve (parent_chan cur) (modify c g k.procs))) in
        rw (e, f, thread_exit)
          (Quiet-Left q (
            stop-Left c (set_state zombie) k1
              (record k1 { procs = modify c (set_state zombie) k1.procs }) (q.calm c ∙ on) refl refl
              (λ p. refl) (λ p. refl)))
  ]
]
