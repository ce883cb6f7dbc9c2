-- ===== src/Proc/Life/Quiet.antt =====
-- Steps that keep the pids apart and take no process on or off a CPU.
use ele3021_operating_system.Base.{
  ℕ, zero, suc, ◌≤◌, ◌≡◌, refl, sym, ap, subst, ◌∙◌, Bool, false, List, [], ◌∷◌, Option, none, some,
  get_elem?, arith, map,
}
use ele3021_operating_system.Base.Find.{modify}
use ele3021_operating_system.Proc.{Proc, Chan, is_unused, is_running}
use ele3021_operating_system.Proc.Table.{Kernel, wakeup1, wake, kill_one}
use ele3021_operating_system.Proc.Table.Alloc.{KeepsPids}

abbrev pub runs : Option Proc → Bool
runs none = false
runs (some p) = is_running p.state

pub record Quiet (k k' : Kernel) : Type 0 where
  pub pids : KeepsPids k → KeepsPids k'
  pub calm : (j : ℕ) → runs (get_elem? k'.procs j) ≡ runs (get_elem? k.procs j)

pub Quiet-refl : (k : Kernel) → Quiet k k
Quiet-refl k = record { pids = λ h. h; calm = λ j. refl }

pub Quiet-trans : {a b c : Kernel} → Quiet a b → Quiet b c → Quiet a c
Quiet-trans p q = record { pids = λ h. q.pids (p.pids h); calm = λ j. q.calm j ∙ p.calm j }

-- What may become of an entry in such a step, if it gets no new pid.
pub record Evolves (p p' : Proc) : Type 0 where
  pub calm : is_running p'.state ≡ is_running p.state
  pub used : is_unused p'.state ≡ false → (is_unused p.state ≡ false) × (p'.pid ≡ p.pid)

abbrev pub EvolvesAt : Option Proc → Option Proc → Type 0
EvolvesAt none none = Unit
EvolvesAt (some p) (some p') = Evolves p p'
EvolvesAt _ _ = ⊥

abbrev pub Evolve : List Proc → List Proc → Type 0
Evolve ps ps' = (j : ℕ) → EvolvesAt (get_elem? ps j) (get_elem? ps' j)

pub Evolves-refl : (p : Proc) → Evolves p p
Evolves-refl p = record { calm = refl; used = λ h. (h, refl) }

pub EvolvesAt-refl : (o : Option Proc) → EvolvesAt o o
EvolvesAt-refl none = tt
EvolvesAt-refl (some p) = Evolves-refl p

-- An entry whose state and pid stay.
pub Evolves-same : (p p' : Proc) → p'.state ≡ p.state → p'.pid ≡ p.pid → Evolves p p'
Evolves-same p p' s n = record { calm = ap is_running s; used = λ h. (sym (ap is_unused s) ∙ h, n) }

pub Evolve-refl : (ps : List Proc) → Evolve ps ps
Evolve-refl ps j = EvolvesAt-refl (get_elem? ps j)

pub Evolve-modify :
    (f : Proc → Proc) (i : ℕ) (ps : List Proc)
    → ((p : Proc) → get_elem? ps i ≡ some p → Evolves p (f p))
    → Evolve ps (modify i f ps)
unfolding modify
Evolve-modify f i [] h j = tt
Evolve-modify f zero (p ∷ ps) h zero = h p refl
Evolve-modify f zero (p ∷ ps) h (suc j) = EvolvesAt-refl (get_elem? ps j)
Evolve-modify f (suc i) (p ∷ ps) h zero = Evolves-refl p
Evolve-modify f (suc i) (p ∷ ps) h (suc j) = Evolve-modify f i ps h j

pub Evolve-map :
    (f : Proc → Proc) → ((p : Proc) → Evolves p (f p)) → (ps : List Proc) → Evolve ps (map f ps)
Evolve-map f h [] j = tt
Evolve-map f h (p ∷ ps) zero = h p
Evolve-map f h (p ∷ ps) (suc j) = Evolve-map f h ps j

Evolves-trans : {p q r : Proc} → Evolves p q → Evolves q r → Evolves p r
Evolves-trans a b = record {
  calm = b.calm ∙ a.calm;
  used = λ h. let (u, e) = b.used h in let (v, f) = a.used u in (v, e ∙ f);
}

EvolvesAt-trans : (o p q : Option Proc) → EvolvesAt o p → EvolvesAt p q → EvolvesAt o q
EvolvesAt-trans none none none a b = tt
EvolvesAt-trans none none (some r) a b = b
EvolvesAt-trans none (some q) r a b = absurd a
EvolvesAt-trans (some p) none r a b = absurd a
EvolvesAt-trans (some p) (some q) none a b = b
EvolvesAt-trans (some p) (some q) (some r) a b = Evolves-trans a b

pub Evolve-trans : (a b c : List Proc) → Evolve a b → Evolve b c → Evolve a c
Evolve-trans a b c p q j =
    EvolvesAt-trans (get_elem? a j) (get_elem? b j) (get_elem? c j) (p j) (q j)

EvolvesAt-runs : (o o' : Option Proc) → EvolvesAt o o' → runs o' ≡ runs o
EvolvesAt-runs none none h = refl
EvolvesAt-runs none (some p) h = absurd h
EvolvesAt-runs (some p) none h = absurd h
EvolvesAt-runs (some p) (some p') h = h.calm

EvolvesAt-before :
    (o : Option Proc) (p' : Proc) → EvolvesAt o (some p') → (p : Proc) × (o ≡ some p) × Evolves p p'
EvolvesAt-before none p' h = absurd h
EvolvesAt-before (some p) p' h = (p, refl, h)

pub Evolve-Quiet : (k k' : Kernel) → k.nextpid ≤ k'.nextpid → Evolve k.procs k'.procs → Quiet k k'
Evolve-Quiet k k' le ev = record {
  calm = λ j. EvolvesAt-runs (get_elem? k.procs j) (get_elem? k'.procs j) (ev j);
  pids = λ keeps fits.
      let ok = keeps (omega arith) in
      record {
        below = λ i p' at u.
            let (p, e, r) = before i p' at in
            omega (arith, ok.below i p e (r.used u).0, (r.used u).1);
        distinct = λ i j p' q' at u at' v same.
            let (p, e, r) = before i p' at in
            let (q, f, s) = before j q' at' in
            ok.distinct i j p q e (r.used u).0 f (s.used v).0
              (omega (arith, (r.used u).1, (s.used v).1));
      };
}
  where
    before :
        (i : ℕ) (p' : Proc)
        → get_elem? k'.procs i ≡ some p'
        → (p : Proc) × (get_elem? k.procs i ≡ some p) × Evolves p p'
    before i p' at =
        EvolvesAt-before (get_elem? k.procs i) p'
          (subst (EvolvesAt (get_elem? k.procs i)) at (ev i))

wake-Evolves : (chan : Chan) (p : Proc) → Evolves p (wake chan p)
wake-Evolves chan p = record { calm = ground arith; used = λ h. ground arith }

pub wakeup1-Evolve : (chan : Chan) (ps : List Proc) → Evolve ps (wakeup1 chan ps)
unfolding wakeup1
wakeup1-Evolve chan ps = Evolve-map (wake chan) (wake-Evolves chan) ps

pub kill_one-Evolves : (p : Proc) → Evolves p (kill_one p)
kill_one-Evolves p = record { calm = ground arith; used = λ h. ground arith }

-- Steps that leave the process table alone.
pub Quiet-elsewhere : (k k' : Kernel) → k.nextpid ≡ k'.nextpid → k.procs ≡ k'.procs → Quiet k k'
Quiet-elsewhere k k' n e =
    Evolve-Quiet k k' (omega arith)
      (subst (Evolve k.procs) e (λ j. EvolvesAt-refl (get_elem? k.procs j)))

-- One entry changes, and perhaps other parts of the kernel.
pub Quiet-modify :
    (k k' : Kernel) (i : ℕ) (f : Proc → Proc)
    → k.nextpid ≡ k'.nextpid
    → k'.procs ≡ modify i f k.procs
    → ((p : Proc) → get_elem? k.procs i ≡ some p → Evolves p (f p))
    → Quiet k k'
Quiet-modify k k' i f n e h =
    Evolve-Quiet k k' (omega arith) (subst (Evolve k.procs) (sym e) (Evolve-modify f i k.procs h))
