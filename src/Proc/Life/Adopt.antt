-- ===== src/Proc/Life/Adopt.antt =====
-- The loop of `exit` that passes children to init.
use ele3021_operating_system.Base.{
  ℕ, zero, suc, ◌<◌, ◌≡◌, ◌≢◌, refl, sym, ap, subst, ◌∙◌, inl, inr, true, false, List, [], ◌∷◌,
  Option, none, some, get_elem?, arith, some_eq, ℕ_discrete, Bool-cases, Option-cases, length,
  get_elem?-lt, ==_iff, ◌&&◌,
}
use ele3021_operating_system.Base.Find.{modify, get_elem?-modify_ne, get_elem?-modify_before}
use ele3021_operating_system.Base.Loops.{sweep, sweep_upto}
use ele3021_operating_system.Proc.{
  Proc, Chan, of_proc, is_zombie, same_parent, is_sleeping, same_chan,
}
use ele3021_operating_system.Proc.Table.{wakeup1, wake}
use ele3021_operating_system.Proc.Life.Exit.{adopt_one}
use ele3021_operating_system.Proc.Life.Quiet.{EvolvesAt}
use ele3021_operating_system.Proc.Life.Leaving.{adopt-Evolve}

same_parent-true : (c : ℕ) (o : Option ℕ) → same_parent o (some c) ≡ true → o ≡ some c
same_parent-true c none h = cc
same_parent-true c (some i) h = ap some ((==_iff i c).0 h)

same_parent-false : (c : ℕ) (o : Option ℕ) → same_parent o (some c) ≡ false → o ≢ some c
same_parent-false c none h e = cc
same_parent-false c (some i) h e = ground arith

wake_parent_same : (chan : Chan) (p : Proc) → (wake chan p).parent ≡ p.parent
wake_parent_same chan p = elim (Bool-cases (is_sleeping p.state && same_chan p.chan chan)) [
  | inl e ↦ rw e refl
  | inr e ↦ rw e refl
]

-- An entry that was woken, or not, has its parent from before.
wakeup1-parent :
    (chan : Chan) (ps : List Proc) (j : ℕ) (q : Proc)
    → get_elem? (wakeup1 chan ps) j ≡ some q
    → (p : Proc) × (get_elem? ps j ≡ some p) × (q.parent ≡ p.parent)
unfolding wakeup1
wakeup1-parent chan [] j q h = cc
wakeup1-parent chan (p ∷ ps) zero q h =
    (p, refl, ap (λ z. z.parent) (sym (some_eq h)) ∙ wake_parent_same chan p)
wakeup1-parent chan (p ∷ ps) (suc j) q h = wakeup1-parent chan ps j q h

module _ (c init : ℕ) where
  -- Of the first `n` entries, none is a child of `c`.
  abbrev NoChild : ℕ → List Proc → Type 0
  NoChild n ps = (j : ℕ) (p : Proc) → j < n → get_elem? ps j ≡ some p → p.parent ≢ some c

  abbrev given : ℕ → List Proc → List Proc
  given i ps = modify i (λ q. record q { parent = some init }) ps

  given-NoChild : (i : ℕ) (ps : List Proc) → c ≢ init → NoChild i ps → NoChild (suc i) (given i ps)
  given-NoChild i ps ne h j p lt at e = elim (ℕ_discrete i j) [
    | no other ↦ h j p (ground arith) (sym (get_elem?-modify_ne _ i j ps other) ∙ at) e
    | yes same ↦
        let (q, here, z) =
          get_elem?-modify_before (λ q. record q { parent = some init }) i ps p
            (ap (get_elem? (given i ps)) same ∙ at) in
        ne (some_eq (sym e ∙ ap (λ y. y.parent) (sym z)))
  ]

  adopt_one-NoChild :
      (i : ℕ) (ps : List Proc) → c ≢ init → NoChild i ps → NoChild (suc i) (adopt_one c init i ps)
  unfolding adopt_one
  adopt_one-NoChild i ps ne h = elim (Option-cases (get_elem? ps i)) [
    | inl e ↦
        rw (e, adopt_one)
          (λ j p lt at. elim (ℕ_discrete i j) [
            | yes same ↦ absurd (nothing (sym e ∙ ap (get_elem? ps) same ∙ at))
            | no other ↦ h j p (ground arith) at
          ])
    | inr (p0, e) ↦ elim (Bool-cases (same_parent p0.parent (some c))) [
      | inr f ↦
          rw (e, f, adopt_one)
            (λ j p lt at. elim (ℕ_discrete i j) [
              | yes same ↦
                  let z : p0 ≡ p = some_eq (sym e ∙ ap (get_elem? ps) same ∙ at) in
                  subst (λ y. y.parent ≢ some c) z (same_parent-false c p0.parent f)
              | no other ↦ h j p (ground arith) at
            ])
      | inl f ↦ elim (Bool-cases (is_zombie p0.state)) [
        | inr g ↦ rw (e, f, g, adopt_one) (given-NoChild i ps ne h)
        | inl g ↦
            rw (e, f, g, adopt_one)
              (λ j p lt at eq.
                let (q, here, same) = wakeup1-parent (of_proc init) (given i ps) j p at in
                given-NoChild i ps ne h j q lt here (sym same ∙ eq))
      ]
    ]
  ]
    where
      nothing : {p : Proc} → ◌≡◌ {A = Option Proc} none (some p) → ⊥
      nothing q = cc

  abbrev adopted : List Proc → List Proc
  adopted ps = sweep (adopt_one c init) (length ps) ps

  adopted-NoChild : (ps : List Proc) → c ≢ init → NoChild (length ps) (adopted ps)
  adopted-NoChild ps ne =
      sweep_upto (adopt_one c init) NoChild (λ i s h. adopt_one-NoChild i s ne h) ps
        (λ j p lt. absurd (omega arith)) (length ps)

EvolvesAt-was : (o : Option Proc) (q : Proc) → EvolvesAt o (some q) → (p : Proc) × (o ≡ some p)
EvolvesAt-was none q h = absurd h
EvolvesAt-was (some p) q h = (p, refl)

pub adopted-orphans :
    (c init : ℕ) (ps : List Proc) (j : ℕ) (q : Proc)
    → c ≢ init
    → get_elem? (sweep (adopt_one c init) (length ps) ps) j ≡ some q
    → q.parent ≢ some c
adopted-orphans c init ps j q ne at =
    let (p, was) =
      EvolvesAt-was (get_elem? ps j) q
        (subst (EvolvesAt (get_elem? ps j)) at (adopt-Evolve c init (length ps) ps j)) in
    adopted-NoChild c init ps ne j q (omega (arith, get_elem?-lt ps j p was)) at
