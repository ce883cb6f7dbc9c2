-- ===== src/Fs/Trunc/Below.antt =====
-- `free_slot` and `free_indirect` free all that is below a place.
use ele3021_operating_system.Base.{
  ℕ, suc, ◌≤◌, ◌<◌, ◌≡◌, ◌≢◌, refl, sym, ap, subst, ◌∙◌, ◌⊎◌, inl, inr, ◌==◌, ==_iff, arith, Option,
  some, Bool-cases, ℕ_discrete,
}
use ele3021_operating_system.Base.Loops.{try_sweep, try_sweep_total}
use ele3021_operating_system.Fs.{Store, Place, in_inode, in_block, read, nindirect}
use ele3021_operating_system.Fs.Tree.{Live, depth, IsTree}
use ele3021_operating_system.Fs.Trunc.{free_slot, free_indirect}
use ele3021_operating_system.Fs.Trunc.Cut.{Cut, Cut-refl, Cut-same, Cut-trans}
use ele3021_operating_system.Fs.Trunc.Remove.{drop_block-Drops}
use ele3021_operating_system.Fs.Trunc.Drop.{InBlock, drop-Cut, leaf-Cut}

-- `free` frees all that is below a place of depth `d`, and does not panic.
abbrev pub Frees : ℕ → (Place → Store → Option Store) → Type 0
Frees d free =
    (level : ℕ → ℕ) (s : Store) (p : Place)
    → IsTree level s
    → Live level p
    → depth level p ≡ d
    → (s' : Store) × (free p s ≡ some s') × Cut level d (λ q. q ≡ p) s s'

pub free_slot-Frees : Frees 0 free_slot
unfolding free_slot
free_slot-Frees level s p ok lp flat = elim (Bool-cases (read p s == 0)) [
  | inl e ↦
      (s, rw (e, free_slot) refl, Cut-refl 0 ok (λ q h. ap (λ z. read z s) h ∙ (==_iff _ _).0 e))
  | inr e ↦
      let full : read p s ≢ 0 = λ z. ground (arith, z) in
      let (s', h, r) = drop_block-Drops level p s ok lp full in
      (s', rw (e, free_slot) h, leaf-Cut level p s s' ok lp full flat r)
]

in_block_eq : {b c i j : ℕ} → in_block b i ≡ in_block c j → (b ≡ c) × (i ≡ j)
in_block_eq h = (cc, cc)

module _ (inner : Place → Store → Option Store) (d : ℕ) (frees : Frees d inner) (level : ℕ → ℕ)
    (s : Store) (ok : IsTree level s) (b : ℕ) (deep : level b ≡ suc d) where
  -- The rounds over the block `b`.
  round-Cut :
      (m : ℕ) (t : Store)
      → m < 128
      → Cut level d (InBlock m b) s t
      → (t' : Store) × (inner (in_block b m) t ≡ some t') × Cut level d (InBlock (suc m) b) s t'
  round-Cut m t lt c =
      let same : c.level' b ≡ suc d = c.high b (omega arith) ∙ deep in
      let live : Live c.level' (in_block b m) = (lt, omega (arith, same)) in
      let (t', h, r) = frees c.level' t (in_block b m) c.tree live (omega (arith, same)) in
      (
        t',
        h,
        Cut-same to from (
            Cut-trans ok c (λ x j low q. outside x j low q) r (λ q e q'. elsewhere q e q')
              (λ q e.
                (subst (Live c.level') (sym e) live, omega (arith, deep, ap (depth level) e)))),
      )
    where
      outside : (x j : ℕ) → level x ≤ d → InBlock m b (in_block x j) → ⊥
      outside x j low (i, small, e) = omega (arith, deep, ap level (in_block_eq e).0)

      elsewhere : (q : Place) → q ≡ in_block b m → InBlock m b q → ⊥
      elsewhere q e (i, small, e') = omega (arith, (in_block_eq (sym e ∙ e')).1)

      to : (q : Place) → (InBlock m b q ⊎ (q ≡ in_block b m)) → InBlock (suc m) b q
      to q (inl (i, small, e)) = (i, omega arith, e)
      to q (inr e) = (m, omega arith, e)

      from : (q : Place) → InBlock (suc m) b q → InBlock m b q ⊎ (q ≡ in_block b m)
      from q (i, small, e) = elim (ℕ_discrete i m) [
        | yes z ↦ inr (e ∙ ap (in_block b) z)
        | no ne ↦ inl (i, omega arith, e)
      ]

  pub sweep-Cut :
      (t : Store) × (try_sweep (λ j. inner (in_block b j)) nindirect s ≡ some t)
      × Cut level d (InBlock 128 b) s t
  sweep-Cut =
      try_sweep_total (λ j. inner (in_block b j)) (λ m. Cut level d (InBlock m b) s) 128 round-Cut s
        (Cut-refl d ok (λ q h. absurd (omega (arith, h.1)))) 128 (omega arith)

-- A place one level above those that were cut.
above :
    (level level' : ℕ → ℕ) (d b : ℕ) (p : Place)
    → Live level p
    → depth level p ≡ suc d
    → level b ≡ suc d
    → ((c : ℕ) → d < level c → level' c ≡ level c)
    → Live level' p × (InBlock 128 b p → ⊥)
above level level' d b (in_inode i) lp deep at high = (lp, λ h. absurd (apart h.2))
  where
    apart : {j : ℕ} → in_inode i ≡ in_block b j → ⊥
    apart e = cc
above level level' d b (in_block c i) lp deep at high = (
  (lp.0, omega (arith, lp.1, high c (omega (arith, deep)))),
  λ h. omega (arith, at, deep, ap level (in_block_eq h.2).0),
)

pub free_indirect-Frees :
    (inner : Place → Store → Option Store) (d : ℕ)
    → Frees d inner
    → Frees (suc d) (free_indirect inner)
unfolding free_indirect
free_indirect-Frees inner d frees level s p ok lp deep = elim (Bool-cases (read p s == 0)) [
  | inl e ↦ (
    s,
    rw (e, free_indirect) refl,
    Cut-refl (suc d) ok (λ q h. ap (λ z. read z s) h ∙ (==_iff _ _).0 e),
  )
  | inr e ↦
      let full : read p s ≢ 0 = λ z. ground (arith, z) in
      let at = ok.named_level p lp full ∙ deep in
      let (t, h, c) = sweep-Cut inner d frees level s ok (read p s) at in
      let (live, apart) = above level c.level' d (read p s) p lp deep at c.high in
      let stays = c.frame p live apart in
      let (s', h', r) = drop_block-Drops c.level' p t c.tree live (λ z. full (sym stays ∙ z)) in
      (s', rw (e, h, free_indirect) h', drop-Cut level p s t s' ok lp full d deep c stays r)
]
