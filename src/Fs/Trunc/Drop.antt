-- ===== src/Fs/Trunc/Drop.antt =====
-- A block is freed, with all that is below it.
use ele3021_operating_system.Base.{
  ℕ, suc, ◌≤◌, ◌<◌, ◌≡◌, ◌≢◌, refl, sym, ap, subst, ◌∙◌, inl, inr, true, false, List, [], ◌∷◌,
  length, All, arith, ℕ_discrete, update,
}
use ele3021_operating_system.Fs.{Store, Place, in_block, read}
use ele3021_operating_system.Fs.Tree.{Live, depth, IsTree, Place-cases}
use ele3021_operating_system.Fs.Bmap.{descend}
use ele3021_operating_system.Fs.Trunc.Cut.{Cut, descend_step, Live-before}
use ele3021_operating_system.Fs.Trunc.Remove.{update_self, update_ne, update_zero, Drops}

-- The places in the block `b`.
abbrev pub InBlock : ℕ → ℕ → Place → Type 0
InBlock n b q = (i : ℕ) × (i < n) × (q ≡ in_block b i)

module _ (level : ℕ → ℕ) (p : Place) (s s1 s2 : Store) (ok : IsTree level s) (lp : Live level p)
    (full : read p s ≢ 0) (d : ℕ) where
  -- The block at `p`, after all that is below it.
  pub drop-Cut :
      depth level p ≡ suc d
      → (c : Cut level d (InBlock 128 (read p s)) s s1) → read p s1 ≡ read p s
      → Drops c.level' p s1 s2
      → Cut level (suc d) (λ q. q ≡ p) s s2
  drop-Cut deep c stays r = record {
    level' = update c.level' (read p s1) 0;
    tree = r.tree;
    levels = λ b. elim (ℕ_discrete b (read p s1)) [
      | yes e ↦ inr (ap (update c.level' (read p s1) 0) e ∙ update_self c.level' (read p s1) 0)
      | no ne ↦ elim (c.levels b) [
        | inl f ↦ inl (update_ne c.level' (read p s1) b 0 ne ∙ f)
        | inr f ↦ inr (update_ne c.level' (read p s1) b 0 ne ∙ f)
      ]
    ];
    high = λ b h.
        update_ne c.level' (read p s1) b 0
          (λ e. omega (arith, h, deep, ok.named_level p lp full, ap level (e ∙ stays)))
        ∙ c.high b (omega arith);
    empty = λ q l e. ap (λ z. read z s2) e ∙ r.here;
    frame = λ q l ne. r.there q ne ∙ c.frame q (was_live q l) (outside q l);
    reads = λ q l. elim (Place-cases q p) [
      | inl e ↦ inl (ap (λ z. read z s2) e ∙ r.here)
      | inr ne ↦ inr (r.there q ne ∙ c.frame q (was_live q l) (outside q l))
    ];
    fewer = λ b h. freed b (c.fewer b h);
    others = λ b u h. elim (ℕ_discrete b (read p s)) [
      | yes e ↦ (p, lp, sym e, λ z. full (sym e ∙ z))
      | no ne ↦
          c.others b u
            (sym (update_ne s1.used (read p s1) b false (λ e. ne (e ∙ stays))) ∙ sym (r.used b) ∙ h)
    ];
    gone = λ q js e small short found.
        subst (λ z. s2.used (descend s (read z s) js) ≡ false) (sym e)
          (below js small (omega (arith, short, ap (depth level) e))
            (λ z. found (ap (λ y. descend s (read y s) js) e ∙ z)));
  }
    where
      was_live : (q : Place) → Live (update c.level' (read p s1) 0) q → Live c.level' q
      was_live = Live-before (update_zero c.level' (read p s1))

      outside : (q : Place) → Live (update c.level' (read p s1) 0) q → InBlock 128 (read p s) q → ⊥
      outside q l (i, lt, e) =
          let live = subst (Live (update c.level' (read p s1) 0)) e l in
          omega (
            arith,
            live.1,
            update_self c.level' (read p s1) 0,
            ap (update c.level' (read p s1) 0) stays,
          )

      freed : (b : ℕ) → s1.used b ≡ false → s2.used b ≡ false
      freed b h = r.used b ∙ elim (ℕ_discrete b (read p s1)) [
        | yes e ↦ ap (update s1.used (read p s1) false) e ∙ update_self s1.used (read p s1) false
        | no ne ↦ update_ne s1.used (read p s1) b false ne ∙ h
      ]

      below :
          (js : List ℕ)
          → All (λ j. j < 128) js
          → length js ≤ suc d
          → descend s (read p s) js ≢ 0
          → s2.used (descend s (read p s) js) ≡ false
      below [] small short found =
          r.used (read p s)
          ∙ ap (update s1.used (read p s1) false) (sym stays)
          ∙ update_self s1.used (read p s1) false
      below (j ∷ js) small short found =
          let e = descend_step s (read p s) j js full in
          ap s2.used e
          ∙ freed _ (
              c.gone (in_block (read p s) j) js (j, small.0, refl) small.1
                (omega (arith, short, deep, ok.named_level p lp full)) (λ z. found (e ∙ z)))

-- A block of data.
pub leaf-Cut :
    (level : ℕ → ℕ) (p : Place) (s s' : Store)
    → IsTree level s
    → Live level p
    → read p s ≢ 0
    → depth level p ≡ 0
    → Drops level p s s'
    → Cut level 0 (λ q. q ≡ p) s s'
leaf-Cut level p s s' ok lp full flat r = record {
  level' = update level (read p s) 0;
  tree = r.tree;
  levels = update_zero level (read p s);
  high = λ b h.
      update_ne level (read p s) b 0
        (λ e. omega (arith, h, flat, ok.named_level p lp full, ap level e));
  empty = λ q l e. ap (λ z. read z s') e ∙ r.here;
  frame = λ q l ne. r.there q ne;
  reads = λ q l. elim (Place-cases q p) [
    | inl e ↦ inl (ap (λ z. read z s') e ∙ r.here)
    | inr ne ↦ inr (r.there q ne)
  ];
  fewer = λ b h. r.used b ∙ elim (ℕ_discrete b (read p s)) [
    | yes e ↦ ap (update s.used (read p s) false) e ∙ update_self s.used (read p s) false
    | no ne ↦ update_ne s.used (read p s) b false ne ∙ h
  ];
  others = λ b u h. elim (ℕ_discrete b (read p s)) [
    | yes e ↦ (p, lp, sym e, λ z. full (sym e ∙ z))
    | no ne ↦
        absurd
          (true≢false (sym u ∙ sym (update_ne s.used (read p s) b false ne) ∙ sym (r.used b) ∙ h))
  ];
  gone = λ q js e small short found.
      subst (λ z. s'.used (descend s (read z s) js) ≡ false) (sym e)
        (here js (omega (arith, short, flat, ap (depth level) e)));
}
  where
    true≢false : true ≡ false → ⊥
    true≢false e = cc

    here : (js : List ℕ) → length js ≤ 0 → s'.used (descend s (read p s) js) ≡ false
    here [] le = r.used (read p s) ∙ update_self s.used (read p s) false
    here (j ∷ js) le = absurd (omega arith)
