-- ===== src/Fs/Trunc/Remove.antt =====
-- One block of a file's tree is freed.
use ele3021_operating_system.Base.{
  ℕ, ◌≡◌, ◌≢◌, refl, sym, ap, ◌∙◌, ◌⊎◌, inl, inr, false, ◌==◌, ==_iff, some, Bool-cases, ℕ_discrete,
  update,
}
use ele3021_operating_system.Fs.{Store, Place, in_inode, in_block, read, write}
use ele3021_operating_system.Fs.Tree.{Live, IsTree, Place-cases, read-write_self, read-write_ne}
use ele3021_operating_system.Fs.Trunc.{bfree, drop_block}
use ele3021_operating_system.Fs.Trunc.Cut.{Live-before, depth-before}

pub update_self : {A : Type 0} (f : ℕ → A) (b : ℕ) (v : A) → update f b v b ≡ v
update_self f b v = rw ((==_iff b b).1 refl) refl

pub update_ne : {A : Type 0} (f : ℕ → A) (b c : ℕ) (v : A) → c ≢ b → update f b v c ≡ f c
update_ne f b c v ne = elim (Bool-cases (c == b)) [
  | inl e ↦ absurd (ne ((==_iff c b).0 e))
  | inr e ↦ rw e refl
]

-- A map that is 0 at one more place.
pub update_zero : (f : ℕ → ℕ) (b c : ℕ) → (update f b 0 c ≡ f c) ⊎ (update f b 0 c ≡ 0)
update_zero f b c = elim (ℕ_discrete c b) [
  | yes e ↦ inr (ap (update f b 0) e ∙ update_self f b 0)
  | no ne ↦ inl (update_ne f b c 0 ne)
]

module _ (level : ℕ → ℕ) (p : Place) (s : Store) where
  -- The block that `p` names is free, and `p` is empty; nothing else changed.
  pub record Drops (s' : Store) : Type 0 where
    pub tree : IsTree (update level (read p s) 0) s'
    pub used : (b : ℕ) → s'.used b ≡ update s.used (read p s) false b
    pub here : read p s' ≡ 0
    pub there : (q : Place) → (q ≡ p → ⊥) → read q s' ≡ read q s

  abbrev dropped : Store
  dropped = write p 0 (record s { used = update s.used (read p s) false })

  pub drop_block-Drops :
      IsTree level s
      → Live level p
      → read p s ≢ 0
      → (s' : Store) × (drop_block p s ≡ some s') × Drops s'
  unfolding drop_block bfree
  drop_block-Drops ok lp full = (
    dropped,
    rw (ok.named_used p lp full) refl,
    record {
      tree = record {
        boot_used = used 0 ∙ update_ne s.used (read p s) 0 false (λ e. full (sym e)) ∙ ok.boot_used;
        free_plain = λ c h. elim (ℕ_discrete c (read p s)) [
          | yes e ↦ ap (update level (read p s) 0) e ∙ update_self level (read p s) 0
          | no ne ↦
              update_ne level (read p s) c 0 ne
              ∙ ok.free_plain c (sym (update_ne s.used (read p s) c false ne) ∙ sym (used c) ∙ h)
        ];
        named_used = λ q l ne.
            let (e, other) = old q l ne in
            used (read q dropped)
            ∙ update_ne s.used (read p s) (read q dropped) false other
            ∙ ap s.used e
            ∙ ok.named_used q (was_live q l) (λ z. ne (e ∙ z));
        named_level = λ q l ne.
            let (e, other) = old q l ne in
            update_ne level (read p s) (read q dropped) 0 other
            ∙ ap level e
            ∙ ok.named_level q (was_live q l) (λ z. ne (e ∙ z))
            ∙ sym (depth-before (update_zero level (read p s)) q l);
        apart = λ q r lq lr ne e.
            let (eq, _) = old q lq ne in
            let (er, _) = old r lr (λ z. ne (e ∙ z)) in
            ok.apart q r (was_live q lq) (was_live r lr) (λ z. ne (eq ∙ z)) (sym eq ∙ e ∙ er);
      };
      used = used;
      here = here;
      there = there;
    },
  )
    where
      used : (b : ℕ) → dropped.used b ≡ update s.used (read p s) false b
      used b = by_place p
        where
          by_place :
              (r : Place)
              → (write r 0 (record s { used = update s.used (read p s) false })).used b
                ≡ update s.used (read p s) false b
          by_place (in_inode i) = refl
          by_place (in_block d i) = refl

      here : read p dropped ≡ 0
      here = read-write_self p 0 (record s { used = update s.used (read p s) false })

      there : (q : Place) → (q ≡ p → ⊥) → read q dropped ≡ read q s
      there q ne =
          read-write_ne p q 0 (record s { used = update s.used (read p s) false }) (λ e. ne (sym e))
          ∙ same q
        where
          same :
              (q : Place) → read q (record s { used = update s.used (read p s) false }) ≡ read q s
          same (in_inode i) = refl
          same (in_block b i) = refl

      was_live : (q : Place) → Live (update level (read p s) 0) q → Live level q
      was_live = Live-before (update_zero level (read p s))

      old :
          (q : Place)
          → Live (update level (read p s) 0) q
          → read q dropped ≢ 0
          → (read q dropped ≡ read q s) × (read q dropped ≢ read p s)
      old q l ne = elim (Place-cases q p) [
        | inl e ↦ absurd (ne (ap (λ z. read z dropped) e ∙ here))
        | inr other ↦
            let e = there q other in
            (e, λ z. other (ok.apart q p (was_live q l) lp (λ y. ne (e ∙ y)) (sym e ∙ z)))
      ]
