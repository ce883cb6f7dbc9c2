-- ===== src/Fs/Grow.antt =====
-- A block given to an empty place leaves a tree.
use ele3021_operating_system.Base.{
  ℕ, ◌-◌, ◌≡◌, ◌≢◌, refl, sym, ap, subst, ◌∙◌, ◌⊎◌, inl, inr, true, false, ◌==◌, ==_iff, arith,
  Bool-cases, ℕ_discrete, update,
}
use ele3021_operating_system.Fs.{Store, Place, in_inode, in_block, read, write}
use ele3021_operating_system.Fs.Tree.{
  Live, depth, IsTree, Place-cases, read-write_self, read-write_ne, taken, Slot, there, given,
}

-- After a step at the place `p` the file is a tree, and only `p` may name another block than before.
pub record Grown (level : ℕ → ℕ) (p : Place) (s : Store) (a : ℕ) (s' : Store) : Type 0 where
  pub level' : ℕ → ℕ
  pub tree : IsTree level' s'
  pub block : a ≢ 0
  pub level_here : level' a ≡ depth level p
  pub here : read p s' ≡ a
  pub frame : (q : Place) → Live level q → p ≢ q → read q s' ≡ read q s
  pub kept : (q : Place) → Live level q → read q s ≢ 0 → read q s' ≡ read q s
  pub live : (q : Place) → Live level q → Live level' q
  pub same_depth : (q : Place) → Live level q → depth level' q ≡ depth level q

Grown-there :
    (level : ℕ → ℕ) (p : Place) (s : Store)
    → IsTree level s
    → Live level p
    → read p s ≢ 0
    → Grown level p s (read p s) s
Grown-there level p s ok lp ne = record {
  level' = level;
  tree = ok;
  block = ne;
  level_here = ok.named_level p lp ne;
  here = refl;
  frame = λ q lq e. refl;
  kept = λ q lq e. refl;
  live = λ q lq. lq;
  same_depth = λ q lq. refl;
}

module _ (level : ℕ → ℕ) (p : Place) (s : Store) (ok : IsTree level s) (lp : Live level p) (b : ℕ)
    (free : s.used b ≡ false) (empty : read p s ≡ 0) where
  abbrev levels : ℕ → ℕ
  levels = update level b (depth level p)

  abbrev after : Store
  after = write p b (taken b s)

  plain : level b ≡ 0
  plain = ok.free_plain b free

  used_ne : (c : ℕ) → s.used c ≡ true → c ≢ b
  used_ne c u e = absurd (false≢true' (sym free ∙ ap s.used (sym e) ∙ u))
    where
      false≢true' : false ≡ true → ⊥
      false≢true' h = cc

  levels_ne : (c : ℕ) → c ≢ b → levels c ≡ level c
  levels_ne c ne = ground arith

  used_after : (c : ℕ) → after.used c ≡ update s.used b true c
  used_after c = by_place p
    where
      by_place : (p : Place) → (write p b (taken b s)).used c ≡ update s.used b true c
      by_place (in_inode i) = refl
      by_place (in_block d i) = refl

  Live-ne : (c i : ℕ) → Live level (in_block c i) → c ≢ b
  Live-ne c i l e = ground (arith, plain, l, ap level e)

  Live-after : (q : Place) → Live level q → Live levels q × (depth levels q ≡ depth level q)
  Live-after (in_inode i) l = (l, refl)
  Live-after (in_block c i) l =
      let e = levels_ne c (Live-ne c i l) in ((l.0, omega (arith, e, l)), ap (λ n. n - 1) e)

  read-taken : (q : Place) → Live level q → read q (taken b s) ≡ read q s
  read-taken (in_inode i) l = refl
  read-taken (in_block c i) l = elim (Bool-cases (c == b)) [
    | inl e ↦ absurd (Live-ne c i l ((==_iff c b).0 e))
    | inr e ↦ rw e refl
  ]

  frame_after : (q : Place) → Live level q → p ≢ q → read q after ≡ read q s
  frame_after q l ne = read-write_ne p q b (taken b s) ne ∙ read-taken q l

  -- What a place of the new tree can be: `p`, or one that was there before.
  Known : Place → Type 0
  Known q = ((p ≡ q) × (read q after ≡ b)) ⊎ ((p ≢ q) × Live level q × (read q after ≡ read q s))

  Known-Live : (q : Place) → Live level q → Known q
  unfolding Known
  Known-Live q l = elim (Place-cases p q) [
    | inl e ↦ inl (e, ap (λ z. read z after) (sym e) ∙ read-write_self p b (taken b s))
    | inr ne ↦ inr (ne, l, frame_after q l ne)
  ]

  fresh_empty : (i : ℕ) → read (in_block b i) after ≡ 0
  fresh_empty i =
      read-write_ne p (in_block b i) b (taken b s) (λ e. not_here p lp e)
      ∙ rw ((==_iff b b).1 refl) refl
    where
      not_here : (p : Place) → Live level p → p ≢ in_block b i
      not_here (in_inode j) l e = cc
      not_here (in_block c j) l e = Live-ne c j l cc

  known : (q : Place) → Live levels q → read q after ≢ 0 → Known q
  known (in_inode i) l ne = Known-Live (in_inode i) l
  known (in_block c i) l ne = elim (ℕ_discrete c b) [
    | yes e ↦ absurd (ne (ap (λ z. read (in_block z i) after) e ∙ fresh_empty i))
    | no other ↦ Known-Live (in_block c i) (l.0, omega (arith, l.1, levels_ne c other))
  ]

  Grown-given : Grown level p s b after
  unfolding Known
  Grown-given = record {
    level' = levels;
    tree = record {
      boot_used = used_after 0 ∙ ground (arith, ok.boot_used);
      free_plain = λ c h. free_after c (sym (used_after c) ∙ h);
      named_used = λ q l ne. used_after (read q after) ∙ named_after q (known q l ne) ne;
      named_level = λ q l ne. level_after q (known q l ne) ne;
      apart = λ q r lq lr ne e. apart_after q r (known q lq ne) (known r lr (λ z. ne (e ∙ z))) ne e;
    };
    block = λ e. used_ne 0 ok.boot_used (sym e);
    level_here = rw ((==_iff b b).1 refl) refl;
    here = read-write_self p b (taken b s);
    frame = frame_after;
    kept = λ q l ne. frame_after q l (λ e. ne (ap (λ z. read z s) (sym e) ∙ empty));
    live = λ q l. (Live-after q l).0;
    same_depth = λ q l. (Live-after q l).1;
  }
    where
      free_after : (c : ℕ) → update s.used b true c ≡ false → levels c ≡ 0
      free_after c h = ground (arith, ok.free_plain c)

      old :
          (q : Place)
          → Live level q
          → read q after ≡ read q s
          → read q after ≢ 0
          → s.used (read q after) ≡ true
      old q l e ne = ap s.used e ∙ ok.named_used q l (λ z. ne (e ∙ z))

      named_after :
          (q : Place) → Known q → read q after ≢ 0 → update s.used b true (read q after) ≡ true
      named_after q (inl (here, e)) ne = rw ((==_iff _ _).1 e) refl
      named_after q (inr (other, l, e)) ne = ground (arith, old q l e ne)

      level_after :
          (q : Place) → Known q → read q after ≢ 0 → levels (read q after) ≡ depth levels q
      level_after q (inl (here, e)) ne =
          rw ((==_iff _ _).1 e)
            (ap (depth level) here ∙ sym (Live-after q (subst (Live level) here lp)).1)
      level_after q (inr (other, l, e)) ne =
          levels_ne (read q after) (used_ne _ (old q l e ne))
          ∙ ap level e
          ∙ ok.named_level q l (λ z. ne (e ∙ z))
          ∙ sym (Live-after q l).1

      apart_after :
          (q r : Place) → Known q → Known r → read q after ≢ 0 → read q after ≡ read r after → q ≡ r
      apart_after q r (inl (hq, eq)) (inl (hr, er)) ne e = sym hq ∙ hr
      apart_after q r (inl (hq, eq)) (inr (hr, lr, er)) ne e =
          absurd (used_ne _ (old r lr er (λ z. ne (e ∙ z))) (sym e ∙ eq))
      apart_after q r (inr (hq, lq, eq)) (inl (hr, er)) ne e =
          absurd (used_ne _ (old q lq eq ne) (e ∙ er))
      apart_after q r (inr (hq, lq, eq)) (inr (hr, lr, er)) ne e =
          ok.apart q r lq lr (λ z. ne (eq ∙ z)) (sym eq ∙ e ∙ er)

pub Slot-Grown :
    (level : ℕ → ℕ) (p : Place) (s : Store) (a : ℕ) (s' : Store)
    → IsTree level s
    → Live level p
    → Slot p s a s'
    → Grown level p s a s'
Slot-Grown level p s a s' ok lp (there ne) = Grown-there level p s ok lp ne
Slot-Grown level p s a s' ok lp (given b free empty) = Grown-given level p s ok lp b free empty
