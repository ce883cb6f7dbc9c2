-- ===== src/Fs/Trunc/Cut.antt =====
-- What is left of a file's tree when the blocks below some places are freed.
use ele3021_operating_system.Base.{
  ℕ, ◌-◌, ◌≤◌, ◌<◌, ◌≡◌, ◌≢◌, refl, sym, ap, ◌∙◌, ◌⊎◌, inl, inr, true, false, List, [], ◌∷◌, length,
  All, ◌==◌, ==_iff, arith, Bool-cases, ℕ_discrete,
}
use ele3021_operating_system.Fs.{Store, Place, in_inode, in_block, read}
use ele3021_operating_system.Fs.Tree.{Live, depth, IsTree}
use ele3021_operating_system.Fs.Bmap.{descend}

-- `s` became `s'`: the places of `P` are empty and all that was below them is free again; blocks of
-- more than `top` levels stay what they were.
pub record Cut (level : ℕ → ℕ) (top : ℕ) (P : Place → Type 0) (s s' : Store) : Type 0 where
  pub level' : ℕ → ℕ
  pub tree : IsTree level' s'
  pub levels : (b : ℕ) → (level' b ≡ level b) ⊎ (level' b ≡ 0)
  pub high : (b : ℕ) → top < level b → level' b ≡ level b
  pub empty : (q : Place) → Live level' q → P q → read q s' ≡ 0
  pub frame : (q : Place) → Live level' q → (P q → ⊥) → read q s' ≡ read q s
  pub reads : (q : Place) → Live level' q → (read q s' ≡ 0) ⊎ (read q s' ≡ read q s)
  pub fewer : (b : ℕ) → s.used b ≡ false → s'.used b ≡ false
  pub others :
      (b : ℕ)
      → s.used b ≡ true
      → s'.used b ≡ false
      → (q : Place) × Live level q × (read q s ≡ b) × (b ≢ 0)
  pub gone :
      (q : Place) (js : List ℕ)
      → P q
      → All (λ j. j < 128) js
      → length js ≤ depth level q
      → descend s (read q s) js ≢ 0
      → s'.used (descend s (read q s) js) ≡ false

pub descend_zero : (s : Store) (js : List ℕ) → descend s 0 js ≡ 0
descend_zero s [] = refl
descend_zero s (j ∷ js) = refl

pub descend_step :
    (s : Store) (a j : ℕ) (js : List ℕ) → a ≢ 0 → descend s a (j ∷ js) ≡ descend s (s.words a j) js
descend_step s a j js ne = elim (Bool-cases (a == 0)) [
  | inl e ↦ absurd (ne ((==_iff a 0).0 e))
  | inr e ↦ rw e refl
]

module _ {level level' : ℕ → ℕ} (levels : (b : ℕ) → (level' b ≡ level b) ⊎ (level' b ≡ 0)) where
  pub Live-before : (q : Place) → Live level' q → Live level q
  Live-before (in_inode i) l = l
  Live-before (in_block b i) l =
      (l.0, elim (levels b) [ inl e ↦ omega (arith, l.1) | inr e ↦ omega (arith, l.1) ])

  pub depth-before : (q : Place) → Live level' q → depth level' q ≡ depth level q
  depth-before (in_inode i) l = refl
  depth-before (in_block b i) l = elim (levels b) [
    | inl e ↦ ap (λ n. n - 1) e
    | inr e ↦ omega (arith, l.1)
  ]

module _ {level : ℕ → ℕ} {top : ℕ} {P : Place → Type 0} {s s' : Store} (ok : IsTree level s)
    (c : Cut level top P s s') (outside : (b j : ℕ) → level b ≤ top → P (in_block b j) → ⊥) where
  -- Below a block that stayed, nothing changed.
  pub descend-Cut :
      (js : List ℕ) (a : ℕ)
      → All (λ j. j < 128) js
      → length js ≤ level a
      → level a ≤ top
      → c.level' a ≡ level a
      → descend s' a js ≡ descend s a js
  descend-Cut [] a small short low same = refl
  descend-Cut (j ∷ js) a small short low same = elim (ℕ_discrete a 0) [
    | yes z ↦ ap (λ x. descend s' x (j ∷ js)) z ∙ sym (ap (λ x. descend s x (j ∷ js)) z)
    | no ne ↦
        let live : Live c.level' (in_block a j) = (small.0, omega (arith, short, same)) in
        let same_word : s'.words a j ≡ s.words a j =
          c.frame (in_block a j) live (outside a j low) in
        descend_step s' a j js ne
        ∙ ap (λ x. descend s' x js) same_word
        ∙ elim (ℕ_discrete (s.words a j) 0) [
          | yes z ↦
              ap (λ x. descend s' x js) z
              ∙ descend_zero s' js
              ∙ sym (ap (λ x. descend s x js) z ∙ descend_zero s js)
          | no full ↦
              let before =
                ok.named_level (in_block a j) (Live-before c.levels (in_block a j) live) full in
              let now =
                sym (ap c.level' same_word)
                ∙ c.tree.named_level (in_block a j) live (λ z. full (sym same_word ∙ z)) in
              descend-Cut js (s.words a j) small.1 (omega (arith, before, short))
                (omega (arith, before, low)) (omega (arith, before, now, same))
        ]
        ∙ sym (descend_step s a j js ne)
  ]

  -- From a place that stayed, nothing changed either.
  pub read-Cut :
      (q : Place) (js : List ℕ)
      → Live c.level' q
      → (P q → ⊥)
      → All (λ j. j < 128) js
      → length js ≤ depth level q
      → depth level q ≤ top
      → descend s' (read q s') js ≡ descend s (read q s) js
  read-Cut q js live stays small short low =
      ap (λ x. descend s' x js) (c.frame q live stays) ∙ elim (ℕ_discrete (read q s) 0) [
        | yes z ↦
            ap (λ x. descend s' x js) z
            ∙ descend_zero s' js
            ∙ sym (ap (λ x. descend s x js) z ∙ descend_zero s js)
        | no full ↦
            let before = ok.named_level q (Live-before c.levels q live) full in
            let now =
              sym (ap c.level' (c.frame q live stays))
              ∙ c.tree.named_level q live (λ z. full (sym (c.frame q live stays) ∙ z))
              ∙ depth-before c.levels q live in
            descend-Cut js (read q s) small (omega (arith, before, short))
              (omega (arith, before, low)) (now ∙ sym before)
      ]

  module _ {Q : Place → Type 0} {s'' : Store} (d : Cut c.level' top Q s' s'')
      (elsewhere : (q : Place) → Q q → P q → ⊥)
      (live : (q : Place) → Q q → Live c.level' q × (depth level q ≤ top)) where
    -- Two cuts, one after the other.
    pub Cut-trans : Cut level top (λ q. P q ⊎ Q q) s s''
    Cut-trans = record {
      level' = d.level';
      tree = d.tree;
      levels = λ b. elim (d.levels b) [
        | inr z ↦ inr z
        | inl e ↦ elim (c.levels b) [ inl f ↦ inl (e ∙ f) | inr z ↦ inr (e ∙ z) ]
      ];
      high = λ b h. d.high b (omega (arith, h, c.high b h)) ∙ c.high b h;
      empty = λ q l h. elim h [
        | inr hq ↦ d.empty q l hq
        | inl hp ↦ d.frame q l (λ hq. elsewhere q hq hp) ∙ c.empty q (Live-before d.levels q l) hp
      ];
      frame = λ q l h.
          d.frame q l (λ hq. h (inr hq)) ∙ c.frame q (Live-before d.levels q l) (λ hp. h (inl hp));
      reads = λ q l. elim (d.reads q l) [
        | inl z ↦ inl z
        | inr e ↦ elim (c.reads q (Live-before d.levels q l)) [
          | inl z ↦ inl (e ∙ z)
          | inr f ↦ inr (e ∙ f)
        ]
      ];
      fewer = λ b h. d.fewer b (c.fewer b h);
      others = λ b u f. elim (Bool-cases (s'.used b)) [
        | inr now ↦ c.others b u now
        | inl now ↦
            let (q, l, e, ne) = d.others b now f in
            elim (c.reads q l) [
              | inl z ↦ absurd (ne (sym e ∙ z))
              | inr same ↦ (q, Live-before c.levels q l, sym same ∙ e, ne)
            ]
      ];
      gone = λ q js h small short found. elim h [
        | inl hp ↦ d.fewer _ (c.gone q js hp small short found)
        | inr hq ↦
            let (l, low) = live q hq in
            let same = read-Cut q js l (elsewhere q hq) small short low in
            ap s''.used (sym same)
            ∙ d.gone q js hq small (omega (arith, short, depth-before c.levels q l))
                (λ z. found (sym same ∙ z))
      ];
    }

-- The same places, described in another way.
pub Cut-same :
    {level : ℕ → ℕ} {top : ℕ} {P Q : Place → Type 0} {s s' : Store}
    → ((q : Place) → P q → Q q)
    → ((q : Place) → Q q → P q)
    → Cut level top P s s'
    → Cut level top Q s s'
Cut-same to from c = record {
  level' = c.level';
  tree = c.tree;
  levels = c.levels;
  high = c.high;
  empty = λ q l h. c.empty q l (from q h);
  frame = λ q l h. c.frame q l (λ hp. h (to q hp));
  reads = c.reads;
  fewer = c.fewer;
  others = c.others;
  gone = λ q js h. c.gone q js (from q h);
}

pub Cut-weaken :
    {level : ℕ → ℕ} {top top' : ℕ} {P : Place → Type 0} {s s' : Store}
    → top ≤ top'
    → Cut level top P s s'
    → Cut level top' P s s'
Cut-weaken le c = record {
  level' = c.level';
  tree = c.tree;
  levels = c.levels;
  high = λ b h. c.high b (omega arith);
  empty = c.empty;
  frame = c.frame;
  reads = c.reads;
  fewer = c.fewer;
  others = c.others;
  gone = c.gone;
}

-- Places that are empty are cut as they are.
pub Cut-refl :
    {level : ℕ → ℕ} {P : Place → Type 0} {s : Store} (top : ℕ)
    → IsTree level s
    → ((q : Place) → P q → read q s ≡ 0)
    → Cut level top P s s
Cut-refl {level} {P} {s} top ok none_there = record {
  level' = level;
  tree = ok;
  levels = λ b. inl refl;
  high = λ b h. refl;
  empty = λ q l h. none_there q h;
  frame = λ q l h. refl;
  reads = λ q l. inr refl;
  fewer = λ b h. h;
  others = λ b u h. absurd (true≢false (sym u ∙ h));
  gone = λ q js h small short found.
      absurd (found (ap (λ z. descend s z js) (none_there q h) ∙ descend_zero s js));
}
  where
    true≢false : true ≡ false → ⊥
    true≢false e = cc
