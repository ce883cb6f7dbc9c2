-- ===== src/Fs/Blocks.antt =====
-- `bmap` gives each block of a file a block of the disk of its own, and never another one later.
use ele3021_operating_system.Base.{
  ℕ, ◌<◌, ◌≡◌, ◌≢◌, refl, sym, ap, subst, ◌∙◌, inl, inr, some, ◌>>=◌, >>=-eq-some, ◌==◌, ==_iff,
  arith, Bool-cases, some_eq, List, [], ◌∷◌, length, All,
}
use ele3021_operating_system.Fs.{Store, Place, in_inode, in_block, read, get_slot, bmap}
use ele3021_operating_system.Fs.Tree.{Live, IsTree, get_slot-Slot}
use ele3021_operating_system.Fs.Grow.{Grown, Slot-Grown}
use ele3021_operating_system.Fs.Bmap.{
  IsPath, number, descend, lookup, follow, >>=-some, bmap-direct, bmap-single, bmap-double,
  bmap-triple,
}

bmap-follow :
    (root : ℕ) (js : List ℕ) (s : Store)
    → IsPath root js
    → bmap (number root js) s ≡ (get_slot (in_inode root) s >>= λ r. follow r js)
unfolding follow
bmap-follow root [] s ok =
    bmap-direct s root (omega (arith, ok.levels)) ∙ sym (>>=-some (get_slot (in_inode root) s))
bmap-follow root (j ∷ []) s ok =
    let e : root ≡ 10 = omega (arith, ok.levels, ok.root_below) in
    rw e (ap (λ n. bmap n s) (omega arith) ∙ bmap-single s j ok.digits.0)
bmap-follow root (j ∷ k ∷ []) s ok =
    let e : root ≡ 11 = omega (arith, ok.levels, ok.root_below) in
    rw e (ap (λ n. bmap n s) (omega arith) ∙ bmap-double s j k ok.digits.0 ok.digits.1.0)
bmap-follow root (i ∷ j ∷ k ∷ []) s ok =
    let e : root ≡ 12 = omega (arith, ok.levels, ok.root_below) in
    rw e (
      ap (λ n. bmap n s) (omega arith)
      ∙ bmap-triple s i j k ok.digits.0 ok.digits.1.0 ok.digits.1.1.0)
bmap-follow root (h ∷ i ∷ j ∷ k ∷ js) s ok = absurd (omega (arith, ok.levels, ok.root_below))

-- What a walk below the block `a` does, as seen at its end `b`.
pub record Followed (level : ℕ → ℕ) (js : List ℕ) (a : ℕ) (s : Store) (b : ℕ) (s' : Store)
    : Type 0 where
  pub level' : ℕ → ℕ
  pub tree : IsTree level' s'
  pub block : b ≢ 0
  pub is_data : level' b ≡ 0
  pub reach : descend s' a js ≡ b
  pub kept : (q : Place) → Live level q → read q s ≢ 0 → read q s' ≡ read q s

below :
    (a j : ℕ) (js : List ℕ) (s : Store) → a ≢ 0 → descend s a (j ∷ js) ≡ descend s (s.words a j) js
below a j js s ne = elim (Bool-cases (a == 0)) [
  | inl e ↦ absurd (ne ((==_iff a 0).0 e))
  | inr e ↦ rw e refl
]

-- A step, and the walk after it.
Grown-Followed :
    (level : ℕ → ℕ) (p : Place) (js : List ℕ) (s : Store) (a : ℕ) (s1 : Store) (b : ℕ) (s' : Store)
    → Live level p
    → (g : Grown level p s a s1) → (r : Followed g.level' js a s1 b s')
    → (read p s' ≡ a) × ((q : Place) → Live level q → read q s ≢ 0 → read q s' ≡ read q s)
Grown-Followed level p js s a s1 b s' lp g r = (
  r.kept p (g.live p lp) (λ z. g.block (sym g.here ∙ z)) ∙ g.here,
  λ q lq ne. let e = g.kept q lq ne in r.kept q (g.live q lq) (λ z. ne (sym e ∙ z)) ∙ e,
)

follow-Followed :
    (level : ℕ → ℕ) (js : List ℕ) (a : ℕ) (s : Store) {b : ℕ} {s' : Store}
    → IsTree level s
    → a ≢ 0
    → level a ≡ length js
    → All (λ j. j < 128) js
    → follow (a, s) js ≡ some (b, s')
    → Followed level js a s b s'
unfolding follow
follow-Followed level [] a s {b} {s'} ok ne lev dig h =
    let e = some_eq h in
    subst (λ r. Followed level [] a s r.0 r.1) e
      (record {
        level' = level;
        tree = ok;
        block = ne;
        is_data = lev;
        reach = refl;
        kept = λ q lq z. refl;
      })
follow-Followed level (j ∷ []) a s {b} {s'} ok ne lev dig h =
    let g =
      Slot-Grown level (in_block a j) s b s' ok (dig.0, omega (arith, lev))
        (get_slot-Slot (in_block a j) s h) in
    record {
      level' = g.level';
      tree = g.tree;
      block = g.block;
      is_data = g.level_here ∙ omega (arith, lev);
      reach = below a j [] s' ne ∙ g.here;
      kept = g.kept;
    }
follow-Followed level (j ∷ k ∷ js) a s {b} {s'} ok ne lev dig h =
    let (r1, e1, e2) = >>=-eq-some (get_slot (in_block a j) s) (λ r. follow r (k ∷ js)) h in
    let lp : Live level (in_block a j) = (dig.0, omega (arith, lev)) in
    let g = Slot-Grown level (in_block a j) s r1.0 r1.1 ok lp (get_slot-Slot (in_block a j) s e1) in
    let r =
      follow-Followed g.level' (k ∷ js) r1.0 r1.1 g.tree g.block (g.level_here ∙ omega (arith, lev))
        dig.1 e2 in
    let (there, kept) = Grown-Followed level (in_block a j) (k ∷ js) s r1.0 r1.1 b s' lp g r in
    record {
      level' = r.level';
      tree = r.tree;
      block = r.block;
      is_data = r.is_data;
      reach = below a j (k ∷ js) s' ne ∙ ap (λ z. descend s' z (k ∷ js)) there ∙ r.reach;
      kept = kept;
    }

descend-zero : (s : Store) (js : List ℕ) → descend s 0 js ≡ 0
descend-zero s [] = refl
descend-zero s (j ∷ js) = refl

-- Blocks that were there are found again.
descend-kept :
    (level : ℕ → ℕ) (s s' : Store) (js : List ℕ) (a : ℕ)
    → IsTree level s
    → ((q : Place) → Live level q → read q s ≢ 0 → read q s' ≡ read q s)
    → a ≢ 0
    → level a ≡ length js
    → All (λ j. j < 128) js
    → descend s a js ≢ 0
    → descend s' a js ≡ descend s a js
descend-kept level s s' [] a ok kept ne lev dig found = refl
descend-kept level s s' (j ∷ js) a ok kept ne lev dig found =
    let lp : Live level (in_block a j) = (dig.0, omega (arith, lev)) in
    let there : s.words a j ≢ 0 =
      λ z. found (below a j js s ne ∙ ap (λ y. descend s y js) z ∙ descend-zero s js) in
    below a j js s' ne
    ∙ ap (λ z. descend s' z js) (kept (in_block a j) lp there)
    ∙ descend-kept level s s' js (s.words a j) ok kept there
        (ok.named_level (in_block a j) lp there ∙ omega (arith, lev)) dig.1
        (λ z. found (below a j js s ne ∙ z))
    ∙ sym (below a j js s ne)

-- In a file whose blocks form a tree, `bmap` of the block at the end of a path answers with the block
-- of the disk that this path then leads to, a data block. The blocks form a tree again, in which no
-- block stands in two places, and every block of the file that was there stays where it was.
pub bmap_lem :
    (level : ℕ → ℕ) (root : ℕ) (js : List ℕ) (s : Store) {b : ℕ} {s' : Store}
    → IsTree level s
    → IsPath root js
    → bmap (number root js) s ≡ some (b, s')
    → (level' : ℕ → ℕ) × IsTree level' s'
      × (lookup s' root js ≡ b)
      × (b ≢ 0)
      × (level' b ≡ 0)
      × ((root2 : ℕ) (js2 : List ℕ)
          → IsPath root2 js2
          → lookup s root2 js2 ≢ 0
          → lookup s' root2 js2 ≡ lookup s root2 js2)
bmap_lem level root js s {b} {s'} ok path h =
    let (r1, e1, e2) =
      >>=-eq-some (get_slot (in_inode root) s) (λ r. follow r js)
        (sym (bmap-follow root js s path) ∙ h) in
    let g =
      Slot-Grown level (in_inode root) s r1.0 r1.1 ok path.root_below
        (get_slot-Slot (in_inode root) s e1) in
    let r =
      follow-Followed g.level' js r1.0 r1.1 g.tree g.block (g.level_here ∙ sym path.levels)
        path.digits e2 in
    let (there, kept) =
      Grown-Followed level (in_inode root) js s r1.0 r1.1 b s' path.root_below g r in
    (
      r.level',
      r.tree,
      ap (λ z. descend s' z js) there ∙ r.reach,
      r.block,
      r.is_data,
      λ root2 js2 path2 found.
          let here : s.addrs root2 ≢ 0 =
            λ z. found (ap (λ y. descend s y js2) z ∙ descend-zero s js2) in
          ap (λ z. descend s' z js2) (kept (in_inode root2) path2.root_below here)
          ∙ descend-kept level s s' js2 (s.addrs root2) ok kept here
              (ok.named_level (in_inode root2) path2.root_below here ∙ sym path2.levels)
              path2.digits found,
    )
