-- ===== src/Paging/Unmap.antt =====
-- Unmapping a range of the user's pages: the loop of `deallocuvm`.
use ele3021_operating_system.Base.{
  ℕ, zero, suc, ◌+◌, ◌-◌, ◌*◌, ◌/◌, ◌%◌, ◌^◌, ◌≤◌, ◌<◌, ◌≡◌, ◌≢◌, refl, ap, sym, ◌∙◌, inl, inr,
  Bool, true, false, List, [], ◌∷◌, ◌++◌, some, arith, Bool-cases, if◌then◌else◌, ℕ_discrete, ltb,
  leb, leb→le, lt→ltb,
}
use mathlib.Core.List.{append_assoc, append-nil}
use ele3021_operating_system.Kalloc.{page_size}
use ele3021_operating_system.Paging.{Mem, present, page_of, walkpgdir, pdx, unmap_page, unmap_from}
use ele3021_operating_system.Paging.Space.{Role, other, entry, user_pages, IsSpace}
use ele3021_operating_system.Paging.Walk.{pdx_page, ptx_page}
use ele3021_operating_system.Paging.Change.{unmap_page_lem}

-- The pages of memory behind `n` entries from the page `k` on, the last one first.
unfoldable pub pages_behind : ℕ → ℕ → Mem → ℕ → List ℕ
pages_behind zero k m pgdir = []
pages_behind (suc n) k m pgdir =
    pages_behind n (k + 1) m pgdir
    ++ (if present (entry m pgdir k) then page_of (entry m pgdir k) ∷ [] else [])

-- The space `m'` is `m` without the `n` pages from `k` on, which are free.
pub record IsUnmapped (m m' : Mem) (pgdir k n : ℕ) (was : ℕ → Role) : Type 0 where
  pub role : ℕ → Role
  pub space : IsSpace m' pgdir role
  pub absent : (j : ℕ) → k ≤ j → j < k + n → present (entry m' pgdir j) ≡ false
  pub below : (j : ℕ) → j < k → j < user_pages → entry m' pgdir j ≡ entry m pgdir j
  pub above : (j : ℕ) → k + n ≤ j → j < user_pages → entry m' pgdir j ≡ entry m pgdir j
  pub freelist : m'.kmem.freelist ≡ pages_behind n k m pgdir ++ m.kmem.freelist
  pub same_end : m'.kmem.end_addr ≡ m.kmem.end_addr
  pub kept : (q : ℕ) → was q ≡ other → role q ≡ other
  pub dir_same : (i : ℕ) → m'.words pgdir i ≡ m.words pgdir i

pages_behind_same :
    (n k : ℕ) (m m' : Mem) (pgdir : ℕ)
    → k + n ≤ user_pages
    → ((j : ℕ) → k ≤ j → j < user_pages → entry m' pgdir j ≡ entry m pgdir j)
    → pages_behind n k m' pgdir ≡ pages_behind n k m pgdir
unfolding pages_behind
pages_behind_same zero k m m' pgdir le same = refl
pages_behind_same (suc n) k m m' pgdir le same =
    rw
      (
        pages_behind_same n (k + 1) m m' pgdir (omega arith) (λ j lo. same j (omega arith)),
        same k (omega arith) (omega arith),
      )
      refl

append_if :
    (b : Bool) (x : ℕ) (xs l : List ℕ)
    → (xs ++ (if b then x ∷ [] else [])) ++ l ≡ xs ++ (if b then x ∷ l else l)
append_if true x xs l = append_assoc xs (x ∷ []) l
append_if false x xs l = ap (λ z. z ++ l) (append-nil xs)

-- Entries that are absent are passed over.
pages_behind_skip :
    (j n k n' k' : ℕ) (m : Mem) (pgdir : ℕ)
    → n ≡ j + n'
    → k' ≡ k + j
    → ((i : ℕ) → k ≤ i → i < k' → present (entry m pgdir i) ≡ false)
    → pages_behind n k m pgdir ≡ pages_behind n' k' m pgdir
unfolding pages_behind
pages_behind_skip zero n k n' k' m pgdir en ek absent =
    let z : n ≡ n' = omega arith in let y : k' ≡ k = omega arith in rw (z, y) refl
pages_behind_skip (suc j) zero k n' k' m pgdir en ek absent = absurd (omega arith)
pages_behind_skip (suc j) (suc n) k n' k' m pgdir en ek absent =
    rw (absent k (omega arith) (omega arith), append-nil)
      (pages_behind_skip j n (k + 1) n' k' m pgdir (omega arith) (omega arith)
        (λ i lo. absent i (omega arith)))

module _ (pgdir oldsz : ℕ) where
  unmap_from_done : (fuel a : ℕ) (m : Mem) → oldsz ≤ a → unmap_from fuel pgdir a oldsz m ≡ some m
  unfolding unmap_from
  unmap_from_done zero a m le = refl
  unmap_from_done (suc fuel) a m le =
      let z : ltb a oldsz ≡ false = ground arith in rw (z, unmap_from) refl

  round_absent :
      (fuel k : ℕ) (m : Mem)
      → k < user_pages
      → ltb (k * page_size) oldsz ≡ true
      → present (m.words pgdir (k / 1024)) ≡ false
      → unmap_from (suc fuel) pgdir (k * page_size) oldsz m
        ≡ unmap_from fuel pgdir ((k / 1024 + 1) * 1024 * page_size) oldsz m
  unfolding unmap_from walkpgdir
  round_absent fuel k m kt more e =
      let next : (pdx (k * page_size) + 1) * 2 ^ 22 % 2 ^ 32 ≡ (k / 1024 + 1) * 1024 * page_size =
        omega arith in
      let none_there : present (m.words pgdir (pdx (k * page_size))) ≡ false =
        rw (pdx_page k kt) e in
      rw (more, none_there, next, unmap_from, walkpgdir) refl

  round_there :
      (fuel k : ℕ) (m mid : Mem)
      → k < user_pages
      → ltb (k * page_size) oldsz ≡ true
      → present (m.words pgdir (k / 1024)) ≡ true
      → unmap_page (page_of (m.words pgdir (k / 1024))) (k % 1024) m ≡ some mid
      → unmap_from (suc fuel) pgdir (k * page_size) oldsz m
        ≡ unmap_from fuel pgdir ((k + 1) * page_size) oldsz mid
  unfolding unmap_from walkpgdir
  round_there fuel k m mid kt more e unmapped =
      let next : (k * page_size + page_size) % 2 ^ 32 ≡ (k + 1) * page_size = omega arith in
      rw (more, pdx_page k kt, e, ptx_page k kt, unmapped, next, unmap_from, walkpgdir) refl

  IsUnmapped-none :
      (k : ℕ) (m : Mem) (role : ℕ → Role) → IsSpace m pgdir role → IsUnmapped m m pgdir k 0 role
  unfolding pages_behind
  IsUnmapped-none k m role h = record {
    role = role;
    space = h;
    absent = λ j lo hi. absurd (omega arith);
    below = λ j lt kt. refl;
    above = λ j le kt. refl;
    freelist = refl;
    same_end = refl;
    kept = λ q z. z;
    dir_same = λ i. refl;
  }

  -- No table for the page `k`: nothing is mapped up to the next table.
  no_table :
      (k : ℕ) (m : Mem)
      → present (m.words pgdir (k / 1024)) ≡ false
      → (i : ℕ) → k ≤ i
      → i < (k / 1024 + 1) * 1024
      → present (entry m pgdir i) ≡ false
  no_table k m e i lo hi = let z : i / 1024 ≡ k / 1024 = omega arith in rw (z, e) refl

  skip-IsUnmapped :
      (j n n' k k' : ℕ) (m m' : Mem) (was : ℕ → Role)
      → n ≡ j + n'
      → k' ≡ k + j
      → ((i : ℕ) → k ≤ i → i < k' → present (entry m pgdir i) ≡ false)
      → k + n ≤ user_pages
      → IsUnmapped m m' pgdir k' n' was
      → IsUnmapped m m' pgdir k n was
  skip-IsUnmapped j n n' k k' m m' was en ek absent top u = record {
    role = u.role;
    space = u.space;
    absent = λ i lo hi. elim (Bool-cases (leb k' i)) [
      | inl y ↦ u.absent i (leb→le _ _ y) (omega arith)
      | inr z ↦ let y : i < k' = ground arith in rw (u.below i y (omega arith)) (absent i lo y)
    ];
    below = λ i lt. u.below i (omega arith);
    above = λ i le. u.above i (omega arith);
    freelist = rw (pages_behind_skip j n k n' k' m pgdir en ek absent) u.freelist;
    same_end = u.same_end;
    kept = u.kept;
    dir_same = u.dir_same;
  }

  next-IsUnmapped :
      (n k : ℕ) (m mid m' : Mem) (was was' : ℕ → Role)
      → k + suc n ≤ user_pages
      → present (entry mid pgdir k) ≡ false
      → ((j : ℕ) → j < user_pages → j ≢ k → entry mid pgdir j ≡ entry m pgdir j)
      → (mid.kmem.freelist ≡ (
          if present (entry m pgdir k)
          then page_of (entry m pgdir k) ∷ m.kmem.freelist
          else m.kmem.freelist))
      → (mid.kmem.end_addr ≡ m.kmem.end_addr)
      → ((q : ℕ) → was q ≡ other → was' q ≡ other)
      → ((i : ℕ) → mid.words pgdir i ≡ m.words pgdir i)
      → IsUnmapped mid m' pgdir (k + 1) n was'
      → IsUnmapped m m' pgdir k (suc n) was
  unfolding pages_behind
  next-IsUnmapped n k m mid m' was was' top absent others freelist same_end kept dir_same u =
      record {
        role = u.role;
        space = u.space;
        absent = λ i lo hi. elim (ℕ_discrete i k) [
          | yes y ↦ rw (y, u.below k (omega arith) (omega arith)) absent
          | no y ↦ u.absent i (omega arith) (omega arith)
        ];
        below = λ i lt kt. u.below i (omega arith) kt ∙ others i kt (λ z. omega arith);
        above = λ i le kt. u.above i (omega arith) kt ∙ others i kt (λ z. omega arith);
        freelist =
            u.freelist
            ∙ rw
                (
                  pages_behind_same n (k + 1) m mid pgdir (omega arith)
                      (λ j lo jt. others j jt (λ z. omega arith)),
                  freelist,
                )
                (sym (append_if (present (entry m pgdir k)) (page_of (entry m pgdir k)) _ _));
        same_end = u.same_end ∙ same_end;
        kept = λ q z. u.kept q (kept q z);
        dir_same = λ i. u.dir_same i ∙ dir_same i;
      }

  pub unmap_from_lem :
      (fuel n k : ℕ) (m : Mem) (role : ℕ → Role)
      → IsSpace m pgdir role
      → n ≤ fuel
      → k + n ≤ user_pages
      → oldsz ≤ (k + n) * page_size
      → (0 < n → (k + n) * page_size < oldsz + page_size)
      → (m' : Mem) × (unmap_from fuel pgdir (k * page_size) oldsz m ≡ some m')
        × IsUnmapped m m' pgdir k n role
  unmap_from_lem fuel zero k m role h le top hi lo =
      (m, unmap_from_done fuel (k * page_size) m (omega arith), IsUnmapped-none k m role h)
  unmap_from_lem zero (suc n) k m role h le top hi lo = absurd (omega arith)
  unmap_from_lem (suc fuel) (suc n) k m role h le top hi lo =
      let more : ltb (k * page_size) oldsz ≡ true = lt→ltb _ _ (below_end k n (lo (omega arith))) in
      let kt : k < user_pages = omega arith in
      elim (Bool-cases (present (m.words pgdir (k / 1024)))) [
        | inl e ↦
            let (mid, unmapped, (role', h', kept), absent, others, freelist, same_end, dir_same) =
              unmap_page_lem m pgdir role h k kt e in
            let (m', rest, u) =
              unmap_from_lem fuel n (k + 1) mid role' h' (omega arith) (omega arith) (omega arith)
                (λ z. let y = lo (omega arith) in omega arith) in
            (
              m',
              round_there fuel k m mid kt more e unmapped ∙ rest,
              next-IsUnmapped n k m mid m' role role' top absent others freelist same_end kept
                  dir_same u,
            )
        | inr e ↦ elim (Bool-cases (leb ((k / 1024 + 1) * 1024) (k + suc n))) [
          | inl y ↦
              let z = leb→le _ _ y in
              let k' = (k / 1024 + 1) * 1024 in
              let (m', rest, u) =
                unmap_from_lem fuel (k + suc n - k') k' m role h (omega arith) (omega arith)
                  (omega arith) (λ z. let y = lo (omega arith) in omega arith) in
              (
                m',
                round_absent fuel k m kt more e ∙ rest,
                skip-IsUnmapped (k' - k) (suc n) (k + suc n - k') k k' m m' role (omega arith)
                    (omega arith) (no_table k m e) top u,
              )
          | inr y ↦
              let z : k + suc n < (k / 1024 + 1) * 1024 = ground arith in
              (
                m,
                round_absent fuel k m kt more e ∙ (unmap_from_done fuel _ m (omega arith)),
                skip-IsUnmapped (suc n) (suc n) 0 k (k + suc n) m m role (omega arith) refl
                    (λ i lo hi. no_table k m e i lo (omega arith)) top
                    (IsUnmapped-none (k + suc n) m role h),
              )
        ]
      ]
    where
      below_end : (k n : ℕ) → (k + suc n) * page_size < oldsz + page_size → k * page_size < oldsz
      below_end k n h = omega arith
