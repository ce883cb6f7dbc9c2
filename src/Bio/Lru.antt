-- ===== src/Bio/Lru.antt =====
-- The buffer cache holds a block once, and gives up the unused buffer that was used longest ago.
use ele3021_operating_system.Base.{
  ℕ, ◌<◌, ◌≡◌, ◌≢◌, refl, ap, ◌⊎◌, inl, inr, Bool, true, false, List, [], ◌∷◌, ◌++◌, Option, none,
  some, get_elem?, arith, Bool-cases, Option-cases, All, Any, IsNodup,
}
use ele3021_operating_system.Base.Find.{modify, get_elem?-modify_self, get_elem?-modify_ne}
use ele3021_operating_system.Bio.{
  Buf, Cache, test, walk_next, walk_prev, is_block, is_reusable, hold, recycle, bget,
}

abbrev pub Member : ℕ → List ℕ → Type 0
Member i l = Any (λ j. j ≡ i) l

-- A block of a device other than 0 is in one buffer at most, and every buffer is in the list, once.
-- The buffers of `binit` all carry block 0 of device 0.
pub record IsCache (k : Cache) : Type 0 where
  pub unique :
      (i j : ℕ) (a b : Buf)
      → get_elem? k.bufs i ≡ some a
      → get_elem? k.bufs j ≡ some b
      → 0 < a.dev
      → a.dev ≡ b.dev
      → a.blockno ≡ b.blockno
      → i ≡ j
  pub listed : (i : ℕ) (a : Buf) → get_elem? k.bufs i ≡ some a → Member i k.order
  pub distinct : IsNodup k.order

module _ (f : ℕ → Bool) where
  walk_next-some : (l : List ℕ) {i : ℕ} → walk_next f l ≡ some i → f i ≡ true
  unfolding walk_next
  walk_next-some [] h = cc
  walk_next-some (j ∷ l) {i} h = elim (Bool-cases (f j)) [
    | inl e ↦ let z : j ≡ i = ground arith in rw (← z) e
    | inr e ↦ walk_next-some l (ground arith)
  ]

  walk_next-none : (l : List ℕ) → walk_next f l ≡ none → All (λ i. f i ≡ false) l
  unfolding walk_next
  walk_next-none [] h = tt
  walk_next-none (j ∷ l) h = elim (Bool-cases (f j)) [
    | inl e ↦ absurd (ground arith)
    | inr e ↦ (e, walk_next-none l (ground arith))
  ]

  -- The last entry that passes.
  pub record IsLast (l : List ℕ) (i : ℕ) : Type 0 where
    pub passes : f i ≡ true
    pub before : List ℕ
    pub after : List ℕ
    pub split : l ≡ before ++ (i ∷ after)
    pub others : All (λ j. f j ≡ false) after

  walk_prev_lem :
      (l : List ℕ)
      → ((walk_prev f l ≡ none) × All (λ i. f i ≡ false) l)
        ⊎ ((i : ℕ) × (walk_prev f l ≡ some i) × IsLast l i)
  unfolding walk_prev
  walk_prev_lem [] = inl (refl, tt)
  walk_prev_lem (j ∷ l) = elim (walk_prev_lem l) [
    | inr (i, e, r) ↦ inr (
      i,
      rw e refl,
      record {
        passes = r.passes;
        before = j ∷ r.before;
        after = r.after;
        split = ap (λ l. j ∷ l) r.split;
        others = r.others;
      },
    )
    | inl (e, none_left) ↦ elim (Bool-cases (f j)) [
      | inl g ↦ inr (
        j,
        rw (e, g) refl,
        record { passes = g; before = []; after = l; split = refl; others = none_left },
      )
      | inr g ↦ inl (rw (e, g) refl, (g, none_left))
    ]
  ]

test-some :
    (f : Buf → Bool) (o : Option Buf) → test f o ≡ true → (b : Buf) × (o ≡ some b) × (f b ≡ true)
test-some f none h = cc
test-some f (some b) h = (b, refl, h)

abbrev pub of_block : Cache → ℕ → ℕ → ℕ → Bool
of_block k dev blockno i = test (is_block dev blockno) (get_elem? k.bufs i)

abbrev pub unused_at : Cache → ℕ → Bool
unused_at k i = test is_reusable (get_elem? k.bufs i)

-- From `k` to `k'` only the buffer `i` changes, by `f`.
pub record Changes (k : Cache) (i : ℕ) (f : Buf → Buf) (k' : Cache) : Type 0 where
  pub buf : Buf
  pub before : get_elem? k.bufs i ≡ some buf
  pub after : get_elem? k'.bufs i ≡ some (f buf)
  pub others : (j : ℕ) → i ≢ j → get_elem? k'.bufs j ≡ get_elem? k.bufs j
  pub same_order : k'.order ≡ k.order

-- What `bget` does.
abbrev pub Gives : ℕ → ℕ → Cache → Option (ℕ × Cache) → Type 0
Gives dev blockno k none =
    All (λ i. of_block k dev blockno i ≡ false) k.order × All (λ i. unused_at k i ≡ false) k.order
Gives dev blockno k (some (i, k')) =
    ((of_block k dev blockno i ≡ true) × Changes k i hold k')
    ⊎ (All (λ j. of_block k dev blockno j ≡ false) k.order
        × IsLast (unused_at k) k.order i
        × Changes k i (recycle dev blockno) k')

modify-Changes :
    (k : Cache) (i : ℕ) (f : Buf → Buf) (g : Buf → Bool)
    → test g (get_elem? k.bufs i) ≡ true
    → Changes k i f (record k { bufs = modify i f k.bufs })
modify-Changes k i f g h =
    let (b, at, p) = test-some g _ h in
    record {
      buf = b;
      before = at;
      after = get_elem?-modify_self f i k.bufs b at;
      others = λ j ne. get_elem?-modify_ne f i j k.bufs ne;
      same_order = refl;
    }

-- `bget` gives the buffer that holds the block, with its content, and counts one user more; if none
-- does, it gives the last unused clean buffer of the list for the block; it panics exactly when
-- there is no such buffer either.
pub bget-Gives : (dev blockno : ℕ) (k : Cache) → Gives dev blockno k (bget dev blockno k)
unfolding bget
bget-Gives dev blockno k = elim (Option-cases (walk_next (of_block k dev blockno) k.order)) [
  | inr (i, e) ↦
      let at = walk_next-some (of_block k dev blockno) k.order e in
      rw (e, bget) (inl (at, modify-Changes k i hold (is_block dev blockno) at))
  | inl e ↦
      let no_hit = walk_next-none (of_block k dev blockno) k.order e in
      elim (walk_prev_lem (unused_at k) k.order) [
        | inl (g, no_free) ↦ rw (e, g, bget) (no_hit, no_free)
        | inr (i, g, last) ↦
            rw (e, g, bget)
              (inr (no_hit, last, modify-Changes k i (recycle dev blockno) is_reusable last.passes))
      ]
]
