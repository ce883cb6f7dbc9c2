-- ===== src/Log/Redo.antt =====
-- What a log says of the disk, and the laws of reading it: the last slot of a block counts.
use ele3021_operating_system.Base.{
  ℕ, zero, suc, ◌+◌, ◌≤◌, ◌<◌, ◌≡◌, refl, ◌≢◌, ◌⊎◌, inl, inr, List, Bool-cases, get_or, arith, ◌==◌,
  if◌then◌else◌, dec_lt, subst, length, ==_iff, ap, sym, ◌∙◌, false,
}
use mathlib.Core.Bool.{false≢true}
use ele3021_operating_system.Log.{Block, Disk, log_size}

-- The disk `f` seen through the first `n` entries of the log that starts at `start`.
pub redo : ℕ → List ℕ → ℕ → (ℕ → Block) → ℕ → Block
redo start l zero f b = f b
redo start l (suc n) f b = if b == get_or l n 0 then f (start + n + 1) else redo start l n f b

-- The home of every entry lies outside the slots of the log.
abbrev pub Outside : ℕ → List ℕ → ℕ → Type 0
Outside start l n = (i : ℕ) → i < n → (get_or l i 0 < start) ⊎ (start + log_size < get_or l i 0)

module _ (start : ℕ) (l : List ℕ) where
  -- The entry that was added last wins.
  pub redo-suc :
      (n : ℕ) (f : ℕ → Block) (b : ℕ)
      → redo start l (suc n) f b
        ≡ (if b == get_or l n 0 then f (start + n + 1) else redo start l n f b)
  unfolding redo
  redo-suc n f b = refl

  pub redo-zero : (f : ℕ → Block) (b : ℕ) → redo start l 0 f b ≡ f b
  unfolding redo
  redo-zero f b = refl

  -- A block that the log does not name is left alone.
  pub redo-other :
      (n : ℕ) (f : ℕ → Block) (b : ℕ)
      → ((i : ℕ) → i < n → b ≢ get_or l i 0)
      → redo start l n f b ≡ f b
  unfolding redo
  redo-other zero f b h = refl
  redo-other (suc n) f b h =
      ground (arith, h n (omega arith), redo-other n f b (λ i lt. h i (omega arith)))

  -- No slot of the log is the home of an entry.
  pub slot-ne-home :
      (n i k : ℕ) → Outside start l n → i < n → k < log_size → start + k + 1 ≢ get_or l i 0
  slot-ne-home n i k out p lt = avoid (out i p)
    where
      avoid : {x : ℕ} → (x < start) ⊎ (start + log_size < x) → start + k + 1 ≢ x
      avoid (inl p) = omega arith
      avoid (inr p) = omega arith

  -- The slots themselves are left alone.
  pub redo-slot :
      (n : ℕ) (f : ℕ → Block) (k : ℕ)
      → Outside start l n
      → k < log_size
      → redo start l n f (start + k + 1) ≡ f (start + k + 1)
  redo-slot n f k out lt = redo-other n f (start + k + 1) (λ i p. slot-ne-home n i k out p lt)

  -- The disk `g` has the slots of `f`, and at `b` a first part of the log applied already.
  module _ (f g : ℕ → Block) (b : ℕ) where
    abbrev SameSlots : ℕ → Type 0
    SameSlots n = (k : ℕ) → k < n → g (start + k + 1) ≡ f (start + k + 1)

    redo-redo_self :
        (n : ℕ) → SameSlots n → g b ≡ redo start l n f b → redo start l n g b ≡ redo start l n f b
    unfolding redo
    redo-redo_self zero same e = e
    redo-redo_self (suc n) same e = elim (Bool-cases (b == get_or l n 0)) [
      | inl named ↦ ground (arith, same n (omega arith))
      | inr other ↦ ground (arith, redo-redo_self n (λ k lt. same k (omega arith)) (ground arith))
    ]

    pub redo-redo :
        (n t : ℕ)
        → SameSlots n
        → t ≤ n
        → g b ≡ redo start l t f b
        → redo start l n g b ≡ redo start l n f b
    unfolding redo
    redo-redo zero t same le e = rw (← zero_of t le) at e
      where
        zero_of : (t : ℕ) → t ≤ 0 → 0 ≡ t
        zero_of t le = omega arith
    redo-redo (suc n) t same le e = elim (dec_lt n t) [
      | yes last ↦
          let whole : t ≡ suc n = omega arith in
          redo-redo_self (suc n) same (subst (λ k. g b ≡ redo start l k f b) whole e)
      | no below ↦ ground (
        arith,
        same n (omega arith),
        redo-redo n t (λ k lt. same k (omega arith)) (omega arith) e,
      )
    ]

-- No block stands twice among the first `n` entries.
abbrev pub IsDistinct : List ℕ → ℕ → Type 0
IsDistinct l n = (i j : ℕ) → i < n → j < n → get_or l i 0 ≡ get_or l j 0 → i ≡ j

-- Then each is read from its own slot.
pub redo-entry :
    (start : ℕ) (l : List ℕ) (n : ℕ) (f : ℕ → Block) (i : ℕ)
    → IsDistinct l n
    → i < n
    → redo start l n f (get_or l i 0) ≡ f (start + i + 1)
unfolding redo
redo-entry start l zero f i dis lt = absurd (omega arith)
redo-entry start l (suc n) f i dis lt = elim (Bool-cases (get_or l i 0 == get_or l n 0)) [
  | inl e ↦ rw e (ap (λ k. f (start + k + 1)) (sym (dis i n lt (omega arith) ((==_iff _ _).0 e))))
  | inr e ↦
      rw e (redo-entry start l n f i (λ a b p q. dis a b (omega arith) (omega arith)) (other e))
]
  where
    other : (get_or l i 0 == get_or l n 0) ≡ false → i < n
    other e = elim (dec_lt i n) [
      | yes p ↦ p
      | no p ↦
          let q : i ≡ n = omega arith in
          absurd (false≢true (sym e ∙ (==_iff _ _).1 (ap (λ z. get_or l z 0) q)))
    ]

-- Only the first `n` entries count.
pub redo-blocks :
    (start : ℕ) (l k : List ℕ) (n : ℕ) (f : ℕ → Block) (b : ℕ)
    → ((i : ℕ) → i < n → get_or l i 0 ≡ get_or k i 0)
    → redo start l n f b ≡ redo start k n f b
unfolding redo
redo-blocks start l k zero f b h = refl
redo-blocks start l k (suc n) f b h =
    ground (arith, h n (omega arith), redo-blocks start l k n f b (λ i lt. h i (omega arith)))

-- The disk as its log tells it: what recovery is to bring about.
abbrev pub view : ℕ → Disk → ℕ → Block
view start d b = redo start d.head.block d.head.n d.blocks b

-- A disk whose header is sound: it fits, and names no block of the log.
pub record IsLogDisk (start : ℕ) (d : Disk) : Type 0 where
  pub fits : d.head.n ≤ log_size
  pub whole : length d.head.block ≡ log_size
  pub outside : Outside start d.head.block d.head.n
