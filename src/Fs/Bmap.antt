-- ===== src/Fs/Bmap.antt =====
-- `bmap` as a walk down the tree of a file's blocks.
use ele3021_operating_system.Base.{
  ℕ, zero, suc, ◌+◌, ◌-◌, ◌*◌, ◌/◌, ◌%◌, ◌<◌, ◌≡◌, refl, true, false, Option, none, some, ◌>>=◌,
  ◌==◌, ltb, lt→ltb, if◌then◌else◌, arith, List, [], ◌∷◌, length, All,
}
use ele3021_operating_system.Fs.{Store, in_inode, in_block, get_slot, bmap}

-- A way from the inode to a block of the file: an entry of `addrs`, and an index for each level.
pub record IsPath (root : ℕ) (js : List ℕ) : Type 0 where
  pub root_below : root < 13
  pub levels : length js ≡ root - 9
  pub digits : All (λ j. j < 128) js

-- The digits in base 128, after `n`.
abbrev pub value : ℕ → List ℕ → ℕ
value n [] = n
value n (j ∷ js) = value (n * 128 + j) js

-- How many blocks of the file come before those of the same level.
abbrev pub first : ℕ → ℕ
first zero = 0
first (suc zero) = 10
first (suc (suc zero)) = 10 + 128
first (suc (suc (suc n))) = 10 + 128 + 128 * 128

-- The number of the block at the end of a path, in the file.
abbrev pub number : ℕ → List ℕ → ℕ
number root [] = root
number root (j ∷ js) = first (root - 9) + value 0 (j ∷ js)

-- The block at the end of a path from block `a`; 0 if there is none.
abbrev pub descend : Store → ℕ → List ℕ → ℕ
descend s a [] = a
descend s a (j ∷ js) = if a == 0 then 0 else descend s (s.words a j) js

abbrev pub lookup : Store → ℕ → List ℕ → ℕ
lookup s root js = descend s (s.addrs root) js

-- The steps of `bmap` below the inode.
unfoldable pub follow : ℕ × Store → List ℕ → Option (ℕ × Store)
follow r [] = some r
follow r (j ∷ []) = get_slot (in_block r.0 j) r.1
follow r (j ∷ k ∷ js) = get_slot (in_block r.0 j) r.1 >>= λ r'. follow r' (k ∷ js)

pub >>=-some : (m : Option (ℕ × Store)) → (m >>= λ r. some r) ≡ m
>>=-some none = refl
>>=-some (some r) = refl

module _ (s : Store) where
  pub bmap-direct : (i : ℕ) → i < 10 → bmap i s ≡ get_slot (in_inode i) s
  unfolding bmap
  bmap-direct i lt = rw (lt→ltb i 10 lt) refl

  pub bmap-single :
      (j : ℕ) → j < 128 → bmap (10 + j) s ≡ (get_slot (in_inode 10) s >>= λ r. follow r (j ∷ []))
  unfolding bmap follow
  bmap-single j lt =
      let e1 : ltb (10 + j) 10 ≡ false = ground arith in
      let e2 : 10 + j - 10 ≡ j = omega arith in rw (e1, e2, lt→ltb j 128 lt) refl

  pub bmap-double :
      (j k : ℕ)
      → j < 128
      → k < 128
      → bmap (138 + (j * 128 + k)) s ≡ (get_slot (in_inode 11) s >>= λ r. follow r (j ∷ k ∷ []))
  unfolding bmap follow
  bmap-double j k lj lk =
      let n = j * 128 + k in
      let e1 : ltb (138 + n) 10 ≡ false = ground arith in
      let e2 : ltb (138 + n - 10) 128 ≡ false = ground arith in
      let e3 : 138 + n - 10 - 128 ≡ n = omega arith in
      let e4 : n / 128 ≡ j = omega arith in
      let e5 : n % 128 ≡ k = omega arith in
      let e6 : ltb n 16384 ≡ true = ground arith in rw (e1, e2, e3, e6, e4, e5) refl

  pub bmap-triple :
      (i j k : ℕ)
      → i < 128
      → j < 128
      → k < 128
      → bmap (16522 + ((i * 128 + j) * 128 + k)) s
        ≡ (get_slot (in_inode 12) s >>= λ r. follow r (i ∷ j ∷ k ∷ []))
  unfolding bmap follow
  bmap-triple i j k li lj lk =
      let n = (i * 128 + j) * 128 + k in
      let e1 : ltb (16522 + n) 10 ≡ false = ground arith in
      let e2 : ltb (16522 + n - 10) 128 ≡ false = ground arith in
      let e3 : ltb (16522 + n - 10 - 128) 16384 ≡ false = ground arith in
      let e4 : 16522 + n - 10 - 128 - 16384 ≡ n = omega arith in
      let e5 : n / 16384 ≡ i = omega arith in
      let e6 : n % 16384 / 128 ≡ j = omega arith in
      let e7 : n % 16384 % 128 ≡ k = omega arith in
      let e8 : ltb n 2097152 ≡ true = ground arith in rw (e1, e2, e3, e4, e8, e5, e6, e7) refl
