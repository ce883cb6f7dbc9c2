-- ===== src/Fs/Tree.antt =====
-- The blocks of a file form a tree: no block stands in two places.
use ele3021_operating_system.Base.{
  ℕ, zero, suc, ◌+◌, ◌-◌, ◌<◌, ◌≡◌, ◌≢◌, refl, sym, ap, subst, ◌∙◌, ◌⊎◌, inl, inr, Bool, true,
  false, some, >>=-eq-some, ◌==◌, ==_iff, arith, Bool-cases, some_eq, ℕ_discrete, update,
}
use ele3021_operating_system.Fs.{
  Store, Place, in_inode, in_block, read, write, find_free, balloc, get_slot,
}

-- `level b` is how many levels of indirection are below the block `b`: 0 for data.
module _ (level : ℕ → ℕ) where
  -- The places that belong to the file.
  abbrev pub Live : Place → Type 0
  Live (in_inode i) = i < 13
  Live (in_block b i) = (i < 128) × (0 < level b)

  -- The level of the block that a place names.
  abbrev pub depth : Place → ℕ
  depth (in_inode i) = i - 9
  depth (in_block b i) = level b - 1

  pub record IsTree (s : Store) : Type 0 where
    pub boot_used : s.used 0 ≡ true
    pub free_plain : (b : ℕ) → s.used b ≡ false → level b ≡ 0
    pub named_used : (p : Place) → Live p → read p s ≢ 0 → s.used (read p s) ≡ true
    pub named_level : (p : Place) → Live p → read p s ≢ 0 → level (read p s) ≡ depth p
    pub apart : (p q : Place) → Live p → Live q → read p s ≢ 0 → read p s ≡ read q s → p ≡ q

pub Place-cases : (p q : Place) → (p ≡ q) ⊎ (p ≢ q)
Place-cases (in_inode i) (in_inode j) = elim (ℕ_discrete i j) [
  | yes e ↦ inl (ap in_inode e)
  | no ne ↦ inr (λ h. ne cc)
]
Place-cases (in_inode i) (in_block c j) = inr (λ h. cc)
Place-cases (in_block b i) (in_inode j) = inr (λ h. cc)
Place-cases (in_block b i) (in_block c j) = elim (ℕ_discrete b c) [
  | no ne ↦ inr (λ h. ne cc)
  | yes e ↦ elim (ℕ_discrete i j) [
    | no ne ↦ inr (λ h. ne cc)
    | yes f ↦ inl (ap (λ z. in_block z i) e ∙ ap (in_block c) f)
  ]
]

pub read-write_self : (p : Place) (a : ℕ) (s : Store) → read p (write p a s) ≡ a
read-write_self (in_inode i) a s = ground arith
read-write_self (in_block b i) a s = rw ((==_iff b b).1 refl) (rw ((==_iff i i).1 refl) refl)

pub read-write_ne : (p q : Place) (a : ℕ) (s : Store) → p ≢ q → read q (write p a s) ≡ read q s
read-write_ne (in_inode i) (in_inode j) a s ne = elim (Bool-cases (j == i)) [
  | inl e ↦ absurd (ne (ap in_inode (sym ((==_iff j i).0 e))))
  | inr e ↦ rw e refl
]
read-write_ne (in_inode i) (in_block c j) a s ne = refl
read-write_ne (in_block b i) (in_inode j) a s ne = refl
read-write_ne (in_block b i) (in_block c j) a s ne = elim (Bool-cases (c == b)) [
  | inr e ↦ rw e refl
  | inl e ↦ elim (Bool-cases (j == i)) [
    | inl f ↦ absurd (
        ne (
          ap (λ z. in_block z i) (sym ((==_iff c b).0 e))
          ∙ ap (in_block c) (sym ((==_iff j i).0 f))))
    | inr f ↦ rw (e, f) (ap (λ z. s.words z j) (sym ((==_iff c b).0 e)))
  ]
]

find_free-some : (k b : ℕ) (used : ℕ → Bool) {c : ℕ} → find_free k b used ≡ some c → used c ≡ false
unfolding find_free
find_free-some zero b used h = cc
find_free-some (suc k) b used {c} h = elim (Bool-cases (used b)) [
  | inl e ↦ find_free-some k (b + 1) used (ground arith)
  | inr e ↦ let z : b ≡ c = ground arith in rw (← z) e
]

-- The store once the block `b` is marked and cleared.
abbrev pub taken : ℕ → Store → Store
taken b s = record s { used = update s.used b true; words = update s.words b (λ i. 0) }

-- What `get_slot` did at the place `p`: nothing but give its block, or a free block to it.
pub data Slot (p : Place) (s : Store) : ℕ → Store → Type 0 where
  there : (read p s ≢ 0) → Slot p s (read p s) s
  given : (b : ℕ) → s.used b ≡ false → read p s ≡ 0 → Slot p s b (write p b (taken b s))

pub get_slot-Slot :
    (p : Place) (s : Store) {a : ℕ} {s' : Store} → get_slot p s ≡ some (a, s') → Slot p s a s'
unfolding get_slot balloc
get_slot-Slot p s {a} {s'} h = elim (Bool-cases (read p s == 0)) [
  | inr e ↦ subst (λ r. Slot p s r.0 r.1) (some_eq (rw e at h)) (there (λ z. ground (arith, z)))
  | inl e ↦
      let (r, hr, e2) = >>=-eq-some (balloc s) (λ r. some (r.0, write p r.0 r.1)) (rw e at h) in
      let (b, hb, e1) = >>=-eq-some (find_free s.size 0 s.used) (λ b. some (b, taken b s)) hr in
      subst (λ r. Slot p s r.0 r.1) (some_eq e2)
        (subst (λ r. Slot p s r.0 (write p r.0 r.1)) (some_eq e1)
          (given b (find_free-some s.size 0 s.used hb) ((==_iff _ _).0 e)))
]
