-- ===== src/Bio/Keep.antt =====
-- The invariant of the buffer cache, and what `brelse` does to the list.
use ele3021_operating_system.Base.{
  ℕ, ◌≡◌, ◌≢◌, refl, sym, ap, subst, ◌∙◌, ◌⊎◌, inl, inr, false, List, [], ◌∷◌, some, get_elem?,
  arith, All, some_eq, ℕ_discrete, IsNodup,
}
use ele3021_operating_system.Bio.{Buf, Cache, test, is_block, hold, recycle, bget}
use ele3021_operating_system.Bio.Lru.{Member, IsCache, Changes, Gives, bget-Gives, of_block}

Member-All : (P : ℕ → Type 0) (i : ℕ) (l : List ℕ) → Member i l → All P l → P i
Member-All P i [] m h = absurd m
Member-All P i (j ∷ l) (inl e) h = subst P e h.0
Member-All P i (j ∷ l) (inr m) h = Member-All P i l m h.1

-- The block that the buffer `a` holds is held, at the same place, by a buffer of `k`.
abbrev pub Tagged : Cache → ℕ → Buf → Type 0
Tagged k i a = (b : Buf) × (get_elem? k.bufs i ≡ some b) × (b.dev ≡ a.dev) × (b.blockno ≡ a.blockno)

-- A step that moves no block keeps the invariant, if the list stays sound.
pub IsCache-Tagged :
    (k k' : Cache)
    → ((i : ℕ) (a : Buf) → get_elem? k'.bufs i ≡ some a → Tagged k i a)
    → ((i : ℕ) → Member i k.order → Member i k'.order)
    → IsNodup k'.order
    → IsCache k
    → IsCache k'
IsCache-Tagged k k' from kept nodup ok = record {
  unique = λ i j a b p q dev same_dev same_block.
      let (a', p', da, ba) = from i a p in
      let (b', q', db, bb) = from j b q in
      ok.unique i j a' b' p' q' (omega arith) (omega arith) (omega arith);
  listed = λ i a p. let (a', p', da, ba) = from i a p in kept i (ok.listed i a' p');
  distinct = nodup;
}

-- What stands at `j` after a change at `i`.
Changes-at :
    (k : Cache) (i : ℕ) (f : Buf → Buf) (k' : Cache)
    → Changes k i f k'
    → (j : ℕ) (a : Buf) → get_elem? k'.bufs j ≡ some a
    → ((b : Buf) × (i ≡ j) × (get_elem? k.bufs i ≡ some b) × (f b ≡ a))
      ⊎ ((i ≢ j) × (get_elem? k.bufs j ≡ some a))
Changes-at k i f k' r j a at = elim (ℕ_discrete i j) [
  | yes e ↦ inl (r.buf, e, r.before, some_eq (sym r.after ∙ rw e at))
  | no ne ↦ inr (ne, sym (r.others j ne) ∙ at)
]

-- A change that leaves the device and the block alone.
pub Changes-Tagged :
    (k : Cache) (i : ℕ) (f : Buf → Buf) (k' : Cache)
    → ((b : Buf) → ((f b).dev ≡ b.dev) × ((f b).blockno ≡ b.blockno))
    → Changes k i f k'
    → (j : ℕ) (a : Buf) → get_elem? k'.bufs j ≡ some a
    → Tagged k j a
Changes-Tagged k i f k' same r j a at = elim (Changes-at k i f k' r j a at) [
  | inl (b, e, p, q) ↦
      (b, rw (← e) p, sym (same b).0 ∙ ap (λ z. z.dev) q, sym (same b).1 ∙ ap (λ z. z.blockno) q)
  | inr (ne, p) ↦ (a, p, refl, refl)
]

is_block-false :
    (dev blockno : ℕ) (a : Buf) → is_block dev blockno a ≡ false → a.dev ≡ dev → a.blockno ≢ blockno
is_block-false dev blockno a h e g = ground arith

Gives-IsCache :
    (dev blockno i : ℕ) (k k' : Cache) → IsCache k → Gives dev blockno k (some (i, k')) → IsCache k'
Gives-IsCache dev blockno i k k' ok (inl (hit, r)) =
    IsCache-Tagged k k' (Changes-Tagged k i hold k' (λ b. (refl, refl)) r)
      (λ j m. subst (Member j) (sym r.same_order) m) (subst IsNodup (sym r.same_order) ok.distinct)
      ok
Gives-IsCache dev blockno i k k' ok (inr (no_hit, last, r)) = record {
  unique = λ p q a b pa qb real same_dev same_block. elim (Changes-at k i new k' r p a pa) [
    | inl (a0, ep, ha, ea) ↦ elim (Changes-at k i new k' r q b qb) [
      | inl (b0, eq, hb, eb) ↦ sym ep ∙ eq
      | inr (nq, hb) ↦ absurd (
          fresh q b hb (sym same_dev ∙ sym (ap (λ z. z.dev) ea))
            (sym same_block ∙ sym (ap (λ z. z.blockno) ea)))
    ]
    | inr (np, ha) ↦ elim (Changes-at k i new k' r q b qb) [
      | inl (b0, eq, hb, eb) ↦ absurd (
          fresh p a ha (same_dev ∙ sym (ap (λ z. z.dev) eb))
            (same_block ∙ sym (ap (λ z. z.blockno) eb)))
      | inr (nq, hb) ↦ ok.unique p q a b ha hb real same_dev same_block
    ]
  ];
  listed = λ j a at. subst (Member j) (sym r.same_order) (elim (Changes-at k i new k' r j a at) [
    | inl (b, e, p, q) ↦ ok.listed j b (rw (← e) p)
    | inr (ne, p) ↦ ok.listed j a p
  ]);
  distinct = subst IsNodup (sym r.same_order) ok.distinct;
}
  where
    new : Buf → Buf
    new = recycle dev blockno

    fresh : (j : ℕ) (a : Buf) → get_elem? k.bufs j ≡ some a → a.dev ≡ dev → a.blockno ≢ blockno
    fresh j a at = is_block-false dev blockno a (
        sym (ap (test (is_block dev blockno)) at)
        ∙ Member-All (λ z. of_block k dev blockno z ≡ false) j k.order (ok.listed j a at) no_hit)

-- `bget` never brings a block into the cache twice: it keeps the invariant.
pub bget-IsCache :
    (dev blockno : ℕ) (k : Cache) {i : ℕ} {k' : Cache}
    → IsCache k
    → bget dev blockno k ≡ some (i, k')
    → IsCache k'
bget-IsCache dev blockno k {i} {k'} ok h =
    Gives-IsCache dev blockno i k k' ok (subst (Gives dev blockno k) h (bget-Gives dev blockno k))
