-- ===== src/Bio/Release.antt =====
-- `brelse` and `binit`: the list of the buffer cache stays in order of use.
use ele3021_operating_system.Base.{
  ℕ, zero, suc, ◌+◌, ◌-◌, ◌%◌, ◌^◌, ◌<◌, ◌≡◌, ◌≢◌, refl, sym, ap, ◌∙◌, ◌⊎◌, inl, inr, List, [], ◌∷◌,
  ◌++◌, some, get_elem?, ◌==◌, ==_iff, arith, Bool-cases, All, All-map, some_eq, ℕ_discrete,
  IsNodup, replicate,
}
use ele3021_operating_system.Base.Find.{modify, get_elem?-modify_self, get_elem?-modify_ne}
use ele3021_operating_system.Bio.{Buf, Cache, nbuf, binit, link_all, unlink, release, brelse}
use ele3021_operating_system.Bio.Lru.{Member, IsCache}
use ele3021_operating_system.Bio.Keep.{Tagged, IsCache-Tagged, Changes-Tagged}

module _ (i : ℕ) where
  unlink-fresh : (l : List ℕ) → All (λ j. i ≢ j) l → unlink i l ≡ l
  unfolding unlink
  unlink-fresh [] h = refl
  unlink-fresh (j ∷ l) h = elim (Bool-cases (i == j)) [
    | inl e ↦ absurd (h.0 ((==_iff i j).0 e))
    | inr e ↦ rw e (ap (λ l. j ∷ l) (unlink-fresh l h.1))
  ]

  unlink-gone : (l : List ℕ) → All (λ j. i ≢ j) (unlink i l)
  unfolding unlink
  unlink-gone [] = tt
  unlink-gone (j ∷ l) = elim (Bool-cases (i == j)) [
    | inl e ↦ rw e (unlink-gone l)
    | inr e ↦ rw e (λ z. absurd (ground (arith, z)), unlink-gone l)
  ]

  unlink-All : (P : ℕ → Type 0) (l : List ℕ) → All P l → All P (unlink i l)
  unfolding unlink
  unlink-All P [] h = tt
  unlink-All P (j ∷ l) h = elim (Bool-cases (i == j)) [
    | inl e ↦ rw e (unlink-All P l h.1)
    | inr e ↦ rw e (h.0, unlink-All P l h.1)
  ]

  unlink-IsNodup : (l : List ℕ) → IsNodup l → IsNodup (unlink i l)
  unfolding unlink
  unlink-IsNodup [] h = tt
  unlink-IsNodup (j ∷ l) h = elim (Bool-cases (i == j)) [
    | inl e ↦ rw e (unlink-IsNodup l h.1)
    | inr e ↦ rw e (unlink-All (λ y. j ≢ y) l h.0, unlink-IsNodup l h.1)
  ]

  unlink-Member : (j : ℕ) (l : List ℕ) → i ≢ j → Member j l → Member j (unlink i l)
  unfolding unlink
  unlink-Member j [] ne m = m
  unlink-Member j (x ∷ l) ne m = elim (Bool-cases (i == x)) [
    | inl e ↦
        rw e
          (elim m [ inl z ↦ absurd (ne ((==_iff i x).0 e ∙ z)) | inr z ↦ unlink-Member j l ne z ])
    | inr e ↦ rw e (elim m [ inl z ↦ inl z | inr z ↦ inr (unlink-Member j l ne z) ])
  ]

  -- What stood before and after it stays in its order.
  pub record Unlinked (l r : List ℕ) : Type 0 where
    pub before : List ℕ
    pub after : List ℕ
    pub split : l ≡ before ++ (i ∷ after)
    pub joined : r ≡ before ++ after

  unlink-Unlinked : (l : List ℕ) → IsNodup l → Member i l → Unlinked l (unlink i l)
  unfolding unlink
  unlink-Unlinked [] nd m = absurd m
  unlink-Unlinked (j ∷ l) nd m = elim (Bool-cases (i == j)) [
    | inl e ↦
        let z : i ≡ j = (==_iff i j).0 e in
        rw e (record {
          before = [];
          after = l;
          split = ap (λ x. x ∷ l) (sym z);
          joined = unlink-fresh l (All-map _ _ (λ y ne h. ne (sym z ∙ h)) l nd.0);
        })
    | inr e ↦ rw e (elim m [
      | inl z ↦ absurd (ground (arith, z))
      | inr z ↦
          let r = unlink-Unlinked l nd.1 z in
          record {
            before = j ∷ r.before;
            after = r.after;
            split = ap (λ x. j ∷ x) r.split;
            joined = ap (λ x. j ∷ x) r.joined;
          }
    ])
  ]

abbrev released : ℕ → Cache → List Buf
released i k = modify i release k.bufs

-- The two branches of `brelse`.
brelse-cases :
    (i : ℕ) (k : Cache) (b : Buf)
    → get_elem? k.bufs i ≡ some b
    → (((b.refcnt + 2 ^ 32 - 1) % 2 ^ 32 ≡ 0)
        × (brelse i k ≡ record { bufs = released i k; order = i ∷ unlink i k.order }))
      ⊎ (((b.refcnt + 2 ^ 32 - 1) % 2 ^ 32 ≢ 0)
          × (brelse i k ≡ record { bufs = released i k; order = k.order }))
unfolding brelse
brelse-cases i k b at =
    let e = get_elem?-modify_self release i k.bufs b at in
    elim (Bool-cases ((b.refcnt + 2 ^ 32 - 1) % 2 ^ 32 == 0)) [
      | inl z ↦ inl ((==_iff _ _).0 z, rw (e, z) refl)
      | inr z ↦ inr (λ h. ground (arith, h), rw (e, z) refl)
    ]

-- A `brelse` of a buffer in use counts one user less and changes no other buffer. If that was the last
-- user, the buffer goes to the head of the list, and the others keep their order; else the list stays.
brelse_lem :
    (i : ℕ) (k : Cache) (b : Buf)
    → IsCache k
    → get_elem? k.bufs i ≡ some b
    → 0 < b.refcnt
    → b.refcnt < 2 ^ 32
    → let k' = brelse i k in
      (get_elem? k'.bufs i ≡ some (record b { refcnt = b.refcnt - 1 }))
      × ((j : ℕ) → i ≢ j → get_elem? k'.bufs j ≡ get_elem? k.bufs j)
      × (((1 < b.refcnt) × (k'.order ≡ k.order))
          ⊎ ((b.refcnt ≡ 1) × ((rest : List ℕ) × (k'.order ≡ i ∷ rest) × Unlinked i k.order rest)))
brelse_lem i k b ok at used small = elim (brelse-cases i k b at) [
  | inl (z, e) ↦ rw e (
    here,
    others,
    inr (
      omega arith,
      (unlink i k.order, refl, unlink-Unlinked i k.order ok.distinct (ok.listed i b at)),
    ),
  )
  | inr (z, e) ↦ rw e (here, others, inl (omega arith, refl))
]
  where
    here : get_elem? (released i k) i ≡ some (record b { refcnt = b.refcnt - 1 })
    here =
        get_elem?-modify_self release i k.bufs b at
        ∙ ap (λ n. some (let z : Buf = record b { refcnt = n } in z)) (omega arith)

    others : (j : ℕ) → i ≢ j → get_elem? (released i k) j ≡ get_elem? k.bufs j
    others j ne = get_elem?-modify_ne release i j k.bufs ne

-- `brelse` keeps the invariant.
pub brelse-IsCache :
    (i : ℕ) (k : Cache) (b : Buf) → IsCache k → get_elem? k.bufs i ≡ some b → IsCache (brelse i k)
brelse-IsCache i k b ok at = elim (brelse-cases i k b at) [
  | inl (z, e) ↦ rw e (
      IsCache-Tagged k (record { bufs = released i k; order = i ∷ unlink i k.order }) tagged
        (λ j m. elim (ℕ_discrete i j) [
          | yes same ↦ inl same
          | no ne ↦ inr (unlink-Member i j k.order ne m)
        ])
        (unlink-gone i k.order, unlink-IsNodup i k.order ok.distinct) ok)
  | inr (z, e) ↦ rw e (
      IsCache-Tagged k (record { bufs = released i k; order = k.order }) tagged (λ j m. m)
        ok.distinct ok)
]
  where
    tagged : (j : ℕ) (a : Buf) → get_elem? (released i k) j ≡ some a → Tagged k j a
    tagged =
        Changes-Tagged k i release (record k { bufs = released i k }) (λ b. (refl, refl))
          (record {
            buf = b;
            before = at;
            after = get_elem?-modify_self release i k.bufs b at;
            others = λ j ne. get_elem?-modify_ne release i j k.bufs ne;
            same_order = refl;
          })

get_elem?-replicate :
    (n : ℕ) (a b : Buf) (i : ℕ) → get_elem? (replicate n a) i ≡ some b → (i < n) × (a ≡ b)
get_elem?-replicate zero a b i h = cc
get_elem?-replicate (suc n) a b zero h = (omega arith, some_eq h)
get_elem?-replicate (suc n) a b (suc i) h =
    let (lt, e) = get_elem?-replicate n a b i h in (omega arith, e)

link_all-Member : (n i : ℕ) → i < n → Member i (link_all n)
link_all-Member zero i lt = absurd (omega arith)
link_all-Member (suc n) i lt = elim (ℕ_discrete n i) [
  | yes e ↦ inl e
  | no ne ↦ inr (link_all-Member n i (omega arith))
]

link_all-below : (n : ℕ) → All (λ y. y < n) (link_all n)
link_all-below zero = tt
link_all-below (suc n) =
    (omega arith, All-map _ _ (λ y h. omega arith) (link_all n) (link_all-below n))

link_all-IsNodup : (n : ℕ) → IsNodup (link_all n)
link_all-IsNodup zero = tt
link_all-IsNodup (suc n) =
    (All-map _ _ (λ y h e. omega arith) (link_all n) (link_all-below n), link_all-IsNodup n)

-- The cache that `binit` leaves is sound.
pub binit-IsCache : IsCache binit
binit-IsCache = record {
  unique = λ i j a b p q real same_dev same_block.
      let none_there = ap (λ z. z.dev) (get_elem?-replicate nbuf _ a i p).1 in absurd (omega arith);
  listed = λ i a p. link_all-Member nbuf i (get_elem?-replicate nbuf _ a i p).0;
  distinct = link_all-IsNodup nbuf;
}
