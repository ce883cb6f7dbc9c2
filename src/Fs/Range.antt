-- ===== src/Fs/Range.antt =====
-- The range of `bmap`: MAXFILE blocks, and a path to each.
use ele3021_operating_system.Base.{
  ℕ, ◌+◌, ◌-◌, ◌/◌, ◌%◌, ◌≤◌, ◌<◌, ◌≡◌, refl, ◌⊎◌, inl, inr, false, none, ltb, arith, dec_lt, List,
  [], ◌∷◌,
}
use ele3021_operating_system.Fs.{Store, bmap, ndirect, nindirect, ndindirect, ntindirect}
use ele3021_operating_system.Fs.Bmap.{IsPath, number}

abbrev pub maxfile : ℕ
maxfile = ndirect + nindirect + ndindirect + ntindirect

IsPath-of :
    (bn : ℕ) → bn < maxfile → (root : ℕ) × (js : List ℕ) × IsPath root js × (number root js ≡ bn)
IsPath-of bn lt = elim (dec_lt bn 10) [
  | yes direct ↦
      (bn, [], record { root_below = omega arith; levels = omega arith; digits = tt }, refl)
  | no n1 ↦ elim (dec_lt bn 138) [
    | yes single ↦ (
      10,
      (bn - 10) ∷ [],
      record { root_below = omega arith; levels = refl; digits = (omega arith, tt) },
      omega arith,
    )
    | no n2 ↦ elim (dec_lt bn 16522) [
      | yes double ↦ (
        11,
        ((bn - 138) / 128) ∷ ((bn - 138) % 128) ∷ [],
        record {
          root_below = omega arith;
          levels = refl;
          digits = (omega arith, (omega arith, tt));
        },
        omega arith,
      )
      | no n3 ↦
          let n = bn - 16522 in
          (
            12,
            (n / 128 / 128) ∷ (n / 128 % 128) ∷ (n % 128) ∷ [],
            record {
              root_below = omega arith;
              levels = refl;
              digits = (omega arith, (omega arith, (omega arith, tt)));
            },
            omega arith,
          )
    ]
  ]
]

-- `bmap` reaches exactly MAXFILE blocks: each smaller number is that of a path, and on any other
-- number it panics.
bmap-range :
    (bn : ℕ) (s : Store)
    → ((bn < maxfile) × ((root : ℕ) × (js : List ℕ) × IsPath root js × (number root js ≡ bn)))
      ⊎ ((maxfile ≤ bn) × (bmap bn s ≡ none))
unfolding bmap
bmap-range bn s = elim (dec_lt bn maxfile) [
  | yes lt ↦ inl (lt, IsPath-of bn lt)
  | no ge ↦
      let e1 : ltb bn 10 ≡ false = ground arith in
      let e2 : ltb (bn - 10) 128 ≡ false = ground arith in
      let e3 : ltb (bn - 10 - 128) 16384 ≡ false = ground arith in
      let e4 : ltb (bn - 10 - 128 - 16384) 2097152 ≡ false = ground arith in
      inr (omega arith, rw (e1, e2, e3, e4) refl)
]
