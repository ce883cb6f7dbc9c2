-- ===== src/Dir/Entries.antt =====
-- A directory is a finite map from names, cut to DIRSIZ bytes, to numbers of inodes.
use ele3021_operating_system.Base.{
  ℕ, ◌%◌, ◌^◌, ◌<◌, ◌≡◌, ◌≢◌, refl, sym, ap, ◌∙◌, ◌⊎◌, inl, inr, ◌↔◌, Bool, true, false, List, [],
  ◌∷◌, Option, none, some, ◌==◌, arith, Bool-cases, Option-cases, if◌then◌else◌,
}
use ele3021_operating_system.Base.Find.{find_index}
use ele3021_operating_system.Dir.{
  dirsiz, strncpy, Dirent, is_entry, dirlookup, entry_of, inum_at, write_at, place, dirlink,
}
use ele3021_operating_system.Dir.Names.{strncmp_lem, strncpy-strncpy}

module _ (f : Dirent → Bool) where
  -- The first entry that passes the test, by recursion.
  unfoldable first_of : List Dirent → Option ℕ
  first_of [] = none
  first_of (de ∷ des) = let rest = first_of des in if f de then some de.inum else rest

  first_of_found : (des : List Dirent) → inum_at (find_index f des) des ≡ first_of des
  unfolding find_index first_of
  first_of_found [] = refl
  first_of_found (de ∷ des) = elim (Bool-cases (f de)) [
    | inl e ↦ rw e refl
    | inr e ↦ elim (Option-cases (find_index f des)) [
      | inl g ↦ rw (e, g) (sym (sym (first_of_found des) ∙ ap (λ o. inum_at o des) g))
      | inr (i, g) ↦ rw (e, g) (sym (ap (λ o. inum_at o des) g) ∙ first_of_found des)
    ]
  ]

write_at-cons :
    (f : Dirent → Bool) (de d : Dirent) (des : List Dirent)
    → write_at (find_index f (d ∷ des)) de (d ∷ des)
      ≡ (if f d then de ∷ des else d ∷ write_at (find_index f des) de des)
unfolding find_index
write_at-cons f de d des = elim (Bool-cases (f d)) [
  | inl e ↦ rw e refl
  | inr e ↦ elim (Option-cases (find_index f des)) [
    | inl g ↦ rw (e, g) refl
    | inr (i, g) ↦ rw (e, g) refl
  ]
]

place-cons :
    (de d : Dirent) (des : List Dirent)
    → place de (d ∷ des) ≡ (if d.inum == 0 then de ∷ des else d ∷ place de des)
unfolding place
place-cons de d des = write_at-cons (λ d. d.inum == 0) de d des

module _ (f : Dirent → Bool) (unused : (d : Dirent) → (d.inum == 0) ≡ true → f d ≡ false)
    (de : Dirent) where
  first_of-place_other :
      f de ≡ false → (des : List Dirent) → first_of f (place de des) ≡ first_of f des
  unfolding first_of place find_index
  first_of-place_other h [] = rw h refl
  first_of-place_other h (d ∷ des) =
      ap (first_of f) (place-cons de d des) ∙ elim (Bool-cases (d.inum == 0)) [
        | inl e ↦ rw (e, h, unused d e) refl
        | inr e ↦ elim (Bool-cases (f d)) [
          | inl g ↦ rw (e, g) refl
          | inr g ↦ rw (e, g) (first_of-place_other h des)
        ]
      ]

  first_of-place :
      f de ≡ true
      → (des : List Dirent) → first_of f des ≡ none
      → first_of f (place de des) ≡ some de.inum
  unfolding first_of place find_index
  first_of-place h [] free = rw h refl
  first_of-place h (d ∷ des) free =
      ap (first_of f) (place-cons de d des) ∙ elim (Bool-cases (d.inum == 0)) [
        | inl e ↦ rw (e, h) refl
        | inr e ↦ elim (Bool-cases (f d)) [
          | inl g ↦ absurd (full (rw g at free))
          | inr g ↦ rw (e, g) (first_of-place h des (rw g at free))
        ]
      ]
    where
      full : some d.inum ≡ none → ⊥
      full q = cc

dirlookup-first_of : (n : List ℕ) (ds : List Dirent) → dirlookup n ds ≡ first_of (is_entry n) ds
unfolding dirlookup
dirlookup-first_of n ds = first_of_found (is_entry n) ds

Bool-iff : (a b : Bool) → ((a ≡ true) ↔ (b ≡ true)) → a ≡ b
Bool-iff true b h = sym (h.0 refl)
Bool-iff false true h = h.1 refl
Bool-iff false false h = refl

-- The part of a name that counts.
abbrev pub key : List ℕ → List ℕ
key name = strncpy dirsiz name

is_entry-unused : (name : List ℕ) (d : Dirent) → (d.inum == 0) ≡ true → is_entry name d ≡ false
is_entry-unused name d h = rw h refl

-- The new entry, looked up under a name.
is_entry-entry_of :
    (name other : List ℕ) (inum : ℕ)
    → 0 < inum % 2 ^ 16
    → (is_entry other (entry_of name inum) ≡ true) ↔ (key other ≡ key name)
is_entry-entry_of name other inum pos = elim (Bool-cases (inum % 2 ^ 16 == 0)) [
  | inl e ↦ absurd (ground arith)
  | inr e ↦ rw e (
    λ h. (strncmp_lem dirsiz other (key name)).0 h ∙ strncpy-strncpy dirsiz name,
    λ h. (strncmp_lem dirsiz other (key name)).1 (h ∙ sym (strncpy-strncpy dirsiz name)),
  )
]

-- `dirlink` fails exactly if the name is there. If not, and the inode's number is a `ushort` other
-- than 0, the name leads to that inode afterwards, and every name that differs in its first DIRSIZ
-- bytes leads where it led before.
pub dirlink_lem :
    (name : List ℕ) (inum : ℕ) (des : List Dirent)
    → 0 < inum
    → inum < 2 ^ 16
    → ((dirlink name inum des ≡ none) × ((ip : ℕ) × (dirlookup name des ≡ some ip)))
      ⊎ ((des' : List Dirent) × (dirlink name inum des ≡ some des')
          × (dirlookup name des ≡ none)
          × (dirlookup name des' ≡ some inum)
          × ((other : List ℕ) → key other ≢ key name → dirlookup other des' ≡ dirlookup other des))
unfolding dirlink
dirlink_lem name inum des pos lt = elim (Option-cases (dirlookup name des)) [
  | inr (ip, e) ↦ inl (rw (e, dirlink) refl, (ip, e))
  | inl e ↦ inr (place (entry_of name inum) des, rw (e, dirlink) refl, e, here e, others)
]
  where
    de : Dirent
    de = entry_of name inum

    small : inum % 2 ^ 16 ≡ inum
    small = omega arith

    here : dirlookup name des ≡ none → dirlookup name (place (entry_of name inum) des) ≡ some inum
    here e =
        dirlookup-first_of name (place (entry_of name inum) des)
        ∙ first_of-place (is_entry name) (is_entry-unused name) (entry_of name inum)
            ((is_entry-entry_of name name inum (omega (arith, small))).1 refl) des
            (sym (dirlookup-first_of name des) ∙ e)
        ∙ ap some small

    others :
        (other : List ℕ)
        → key other ≢ key name
        → dirlookup other (place (entry_of name inum) des) ≡ dirlookup other des
    others other ne =
        dirlookup-first_of other (place (entry_of name inum) des)
        ∙ first_of-place_other (is_entry other) (is_entry-unused other) (entry_of name inum) differs
            des
        ∙ sym (dirlookup-first_of other des)
      where
        differs : is_entry other (entry_of name inum) ≡ false
        differs = elim (Bool-cases (is_entry other (entry_of name inum))) [
          | inr f ↦ f
          | inl f ↦ absurd (ne ((is_entry-entry_of name other inum (omega (arith, small))).0 f))
        ]
