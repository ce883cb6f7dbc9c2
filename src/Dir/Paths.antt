-- ===== src/Dir/Paths.antt =====
-- `namex` walks the elements of a path, and ends.
use ele3021_operating_system.Base.{
  ℕ, zero, suc, ◌<◌, ◌≡◌, refl, sym, ap, subst, ◌∙◌, inl, inr, Bool, List, [], ◌∷◌, Option, none,
  some, ◌==◌, arith, Bool-cases, Option-cases, if◌then◌else◌, length, ◌&&◌,
}
use ele3021_operating_system.Dir.{
  head, slash, skipelem, Dirent, dirlookup, Found, missing, found, parent, enter, namex_from, namex,
}
use ele3021_operating_system.Dir.Elements.{
  elements, is_nil, Skips, skipelem-Skips, NoNul, NoNulAfter, NoNul-skipelem, at_end,
}

-- A walk along the elements from the inode `ip`: to the last one, or to the one before it.
abbrev pub walk : (ℕ → Option (List Dirent)) → Bool → ℕ → List (List ℕ) → Found
walk entries nameiparent ip [] = if nameiparent then missing else found ip
walk entries nameiparent ip (name ∷ names) = elim (entries ip) [
  | none ↦ missing
  | some des ↦ if nameiparent && is_nil names then parent ip name else elim (dirlookup name des) [
    | none ↦ missing
    | some next ↦ walk entries nameiparent next names
  ]
]

namex_from_lem :
    (fuel : ℕ) (entries : ℕ → Option (List Dirent)) (nameiparent : Bool) (ip : ℕ) (path : List ℕ)
    → NoNul path
    → length path < fuel
    → namex_from fuel entries nameiparent ip path ≡ walk entries nameiparent ip (elements path)
unfolding namex_from Skips NoNulAfter
namex_from_lem zero entries nameiparent ip path bytes lt = absurd (omega arith)
namex_from_lem (suc fuel) entries nameiparent ip path bytes lt =
    elim (Option-cases (skipelem path)) [
      | inl e ↦
          rw (e, namex_from)
            (ap (walk entries nameiparent ip) (sym (subst (Skips path) e (skipelem-Skips path))))
      | inr (r, e) ↦
          let (same, shorter, (q, eq)) = subst (Skips path) e (skipelem-Skips path) in
          let bytes' = subst NoNulAfter e (NoNul-skipelem path bytes) in
          let end_same : (head r.1 == 0) ≡ is_nil (elements r.1) =
            ap (λ z. head z == 0) eq
            ∙ at_end q (subst NoNul eq bytes')
            ∙ sym (ap (λ z. is_nil (elements z)) eq) in
          ap (λ o. round_of o) e
          ∙ enters r end_same
              (λ next. namex_from_lem fuel entries nameiparent next r.1 bytes' (omega arith))
          ∙ ap (walk entries nameiparent ip) (sym same)
    ]
  where
    round_of : Option (List ℕ × List ℕ) → Found
    round_of o = elim o [
      | none ↦ if nameiparent then missing else found ip
      | some r ↦
          enter entries nameiparent ip r.0 r.1
            (λ next. namex_from fuel entries nameiparent next r.1)
    ]

    enters :
        (r : List ℕ × List ℕ)
        → (head r.1 == 0) ≡ is_nil (elements r.1)
        → ((next : ℕ)
            → namex_from fuel entries nameiparent next r.1
              ≡ walk entries nameiparent next (elements r.1))
        → enter entries nameiparent ip r.0 r.1
            (λ next. namex_from fuel entries nameiparent next r.1)
          ≡ walk entries nameiparent ip (r.0 ∷ elements r.1)
    enters r end_same goes = elim (Option-cases (entries ip)) [
      | inl e ↦ rw (e, enter, walk) refl
      | inr (des, e) ↦ elim (Bool-cases (nameiparent && is_nil (elements r.1))) [
        | inl f ↦ rw (e, enter, walk, end_same, f) refl
        | inr f ↦ elim (Option-cases (dirlookup r.0 des)) [
          | inl g ↦ rw (e, enter, walk, end_same, f, g) refl
          | inr (next, g) ↦ rw (e, enter, walk, end_same, f, g) (goes next)
        ]
      ]
    ]

-- With more fuel than the path has bytes, `namex` ends: it walks along the elements of the path, each
-- cut to DIRSIZ bytes, from the root if the path begins with a slash and from the current directory if
-- not; it ends at the last inode, or for `nameiparent` at the one before it with the last name, and is
-- without result where a name is missing or an inode on the way is no directory.
pub namex_lem :
    (fuel : ℕ) (entries : ℕ → Option (List Dirent)) (nameiparent : Bool) (cwd : ℕ) (path : List ℕ)
    → NoNul path
    → length path < fuel
    → namex fuel entries nameiparent cwd path
      ≡ walk entries nameiparent (if head path == slash then 1 else cwd) (elements path)
unfolding namex
namex_lem fuel entries nameiparent cwd path bytes lt =
    namex_from_lem fuel entries nameiparent (if head path == slash then 1 else cwd) path bytes lt
