-- ===== src/File/Uses.antt =====
-- The table of open files after any calls of `filealloc`, `filedup` and `fileclose`.
use ele3021_operating_system.Base.{
  ℕ, ◌<◌, ◌≡◌, sym, subst, inl, inr, Option, none, some, some_eq, get_elem?, List, [], ◌∷◌,
  Option-cases, ◌∙◌,
}
use ele3021_operating_system.File.{File, Close, filealloc, filedup, fileclose}
use ele3021_operating_system.File.Counts.{
  IsCounted, count, remove, filealloc_lem, filedup_lem, fileclose_lem,
}

-- The tables that the kernel gets to from one without open files, with the handles that are out: it
-- opens files, and duplicates and closes handles that are out.
pub data Uses : List File → List ℕ → Type 0 where
  boots : {fs : List File} → ((i : ℕ) (f : File) → get_elem? fs i ≡ some f → f.ref ≡ 0) → Uses fs []
  opens :
      (i : ℕ) (fs : List File) (handles : List ℕ) {fs' : List File}
      → filealloc fs ≡ some (i, fs')
      → Uses fs handles
      → Uses fs' (i ∷ handles)
  dups :
      (i : ℕ) (fs : List File) (handles : List ℕ) {fs' : List File}
      → 0 < count i handles
      → filedup i fs ≡ some fs'
      → Uses fs handles
      → Uses fs' (i ∷ handles)
  closes :
      (i : ℕ) (fs : List File) (handles : List ℕ) {last : Option Close} {fs' : List File}
      → 0 < count i handles
      → fileclose i fs ≡ some (last, fs')
      → Uses fs handles
      → Uses fs' (remove i handles)

opened :
    (i : ℕ) (fs : List File) (handles : List ℕ) (fs' : List File)
    → IsCounted fs handles
    → filealloc fs ≡ some (i, fs')
    → IsCounted fs' (i ∷ handles)
opened i fs handles fs' ok h = elim (filealloc_lem fs handles ok) [
  | inl (none_free, _) ↦ absurd (nothing (sym none_free ∙ h))
  | inr (j, fs1, e, _, ok') ↦ subst (λ r. IsCounted r.1 (r.0 ∷ handles)) (some_eq (sym e ∙ h)) ok'
]
  where
    nothing : ◌≡◌ {A = Option (ℕ × List File)} none (some (i, fs')) → ⊥
    nothing q = cc

dupped :
    (i : ℕ) (fs : List File) (handles : List ℕ) (fs' : List File)
    → IsCounted fs handles
    → 0 < count i handles
    → filedup i fs ≡ some fs'
    → IsCounted fs' (i ∷ handles)
unfolding filedup
dupped i fs handles fs' ok held h = elim (Option-cases (get_elem? fs i)) [
  | inl e ↦ absurd (nothing (rw (e, filedup) at h))
  | inr (f, at) ↦
      let (fs1, e, ok') = filedup_lem i f fs handles ok at held in
      subst (λ z. IsCounted z (i ∷ handles)) (some_eq (sym e ∙ h)) ok'
]
  where
    nothing : ◌≡◌ {A = Option (List File)} none (some fs') → ⊥
    nothing q = cc

closed :
    (i : ℕ) (fs : List File) (handles : List ℕ) (last : Option Close) (fs' : List File)
    → IsCounted fs handles
    → 0 < count i handles
    → fileclose i fs ≡ some (last, fs')
    → IsCounted fs' (remove i handles)
unfolding fileclose
closed i fs handles last fs' ok held h = elim (Option-cases (get_elem? fs i)) [
  | inl e ↦ absurd (nothing (rw (e, fileclose) at h))
  | inr (f, at) ↦
      let (last1, fs1, e, ok', _) = fileclose_lem i f fs handles ok at held in
      subst (λ r. IsCounted r.1 (remove i handles)) (some_eq (sym e ∙ h)) ok'
]
  where
    nothing : ◌≡◌ {A = Option (Option Close × List File)} none (some (last, fs')) → ⊥
    nothing q = cc

-- After any openings, duplications and closings of handles that are out, from a table without open
-- files, the reference count of each file is the number of its handles that are out.
pub Uses-IsCounted : {fs : List File} {handles : List ℕ} → Uses fs handles → IsCounted fs handles
Uses-IsCounted (boots empty) = λ i f at. empty i f at
Uses-IsCounted (opens i fs handles {fs'} h before) =
    opened i fs handles fs' (Uses-IsCounted before) h
Uses-IsCounted (dups i fs handles {fs'} held h before) =
    dupped i fs handles fs' (Uses-IsCounted before) held h
Uses-IsCounted (closes i fs handles {last} {fs'} held h before) =
    closed i fs handles last fs' (Uses-IsCounted before) held h
