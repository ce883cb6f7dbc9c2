-- ===== src/File/Counts.antt =====
-- The reference counts of open files are the numbers of their handles.
use ele3021_operating_system.Base.{
  ℕ, suc, ◌+◌, ◌-◌, ◌<◌, ◌≡◌, ◌≢◌, refl, sym, ap, ◌∙◌, ◌⊎◌, inl, inr, false, List, [], ◌∷◌, Option,
  none, some, get_elem?, ltb, ◌==◌, ==_iff, if◌then◌else◌, arith, Bool-cases, Option-cases, All,
  some_eq, ℕ_discrete,
}
use ele3021_operating_system.Base.Find.{
  find_index, modify, find_index-some, find_index-none, get_elem?-modify_self, get_elem?-modify_ne,
}
use ele3021_operating_system.File.{
  File, set_ref, filealloc, filedup, Close, last_close, clear_file, fileclose,
}

-- How often `i` occurs.
abbrev pub count : ℕ → List ℕ → ℕ
count i [] = 0
count i (j ∷ l) = (if i == j then 1 else 0) + count i l

-- The list without the first `i`.
abbrev pub remove : ℕ → List ℕ → List ℕ
remove i [] = []
remove i (j ∷ l) = if i == j then l else j ∷ remove i l

-- `handles` are the references that processes hold: every file counts its own.
abbrev pub IsCounted : List File → List ℕ → Type 0
IsCounted fs handles = (i : ℕ) (f : File) → get_elem? fs i ≡ some f → f.ref ≡ count i handles

pub count-remove_self :
    (i : ℕ) (l : List ℕ) → 0 < count i l → suc (count i (remove i l)) ≡ count i l
count-remove_self i [] h = absurd (omega arith)
count-remove_self i (j ∷ l) h = elim (Bool-cases (i == j)) [
  | inl e ↦ rw e (omega arith)
  | inr e ↦ rw (e, e) (let z = rw e at h in omega (arith, count-remove_self i l (omega arith)))
]

pub count-remove_ne : (i j : ℕ) (l : List ℕ) → i ≢ j → count j (remove i l) ≡ count j l
count-remove_ne i j [] ne = refl
count-remove_ne i j (x ∷ l) ne = elim (Bool-cases (i == x)) [
  | inl e ↦ rw e (ground arith)
  | inr e ↦ rw e (ap (λ n. (if j == x then 1 else 0) + n) (count-remove_ne i j l ne))
]

-- A change at `i` to an entry that counts right.
IsCounted-modify :
    (i : ℕ) (g : File → File) (fs : List File) (f : File) (before after : List ℕ)
    → IsCounted fs before
    → get_elem? fs i ≡ some f
    → (g f).ref ≡ count i after
    → ((j : ℕ) → i ≢ j → count j after ≡ count j before)
    → IsCounted (modify i g fs) after
IsCounted-modify i g fs f before after ok at here others j f' at' = elim (ℕ_discrete i j) [
  | yes e ↦
      let same : g f ≡ f' =
        some_eq
          (sym (get_elem?-modify_self g i fs f at) ∙ ap (get_elem? (modify i g fs)) e ∙ at') in
      sym (ap (λ z. z.ref) same) ∙ here ∙ ap (λ z. count z after) e
  | no ne ↦ ok j f' (sym (get_elem?-modify_ne g i j fs ne) ∙ at') ∙ sym (others j ne)
]

count-other : (i j : ℕ) (l : List ℕ) → i ≢ j → count j (i ∷ l) ≡ count j l
count-other i j l ne = ground arith

count_self : (i : ℕ) (l : List ℕ) → count i (i ∷ l) ≡ suc (count i l)
count_self i l = ground arith

-- `filealloc` finds a file that nobody holds, and the counts stay right when the caller holds it; it
-- fails only if every file is held.
pub filealloc_lem :
    (fs : List File) (handles : List ℕ)
    → IsCounted fs handles
    → ((filealloc fs ≡ none) × All (λ f. (f.ref == 0) ≡ false) fs)
      ⊎ ((i : ℕ) × (fs' : List File) × (filealloc fs ≡ some (i, fs'))
          × (count i handles ≡ 0)
          × IsCounted fs' (i ∷ handles))
unfolding filealloc
filealloc_lem fs handles ok = elim (Option-cases (find_index (λ f. f.ref == 0) fs)) [
  | inl e ↦ inl (rw (e, filealloc) refl, find_index-none _ fs e)
  | inr (i, e) ↦
      let r = find_index-some (λ f. f.ref == 0) fs i e in
      let free : r.entry.ref ≡ 0 = (==_iff _ _).0 r.passes in
      let unheld : count i handles ≡ 0 = sym (ok i r.entry r.at) ∙ free in
      inr (
        i,
        modify i (set_ref 1) fs,
        rw (e, filealloc) refl,
        unheld,
        IsCounted-modify i (set_ref 1) fs r.entry handles (i ∷ handles) ok r.at
            (sym (count_self i handles ∙ ap suc unheld)) (λ j ne. count-other i j handles ne),
      )
]

-- `filedup` of a held file does not panic, and the counts stay right with one handle more.
pub filedup_lem :
    (i : ℕ) (f : File) (fs : List File) (handles : List ℕ)
    → IsCounted fs handles
    → get_elem? fs i ≡ some f
    → 0 < count i handles
    → (fs' : List File) × (filedup i fs ≡ some fs') × IsCounted fs' (i ∷ handles)
unfolding filedup
filedup_lem i f fs handles ok at held =
    let e : ltb f.ref 1 ≡ false = ground (arith, ok i f at) in
    (
      modify i (λ f. set_ref (f.ref + 1) f) fs,
      rw (at, e, filedup) refl,
      IsCounted-modify i (λ f. set_ref (f.ref + 1) f) fs f handles (i ∷ handles) ok at
          (omega (arith, ok i f at, count_self i handles)) (λ j ne. count-other i j handles ne),
    )

-- `fileclose` of a held file does not panic, and the counts stay right with one handle less. The file
-- is closed for good exactly when that was the last handle.
pub fileclose_lem :
    (i : ℕ) (f : File) (fs : List File) (handles : List ℕ)
    → IsCounted fs handles
    → get_elem? fs i ≡ some f
    → 0 < count i handles
    → (last : Option Close) × (fs' : List File) × (fileclose i fs ≡ some (last, fs'))
      × IsCounted fs' (remove i handles)
      × (((count i handles ≡ 1) × (last ≡ some (last_close f)))
          ⊎ ((1 < count i handles) × (last ≡ none)))
unfolding fileclose
fileclose_lem i f fs handles ok at held =
    let open_file : ltb f.ref 1 ≡ false = ground (arith, ok i f at) in
    elim (Bool-cases (ltb 0 (f.ref - 1))) [
      | inl e ↦ (
        none,
        modify i (λ f. set_ref (f.ref - 1) f) fs,
        rw (at, open_file, e, fileclose) refl,
        IsCounted-modify i (λ f. set_ref (f.ref - 1) f) fs f handles (remove i handles) ok at
            (omega (arith, ok i f at, count-remove_self i handles held))
            (λ j ne. count-remove_ne i j handles ne),
        inr (ground (arith, ok i f at), refl),
      )
      | inr e ↦ (
        some (last_close f),
        modify i clear_file fs,
        rw (at, open_file, e, fileclose) refl,
        IsCounted-modify i clear_file fs f handles (remove i handles) ok at
            (ground (arith, ok i f at, count-remove_self i handles held))
            (λ j ne. count-remove_ne i j handles ne),
        inl (ground (arith, ok i f at), refl),
      )
    ]

-- Only how often each handle occurs matters.
pub IsCounted-same :
    (fs : List File) (l m : List ℕ)
    → ((i : ℕ) → count i l ≡ count i m)
    → IsCounted fs m
    → IsCounted fs l
IsCounted-same fs l m e ok i f at = ok i f at ∙ sym (e i)
