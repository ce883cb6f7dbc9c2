-- ===== src/Syscall/Counts.antt =====
-- The reference counts of open files when a process duplicates and closes descriptors.
use ele3021_operating_system.Base.{
  ℕ, zero, suc, ◌-◌, ◌<◌, ◌≡◌, inl, inr, refl, sym, ◌∙◌, ap, true, List, [], ◌∷◌, ◌++◌, Option,
  none, some, arith, Bool-cases, Option-cases, some_eq, >>=-eq-some, get_elem?, ltb, leb, set,
  length, ℕ_discrete,
}
use ele3021_operating_system.Base.Find.{find_index, find_index-some, length-modify}
use ele3021_operating_system.Base.Int.{ℤ, pos, negsuc}
use ele3021_operating_system.File.{File, Close, filedup, fileclose}
use ele3021_operating_system.File.Counts.{
  IsCounted, count, remove, count-remove_self, count-remove_ne,
}
use ele3021_operating_system.Proc.{Proc}
use ele3021_operating_system.Syscall.{named_file, descriptor, is_free_fd, fdalloc, nofile}

-- The files behind a table of descriptors.
abbrev pub held : List (Option ℕ) → List ℕ
held [] = []
held (none ∷ l) = held l
held (some f ∷ l) = f ∷ held l

-- `others` are the handles elsewhere: every descriptor names a file of the table, and every file counts
-- the descriptors and handles that name it.
pub record IsOpen (cur : Proc) (others : List ℕ) (fs : List File) : Type 0 where
  pub counted : IsCounted fs (held cur.ofile ++ others)
  pub named : (fd f : ℕ) → get_elem? cur.ofile fd ≡ some (some f) → f < length fs

pub held-set-some :
    (l : List (Option ℕ)) (fd f i : ℕ) (others : List ℕ)
    → get_elem? l fd ≡ some none
    → count i (held (set l fd (some f)) ++ others) ≡ count i (f ∷ (held l ++ others))
held-set-some [] fd f i others at = cc
held-set-some (none ∷ l) zero f i others at = refl
held-set-some (some g ∷ l) zero f i others at = absurd (taken at)
  where
    taken : ◌≡◌ {A = Option (Option ℕ)} (some (some g)) (some none) → ⊥
    taken q = let z : some g ≡ none = some_eq q in cc
held-set-some (none ∷ l) (suc fd) f i others at = held-set-some l fd f i others at
held-set-some (some g ∷ l) (suc fd) f i others at = omega (arith, held-set-some l fd f i others at)

pub held-set-none :
    (l : List (Option ℕ)) (fd f i : ℕ) (others : List ℕ)
    → get_elem? l fd ≡ some (some f)
    → count i (f ∷ (held (set l fd none) ++ others)) ≡ count i (held l ++ others)
held-set-none [] fd f i others at = cc
held-set-none (none ∷ l) zero f i others at = absurd (free at)
  where
    free : ◌≡◌ {A = Option (Option ℕ)} (some none) (some (some f)) → ⊥
    free q = let z : none ≡ some f = some_eq q in cc
held-set-none (some g ∷ l) zero f i others at = let z : g ≡ f = some_eq (some_eq at) in rw z refl
held-set-none (none ∷ l) (suc fd) f i others at = held-set-none l fd f i others at
held-set-none (some g ∷ l) (suc fd) f i others at = omega (arith, held-set-none l fd f i others at)

-- Taking away a handle.
pub count-remove :
    (i f : ℕ) (l m : List ℕ)
    → ((j : ℕ) → count j (f ∷ l) ≡ count j m)
    → count i l ≡ count i (remove f m)
count-remove i f l m e = elim (ℕ_discrete f i) [
  | no ne ↦ let z = e i in let y = count-remove_ne f i m ne in ground arith
  | yes same ↦
      rw (← same) (let z = e f in let y = count-remove_self f m (ground arith) in ground arith)
]

pub length-filedup :
    (i : ℕ) (fs : List File) {fs' : List File} → filedup i fs ≡ some fs' → length fs' ≡ length fs
unfolding filedup
length-filedup i fs {fs'} h = elim (Option-cases (get_elem? fs i)) [
  | inl e ↦ absurd (nothing (rw (e, filedup) at h))
  | inr (f, e) ↦ elim (Bool-cases (ltb f.ref 1)) [
    | inl y ↦ absurd (nothing (rw (e, y, filedup) at h))
    | inr y ↦ rw (← some_eq (rw (e, y, filedup) at h)) (length-modify _ i fs)
  ]
]
  where
    nothing : ◌≡◌ {A = Option (List File)} none (some fs') → ⊥
    nothing q = cc

pub length-fileclose :
    (i : ℕ) (fs : List File) {last : Option Close} {fs' : List File}
    → fileclose i fs ≡ some (last, fs')
    → length fs' ≡ length fs
unfolding fileclose
length-fileclose i fs {last} {fs'} h = elim (Option-cases (get_elem? fs i)) [
  | inl e ↦ absurd (nothing (rw (e, fileclose) at h))
  | inr (f, e) ↦ elim (Bool-cases (ltb f.ref 1)) [
    | inl y ↦ absurd (nothing (rw (e, y, fileclose) at h))
    | inr y ↦ elim (Bool-cases (ltb 0 (f.ref - 1))) [
      | inl z ↦ rw (← ap (λ q. q.1) (some_eq (rw (e, y, z, fileclose) at h))) (length-modify _ i fs)
      | inr z ↦ rw (← ap (λ q. q.1) (some_eq (rw (e, y, z, fileclose) at h))) (length-modify _ i fs)
    ]
  ]
]
  where
    nothing : ◌≡◌ {A = Option (Option Close × List File)} none (some (last, fs')) → ⊥
    nothing q = cc

pub descriptor_lem :
    (w : ℤ) (cur : Proc) (fd f : ℕ)
    → descriptor w cur ≡ some (fd, f)
    → get_elem? cur.ofile fd ≡ some (some f)
unfolding descriptor
descriptor_lem (negsuc w) cur fd f h = cc
descriptor_lem (pos w) cur fd f h = elim (Bool-cases (leb nofile w)) [
  | inl e ↦ absurd (nothing (rw (e, descriptor) at h))
  | inr e ↦ found (get_elem? cur.ofile w) refl (rw (e, descriptor) at h)
]
  where
    nothing : ◌≡◌ {A = Option (ℕ × ℕ)} none (some (fd, f)) → ⊥
    nothing q = cc

    found :
        (o : Option (Option ℕ))
        → get_elem? cur.ofile w ≡ o
        → named_file w o ≡ some (fd, f)
        → get_elem? cur.ofile fd ≡ some (some f)
    found none at q = absurd (nothing q)
    found (some none) at q = absurd (nothing q)
    found (some (some g)) at q = let z = some_eq q in rw (← ap (λ x. x.0) z, ← ap (λ x. x.1) z) at

pub fdalloc_lem :
    (f : ℕ) (cur : Proc) (fd : ℕ) (cur' : Proc)
    → fdalloc f cur ≡ some (fd, cur')
    → (get_elem? cur.ofile fd ≡ some none)
      × (cur' ≡ record cur { ofile = set cur.ofile fd (some f) })
unfolding fdalloc
fdalloc_lem f cur fd cur' h =
    let (i, found, rest) =
      >>=-eq-some (find_index is_free_fd cur.ofile)
        (λ fd. some (fd, record cur { ofile = set cur.ofile fd (some f) })) h in
    let z = some_eq rest in
    let r = find_index-some is_free_fd cur.ofile i found in
    (
      rw (← ap (λ x. x.0) z) (r.at ∙ ap some (is_none r.entry r.passes)),
      rw (← ap (λ x. x.0) z) (sym (ap (λ x. x.1) z)),
    )
  where
    is_none : (o : Option ℕ) → is_free_fd o ≡ true → o ≡ none
    is_none none e = refl
    is_none (some g) e = cc
