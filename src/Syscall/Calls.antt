-- ===== src/Syscall/Calls.antt =====
-- The system calls `dup` and `close`, and the reference counts of files.
use ele3021_operating_system.Base.{
  ℕ, ◌<◌, ◌≡◌, ◌⊎◌, inl, inr, refl, sym, ◌∙◌, ap, List, ◌∷◌, ◌++◌, Option, none, some, arith,
  Option-cases, some_eq, >>=-eq-some, get_elem?, set, length, get_elem?_below, get_elem?-set_self,
  get_elem?-set_ne, ℕ_discrete,
}
use ele3021_operating_system.File.{File, Close, last_close}
use ele3021_operating_system.File.Counts.{IsCounted-same, count, remove, filedup_lem, fileclose_lem}
use ele3021_operating_system.Proc.{Proc}
use ele3021_operating_system.Syscall.{
  descriptor, argfd, fdalloc, sys_dup, sys_close, as_int, argint,
}
use ele3021_operating_system.Syscall.Counts.{
  IsOpen, held, held-set-some, held-set-none, count-remove, length-filedup, length-fileclose,
  descriptor_lem, fdalloc_lem,
}

argfd_lem :
    (n : ℕ) (cur : Proc) (mem : ℕ → ℕ) (fd f : ℕ)
    → argfd n cur mem ≡ some (fd, f)
    → get_elem? cur.ofile fd ≡ some (some f)
unfolding argfd
argfd_lem n cur mem fd f h =
    let (w, _, e) = >>=-eq-some (argint n cur mem) (λ w. descriptor (as_int w) cur) h in
    descriptor_lem (as_int w) cur fd f e

count-held :
    (l : List (Option ℕ)) (fd f : ℕ) (others : List ℕ)
    → get_elem? l fd ≡ some (some f)
    → 0 < count f (held l ++ others)
count-held l fd f others at = let z = held-set-none l fd f f others at in ground arith

-- A descriptor of the changed table was there before, or is the new one.
named-set :
    (l : List (Option ℕ)) (fd : ℕ) (o v : Option ℕ) (n : ℕ)
    → get_elem? l fd ≡ some o
    → ((f : ℕ) → v ≡ some f → f < n)
    → ((j f : ℕ) → get_elem? l j ≡ some (some f) → f < n)
    → (j f : ℕ) → get_elem? (set l fd v) j ≡ some (some f)
    → f < n
named-set l fd o v n at new old j f e = elim (ℕ_discrete fd j) [
  | no ne ↦ old j f (sym (get_elem?-set_ne l fd j v ne) ∙ e)
  | yes same ↦
      new f (some_eq (sym (get_elem?-set_self l fd v o at) ∙ ap (get_elem? (set l fd v)) same ∙ e))
]

-- If every file counts the descriptors and the other handles that name it, and every descriptor names a
-- file of the table (`IsOpen`), then `sys_dup` does not panic, and `IsOpen` holds after it. Either it
-- answers -1 and nothing has changed, or its argument names the file `f`, and the only change of the
-- process is that a descriptor which was free, the answer, names `f`.
pub sys_dup_lem :
    (cur : Proc) (mem : ℕ → ℕ) (others : List ℕ) (fs : List File)
    → IsOpen cur others fs
    → (ret : Option ℕ) × (cur' : Proc) × (fs' : List File) × (sys_dup cur mem fs
        ≡ some (ret, cur', fs'))
      × IsOpen cur' others fs'
      × (((ret ≡ none) × (cur' ≡ cur) × (fs' ≡ fs))
          ⊎ ((fd new f : ℕ) × (argfd 0 cur mem ≡ some (fd, f))
              × (ret ≡ some new)
              × (get_elem? cur.ofile new ≡ some none)
              × (cur' ≡ record cur { ofile = set cur.ofile new (some f) })))
unfolding sys_dup
sys_dup_lem cur mem others fs ok = elim (Option-cases (argfd 0 cur mem)) [
  | inl e ↦ (none, cur, fs, rw (e, sys_dup) refl, ok, inl (refl, refl, refl))
  | inr ((fd, f), e) ↦ elim (Option-cases (fdalloc f cur)) [
    | inl full ↦ (none, cur, fs, rw (e, full, sys_dup) refl, ok, inl (refl, refl, refl))
    | inr ((new, cur'), got) ↦
        let at = argfd_lem 0 cur mem fd f e in
        let (free, is_cur) = fdalloc_lem f cur new cur' got in
        let (file, here) = get_elem?_below fs f (ok.named fd f at) in
        let (fs', dupped, counted) =
          filedup_lem f file fs (held cur.ofile ++ others) ok.counted here
            (count-held cur.ofile fd f others at) in
        (
          some new,
          cur',
          fs',
          rw (e, got, dupped, sys_dup) refl,
          rw is_cur (record {
            counted =
                IsCounted-same fs' (held (set cur.ofile new (some f)) ++ others)
                  (f ∷ (held cur.ofile ++ others))
                  (λ i. held-set-some cur.ofile new f i others free) counted;
            named = rw (length-filedup f fs dupped) (
                named-set cur.ofile new none (some f) (length fs) free
                  (λ g z. rw (← some_eq z) (ok.named fd f at)) ok.named);
          }),
          inr (fd, new, f, e, refl, free, is_cur),
        )
  ]
]

-- If every file counts the descriptors and the other handles that name it, and every descriptor names a
-- file of the table (`IsOpen`), then `sys_close` does not panic, and `IsOpen` holds after it. Either it
-- answers -1 and nothing has changed, or its argument names the file `f`, the only change of the process
-- is that this descriptor is free, and the file is closed for good exactly when that was its last handle.
pub sys_close_lem :
    (cur : Proc) (mem : ℕ → ℕ) (others : List ℕ) (fs : List File)
    → IsOpen cur others fs
    → (ret : Option (Option Close)) × (cur' : Proc) × (fs' : List File) × (sys_close cur mem fs
        ≡ some (ret, cur', fs'))
      × IsOpen cur' others fs'
      × (((ret ≡ none) × (cur' ≡ cur) × (fs' ≡ fs))
          ⊎ ((fd f : ℕ) × (file : File) × (argfd 0 cur mem ≡ some (fd, f))
              × (get_elem? fs f ≡ some file)
              × (cur' ≡ record cur { ofile = set cur.ofile fd none })
              × (((count f (held cur.ofile ++ others) ≡ 1) × (ret ≡ some (some (last_close file))))
                  ⊎ ((1 < count f (held cur.ofile ++ others)) × (ret ≡ some none)))))
unfolding sys_close
sys_close_lem cur mem others fs ok = elim (Option-cases (argfd 0 cur mem)) [
  | inl e ↦ (none, cur, fs, rw (e, sys_close) refl, ok, inl (refl, refl, refl))
  | inr ((fd, f), e) ↦
      let at = argfd_lem 0 cur mem fd f e in
      let (file, here) = get_elem?_below fs f (ok.named fd f at) in
      let (last, fs', closed, counted, which) =
        fileclose_lem f file fs (held cur.ofile ++ others) ok.counted here
          (count-held cur.ofile fd f others at) in
      (
        some last,
        record cur { ofile = set cur.ofile fd none },
        fs',
        rw (e, closed, sys_close) refl,
        record {
          counted =
              IsCounted-same fs' (held (set cur.ofile fd none) ++ others)
                (remove f (held cur.ofile ++ others))
                (λ i.
                  count-remove i f (held (set cur.ofile fd none) ++ others)
                    (held cur.ofile ++ others) (λ j. held-set-none cur.ofile fd f j others at))
                counted;
          named = rw (length-fileclose f fs closed) (
              named-set cur.ofile fd (some f) none (length fs) at (λ g z. absurd (nothing z))
                ok.named);
        },
        inr (fd, f, file, e, here, refl, closes which),
      )
]
  where
    nothing : {g : ℕ} → none ≡ some g → ⊥
    nothing q = cc

    closes :
        {A B : Type 0} {last c : Option Close}
        → ((A × (last ≡ c)) ⊎ (B × (last ≡ none)))
        → ((A × (some last ≡ some c)) ⊎ (B × (some last ≡ some none)))
    closes (inl (a, e)) = inl (a, ap some e)
    closes (inr (b, e)) = inr (b, ap some e)
