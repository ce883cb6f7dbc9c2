-- ===== src/Shell/Parser/Fuel.antt =====
-- How much fuel the parser of the shell uses.
use ele3021_operating_system.Base.{
  ℕ, zero, suc, ◌+◌, ◌*◌, ◌≤◌, ◌<◌, ◌≡◌, refl, ◌⊎◌, inl, inr, true, false, ◌&&◌, List, [], ◌∷◌,
  ◌==◌, ltb, Bool-cases, arith, length,
}
use ele3021_operating_system.Shell.{gettoken, peek}
use ele3021_operating_system.Shell.Parser.{
  Cmd, Parse, parsed, panics, spent, and_then, wrap, max_args, parseredirs, parseargs, parsebacks,
  parseline, parsepipe, parseblock, parseexec, whole_line, parsecmd,
}
use ele3021_operating_system.Shell.Progress.{
  gettoken_progress, gettoken_le, peek_progress, length-peek,
}

-- The parser gave a result with at most `n` characters left, or panicked.
abbrev pub Ended : {A : Type 0} → ℕ → Parse A → Type 0
Ended n (parsed a s) = length s ≤ n
Ended n panics = Unit
Ended n spent = ⊥

Ended-weaken : {A : Type 0} (m n : ℕ) (p : Parse A) → m ≤ n → Ended m p → Ended n p
Ended-weaken m n (parsed a s) le h = omega (arith, h)
Ended-weaken m n panics le h = tt
Ended-weaken m n spent le h = h

Ended-and_then :
    {A B : Type 0} (m n : ℕ) (p : Parse A) (f : A → List ℕ → Parse B)
    → Ended m p
    → ((a : A) (s : List ℕ) → length s ≤ m → Ended n (f a s))
    → Ended n (and_then p f)
Ended-and_then m n (parsed a s) f h g = g a s h
Ended-and_then m n panics f h g = tt
Ended-and_then m n spent f h g = absurd h

parseredirs_ends : (k : ℕ) (s : List ℕ) → length s < k → Ended (length s) (parseredirs k s)
unfolding parseredirs
parseredirs_ends zero s lt = absurd (omega arith)
parseredirs_ends (suc k) s lt = elim (Bool-cases (peek s (0x3c ∷ 0x3e ∷ [])).0) [
  | inr e ↦ rw (e, parseredirs) (length-peek s (0x3c ∷ 0x3e ∷ []))
  | inl e ↦
      let s1 = (peek s (0x3c ∷ 0x3e ∷ [])).1 in
      let s2 = (gettoken s1).2 in
      let s3 = (gettoken s2).2 in
      let less : length s3 < length s =
        omega (arith, peek_progress s (0x3c ∷ 0x3e ∷ []) e, gettoken_le s2) in
      elim (Bool-cases ((gettoken s2).0 == 0x61)) [
        | inr w ↦ rw (e, w, parseredirs) tt
        | inl w ↦
            rw (e, w, parseredirs)
              (Ended-and_then (length s3) (length s) (parseredirs k s3) _
                (parseredirs_ends k s3 (omega (arith, less, lt)))
                (λ rs s4 le. omega (arith, less, le)))
      ]
]

-- After `peek`, the parser goes on behind the token if it was found.
Ended-peek :
    {A : Type 0} (n : ℕ) (s toks : List ℕ) (p : Parse A) (f : List ℕ → Parse A)
    → Ended n p
    → ((s' : List ℕ) → length s' < length s → Ended n (f s'))
    → Ended n (elim (peek s toks).0 [ false ↦ p | true ↦ f (gettoken (peek s toks).1).2 ])
Ended-peek n s toks p f h g = elim (Bool-cases (peek s toks).0) [
  | inr e ↦ rw e h
  | inl e ↦ rw e (g (gettoken (peek s toks).1).2 (peek_progress s toks e))
]

parseargs_ends : (k argc : ℕ) (s : List ℕ) → length s < k → Ended (length s) (parseargs k argc s)
unfolding parseargs
parseargs_ends zero argc s lt = absurd (omega arith)
parseargs_ends (suc k) argc s lt =
    let stops = 0x7c ∷ 0x29 ∷ 0x26 ∷ 0x3b ∷ [] in
    let s1 = (peek s stops).1 in
    let s2 = (gettoken s1).2 in
    let le : length s1 ≤ length s = length-peek s stops in
    elim (Bool-cases (peek s stops).0) [
      | inl e ↦ rw (e, parseargs) le
      | inr e ↦ elim (Bool-cases ((gettoken s1).0 == 0)) [
        | inl z ↦ rw (e, z, parseargs) (omega (arith, le, gettoken_le s1))
        | inr z ↦ elim (Bool-cases ((gettoken s1).0 == 0x61 && ltb (argc + 1) max_args)) [
          | inr w ↦ rw (e, z, w, parseargs) tt
          | inl w ↦
              let less : length s2 < length s = shorter s1 z le in
              rw (e, z, w, parseargs)
                (Ended-and_then (length s2) (length s) (parseredirs k s2) _
                  (parseredirs_ends k s2 (omega (arith, less, lt)))
                  (λ rs s3 le3.
                    Ended-and_then (length s3) (length s) (parseargs k (argc + 1) s3) _
                      (parseargs_ends k (argc + 1) s3 (omega (arith, less, lt, le3)))
                      (λ r s4 le4. omega (arith, less, le3, le4))))
        ]
      ]
    ]
  where
    shorter :
        (s1 : List ℕ)
        → ((gettoken s1).0 == 0) ≡ false
        → length s1 ≤ length s
        → length (gettoken s1).2 < length s
    shorter s1 z le = elim (gettoken_progress s1) [
      | inl (_, none, _) ↦ absurd (ground (arith, none, z))
      | inr less ↦ omega (arith, less, le)
    ]

parsebacks_ends :
    (k : ℕ) (cmd : Cmd) (s : List ℕ) → length s < k → Ended (length s) (parsebacks k cmd s)
unfolding parsebacks
parsebacks_ends zero cmd s lt = absurd (omega arith)
parsebacks_ends (suc k) cmd s lt =
    Ended-peek (length s) s (0x26 ∷ []) (parsed cmd (peek s (0x26 ∷ [])).1)
      (parsebacks k (Cmd.back cmd)) (length-peek s (0x26 ∷ []))
      (λ s' less.
        Ended-weaken (length s') (length s) (parsebacks k (Cmd.back cmd) s') (omega (arith, less))
          (parsebacks_ends k (Cmd.back cmd) s' (omega (arith, less, lt))))

-- The fuel that each function needs for a text.
abbrev LineEnds : ℕ → Type 0
LineEnds k = (s : List ℕ) → 4 * length s + 4 ≤ k → Ended (length s) (parseline k s)

abbrev PipeEnds : ℕ → Type 0
PipeEnds k = (s : List ℕ) → 4 * length s + 3 ≤ k → Ended (length s) (parsepipe k s)

abbrev ExecEnds : ℕ → Type 0
ExecEnds k = (s : List ℕ) → 4 * length s + 2 ≤ k → Ended (length s) (parseexec k s)

abbrev BlockEnds : ℕ → Type 0
BlockEnds k = (s : List ℕ) → 4 * length s + 1 ≤ k → Ended (length s) (parseblock k s)

line_step : (k : ℕ) → LineEnds k → PipeEnds k → LineEnds (suc k)
unfolding parseline
line_step k line pipe s le =
    let n = length s in
    Ended-and_then n n (parsepipe k s) _ (pipe s (omega (arith, le))) (λ cmd s1 le1.
      Ended-and_then n n (parsebacks k cmd s1) _
        (Ended-weaken (length s1) n (parsebacks k cmd s1) le1
          (parsebacks_ends k cmd s1 (omega (arith, le, le1))))
        (λ cmd' s2 le2.
          Ended-peek n s2 (0x3b ∷ []) (parsed cmd' (peek s2 (0x3b ∷ [])).1)
            (λ s3. and_then (parseline k s3) (λ right s4. parsed (Cmd.list cmd' right) s4))
            (omega (arith, le2, length-peek s2 (0x3b ∷ [])))
            (λ s3 less.
              Ended-and_then (length s3) n (parseline k s3) _
                (line s3 (omega (arith, le, le2, less)))
                (λ right s4 le4. omega (arith, le4, less, le2)))))

pipe_step : (k : ℕ) → PipeEnds k → ExecEnds k → PipeEnds (suc k)
unfolding parsepipe
pipe_step k pipe exec s le =
    let n = length s in
    Ended-and_then n n (parseexec k s) _ (exec s (omega (arith, le))) (λ cmd s1 le1.
      Ended-peek n s1 (0x7c ∷ []) (parsed cmd (peek s1 (0x7c ∷ [])).1)
        (λ s2. and_then (parsepipe k s2) (λ right s3. parsed (Cmd.pipe cmd right) s3))
        (omega (arith, le1, length-peek s1 (0x7c ∷ [])))
        (λ s2 less.
          Ended-and_then (length s2) n (parsepipe k s2) _ (pipe s2 (omega (arith, le, le1, less)))
            (λ right s3 le3. omega (arith, le3, less, le1))))

block_step : (k : ℕ) → LineEnds k → BlockEnds (suc k)
unfolding parseblock
block_step k line s le =
    let n = length s in
    Ended-peek n s (0x28 ∷ []) panics _ tt (λ s1 less1.
      Ended-and_then n n (parseline k s1) _
        (Ended-weaken (length s1) n (parseline k s1) (omega (arith, less1))
          (line s1 (omega (arith, le, less1))))
        (λ cmd s2 le2.
          Ended-peek n s2 (0x29 ∷ []) panics
            (λ s3. and_then (parseredirs k s3) (λ rs s4. parsed (wrap cmd rs) s4)) tt
            (λ s3 less3.
              Ended-and_then (length s3) n (parseredirs k s3) _
                (parseredirs_ends k s3 (omega (arith, le, le2, less3)))
                (λ rs s4 le4. omega (arith, le4, less3, le2)))))

exec_step : (k : ℕ) → BlockEnds k → ExecEnds (suc k)
unfolding parseexec
exec_step k block s le =
    let n = length s in
    let s1 = (peek s (0x28 ∷ [])).1 in
    let le1 : length s1 ≤ n = length-peek s (0x28 ∷ []) in
    elim (Bool-cases (peek s (0x28 ∷ [])).0) [
      | inl e ↦
          rw (e, parseexec)
            (Ended-weaken (length s1) n (parseblock k s1) le1 (block s1 (omega (arith, le, le1))))
      | inr e ↦
          rw (e, parseexec)
            (Ended-and_then (length s1) n (parseredirs k s1) _
              (parseredirs_ends k s1 (omega (arith, le, le1)))
              (λ rs s2 le2.
                Ended-and_then (length s2) n (parseargs k 0 s2) _
                  (parseargs_ends k 0 s2 (omega (arith, le, le1, le2)))
                  (λ r s3 le3. omega (arith, le1, le2, le3))))
    ]

all_ends : (k : ℕ) → LineEnds k × PipeEnds k × ExecEnds k × BlockEnds k
all_ends zero = (
  λ s le. absurd (omega (arith, le)),
  λ s le. absurd (omega (arith, le)),
  λ s le. absurd (omega (arith, le)),
  λ s le. absurd (omega (arith, le)),
)
all_ends (suc k) =
    let (line, pipe, exec, block) = all_ends k in
    (line_step k line pipe, pipe_step k pipe exec, exec_step k block, block_step k line)

-- On every line, `parsecmd` ends: with fuel for four calls for each character of the line and four more
-- it does not run out, but gives a command, having read the whole line, or panics.
pub parsecmd_ends :
    (k : ℕ) (s : List ℕ)
    → 4 * length s + 4 ≤ k
    → ((cmd : Cmd) × (parsecmd k s ≡ parsed cmd [])) ⊎ (parsecmd k s ≡ panics)
unfolding parsecmd
parsecmd_ends k s le = ended (parseline k s) refl ((all_ends k).0 s le)
  where
    read :
        (cmd : Cmd) (t : List ℕ)
        → ((c : Cmd) × (whole_line cmd t ≡ parsed c [])) ⊎ (whole_line cmd t ≡ panics)
    read cmd [] = inl (cmd, refl)
    read cmd (c ∷ t) = inr refl

    ended :
        (p : Parse Cmd)
        → parseline k s ≡ p
        → Ended (length s) p
        → ((cmd : Cmd) × (parsecmd k s ≡ parsed cmd [])) ⊎ (parsecmd k s ≡ panics)
    ended (parsed cmd s1) e h = rw (e, parsecmd) (read cmd (peek s1 []).1)
    ended panics e h = inr (rw (e, parsecmd) refl)
    ended spent e h = absurd h
