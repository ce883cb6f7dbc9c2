-- ===== src/Pipe/Writing.antt =====
-- `pipewrite` as an operation of the queue.
use ele3021_operating_system.Base.{
  ℕ, ◌+◌, ◌%◌, ◌^◌, ◌≤◌, ◌<◌, ◌≡◌, ◌≢◌, refl, sym, ap, ◌∙◌, ◌⊎◌, inl, inr, Bool, true, false, not,
  ◌||◌, List, [], ◌∷◌, ◌++◌, length, arith, Bool-cases,
}
use ele3021_operating_system.Pipe.{
  Pipe, pipe_size, is_full, put, Written, fails, sleeps, returns, pipewrite,
}
use ele3021_operating_system.Pipe.Bytes.{
  IsPipe, count, contents, put-IsPipe, put-contents, count-put,
}

append_assoc : (xs ys zs : List ℕ) → (xs ++ ys) ++ zs ≡ xs ++ (ys ++ zs)
append_assoc [] ys zs = refl
append_assoc (x ∷ xs) ys zs = ap (λ l. x ∷ l) (append_assoc xs ys zs)

pub append_nil : (xs : List ℕ) → xs ++ [] ≡ xs
append_nil [] = refl
append_nil (x ∷ xs) = ap (λ l. x ∷ l) (append_nil xs)

-- From `p` to `p'` some bytes went in at the end, and `rest` is left of `xs`.
pub record Puts (p : Pipe) (xs : List ℕ) (p' : Pipe) (rest : List ℕ) : Type 0 where
  pub sound : IsPipe p'
  pub open_end : p'.readopen ≡ p.readopen
  pub written : List ℕ
  pub split : xs ≡ written ++ rest
  pub queued : contents p' ≡ contents p ++ written

-- What `pipewrite` answers.
abbrev pub Writes : Bool → Pipe → List ℕ → Written → Type 0
Writes killed p xs (returns p') = Puts p xs p' []
Writes killed p xs (fails p') =
    (rest : List ℕ) × Puts p xs p' rest
    × (rest ≢ [])
    × (is_full p' ≡ true)
    × ((p.readopen ≡ false) ⊎ (killed ≡ true))
Writes killed p xs (sleeps p' rest) =
    Puts p xs p' rest × (rest ≢ []) × (is_full p' ≡ true) × (p.readopen ≡ true) × (killed ≡ false)

Puts-none : (p : Pipe) (xs : List ℕ) → IsPipe p → Puts p xs p xs
Puts-none p xs ok = record {
  sound = ok;
  open_end = refl;
  written = [];
  split = refl;
  queued = sym (append_nil (contents p));
}

Puts-put :
    (x : ℕ) {p p' : Pipe} {xs rest : List ℕ}
    → IsPipe p
    → is_full p ≡ false
    → Puts (put x p) xs p' rest
    → Puts p (x ∷ xs) p' rest
Puts-put x {p} {xs = xs} ok room r = record {
  sound = r.sound;
  open_end = r.open_end;
  written = x ∷ r.written;
  split = ap (λ l. x ∷ l) r.split;
  queued =
      r.queued
      ∙ ap (λ l. l ++ r.written) (put-contents p x ok room)
      ∙ append_assoc (contents p) (x ∷ []) r.written;
}

Writes-put :
    (killed : Bool) (x : ℕ) (p : Pipe) (xs : List ℕ) (w : Written)
    → IsPipe p
    → is_full p ≡ false
    → Writes killed (put x p) xs w
    → Writes killed p (x ∷ xs) w
Writes-put killed x p xs (returns p') ok room r = Puts-put x ok room r
Writes-put killed x p xs (fails p') ok room (rest, r, more, full, cause) =
    (rest, Puts-put x ok room r, more, full, cause)
Writes-put killed x p xs (sleeps p' rest) ok room (r, more, full, end_open, alive) =
    (Puts-put x ok room r, more, full, end_open, alive)

pub cons≢nil : (x : ℕ) (xs : List ℕ) → x ∷ xs ≢ []
cons≢nil x xs e = cc

-- `pipewrite` puts bytes at the end of the queue, in their order: all of them if it returns, and else
-- as many as it takes to fill the pipe. It fails only if the reader's end is closed or the caller was
-- killed, and sleeps otherwise.
pub pipewrite_lem :
    (killed : Bool) (p : Pipe) (xs : List ℕ) → IsPipe p → Writes killed p xs (pipewrite killed p xs)
unfolding pipewrite
pipewrite_lem killed p [] ok = Puts-none p [] ok
pipewrite_lem killed p (x ∷ xs) ok = elim (Bool-cases (is_full p)) [
  | inr room ↦ rw room (
      Writes-put killed x p xs _ ok room
        (pipewrite_lem killed (put x p) xs (put-IsPipe p x ok room)))
  | inl full ↦ elim (Bool-cases (not p.readopen || killed)) [
    | inl over ↦
        rw (full, over) (x ∷ xs, Puts-none p (x ∷ xs) ok, cons≢nil x xs, full, ground arith)
    | inr wait ↦
        rw (full, wait) (Puts-none p (x ∷ xs) ok, cons≢nil x xs, full, ground arith, ground arith)
  ]
]

-- What fits into the pipe is written without sleeping.
pub pipewrite-room :
    (killed : Bool) (p : Pipe) (xs : List ℕ)
    → IsPipe p
    → count p + length xs ≤ pipe_size
    → (p' : Pipe) × (pipewrite killed p xs ≡ returns p')
unfolding pipewrite
pipewrite-room killed p [] ok le = (p, refl)
pipewrite-room killed p (x ∷ xs) ok le =
    let room : is_full p ≡ false = not_full (omega arith) in
    let (p', e) =
      pipewrite-room killed (put x p) xs (put-IsPipe p x ok room)
        (omega (arith, count-put p x ok room)) in
    (p', rw room e)
  where
    not_full : count p < pipe_size → is_full p ≡ false
    not_full lt =
        let ne : p.nwrite ≢ (p.nread + pipe_size) % 2 ^ 32 =
          λ e. omega (arith, ok.nread, ok.nwrite) in
        ground arith
