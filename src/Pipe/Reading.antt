-- ===== src/Pipe/Reading.antt =====
-- `piperead` as an operation of the queue, and what was written read back.
use ele3021_operating_system.Base.{
  ℕ, zero, suc, ◌+◌, ◌%◌, ◌^◌, ◌≤◌, ◌≡◌, ◌≢◌, refl, sym, ap, subst, ◌∙◌, ◌⊎◌, inl, inr, Bool, true,
  false, ◌&&◌, List, [], ◌∷◌, ◌++◌, length, take, drop, get_or, arith, Bool-cases,
}
use ele3021_operating_system.Pipe.{
  Pipe, pipe_size, is_empty, fails, sleeps, returns, pipewrite, read_bytes, Read, piperead,
}
use ele3021_operating_system.Pipe.Bytes.{IsPipe, count, contents, queue, queue-wrap}
use ele3021_operating_system.Pipe.Writing.{
  Puts, Writes, pipewrite_lem, pipewrite-room, append_nil, cons≢nil,
}

abbrev advance : Pipe → Pipe
advance p = record p { nread = (p.nread + 1) % 2 ^ 32 }

count-advance : (p : Pipe) → IsPipe p → is_empty p ≡ false → count p ≡ suc (count (advance p))
count-advance p ok h =
    let ne : p.nread ≢ p.nwrite = λ e. ground arith in omega (arith, ok.nread, ok.nwrite)

advance-IsPipe : (p : Pipe) → IsPipe p → is_empty p ≡ false → IsPipe (advance p)
advance-IsPipe p ok h = record {
  cells = ok.cells;
  nread = omega arith;
  nwrite = ok.nwrite;
  small = omega (arith, count-advance p ok h, ok.small);
}

-- The first byte of a queue that has one.
contents-advance :
    (p : Pipe)
    → IsPipe p
    → is_empty p ≡ false
    → contents p ≡ get_or p.cells (p.nread % pipe_size) 0 ∷ contents (advance p)
contents-advance p ok h =
    ap (queue p.cells p.nread) (count-advance p ok h)
    ∙ ap (λ l. get_or p.cells (p.nread % pipe_size) 0 ∷ l)
        (queue-wrap p.cells (count (advance p)) (p.nread + 1) ((p.nread + 1) % 2 ^ 32)
          (omega arith))

contents-empty : (p : Pipe) → IsPipe p → is_empty p ≡ true → contents p ≡ []
contents-empty p ok h =
    let e : p.nread ≡ p.nwrite = ground arith in
    ap (queue p.cells p.nread) (let z : count p ≡ 0 = omega (arith, ok.nread, ok.nwrite) in z)

pub record Gets (p : Pipe) (n : ℕ) (bytes : List ℕ) (p' : Pipe) : Type 0 where
  pub sound : IsPipe p'
  pub first : bytes ≡ take n (contents p)
  pub left : contents p' ≡ drop n (contents p)

read_bytes-Gets :
    (n : ℕ) (p : Pipe) → IsPipe p → let (bytes, p') = read_bytes n p in Gets p n bytes p'
unfolding read_bytes
read_bytes-Gets zero p ok = record { sound = ok; first = refl; left = refl }
read_bytes-Gets (suc n) p ok = elim (Bool-cases (is_empty p)) [
  | inl e ↦ rw e (record {
    sound = ok;
    first = rw (contents-empty p ok e) refl;
    left = rw (contents-empty p ok e) refl;
  })
  | inr some_left ↦
      let r = read_bytes-Gets n (advance p) (advance-IsPipe p ok some_left) in
      rw some_left (record {
        sound = r.sound;
        first =
            ap (λ l. get_or p.cells (p.nread % pipe_size) 0 ∷ l) r.first
            ∙ ap (take (suc n)) (sym (contents-advance p ok some_left));
        left = r.left ∙ ap (drop (suc n)) (sym (contents-advance p ok some_left));
      })
]

-- What `piperead` answers.
abbrev pub Reads : Bool → Pipe → ℕ → Read → Type 0
Reads killed p n (returns bytes p') =
    ((contents p ≢ []) ⊎ (p.writeopen ≡ false)) × Gets p n bytes p'
Reads killed p n fails = (contents p ≡ []) × (p.writeopen ≡ true) × (killed ≡ true)
Reads killed p n sleeps = (contents p ≡ []) × (p.writeopen ≡ true) × (killed ≡ false)

-- `piperead` takes the first `n` bytes off the queue, or all if there are fewer. With no byte, and the
-- writer's end open, it sleeps, or fails if the caller was killed.
pub piperead_lem :
    (killed : Bool) (p : Pipe) (n : ℕ) → IsPipe p → Reads killed p n (piperead killed p n)
unfolding piperead
piperead_lem killed p n ok = elim (Bool-cases (is_empty p && p.writeopen)) [
  | inr e ↦ rw e (some_or_closed e, read_bytes-Gets n p ok)
  | inl e ↦
      let nothing = contents-empty p ok (ground arith) in
      elim (Bool-cases killed) [
        | inl k ↦ rw (e, k) (nothing, ground arith, refl)
        | inr k ↦ rw (e, k) (nothing, ground arith, refl)
      ]
]
  where
    some_or_closed : (is_empty p && p.writeopen) ≡ false → (contents p ≢ []) ⊎ (p.writeopen ≡ false)
    some_or_closed e = elim (Bool-cases (is_empty p)) [
      | inl none_left ↦ inr (sym (rw none_left refl) ∙ e)
      | inr some_left ↦ inl (λ z. cons≢nil _ _ (sym (contents-advance p ok some_left) ∙ z))
    ]

length-queue : (cells : List ℕ) (i k : ℕ) → length (queue cells i k) ≡ k
length-queue cells i zero = refl
length-queue cells i (suc k) = ap suc (length-queue cells (i + 1) k)

take-length : (xs : List ℕ) → take (length xs) xs ≡ xs
take-length [] = refl
take-length (x ∷ xs) = ap (λ l. x ∷ l) (take-length xs)

-- From 1 to 512 bytes, written to a well-formed empty pipe, are all taken, and come back in their
-- order when as many are read.
pub piperead-pipewrite :
    (killed killed' : Bool) (p : Pipe) (x : ℕ) (xs : List ℕ)
    → IsPipe p
    → contents p ≡ []
    → length (x ∷ xs) ≤ pipe_size
    → (p' p'' : Pipe) × (pipewrite killed p (x ∷ xs) ≡ returns p')
      × (piperead killed' p' (length (x ∷ xs)) ≡ returns (x ∷ xs) p'')
unfolding piperead
piperead-pipewrite killed killed' p x xs ok nothing le =
    let none_there : count p ≡ 0 =
      sym (length-queue p.cells p.nread (count p)) ∙ ap length nothing in
    let (p', e) = pipewrite-room killed p (x ∷ xs) ok (omega arith) in
    let r : Puts p (x ∷ xs) p' [] =
      subst (Writes killed p (x ∷ xs)) e (pipewrite_lem killed p (x ∷ xs) ok) in
    let there : contents p' ≡ x ∷ xs =
      r.queued ∙ ap (λ l. l ++ r.written) nothing ∙ sym (r.split ∙ append_nil r.written) in
    let some_left : is_empty p' ≡ false = elim (Bool-cases (is_empty p')) [
      | inl z ↦ absurd (cons≢nil x xs (sym there ∙ contents-empty p' r.sound z))
      | inr z ↦ z
    ] in
    let g = read_bytes-Gets (length (x ∷ xs)) p' r.sound in
    let p'' = (read_bytes (length (x ∷ xs)) p').1 in
    (
      p',
      p'',
      e,
      rw some_left (
          ap (λ l. Read.returns l p'')
            (g.first ∙ ap (take (length (x ∷ xs))) there ∙ take-length (x ∷ xs))),
    )
