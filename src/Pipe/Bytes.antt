-- ===== src/Pipe/Bytes.antt =====
-- A pipe is a queue of bytes, at most 512.
use ele3021_operating_system.Base.{
  ℕ, zero, suc, ◌+◌, ◌-◌, ◌%◌, ◌^◌, ◌≤◌, ◌<◌, ◌≡◌, ◌≢◌, refl, sym, ap, ap₂, ◌∙◌, false, List, [],
  ◌∷◌, ◌++◌, get_or, get_or-set_self, get_or-set_ne, length-set, set, length, arith,
}
use ele3021_operating_system.Pipe.{Pipe, pipe_size, is_full, put}

-- The bytes written and not yet read.
abbrev pub count : Pipe → ℕ
count p = (p.nwrite + 2 ^ 32 - p.nread) % 2 ^ 32

-- `k` cells from the counter `i` on.
abbrev pub queue : List ℕ → ℕ → ℕ → List ℕ
queue cells i zero = []
queue cells i (suc k) = get_or cells (i % pipe_size) 0 ∷ queue cells (i + 1) k

abbrev pub contents : Pipe → List ℕ
contents p = queue p.cells p.nread (count p)

pub record IsPipe (p : Pipe) : Type 0 where
  pub cells : length p.cells ≡ pipe_size
  pub nread : p.nread < 2 ^ 32
  pub nwrite : p.nwrite < 2 ^ 32
  pub small : count p ≤ pipe_size

-- Only the counter's remainder matters.
pub queue-wrap :
    (cells : List ℕ) (k i j : ℕ) → i % pipe_size ≡ j % pipe_size → queue cells i k ≡ queue cells j k
queue-wrap cells zero i j e = refl
queue-wrap cells (suc k) i j e =
    ap₂ (λ x l. x ∷ l) (ap (λ z. get_or cells z 0) e)
      (queue-wrap cells k (i + 1) (j + 1) (omega arith))

queue-snoc :
    (cells : List ℕ) (k i : ℕ)
    → queue cells i (suc k) ≡ queue cells i k ++ (get_or cells ((i + k) % pipe_size) 0 ∷ [])
queue-snoc cells zero i = ap (λ z. get_or cells (z % pipe_size) 0 ∷ []) (omega arith)
queue-snoc cells (suc k) i =
    ap (λ l. get_or cells (i % pipe_size) 0 ∷ l)
      (queue-snoc cells k (i + 1)
        ∙ ap (λ z. queue cells (i + 1) k ++ (get_or cells (z % pipe_size) 0 ∷ [])) (omega arith))

-- A cell behind the queue may change.
queue-set :
    (cells : List ℕ) (k i w x : ℕ)
    → i + k ≤ w
    → w < i + pipe_size
    → queue (set cells (w % pipe_size) x) i k ≡ queue cells i k
queue-set cells zero i w x le lt = refl
queue-set cells (suc k) i w x le lt =
    ap₂ (λ y l. y ∷ l) (get_or-set_ne cells (w % pipe_size) (i % pipe_size) x 0 (omega arith))
      (queue-set cells k (i + 1) w x (omega arith) (omega arith))

pub count-full : (p : Pipe) → IsPipe p → is_full p ≡ false → count p < pipe_size
count-full p ok h =
    let ne : p.nwrite ≢ (p.nread + pipe_size) % 2 ^ 32 = λ e. ground (arith, e) in
    omega (arith, ok.small, ok.nread, ok.nwrite)

pub count-put : (p : Pipe) (x : ℕ) → IsPipe p → is_full p ≡ false → count (put x p) ≡ suc (count p)
count-put p x ok h = omega (arith, count-full p ok h, ok.nread, ok.nwrite)

pub put-IsPipe : (p : Pipe) (x : ℕ) → IsPipe p → is_full p ≡ false → IsPipe (put x p)
put-IsPipe p x ok h = record {
  cells = length-set p.cells (p.nwrite % pipe_size) x ∙ ok.cells;
  nread = ok.nread;
  nwrite = omega arith;
  small = omega (arith, count-put p x ok h, count-full p ok h);
}

pub put-contents :
    (p : Pipe) (x : ℕ) → IsPipe p → is_full p ≡ false → contents (put x p) ≡ contents p ++ (x ∷ [])
put-contents p x ok h =
    let w = p.nread + count p in
    let here : w % pipe_size ≡ p.nwrite % pipe_size = omega (arith, ok.nread, ok.nwrite) in
    let cells' = set p.cells (p.nwrite % pipe_size) x in
    ap (λ k. queue cells' p.nread k) (count-put p x ok h)
    ∙ queue-snoc cells' (count p) p.nread
    ∙ ap₂ (λ l y. l ++ (y ∷ []))
        (ap (λ z. queue (set p.cells z x) p.nread (count p)) (sym here)
          ∙ queue-set p.cells (count p) p.nread w x (omega arith)
              (omega (arith, count-full p ok h)))
        (ap (λ z. get_or cells' z 0) here
          ∙ get_or-set_self p.cells (p.nwrite % pipe_size) x 0 (omega (arith, ok.cells)))
