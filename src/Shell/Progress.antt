-- ===== src/Shell/Progress.antt =====
-- How far `gettoken` gets in the text.
use ele3021_operating_system.Base.{
  ℕ, ◌≤◌, ◌<◌, ◌≡◌, refl, ap, ◌⊎◌, inl, inr, Bool, true, false, not, ◌&&◌, List, [], ◌∷◌, ◌==◌,
  Bool-cases, arith, length, length-append,
}
use ele3021_operating_system.Shell.{
  strchr, whitespace, symbols, greater, is_single, skip_space, is_plain, take_word, redirect, token,
  gettoken, starts, peek,
}
use ele3021_operating_system.Shell.Tokens.{StartsWithout, skip_space_lem, take_word_lem}

length-skip_space : (s : List ℕ) → length (skip_space s) ≤ length s
length-skip_space s =
    let (before, text, _, _) = skip_space_lem s in
    omega (arith, ap length text, length-append before (skip_space s))

length-take_word : (s : List ℕ) → length (take_word s).1 ≤ length s
length-take_word s =
    let (text, _, _) = take_word_lem s in
    omega (arith, ap length text, length-append (take_word s).0 (take_word s).1)

length-redirect : (s : List ℕ) → length (redirect s).2 ≤ length s
length-redirect [] = omega arith
length-redirect (c ∷ s) = elim (Bool-cases (c == greater)) [
  | inl e ↦ rw e (omega arith)
  | inr e ↦ rw e (omega arith)
]

-- Unless it is at the end, the switch of `gettoken` gets on.
length-token :
    (c : ℕ) (s : List ℕ)
    → strchr whitespace c ≡ false
    → ((c == 0) ≡ true) ⊎ (length (token (c ∷ s)).2 ≤ length s)
unfolding token take_word
length-token c s stop = elim (Bool-cases (c == 0)) [
  | inl z ↦ inl z
  | inr z ↦ elim (Bool-cases (is_single c)) [
    | inl e ↦ inr (rw (z, e) (omega arith))
    | inr e ↦ elim (Bool-cases (c == greater)) [
      | inl g ↦ inr (rw (z, e, g) (length-redirect s))
      | inr g ↦
          let plain : is_plain c ≡ true =
            rw (stop, not_symbol (strchr symbols c) (c == greater) e g) refl in
          inr (rw (z, e, g, plain) (length-take_word s))
    ]
  ]
]
  where
    not_symbol : (a b : Bool) → (a && not b) ≡ false → b ≡ false → a ≡ false
    not_symbol true true e g = cc
    not_symbol true false e g = cc
    not_symbol false b e g = refl

-- A text is at its end when nothing but white space, or a 0, is left.
abbrev pub AtEnd : List ℕ → Type 0
AtEnd [] = Unit
AtEnd (c ∷ s) = (c == 0) ≡ true

token_progress :
    (s : List ℕ)
    → StartsWithout (strchr whitespace) s
    → ((AtEnd s) × ((token s).0 ≡ 0) × ((token s).2 ≡ s)) ⊎ (length (token s).2 < length s)
unfolding token
token_progress [] stop = inl (tt, refl, refl)
token_progress (c ∷ s) stop = elim (length-token c s stop) [
  | inl z ↦ inl (z, rw z refl, rw z refl)
  | inr less ↦ inr (omega (arith, less))
]

pub gettoken_progress :
    (s : List ℕ)
    → (AtEnd (skip_space s) × ((gettoken s).0 ≡ 0) × (length (gettoken s).2 ≤ length s))
      ⊎ (length (gettoken s).2 < length s)
unfolding gettoken
gettoken_progress s =
    let (_, _, _, stop) = skip_space_lem s in
    let after = length-skip_space (token (skip_space s)).2 in
    let before = length-skip_space s in
    elim (token_progress (skip_space s) stop) [
      | inl (end, none, same) ↦ inl (end, none, omega (arith, after, before, ap length same))
      | inr less ↦ inr (omega (arith, after, before, less))
    ]

pub gettoken_le : (s : List ℕ) → length (gettoken s).2 ≤ length s
gettoken_le s = elim (gettoken_progress s) [ inl h ↦ h.2 | inr h ↦ omega (arith, h) ]

skip_space_again : (t : List ℕ) → StartsWithout (strchr whitespace) t → skip_space t ≡ t
unfolding skip_space
skip_space_again [] stop = refl
skip_space_again (c ∷ t) stop = rw stop refl

starts_before_end : (toks t : List ℕ) → AtEnd t → starts toks t ≡ true → ⊥
starts_before_end toks [] end h = cc
starts_before_end toks (c ∷ t) end h = let z : false ≡ true = rw end at h in cc

-- Where `peek` finds one of its tokens, `gettoken` gets on.
pub peek_progress :
    (s toks : List ℕ) → (peek s toks).0 ≡ true → length (gettoken (peek s toks).1).2 < length s
unfolding peek
peek_progress s toks h = elim (gettoken_progress (skip_space s)) [
  | inr less ↦ omega (arith, less, length-skip_space s)
  | inl (end, _, _) ↦
      let (_, _, _, stop) = skip_space_lem s in
      absurd
        (starts_before_end toks (skip_space s) (rw (skip_space_again (skip_space s) stop) at end) h)
]

pub length-peek : (s toks : List ℕ) → length (peek s toks).1 ≤ length s
unfolding peek
length-peek s toks = length-skip_space s
