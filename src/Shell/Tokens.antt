-- ===== src/Shell/Tokens.antt =====
-- What `gettoken` cuts off.
use ele3021_operating_system.Base.{
  ℕ, ◌≡◌, ◌≢◌, refl, ap, ◌∙◌, inl, inr, Bool, true, false, not, ◌&&◌, List, [], ◌∷◌, ◌++◌, ◌==◌,
  ==_iff, All, Bool-cases, arith,
}
use ele3021_operating_system.Shell.{
  strchr, whitespace, symbols, greater, is_single, skip_space, is_plain, take_word, redirect, token,
  gettoken,
}

-- Texts of white space.
abbrev pub Spaces : List ℕ → Type 0
Spaces = All (λ c. strchr whitespace c ≡ true)

-- A text that does not begin with a character that passes the test.
abbrev pub StartsWithout : (ℕ → Bool) → List ℕ → Type 0
StartsWithout f [] = Unit
StartsWithout f (c ∷ s) = f c ≡ false

-- A token with the answer for it: the end of the text, a symbol of one character, `>`, `>>`, or a word.
-- The last argument is the text right after it.
pub data IsToken : ℕ → List ℕ → List ℕ → Type 0 where
  ends : IsToken 0 [] []
  single : (c : ℕ) (s : List ℕ) → is_single c ≡ true → IsToken c (c ∷ []) s
  redirects : (s : List ℕ) → StartsWithout (λ c. c == greater) s → IsToken greater (greater ∷ []) s
  appends : (s : List ℕ) → IsToken 0x2b (greater ∷ greater ∷ []) s
  word :
      (c : ℕ) (w s : List ℕ)
      → All (λ x. is_plain x ≡ true) (c ∷ w)
      → StartsWithout is_plain s
      → IsToken 0x61 (c ∷ w) s

pub skip_space_lem :
    (s : List ℕ)
    → (before : List ℕ) × (s ≡ before ++ skip_space s)
      × Spaces before
      × StartsWithout (strchr whitespace) (skip_space s)
unfolding skip_space
skip_space_lem [] = ([], refl, tt, tt)
skip_space_lem (c ∷ s) = elim (Bool-cases (strchr whitespace c)) [
  | inl e ↦
      let (before, text, spaces, stop) = skip_space_lem s in
      rw (e, skip_space) (c ∷ before, ap (λ l. c ∷ l) text, (e, spaces), stop)
  | inr e ↦ rw (e, skip_space) ([], refl, tt, e)
]

pub take_word_lem :
    (s : List ℕ)
    → let (w, rest) = take_word s in
      (s ≡ w ++ rest) × All (λ x. is_plain x ≡ true) w × StartsWithout is_plain rest
unfolding take_word
take_word_lem [] = (refl, tt, tt)
take_word_lem (c ∷ s) = elim (Bool-cases (is_plain c)) [
  | inl e ↦
      let (text, plain, stop) = take_word_lem s in
      rw (e, take_word) (ap (λ l. c ∷ l) text, (e, plain), stop)
  | inr e ↦ rw (e, take_word) (refl, tt, e)
]

redirect_lem :
    (s : List ℕ) → let (ret, w, rest) = redirect s in (greater ∷ s ≡ w ++ rest) × IsToken ret w rest
redirect_lem [] = (refl, IsToken.redirects [] tt)
redirect_lem (c ∷ s) = elim (Bool-cases (c == greater)) [
  | inl e ↦ rw e (rw ((==_iff c greater).0 e) refl, IsToken.appends s)
  | inr e ↦ rw e (refl, IsToken.redirects (c ∷ s) e)
]

token_lem :
    (s : List ℕ)
    → All (λ c. c ≢ 0) s
    → StartsWithout (strchr whitespace) s
    → let (ret, w, rest) = token s in (s ≡ w ++ rest) × IsToken ret w rest
unfolding token take_word
token_lem [] nonzero stop = (refl, IsToken.ends)
token_lem (c ∷ s) nonzero stop =
    let not_end : (c == 0) ≡ false = ground (arith, nonzero.0) in
    elim (Bool-cases (is_single c)) [
      | inl e ↦ rw (not_end, e) (refl, IsToken.single c s e)
      | inr e ↦ elim (Bool-cases (c == greater)) [
        | inl g ↦ rw (not_end, e, g) (rw ((==_iff c greater).0 g) (redirect_lem s))
        | inr g ↦
            let plain : is_plain c ≡ true =
              rw (stop, not_symbol (strchr symbols c) (c == greater) e g) refl in
            let (text, all, after) = take_word_lem s in
            rw (not_end, e, g, plain) (ap (λ l. c ∷ l) text, IsToken.word c _ _ (plain, all) after)
      ]
    ]
  where
    not_symbol : (a b : Bool) → (a && not b) ≡ false → b ≡ false → a ≡ false
    not_symbol true true e g = cc
    not_symbol true false e g = cc
    not_symbol false b e g = refl

All-right : (P : ℕ → Type 0) (a b : List ℕ) → All P (a ++ b) → All P b
All-right P [] b h = h
All-right P (x ∷ a) b h = All-right P a b h.1

-- On a text without 0, `gettoken` passes white space, then a token, which is the text from `q` to `eq`,
-- then white space, and stops at something else. It answers 0 only at the end of the text, a symbol's
-- own character, `+` for `>>`, and `a` for a word: a word has characters that are neither white space
-- nor symbols, at least one, and all of them up to the next that is one; `>` alone is not followed by
-- another `>`.
pub gettoken_lem :
    (s : List ℕ)
    → All (λ c. c ≢ 0) s
    → let (ret, w, rest) = gettoken s in
      (before : List ℕ) × (after : List ℕ) × (s ≡ before ++ (w ++ (after ++ rest)))
      × Spaces before
      × Spaces after
      × StartsWithout (strchr whitespace) rest
      × IsToken ret w (after ++ rest)
unfolding gettoken
gettoken_lem s nonzero =
    let (before, text, spaces, stop) = skip_space_lem s in
    let (cut, kind) =
      token_lem (skip_space s) (All-right _ before (skip_space s) (rw text at nonzero)) stop in
    let (after, text', spaces', stop') = skip_space_lem (token (skip_space s)).2 in
    (
      before,
      after,
      text ∙ ap (λ l. before ++ l) (cut ∙ ap (λ l. (token (skip_space s)).1 ++ l) text'),
      spaces,
      spaces',
      stop',
      rw (← text') kind,
    )
