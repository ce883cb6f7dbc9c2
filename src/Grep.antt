-- ===== src/Grep.antt =====
-- xv6-public/grep.c: the matcher of regular expressions. A string is the list of its characters, less
-- the NUL at its end; a character is its code.
pub mod Meaning
mod Tests
use ele3021_operating_system.Base.{
  ℕ, Bool, true, false, ◌&&◌, ◌||◌, List, [], ◌∷◌, ◌==◌, if◌then◌else◌,
}

-- The characters '*', '.', '$' and '^'.
abbrev pub asterisk : ℕ
asterisk = 42

abbrev pub dot : ℕ
dot = 46

abbrev pub dollar : ℕ
dollar = 36

abbrev pub caret : ℕ
caret = 94

abbrev pub is_nul : List ℕ → Bool
is_nul [] = true
is_nul (_ ∷ _) = false

-- The loop of `matchstar(c, re, text)`; `here` is `matchhere(re, _)`.
pub matchstar : ℕ → (List ℕ → Bool) → List ℕ → Bool
matchstar c here [] = here []
matchstar c here (x ∷ text) = here (x ∷ text) || ((x == c || c == dot) && matchstar c here text)

-- The last test of `matchhere`; `here` is `matchhere(re + 1, _)`.
abbrev pub match_one : ℕ → (List ℕ → Bool) → List ℕ → Bool
match_one c here [] = false
match_one c here (x ∷ text) = (c == dot || c == x) && here text

pub matchhere : List ℕ → List ℕ → Bool
matchhere [] text = true
matchhere (c ∷ []) text = if c == dollar then is_nul text else match_one c (matchhere []) text
matchhere (c ∷ d ∷ re) text =
    if d == asterisk then matchstar c (matchhere re) text else match_one c (matchhere (d ∷ re)) text

-- The loop of `match`: it also looks at the empty string.
pub match_from : List ℕ → List ℕ → Bool
match_from re [] = matchhere re []
match_from re (x ∷ text) = matchhere re (x ∷ text) || match_from re text

-- `match(re, text)`
pub match_text : List ℕ → List ℕ → Bool
match_text [] text = match_from [] text
match_text (c ∷ re) text = if c == caret then matchhere re text else match_from (c ∷ re) text
