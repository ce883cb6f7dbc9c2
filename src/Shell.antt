-- ===== src/Shell.antt =====
-- xv6-public/sh.c: how the shell cuts a command line into tokens. A text is the list of the characters
-- before the end `es`, where a 0 stands.
pub mod Tokens
pub mod Progress
pub mod Parser
mod Tests
use ele3021_operating_system.Base.{
  ℕ, Bool, true, false, not, ◌&&◌, ◌||◌, List, [], ◌∷◌, ◌==◌, if◌then◌else◌,
}

-- `strchr(s, c)`, as a test.
unfoldable pub strchr : List ℕ → ℕ → Bool
strchr [] c = false
strchr (x ∷ s) c = let rest = strchr s c in x == c || rest

-- " \t\r\n\v"
abbrev pub whitespace : List ℕ
whitespace = 0x20 ∷ 0x09 ∷ 0x0d ∷ 0x0a ∷ 0x0b ∷ []

-- "<|>&;()"
abbrev pub symbols : List ℕ
symbols = 0x3c ∷ 0x7c ∷ 0x3e ∷ 0x26 ∷ 0x3b ∷ 0x28 ∷ 0x29 ∷ []

abbrev pub greater : ℕ
greater = 0x3e

-- The cases of `gettoken` that are a symbol of one character: all symbols but `>`.
abbrev pub is_single : ℕ → Bool
is_single c = strchr symbols c && not (c == greater)

-- `while(s < es && strchr(whitespace, *s)) s++;`
unfoldable pub skip_space : List ℕ → List ℕ
skip_space [] = []
skip_space (c ∷ s) = let rest = skip_space s in if strchr whitespace c then rest else c ∷ s

-- `while(s < es && !strchr(whitespace, *s) && !strchr(symbols, *s)) s++;`: what it passes, and the rest.
abbrev pub is_plain : ℕ → Bool
is_plain c = not (strchr whitespace c) && not (strchr symbols c)

unfoldable pub take_word : List ℕ → List ℕ × List ℕ
take_word [] = ([], [])
take_word (c ∷ s) =
    let (word, rest) = take_word s in if is_plain c then (c ∷ word, rest) else ([], c ∷ s)

-- The case '>' of `gettoken`.
abbrev pub redirect : List ℕ → ℕ × List ℕ × List ℕ
redirect [] = (greater, greater ∷ [], [])
redirect (c ∷ s) =
    if c == greater then (0x2b, greater ∷ greater ∷ [], s) else (greater, greater ∷ [], c ∷ s)

-- The switch of `gettoken`: `ret`, the text from `q` to `eq`, and what is after it.
unfoldable pub token : List ℕ → ℕ × List ℕ × List ℕ
token [] = (0, [], [])
token (c ∷ s) =
    if c == 0
    then (0, [], c ∷ s)
    else (if is_single c
        then (c, c ∷ [], s)
        else (if c == greater
            then redirect s
            else (let (w, rest) = take_word (c ∷ s) in (0x61, w, rest))))

-- `gettoken(ps, es, q, eq)`: `ret`, the text from `q` to `eq`, and the text at `*ps` afterwards.
unfoldable pub gettoken : List ℕ → ℕ × List ℕ × List ℕ
gettoken s = let (ret, word, rest) = token (skip_space s) in (ret, word, skip_space rest)

-- `*s && strchr(toks, *s)`
abbrev pub starts : List ℕ → List ℕ → Bool
starts toks [] = false
starts toks (c ∷ s) = not (c == 0) && strchr toks c

-- `peek(ps, es, toks)`: the answer, and the text at `*ps` afterwards.
unfoldable pub peek : List ℕ → List ℕ → Bool × List ℕ
peek s toks = (starts toks (skip_space s), skip_space s)
