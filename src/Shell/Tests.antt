-- ===== src/Shell/Tests.antt =====
-- The line "  >> log; ls" is cut at its first token.
use ele3021_operating_system.Base.{ℕ, ◌≡◌, ◌≢◌, refl, true, List, [], ◌∷◌, ◌++◌, ◌⊎◌, arith, All}
use ele3021_operating_system.Shell.{
  strchr, whitespace, skip_space, take_word, token, gettoken, peek,
}
use ele3021_operating_system.Shell.Parser.{
  Cmd, parsed, panics, parsecmd, parseline, parsepipe, parseexec, parseblock, parseargs,
  parseredirs, parsebacks,
}
use ele3021_operating_system.Shell.Parser.Fuel.{parsecmd_ends}
use ele3021_operating_system.Shell.Tokens.{Spaces, StartsWithout, IsToken, gettoken_lem}

abbrev line : List ℕ
line = 0x20 ∷ 0x20 ∷ 0x3e ∷ 0x3e ∷ 0x20 ∷ 0x6c ∷ 0x6f ∷ 0x67 ∷ 0x3b ∷ 0x20 ∷ 0x6c ∷ 0x73 ∷ []

abbrev after_first : List ℕ
after_first = 0x6c ∷ 0x6f ∷ 0x67 ∷ 0x3b ∷ 0x20 ∷ 0x6c ∷ 0x73 ∷ []

first_run : gettoken line ≡ (0x2b, 0x3e ∷ 0x3e ∷ [], after_first)
unfolding gettoken token skip_space take_word strchr
first_run = refl

second_run : gettoken after_first ≡ (0x61, 0x6c ∷ 0x6f ∷ 0x67 ∷ [], 0x3b ∷ 0x20 ∷ 0x6c ∷ 0x73 ∷ [])
unfolding gettoken token skip_space take_word strchr
second_run = refl

peek_run : peek line (0x3c ∷ 0x3e ∷ []) ≡ (true, skip_space line)
unfolding peek skip_space strchr
peek_run = refl

line-nonzero : All (λ c. c ≢ 0) line
line-nonzero = (
  λ e. omega arith,
  (
    λ e. omega arith,
    (
      λ e. omega arith,
      (
        λ e. omega arith,
        (
          λ e. omega arith,
          (
            λ e. omega arith,
            (
              λ e. omega arith,
              (
                λ e. omega arith,
                (λ e. omega arith, (λ e. omega arith, (λ e. omega arith, (λ e. omega arith, tt)))),
              ),
            ),
          ),
        ),
      ),
    ),
  ),
)

gettoken_lem_example :
    let (ret, w, rest) = gettoken line in
    (before : List ℕ) × (after : List ℕ) × (line ≡ before ++ (w ++ (after ++ rest)))
    × Spaces before
    × Spaces after
    × StartsWithout (strchr whitespace) rest
    × IsToken ret w (after ++ rest)
gettoken_lem_example = gettoken_lem line line-nonzero

-- "(a;b)&"
abbrev block_line : List ℕ
block_line = 0x28 ∷ 0x61 ∷ 0x3b ∷ 0x62 ∷ 0x29 ∷ 0x26 ∷ []

parse_run :
    parsecmd 28 block_line
    ≡ parsed (Cmd.back (Cmd.list (Cmd.exec ((0x61 ∷ []) ∷ [])) (Cmd.exec ((0x62 ∷ []) ∷ [])))) []
unfolding parsecmd parseline parsepipe parseexec parseblock parseargs parseredirs parsebacks peek
    gettoken token skip_space take_word strchr
parse_run = refl

parsecmd_ends_example :
    ((cmd : Cmd) × (parsecmd 28 block_line ≡ parsed cmd [])) ⊎ (parsecmd 28 block_line ≡ panics)
parsecmd_ends_example = parsecmd_ends 28 block_line (omega arith)
