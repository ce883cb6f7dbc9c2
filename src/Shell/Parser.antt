-- ===== src/Shell/Parser.antt =====
-- xv6-public/sh.c: the parser of the shell. Every function has fuel, one for each call below it and
-- each round of a loop. A word is its text: the 0 that `nulterminate` writes behind it is not modelled.
pub mod Fuel
use ele3021_operating_system.Base.{
  ℕ, zero, suc, ◌+◌, Bool, true, false, ◌&&◌, List, [], ◌∷◌, ◌++◌, ◌==◌, ltb, if◌then◌else◌,
}
use ele3021_operating_system.Shell.{gettoken, peek}

-- `struct cmd` and its kinds: EXEC, REDIR, PIPE, LIST and BACK.
pub data Cmd : Type 0 where
  exec : (argv : List (List ℕ)) → Cmd
  redir : (cmd : Cmd) (file : List ℕ) (mode fd : ℕ) → Cmd
  pipe : (left right : Cmd) → Cmd
  list : (left right : Cmd) → Cmd
  back : (cmd : Cmd) → Cmd

-- What a function of the parser gives: a result and the text that is left, or a panic. `spent` is the
-- model's own: there was not enough fuel.
pub data Parse (A : Type 0) : Type 0 where
  parsed : A → List ℕ → Parse A
  panics : Parse A
  spent : Parse A

abbrev pub and_then : {A B : Type 0} → Parse A → (A → List ℕ → Parse B) → Parse B
and_then (parsed a s) f = f a s
and_then panics f = panics
and_then spent f = spent

-- MAXARGS
abbrev pub max_args : ℕ
max_args = 10

-- A file with the mode and the descriptor for it: `<` reads, `>` and `>>` write and create.
abbrev pub Redirection : Type 0
Redirection = List ℕ × ℕ × ℕ

abbrev pub redirection : ℕ → List ℕ → Redirection
redirection tok file = if tok == 0x3c then (file, 0x000, 0) else (file, 0x201, 1)

-- The commands that `redircmd` wraps around `cmd`, the first one innermost.
abbrev pub wrap : Cmd → List Redirection → Cmd
wrap cmd [] = cmd
wrap cmd (r ∷ rs) = wrap (redir cmd r.0 r.1 r.2) rs

-- `parseredirs(cmd, ps, es)`, as what it wraps around the command.
unfoldable pub parseredirs : ℕ → List ℕ → Parse (List Redirection)
parseredirs zero s = spent
parseredirs (suc k) s =
    let (more, s1) = peek s (0x3c ∷ 0x3e ∷ []) in
    let (tok, _, s2) = gettoken s1 in
    let (word, q, s3) = gettoken s2 in
    elim more [
      | false ↦ parsed [] s1
      | true ↦ elim (word == 0x61) [
        | false ↦ panics
        | true ↦ and_then (parseredirs k s3) (λ rs s4. parsed (redirection tok q ∷ rs) s4)
      ]
    ]

-- The loop of `parseexec` with `argc` arguments already: the others, and the redirections among them.
unfoldable pub parseargs : ℕ → ℕ → List ℕ → Parse (List (List ℕ) × List Redirection)
parseargs zero argc s = spent
parseargs (suc k) argc s =
    let (stop, s1) = peek s (0x7c ∷ 0x29 ∷ 0x26 ∷ 0x3b ∷ []) in
    let (tok, q, s2) = gettoken s1 in
    elim stop [
      | true ↦ parsed ([], []) s1
      | false ↦ elim (tok == 0) [
        | true ↦ parsed ([], []) s2
        | false ↦ elim (tok == 0x61 && ltb (argc + 1) max_args) [
          | false ↦ panics
          | true ↦ and_then (parseredirs k s2) (λ rs s3.
              and_then (parseargs k (argc + 1) s3) (λ r s4. parsed (q ∷ r.0, rs ++ r.1) s4))
        ]
      ]
    ]

-- The loop of `parseline`: `&` after the command.
unfoldable pub parsebacks : ℕ → Cmd → List ℕ → Parse Cmd
parsebacks zero cmd s = spent
parsebacks (suc k) cmd s =
    let (more, s1) = peek s (0x26 ∷ []) in
    elim more [ false ↦ parsed cmd s1 | true ↦ parsebacks k (back cmd) (gettoken s1).2 ]

-- `parseline(ps, es)`, `parsepipe(ps, es)`, `parseblock(ps, es)` and `parseexec(ps, es)`
unfoldable mutual
  pub parseline : ℕ → List ℕ → Parse Cmd
  parseline zero s = spent
  parseline (suc k) s = and_then (parsepipe k s) (λ cmd s1.
      and_then (parsebacks k cmd s1) (λ cmd' s2.
        let (more, s3) = peek s2 (0x3b ∷ []) in
        elim more [
          | false ↦ parsed cmd' s3
          | true ↦ and_then (parseline k (gettoken s3).2) (λ right s4. parsed (list cmd' right) s4)
        ]))

  pub parsepipe : ℕ → List ℕ → Parse Cmd
  parsepipe zero s = spent
  parsepipe (suc k) s = and_then (parseexec k s) (λ cmd s1.
      let (more, s2) = peek s1 (0x7c ∷ []) in
      elim more [
        | false ↦ parsed cmd s2
        | true ↦ and_then (parsepipe k (gettoken s2).2) (λ right s3. parsed (pipe cmd right) s3)
      ])

  pub parseblock : ℕ → List ℕ → Parse Cmd
  parseblock zero s = spent
  parseblock (suc k) s =
      let (opens, s1) = peek s (0x28 ∷ []) in
      elim opens [
        | false ↦ panics
        | true ↦ and_then (parseline k (gettoken s1).2) (λ cmd s2.
            let (closes, s3) = peek s2 (0x29 ∷ []) in
            elim closes [
              | false ↦ panics
              | true ↦ and_then (parseredirs k (gettoken s3).2) (λ rs s4. parsed (wrap cmd rs) s4)
            ])
      ]

  pub parseexec : ℕ → List ℕ → Parse Cmd
  parseexec zero s = spent
  parseexec (suc k) s =
      let (block, s1) = peek s (0x28 ∷ []) in
      elim block [
        | true ↦ parseblock k s1
        | false ↦
            and_then (parseredirs k s1) (λ rs s2.
              and_then (parseargs k 0 s2) (λ r s3. parsed (wrap (exec r.0) (rs ++ r.1)) s3))
      ]

-- The test of `parsecmd` for leftovers.
abbrev pub whole_line : Cmd → List ℕ → Parse Cmd
whole_line cmd [] = parsed cmd []
whole_line cmd (c ∷ s) = panics

-- `parsecmd(s)`
unfoldable pub parsecmd : ℕ → List ℕ → Parse Cmd
parsecmd k s = and_then (parseline k s) (λ cmd s1. whole_line cmd (peek s1 []).1)
