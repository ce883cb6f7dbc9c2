-- ===== src/Grep/Meaning.antt =====
-- The meaning of a regular expression, and that the matcher of xv6-public/grep.c decides it.
use ele3021_operating_system.Base.{
  ℕ, ◌≡◌, ◌↔◌, ◌⊎◌, inl, inr, refl, sym, ap, subst, Bool, true, ◌||◌, List, [], ◌∷◌, ◌++◌, ◌==◌,
  if◌then◌else◌, arith, Bool-cases, All,
}
use ele3021_operating_system.Grep.{
  asterisk, dot, dollar, caret, is_nul, matchstar, match_one, matchhere, match_from, match_text,
}

-- What a regular expression is made of.
pub data Item : Type 0 where
  end_of_text : Item
  one : ℕ → Item
  many : ℕ → Item

abbrev pub items : List ℕ → List Item
items [] = []
items (c ∷ []) = (if c == dollar then end_of_text else one c) ∷ []
items (c ∷ d ∷ re) = if d == asterisk then many c ∷ items re else one c ∷ items (d ∷ re)

-- The character `c` of a regular expression allows the character `x`.
abbrev pub Fits : ℕ → ℕ → Type 0
Fits c x = (c ≡ dot) ⊎ (c ≡ x)

-- The text starts with something of this form.
abbrev pub Starts : List Item → List ℕ → Type 0
Starts [] text = Unit
Starts (end_of_text ∷ re) text = text ≡ []
Starts (one c ∷ re) text = (x : ℕ) × (rest : List ℕ) × (text ≡ x ∷ rest) × Fits c x × Starts re rest
Starts (many c ∷ re) text =
    (run : List ℕ) × (rest : List ℕ) × (text ≡ run ++ rest) × All (Fits c) run × Starts re rest

-- The text has a part of this form.
abbrev pub Contains : List ℕ → List ℕ → Type 0
Contains re text =
    (before : List ℕ) × (rest : List ℕ) × (text ≡ before ++ rest) × Starts (items re) rest

abbrev pub Decides : (List ℕ → Bool) → (List ℕ → Type 0) → Type 0
Decides f P = (text : List ℕ) → (f text ≡ true) ↔ P text

cons-injective : {x y : ℕ} {xs ys : List ℕ} → x ∷ xs ≡ y ∷ ys → (x ≡ y) × (xs ≡ ys)
cons-injective h = (cc, cc)

Fits-iff : (c x : ℕ) → ((c == dot || c == x) ≡ true) ↔ Fits c x
Fits-iff c x = ground arith

Fits-star_iff : (c x : ℕ) → ((x == c || c == dot) ≡ true) ↔ Fits c x
Fits-star_iff c x = ground arith

module _ (c : ℕ) (here : List ℕ → Bool) (P : List ℕ → Type 0) (sound : Decides here P) where
  abbrev Run : List ℕ → Type 0
  Run text = (run : List ℕ) × (rest : List ℕ) × (text ≡ run ++ rest) × All (Fits c) run × P rest

  matchstar-Run : (text : List ℕ) → matchstar c here text ≡ true → Run text
  unfolding matchstar
  matchstar-Run [] h = ([], [], refl, tt, (sound []).0 h)
  matchstar-Run (x ∷ text) h = elim (Bool-cases (here (x ∷ text))) [
    | inl e ↦ ([], x ∷ text, refl, tt, (sound (x ∷ text)).0 e)
    | inr e ↦
        let (run, rest, eq, all, p) = matchstar-Run text (ground arith) in
        (x ∷ run, rest, ap (λ l. x ∷ l) eq, ((Fits-star_iff c x).0 (ground arith), all), p)
  ]

  Run-matchstar :
      (text run rest : List ℕ)
      → text ≡ run ++ rest
      → All (Fits c) run
      → P rest
      → matchstar c here text ≡ true
  unfolding matchstar
  Run-matchstar [] [] rest eq all p = (sound []).1 (subst P (sym eq) p)
  Run-matchstar [] (y ∷ run) rest eq all p = cc
  Run-matchstar (x ∷ text) [] rest eq all p = rw ((sound (x ∷ text)).1 (subst P (sym eq) p)) refl
  Run-matchstar (x ∷ text) (y ∷ run) rest eq all p =
      let (same, eq') = cons-injective eq in
      rw
        (
          Run-matchstar text run rest eq' all.1 p,
          (Fits-star_iff c x).1 (subst (Fits c) (sym same) all.0),
        )
        (ground arith)

  -- `matchstar` looks for a run of fitting characters before the rest.
  matchstar_lem : (text : List ℕ) → (matchstar c here text ≡ true) ↔ Run text
  matchstar_lem text =
      (matchstar-Run text, λ (run, rest, eq, all, p). Run-matchstar text run rest eq all p)

  abbrev One : List ℕ → Type 0
  One text = (x : ℕ) × (rest : List ℕ) × (text ≡ x ∷ rest) × Fits c x × P rest

  match_one_lem : (text : List ℕ) → (match_one c here text ≡ true) ↔ One text
  match_one_lem [] = (λ h. cc, λ (x, rest, eq, f, p). cc)
  match_one_lem (x ∷ text) = (
    λ h. (x, text, refl, (Fits-iff c x).0 (ground arith), (sound text).0 (ground arith)),
    λ (y, rest, eq, f, p).
        let (same, eq') = cons-injective eq in
        rw ((Fits-iff c x).1 (subst (Fits c) (sym same) f), (sound text).1 (subst P (sym eq') p))
          refl,
  )

-- `matchhere(re, text)` says whether the text starts with something of the form of `re`, where '*'
-- counts only after a character and '$' only at the end.
pub matchhere_lem : (re : List ℕ) → Decides (matchhere re) (Starts (items re))
unfolding matchhere
matchhere_lem [] text = (λ h. tt, λ h. refl)
matchhere_lem (c ∷ []) text = elim (Bool-cases (c == dollar)) [
  | inl e ↦ rw e (is_nul_lem text)
  | inr e ↦ rw e (match_one_lem c (matchhere []) (λ t. Unit) (matchhere_lem []) text)
]
  where
    is_nul_lem : (text : List ℕ) → (is_nul text ≡ true) ↔ (text ≡ [])
    is_nul_lem [] = (λ h. refl, λ h. refl)
    is_nul_lem (x ∷ xs) = (λ h. cc, λ h. cc)
matchhere_lem (c ∷ d ∷ re) text = elim (Bool-cases (d == asterisk)) [
  | inl e ↦ rw e (matchstar_lem c (matchhere re) (Starts (items re)) (matchhere_lem re) text)
  | inr e ↦
      rw e (
        match_one_lem c (matchhere (d ∷ re)) (Starts (items (d ∷ re))) (matchhere_lem (d ∷ re))
          text)
]

match_from_lem : (re text : List ℕ) → (match_from re text ≡ true) ↔ Contains re text
unfolding match_from
match_from_lem re text = (forward text, λ (before, rest, eq, p). backward text before rest eq p)
  where
    forward : (text : List ℕ) → match_from re text ≡ true → Contains re text
    forward [] h = ([], [], refl, (matchhere_lem re []).0 h)
    forward (x ∷ text) h = elim (Bool-cases (matchhere re (x ∷ text))) [
      | inl e ↦ ([], x ∷ text, refl, (matchhere_lem re (x ∷ text)).0 e)
      | inr e ↦
          let (before, rest, eq, p) = forward text (ground arith) in
          (x ∷ before, rest, ap (λ l. x ∷ l) eq, p)
    ]

    backward :
        (text before rest : List ℕ)
        → text ≡ before ++ rest
        → Starts (items re) rest
        → match_from re text ≡ true
    backward [] [] rest eq p = (matchhere_lem re []).1 (subst (Starts (items re)) (sym eq) p)
    backward [] (y ∷ before) rest eq p = cc
    backward (x ∷ text) [] rest eq p =
        rw ((matchhere_lem re (x ∷ text)).1 (subst (Starts (items re)) (sym eq) p)) refl
    backward (x ∷ text) (y ∷ before) rest eq p =
        rw (backward text before rest (cons-injective eq).1 p) (ground arith)

-- `match(re, text)` says whether the text contains something of the form of `re`, or, if `re` begins
-- with '^', whether it starts with something of the form of the rest.
pub match_text_lem :
    (c : ℕ) (re text : List ℕ)
    → (match_text (c ∷ re) text ≡ true)
      ↔ (if c == caret then Starts (items re) text else Contains (c ∷ re) text)
unfolding match_text
match_text_lem c re text = elim (Bool-cases (c == caret)) [
  | inl e ↦ rw e (matchhere_lem re text)
  | inr e ↦ rw e (match_from_lem (c ∷ re) text)
]
