-- ===== src/Dir/Elements.antt =====
-- `skipelem` takes a path apart into its elements.
use ele3021_operating_system.Base.{
  ℕ, ◌+◌, ◌≤◌, ◌<◌, ◌≡◌, ◌≢◌, refl, sym, ap, subst, ◌∙◌, ◌⊎◌, inl, inr, Bool, true, false, List, [],
  ◌∷◌, Option, none, some, ◌==◌, ==_iff, arith, Bool-cases, if◌then◌else◌, length, All, map,
}
use ele3021_operating_system.Dir.{head, slash, skip_slashes, span, cut_name, take_elem, skipelem}

-- A byte goes to the piece of the path that it stands before.
abbrev pub prepend : ℕ → List (List ℕ) → List (List ℕ)
prepend x [] = (x ∷ []) ∷ []
prepend x (e ∷ es) = (x ∷ e) ∷ es

-- The pieces between the slashes, which may be empty.
unfoldable pub pieces : List ℕ → List (List ℕ)
pieces [] = [] ∷ []
pieces (x ∷ path) = let rest = pieces path in if x == slash then [] ∷ rest else prepend x rest

abbrev pub nonempty : List (List ℕ) → List (List ℕ)
nonempty [] = []
nonempty ([] ∷ es) = nonempty es
nonempty ((x ∷ e) ∷ es) = (x ∷ e) ∷ nonempty es

-- The elements of a path, each cut to DIRSIZ bytes.
abbrev pub elements : List ℕ → List (List ℕ)
elements path = map cut_name (nonempty (pieces path))

abbrev pub is_nil : List (List ℕ) → Bool
is_nil [] = true
is_nil (_ ∷ _) = false

elements-slash : (path : List ℕ) → elements (slash ∷ path) ≡ elements path
unfolding pieces
elements-slash path = refl

elements-skip_slashes : (path : List ℕ) → elements (skip_slashes path) ≡ elements path
unfolding skip_slashes
elements-skip_slashes [] = refl
elements-skip_slashes (x ∷ path) = elim (Bool-cases (x == slash)) [
  | inr e ↦ rw (e, skip_slashes) refl
  | inl e ↦
      rw (e, skip_slashes)
        (elements-skip_slashes path
          ∙ sym (elements-slash path)
          ∙ ap (λ z. elements (z ∷ path)) (sym ((==_iff x slash).0 e)))
]

length-skip_slashes : (path : List ℕ) → length (skip_slashes path) ≤ length path
unfolding skip_slashes
length-skip_slashes [] = omega arith
length-skip_slashes (x ∷ path) = elim (Bool-cases (x == slash)) [
  | inr e ↦ rw (e, skip_slashes) (omega arith)
  | inl e ↦ rw (e, skip_slashes) (omega (arith, length-skip_slashes path))
]

length-span : (path : List ℕ) → length (span path).0 + length (span path).1 ≡ length path
unfolding span
length-span [] = refl
length-span (x ∷ path) = elim (Bool-cases (x == slash)) [
  | inl e ↦ rw e (omega arith)
  | inr e ↦ rw e (omega (arith, length-span path))
]

-- What `span` leaves is the end, or begins with a slash.
abbrev pub Ends : List ℕ → List (List ℕ) → Type 0
Ends [] es = es ≡ []
Ends (x ∷ rest) es = (x ≡ slash) × (es ≡ pieces rest)

pieces-span :
    (path : List ℕ)
    → (es : List (List ℕ)) × (pieces path ≡ (span path).0 ∷ es) × Ends (span path).1 es
unfolding pieces span
pieces-span [] = ([], refl, refl)
pieces-span (x ∷ path) = elim (Bool-cases (x == slash)) [
  | inl e ↦ rw e (pieces path, refl, ((==_iff x slash).0 e, refl))
  | inr e ↦ let (es, same, ends) = pieces-span path in rw (e, same) (es, refl, ends)
]

skip_slashes-cases :
    (path : List ℕ)
    → (skip_slashes path ≡ [])
      ⊎ ((x : ℕ) × (xs : List ℕ) × (skip_slashes path ≡ x ∷ xs) × ((x == slash) ≡ false))
unfolding skip_slashes
skip_slashes-cases [] = inl refl
skip_slashes-cases (x ∷ path) = elim (Bool-cases (x == slash)) [
  | inl e ↦ rw (e, skip_slashes) (skip_slashes-cases path)
  | inr e ↦ inr (x, path, rw (e, skip_slashes) refl, e)
]

-- The first element of a path that begins with no slash.
first_element :
    (x : ℕ) (xs : List ℕ)
    → (x == slash) ≡ false
    → (0 < length (span (x ∷ xs)).0)
      × (elements (x ∷ xs) ≡ cut_name (span (x ∷ xs)).0 ∷ elements (skip_slashes (span (x ∷ xs)).1))
unfolding span pieces
first_element x xs h =
    let (es, same, ends) = pieces-span (x ∷ xs) in
    (
      rw (h, span) (omega arith),
      ap (λ z. map cut_name (nonempty z)) same
          ∙ starts es
          ∙ ap (λ z. cut_name (span (x ∷ xs)).0 ∷ z) (tail_elements (span (x ∷ xs)).1 es ends),
    )
  where
    starts :
        (es : List (List ℕ))
        → map cut_name (nonempty ((span (x ∷ xs)).0 ∷ es))
          ≡ cut_name (span (x ∷ xs)).0 ∷ map cut_name (nonempty es)
    starts es = rw (h, span) refl

    tail_elements :
        (rest : List ℕ) (es : List (List ℕ))
        → Ends rest es
        → map cut_name (nonempty es) ≡ elements (skip_slashes rest)
    tail_elements [] es e = ap (λ z. map cut_name (nonempty z)) e ∙ sym (elements-skip_slashes [])
    tail_elements (y ∷ rest) es (e, f) =
        ap (λ z. map cut_name (nonempty z)) f
        ∙ sym (elements-slash rest)
        ∙ ap (λ z. elements (z ∷ rest)) (sym e)
        ∙ sym (elements-skip_slashes (y ∷ rest))

-- `skipelem` gives the first element, and a shorter path with the others and no slash before them.
unfoldable pub Skips : List ℕ → Option (List ℕ × List ℕ) → Type 0
Skips path none = elements path ≡ []
Skips path (some (name, rest)) =
    (elements path ≡ name ∷ elements rest)
    × (length rest < length path)
    × ((r : List ℕ) × (rest ≡ skip_slashes r))

pub skipelem-Skips : (path : List ℕ) → Skips path (skipelem path)
unfolding Skips skipelem pieces
skipelem-Skips path = elim (skip_slashes-cases path) [
  | inl e ↦
      subst (Skips path) (ap take_elem (sym e)) (sym (elements-skip_slashes path) ∙ ap elements e)
  | inr (x, xs, e, h) ↦
      let (some_bytes, first) = first_element x xs h in
      subst (Skips path) (ap take_elem (sym e)) (
        sym (elements-skip_slashes path) ∙ ap elements e ∙ first,
        omega (
          arith,
          some_bytes,
          length-skip_slashes (span (x ∷ xs)).1,
          length-span (x ∷ xs),
          length-skip_slashes path,
          ap length e,
        ),
        ((span (x ∷ xs)).1, refl),
      )
]

abbrev pub NoNul : List ℕ → Type 0
NoNul path = All (λ x. x ≢ 0) path

NoNul-skip_slashes : (path : List ℕ) → NoNul path → NoNul (skip_slashes path)
unfolding skip_slashes
NoNul-skip_slashes [] h = tt
NoNul-skip_slashes (x ∷ path) h = elim (Bool-cases (x == slash)) [
  | inl e ↦ rw (e, skip_slashes) (NoNul-skip_slashes path h.1)
  | inr e ↦ rw (e, skip_slashes) h
]

NoNul-span : (path : List ℕ) → NoNul path → NoNul (span path).1
unfolding span
NoNul-span [] h = tt
NoNul-span (x ∷ path) h = elim (Bool-cases (x == slash)) [
  | inl e ↦ rw e h
  | inr e ↦ rw e (NoNul-span path h.1)
]

unfoldable pub NoNulAfter : Option (List ℕ × List ℕ) → Type 0
NoNulAfter none = Unit
NoNulAfter (some r) = NoNul r.1

pub NoNul-skipelem : (path : List ℕ) → NoNul path → NoNulAfter (skipelem path)
unfolding skipelem NoNulAfter
NoNul-skipelem path h = by_start (skip_slashes path) (NoNul-skip_slashes path h)
  where
    by_start : (path : List ℕ) → NoNul path → NoNulAfter (take_elem path)
    by_start [] h = tt
    by_start (x ∷ xs) h = NoNul-skip_slashes (span (x ∷ xs)).1 (NoNul-span (x ∷ xs) h)

-- A path without NUL bytes, past its slashes, is at its end exactly if it has no element.
pub at_end :
    (r : List ℕ)
    → NoNul (skip_slashes r)
    → (head (skip_slashes r) == 0) ≡ is_nil (elements (skip_slashes r))
unfolding pieces
at_end r bytes = elim (skip_slashes-cases r) [
  | inl e ↦ rw e refl
  | inr (x, xs, e, h) ↦
      let nul : (x == 0) ≡ false = elim (Bool-cases (x == 0)) [
        | inl z ↦ absurd ((subst NoNul e bytes).0 ((==_iff x 0).0 z))
        | inr z ↦ z
      ] in
      ap (λ z. head z == 0) e
      ∙ nul
      ∙ sym (ap (λ z. is_nil (elements z)) e ∙ ap is_nil (first_element x xs h).1)
]
