-- ===== src/Dir/Names.antt =====
-- Two names are the same to `namecmp` exactly if `strncpy` makes the same entry of them.
use ele3021_operating_system.Base.{
  ℕ, zero, suc, ◌≡◌, ◌≢◌, refl, sym, ap, ap₂, ◌∙◌, inl, inr, ◌↔◌, true, false, List, [], ◌∷◌, ◌==◌,
  ==_iff, arith, Bool-cases, replicate,
}
use ele3021_operating_system.Base.Int.{ℤ, pos, negsuc, ◌-ℤ◌, is_zero, pos_part, neg_part, -ℤ_parts}
use ele3021_operating_system.Dir.{head, tail, strncmp, strncpy}

-- The tail of a copy is the copy of the tail, unless the string ends.
strncpy-cons : (n : ℕ) (t : List ℕ) → head t ≢ 0 → strncpy (suc n) t ≡ head t ∷ strncpy n (tail t)
unfolding strncpy
strncpy-cons n t h = elim (Bool-cases (head t == 0)) [
  | inl e ↦ absurd (h ((==_iff _ _).0 e))
  | inr e ↦ rw e refl
]

strncpy-nil : (n : ℕ) (t : List ℕ) → head t ≡ 0 → strncpy (suc n) t ≡ 0 ∷ replicate n 0
unfolding strncpy
strncpy-nil n t h = rw ((==_iff _ _).1 h) refl

head-strncpy : (n : ℕ) (t : List ℕ) → head (strncpy (suc n) t) ≡ head t
unfolding strncpy
head-strncpy n t = elim (Bool-cases (head t == 0)) [
  | inl e ↦ rw e (sym ((==_iff _ _).0 e))
  | inr e ↦ rw e refl
]

is_zero-parts : (z : ℤ) → (is_zero z ≡ true) ↔ (pos_part z ≡ neg_part z)
is_zero-parts (pos zero) = (λ h. refl, λ h. refl)
is_zero-parts (pos (suc n)) = (λ h. absurd (ground arith), λ h. absurd (omega arith))
is_zero-parts (negsuc n) = (λ h. absurd (ground arith), λ h. absurd (omega arith))

is_zero_diff : (a b : ℕ) → (is_zero (pos a -ℤ pos b) ≡ true) ↔ (a ≡ b)
is_zero_diff a b = (
  λ h. omega (arith, (is_zero-parts (pos a -ℤ pos b)).0 h, -ℤ_parts (pos a) (pos b)),
  λ h. (is_zero-parts (pos a -ℤ pos b)).1 (omega (arith, -ℤ_parts (pos a) (pos b))),
)

cons_eq : {a b : ℕ} {x y : List ℕ} → a ∷ x ≡ b ∷ y → (a ≡ b) × (x ≡ y)
cons_eq h = (cc, cc)

copies_none : (p : List ℕ) → strncpy zero p ≡ []
unfolding strncpy
copies_none p = refl

-- `strncmp` finds no difference in the first `n` bytes exactly if `strncpy` makes the same `n` bytes
-- of both strings.
pub strncmp_lem :
    (n : ℕ) (p q : List ℕ) → (is_zero (strncmp n p q) ≡ true) ↔ (strncpy n p ≡ strncpy n q)
unfolding strncmp
strncmp_lem zero p q = (λ h. copies_none p ∙ sym (copies_none q), λ h. refl)
strncmp_lem (suc n) p q = elim (Bool-cases (head p == 0)) [
  | inl e ↦
      let z = (==_iff _ _).0 e in
      rw e (
        λ h.
            let same = (is_zero_diff (head p) (head q)).0 h in
            strncpy-nil n p z ∙ sym (strncpy-nil n q (sym same ∙ z)),
        λ h. (is_zero_diff (head p) (head q)).1 (heads h),
      )
  | inr e ↦
      let ne : head p ≢ 0 = λ z. ground (arith, z) in
      elim (Bool-cases (head p == head q)) [
        | inr f ↦
            simp (e, f)
              (
                λ h. absurd (differ f ((is_zero_diff (head p) (head q)).0 h)),
                λ h. absurd (differ f (heads h)),
              )
        | inl f ↦
            let same = (==_iff (head p) (head q)).0 f in
            let ne' : head q ≢ 0 = λ z. ne (same ∙ z) in
            simp (e, f)
              (
                λ h.
                    strncpy-cons n p ne
                    ∙ ap₂ (λ x xs. x ∷ xs) same ((strncmp_lem n (tail p) (tail q)).0 h)
                    ∙ sym (strncpy-cons n q ne'),
                λ h.
                    (strncmp_lem n (tail p) (tail q)).1
                      (cons_eq (sym (strncpy-cons n p ne) ∙ h ∙ strncpy-cons n q ne')).1,
              )
      ]
]
  where
    differ : (head p == head q) ≡ false → head p ≡ head q → ⊥
    differ f h = ground (arith, h)

    heads : strncpy (suc n) p ≡ strncpy (suc n) q → head p ≡ head q
    heads h = sym (head-strncpy n p) ∙ ap head h ∙ head-strncpy n q

replicate-copies : (n : ℕ) (t : List ℕ) → head t ≡ 0 → strncpy n t ≡ replicate n 0
unfolding strncpy
replicate-copies zero t h = refl
replicate-copies (suc n) t h = strncpy-nil n t h

-- A copy of a copy is the copy.
pub strncpy-strncpy : (n : ℕ) (t : List ℕ) → strncpy n (strncpy n t) ≡ strncpy n t
unfolding strncpy
strncpy-strncpy zero t = refl
strncpy-strncpy (suc n) t = elim (Bool-cases (head t == 0)) [
  | inl e ↦ rw e refl
  | inr e ↦ rw e (
      strncpy-cons n (head t ∷ strncpy n (tail t)) (λ z. ground (arith, z))
      ∙ ap (λ xs. head t ∷ xs) (strncpy-strncpy n (tail t)))
]
