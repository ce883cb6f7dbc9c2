-- ===== src/Base/Find.antt =====
-- Searching an array for its first fit, and changing one entry of it.
use Prim.Native.Nat.{ℕ, zero, suc, ◌<◌, ◌≤◌}
use mathlib.Core.Path.{◌≡◌, refl, ap, subst}
use mathlib.Core.Logic.{◌≢◌, inl, inr}
use mathlib.Core.Bool.{Bool, true, false}
use mathlib.Core.List.{List, [], ◌∷◌}
use mathlib.Core.Option
use mathlib.Core.Option.{Option, none, some}
use native.Mathlib.Omega.{arith}
use ele3021_operating_system.Base.Tests.{Bool-cases, Option-cases, if◌then◌else◌}
use ele3021_operating_system.Base.Lists.{get_elem?, length, All}

module _ {ℓ} {A : Type ℓ} where
  -- The index of the first entry that passes the test.
  unfoldable pub find_index : (A → Bool) → List A → Option ℕ
  find_index f [] = none
  find_index f (x ∷ xs) = if f x then some 0 else Option.map suc (find_index f xs)

  -- The array with one entry changed; out of bounds, nothing changes.
  unfoldable pub modify : ℕ → (A → A) → List A → List A
  modify i f [] = []
  modify zero f (x ∷ xs) = f x ∷ xs
  modify (suc i) f (x ∷ xs) = x ∷ modify i f xs

  -- The index of the first entry at `n` or after it that passes the test.
  unfoldable pub find_from : ℕ → (A → Bool) → List A → Option ℕ
  find_from zero f xs = find_index f xs
  find_from (suc n) f [] = none
  find_from (suc n) f (x ∷ xs) = Option.map suc (find_from n f xs)

  pub record IsFirst (f : A → Bool) (xs : List A) (i : ℕ) : Type ℓ where
    pub entry : A
    pub at : get_elem? xs i ≡ some entry
    pub passes : f entry ≡ true
    pub before : (j : ℕ) (y : A) → j < i → get_elem? xs j ≡ some y → f y ≡ false

module _ {ℓ} {A : Type ℓ} (f : A → Bool) where
  IsFirst-suc :
      (x : A) (xs : List A) (i : ℕ) → f x ≡ false → IsFirst f xs i → IsFirst f (x ∷ xs) (suc i)
  IsFirst-suc x xs i h r = record { entry = r.entry; at = r.at; passes = r.passes; before = before }
    where
      before : (j : ℕ) (y : A) → j < suc i → get_elem? (x ∷ xs) j ≡ some y → f y ≡ false
      before zero y lt e = rw (← some_inj e) h
        where
          some_inj : some x ≡ some y → x ≡ y
          some_inj q = cc
      before (suc j) y lt e = r.before j y (omega arith) e

  pub find_index-some : (xs : List A) (i : ℕ) → find_index f xs ≡ some i → IsFirst f xs i
  unfolding find_index
  find_index-some [] i h = absurd (ground arith)
  find_index-some (x ∷ xs) i h = elim (Bool-cases (f x)) [
    | inl e ↦
        let z : 0 ≡ i = ground arith in
        subst (IsFirst f (x ∷ xs)) z
          (record { entry = x; at = refl; passes = e; before = λ j y lt p. absurd (omega arith) })
    | inr e ↦ elim (Option-cases (find_index f xs)) [
      | inl none_left ↦ absurd (ground arith)
      | inr (j, found) ↦
          let z : suc j ≡ i = ground arith in
          subst (IsFirst f (x ∷ xs)) z (IsFirst-suc x xs j e (find_index-some xs j found))
    ]
  ]

  pub find_index-none : (xs : List A) → find_index f xs ≡ none → All (λ x. f x ≡ false) xs
  unfolding find_index
  find_index-none [] h = tt
  find_index-none (x ∷ xs) h = elim (Bool-cases (f x)) [
    | inl e ↦ absurd (ground arith)
    | inr e ↦ (e, find_index-none xs (ground arith))
  ]

  pub find_from-some :
      (n : ℕ) (xs : List A) (i : ℕ)
      → find_from n f xs ≡ some i
      → (n ≤ i)
        × ((x : A) × (get_elem? xs i ≡ some x) × (f x ≡ true))
        × ((j : ℕ) (y : A) → n ≤ j → j < i → get_elem? xs j ≡ some y → f y ≡ false)
  unfolding find_from
  find_from-some zero xs i h =
      let r = find_index-some xs i h in
      (omega arith, (r.entry, r.at, r.passes), λ j y le lt at. r.before j y lt at)
  find_from-some (suc n) [] i h = absurd (ground arith)
  find_from-some (suc n) (x ∷ xs) i h = elim (Option-cases (find_from n f xs)) [
    | inl none_left ↦ absurd (ground arith)
    | inr (k, found) ↦
        let z : suc k ≡ i = ground arith in
        let (le, passes, before) = find_from-some n xs k found in
        let before' =
          λ (j : ℕ) (y : A) (le' : suc n ≤ j) (lt : j < suc k) (at : get_elem? (x ∷ xs) j ≡ some y).
            later j y le' lt at before in
        subst
          (λ m.
            (suc n ≤ m)
            × ((y : A) × (get_elem? (x ∷ xs) m ≡ some y) × (f y ≡ true))
            × ((j : ℕ) (y : A) → suc n ≤ j → j < m → get_elem? (x ∷ xs) j ≡ some y → f y ≡ false))
          z (omega arith, passes, before')
  ]
    where
      later :
          (j : ℕ) (y : A) {k : ℕ}
          → suc n ≤ j
          → j < suc k
          → get_elem? (x ∷ xs) j ≡ some y
          → ((j : ℕ) (y : A) → n ≤ j → j < k → get_elem? xs j ≡ some y → f y ≡ false)
          → f y ≡ false
      later zero y le lt at before = absurd (omega arith)
      later (suc j) y le lt at before = before j y (omega arith) (omega arith) at

  pub find_from-none :
      (n : ℕ) (xs : List A)
      → find_from n f xs ≡ none
      → (j : ℕ) (y : A) → n ≤ j
      → get_elem? xs j ≡ some y
      → f y ≡ false
  unfolding find_from
  find_from-none zero xs h j y le at = All-at xs j y (find_index-none xs h) at
    where
      All-at :
          (xs : List A) (j : ℕ) (y : A)
          → All (λ x. f x ≡ false) xs
          → get_elem? xs j ≡ some y
          → f y ≡ false
      All-at [] j y all at = absurd (ground arith)
      All-at (x ∷ xs) zero y (h, all) at = let z : x ≡ y = some_inj at in rw (← z) h
        where
          some_inj : some x ≡ some y → x ≡ y
          some_inj q = cc
      All-at (x ∷ xs) (suc j) y (h, all) at = All-at xs j y all at
  find_from-none (suc n) [] h j y le at = absurd (ground arith)
  find_from-none (suc n) (x ∷ xs) h zero y le at = absurd (omega arith)
  find_from-none (suc n) (x ∷ xs) h (suc j) y le at =
      find_from-none n xs (ground arith) j y (omega arith) at

module _ {ℓ} {A : Type ℓ} (f : A → A) where
  pub length-modify : (i : ℕ) (xs : List A) → length (modify i f xs) ≡ length xs
  unfolding modify
  length-modify i [] = refl
  length-modify zero (x ∷ xs) = refl
  length-modify (suc i) (x ∷ xs) = ap suc (length-modify i xs)

  pub get_elem?-modify_self :
      (i : ℕ) (xs : List A) (x : A)
      → get_elem? xs i ≡ some x
      → get_elem? (modify i f xs) i ≡ some (f x)
  unfolding modify
  get_elem?-modify_self i [] x h = absurd (ground arith)
  get_elem?-modify_self zero (y ∷ xs) x h = ground arith
  get_elem?-modify_self (suc i) (y ∷ xs) x h = get_elem?-modify_self i xs x h

  -- An entry of the changed array comes from the entry there before.
  pub get_elem?-modify_before :
      (i : ℕ) (xs : List A) (y : A)
      → get_elem? (modify i f xs) i ≡ some y
      → (x : A) × (get_elem? xs i ≡ some x) × (f x ≡ y)
  unfolding modify
  get_elem?-modify_before i [] y h = cc
  get_elem?-modify_before zero (x ∷ xs) y h = (x, refl, some_inj h)
    where
      some_inj : some (f x) ≡ some y → f x ≡ y
      some_inj q = cc
  get_elem?-modify_before (suc i) (x ∷ xs) y h = get_elem?-modify_before i xs y h

  pub get_elem?-modify_ne :
      (i j : ℕ) (xs : List A) → i ≢ j → get_elem? (modify i f xs) j ≡ get_elem? xs j
  unfolding modify
  get_elem?-modify_ne i j [] h = refl
  get_elem?-modify_ne zero zero (y ∷ xs) h = absurd (h refl)
  get_elem?-modify_ne zero (suc j) (y ∷ xs) h = refl
  get_elem?-modify_ne (suc i) zero (y ∷ xs) h = refl
  get_elem?-modify_ne (suc i) (suc j) (y ∷ xs) h = get_elem?-modify_ne i j xs (λ e. h (ap suc e))
