-- ===== src/Base/Such.antt =====
-- The first entry of an array with a property, beside the Boolean search for it.
use Prim.Native.Nat.{ℕ, zero, suc, ◌<◌}
use mathlib.Core.Path.{◌≡◌, sym, subst, ◌∙◌}
use mathlib.Core.Bool.{Bool, true, false}
use mathlib.Core.List.{List, [], ◌∷◌}
use mathlib.Core.Option.{some}
use ele3021_operating_system.Base.Lists.{get_elem?, All}
use ele3021_operating_system.Base.Options.{some_eq}
use ele3021_operating_system.Base.Find.{IsFirst}

module _ {ℓ} {A : Type ℓ} where
  -- No entry has the property.
  abbrev pub IsNowhere : (A → Type 0) → List A → Type ℓ
  IsNowhere P xs = (j : ℕ) (y : A) → get_elem? xs j ≡ some y → ¬ P y

  -- The entry `i` is `x`, and is the first with the property.
  pub record IsFirstOf (P : A → Type 0) (xs : List A) (i : ℕ) (x : A) : Type ℓ where
    pub at : get_elem? xs i ≡ some x
    pub holds : P x
    pub earlier : (j : ℕ) (y : A) → j < i → get_elem? xs j ≡ some y → ¬ P y

  -- A Boolean test decides the property.
  pub record Decides (f : A → Bool) (P : A → Type 0) : Type ℓ where
    pub yes_if : (x : A) → f x ≡ true → P x
    pub no_if : (x : A) → f x ≡ false → ¬ P x

  All-at :
      (f : A → Bool) (xs : List A)
      → All (λ x. f x ≡ false) xs
      → (j : ℕ) (y : A) → get_elem? xs j ≡ some y
      → f y ≡ false
  All-at f [] h j y at = cc
  All-at f (x ∷ xs) h zero y at = subst (λ z. f z ≡ false) (some_eq at) h.0
  All-at f (x ∷ xs) h (suc j) y at = All-at f xs h.1 j y at

  pub All-IsNowhere :
      {f : A → Bool} {P : A → Type 0} (xs : List A)
      → Decides f P
      → All (λ x. f x ≡ false) xs
      → IsNowhere P xs
  All-IsNowhere {f} xs d h j y at = d.no_if y (All-at f xs h j y at)

  pub IsFirst-IsFirstOf :
      {f : A → Bool} {P : A → Type 0} {xs : List A} {i : ℕ} {x : A}
      → Decides f P
      → IsFirst f xs i
      → get_elem? xs i ≡ some x
      → IsFirstOf P xs i x
  IsFirst-IsFirstOf {f} {P} d r at = record {
    at = at;
    holds = subst P (some_eq (sym r.at ∙ at)) (d.yes_if r.entry r.passes);
    earlier = λ j y lt here. d.no_if y (r.before j y lt here);
  }
