-- ===== src/Base/Options.antt =====
-- Chains of steps that may fail, and their inversion.
use mathlib.Core.Path.{◌≡◌, refl}
use mathlib.Core.Logic.{◌↔◌}
use mathlib.Core.Option.{Option, none, some}

infixl 5 ◌>>=◌
abbrev pub ◌>>=◌ : {A B : Type 0} → Option A → (A → Option B) → Option B
none >>= f = none
some a >>= f = f a

pub some_eq {ℓ} : {A : Type ℓ} {a b : A} → some a ≡ some b → a ≡ b
some_eq h = cc

-- Inversion of a chain that did not fail.
pub >>=-eq-some :
    {A B : Type 0} (m : Option A) (f : A → Option B) {b : B}
    → (m >>= f) ≡ some b
    → (a : A) × (m ≡ some a) × (f a ≡ some b)
>>=-eq-some none f h = cc
>>=-eq-some (some a) f h = (a, refl, h)

-- A last step that cannot fail does not make the chain fail.
pub >>=-some_iff :
    {A B : Type 0} (m : Option A) (g : A → B) → ((m >>= λ a. some (g a)) ≡ none) ↔ (m ≡ none)
>>=-some_iff none g = (λ h. refl, λ h. refl)
>>=-some_iff (some a) g = (λ h. cc, λ h. cc)
