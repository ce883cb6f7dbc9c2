-- ===== src/Base/Loops.antt =====
-- `for (k = 0; k < n; k++)` over a state, and such a loop that a round may stop.
use Prim.Native.Nat.{ℕ, zero, suc, ◌<◌, ◌≤◌}
use native.Mathlib.Omega.{arith}
use mathlib.Core.Path.{◌≡◌, refl, subst}
use mathlib.Core.Option.{Option, some}
use ele3021_operating_system.Base.Options.{◌>>=◌, >>=-eq-some, some_eq}

-- The rounds 0 to `n - 1`: the last one is applied to what those before it leave.
unfoldable pub sweep {ℓ} : {A : Type ℓ} → (ℕ → A → A) → ℕ → A → A
sweep round zero a = a
sweep round (suc n) a = round n (sweep round n a)

unfoldable pub try_sweep : {A : Type 0} → (ℕ → A → Option A) → ℕ → A → Option A
try_sweep round zero a = some a
try_sweep round (suc n) a = try_sweep round n a >>= round n

-- If round `m` takes what holds after `m` rounds to what holds after one more, then after `n` rounds
-- it holds for `n`.
pub sweep_upto {ℓ κ} :
    {A : Type ℓ} (round : ℕ → A → A) (Holds : ℕ → A → Type κ)
    → ((m : ℕ) (a : A) → Holds m a → Holds (suc m) (round m a))
    → (a : A) → Holds zero a
    → (n : ℕ) → Holds n (sweep round n a)
unfolding sweep
sweep_upto round Holds more a first zero = first
sweep_upto round Holds more a first (suc n) =
    more n (sweep round n a) (sweep_upto round Holds more a first n)

pub try_sweep_upto :
    {A : Type 0} (round : ℕ → A → Option A) (Holds : ℕ → A → Type 0)
    → ((m : ℕ) (a b : A) → Holds m a → round m a ≡ some b → Holds (suc m) b)
    → (n : ℕ) (a b : A) → Holds zero a
    → try_sweep round n a ≡ some b
    → Holds n b
unfolding try_sweep
try_sweep_upto round Holds more zero a b first e = subst (Holds zero) (some_eq e) first
try_sweep_upto round Holds more (suc n) a b first e =
    let (mid, before, last) = >>=-eq-some (try_sweep round n a) (round n) e in
    more n mid b (try_sweep_upto round Holds more n a mid first before) last

-- A loop whose rounds all succeed gets to its end.
pub try_sweep_total :
    {A : Type 0} (round : ℕ → A → Option A) (Holds : ℕ → A → Type 0) (size : ℕ)
    → ((m : ℕ) (a : A) → m < size → Holds m a → (b : A) × (round m a ≡ some b) × Holds (suc m) b)
    → (a : A) → Holds zero a
    → (n : ℕ) → n ≤ size
    → (b : A) × (try_sweep round n a ≡ some b) × Holds n b
unfolding try_sweep
try_sweep_total round Holds size more a first zero le = (a, refl, first)
try_sweep_total round Holds size more a first (suc n) le =
    let (mid, before, holds) = try_sweep_total round Holds size more a first n (omega arith) in
    let (b, last, holds') = more n mid (omega arith) holds in
    (b, rw (before, try_sweep) last, holds')
