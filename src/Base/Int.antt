-- ===== src/Base/Int.antt =====
-- The C type `int` as an integer: `negsuc n` is -(n + 1). `wrap_int` is its overflow, which `+ℤ` and
-- `-ℤ` leave out.
use Prim.Native.Nat.{ℕ, zero, suc, ◌+◌, ◌-◌, ◌/◌, ◌%◌, ◌^◌, ◌≤◌}
use mathlib.Core.Logic.{◌≢◌}
use mathlib.Core.Path.{◌≡◌}
use mathlib.Core.Bool.{Bool, true, false}
use mathlib.Core.Option.{Option, none, some}
use native.Mathlib.Omega.{arith}
use ele3021_operating_system.Base.Tests.{leb, ◌==◌, if◌then◌else◌}

pub data ℤ : Type 0 where
  pos : ℕ → ℤ
  negsuc : ℕ → ℤ

abbrev pub pos_part : ℤ → ℕ
pos_part (pos n) = n
pos_part (negsuc n) = 0

abbrev pub neg_part : ℤ → ℕ
neg_part (pos n) = 0
neg_part (negsuc n) = suc n

-- a - b, as an integer.
abbrev pub sub_ℕ : ℕ → ℕ → ℤ
sub_ℕ a b = if leb b a then pos (a - b) else negsuc (b - a - 1)

infixl 65 ◌+ℤ◌ ◌-ℤ◌
unfoldable pub ◌+ℤ◌ : ℤ → ℤ → ℤ
a +ℤ b = sub_ℕ (pos_part a + pos_part b) (neg_part a + neg_part b)

unfoldable pub ◌-ℤ◌ : ℤ → ℤ → ℤ
a -ℤ b = sub_ℕ (pos_part a + neg_part b) (neg_part a + pos_part b)

-- `a < b` and `a == b` as the code tests them.
abbrev pub ltb_ℤ : ℤ → ℤ → Bool
ltb_ℤ (pos a) (pos b) = if leb b a then false else true
ltb_ℤ (pos a) (negsuc b) = false
ltb_ℤ (negsuc a) (pos b) = true
ltb_ℤ (negsuc a) (negsuc b) = if leb a b then false else true

pub +ℤ_parts :
    (a b : ℤ)
    → pos_part (a +ℤ b) + neg_part a + neg_part b ≡ neg_part (a +ℤ b) + pos_part a + pos_part b
unfolding ◌+ℤ◌
+ℤ_parts a b = ground arith

pub -ℤ_parts :
    (a b : ℤ)
    → pos_part (a -ℤ b) + neg_part a + pos_part b ≡ neg_part (a -ℤ b) + pos_part a + neg_part b
unfolding ◌-ℤ◌
-ℤ_parts a b = ground arith

pub eq_of_parts : (a b : ℤ) → pos_part a + neg_part b ≡ pos_part b + neg_part a → a ≡ b
eq_of_parts (pos a) (pos b) h = ground arith
eq_of_parts (pos a) (negsuc b) h = absurd (omega arith)
eq_of_parts (negsuc a) (pos b) h = absurd (omega arith)
eq_of_parts (negsuc a) (negsuc b) h = ground arith

pub ruleset int_laws = (arith, +ℤ_parts, -ℤ_parts, eq_of_parts)

-- Taking away what was added gives back the number.
pub add-sub_cancel : (a b : ℤ) → (a +ℤ b) -ℤ b ≡ a
add-sub_cancel a b = omega int_laws

pub sub-add_cancel : (a b : ℤ) → (a -ℤ b) +ℤ b ≡ a
sub-add_cancel a b = omega int_laws

-- C's `a / b`: it rounds toward zero, and traps at zero.
unfoldable pub div_ℤ : ℤ → ℤ → Option ℤ
unfolding ◌-ℤ◌
div_ℤ a (pos zero) = none
div_ℤ (pos a) (pos (suc b)) = some (pos (a / suc b))
div_ℤ (pos a) (negsuc b) = some (pos 0 -ℤ pos (a / suc b))
div_ℤ (negsuc a) (pos (suc b)) = some (pos 0 -ℤ pos (suc a / suc b))
div_ℤ (negsuc a) (negsuc b) = some (pos (suc a / suc b))

abbrev pub is_zero : ℤ → Bool
is_zero (pos n) = n == 0
is_zero (negsuc n) = false

-- What 32 bits keep of the number `a`, in two's complement.
unfoldable pub wrap_int : ℤ → ℤ
wrap_int (pos n) = sub_ℕ ((n + 2 ^ 31) % 2 ^ 32) (2 ^ 31)
wrap_int (negsuc n) = sub_ℕ ((2 ^ 32 - 1 - n % 2 ^ 32 + 2 ^ 31) % 2 ^ 32) (2 ^ 31)

infix 50 ◌≤ℤ◌
abbrev pub ◌≤ℤ◌ : ℤ → ℤ → Type 0
a ≤ℤ b = pos_part a + neg_part b ≤ pos_part b + neg_part a

-- What the test tells.
pub ltb_ℤ-false : (a b : ℤ) → ltb_ℤ a b ≡ false → b ≤ℤ a
ltb_ℤ-false (pos a) (pos b) h = ground arith
ltb_ℤ-false (pos a) (negsuc b) h = ground arith
ltb_ℤ-false (negsuc a) (pos b) h = ground arith
ltb_ℤ-false (negsuc a) (negsuc b) h = ground arith

pub ltb_ℤ-true : (a b : ℤ) → ltb_ℤ a b ≡ true → a ≤ℤ b × a ≢ b
ltb_ℤ-true (pos a) (pos b) h = ground arith
ltb_ℤ-true (pos a) (negsuc b) h = ground arith
ltb_ℤ-true (negsuc a) (pos b) h = ground arith
ltb_ℤ-true (negsuc a) (negsuc b) h = ground arith

pub le_refl_ℤ : (a : ℤ) → a ≤ℤ a
le_refl_ℤ a = omega arith

pub le_trans_ℤ : (a b c : ℤ) → a ≤ℤ b → b ≤ℤ c → a ≤ℤ c
le_trans_ℤ a b c h k = omega arith

pub is_zero-true : (a : ℤ) → is_zero a ≡ true → a ≡ pos 0
is_zero-true (pos n) h = ground arith
is_zero-true (negsuc n) h = cc

-- A number that fits is kept.
pub wrap_int_fits : (a : ℤ) → a ≤ℤ pos 2147483647 → negsuc 2147483647 ≤ℤ a → wrap_int a ≡ a
unfolding wrap_int
wrap_int_fits (pos n) h k = ground arith
wrap_int_fits (negsuc n) h k = ground arith
