-- ===== src/Print/Numbers.antt =====
-- The texts of numbers, written and read.
use ele3021_operating_system.Base.{
  ℕ, zero, suc, ◌+◌, ◌-◌, ◌*◌, ◌/◌, ◌%◌, ◌^◌, ◌≤◌, ◌<◌, ◌≡◌, refl, sym, ap, ◌∙◌, ◌⊎◌, inl, inr,
  Bool, true, false, ◌&&◌, List, [], ◌∷◌, ◌++◌, some, leb, ◌==◌, ==_iff, arith, Bool-cases,
}
use mathlib.Core.List.{append_assoc, append-nil}
use ele3021_operating_system.Print.{
  digit, minus, put_digits, is_negative, printint, atoi_from, atoi,
}

abbrev pow_10 : ℕ → ℕ
pow_10 zero = 1
pow_10 (suc k) = 10 * pow_10 k

-- A text that does not go on with a digit.
abbrev pub Ends : List ℕ → Type 0
Ends [] = Unit
Ends (c ∷ s) = (leb 0x30 c && leb c 0x39) ≡ false

atoi_from-digit :
    (n d : ℕ) (s : List ℕ)
    → d < 10
    → n * 10 + d < 2 ^ 32
    → atoi_from n (digit d ∷ s) ≡ atoi_from (n * 10 + d) s
unfolding atoi_from
atoi_from-digit n d s lt fits =
    let e : digit d ≡ 0x30 + d = ground arith in
    let is_digit : (leb 0x30 (0x30 + d) && leb (0x30 + d) 0x39) ≡ true = ground arith in
    let value : (n * 10 + (0x30 + d) - 0x30) % 2 ^ 32 ≡ n * 10 + d = omega arith in
    rw (e, atoi_from, is_digit, value) refl

zero_tens : (x : ℕ) → 0 * 10 + x ≡ x
zero_tens x = omega arith

only_digit : (x : ℕ) → x / 10 ≡ 0 → 0 * 10 + x % 10 ≡ x
only_digit x e = omega arith

add_digit : (x : ℕ) → x / 10 * 10 + x % 10 ≡ x
add_digit x = omega arith

-- The digits of a number, read back.
put_digits_lem :
    (k x : ℕ) (buf : List ℕ)
    → x < 10 * pow_10 k
    → x < 2 ^ 32
    → (ds : List ℕ) × (put_digits (suc k) x 10 buf ≡ some (ds ++ buf))
      × ((s : List ℕ) → atoi_from 0 (ds ++ s) ≡ atoi_from x s)
unfolding put_digits
put_digits_lem zero x buf lt fits =
    let e : x / 10 ≡ 0 = omega arith in
    (
      digit x ∷ [],
      (let y : x % 10 ≡ x = omega arith in rw (e, y) refl),
      λ s.
          atoi_from-digit 0 x s (omega arith) (omega arith) ∙ ap (λ n. atoi_from n s) (zero_tens x),
    )
put_digits_lem (suc k) x buf lt fits = elim (Bool-cases (x / 10 == 0)) [
  | inl e ↦
      let z : x / 10 ≡ 0 = (==_iff _ _).0 e in
      (
        digit (x % 10) ∷ [],
        rw e refl,
        λ s.
            atoi_from-digit 0 (x % 10) s (omega arith) (omega arith)
            ∙ ap (λ n. atoi_from n s) (only_digit x z),
      )
  | inr e ↦
      let (ds, rest, reads) =
        put_digits_lem k (x / 10) (digit (x % 10) ∷ buf) (omega arith) (omega arith) in
      (
        ds ++ (digit (x % 10) ∷ []),
        rw e (rest ∙ ap some (sym (append_assoc ds (digit (x % 10) ∷ []) buf))),
        λ s.
            ap (atoi_from 0) (append_assoc ds (digit (x % 10) ∷ []) s)
            ∙ reads (digit (x % 10) ∷ s)
            ∙ atoi_from-digit (x / 10) (x % 10) s (omega arith) (omega arith)
            ∙ ap (λ n. atoi_from n s) (add_digit x),
      )
]

atoi_from_end : (n : ℕ) (s : List ℕ) → Ends s → atoi_from n s ≡ n
unfolding atoi_from
atoi_from_end n [] h = refl
atoi_from_end n (c ∷ s) h = rw h refl

-- For every word, `printint` with base 10 writes its text without leaving its buffer of 16 characters.
-- If the word is printed without a sign, or stands for an `int` that is not negative, `atoi` of the
-- text, followed by anything but a digit, is the word again. Otherwise the text is a minus sign and a
-- text from which `atoi` reads the absolute value.
pub atoi-printint :
    (xx : ℕ) (sgn : Bool)
    → xx < 2 ^ 32
    → (out : List ℕ) × (printint xx 10 sgn ≡ some out)
      × ((((sgn && is_negative xx) ≡ false) × ((s : List ℕ) → Ends s → atoi (out ++ s) ≡ xx))
          ⊎ (((sgn && is_negative xx) ≡ true)
              × ((ds : List ℕ) × (out ≡ minus ∷ ds)
                  × ((s : List ℕ) → Ends s → atoi (ds ++ s) ≡ 2 ^ 32 - xx))))
unfolding printint atoi
atoi-printint xx sgn lt = elim (Bool-cases (sgn && is_negative xx)) [
  | inr e ↦
      let (ds, put, reads) = put_digits_lem 15 xx [] (omega arith) lt in
      (
        ds,
        rw (e, printint, put) (ap some (append-nil ds)),
        inl (e, λ s h. reads s ∙ atoi_from_end xx s h),
      )
  | inl e ↦
      let (ds, put, reads) =
        put_digits_lem 14 (2 ^ 32 - xx) [] (omega arith)
          (let neg = negative sgn e in omega arith) in
      (
        minus ∷ ds,
        rw (e, printint, put) (ap (λ l. some (minus ∷ l)) (append-nil ds)),
        inr (e, (ds, refl, λ s h. reads s ∙ atoi_from_end (2 ^ 32 - xx) s h)),
      )
]
  where
    negative : (sgn : Bool) → (sgn && is_negative xx) ≡ true → 2 ^ 31 ≤ xx
    negative true e = ground arith
    negative false e = cc
