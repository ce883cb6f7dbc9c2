-- ===== src/Print/Tests.antt =====
-- Some numbers as text.
use ele3021_operating_system.Base.{
  ℕ, ◌-◌, ◌^◌, ◌≡◌, ◌⊎◌, refl, true, false, ◌&&◌, List, [], ◌∷◌, ◌++◌, some, arith,
}
use ele3021_operating_system.Print.{minus, put_digits, is_negative, printint, atoi}
use ele3021_operating_system.Print.Numbers.{Ends, atoi-printint}

-- -42
minus_run : printint (2 ^ 32 - 42) 10 true ≡ some (0x2d ∷ 0x34 ∷ 0x32 ∷ [])
unfolding printint put_digits
minus_run = refl

-- 0xFF, in base 16
hex_run : printint 255 16 false ≡ some (0x46 ∷ 0x46 ∷ [])
unfolding printint put_digits
hex_run = refl

atoi-printint_example :
    (out : List ℕ) × (printint (2 ^ 32 - 42) 10 true ≡ some out)
    × ((((true && is_negative (2 ^ 32 - 42)) ≡ false)
          × ((s : List ℕ) → Ends s → atoi (out ++ s) ≡ 2 ^ 32 - 42))
        ⊎ (((true && is_negative (2 ^ 32 - 42)) ≡ true)
            × ((ds : List ℕ) × (out ≡ minus ∷ ds)
                × ((s : List ℕ) → Ends s → atoi (ds ++ s) ≡ 2 ^ 32 - (2 ^ 32 - 42)))))
atoi-printint_example = atoi-printint (2 ^ 32 - 42) true (omega arith)
