-- ===== src/Print.antt =====
-- Numbers as text in the user programs: `printint` of xv6-public/printf.c and `atoi` of
-- xv6-public/ulib.c. A text is the list of its characters.
pub mod Numbers
mod Tests
use ele3021_operating_system.Base.{
  ℕ, zero, suc, ◌+◌, ◌-◌, ◌*◌, ◌/◌, ◌%◌, ◌^◌, Bool, true, false, ◌&&◌, List, [], ◌∷◌, Option, none,
  some, ltb, leb, ◌==◌, ◌>>=◌, if◌then◌else◌,
}

-- `digits[d]`, for `d` below 16.
abbrev pub digit : ℕ → ℕ
digit d = if ltb d 10 then 0x30 + d else 0x37 + d

abbrev pub minus : ℕ
minus = 0x2d

-- The first loop of `printint`. The buffer is a list with its last character in front, which is the
-- order of the second loop; `k` places of it are left, and `none` is a write behind its end.
unfoldable pub put_digits : ℕ → ℕ → ℕ → List ℕ → Option (List ℕ)
put_digits zero x base buf = none
put_digits (suc k) x base buf =
    let rest = put_digits k (x / base) base (digit (x % base) ∷ buf) in
    if x / base == 0 then some (digit (x % base) ∷ buf) else rest

-- Whether the word stands for a negative `int`.
abbrev pub is_negative : ℕ → Bool
is_negative xx = leb (2 ^ 31) xx

-- `printint(fd, xx, base, sgn)`: the characters written; `xx` is a word.
unfoldable pub printint : ℕ → ℕ → Bool → Option (List ℕ)
printint xx base sgn =
    if sgn && is_negative xx
    then (put_digits 15 (2 ^ 32 - xx) base [] >>= λ buf. some (minus ∷ buf))
    else put_digits 16 xx base []

-- The loop of `atoi`, with `n` as a word.
unfoldable pub atoi_from : ℕ → List ℕ → ℕ
atoi_from n [] = n
atoi_from n (c ∷ s) =
    let rest = atoi_from ((n * 10 + c - 0x30) % 2 ^ 32) s in
    if leb 0x30 c && leb c 0x39 then rest else n

-- `atoi(s)`, as a word.
unfoldable pub atoi : List ℕ → ℕ
atoi s = atoi_from 0 s
