-- ===== src/Strings.antt =====
-- xv6-public/string.c: copies in memory. Memory is a function from addresses to bytes; addresses and
-- sizes do not wrap around.
pub mod Copies
pub mod Cut
mod Tests
use ele3021_operating_system.Base.{
  ℕ, zero, suc, ◌+◌, Bool, true, false, ◌&&◌, ltb, leb, ◌==◌, if◌then◌else◌, update,
}

-- The loop of `memmove` that goes down: `*--d = *--s`.
pub copy_down : ℕ → ℕ → ℕ → (ℕ → ℕ) → ℕ → ℕ
copy_down zero d s m = m
copy_down (suc k) d s m = copy_down k d s (update m (d + k) (m (s + k)))

-- The loop that goes up: `*d++ = *s++`.
pub copy_up : ℕ → ℕ → ℕ → (ℕ → ℕ) → ℕ → ℕ
copy_up zero d s m = m
copy_up (suc k) d s m = copy_up k (d + 1) (s + 1) (update m d (m s))

-- `memmove(dst, src, n)`
pub memmove : ℕ → ℕ → ℕ → (ℕ → ℕ) → ℕ → ℕ
memmove dst src n m =
    if ltb src dst && ltb dst (src + n) then copy_down n dst src m else copy_up n dst src m

-- The loop of `safestrcpy` with `k` bytes left before the last, and its end `*s = 0`.
pub copy_string : ℕ → ℕ → ℕ → (ℕ → ℕ) → ℕ → ℕ
copy_string zero s t m = update m s 0
copy_string (suc k) s t m =
    let copied = update m s (m t) in
    let rest = copy_string k (s + 1) (t + 1) copied in
    if m t == 0 then update copied (s + 1) 0 else rest

-- `safestrcpy(s, t, n)`
pub safestrcpy : ℕ → ℕ → ℕ → (ℕ → ℕ) → ℕ → ℕ
safestrcpy s t zero m = m
safestrcpy s t (suc k) m = copy_string k s t m
