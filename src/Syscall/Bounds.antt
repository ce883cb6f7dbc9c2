-- ===== src/Syscall/Bounds.antt =====
-- Which user memory the kernel reads for a system call.
use ele3021_operating_system.Base.{
  ℕ, zero, suc, ◌+◌, ◌-◌, ◌*◌, ◌%◌, ◌^◌, ◌≤◌, ◌<◌, ◌≡◌, ◌≢◌, ◌↔◌, refl, sym, ◌∙◌, ap, Bool, true,
  false, ◌||◌, Option, none, some, ltb, leb, ◌==◌, ==_iff, ◌>>=◌, if◌then◌else◌, arith, Bool-cases,
  some_eq, >>=-eq-some, inl, inr,
}
use ele3021_operating_system.Base.Int.{ℤ, pos, negsuc, pos_part}
use ele3021_operating_system.Kalloc.{kern_base}
use ele3021_operating_system.Proc.{Proc}
use ele3021_operating_system.Syscall.{
  word_at, fetchint, scan_str, fetchstr, argint, argptr, is_outside,
}

-- The address of the `n`th argument on the user's stack.
abbrev pub arg_addr : ℕ → Proc → ℕ
arg_addr n cur = (cur.tf.esp + 4 + 4 * n) % 2 ^ 32

fetchint_iff :
    (addr : ℕ) (cur : Proc) (mem : ℕ → ℕ) (w : ℕ)
    → cur.sz ≤ kern_base
    → (fetchint addr cur mem ≡ some w) ↔ ((addr + 4 ≤ cur.sz) × (w ≡ word_at mem addr))
unfolding fetchint
fetchint_iff addr cur mem w small =
    elim (Bool-cases (leb cur.sz addr || ltb cur.sz ((addr + 4) % 2 ^ 32))) [
      | inl e ↦ (
        λ h. absurd (nothing (rw (e, fetchint) at h)),
        λ h. let lt = h.0 in absurd (ground arith),
      )
      | inr e ↦ (
        λ h.
            let z : word_at mem addr ≡ w = some_eq (rw (e, fetchint) at h) in (ground arith, sym z),
        λ h. rw (e, fetchint) (ap some (sym h.1)),
      )
    ]
  where
    nothing : ◌≡◌ {A = Option ℕ} none (some w) → ⊥
    nothing q = cc

scan_str_iff :
    (k s n : ℕ) (mem : ℕ → ℕ)
    → (scan_str k s mem ≡ some n)
      ↔ ((n < k) × (mem (s + n) ≡ 0) × ((i : ℕ) → i < n → mem (s + i) ≢ 0))
unfolding scan_str
scan_str_iff zero s n mem = (λ h. absurd (nothing h), λ h. absurd (omega (arith, h.0)))
  where
    nothing : ◌≡◌ {A = Option ℕ} none (some n) → ⊥
    nothing q = cc
scan_str_iff (suc k) s zero mem = elim (Bool-cases (mem s == 0)) [
  | inl e ↦ (
    λ h. (
      omega arith,
      (let z : s + 0 ≡ s = omega arith in rw z ((==_iff _ _).0 e)),
      λ i lt. absurd (omega arith),
    ),
    λ h. rw (e, scan_str) refl,
  )
  | inr e ↦ (
    λ h. absurd (not_first _ (rw (e, scan_str) at h)),
    λ h. let z : s + 0 ≡ s = omega arith in let y = rw z at h.1 in absurd (ground arith),
  )
]
  where
    not_first : (o : Option ℕ) → (o >>= λ n. some (suc n)) ≡ some 0 → ⊥
    not_first o h = let (m, _, z) = >>=-eq-some o (λ n. some (suc n)) h in absurd (ground arith)
scan_str_iff (suc k) s (suc n) mem = elim (Bool-cases (mem s == 0)) [
  | inl e ↦ (
    λ h. absurd (let z = rw (e, scan_str) at h in ground arith),
    λ h. absurd (h.2 0 (omega arith) (first ((==_iff _ _).0 e))),
  )
  | inr e ↦
      let rest = scan_str_iff k (s + 1) n mem in
      (
        λ h. later e (rest.0 (tail_of _ (rw (e, scan_str) at h))),
        λ h. rw (e, scan_str, rest.1 (earlier h)) refl,
      )
]
  where
    first : mem s ≡ 0 → mem (s + 0) ≡ 0
    first e = let z : s + 0 ≡ s = omega arith in rw z e

    next : (i : ℕ) → mem (s + suc i) ≡ mem (s + 1 + i)
    next i = ap mem (omega arith)

    tail_of : (o : Option ℕ) → (o >>= λ n. some (suc n)) ≡ some (suc n) → o ≡ some n
    tail_of o h =
        let (m, e, z) = >>=-eq-some o (λ n. some (suc n)) h in
        let y : m ≡ n = ground arith in rw (← y) e

    earlier :
        (suc n < suc k) × (mem (s + suc n) ≡ 0) × ((i : ℕ) → i < suc n → mem (s + i) ≢ 0)
        → (n < k) × (mem (s + 1 + n) ≡ 0) × ((i : ℕ) → i < n → mem (s + 1 + i) ≢ 0)
    earlier h =
        (omega (arith, h.0), sym (next n) ∙ h.1, λ i lt z. h.2 (suc i) (omega arith) (next i ∙ z))

    later :
        (mem s == 0) ≡ false
        → (n < k) × (mem (s + 1 + n) ≡ 0) × ((i : ℕ) → i < n → mem (s + 1 + i) ≢ 0)
        → (suc n < suc k) × (mem (s + suc n) ≡ 0) × ((i : ℕ) → i < suc n → mem (s + i) ≢ 0)
    later e h = (omega (arith, h.0), next n ∙ h.1, nonzero)
      where
        nonzero : (i : ℕ) → i < suc n → mem (s + i) ≢ 0
        nonzero zero lt z = let y : s + 0 ≡ s = omega arith in let x = rw y at z in ground arith
        nonzero (suc i) lt z = h.2 i (omega arith) (sym (next i) ∙ z)

-- `fetchstr` answers `n` exactly when a string of `n` bytes other than 0 stands at the address and ends
-- in a 0 that is still inside the memory of the process; so it reads nothing outside.
pub fetchstr_lem :
    (addr n : ℕ) (cur : Proc) (mem : ℕ → ℕ)
    → (fetchstr addr cur mem ≡ some n)
      ↔ ((addr + n < cur.sz) × (mem (addr + n) ≡ 0) × ((i : ℕ) → i < n → mem (addr + i) ≢ 0))
unfolding fetchstr
fetchstr_lem addr n cur mem = elim (Bool-cases (leb cur.sz addr)) [
  | inl e ↦
      (λ h. absurd (nothing (rw (e, fetchstr) at h)), λ h. let lt = h.0 in absurd (ground arith))
  | inr e ↦
      let (to, from) = scan_str_iff (cur.sz - addr) addr n mem in
      (
        λ h. let r = to (rw (e, fetchstr) at h) in (ground (arith, r.0), r.1, r.2),
        λ h. rw (e, fetchstr) (from (ground (arith, h.0), h.1, h.2)),
      )
]
  where
    nothing : ◌≡◌ {A = Option ℕ} none (some n) → ⊥
    nothing q = cc

-- Whether a block of `size` bytes from `p` on is in the memory of the process.
abbrev pub Inside : ℕ → ℤ → Proc → Type 0
Inside p (negsuc size) cur = ⊥
Inside p (pos size) cur = (p < cur.sz) × (p + size ≤ cur.sz)

is_outside_iff :
    (p : ℕ) (size : ℤ) (cur : Proc)
    → cur.sz ≤ kern_base
    → pos_part size < 2 ^ 31
    → (is_outside p size cur ≡ false) ↔ Inside p size cur
is_outside_iff p (negsuc size) cur small int = (λ h. cc, λ h. absurd h)
is_outside_iff p (pos size) cur small int =
    (λ h. ground arith, λ h. let a = h.0 in let b = h.1 in ground arith)

-- In a process of at most KERNBASE bytes, `argptr(n, pp, size)` with a `size` that is an `int` answers
-- `p` exactly when the `n`th word on the user's stack is inside the process and is `p`, `size` is not
-- negative, and `p` and the block of `size` bytes from `p` on are inside the process too. No sum
-- wraps around unnoticed.
pub argptr_lem :
    (n p : ℕ) (size : ℤ) (cur : Proc) (mem : ℕ → ℕ)
    → cur.sz ≤ kern_base
    → pos_part size < 2 ^ 31
    → (argptr n size cur mem ≡ some p)
      ↔ ((arg_addr n cur + 4 ≤ cur.sz) × (p ≡ word_at mem (arg_addr n cur)) × Inside p size cur)
unfolding argptr argint
argptr_lem n p size cur mem small int = (to, from)
  where
    to :
        argptr n size cur mem ≡ some p
        → (arg_addr n cur + 4 ≤ cur.sz) × (p ≡ word_at mem (arg_addr n cur)) × Inside p size cur
    to h =
        let (i, word, rest) =
          >>=-eq-some (argint n cur mem) (λ i. if is_outside i size cur then none else some i) h in
        let (in_stack, is_word) = (fetchint_iff (arg_addr n cur) cur mem i small).0 word in
        let (inside, same) = passed (is_outside i size cur) rest in
        (in_stack, sym same ∙ is_word, rw (← same) ((is_outside_iff i size cur small int).0 inside))
      where
        passed : {i : ℕ} (b : Bool) → (if b then none else some i) ≡ some p → (b ≡ false) × (i ≡ p)
        passed true h = cc
        passed false h = (refl, some_eq h)

    from :
        (arg_addr n cur + 4 ≤ cur.sz) × (p ≡ word_at mem (arg_addr n cur)) × Inside p size cur
        → argptr n size cur mem ≡ some p
    from h =
        let word : argint n cur mem ≡ some p =
          (fetchint_iff (arg_addr n cur) cur mem p small).1 (h.0, h.1) in
        rw (word, argptr, (is_outside_iff p size cur small int).1 h.2) refl
