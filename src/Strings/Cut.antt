-- ===== src/Strings/Cut.antt =====
-- `safestrcpy` leaves a string that fits.
use ele3021_operating_system.Base.{
  ℕ, zero, suc, ◌+◌, ◌≤◌, ◌<◌, ◌≡◌, ◌≢◌, sym, ap, ◌∙◌, ◌⊎◌, inl, inr, ◌==◌, ==_iff, update, arith,
  Bool-cases,
}
use ele3021_operating_system.Strings.{copy_string, safestrcpy}
use ele3021_operating_system.Strings.Copies.{update_ne, update_self}

-- At `s` stands a string of less than `n` bytes that is the string at `t`, cut off where it is longer.
pub record IsCopy (n s t : ℕ) (m m' : ℕ → ℕ) : Type 0 where
  pub len : ℕ
  pub fits : len < n
  pub same : (i : ℕ) → i < len → (m' (s + i) ≡ m (t + i)) × (m (t + i) ≢ 0)
  pub ends : m' (s + len) ≡ 0
  pub cut : (m (t + len) ≡ 0) ⊎ (len + 1 ≡ n)
  pub outside : (a : ℕ) → (a < s) ⊎ (s + n ≤ a) → m' a ≡ m a

abbrev pub Apart : ℕ → ℕ → ℕ → Type 0
Apart n s t = (t + n ≤ s) ⊎ (s + n ≤ t)

Apart-ne : (n s t i : ℕ) → Apart n s t → i < n → 0 < n → t + i ≢ s
Apart-ne n s t i (inl h) lt pos = omega arith
Apart-ne n s t i (inr h) lt pos = omega arith

Apart-next : (n s t : ℕ) → Apart (suc n) s t → Apart n (s + 1) (t + 1)
Apart-next n s t (inl h) = inl (omega arith)
Apart-next n s t (inr h) = inr (omega arith)

IsCopy-last : (s t : ℕ) (m : ℕ → ℕ) → IsCopy 1 s t m (update m s 0)
IsCopy-last s t m = record {
  len = 0;
  fits = omega arith;
  same = λ i lt. absurd (omega arith);
  ends = ground arith;
  cut = inr (omega arith);
  outside = λ a h. update_ne m s 0 a (other a h);
}
  where
    other : (a : ℕ) → (a < s) ⊎ (s + 1 ≤ a) → a ≢ s
    other a (inl h) = omega arith
    other a (inr h) = omega arith

IsCopy-end :
    (k s t : ℕ) (m : ℕ → ℕ)
    → m t ≡ 0
    → IsCopy (suc (suc k)) s t m (update (update m s (m t)) (s + 1) 0)
IsCopy-end k s t m nul = record {
  len = 0;
  fits = omega arith;
  same = λ i lt. absurd (omega arith);
  ends =
      update_ne (update m s (m t)) (s + 1) 0 (s + 0) (omega arith)
      ∙ ap (update m s (m t)) (omega arith)
      ∙ update_self m s (m t)
      ∙ nul;
  cut = inl (ap m (omega arith) ∙ nul);
  outside = λ a h.
      update_ne (update m s (m t)) (s + 1) 0 a (other a h).1 ∙ update_ne m s (m t) a (other a h).0;
}
  where
    other : (a : ℕ) → (a < s) ⊎ (s + suc (suc k) ≤ a) → (a ≢ s) × (a ≢ s + 1)
    other a (inl h) = (omega arith, omega arith)
    other a (inr h) = (omega arith, omega arith)

IsCopy-step :
    (k s t : ℕ) (m m' : ℕ → ℕ)
    → Apart (suc (suc k)) s t
    → m t ≢ 0
    → IsCopy (suc k) (s + 1) (t + 1) (update m s (m t)) m'
    → IsCopy (suc (suc k)) s t m m'
IsCopy-step k s t m m' far ne r = record {
  len = suc r.len;
  fits = omega (arith, r.fits);
  same = same;
  ends = ap m' (omega arith) ∙ r.ends;
  cut = cut r.cut;
  outside = λ a h. r.outside a (wider a h) ∙ update_ne m s (m t) a (other a h);
}
  where
    wider : (a : ℕ) → (a < s) ⊎ (s + suc (suc k) ≤ a) → (a < s + 1) ⊎ (s + 1 + suc k ≤ a)
    wider a (inl h) = inl (omega arith)
    wider a (inr h) = inr (omega arith)

    other : (a : ℕ) → (a < s) ⊎ (s + suc (suc k) ≤ a) → a ≢ s
    other a (inl h) = omega arith
    other a (inr h) = omega arith

    unchanged : (i : ℕ) → i < suc k → update m s (m t) (t + 1 + i) ≡ m (t + suc i)
    unchanged i lt =
        ap (update m s (m t)) (omega arith)
        ∙ update_ne m s (m t) (t + suc i)
            (Apart-ne (suc (suc k)) s t (suc i) far (omega arith) (omega arith))

    cut :
        (update m s (m t) (t + 1 + r.len) ≡ 0) ⊎ (r.len + 1 ≡ suc k)
        → (m (t + suc r.len) ≡ 0) ⊎ (suc r.len + 1 ≡ suc (suc k))
    cut (inl h) = inl (sym (unchanged r.len r.fits) ∙ h)
    cut (inr h) = inr (omega arith)

    same : (i : ℕ) → i < suc r.len → (m' (s + i) ≡ m (t + i)) × (m (t + i) ≢ 0)
    same zero lt = (
      ap m' (omega arith)
          ∙ r.outside s (inl (omega arith))
          ∙ update_self m s (m t)
          ∙ ap m (omega arith),
      λ z. ne (ap m (omega arith) ∙ z),
    )
    same (suc i) lt =
        let (e, nz) = r.same i (omega arith) in
        let u = unchanged i (omega (arith, r.fits)) in
        (ap m' (omega arith) ∙ e ∙ u, λ z. nz (u ∙ z))

copy_string-IsCopy :
    (k s t : ℕ) (m : ℕ → ℕ) → Apart (suc k) s t → IsCopy (suc k) s t m (copy_string k s t m)
unfolding copy_string
copy_string-IsCopy zero s t m far = IsCopy-last s t m
copy_string-IsCopy (suc k) s t m far = elim (Bool-cases (m t == 0)) [
  | inl e ↦ rw e (IsCopy-end k s t m ((==_iff _ _).0 e))
  | inr e ↦ rw e (
      IsCopy-step k s t m _ far (λ z. ground (arith, z))
        (copy_string-IsCopy k (s + 1) (t + 1) (update m s (m t)) (Apart-next (suc k) s t far)))
]

-- `safestrcpy` into `n > 0` bytes that do not overlap the `n` bytes at `t` leaves a string there, with
-- its NUL: the one at `t`, cut off if it is longer. It writes nothing outside the `n` bytes.
safestrcpy_lem : (n s t : ℕ) (m : ℕ → ℕ) → 0 < n → Apart n s t → IsCopy n s t m (safestrcpy s t n m)
unfolding safestrcpy
safestrcpy_lem zero s t m pos far = absurd (omega arith)
safestrcpy_lem (suc k) s t m pos far = copy_string-IsCopy k s t m far
