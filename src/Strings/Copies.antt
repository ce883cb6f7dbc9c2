-- ===== src/Strings/Copies.antt =====
-- What the copies of xv6-public/string.c leave in memory.
use ele3021_operating_system.Base.{
  ℕ, zero, suc, ◌+◌, ◌≤◌, ◌<◌, ◌≡◌, ◌≢◌, refl, ap, ◌∙◌, ◌⊎◌, inl, inr, false, ◌&&◌, ltb, ==_iff,
  update, arith, Bool-cases, dec_lt,
}
use ele3021_operating_system.Strings.{copy_down, copy_up, memmove}

pub update_ne : (m : ℕ → ℕ) (a v c : ℕ) → c ≢ a → update m a v c ≡ m c
update_ne m a v c ne = ground arith

pub update_self : (m : ℕ → ℕ) (a v : ℕ) → update m a v a ≡ v
update_self m a v = rw ((==_iff a a).1 refl) refl

-- The `n` bytes at `d` are what stood at `s`, and all else is as before.
pub record Copied (n d s : ℕ) (m m' : ℕ → ℕ) : Type 0 where
  pub inside : (i : ℕ) → i < n → m' (d + i) ≡ m (s + i)
  pub outside : (a : ℕ) → (a < d) ⊎ (d + n ≤ a) → m' a ≡ m a

copy_down-Copied : (n d s : ℕ) (m : ℕ → ℕ) → s ≤ d → Copied n d s m (copy_down n d s m)
unfolding copy_down
copy_down-Copied zero d s m le = record {
  inside = λ i lt. absurd (omega arith);
  outside = λ a h. refl;
}
copy_down-Copied (suc k) d s m le =
    let m1 = update m (d + k) (m (s + k)) in
    let r = copy_down-Copied k d s m1 le in
    record {
      inside = λ i lt. elim (dec_lt i k) [
        | yes p ↦ r.inside i p ∙ update_ne m (d + k) (m (s + k)) (s + i) (omega arith)
        | no p ↦
            let e : i ≡ k = omega arith in
            rw e (r.outside (d + k) (inr (omega arith)) ∙ update_self m (d + k) (m (s + k)))
      ];
      outside = λ a h. r.outside a (wider a h) ∙ update_ne m (d + k) (m (s + k)) a (other a h);
    }
  where
    wider : (a : ℕ) → (a < d) ⊎ (d + suc k ≤ a) → (a < d) ⊎ (d + k ≤ a)
    wider a (inl h) = inl h
    wider a (inr h) = inr (omega arith)

    other : (a : ℕ) → (a < d) ⊎ (d + suc k ≤ a) → a ≢ d + k
    other a (inl h) = omega arith
    other a (inr h) = omega arith

copy_up-Copied : (n d s : ℕ) (m : ℕ → ℕ) → (d ≤ s) ⊎ (s + n ≤ d) → Copied n d s m (copy_up n d s m)
unfolding copy_up
copy_up-Copied zero d s m apart = record {
  inside = λ i lt. absurd (omega arith);
  outside = λ a h. refl;
}
copy_up-Copied (suc k) d s m apart =
    let m1 = update m d (m s) in
    let r = copy_up-Copied k (d + 1) (s + 1) m1 (next apart) in
    record {
      inside = λ i lt. inside i lt (copy_up k (d + 1) (s + 1) m1) r;
      outside = λ a h. r.outside a (wider a h) ∙ update_ne m d (m s) a (other a h);
    }
  where
    next : (d ≤ s) ⊎ (s + suc k ≤ d) → (d + 1 ≤ s + 1) ⊎ (s + 1 + k ≤ d + 1)
    next (inl h) = inl (omega arith)
    next (inr h) = inr (omega arith)

    wider : (a : ℕ) → (a < d) ⊎ (d + suc k ≤ a) → (a < d + 1) ⊎ (d + 1 + k ≤ a)
    wider a (inl h) = inl (omega arith)
    wider a (inr h) = inr (omega arith)

    other : (a : ℕ) → (a < d) ⊎ (d + suc k ≤ a) → a ≢ d
    other a (inl h) = omega arith
    other a (inr h) = omega arith

    unread : (i : ℕ) → i < k → (d ≤ s) ⊎ (s + suc k ≤ d) → s + 1 + i ≢ d
    unread i lt (inl h) = omega arith
    unread i lt (inr h) = omega arith

    inside :
        (i : ℕ)
        → i < suc k
        → (m' : ℕ → ℕ) → Copied k (d + 1) (s + 1) (update m d (m s)) m'
        → m' (d + i) ≡ m (s + i)
    inside zero lt m' r =
        ap m' (omega arith)
        ∙ r.outside d (inl (omega arith))
        ∙ update_self m d (m s)
        ∙ ap m (omega arith)
    inside (suc i) lt m' r =
        ap m' (omega arith)
        ∙ r.inside i (omega arith)
        ∙ update_ne m d (m s) (s + 1 + i) (unread i (omega arith) apart)
        ∙ ap m (omega arith)

-- `memmove` copies the bytes as they were before, also if the two regions overlap, and changes nothing
-- else.
memmove_lem : (dst src n : ℕ) (m : ℕ → ℕ) → Copied n dst src m (memmove dst src n m)
unfolding memmove
memmove_lem dst src n m = elim (Bool-cases (ltb src dst && ltb dst (src + n))) [
  | inl e ↦ rw e (copy_down-Copied n dst src m (ground arith))
  | inr e ↦ rw e (copy_up-Copied n dst src m (far e))
]
  where
    far : (ltb src dst && ltb dst (src + n)) ≡ false → (dst ≤ src) ⊎ (src + n ≤ dst)
    far e = elim (dec_lt src dst) [ yes p ↦ inr (ground arith) | no p ↦ inl (omega arith) ]
