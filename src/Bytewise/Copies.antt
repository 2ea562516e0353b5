-- ===== src/Bytewise/Copies.antt =====
-- kernel/mm.c: what memcpy, memset and memcmp do.
use dragoon_kernel.Prelude.{
  ℕ, zero, suc, ◌+◌, ◌%◌, ◌^◌, ◌≡◌, ◌≢◌, ◌<◌, ◌≤◌, ◌⊎◌, inl, inr, arith, refl, ap, ◌∙◌, update,
  ◌==◌, if◌then◌else◌, ℕ_discrete, update_self, update_ne, false, true, leb, ◌&&◌, ltb,
}
use dragoon_kernel.Prelude.Int.{ℤ, pos, ◌-ℤ◌}
use dragoon_kernel.Bytewise.{memcpy, memset, memcmp}

memcpy-outside : (d s n : ℕ) (m : ℕ → ℕ) (a : ℕ) → (a < d) ⊎ (d + n ≤ a) → memcpy d s n m a ≡ m a
unfolding memcpy
memcpy-outside d s zero m a h = refl
memcpy-outside d s (suc n) m a h =
    memcpy-outside (d + 1) (s + 1) n (update m d (m s)) a (omega (arith, h))
    ∙ update_ne m (m s) d a (λ e. omega (arith, e, h))

-- Is the copy right: the bytes of the source, and nothing else has changed?
abbrev pub Copied : ℕ → ℕ → ℕ → (ℕ → ℕ) → (ℕ → ℕ) → Type 0
Copied d s n m m' =
    ((k : ℕ) → k < n → m' (d + k) ≡ m (s + k)) × ((a : ℕ) → (a < d) ⊎ (d + n ≤ a) → m' a ≡ m a)

memcpy-inside :
    (d s n : ℕ) (m : ℕ → ℕ)
    → (d ≤ s) ⊎ (s + n ≤ d)
    → (k : ℕ) → k < n
    → memcpy d s n m (d + k) ≡ m (s + k)
unfolding memcpy
memcpy-inside d s zero m h k lt = absurd (omega arith)
memcpy-inside d s (suc n) m h zero lt =
    memcpy-outside (d + 1) (s + 1) n (update m d (m s)) (d + 0) (omega arith)
    ∙ ap (update m d (m s)) (omega arith)
    ∙ update_self m (m s) d
    ∙ ap m (omega arith)
memcpy-inside d s (suc n) m h (suc k) lt =
    let next : d + suc k ≡ d + 1 + k = omega arith in
    let from : s + suc k ≡ s + 1 + k = omega arith in
    rw (next, from)
      (memcpy-inside (d + 1) (s + 1) n (update m d (m s)) (omega (arith, h)) k (omega arith)
        ∙ update_ne m (m s) d (s + 1 + k) (λ e. omega (arith, e, h, lt)))

-- If the destination begins at or before the source, or behind its end, `memcpy` makes the
-- destination's bytes those that the source had, and changes no other byte.
pub memcpy_lem : (d s n : ℕ) (m : ℕ → ℕ) → (d ≤ s) ⊎ (s + n ≤ d) → Copied d s n m (memcpy d s n m)
memcpy_lem d s n m h = (memcpy-inside d s n m h, memcpy-outside d s n m)

-- Either all bytes agree, or the result is the difference of the first two that do not.
abbrev pub Compares : ℕ → ℕ → ℕ → (ℕ → ℕ) → ℤ → Type 0
Compares a b n m r =
    ((r ≡ pos 0) × ((k : ℕ) → k < n → m (a + k) ≡ m (b + k)))
    ⊎ ((k : ℕ) × (k < n)
        × ((j : ℕ) → j < k → m (a + j) ≡ m (b + j))
        × (m (a + k) ≢ m (b + k))
        × (r ≡ pos (m (a + k)) -ℤ pos (m (b + k))))

-- The numbers below a successor, from a fact at zero and facts at successors.
from_next :
    (a b : ℕ) (m : ℕ → ℕ) (n : ℕ)
    → m a ≡ m b
    → ((k : ℕ) → k < n → m (a + 1 + k) ≡ m (b + 1 + k))
    → (k : ℕ) → k < suc n
    → m (a + k) ≡ m (b + k)
from_next a b m n e h zero lt = ap m (omega arith) ∙ e ∙ ap m (omega arith)
from_next a b m n e h (suc k) lt = ap m (omega arith) ∙ h k (omega arith) ∙ ap m (omega arith)

-- `memcmp` is one of the two, whatever the bytes.
pub memcmp_lem : (a b n : ℕ) (m : ℕ → ℕ) → Compares a b n m (memcmp a b n m)
unfolding memcmp
memcmp_lem a b zero m = inl (refl, λ k lt. absurd (omega arith))
memcmp_lem a b (suc n) m = elim (ℕ_discrete (m a) (m b)) [
  | no ne ↦
      let za : a + 0 ≡ a = omega arith in
      let zb : b + 0 ≡ b = omega arith in
      let test : (m a == m b) ≡ false = ground (arith, ne) in
      inr (0, omega arith, λ j lt. absurd (omega arith), rw (za, zb) ne, rw (test, za, zb) refl)
  | yes e ↦
      let test : (m a == m b) ≡ true = ground (arith, e) in
      rw test (elim (memcmp_lem (a + 1) (b + 1) n m) [
        | inl (r, all) ↦ inl (r, from_next a b m n e all)
        | inr (k, lt, before, ne, r) ↦
            let ka : a + suc k ≡ a + 1 + k = omega arith in
            let kb : b + suc k ≡ b + 1 + k = omega arith in
            inr
              (suc k, omega (arith, lt), from_next a b m k e before, rw (ka, kb) ne, rw (ka, kb) r)
      ])
]

-- `memset` writes the byte to its range, and no other.
pub memset_lem :
    (p c n : ℕ) (m : ℕ → ℕ) (a : ℕ)
    → memset p c n m a ≡ (if leb p a && ltb a (p + n) then c % 2 ^ 8 else m a)
unfolding memset
memset_lem p c zero m a = ground arith
memset_lem p c (suc n) m a = memset_lem (p + 1) c n (update m p (c % 2 ^ 8)) a ∙ ground arith
