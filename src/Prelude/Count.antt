-- ===== src/Prelude/Count.antt =====
-- How many indices below a bound pass a test.
use Prim.Native.Nat.{ℕ, zero, suc, ◌+◌, ◌≤◌, ◌<◌}
use mathlib.Core.Path.{◌≡◌, refl, ap}
use mathlib.Core.Logic.{◌≢◌}
use mathlib.Core.Bool.{Bool, true, false, not}
use native.Mathlib.Omega.{arith}
use native.Mathlib.Decide.{dec_lt}
use dragoon_kernel.Prelude.Tests.{bit}

unfoldable pub count_below : ℕ → (ℕ → Bool) → ℕ
count_below zero p = 0
count_below (suc n) p = count_below n p + bit (p n)

pub count_below-le : (n : ℕ) (p : ℕ → Bool) → count_below n p ≤ n
unfolding count_below
count_below-le zero p = omega arith
count_below-le (suc n) p = ground (arith, count_below-le n p)

pub count_below_ext :
    (n : ℕ) (p q : ℕ → Bool) → ((j : ℕ) → j < n → p j ≡ q j) → count_below n p ≡ count_below n q
unfolding count_below
count_below_ext zero p q h = refl
count_below_ext (suc n) p q h =
    ground (arith, count_below_ext n p q (λ j lt. h j (omega arith)), h n (omega arith))

-- Two tests that differ at one index at most.
pub count_below_point :
    (n : ℕ) (p q : ℕ → Bool) (i : ℕ)
    → i < n
    → ((j : ℕ) → j < n → i ≢ j → p j ≡ q j)
    → count_below n q + bit (p i) ≡ count_below n p + bit (q i)
unfolding count_below
count_below_point zero p q i lt h = absurd (omega arith)
count_below_point (suc n) p q i lt h = elim (dec_lt i n) [
  | yes below ↦ ground (
    arith,
    count_below_point n p q i below (λ j l. h j (omega arith)),
    h n (omega arith) (omega arith),
  )
  | no last ↦
      let here : i ≡ n = omega arith in
      rw here (ground (arith, count_below_ext n p q (λ j l. h j (omega arith) (omega arith))))
]

pub count_below_add :
    (n : ℕ) (p q : ℕ → Bool) (i : ℕ)
    → i < n
    → p i ≡ false
    → q i ≡ true
    → ((j : ℕ) → j < n → i ≢ j → p j ≡ q j)
    → count_below n q ≡ count_below n p + 1
count_below_add n p q i lt hp hq h = ground (arith, count_below_point n p q i lt h)

pub count_below_pos : (n : ℕ) (p : ℕ → Bool) (i : ℕ) → i < n → p i ≡ true → 1 ≤ count_below n p
unfolding count_below
count_below_pos zero p i lt h = absurd (omega arith)
count_below_pos (suc n) p i lt h = elim (dec_lt i n) [
  | yes below ↦ omega (arith, count_below_pos n p i below h)
  | no last ↦ let here : i ≡ n = omega arith in ground (arith, ap p here)
]

-- The two answers make up the bound.
pub count_below-not : (n : ℕ) (p : ℕ → Bool) → count_below n p + count_below n (λ j. not (p j)) ≡ n
unfolding count_below
count_below-not zero p = refl
count_below-not (suc n) p = ground (arith, count_below-not n p)

pub count_below-eq-zero :
    (n : ℕ) (p : ℕ → Bool) → ((j : ℕ) → j < n → p j ≡ false) → count_below n p ≡ 0
unfolding count_below
count_below-eq-zero zero p h = refl
count_below-eq-zero (suc n) p h =
    ground (arith, count_below-eq-zero n p (λ j lt. h j (omega arith)), h n (omega arith))
