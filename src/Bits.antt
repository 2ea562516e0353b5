-- ===== src/Bits.antt =====
-- The bits of a native number, and what `|`, `&` and shifts do to one of them.
-- `bit_or` and `bit_and` have no laws at variables in the libraries: here they are related to the
-- digits, one division by two at a time.
use Prim.Native.Nat.{min, max, bit_and, bit_or, digits, bit_and-bitwise, bit_or-bitwise}
use native.Mathlib.Nat.{pow-suc, pow-succ', div-div-eq-div-mul}
use dragoon_kernel.Prelude.{
  ℕ, zero, suc, ◌+◌, ◌-◌, ◌*◌, ◌/◌, ◌%◌, ◌^◌, ◌≤◌, ◌<◌, ◌≡◌, refl, sym, ap, ◌∙◌, ◌≢◌, arith,
  ℕ_discrete, ◌⊎◌,
}

-- `(w >> k) & 1`.
unfoldable pub nth_bit : ℕ → ℕ → ℕ
nth_bit k w = w / 2 ^ k % 2

-- The same digit by repeated halving.
digit : ℕ → ℕ → ℕ
digit zero w = w % 2
digit (suc k) w = digit k (w / 2)

digit-eq : (k w : ℕ) → nth_bit k w ≡ digit k w
unfolding digit nth_bit
digit-eq zero w = omega arith
digit-eq (suc k) w = rw (pow-succ' 2 k, ← div-div-eq-div-mul w 2 (2 ^ k)) (digit-eq k (w / 2))

-- Writing the digit `b` at place `k`.
unfoldable pub put_digit : ℕ → ℕ → ℕ → ℕ
put_digit b zero w = w / 2 * 2 + b
put_digit b (suc k) w = put_digit b k (w / 2) * 2 + w % 2

digit-put_self : (b k w : ℕ) → b < 2 → digit k (put_digit b k w) ≡ b
unfolding digit put_digit
digit-put_self b zero w h = omega arith
digit-put_self b (suc k) w h =
    let e : (put_digit b k (w / 2) * 2 + w % 2) / 2 ≡ put_digit b k (w / 2) = omega arith in
    rw e (digit-put_self b k (w / 2) h)

digit-put_ne : (b k j w : ℕ) → b < 2 → k ≢ j → digit j (put_digit b k w) ≡ digit j w
unfolding digit put_digit
digit-put_ne b zero zero w h ne = absurd (ne refl)
digit-put_ne b zero (suc j) w h ne = let e : (w / 2 * 2 + b) / 2 ≡ w / 2 = omega arith in rw e
digit-put_ne b (suc k) zero w h ne = omega arith
digit-put_ne b (suc k) (suc j) w h ne =
    let e : (put_digit b k (w / 2) * 2 + w % 2) / 2 ≡ put_digit b k (w / 2) = omega arith in
    rw e (digit-put_ne b k j (w / 2) h (λ q. ne (ap suc q)))

pub pow_pos : (k : ℕ) → 0 < 2 ^ k
pow_pos zero = omega arith
pow_pos (suc k) = omega (arith, pow-suc 2 k, pow_pos k)

pow_lt : (n k : ℕ) → k < n → 2 ^ k < 2 ^ n
pow_lt zero k h = absurd (omega arith)
pow_lt (suc n) k h = elim (ℕ_discrete k n) [
  | yes e ↦ rw e (omega (arith, pow-suc 2 n, pow_pos n))
  | no ne ↦ omega (arith, pow-suc 2 n, pow_lt n k (omega arith))
]

-- Any fuel that is not below the first number gives the same digits.
enough_fuel :
    (z : ℕ → ℕ) (f : ℕ → ℕ → ℕ) (w v i j : ℕ) → w ≤ i → w ≤ j → digits z f i w v ≡ digits z f j w v
enough_fuel z f zero v zero zero hi hj = refl
enough_fuel z f zero v zero (suc j) hi hj = refl
enough_fuel z f zero v (suc i) zero hi hj = refl
enough_fuel z f zero v (suc i) (suc j) hi hj = refl
enough_fuel z f (suc w) v zero j hi hj = absurd (omega arith)
enough_fuel z f (suc w) v (suc i) zero hi hj = absurd (omega arith)
enough_fuel z f (suc w) v (suc i) (suc j) hi hj =
    let upper = enough_fuel z f (suc w / 2) (v / 2) i j (omega arith) (omega arith) in
    ap (λ d. d * 2 + f (suc w % 2) (v % 2)) upper

zero-bit_or : (b : ℕ) → bit_or 0 b ≡ b
zero-bit_or b = bit_or-bitwise 0 b

zero-bit_and : (b : ℕ) → bit_and 0 b ≡ 0
zero-bit_and b = bit_and-bitwise 0 b

-- The lowest digit apart from the others.
pub bit_or-halves : (w v : ℕ) → bit_or w v ≡ max (w % 2) (v % 2) + 2 * bit_or (w / 2) (v / 2)
bit_or-halves zero v = omega (arith, zero-bit_or (v / 2), zero-bit_or v)
bit_or-halves (suc w) v =
    let fuel =
      enough_fuel (λ d. d) max (suc w / 2) (v / 2) w (suc w / 2) (omega arith) (omega arith) in
    omega (arith, fuel, bit_or-bitwise (suc w / 2) (v / 2), bit_or-bitwise (suc w) v)

bit_and-halves : (w v : ℕ) → bit_and w v ≡ min (w % 2) (v % 2) + 2 * bit_and (w / 2) (v / 2)
bit_and-halves zero v = omega (arith, zero-bit_and (v / 2), zero-bit_and v)
bit_and-halves (suc w) v =
    let fuel =
      enough_fuel (λ _. 0) min (suc w / 2) (v / 2) w (suc w / 2) (omega arith) (omega arith) in
    omega (arith, fuel, bit_and-bitwise (suc w / 2) (v / 2), bit_and-bitwise (suc w) v)

pub bit_or-zero : (w : ℕ) → bit_or w 0 ≡ w
bit_or-zero w = below (suc w) w (omega arith)
  where
    below : (bound v : ℕ) → v < bound → bit_or v 0 ≡ v
    below zero v h = absurd (omega arith)
    below (suc bound) zero h = zero-bit_or 0
    below (suc bound) (suc v) h =
        let ih = below bound (suc v / 2) (omega arith) in omega (arith, ih, bit_or-halves (suc v) 0)

-- `w | (1 << k)` writes a one at place `k`, and nothing else.
pub bit_or-pow : (k w : ℕ) → bit_or w (2 ^ k) ≡ put_digit 1 k w
unfolding put_digit
bit_or-pow zero w = omega (arith, bit_or-halves w 1, bit_or-zero (w / 2))
bit_or-pow (suc k) w =
    let half : 2 ^ suc k / 2 ≡ 2 ^ k = omega (arith, pow-suc 2 k) in
    let even : 2 ^ suc k % 2 ≡ 0 = omega (arith, pow-suc 2 k) in
    rw (bit_or-halves w (2 ^ suc k), half, even, bit_or-pow k (w / 2)) (omega arith)

bit_and-ones : (n a : ℕ) → a < 2 ^ n → bit_and a (2 ^ n - 1) ≡ a
bit_and-ones zero a h = let e : a ≡ 0 = omega arith in rw e (zero-bit_and (2 ^ 0 - 1))
bit_and-ones (suc n) a h =
    let half : (2 ^ suc n - 1) / 2 ≡ 2 ^ n - 1 = omega (arith, pow-suc 2 n, pow_pos n) in
    let odd : (2 ^ suc n - 1) % 2 ≡ 1 = omega (arith, pow-suc 2 n, pow_pos n) in
    rw
      (
        bit_and-halves a (2 ^ suc n - 1),
        half,
        odd,
        bit_and-ones n (a / 2) (omega (arith, pow-suc 2 n)),
      )
      (omega arith)

-- `w & ~(1 << k)` in words of `n` bits writes a zero at place `k`, and nothing else.
bit_and-clear : (n k w : ℕ) → k < n → w < 2 ^ n → bit_and w (2 ^ n - 1 - 2 ^ k) ≡ put_digit 0 k w
unfolding put_digit
bit_and-clear zero k w lt h = absurd (omega arith)
bit_and-clear (suc n) zero w lt h =
    let half : (2 ^ suc n - 1 - 2 ^ 0) / 2 ≡ 2 ^ n - 1 = omega (arith, pow-suc 2 n, pow_pos n) in
    let even : (2 ^ suc n - 1 - 2 ^ 0) % 2 ≡ 0 = omega (arith, pow-suc 2 n, pow_pos n) in
    rw
      (
        bit_and-halves w (2 ^ suc n - 1 - 2 ^ 0),
        half,
        even,
        bit_and-ones n (w / 2) (omega (arith, pow-suc 2 n)),
      )
      (omega arith)
bit_and-clear (suc n) (suc k) w lt h =
    let le : 2 ^ k < 2 ^ n = pow_lt n k (omega arith) in
    let half : (2 ^ suc n - 1 - 2 ^ suc k) / 2 ≡ 2 ^ n - 1 - 2 ^ k =
      omega (arith, pow-suc 2 n, pow-suc 2 k) in
    let odd : (2 ^ suc n - 1 - 2 ^ suc k) % 2 ≡ 1 = omega (arith, pow-suc 2 n, pow-suc 2 k) in
    rw
      (
        bit_and-halves w (2 ^ suc n - 1 - 2 ^ suc k),
        half,
        odd,
        bit_and-clear n k (w / 2) (omega arith) (omega (arith, pow-suc 2 n)),
      )
      (omega arith)

put_digit-lt : (b n k w : ℕ) → b < 2 → k < n → w < 2 ^ n → put_digit b k w < 2 ^ n
unfolding put_digit
put_digit-lt b zero k w hb lt h = absurd (omega arith)
put_digit-lt b (suc n) zero w hb lt h = omega (arith, pow-suc 2 n)
put_digit-lt b (suc n) (suc k) w hb lt h =
    omega
      (arith, pow-suc 2 n, put_digit-lt b n k (w / 2) hb (omega arith) (omega (arith, pow-suc 2 n)))

-- The laws that the components use.
pub nth_bit-or_self : (k w : ℕ) → nth_bit k (bit_or w (2 ^ k)) ≡ 1
nth_bit-or_self k w =
    rw bit_or-pow (digit-eq k (put_digit 1 k w) ∙ digit-put_self 1 k w (omega arith))

pub nth_bit-or_ne : (k j w : ℕ) → k ≢ j → nth_bit j (bit_or w (2 ^ k)) ≡ nth_bit j w
nth_bit-or_ne k j w ne =
    rw bit_or-pow
      (digit-eq j (put_digit 1 k w) ∙ digit-put_ne 1 k j w (omega arith) ne ∙ sym (digit-eq j w))

pub bit_or-lt : (n k w : ℕ) → k < n → w < 2 ^ n → bit_or w (2 ^ k) < 2 ^ n
bit_or-lt n k w lt h = rw bit_or-pow (put_digit-lt 1 n k w (omega arith) lt h)

module _ (n k w : ℕ) (lt : k < n) (h : w < 2 ^ n) where
  pub nth_bit-clear_self : nth_bit k (bit_and w (2 ^ n - 1 - 2 ^ k)) ≡ 0
  nth_bit-clear_self =
      rw (bit_and-clear n k w lt h)
        (digit-eq k (put_digit 0 k w) ∙ digit-put_self 0 k w (omega arith))

  pub nth_bit-clear_ne : (j : ℕ) → k ≢ j → nth_bit j (bit_and w (2 ^ n - 1 - 2 ^ k)) ≡ nth_bit j w
  nth_bit-clear_ne j ne =
      rw (bit_and-clear n k w lt h)
        (digit-eq j (put_digit 0 k w) ∙ digit-put_ne 0 k j w (omega arith) ne ∙ sym (digit-eq j w))

  pub bit_and-clear-lt : bit_and w (2 ^ n - 1 - 2 ^ k) < 2 ^ n
  bit_and-clear-lt = rw (bit_and-clear n k w lt h) (put_digit-lt 0 n k w (omega arith) lt h)

bit_and-zero : (w : ℕ) → bit_and w 0 ≡ 0
bit_and-zero w = below (suc w) w (omega arith)
  where
    below : (bound v : ℕ) → v < bound → bit_and v 0 ≡ 0
    below zero v h = absurd (omega arith)
    below (suc bound) zero h = zero-bit_and 0
    below (suc bound) (suc v) h =
        let ih = below bound (suc v / 2) (omega arith) in
        omega (arith, ih, bit_and-halves (suc v) 0)

-- `w & (1 << k)` is the bit at its place.
pub bit_and-pow : (k w : ℕ) → bit_and w (2 ^ k) ≡ nth_bit k w * 2 ^ k
bit_and-pow k w = rw digit-eq (masked k w)
  where
    masked : (k w : ℕ) → bit_and w (2 ^ k) ≡ digit k w * 2 ^ k
    masked zero w = unfold digit in omega (arith, bit_and-halves w 1, bit_and-zero (w / 2))
    masked (suc k) w =
        let half : 2 ^ suc k / 2 ≡ 2 ^ k = omega (arith, pow-suc 2 k) in
        let even : 2 ^ suc k % 2 ≡ 0 = omega (arith, pow-suc 2 k) in
        rw (bit_and-halves w (2 ^ suc k), half, even, masked k (w / 2))
          (unfold digit in omega (arith, ap (λ t. digit k (w / 2) * t) (pow-suc 2 k)))

-- `a | (b << n)` of a number below `2 ^ n` is a sum.
pub bit_or-shifted : (n a b : ℕ) → a < 2 ^ n → bit_or a (b * 2 ^ n) ≡ a + b * 2 ^ n
bit_or-shifted zero a b h = let e : a ≡ 0 = omega arith in rw (e, zero-bit_or) (omega arith)
bit_or-shifted (suc n) a b h =
    let twice : b * 2 ^ suc n ≡ b * 2 ^ n * 2 = omega (arith, ap (λ t. b * t) (pow-suc 2 n)) in
    let half : b * 2 ^ suc n / 2 ≡ b * 2 ^ n = omega (arith, twice) in
    let even : b * 2 ^ suc n % 2 ≡ 0 = omega (arith, twice) in
    rw
      (
        bit_or-halves a (b * 2 ^ suc n),
        half,
        even,
        bit_or-shifted n (a / 2) b (omega (arith, pow-suc 2 n)),
      )
      (omega (arith, twice))

pub nth_bit-cases : (k w : ℕ) → (nth_bit k w ≡ 0) ⊎ (nth_bit k w ≡ 1)
unfolding nth_bit
nth_bit-cases k w = omega arith
