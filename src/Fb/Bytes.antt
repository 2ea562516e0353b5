-- ===== src/Fb/Bytes.antt =====
-- kernel/fb.c: the order of bytes.
use dragoon_kernel.Prelude.{ℕ, ◌+◌, ◌*◌, ◌/◌, ◌%◌, ◌^◌, ◌≡◌, ◌<◌, arith, ap, ◌∙◌}
use dragoon_kernel.Fb.{bswap16, bswap32, bswap64}

pub bswap16_involution : (v : ℕ) → v < 2 ^ 16 → bswap16 (bswap16 v) ≡ v
unfolding bswap16
bswap16_involution v h = omega arith

pub bswap32-lt : (v : ℕ) → bswap32 v < 2 ^ 32
unfolding bswap32
bswap32-lt v = omega arith

pub bswap32_involution : (v : ℕ) → v < 2 ^ 32 → bswap32 (bswap32 v) ≡ v
unfolding bswap32
bswap32_involution v h = omega arith

-- Swapping the bytes of a word of 64 bits twice gives the word back.
pub bswap64_involution : (v : ℕ) → v < 2 ^ 64 → (bswap64 v < 2 ^ 64) × (bswap64 (bswap64 v) ≡ v)
unfolding bswap64
bswap64_involution v h = (
  omega (arith, bswap32-lt (v % 2 ^ 32), bswap32-lt (v / 2 ^ 32 % 2 ^ 32)),
  ap (λ x. bswap32 x * 2 ^ 32 + bswap32 ((high * 2 ^ 32 + low) / 2 ^ 32 % 2 ^ 32)) lower
      ∙ ap (λ x. bswap32 low * 2 ^ 32 + bswap32 x) upper
      ∙ omega (
        arith,
        bswap32_involution (v % 2 ^ 32) (omega arith),
        bswap32_involution (v / 2 ^ 32 % 2 ^ 32) (omega arith),
      ),
)
  where
    high : ℕ
    high = bswap32 (v % 2 ^ 32)

    low : ℕ
    low = bswap32 (v / 2 ^ 32 % 2 ^ 32)

    lower : (high * 2 ^ 32 + low) % 2 ^ 32 ≡ low
    lower = omega (arith, bswap32-lt (v / 2 ^ 32 % 2 ^ 32))

    upper : (high * 2 ^ 32 + low) / 2 ^ 32 % 2 ^ 32 ≡ high
    upper = omega (arith, bswap32-lt (v % 2 ^ 32), bswap32-lt (v / 2 ^ 32 % 2 ^ 32))
