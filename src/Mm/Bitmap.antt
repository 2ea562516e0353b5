-- ===== src/Mm/Bitmap.antt =====
-- The page bitmap of kernel/mm.c: an array of 64-bit words, one bit for each page.
-- The operations stay shut outside: the other modules use the two laws.
use Prim.Native.Nat.{bit_and, bit_or}
use dragoon_kernel.Prelude.{
  ℕ, ◌-◌, ◌/◌, ◌%◌, ◌^◌, ◌<◌, ◌≡◌, Bool, true, false, arith, update, ◌==◌, if◌then◌else◌,
}
use dragoon_kernel.Bits.{
  nth_bit, nth_bit-or_self, nth_bit-or_ne, bit_or-lt, nth_bit-clear_self, nth_bit-clear_ne,
  bit_and-clear-lt,
}

-- `1ULL << k` at `k < 64`, and the mask `~(1ULL << k)`.
abbrev shifted : ℕ → ℕ
shifted k = 2 ^ k

abbrev mask : ℕ → ℕ
mask k = 2 ^ 64 - 1 - 2 ^ k

unfoldable pub bitmap_set : (ℕ → ℕ) → ℕ → ℕ → ℕ
bitmap_set bm idx = update bm (idx / 64) (bit_or (bm (idx / 64)) (shifted (idx % 64)))

unfoldable pub bitmap_clear : (ℕ → ℕ) → ℕ → ℕ → ℕ
bitmap_clear bm idx = update bm (idx / 64) (bit_and (bm (idx / 64)) (mask (idx % 64)))

-- `(page_bitmap[idx / 64] >> (idx % 64)) & 1`, read as a truth value.
unfoldable pub bitmap_test : (ℕ → ℕ) → ℕ → Bool
unfolding nth_bit
bitmap_test bm idx = nth_bit (idx % 64) (bm (idx / 64)) == 1

-- Every word of the array fits in a `u64`.
abbrev pub IsWords : (ℕ → ℕ) → Type 0
IsWords bm = (i : ℕ) → bm i < 2 ^ 64

pub bitmap_set-IsWords : (bm : ℕ → ℕ) (idx : ℕ) → IsWords bm → IsWords (bitmap_set bm idx)
unfolding bitmap_set
bitmap_set-IsWords bm idx w i =
    ground (arith, w i, bit_or-lt 64 (idx % 64) (bm (idx / 64)) (omega arith) (w (idx / 64)))

pub bitmap_clear-IsWords : (bm : ℕ → ℕ) (idx : ℕ) → IsWords bm → IsWords (bitmap_clear bm idx)
unfolding bitmap_clear
bitmap_clear-IsWords bm idx w i =
    ground (arith, w i, bit_and-clear-lt 64 (idx % 64) (bm (idx / 64)) (omega arith) (w (idx / 64)))

-- Setting a bit sets that bit and no other.
pub test-set :
    (bm : ℕ → ℕ) (i j : ℕ)
    → bitmap_test (bitmap_set bm i) j ≡ (if i == j then true else bitmap_test bm j)
unfolding bitmap_test bitmap_set
test-set bm i j =
    ground
      (arith, nth_bit-or_self (i % 64) (bm (i / 64)), nth_bit-or_ne (i % 64) (j % 64) (bm (i / 64)))

-- Clearing a bit clears that bit and no other.
pub test-clear :
    (bm : ℕ → ℕ) (i j : ℕ)
    → IsWords bm
    → bitmap_test (bitmap_clear bm i) j ≡ (if i == j then false else bitmap_test bm j)
unfolding bitmap_test bitmap_clear
test-clear bm i j w = ground (
  arith,
  nth_bit-clear_self 64 (i % 64) (bm (i / 64)) (omega arith) (w (i / 64)),
  nth_bit-clear_ne 64 (i % 64) (bm (i / 64)) (omega arith) (w (i / 64)) (j % 64),
)
