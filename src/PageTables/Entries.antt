-- ===== src/PageTables/Entries.antt =====
-- kernel/mm.c, its second half: the words that `mm_map_page` writes into the tables, as numbers.
use Prim.Native.Nat.{bit_or, max}
use dragoon_kernel.Prelude.{ℕ, ◌+◌, ◌%◌, ◌≡◌, arith, true, ◌∙◌, false, ◌/◌, ap}
use dragoon_kernel.Bits.{bit_or-pow, put_digit, bit_or-halves}
use dragoon_kernel.PageTables.{table_entry}
use dragoon_kernel.Vm.{is_valid, is_table, target}

-- The two low bits of an aligned address are free.
pub table_entry-eq : (p : ℕ) → p % 4096 ≡ 0 → table_entry p ≡ p + 3
unfolding put_digit
table_entry-eq p h =
    let one : bit_or p 1 ≡ p + 1 = bit_or-pow 0 p ∙ omega arith in
    rw one (bit_or-pow 1 (p + 1) ∙ omega arith)

-- The entry that points to the table at `p`.
pub table_entry-valid : (p : ℕ) → p % 4096 ≡ 0 → is_valid (table_entry p) ≡ true
table_entry-valid p h = rw (table_entry-eq p h) (ground arith)

pub table_entry-table : (p : ℕ) → p % 4096 ≡ 0 → is_table (table_entry p) ≡ true
table_entry-table p h = rw (table_entry-eq p h) (ground arith)

pub table_entry-target : (p : ℕ) → p % 4096 ≡ 0 → target (table_entry p) ≡ p
table_entry-target p h = rw (table_entry-eq p h) (omega arith)

-- The entries of blocks: valid, and not tables.
block-low : (a flags : ℕ) → a % 4 ≡ 0 → flags % 4 ≡ 1 → bit_or a flags % 4 ≡ 1
block-low a flags h h' = omega (
  arith,
  bit_or-halves a flags,
  bit_or-halves (a / 2) (flags / 2),
  max-zero (flags % 2),
  max-zero (flags / 2 % 2),
  ap (λ t. max t (flags % 2)) (low a h),
  ap (λ t. max t (flags / 2 % 2)) (high a h),
)
  where
    max-zero : (n : ℕ) → max 0 n ≡ n
    max-zero n = ground arith

    low : (a : ℕ) → a % 4 ≡ 0 → a % 2 ≡ 0
    low a h = omega arith

    high : (a : ℕ) → a % 4 ≡ 0 → a / 2 % 2 ≡ 0
    high a h = omega arith

pub block-valid : (a flags : ℕ) → a % 4 ≡ 0 → flags % 4 ≡ 1 → is_valid (bit_or a flags) ≡ true
block-valid a flags h h' = ground (arith, block-low a flags h h')

pub block-table : (a flags : ℕ) → a % 4 ≡ 0 → flags % 4 ≡ 1 → is_table (bit_or a flags) ≡ false
block-table a flags h h' = ground (arith, block-low a flags h h')
