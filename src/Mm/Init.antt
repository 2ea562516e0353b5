-- ===== src/Mm/Init.antt =====
-- The state that `mm_init` sets up.
use dragoon_kernel.Prelude.{
  ℕ, ◌+◌, ◌<◌, ◌≤◌, for_range, ◌/◌, ◌≡◌, update, arith, false, ltb, ◌*◌, sym, ◌^◌, ◌%◌, refl,
}
use dragoon_kernel.Prelude.Loops.{for_range_inv}
use dragoon_kernel.Prelude.Count.{count_below-eq-zero}
use native.Mathlib.Nat.{zero-div}
use dragoon_kernel.Mm.Bitmap.{bitmap_test, IsWords}
use dragoon_kernel.Mm.Accounting.{is_used, IsCounted}
use dragoon_kernel.Mm.Alloc.{IsTaken, take_all}
use dragoon_kernel.Mm.{
  Mm, max_pages, bitmap_size, kernel_pages, mm_init, ram_base, ram_size, page_size,
}

-- The bitmap after the clearing loop has run over its first `k` words.
record IsCleared (k : ℕ) (bm : ℕ → ℕ) : Type 0 where
  zero_below : (i : ℕ) → i < k → bm i ≡ 0
  words : IsWords bm

cleared :
    (bm : ℕ → ℕ)
    → IsWords bm
    → IsCleared bitmap_size (for_range bitmap_size 0 (λ i m. update m i 0) bm)
cleared bm w =
    for_range_inv IsCleared (λ i m. update m i 0) bitmap_size 0 bitmap_size bm (omega arith)
      (λ k m lo hi h. record {
        zero_below = λ i lt. ground (arith, h.zero_below i);
        words = λ i. ground (arith, h.words i);
      })
      (record { zero_below = λ i lt. absurd (omega arith); words = w })

test_zero : (bm : ℕ → ℕ) (j : ℕ) → bm (j / 64) ≡ 0 → bitmap_test bm j ≡ false
unfolding bitmap_test
test_zero bm j e = ground (arith, zero-div (2 ^ (j % 64)))

-- After `mm_init` over a bitmap of 64-bit words, with the stack's top inside RAM or at its end,
-- exactly the pages that begin below it are used, and the count is right.
pub mm_init_lem :
    (stack_top j : ℕ) (s : Mm)
    → ram_base ≤ stack_top
    → stack_top ≤ ram_base + ram_size
    → IsWords s.page_bitmap
    → j < max_pages
    → let t = mm_init stack_top s in
      IsCounted t × (is_used t j ≡ ltb (ram_base + j * page_size) stack_top)
unfolding mm_init
mm_init_lem stack_top j s lo hi w lt =
    (taken.counted, ground (arith, taken.marks j, free j (omega arith) lt))
  where
    emptied : Mm
    emptied = record s {
      total_pages = max_pages;
      used_pages = 0;
      page_bitmap = for_range bitmap_size 0 (λ i bm. update bm i 0) s.page_bitmap;
    }

    free : (i : ℕ) → 0 ≤ i → i < max_pages → is_used emptied i ≡ false
    free i from lt =
        test_zero emptied.page_bitmap i
          ((cleared s.page_bitmap w).zero_below (i / 64) (omega arith))

    counted : IsCounted emptied
    counted = record {
      words = (cleared s.page_bitmap w).words;
      total = refl;
      used =
          sym (count_below-eq-zero max_pages (is_used emptied) (λ i lt. free i (omega arith) lt));
    }

    taken : IsTaken emptied 0 (0 + kernel_pages stack_top) (mm_init stack_top s)
    taken =
        take_all emptied counted 0 (kernel_pages stack_top) (omega arith)
          (λ i from below. free i from (omega arith))
