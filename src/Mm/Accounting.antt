-- ===== src/Mm/Accounting.antt =====
-- The bookkeeping of the page allocator: `used_pages` is the number of bits that are set.
use dragoon_kernel.Prelude.{
  ℕ, ◌+◌, ◌-◌, ◌*◌, ◌/◌, ◌%◌, ◌^◌, ◌<◌, ◌≡◌, Bool, true, false, arith, find_from, Option-cases,
  Bool-cases, inl, inr,
}
use dragoon_kernel.Prelude.Loops.{for_range_inv, find_from-some}
use dragoon_kernel.Prelude.Count.{count_below, count_below_add, count_below-le, count_below-not}
use dragoon_kernel.Mm.Bitmap.{
  bitmap_set, bitmap_clear, bitmap_test, IsWords, bitmap_set-IsWords, bitmap_clear-IsWords,
  test-set, test-clear,
}
use dragoon_kernel.Mm.{
  Mm, max_pages, page_size, ram_base, take_page, drop_page, page_alloc, is_free, page_free,
  pages_free, mm_get_free_pages,
}

abbrev pub is_used : Mm → ℕ → Bool
is_used s = bitmap_test s.page_bitmap

pub record IsCounted (s : Mm) : Type 0 where
  pub words : IsWords s.page_bitmap
  pub total : s.total_pages ≡ max_pages
  pub used : s.used_pages ≡ count_below max_pages (is_used s)

pub take_page-IsCounted :
    (i : ℕ) (s : Mm) → i < max_pages → is_used s i ≡ false → IsCounted s → IsCounted (take_page i s)
unfolding take_page
take_page-IsCounted i s lt free c = record {
  words = bitmap_set-IsWords s.page_bitmap i c.words;
  total = c.total;
  used =
      ground
        (arith, c.used, more, count_below-le max_pages (bitmap_test (bitmap_set s.page_bitmap i)));
}
  where
    more :
        count_below max_pages (bitmap_test (bitmap_set s.page_bitmap i))
        ≡ count_below max_pages (is_used s) + 1
    more =
        count_below_add max_pages (is_used s) (bitmap_test (bitmap_set s.page_bitmap i)) i lt free
          (ground (arith, test-set s.page_bitmap i i))
          (λ j l ne. ground (arith, test-set s.page_bitmap i j))

pub drop_page-IsCounted : (i : ℕ) (s : Mm) → i < max_pages → IsCounted s → IsCounted (drop_page i s)
unfolding drop_page
drop_page-IsCounted i s lt c = elim (Bool-cases (is_used s i)) [
  | inl used ↦ rw used (record {
    words = bitmap_clear-IsWords s.page_bitmap i c.words;
    total = c.total;
    used = ground (arith, c.used, less used, count_below-le max_pages (is_used s));
  })
  | inr free ↦ rw free c
]
  where
    less :
        is_used s i ≡ true
        → count_below max_pages (is_used s)
          ≡ count_below max_pages (bitmap_test (bitmap_clear s.page_bitmap i)) + 1
    less used =
        count_below_add max_pages (bitmap_test (bitmap_clear s.page_bitmap i)) (is_used s) i lt
          (ground (arith, test-clear s.page_bitmap i i c.words)) used
          (λ j l ne. ground (arith, test-clear s.page_bitmap i j c.words))

-- `page_alloc` keeps the count.
pub page_alloc-IsCounted : (s : Mm) → IsCounted s → IsCounted (page_alloc s).1
unfolding page_alloc
page_alloc-IsCounted s c = elim (Option-cases (find_from max_pages 0 (is_free s))) [
  | inl e ↦ rw (e, page_alloc) c
  | inr (i, e) ↦
      let found = find_from-some max_pages 0 (is_free s) i e in
      let d : IsCounted (take_page i s) =
        take_page-IsCounted i s found.below (ground (arith, found.passes)) c in
      rw (e, page_alloc) (record { words = d.words; total = d.total; used = d.used })
]

pub page_free-IsCounted : (a : ℕ) (s : Mm) → IsCounted s → IsCounted (page_free a s)
unfolding page_free
page_free-IsCounted a s c = ground (arith, drop_page-IsCounted ((a - ram_base) / page_size) s)

pub pages_free-IsCounted : (a n : ℕ) (s : Mm) → IsCounted s → IsCounted (pages_free a n s)
unfolding pages_free
pages_free-IsCounted a n s c =
    for_range_inv (λ _ t. IsCounted t) (λ i. page_free ((a + i * page_size) % 2 ^ 64)) n 0 n s
      (omega arith) (λ i t lo hi. page_free-IsCounted ((a + i * page_size) % 2 ^ 64) t) c

-- On a counted allocator, `mm_get_free_pages` is the number of pages whose bit is clear.
pub mm_get_free_pages_lem :
    (s : Mm) → IsCounted s → mm_get_free_pages s ≡ count_below max_pages (is_free s)
unfolding mm_get_free_pages
mm_get_free_pages_lem s c = omega (
  arith,
  c.used,
  c.total,
  count_below-not max_pages (is_used s),
  count_below-le max_pages (is_used s),
)
