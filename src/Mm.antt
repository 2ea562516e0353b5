-- ===== src/Mm.antt =====
-- kernel/mm.c: the physical page allocator.
-- Every operation runs under `mm_lock`, so it is one step on the allocator's state. The words of
-- memory are part of that state, since an allocated page is handed out zeroed. Addresses are numbers;
-- the null pointer is `none`. The address of `_stack_top`, which the linker chooses, is an argument.
pub mod Bitmap
pub mod Accounting
pub mod Alloc
pub mod Init
pub mod Free
pub mod Zeroing
pub mod Runs
mod Tests
use Bitmap.{bitmap_set, bitmap_clear, bitmap_test}
use dragoon_kernel.Prelude.{
  ℕ, zero, suc, ◌+◌, ◌-◌, ◌*◌, ◌/◌, ◌%◌, ◌^◌, Bool, true, false, not, ◌||◌, Option, none, some,
  update, ltb, leb, ◌==◌, if◌then◌else◌, find_from, for_range,
}

abbrev pub page_size : ℕ
page_size = 4096

abbrev pub ram_base : ℕ
ram_base = 0x40000000

abbrev pub ram_size : ℕ
ram_size = 128 * 1024 * 1024

abbrev pub max_pages : ℕ
max_pages = ram_size / page_size

abbrev bitmap_size : ℕ
bitmap_size = (max_pages + 63) / 64

-- `memory a` is the 64-bit word at the address `a`, a multiple of 8.
pub record Mm : Type 0 where
  pub page_bitmap : ℕ → ℕ
  pub total_pages : ℕ
  pub used_pages : ℕ
  pub memory : ℕ → ℕ

-- `ALIGN_UP` of types.h, at a power of two.
abbrev pub align_up : ℕ → ℕ → ℕ
align_up x a = (x + (a - 1)) % 2 ^ 64 / a * a

-- `bitmap_set(i); used_pages++`.
pub take_page : ℕ → Mm → Mm
take_page i s = record s {
  page_bitmap = bitmap_set s.page_bitmap i;
  used_pages = (s.used_pages + 1) % 2 ^ 64;
}

-- `if (bitmap_test(i)) { bitmap_clear(i); used_pages--; }`.
pub drop_page : ℕ → Mm → Mm
drop_page i s =
    if bitmap_test s.page_bitmap i
    then record s {
      page_bitmap = bitmap_clear s.page_bitmap i;
      used_pages = (s.used_pages + 2 ^ 64 - 1) % 2 ^ 64;
    }
    else s

abbrev pub kernel_pages : ℕ → ℕ
kernel_pages stack_top = (align_up stack_top page_size + 2 ^ 64 - ram_base) % 2 ^ 64 / page_size

pub mm_init : ℕ → Mm → Mm
unfolding take_page
mm_init stack_top s = for_range (kernel_pages stack_top) 0 take_page (record s {
  total_pages = max_pages;
  used_pages = 0;
  page_bitmap = for_range bitmap_size 0 (λ i bm. update bm i 0) s.page_bitmap;
})

-- `p[j] = 0` for each of `n` words from the address `addr` on.
pub zero_words : ℕ → ℕ → (ℕ → ℕ) → ℕ → ℕ
zero_words addr n = for_range n 0 (λ j m. update m (addr + 8 * j) 0)

abbrev pub page_addr : ℕ → ℕ
page_addr i = ram_base + i * page_size

abbrev pub is_free : Mm → ℕ → Bool
is_free s i = not (bitmap_test s.page_bitmap i)

pub page_alloc : Mm → Option ℕ × Mm
unfolding take_page zero_words
page_alloc s = elim (find_from max_pages 0 (is_free s)) [
  | none ↦ (none, s)
  | some i ↦
      let t = take_page i s in
      (some (page_addr i), record t { memory = zero_words (page_addr i) (page_size / 8) t.memory })
]

-- The loop of `pages_alloc` over the pages `i, i + 1, …`, `rounds` of them: where a run of `n` free
-- pages starts. `run_start` and `run_len` are the loop's variables.
pub scan_run : (ℕ → Bool) → ℕ → ℕ → ℕ → ℕ → ℕ → Option ℕ
scan_run free n zero i run_start run_len = none
scan_run free n (suc rounds) i run_start run_len = elim (free i) [
  | true ↦
      let start = if run_len == 0 then i else run_start in
      elim (run_len + 1 == n) [
        | true ↦ some start
        | false ↦ scan_run free n rounds (i + 1) start (run_len + 1)
      ]
  | false ↦ scan_run free n rounds (i + 1) run_start 0
]

-- The pages of the run, once it is found.
pub take_run : ℕ → ℕ → Mm → Mm
unfolding take_page zero_words
take_run n start s =
    let t = for_range n start take_page s in
    record t { memory = zero_words (page_addr start) (n * page_size / 8) t.memory }

pub pages_alloc : ℕ → Mm → Option ℕ × Mm
unfolding scan_run take_run
pages_alloc n s =
    if (n == 0) || ltb max_pages n
    then (none, s)
    else (elim (scan_run (is_free s) n max_pages 0 0 0) [
      | none ↦ (none, s)
      | some start ↦ (some (page_addr start), take_run n start s)
    ])

-- Frees the page that holds the address `a`, if it lies in RAM.
pub page_free : ℕ → Mm → Mm
unfolding drop_page
page_free a s =
    if ltb a ram_base || leb (ram_base + ram_size) a
    then s
    else drop_page ((a - ram_base) / page_size) s

pub pages_free : ℕ → ℕ → Mm → Mm
unfolding page_free
pages_free a n = for_range n 0 (λ i. page_free ((a + i * page_size) % 2 ^ 64))

pub mm_get_free_pages : Mm → ℕ
mm_get_free_pages s = (s.total_pages + 2 ^ 64 - s.used_pages) % 2 ^ 64
