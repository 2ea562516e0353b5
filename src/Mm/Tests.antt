-- ===== src/Mm/Tests.antt =====
-- Runs of the page allocator, and its theorems at a concrete state.
use dragoon_kernel.Prelude.{ℕ, ◌+◌, ◌-◌, ◌*◌, ◌≡◌, refl, some, find_from, for_range, arith, true}
use dragoon_kernel.Mm.{
  Mm, mm_init, page_alloc, pages_alloc, page_free, pages_free, page_addr, ram_base,
}
use dragoon_kernel.Mm.Bitmap.{bitmap_test, bitmap_set, bitmap_clear, IsWords}
use dragoon_kernel.Mm.Accounting.{is_used, IsCounted}
use dragoon_kernel.Mm.Alloc.{GrantsPage, GrantsRun, page_alloc_lem, pages_alloc_lem}
use dragoon_kernel.Mm.Free.{pages_free-pages_alloc}
use dragoon_kernel.Mm.Init.{mm_init_lem}

-- Whatever stands in memory before the kernel starts.
abbrev reset : Mm
reset = record { page_bitmap = λ _. 77; total_pages = 3; used_pages = 9; memory = λ a. a + 1 }

abbrev stack_top : ℕ
stack_top = ram_base + 5 * 4096 - 7

boot : Mm
unfolding mm_init find_from bitmap_test bitmap_set for_range
boot = mm_init stack_top reset

alloc_runs : (page_alloc boot).0 ≡ some (page_addr 5)
unfolding page_alloc boot
alloc_runs = refl

free_runs : (page_alloc (page_free (page_addr 3) boot)).0 ≡ some (page_addr 3)
unfolding page_alloc boot page_free bitmap_clear
free_runs = refl

-- One free page below does not serve a request for four.
run_runs : (pages_alloc 4 (page_free (page_addr 3) boot)).0 ≡ some (page_addr 5)
unfolding pages_alloc boot page_free bitmap_clear
run_runs = refl

reset-IsWords : IsWords reset.page_bitmap
reset-IsWords i = omega arith

mm_init_lem_example :
    IsCounted (mm_init stack_top reset) × (is_used (mm_init stack_top reset) 4 ≡ true)
mm_init_lem_example =
    mm_init_lem stack_top 4 reset (omega arith) (omega arith) reset-IsWords (omega arith)

boot-IsCounted : IsCounted boot
unfolding boot
boot-IsCounted =
    (mm_init_lem stack_top 4 reset (omega arith) (omega arith) reset-IsWords (omega arith)).0

page_alloc_lem_example : GrantsPage boot (page_alloc boot)
page_alloc_lem_example = page_alloc_lem boot boot-IsCounted

pages_alloc_lem_example : GrantsRun 4 boot (pages_alloc 4 boot)
pages_alloc_lem_example = pages_alloc_lem 4 boot (omega arith) (omega arith) boot-IsCounted

pages_free-pages_alloc_example :
    let t = pages_free (page_addr 5) 4 (pages_alloc 4 boot).1 in
    ((j : ℕ) → is_used t j ≡ is_used boot j) × (t.used_pages ≡ boot.used_pages)
unfolding pages_alloc boot
pages_free-pages_alloc_example =
    pages_free-pages_alloc 4 5 boot (omega arith) (omega arith) boot-IsCounted refl
