-- ===== src/Mm/Free.antt =====
-- What `page_free` and `pages_free` take back.
use dragoon_kernel.Prelude.{
  ℕ, ◌+◌, ◌≡◌, ◌≤◌, ◌<◌, arith, if◌then◌else◌, some, inl, ◌==◌, leb, ◌-◌, ◌&&◌, false, ◌/◌, ltb,
  ◌*◌, ◌%◌, ◌^◌, ap, inr, ◌∙◌, sym,
}
use dragoon_kernel.Prelude.Loops.{for_range_inv}
use dragoon_kernel.Prelude.Count.{count_below_ext}
use dragoon_kernel.Mm.Bitmap.{test-clear}
use dragoon_kernel.Mm.Accounting.{is_used, IsCounted, page_free-IsCounted, pages_free-IsCounted}
use dragoon_kernel.Mm.Runs.{IsRun}
use dragoon_kernel.Mm.Alloc.{IsGranted, pages_alloc_lem}
use dragoon_kernel.Mm.{
  Mm, max_pages, ram_base, ram_size, page_size, page_addr, drop_page, page_free, pages_free,
  pages_alloc, is_free, some, leb, false, ltb,
}

drop_page-used :
    (i j : ℕ) (s : Mm)
    → IsCounted s
    → is_used (drop_page i s) j ≡ (if i == j then false else is_used s j)
unfolding drop_page
drop_page-used i j s c = ground (arith, test-clear s.page_bitmap i j c.words)

drop_page-memory : (i : ℕ) (s : Mm) → (drop_page i s).memory ≡ s.memory
unfolding drop_page
drop_page-memory i s = ground arith

-- On a counted allocator, `page_free` clears the page of an address in RAM, used or not, and ignores
-- any other address.
pub page_free_lem :
    (a j : ℕ) (s : Mm)
    → IsCounted s
    → is_used (page_free a s) j ≡ (
        if leb ram_base a && ltb a (ram_base + ram_size) && (a - ram_base) / page_size == j
        then false
        else is_used s j)
unfolding page_free
page_free_lem a j s c = ground (arith, drop_page-used ((a - ram_base) / page_size) j s c)

-- On a counted allocator, a second `page_free` of the same address changes nothing: the count of used
-- pages does not drift.
pub page_free_twice : (a : ℕ) (s : Mm) → IsCounted s → page_free a (page_free a s) ≡ page_free a s
unfolding page_free drop_page
page_free_twice a s c = ground (
  arith,
  test-clear s.page_bitmap ((a - ram_base) / page_size) ((a - ram_base) / page_size) c.words,
)

record IsFreed (s : Mm) (i k : ℕ) (t : Mm) : Type 0 where
  counted : IsCounted t
  marks : (j : ℕ) → is_used t j ≡ (if leb i j && ltb j (i + k) then false else is_used s j)

-- On a counted allocator, `pages_free` of a run of pages inside RAM clears those pages and no others.
pub pages_free_lem :
    (i n j : ℕ) (s : Mm)
    → i + n ≤ max_pages
    → IsCounted s
    → is_used (pages_free (page_addr i) n s) j
      ≡ (if leb i j && ltb j (i + n) then false else is_used s j)
unfolding pages_free
pages_free_lem i n j s fits c =
    (for_range_inv (IsFreed s i) (λ k. page_free ((page_addr i + k * page_size) % 2 ^ 64)) n 0 n s
        (omega arith) step start).marks
      j
  where
    start : IsFreed s i 0 s
    start = record { counted = c; marks = λ j. ground arith }

    step :
        (k : ℕ) (t : Mm)
        → 0 ≤ k
        → k < n
        → IsFreed s i k t
        → IsFreed s i (k + 1) (page_free ((page_addr i + k * page_size) % 2 ^ 64) t)
    step k t lo hi h = record {
      counted = page_free-IsCounted ((page_addr i + k * page_size) % 2 ^ 64) t h.counted;
      marks = λ j.
          ground (
            arith,
            page_free_lem ((page_addr i + k * page_size) % 2 ^ 64) j t h.counted,
            h.marks j,
          );
    }

-- On a counted allocator, freeing a run of pages, one at least and at most all, that `pages_alloc` has
-- just handed out restores the bitmap and the count of used pages.
pub pages_free-pages_alloc :
    (n i : ℕ) (s : Mm)
    → 0 < n
    → n ≤ max_pages
    → IsCounted s
    → (pages_alloc n s).0 ≡ some (page_addr i)
    → let t = pages_free (page_addr i) n (pages_alloc n s).1 in
      ((j : ℕ) → is_used t j ≡ is_used s j) × (t.used_pages ≡ s.used_pages)
pages_free-pages_alloc n i s pos le c e = elim (pages_alloc_lem n s pos le c) [
  | inl (failed, _) ↦ absurd (ground (arith, ap (λ r. r.0) failed))
  | inr (i', e', run, granted, counted) ↦
      let here : i' ≡ i = ground arith in
      let same = λ (j : ℕ). restored i' run granted counted here j in
      let counted' = pages_free-IsCounted (page_addr i) n (pages_alloc n s).1 counted in
      (same, counted'.used ∙ count_below_ext max_pages _ _ (λ j lt. same j) ∙ sym c.used)
]
  where
    restored :
        (i' : ℕ)
        → IsRun (is_free s) n max_pages i'
        → IsGranted s i' n (pages_alloc n s).1
        → IsCounted (pages_alloc n s).1
        → i' ≡ i
        → (j : ℕ) → is_used (pages_free (page_addr i) n (pages_alloc n s).1) j ≡ is_used s j
    restored i' run granted counted here j = ground (
      arith,
      pages_free_lem i n j (pages_alloc n s).1 (omega (arith, run.below, here)) counted,
      run.all_free j,
      granted.kept j,
    )
