-- ===== src/Mm/Alloc.antt =====
-- What `page_alloc` and `pages_alloc` promise to their callers.
use dragoon_kernel.Prelude.{
  not-true, not-false, ℕ, ◌+◌, ◌≤◌, ◌≡◌, ◌<◌, if◌then◌else◌, true, leb, false, ◌⊎◌, ◌&&◌, arith,
  for_range, ◌*◌, ltb, ◌/◌, ◌∙◌, find_from, none, some, refl, Option-cases, inl, inr, Option,
  ℕ_discrete, dec_lt, ap,
}
use dragoon_kernel.Prelude.Loops.{for_range_inv, find_from-some, find_from-none, IsFirst}
use dragoon_kernel.Mm.Bitmap.{test-set}
use dragoon_kernel.Mm.Accounting.{is_used, IsCounted, take_page-IsCounted}
use dragoon_kernel.Mm.Zeroing.{zero_words-inside, zero_words-outside}
use dragoon_kernel.Mm.Runs.{Broken, IsRun, scan_run-some, scan_run-none}
use dragoon_kernel.Mm.{
  Mm, max_pages, page_size, page_addr, is_free, take_page, take_run, scan_run, page_alloc,
  pages_alloc, true, leb, false, for_range, ltb, find_from, none, some,
}

-- The `n` pages from `i` on have been handed out: they are marked, and nothing else is; their words
-- are zero, and no word outside them has changed.
pub record IsGranted (s : Mm) (i n : ℕ) (t : Mm) : Type 0 where
  pub marked : (j : ℕ) → i ≤ j → j < i + n → is_used t j ≡ true
  pub kept : (j : ℕ) → (j < i) ⊎ (i + n ≤ j) → is_used t j ≡ is_used s j
  pub zeroed : (k : ℕ) → k < n * page_size / 8 → t.memory (page_addr i + 8 * k) ≡ 0
  pub untouched :
      (a : ℕ) → (a < page_addr i) ⊎ (page_addr i + n * page_size ≤ a) → t.memory a ≡ s.memory a

-- Marking the run, page by page.
pub record IsTaken (s : Mm) (i k : ℕ) (t : Mm) : Type 0 where
  pub counted : IsCounted t
  pub marks : (j : ℕ) → is_used t j ≡ (if leb i j && ltb j k then true else is_used s j)
  pub same : (a : ℕ) → t.memory a ≡ s.memory a

module _ (s : Mm) (c : IsCounted s) (i n : ℕ) (fits : i + n ≤ max_pages)
    (free : (j : ℕ) → i ≤ j → j < i + n → is_used s j ≡ false) where
  pub take_all : IsTaken s i (i + n) (for_range n i take_page s)
  take_all = for_range_inv (IsTaken s i) take_page n i (i + n) s refl step start
    where
      start : IsTaken s i i s
      start = record { counted = c; marks = λ j. ground arith; same = λ a. refl }

      step :
          (k : ℕ) (t : Mm)
          → i ≤ k
          → k < i + n
          → IsTaken s i k t
          → IsTaken s i (k + 1) (take_page k t)
      step k t lo hi h = record {
        counted =
            take_page-IsCounted k t (omega arith) (ground (arith, h.marks k, free k lo hi))
              h.counted;
        marks = λ j. unfold take_page in ground (arith, test-set t.page_bitmap k j, h.marks j);
        same = λ a. unfold take_page in h.same a;
      }

  take_run-IsGranted : IsGranted s i n (take_run n i s)
  unfolding take_run
  take_run-IsGranted = record {
    marked = λ j lo hi. ground (arith, take_all.marks j);
    kept = λ j out. ground (arith, take_all.marks j);
    zeroed = λ k lt. zero_words-inside _ (page_addr i) (n * page_size / 8) k lt;
    untouched = λ a out.
        zero_words-outside _ (page_addr i) (n * page_size / 8) a (λ k lt e. omega arith)
        ∙ take_all.same a;
  }

  take_run-IsCounted : IsCounted (take_run n i s)
  unfolding take_run
  take_run-IsCounted =
      let d = take_all.counted in record { words = d.words; total = d.total; used = d.used }

one_page :
    (s : Mm)
    → IsCounted s
    → (i : ℕ) → find_from max_pages 0 (is_free s) ≡ some i
    → IsGranted s i 1 (take_run 1 i s) × IsCounted (take_run 1 i s)
one_page s c i e = (
  take_run-IsGranted s c i 1 (omega (arith, found.below)) alone,
  take_run-IsCounted s c i 1 (omega (arith, found.below)) alone,
)
  where
    found : IsFirst max_pages 0 (is_free s) i
    found = find_from-some max_pages 0 (is_free s) i e

    alone : (j : ℕ) → i ≤ j → j < i + 1 → is_used s j ≡ false
    alone j lo hi = let here : i ≡ j = omega arith in rw (← here) (not-true found.passes)

page_alloc-some :
    (s : Mm) (i : ℕ)
    → find_from max_pages 0 (is_free s) ≡ some i
    → page_alloc s ≡ (some (page_addr i), take_run 1 i s)
unfolding page_alloc take_run for_range
page_alloc-some s i e = rw (e, page_alloc)

-- Either every page is used, and the call fails and changes nothing; or it hands out the lowest free page.
abbrev pub GrantsPage : Mm → Option ℕ × Mm → Type 0
GrantsPage s r =
    ((r ≡ (none, s)) × ((j : ℕ) → j < max_pages → is_used s j ≡ true))
    ⊎ ((i : ℕ) × (i < max_pages)
        × (r.0 ≡ some (page_addr i))
        × (is_used s i ≡ false)
        × ((j : ℕ) → j < i → is_used s j ≡ true)
        × IsGranted s i 1 r.1
        × IsCounted r.1)

-- On a counted allocator `page_alloc` fails only when every page is used, and then changes nothing;
-- otherwise it hands out the lowest free page, zeroed, marks that page and no other, and keeps the
-- count of used pages.
pub page_alloc_lem : (s : Mm) → IsCounted s → GrantsPage s (page_alloc s)
page_alloc_lem s c = elim (Option-cases (find_from max_pages 0 (is_free s))) [
  | inl e ↦ inl (
    unfold page_alloc in rw (e, page_alloc),
    λ j lt. not-false (find_from-none max_pages 0 (is_free s) e j (omega arith) lt),
  )
  | inr (i, e) ↦
      let found = find_from-some max_pages 0 (is_free s) i e in
      let (granted, counted) = one_page s c i e in
      inr (
        i,
        found.below,
        rw (page_alloc-some s i e),
        not-true found.passes,
        λ j lt. not-false (found.least j (omega arith) lt),
        rw (page_alloc-some s i e) granted,
        rw (page_alloc-some s i e) counted,
      )
]

pages_alloc-some :
    (n : ℕ) (s : Mm) (i : ℕ)
    → 0 < n
    → n ≤ max_pages
    → scan_run (is_free s) n max_pages 0 0 0 ≡ some i
    → pages_alloc n s ≡ (some (page_addr i), take_run n i s)
unfolding pages_alloc
pages_alloc-some n s i pos le e = ground arith

pages_alloc-none :
    (n : ℕ) (s : Mm)
    → 0 < n
    → n ≤ max_pages
    → scan_run (is_free s) n max_pages 0 0 0 ≡ none
    → pages_alloc n s ≡ (none, s)
unfolding pages_alloc
pages_alloc-none n s pos le e = ground arith

-- Either no `n` free pages stand in a row, and the call fails and changes nothing; or it hands out the
-- first such run.
abbrev pub GrantsRun : ℕ → Mm → Option ℕ × Mm → Type 0
GrantsRun n s r =
    ((r ≡ (none, s)) × ((q : ℕ) → q + n ≤ max_pages → Broken (is_free s) n q))
    ⊎ ((i : ℕ) × (r.0 ≡ some (page_addr i))
        × IsRun (is_free s) n max_pages i
        × IsGranted s i n r.1
        × IsCounted r.1)

-- On a counted allocator `pages_alloc n`, for one page at least and at most as many as there are,
-- fails only when no `n` free pages stand in a row, and then changes nothing; otherwise it hands out
-- the first such run, zeroed, marks its pages and no others, and keeps the count of used pages.
pub pages_alloc_lem :
    (n : ℕ) (s : Mm) → 0 < n → n ≤ max_pages → IsCounted s → GrantsRun n s (pages_alloc n s)
pages_alloc_lem n s pos le c = elim (Option-cases (scan_run (is_free s) n max_pages 0 0 0)) [
  | inl e ↦ inl (pages_alloc-none n s pos le e, scan_run-none (is_free s) n max_pages pos e)
  | inr (i, e) ↦
      let run = scan_run-some (is_free s) n max_pages i pos e in
      let unused = λ (j : ℕ) (lo : i ≤ j) (hi : j < i + n). not-true (run.all_free j lo hi) in
      inr (
        i,
        rw (pages_alloc-some n s i pos le e),
        run,
        rw (pages_alloc-some n s i pos le e) (take_run-IsGranted s c i n run.below unused),
        rw (pages_alloc-some n s i pos le e) (take_run-IsCounted s c i n run.below unused),
      )
]

-- A request for no page, or for more pages than there are, is refused.
pub pages_alloc_refused : (n : ℕ) (s : Mm) → (n ≡ 0) ⊎ (max_pages < n) → pages_alloc n s ≡ (none, s)
unfolding pages_alloc
pages_alloc_refused n s h = ground arith

-- Why a request for `n` pages fails.
abbrev pub LacksRun : ℕ → Mm → Type 0
LacksRun n s = (n ≡ 0) ⊎ ((max_pages < n) ⊎ ((q : ℕ) → q + n ≤ max_pages → Broken (is_free s) n q))

pub pages_alloc-LacksRun : (n : ℕ) (s : Mm) → (pages_alloc n s).0 ≡ none → LacksRun n s
pages_alloc-LacksRun n s f = elim (ℕ_discrete n 0) [
  | yes e ↦ inl e
  | no some_page ↦ elim (dec_lt max_pages n) [
    | yes e ↦ inr (inl e)
    | no e ↦ elim (Option-cases (scan_run (is_free s) n max_pages 0 0 0)) [
      | inl g ↦ inr (inr (scan_run-none (is_free s) n max_pages (omega arith) g))
      | inr (i, g) ↦
          absurd (
            ground (arith, f, ap (λ r. r.0) (pages_alloc-some n s i (omega arith) (omega arith) g)))
    ]
  ]
]
