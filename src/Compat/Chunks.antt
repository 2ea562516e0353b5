-- ===== src/Compat/Chunks.antt =====
-- Small allocations are carved one behind the other out of pages that are in use.
use dragoon_kernel.Prelude.{ℕ, ◌+◌, ◌%◌, ◌≡◌, ◌≤◌, ◌⊎◌, Option, ◌<◌, false, true, none, some}
use dragoon_kernel.Mm.{page_size, page_addr, max_pages}
use dragoon_kernel.Mm.Accounting.{IsCounted, is_used}
use dragoon_kernel.Compat.{Slab}

-- The current page starts at a multiple of its size, and what has been carved lies within it.
pub record IsSlab (s : Slab) : Type 0 where
  pub counted : IsCounted s.mm
  pub aligned : s.slab_page % page_size ≡ 0
  pub within : s.slab_offset ≤ page_size
  pub chunks : s.slab_offset % 16 ≡ 0

-- A chunk `a` of `n` bytes: behind what was carved before, or at the start of a page that was free,
-- and within the page of the new state.
pub record Carves (s : Slab) (n a : ℕ) (s' : Slab) : Type 0 where
  pub slab : IsSlab s'
  pub on_16 : a % 16 ≡ 0
  pub start :
      (a ≡ s.slab_page + s.slab_offset) ⊎ ((i : ℕ) × (a ≡ page_addr i) × (is_used s.mm i ≡ false))
  pub end : a + n ≡ s'.slab_page + s'.slab_offset
  pub page_below : s'.slab_page ≤ a
  pub in_page : a + n ≤ s'.slab_page + page_size

-- The outcomes of a small allocation.
pub data Allocates (s : Slab) (n : ℕ) : Option ℕ × Slab → Type 0 where
  no_page : (t : Slab) → ((j : ℕ) → j < max_pages → is_used s.mm j ≡ true) → Allocates s n (none, t)
  chunk : (a : ℕ) (t : Slab) → Carves s n a t → Allocates s n (some a, t)
