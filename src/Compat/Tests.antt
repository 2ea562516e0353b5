-- ===== src/Compat/Tests.antt =====
-- The theorem on small allocations, at a concrete allocator.
use dragoon_kernel.Prelude.{◌+◌}
use dragoon_kernel.Mm.{Mm, mm_init, ram_base}
use dragoon_kernel.Compat.{Slab}

-- Whatever stands in memory before the kernel starts.
abbrev reset : Mm
reset = record { page_bitmap = λ _. 3; total_pages = 0; used_pages = 1; memory = λ a. a }

-- No page has been taken for small allocations yet.
unused : Slab
unused = record { slab_page = 0; slab_offset = 0; mm = mm_init (ram_base + 30000) reset }
