-- ===== src/PageTables/Tests.antt =====
-- Runs of the page tables, and their theorems at a concrete state.
use Prim.Native.Nat.{bit_or}
use dragoon_kernel.Prelude.{ℕ, ◌+◌, ◌*◌, ◌/◌, ◌≡◌, refl, arith, ◌-◌, ◌<◌, ◌^◌, ◌∙◌, lt→ltb}
use dragoon_kernel.Mm.{Mm, mm_init, page_addr, ram_base, page_size}
use dragoon_kernel.Mm.Accounting.{IsCounted}
use dragoon_kernel.Mm.Init.{mm_init_lem}
use dragoon_kernel.PageTables.{mm_create_page_tables, mm_map_page}
use dragoon_kernel.PageTables.Created.{Laid, tables_at}
use dragoon_kernel.PageTables.Identity.{identity, mm_create_page_tables_lem}
use dragoon_kernel.PageTables.Mapping.{Maps, mm_map_page_lem}
use dragoon_kernel.PageTables.Start.{places_of, Taken, start-IsMapped}
use dragoon_kernel.PageTables.Step.{IsMapped}
use dragoon_kernel.PageTables.Walk.{walk, block}

abbrev reset : Mm
reset = record { page_bitmap = λ _. 77; total_pages = 3; used_pages = 9; memory = λ a. a + 1 }

-- The kernel's image and stack end in the fifth page; its tables are the pages 1 to 4.
abbrev stack_top : ℕ
stack_top = ram_base + 5 * 4096 - 7

abbrev booted : Mm
booted = mm_init stack_top reset

booted-IsCounted : IsCounted booted
booted-IsCounted =
    (mm_init_lem stack_top 0 reset (omega arith) (omega arith) (λ j. omega arith) (omega arith)).0

kernel_page : (i : ℕ) → i < 5 → Taken booted i
kernel_page i lt =
    let u =
      (mm_init_lem stack_top i reset (omega arith) (omega arith) (λ j. omega arith)
        (omega arith)).1 in
    let below : ram_base + i * page_size < stack_top = omega arith in
    (omega arith, u ∙ lt→ltb (ram_base + i * page_size) stack_top below)

laid : Laid 1 2 3 4
laid = record {
  gu = λ e. omega (arith, e);
  gd = λ e. omega (arith, e);
  gr = λ e. omega (arith, e);
  ud = λ e. omega (arith, e);
  ur = λ e. omega (arith, e);
  dr = λ e. omega (arith, e);
}

abbrev running : Mm
running = record booted { memory = mm_create_page_tables (tables_at 1 2 3 4) booted.memory }

running-IsMapped : IsMapped (places_of 1 2 3 4) 1 running
running-IsMapped =
    start-IsMapped 1 2 3 4 laid booted booted-IsCounted (kernel_page 1 (omega arith))
      (kernel_page 2 (omega arith)) (kernel_page 3 (omega arith)) (kernel_page 4 (omega arith))

-- A page of user space, at 512 GB.
mm_map_page_lem_example :
    Maps 1
      (2 ^ 39 + 0x5000)
      (bit_or (0x40005123 / 4096 * 4096) 3)
      running
      (mm_map_page (page_addr 1) (2 ^ 39 + 0x5000) 0x40005123 3 running)
mm_map_page_lem_example =
    mm_map_page_lem (places_of 1 2 3 4) 1 (2 ^ 39 + 0x5000) 0x40005123 3 running (omega arith)
      running-IsMapped

mm_create_page_tables_lem_example :
    walk 3 (page_addr 1) 0x0A3FFFFF (mm_create_page_tables (tables_at 1 2 3 4) reset.memory)
    ≡ identity 0x0A3FFFFF
mm_create_page_tables_lem_example =
    mm_create_page_tables_lem 1 2 3 4 laid reset.memory 0x0A3FFFFF (omega arith)

-- The last block of devices ends at 164 MB, not at 160 MB.
identity_runs : identity 0x0A3FFFFF ≡ block 1 (81 * 2 ^ 21 + 1541)
identity_runs = refl
