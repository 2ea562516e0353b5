-- ===== src/PageTables.antt =====
-- kernel/mm.c, its second half: the kernel's page tables, and the mapping of one page.
pub mod Entries
pub mod Walk
pub mod Tree
pub mod Step
pub mod Mapping
pub mod Created
pub mod Identity
pub mod Start
mod Tests
use Prim.Native.Nat.{bit_or}
use dragoon_kernel.Prelude.{
  ℕ, ◌+◌, ◌*◌, ◌/◌, ◌%◌, ◌^◌, Bool, true, false, not, ◌&&◌, Option, none, some, update,
  if◌then◌else◌, for_range,
}
use dragoon_kernel.Mm.{Mm, page_alloc}
use dragoon_kernel.Vm.{entry_addr, is_valid, is_table, target}

abbrev pub pte_valid : ℕ
pte_valid = 1

abbrev pub pte_table : ℕ
pte_table = 2

abbrev pub pte_af : ℕ
pte_af = 2 ^ 10

abbrev pub block_normal : ℕ
block_normal = 1 + 2 ^ 10 + 3 * 2 ^ 8

abbrev pub block_device : ℕ
block_device = 1 + 2 ^ 10 + 2 * 2 ^ 8 + 4

-- Where the linker puts the four static tables.
pub record Tables : Type 0 where
  pub pgd : ℕ
  pub pud : ℕ
  pub pmd_dev : ℕ
  pub pmd_ram : ℕ

abbrev pub table_entry : ℕ → ℕ
table_entry table = bit_or (bit_or table pte_valid) pte_table

abbrev pub write_entry : ℕ → ℕ → ℕ → (ℕ → ℕ) → ℕ → ℕ
write_entry table i entry memory = update memory (entry_addr table i) entry

pub mm_create_page_tables : Tables → (ℕ → ℕ) → ℕ → ℕ
mm_create_page_tables t memory =
    let cleared =
      for_range 512 0
        (λ i m.
          write_entry t.pmd_ram i 0
            (write_entry t.pmd_dev i 0 (write_entry t.pud i 0 (write_entry t.pgd i 0 m))))
        memory in
    let upper = write_entry t.pud 1 (table_entry t.pmd_ram) (
      write_entry t.pud 0 (table_entry t.pmd_dev)
        (write_entry t.pgd 0 (table_entry t.pud) cleared)) in
    let devices =
      for_range 18 64 (λ i m. write_entry t.pmd_dev i (bit_or (i * 2 ^ 21) block_device) m) upper in
    for_range 64 0 (λ i m. write_entry t.pmd_ram i (bit_or (2 ^ 30 + i * 2 ^ 21) block_normal) m)
      devices

-- The table below the entry `i` of `table`, created if there is none; `none` if memory is short, or, where a
-- block may stand (`blocks`), if one does.
pub next_table : Bool → ℕ → ℕ → Mm → Option ℕ × Mm
next_table blocks table i s =
    let e = s.memory (entry_addr table i) in
    if is_valid e
    then (if blocks && not (is_table e) then (none, s) else (some (target e), s))
    else (let (page, s') = page_alloc s in
        elim page as (λ p. Option ℕ × Mm) [
          | none ↦ (none, s')
          | some p ↦ (some p, record s' { memory = write_entry table i (table_entry p) s'.memory })
        ])

-- `l = (u64 *)...; if (!l) return;`: the rest of `mm_map_page`, with the table that was found or made.
abbrev pub go_on : (ℕ → Mm → Mm) → Option ℕ × Mm → Mm
go_on rest (none, s) = s
go_on rest (some t, s) = rest t s

pub mm_map_page : ℕ → ℕ → ℕ → ℕ → Mm → Mm
mm_map_page pgd vaddr paddr flags s =
    let write = λ (t₃ : ℕ) (s₃ : Mm). record s₃ {
      memory = write_entry t₃ (vaddr / 2 ^ 12 % 512) (bit_or (paddr / 4096 * 4096) flags) s₃.memory;
    } in
    let third = λ (t₂ : ℕ) (s₂ : Mm). go_on write (next_table true t₂ (vaddr / 2 ^ 21 % 512) s₂) in
    let second = λ (t₁ : ℕ) (s₁ : Mm). go_on third (next_table true t₁ (vaddr / 2 ^ 30 % 512) s₁) in
    go_on second (next_table false pgd (vaddr / 2 ^ 39 % 512) s)
