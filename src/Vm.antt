-- ===== src/Vm.antt =====
-- kernel/vm.c and vm.h: address spaces and their ASIDs.
-- An entry of a page table is the word of memory at the table's address plus eight times the index.
pub mod Asid
mod Tests
use dragoon_kernel.Prelude.{
  ℕ, zero, suc, ◌+◌, ◌-◌, ◌*◌, ◌/◌, ◌%◌, ◌^◌, Bool, true, false, not, ◌&&◌, Option, none, some,
  update, ltb, ◌==◌, if◌then◌else◌, find_from, for_range, ◌≡◌, ◌<◌,
}
use dragoon_kernel.Prelude.Int.{ℤ, pos, minus_one}
use dragoon_kernel.Mm.{Mm, page_alloc, page_free}
use Asid.{asid_alloc, asid_free}

-- The allocator of pages, and the bitmap of ASIDs.
pub record Vm : Type 0 where
  pub mm : Mm
  pub asid_bitmap : ℕ → ℕ

-- `pgd` is `none` where the source has a null pointer.
pub record AddressSpace : Type 0 where
  pub pgd : Option ℕ
  pub asid : ℕ

abbrev pub entry_addr : ℕ → ℕ → ℕ
entry_addr table i = table + 8 * i

-- Bits 0 and 1 of an entry, and the address of the table that it points to (`& ~0xFFF`).
abbrev pub is_valid : ℕ → Bool
is_valid e = e % 2 == 1

abbrev pub is_table : ℕ → Bool
is_table e = e / 2 % 2 == 1

abbrev pub target : ℕ → ℕ
target e = e / 4096 * 4096

-- Frees the table at `table` and the tables below it. The first argument is how many levels of
-- tables lie below: 2 for an L1 table, 0 for an L3 table, whose entries are pages.
pub vm_free_subtree : ℕ → ℕ → Mm → Mm
vm_free_subtree zero table s = page_free table s
vm_free_subtree (suc below) table s = page_free table (
    for_range 512 0
      (λ i t.
        let e = t.memory (entry_addr table i) in
        elim (is_valid e && is_table e) [ true ↦ vm_free_subtree below (target e) t | false ↦ t ])
      s)

-- `pgd_table` is the address of the kernel's own L0 table.
pub vm_create : ℕ → AddressSpace → Vm → ℤ × AddressSpace × Vm
unfolding asid_alloc
vm_create pgd_table as' v =
    let (page, mm) = page_alloc v.mm in
    elim page [
      | none ↦ (minus_one, record as' { pgd = none }, record v { mm = mm })
      | some pgd ↦
          let shared = record mm {
            memory = update mm.memory (entry_addr pgd 0) (mm.memory pgd_table);
          } in
          let (asid, bitmap) = asid_alloc v.asid_bitmap in
          (
            pos 0,
            record { pgd = some pgd; asid = asid },
            record { mm = shared; asid_bitmap = bitmap },
          )
    ]

-- Entries 1 to 511 of the L0 table at `pgd`; entry 0 belongs to the kernel.
pub free_tables : ℕ → Mm → Mm
unfolding vm_free_subtree
free_tables pgd = for_range 511 1 λ i t.
    let e = t.memory (entry_addr pgd i) in if is_valid e then vm_free_subtree 2 (target e) t else t

pub vm_destroy : AddressSpace → Vm → AddressSpace × Vm
unfolding free_tables asid_free
vm_destroy as' v = elim as'.pgd [
  | none ↦ (as', v)
  | some pgd ↦ (
    record { pgd = none; asid = 0 },
    record {
      mm = page_free pgd (free_tables pgd v.mm);
      asid_bitmap = asid_free as'.asid v.asid_bitmap;
    },
  )
]
