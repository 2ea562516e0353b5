-- ===== src/PageTables/Identity.antt =====
-- kernel/mm.c: mm_create_page_tables, and the translation that the kernel starts with.
use Prim.Native.Nat.{bit_or}
use dragoon_kernel.Prelude.{
  ℕ, suc, ◌+◌, ◌*◌, ◌/◌, ◌%◌, ◌^◌, ◌≡◌, ◌<◌, ◌≤◌, arith, refl, ap, ◌∙◌, inl, inr, ◌⊎◌, ℕ_discrete,
  ltb, leb, ◌==◌, ◌&&◌, if◌then◌else◌, Bool-cases,
}
use dragoon_kernel.Mm.{page_addr}
use dragoon_kernel.PageTables.{table_entry, block_device, block_normal, mm_create_page_tables}
use dragoon_kernel.PageTables.Created.{Laid, tables_at, created}
use dragoon_kernel.PageTables.Entries.{
  table_entry-valid, table_entry-table, table_entry-target, block-valid, block-table,
}
use dragoon_kernel.PageTables.Tree.{slot}
use dragoon_kernel.PageTables.Walk.{
  Translation, unmapped, block, walk, index, index-lt, index-three, index-two, index-one,
  walk-invalid, walk-down, walk-block,
}

-- The devices from 128 MB to 164 MB and the RAM from 1 GB to 1 GB + 128 MB stand where they are, in blocks of
-- 2 MB; nothing else is mapped.
abbrev pub identity : ℕ → Translation
identity v =
    if leb 0x08000000 v && ltb v 0x0A400000
    then block 1 (bit_or (v / 2 ^ 21 * 2 ^ 21) block_device)
    else if leb 0x40000000 v && ltb v 0x48000000
    then block 1 (bit_or (v / 2 ^ 21 * 2 ^ 21) block_normal)
    else unmapped

module _ (g u d r : ℕ) (laid : Laid g u d r) (m : ℕ → ℕ) where
  abbrev after : ℕ → ℕ
  after = mm_create_page_tables (tables_at g u d r) m

  aligned : (n : ℕ) → page_addr n % 4096 ≡ 0
  aligned n = omega arith

  -- The entries, table by table.
  pub at_g :
      (k : ℕ) → k < 512 → after (slot g k) ≡ (if k == 0 then table_entry (page_addr u) else 0)
  at_g k lt = created g u d r laid m g k lt (inl refl) ∙ ground arith

  pub at_u :
      (k : ℕ)
      → k < 512
      → after (slot u k) ≡ (
          if k == 0
          then table_entry (page_addr d)
          else if k == 1
          then table_entry (page_addr r)
          else 0)
  at_u k lt = created g u d r laid m u k lt (inr (inl refl)) ∙ ground (arith, laid.gu)

  pub at_d :
      (k : ℕ)
      → k < 512
      → after (slot d k) ≡ (if leb 64 k && ltb k 82 then bit_or (k * 2 ^ 21) block_device else 0)
  at_d k lt =
      created g u d r laid m d k lt (inr (inr (inl refl))) ∙ ground (arith, laid.gd, laid.ud)

  pub at_r :
      (k : ℕ)
      → k < 512
      → after (slot r k) ≡ (if ltb k 64 then bit_or (2 ^ 30 + k * 2 ^ 21) block_normal else 0)
  at_r k lt =
      created g u d r laid m r k lt (inr (inr (inr refl)))
      ∙ ground (arith, laid.gr, laid.ur, laid.dr)

  -- From an upper table to the table that an entry links.
  step :
      (b i j v : ℕ)
      → after (slot i (index (suc b) v)) ≡ table_entry (page_addr j)
      → walk (suc b) (page_addr i) v after ≡ walk b (page_addr j) v after
  step b i j v e =
      walk-down b (page_addr i) v after (table_entry (page_addr j)) e
        (table_entry-valid (page_addr j) (aligned j)) (table_entry-table (page_addr j) (aligned j))
      ∙ ap (λ a. walk b a v after) (table_entry-target (page_addr j) (aligned j))

  nothing : (b i v : ℕ) → after (slot i (index b v)) ≡ 0 → walk b (page_addr i) v after ≡ unmapped
  nothing b i v e = walk-invalid b (page_addr i) v after 0 e refl

  in_block :
      (i v a flags : ℕ)
      → a % 4 ≡ 0
      → flags % 4 ≡ 1
      → after (slot i (index 1 v)) ≡ bit_or a flags
      → walk 1 (page_addr i) v after ≡ block 1 (bit_or a flags)
  in_block i v a flags h h' e =
      walk-block 0 (page_addr i) v after (bit_or a flags) e (block-valid a flags h h')
        (block-table a flags h h')

  abbrev device_block : ℕ → Translation
  device_block v = block 1 (bit_or (v / 2 ^ 21 * 2 ^ 21) block_device)

  abbrev ram_block : ℕ → Translation
  ram_block v = block 1 (bit_or (v / 2 ^ 21 * 2 ^ 21) block_normal)

  identity_device : (v : ℕ) → 64 ≤ v / 2 ^ 21 → v / 2 ^ 21 < 82 → device_block v ≡ identity v
  identity_device v lo hi =
      let lo' : 0x08000000 ≤ v = omega arith in
      let hi' : v < 0x0A400000 = omega arith in ground (arith, lo', hi')

  identity_ram : (v : ℕ) → 512 ≤ v / 2 ^ 21 → v / 2 ^ 21 < 576 → ram_block v ≡ identity v
  identity_ram v lo hi =
      let lo' : 0x40000000 ≤ v = omega arith in
      let hi' : v < 0x48000000 = omega arith in ground (arith, lo', hi')

  identity_none :
      (v : ℕ)
      → (v / 2 ^ 21 < 64) ⊎ (82 ≤ v / 2 ^ 21)
      → (v / 2 ^ 21 < 512) ⊎ (576 ≤ v / 2 ^ 21)
      → unmapped ≡ identity v
  identity_none v h h' =
      let out : (v < 0x08000000) ⊎ (0x0A400000 ≤ v) = omega arith in
      let out' : (v < 0x40000000) ⊎ (0x48000000 ≤ v) = omega arith in ground (arith, out, out')

  below_d : (v : ℕ) → v < 2 ^ 30 → walk 1 (page_addr d) v after ≡ identity v
  below_d v lt =
      let k = index 1 v in
      let e : k ≡ v / 2 ^ 21 = index-one v ∙ omega arith in
      let entry = at_d k (index-lt 1 v) in
      elim (Bool-cases (leb 64 k && ltb k 82)) [
        | inl y ↦
            let range : (64 ≤ k) × (k < 82) = ground (arith, y) in
            in_block d v (k * 2 ^ 21) block_device (omega arith) refl
              (entry ∙ ap (λ b. if b then bit_or (k * 2 ^ 21) block_device else 0) y)
            ∙ ap (λ i. block 1 (bit_or (i * 2 ^ 21) block_device)) e
            ∙ identity_device v (omega (arith, range.0, e)) (omega (arith, range.1, e))
        | inr y ↦
            let range : (k < 64) ⊎ (82 ≤ k) = ground (arith, y) in
            nothing 1 d v (entry ∙ ap (λ b. if b then bit_or (k * 2 ^ 21) block_device else 0) y)
            ∙ identity_none v (omega (arith, range, e)) (omega arith)
      ]

  below_r : (v : ℕ) → 2 ^ 30 ≤ v → v < 2 ^ 31 → walk 1 (page_addr r) v after ≡ identity v
  below_r v ge lt =
      let k = index 1 v in
      let e : k + 512 ≡ v / 2 ^ 21 = omega (arith, index-one v) in
      let place : 2 ^ 30 + k * 2 ^ 21 ≡ v / 2 ^ 21 * 2 ^ 21 = omega (arith, e) in
      let entry = at_r k (index-lt 1 v) in
      elim (Bool-cases (ltb k 64)) [
        | inl y ↦
            let range : k < 64 = ground (arith, y) in
            in_block r v (2 ^ 30 + k * 2 ^ 21) block_normal (omega arith) refl
              (entry ∙ ap (λ b. if b then bit_or (2 ^ 30 + k * 2 ^ 21) block_normal else 0) y)
            ∙ ap (λ a. block 1 (bit_or a block_normal)) place
            ∙ identity_ram v (omega (arith, e)) (omega (arith, range, e))
        | inr y ↦
            let range : 64 ≤ k = ground (arith, y) in
            nothing 1 r v
              (entry ∙ ap (λ b. if b then bit_or (2 ^ 30 + k * 2 ^ 21) block_normal else 0) y)
            ∙ identity_none v (omega (arith, range, e)) (omega (arith, range, e))
      ]

  below_u : (v : ℕ) → v < 2 ^ 39 → walk 2 (page_addr u) v after ≡ identity v
  below_u v lt =
      let k = index 2 v in
      let e : k ≡ v / 2 ^ 30 = index-two v ∙ omega arith in
      let entry = at_u k (index-lt 2 v) in
      elim (ℕ_discrete k 0) [
        | yes z ↦ step 1 u d v (entry ∙ ground (arith, z)) ∙ below_d v (omega (arith, z, e))
        | no nz ↦ elim (ℕ_discrete k 1) [
          | yes o ↦
              step 1 u r v (entry ∙ ground (arith, o))
              ∙ below_r v (omega (arith, o, e)) (omega (arith, o, e))
          | no one ↦
              nothing 2 u v (entry ∙ ground (arith, nz, one))
              ∙ identity_none v (omega (arith, nz, one, e)) (omega (arith, nz, one, e))
        ]
      ]

  -- With the four static tables in four different pages, the walk of an address below 2^48 in the
  -- tables that `mm_create_page_tables` leaves ends in the device block at the same address from 128
  -- MB to 164 MB, in the RAM block at the same address from 1 GB to 1 GB + 128 MB, and nowhere
  -- otherwise, whatever the tables held before.
  pub mm_create_page_tables_lem : (v : ℕ) → v < 2 ^ 48 → walk 3 (page_addr g) v after ≡ identity v
  mm_create_page_tables_lem v lt =
      let k = index 3 v in
      let e : k ≡ v / 2 ^ 39 = index-three v ∙ omega arith in
      let entry = at_g k (index-lt 3 v) in
      elim (ℕ_discrete k 0) [
        | yes z ↦ step 2 g u v (entry ∙ ground (arith, z)) ∙ below_u v (omega (arith, z, e))
        | no nz ↦
            nothing 3 g v (entry ∙ ground (arith, nz))
            ∙ identity_none v (omega (arith, nz, e)) (omega (arith, nz, e))
      ]
