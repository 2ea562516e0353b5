-- ===== src/PageTables/Start.antt =====
-- kernel/mm.c: the tables that mm_create_page_tables leaves are fit for mm_map_page.
use Prim.Native.Nat.{bit_or}
use dragoon_kernel.Prelude.{
  ℕ, suc, ◌+◌, ◌*◌, ◌^◌, ◌≡◌, ◌<◌, Bool, true, false, none, some, arith, refl, sym, ap, ◌∙◌, ◌⊎◌,
  inl, inr, ltb, leb, ◌==◌, ◌&&◌, if◌then◌else◌, Bool-cases, ℕ_discrete, subst,
}
use dragoon_kernel.Mm.{Mm, page_addr, max_pages}
use dragoon_kernel.Mm.Accounting.{is_used, IsCounted}
use dragoon_kernel.PageTables.{table_entry, block_device, block_normal, mm_create_page_tables}
use dragoon_kernel.PageTables.Created.{Laid, tables_at}
use dragoon_kernel.PageTables.Entries.{table_entry-table, table_entry-target, block-table}
use dragoon_kernel.PageTables.Identity.{at_g, at_u, at_d, at_r}
use dragoon_kernel.PageTables.Step.{IsMapped}
use dragoon_kernel.PageTables.Tree.{Places, IsTree, slot}
use dragoon_kernel.Vm.{is_valid, is_table, target}

abbrev pub places_of : ℕ → ℕ → ℕ → ℕ → Places
places_of g u d r i =
    if i == g
    then some (3, 0)
    else if i == u
    then some (2, 0)
    else if i == d
    then some (1, 0)
    else if i == r
    then some (1, 1)
    else none

-- The four pages are in RAM, and taken.
abbrev pub Taken : Mm → ℕ → Type 0
Taken s i = (i < max_pages) × (is_used s i ≡ true)

module _ (g u d r : ℕ) (laid : Laid g u d r) where
  place_cases :
      (i b q : ℕ)
      → places_of g u d r i ≡ some (b, q)
      → ((i ≡ g) × (b ≡ 3) × (q ≡ 0))
        ⊎ ((i ≡ u) × (b ≡ 2) × (q ≡ 0))
        ⊎ ((i ≡ d) × (b ≡ 1) × (q ≡ 0))
        ⊎ ((i ≡ r) × (b ≡ 1) × (q ≡ 1))
  place_cases i b q e = ground arith

  is_linked :
      (m : ℕ → ℕ) (i k j b q : ℕ)
      → mm_create_page_tables (tables_at g u d r) m (slot i k) ≡ table_entry (page_addr j)
      → places_of g u d r j ≡ some (b, q)
      → (l : ℕ) × (target (mm_create_page_tables (tables_at g u d r) m (slot i k)) ≡ page_addr l)
        × (places_of g u d r l ≡ some (b, q))
  is_linked m i k j b q e p = (j, ap target e ∙ table_entry-target (page_addr j) (omega arith), p)

  module _ (m : ℕ → ℕ) where
    abbrev after : ℕ → ℕ
    after = mm_create_page_tables (tables_at g u d r) m

    no_table_d :
        (k : ℕ) → k < 512 → is_valid (after (slot d k)) ≡ true → is_table (after (slot d k)) ≡ false
    no_table_d k lt v =
        let e = at_d g u d r laid m k lt in
        elim (Bool-cases (leb 64 k && ltb k 82)) [
          | inl y ↦
              let e' = e ∙ ap (λ b. if b then bit_or (k * 2 ^ 21) block_device else 0) y in
              ap is_table e' ∙ block-table (k * 2 ^ 21) block_device (omega arith) refl
          | inr y ↦ ap is_table (e ∙ ap (λ b. if b then bit_or (k * 2 ^ 21) block_device else 0) y)
        ]

    no_table_r :
        (k : ℕ) → k < 512 → is_valid (after (slot r k)) ≡ true → is_table (after (slot r k)) ≡ false
    no_table_r k lt v =
        let e = at_r g u d r laid m k lt in
        elim (Bool-cases (ltb k 64)) [
          | inl y ↦
              let e' = e ∙ ap (λ b. if b then bit_or (2 ^ 30 + k * 2 ^ 21) block_normal else 0) y in
              ap is_table e' ∙ block-table (2 ^ 30 + k * 2 ^ 21) block_normal (omega arith) refl
          | inr y ↦
              ap is_table
                (e ∙ ap (λ b. if b then bit_or (2 ^ 30 + k * 2 ^ 21) block_normal else 0) y)
        ]

    -- Only the entry 0 of the top table is valid.
    at_g_valid :
        (k : ℕ)
        → k < 512
        → is_valid (after (slot g k)) ≡ true
        → (k ≡ 0) × (after (slot g k) ≡ table_entry (page_addr u))
    at_g_valid k lt v = elim (ℕ_discrete k 0) [
      | yes z ↦ (z, at_g g u d r laid m k lt ∙ ground (arith, z))
      | no nz ↦
          let e : after (slot g k) ≡ 0 = at_g g u d r laid m k lt ∙ ground (arith, nz) in
          absurd (ground (arith, sym v ∙ ap is_valid e))
    ]

    at_u_valid :
        (k : ℕ)
        → k < 512
        → is_valid (after (slot u k)) ≡ true
        → ((k ≡ 0) × (after (slot u k) ≡ table_entry (page_addr d)))
          ⊎ ((k ≡ 1) × (after (slot u k) ≡ table_entry (page_addr r)))
    at_u_valid k lt v = elim (ℕ_discrete k 0) [
      | yes z ↦ inl (z, at_u g u d r laid m k lt ∙ ground (arith, z))
      | no nz ↦ elim (ℕ_discrete k 1) [
        | yes o ↦ inr (o, at_u g u d r laid m k lt ∙ ground (arith, o))
        | no n ↦
            let e : after (slot u k) ≡ 0 = at_u g u d r laid m k lt ∙ ground (arith, nz, n) in
            absurd (ground (arith, sym v ∙ ap is_valid e))
      ]
    ]

    start-IsTree : IsTree (places_of g u d r) g after
    start-IsTree = record {
      top = ground arith;
      no_block = λ i q k at lt valid. elim (place_cases i 3 q at) [
        | inl (e, _, _) ↦
            let (_, f) = at_g_valid k lt (ap (λ j. is_valid (after (slot j k))) (sym e) ∙ valid) in
            ap (λ j. is_table (after (slot j k))) e
            ∙ ap is_table f
            ∙ table_entry-table (page_addr u) (omega arith)
        | inr h ↦ absurd (ground (arith, h))
      ];
      down = λ i b q k at lt valid table. elim (place_cases i (suc b) q at) [
        | inl (e, eb, eq) ↦
            let (z, f) = at_g_valid k lt (ap (λ j. is_valid (after (slot j k))) (sym e) ∙ valid) in
            is_linked m i k u b (q * 512 + k) (ap (λ j. after (slot j k)) e ∙ f)
              (ground (arith, laid.gu, eb, eq, z))
        | inr (inl (e, eb, eq)) ↦
            elim (at_u_valid k lt (ap (λ j. is_valid (after (slot j k))) (sym e) ∙ valid)) [
              | inl (z, f) ↦
                  is_linked m i k d b (q * 512 + k) (ap (λ j. after (slot j k)) e ∙ f)
                    (ground (arith, laid.gd, laid.ud, eb, eq, z))
              | inr (z, f) ↦
                  is_linked m i k r b (q * 512 + k) (ap (λ j. after (slot j k)) e ∙ f)
                    (ground (arith, laid.gr, laid.ur, laid.dr, eb, eq, z))
            ]
        | inr (inr (inl (e, _, _))) ↦
            let at' = λ (p : ℕ → Bool). ap (λ j. p (after (slot j k))) (sym e) in
            absurd (ground (arith, at' is_table ∙ table, no_table_d k lt (at' is_valid ∙ valid)))
        | inr (inr (inr (e, _, _))) ↦
            let at' = λ (p : ℕ → Bool). ap (λ j. p (after (slot j k))) (sym e) in
            absurd (ground (arith, at' is_table ∙ table, no_table_r k lt (at' is_valid ∙ valid)))
      ];
    }

  -- On a counted allocator that has handed out the four pages, the tables hang together.
  pub start-IsMapped :
      (s : Mm)
      → IsCounted s
      → Taken s g
      → Taken s u
      → Taken s d
      → Taken s r
      → IsMapped
          (places_of g u d r)
          g
          (record s { memory = mm_create_page_tables (tables_at g u d r) s.memory })
  start-IsMapped s c hg hu hd hr = record {
    tree = start-IsTree s.memory;
    held = λ i b q at. elim (place_cases i b q at) [
      | inl (e, _, _) ↦ subst (Taken s) (sym e) hg
      | inr (inl (e, _, _)) ↦ subst (Taken s) (sym e) hu
      | inr (inr (inl (e, _, _))) ↦ subst (Taken s) (sym e) hd
      | inr (inr (inr (e, _, _))) ↦ subst (Taken s) (sym e) hr
    ];
    counted = record { words = c.words; total = c.total; used = c.used };
  }
