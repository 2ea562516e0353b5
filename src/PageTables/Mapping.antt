-- ===== src/PageTables/Mapping.antt =====
-- kernel/mm.c: mm_map_page, and what it does to the translation of every address.
use Prim.Native.Nat.{bit_or}
use dragoon_kernel.Prelude.{
  ℕ, zero, suc, ◌*◌, ◌/◌, ◌^◌, ◌≡◌, ◌<◌, ◌≢◌, true, false, Option, some, arith, refl, sym, ap, ◌∙◌,
  inl, inr, update_self, update_ne,
}
use dragoon_kernel.Mm.{Mm, max_pages, page_addr}
use dragoon_kernel.Mm.Accounting.{is_used}
use dragoon_kernel.PageTables.{next_table, write_entry, go_on, mm_map_page}
use dragoon_kernel.PageTables.Step.{
  IsMapped, IsPath, SameWalks, Steps, full, blocked, down, next_table_lem,
}
use dragoon_kernel.PageTables.Tree.{Places, IsTree, slot, slot_inj}
use dragoon_kernel.PageTables.Walk.{
  block, walk, leaf, index, above, index-lt, above-step, above-page, above-top, index-zero,
  index-three, index-two, index-one, walk-same, walk_zero,
}
use dragoon_kernel.Vm.{is_valid, is_table, target}

-- What mapping the page of `v` by the entry `e` promises.
pub data MapsPage (root v e : ℕ) (s t : Mm) : Type 0 where
  short :
      ((j : ℕ) → j < max_pages → is_used t j ≡ true) → SameWalks root s t → MapsPage root v e s t
  in_the_way :
      (b d : ℕ)
      → walk 3 (page_addr root) v s.memory ≡ block b d
      → SameWalks root s t
      → MapsPage root v e s t
  mapped :
      walk 3 (page_addr root) v t.memory ≡ leaf e
      → ((w : ℕ)
          → w < 2 ^ 48
          → w / 4096 ≢ v / 4096
          → walk 3 (page_addr root) w t.memory ≡ walk 3 (page_addr root) w s.memory)
      → MapsPage root v e s t

-- And the tables still hang together.
abbrev pub Maps : ℕ → ℕ → ℕ → Mm → Mm → Type 0
Maps root v e s t = MapsPage root v e s t × ((place : Places) × IsMapped place root t)

-- What is promised of a state with the same translations is promised of this one.
earlier :
    (root v e : ℕ) (s s' t : Mm) → SameWalks root s s' → Maps root v e s' t → Maps root v e s t
earlier root v e s s' t same (r, p) = (back r, p)
  where
    back : MapsPage root v e s' t → MapsPage root v e s t
    back (short all same') = short all (λ w. same' w ∙ same w)
    back (in_the_way b d h same') = in_the_way b d (sym (same v) ∙ h) (λ w. same' w ∙ same w)
    back (mapped h others) = mapped h (λ w lt ne. others w lt ne ∙ same w)

-- A step, and what is promised of the rest.
step-Maps :
    (place : Places) (root v e : ℕ) (s : Mm) (b : ℕ) (rest : ℕ → Mm → Mm) (r : Option ℕ × Mm)
    → IsMapped place root s
    → Steps place root v s b r
    → ((place' : Places) (j : ℕ) (s' : Mm)
        → IsMapped place' root s'
        → IsPath place' root v s'.memory b j
        → Maps root v e s' (rest (page_addr j) s'))
    → Maps root v e s (go_on rest r)
step-Maps place root v e s b rest _ m (full all) k = (short all (λ w. refl), (place, m))
step-Maps place root v e s b rest _ m (blocked d h) k =
    (in_the_way (suc b) d h (λ w. refl), (place, m))
step-Maps place root v e s b rest _ m (down place' j s' m' p same) k =
    earlier root v e s s' (rest (page_addr j) s') same (k place' j s' m' p)

module _ (place : Places) (root v e : ℕ) (s : Mm) (i : ℕ) (m : IsMapped place root s)
    (path : IsPath place root v s.memory 0 i) (lt : v < 2 ^ 48) where
  abbrev written : ℕ → ℕ
  written = write_entry (page_addr i) (index 0 v) e s.memory

  -- The entries of the upper tables stand.
  written_above :
      (j c r k : ℕ) → place j ≡ some (suc c, r) → k < 512 → written (slot j k) ≡ s.memory (slot j k)
  written_above j c r k at hk = update_ne s.memory e (slot i (index 0 v)) (slot j k) (λ d.
      ground (arith, at, path.at, ap place (slot_inj i j (index 0 v) k (index-lt 0 v) hk d).0))

  walk-written :
      (c j w : ℕ)
      → place j ≡ some (c, above c w)
      → w / 4096 ≢ v / 4096
      → walk c (page_addr j) w written ≡ walk c (page_addr j) w s.memory
  walk-written zero j w at ne =
      walk_zero (page_addr j) w written
      ∙ ap leaf (
          update_ne s.memory e (slot i (index 0 v)) (slot j (index 0 w)) (λ d.
            let (here, same) =
              slot_inj i j (index 0 v) (index 0 w) (index-lt 0 v) (index-lt 0 w) d in
            let above_same : above 0 v ≡ above 0 w = ground (arith, at, path.at, ap place here) in
            ne (omega (arith, above_same, same, above-page v, above-page w))))
      ∙ sym (walk_zero (page_addr j) w s.memory)
  walk-written (suc c) j w at ne =
      walk-same c (page_addr j) w (s.memory (slot j (index (suc c) w))) s.memory written refl
        (written_above j c (above (suc c) w) (index (suc c) w) at (index-lt (suc c) w))
        (λ valid table.
          let (t, f, p) =
            m.tree.down j c (above (suc c) w) (index (suc c) w) at (index-lt (suc c) w) valid
              table in
          ap (λ a. walk c a w written) f
          ∙ walk-written c t w (p ∙ ap (λ q. some (c, q)) (sym (above-step c w))) ne
          ∙ sym (ap (λ a. walk c a w s.memory) f))

  written-IsTree : IsTree place root written
  written-IsTree = record {
    top = m.tree.top;
    no_block = λ j r k at hk valid.
        let old = written_above j 2 r k at hk in
        ap is_table old ∙ m.tree.no_block j r k at hk (sym (ap is_valid old) ∙ valid);
    down = λ j c r k at hk valid table.
        let old = written_above j c r k at hk in
        let (t, f, p) =
          m.tree.down j c r k at hk (sym (ap is_valid old) ∙ valid)
            (sym (ap is_table old) ∙ table) in
        (t, ap target old ∙ f, p);
  }

  leaf-Maps : Maps root v e s (record s { memory = written })
  leaf-Maps = (
    mapped
        (path.leads written (λ j c r k at hk valid. written_above j c r k at hk)
          ∙ walk_zero (page_addr i) v written
          ∙ ap leaf (update_self s.memory e (slot i (index 0 v))))
        (λ w wlt ne.
          walk-written 3 root w (m.tree.top ∙ ap (λ q. some (3, q)) (sym (above-top w wlt))) ne),
    (
      place,
      record {
        tree = written-IsTree;
        held = m.held;
        counted = record {
          words = m.counted.words;
          total = m.counted.total;
          used = m.counted.used;
        };
      },
    ),
  )

-- For an address below 2^48, and tables that hang together in pages that the counted allocator has
-- handed out, `mm_map_page` does one of three things: every page is used afterwards and no walk of the
-- tables has changed; or the walk of the address ended in a block, and no walk has changed; or the
-- walk of the address now ends at the entry that was asked for, and the walk of every address below
-- 2^48 in another page is as before. In each case the tables still hang together in pages handed out
-- by the counted allocator.
pub mm_map_page_lem :
    (place : Places) (root v paddr flags : ℕ) (s : Mm)
    → v < 2 ^ 48
    → IsMapped place root s
    → Maps root v
        (bit_or (paddr / 4096 * 4096) flags)
        s
        (mm_map_page (page_addr root) v paddr flags s)
unfolding mm_map_page
mm_map_page_lem place root v paddr flags s lt m =
    let e = bit_or (paddr / 4096 * 4096) flags in
    let write =
      λ (t₃ : ℕ) (s₃ : Mm). record s₃ { memory = write_entry t₃ (index 0 v) e s₃.memory } in
    let third = λ (t₂ : ℕ) (s₂ : Mm). go_on write (next_table true t₂ (index 1 v) s₂) in
    let second = λ (t₁ : ℕ) (s₁ : Mm). go_on third (next_table true t₁ (index 2 v) s₁) in
    rw (← index-zero v, ← index-one v, ← index-two v, ← index-three v)
      (step-Maps place root v e s 2 second (next_table false (page_addr root) (index 3 v) s) m
        (next_table_lem place root v s 2 root m
          (record {
            at = m.tree.top ∙ ap (λ q. some (3, q)) (sym (above-top v lt));
            leads = λ m' ext. refl;
          })
          false (inr refl))
        (λ p₁ t₁ s₁ m₁ path₁.
          step-Maps p₁ root v e s₁ 1 third (next_table true (page_addr t₁) (index 2 v) s₁) m₁
            (next_table_lem p₁ root v s₁ 1 t₁ m₁ path₁ true (inl refl))
            (λ p₂ t₂ s₂ m₂ path₂.
              step-Maps p₂ root v e s₂ 0 write (next_table true (page_addr t₂) (index 1 v) s₂) m₂
                (next_table_lem p₂ root v s₂ 0 t₂ m₂ path₂ true (inl refl))
                (λ p₃ t₃ s₃ m₃ path₃. leaf-Maps p₃ root v e s₃ t₃ m₃ path₃ lt))))
