-- ===== src/PageTables/Step.antt =====
-- kernel/mm.c: one step of mm_map_page down the tables, which finds the next table or makes it.
use dragoon_kernel.Prelude.{
  ℕ, suc, ◌+◌, ◌*◌, ◌≡◌, ◌<◌, ◌≢◌, Bool, true, false, Option, none, some, arith, refl, sym, ap, ◌∙◌,
  ◌⊎◌, inl, inr, ℕ_discrete, Bool-cases, Option-cases, update_self, update_ne, subst,
}
use dragoon_kernel.Mm.{Mm, max_pages, page_addr, page_alloc}
use dragoon_kernel.Mm.Accounting.{is_used, IsCounted}
use dragoon_kernel.Mm.Alloc.{page_alloc_lem, IsGranted}
use dragoon_kernel.PageTables.{table_entry, next_table, write_entry}
use dragoon_kernel.PageTables.Entries.{table_entry-valid, table_entry-table, table_entry-target}
use dragoon_kernel.PageTables.Tree.{
  Places, IsTree, Held, slot, slot_inj, Grows, placed, walk-grows, grows-IsTree,
}
use dragoon_kernel.PageTables.Walk.{
  block, walk, index, above, index-lt, above-step, walk-down, walk-block,
}
use dragoon_kernel.Vm.{is_valid, is_table, target}

-- The tables hang together, their pages are taken, and the allocator's books are in order.
pub record IsMapped (place : Places) (root : ℕ) (s : Mm) : Type 0 where
  pub tree : IsTree place root s.memory
  pub held : Held place s
  pub counted : IsCounted s

-- The valid entries above the lowest tables stand.
abbrev pub Extends : Places → (ℕ → ℕ) → (ℕ → ℕ) → Type 0
Extends place m m' =
    (i b q k : ℕ)
    → place i ≡ some (suc b, q)
    → k < 512
    → is_valid (m (slot i k)) ≡ true
    → m' (slot i k) ≡ m (slot i k)

-- The walk of `v` leads to the table in the page `i`, now and as long as the valid entries stand.
pub record IsPath (place : Places) (root v : ℕ) (m : ℕ → ℕ) (b i : ℕ) : Type 0 where
  pub at : place i ≡ some (b, above b v)
  pub leads :
      (m' : ℕ → ℕ) → Extends place m m' → walk 3 (page_addr root) v m' ≡ walk b (page_addr i) v m'

abbrev pub SameWalks : ℕ → Mm → Mm → Type 0
SameWalks root s t =
    (w : ℕ) → walk 3 (page_addr root) w t.memory ≡ walk 3 (page_addr root) w s.memory

-- What a step promises: memory is short, or a block is in the way, and nothing has changed; or the
-- walk has come one level further.
pub data Steps (place : Places) (root v : ℕ) (s : Mm) (b : ℕ) : Option ℕ × Mm → Type 0 where
  full : ((j : ℕ) → j < max_pages → is_used s j ≡ true) → Steps place root v s b (none, s)
  blocked :
      (e : ℕ)
      → walk 3 (page_addr root) v s.memory ≡ block (suc b) e
      → Steps place root v s b (none, s)
  down :
      (place' : Places) (j : ℕ) (s' : Mm)
      → IsMapped place' root s'
      → IsPath place' root v s'.memory b j
      → SameWalks root s s'
      → Steps place root v s b (some (page_addr j), s')

module _ (place : Places) (root v : ℕ) (s : Mm) (b i : ℕ) (mapped : IsMapped place root s)
    (path : IsPath place root v s.memory (suc b) i) where
  abbrev entry : ℕ
  entry = s.memory (slot i (index (suc b) v))

  found :
      is_valid entry ≡ true
      → is_table entry ≡ true
      → Steps place root v s b (some (target entry), s)
  found valid table =
      let (j, e, p) =
        mapped.tree.down i b (above (suc b) v) (index (suc b) v) path.at (index-lt (suc b) v) valid
          table in
      subst (λ a. Steps place root v s b (some a, s)) (sym e)
        (down place j s mapped
          (record {
            at = p ∙ ap (λ q. some (b, q)) (sym (above-step b v));
            leads = λ m' ext.
                path.leads m' ext
                ∙ walk-down b (page_addr i) v m' entry
                    (ext i b (above (suc b) v) (index (suc b) v) path.at (index-lt (suc b) v) valid)
                    valid table
                ∙ ap (λ a. walk b a v m') e;
          })
          (λ w. refl))

  in_the_way : is_valid entry ≡ true → is_table entry ≡ false → Steps place root v s b (none, s)
  in_the_way valid table = blocked entry (
      path.leads s.memory (λ _ _ _ _ _ _ _. refl)
      ∙ walk-block b (page_addr i) v s.memory entry refl valid table)

  not_placed : (n : ℕ) → is_used s n ≡ false → place n ≡ none
  not_placed n unused = elim (Option-cases (place n)) [
    | inl e ↦ e
    | inr ((c, q), e) ↦ absurd (ground (arith, unused, (mapped.held n c q e).1))
  ]

  abbrev linked_to : ℕ → Mm → Mm
  linked_to n t = record t {
    memory = write_entry (page_addr i) (index (suc b) v) (table_entry (page_addr n)) t.memory;
  }

  module _ (n : ℕ) (t : Mm) (lt : n < max_pages) (invalid : is_valid entry ≡ false)
      (unused : is_used s n ≡ false) (g : IsGranted s n 1 t) (c : IsCounted t) where
    apart : n ≢ i
    apart e = ground (arith, not_placed n unused, path.at, ap place e)

    elsewhere : (j d : ℕ) → d < 512 → j ≢ n → t.memory (slot j d) ≡ s.memory (slot j d)
    elsewhere j d hd ne = g.untouched (slot j d) (omega arith)

    grows : Grows place s.memory (linked_to n t).memory i b (above (suc b) v) (index (suc b) v) n
    grows = record {
      at_place = path.at;
      in_table = index-lt (suc b) v;
      was_empty = invalid;
      linked = update_self t.memory (table_entry (page_addr n)) (slot i (index (suc b) v));
      fresh = not_placed n unused;
      zeros = λ d hd.
          update_ne t.memory (table_entry (page_addr n)) (slot i (index (suc b) v)) (slot n d)
            (λ e. apart (sym (slot_inj i n (index (suc b) v) d (index-lt (suc b) v) hd e).0))
          ∙ g.zeroed d (omega arith);
      same = λ j d hd ne ne'.
          update_ne t.memory (table_entry (page_addr n)) (slot i (index (suc b) v)) (slot j d)
            (λ e. ne' (sym e))
          ∙ elsewhere j d hd ne;
    }

    abbrev place' : Places
    place' = placed place n b (above (suc b) v * 512 + index (suc b) v)

    held' : Held place' (linked_to n t)
    held' j d q e = elim (ℕ_discrete n j) [
      | yes here ↦ (omega arith, ap (is_used t) (sym here) ∙ g.marked n (omega arith) (omega arith))
      | no other ↦
          let (below, used) = mapped.held j d q (ground (arith, e)) in
          (below, g.kept j (omega arith) ∙ used)
    ]

    earlier : (m' : ℕ → ℕ) → Extends place' (linked_to n t).memory m' → Extends place s.memory m'
    earlier m' ext j d q k at hk valid =
        let ne : j ≢ n = λ e. ground (arith, at, not_placed n unused, ap place e) in
        let ne' : slot j k ≢ slot i (index (suc b) v) =
          λ e. ground (arith, valid, invalid, ap (λ a. is_valid (s.memory a)) e) in
        let old = grows.same j k hk ne ne' in
        ext j d q k (ground (arith, at, ne)) hk (ap is_valid old ∙ valid) ∙ old

    path' : IsPath place' root v (linked_to n t).memory b n
    path' = record {
      at = ground (arith, above-step b v);
      leads = λ m' ext.
          let table_at = table_entry-valid (page_addr n) (omega arith) in
          path.leads m' (earlier m' ext)
          ∙ walk-down b (page_addr i) v m' (table_entry (page_addr n))
              (ext i b (above (suc b) v) (index (suc b) v) (ground (arith, path.at, apart))
                  (index-lt (suc b) v) (ap is_valid grows.linked ∙ table_at)
                ∙ grows.linked)
              table_at (table_entry-table (page_addr n) (omega arith))
          ∙ ap (λ a. walk b a v m') (table_entry-target (page_addr n) (omega arith));
    }

    made : Steps place root v s b (some (page_addr n), linked_to n t)
    made =
        down place' n (linked_to n t)
          (record {
            tree =
                grows-IsTree place root s.memory (linked_to n t).memory i b (above (suc b) v)
                  (index (suc b) v) n mapped.tree grows;
            held = held';
            counted = record { words = c.words; total = c.total; used = c.used };
          })
          path'
          (λ w.
            walk-grows place root s.memory (linked_to n t).memory i b (above (suc b) v)
              (index (suc b) v) n mapped.tree grows 3 root 0 w mapped.tree.top)

  abbrev link : Option ℕ × Mm → Option ℕ × Mm
  link (page, t) = elim page as (λ p. Option ℕ × Mm) [
    | none ↦ (none, t)
    | some p ↦ (
      some p,
      record t { memory = write_entry (page_addr i) (index (suc b) v) (table_entry p) t.memory },
    )
  ]

  fresh_table : is_valid entry ≡ false → Steps place root v s b (link (page_alloc s))
  fresh_table invalid = elim (page_alloc_lem s mapped.counted) [
    | inl (e, all) ↦ subst (λ r. Steps place root v s b (link r)) (sym e) (full all)
    | inr (n, lt, e, unused, _, g, c) ↦ rw e (made n ((page_alloc s).1) lt invalid unused g c)
  ]

  -- At the top, where the code does not look for one, no block stands.
  no_block_at_top : b ≡ 2 → is_valid entry ≡ true → is_table entry ≡ true
  no_block_at_top e valid =
      mapped.tree.no_block i (above (suc b) v) (index (suc b) v)
        (path.at ∙ ap (λ c. some (suc c, above (suc b) v)) e) (index-lt (suc b) v) valid

  pub next_table_lem :
      (blocks : Bool)
      → (blocks ≡ true) ⊎ (b ≡ 2)
      → Steps place root v s b (next_table blocks (page_addr i) (index (suc b) v) s)
  unfolding next_table
  next_table_lem blocks h = elim (Bool-cases (is_valid entry)) [
    | inr invalid ↦ rw invalid (fresh_table invalid)
    | inl valid ↦ elim (Bool-cases (is_table entry)) [
      | inl table ↦
          rw (valid, table)
            (elim (Bool-cases blocks) [
              | inl e ↦ rw e (found valid table)
              | inr e ↦ rw e (found valid table)
            ])
      | inr way ↦ elim h [
        | inl e ↦ rw (valid, way, e) (in_the_way valid way)
        | inr e ↦ absurd (ground (arith, way, no_block_at_top e valid))
      ]
    ]
  ]
