-- ===== src/PageTables/Tree.antt =====
-- kernel/mm.c, its second half: what makes the pages of memory a tree of tables, and how it grows by one table.
use dragoon_kernel.Prelude.{
  ℕ, zero, suc, ◌+◌, ◌*◌, ◌%◌, ◌≡◌, ◌<◌, ◌≢◌, true, false, Option, none, some, arith, refl, sym, ap,
  ◌∙◌, update, ◌⊎◌, inl, inr, ℕ_discrete,
}
use dragoon_kernel.Mm.{Mm, max_pages, page_addr}
use dragoon_kernel.Mm.Accounting.{is_used}
use dragoon_kernel.PageTables.{table_entry}
use dragoon_kernel.PageTables.Entries.{table_entry-valid, table_entry-table, table_entry-target}
use dragoon_kernel.PageTables.Walk.{
  leaf, walk, index, index-lt, walk-same, walk-invalid, walk-down, walk_zero,
}
use dragoon_kernel.Vm.{entry_addr, is_valid, is_table, target}

-- Where the table in a page stands: how many levels lie below it, and the bits that lead to it.
abbrev pub Places : Type 0
Places = ℕ → Option (ℕ × ℕ)

-- The entry `k` of the table in the page `i`.
abbrev pub slot : ℕ → ℕ → ℕ
slot i k = entry_addr (page_addr i) k

-- Each entry that leads down leads to the table of its place. The entries of the top table are tables.
pub record IsTree (place : Places) (root : ℕ) (m : ℕ → ℕ) : Type 0 where
  pub top : place root ≡ some (3, 0)
  pub no_block :
      (i q k : ℕ)
      → place i ≡ some (3, q)
      → k < 512
      → is_valid (m (slot i k)) ≡ true
      → is_table (m (slot i k)) ≡ true
  pub down :
      (i b q k : ℕ)
      → place i ≡ some (suc b, q)
      → k < 512
      → is_valid (m (slot i k)) ≡ true
      → is_table (m (slot i k)) ≡ true
      → (j : ℕ) × (target (m (slot i k)) ≡ page_addr j) × (place j ≡ some (b, q * 512 + k))

-- The pages of the tree are in RAM, and the allocator knows of them.
abbrev pub Held : Places → Mm → Type 0
Held place s = (i b q : ℕ) → place i ≡ some (b, q) → (i < max_pages) × (is_used s i ≡ true)

pub slot_inj : (i j k l : ℕ) → k < 512 → l < 512 → slot i k ≡ slot j l → (i ≡ j) × (k ≡ l)
slot_inj i j k l h h' e = (omega arith, omega arith)

-- A page `n` of zeros, that no place had, becomes the table below the entry `k` of the page `i`.
pub record Grows (place : Places) (m m' : ℕ → ℕ) (i b q k n : ℕ) : Type 0 where
  pub at_place : place i ≡ some (suc b, q)
  pub in_table : k < 512
  pub was_empty : is_valid (m (slot i k)) ≡ false
  pub linked : m' (slot i k) ≡ table_entry (page_addr n)
  pub fresh : place n ≡ none
  pub zeros : (c : ℕ) → c < 512 → m' (slot n c) ≡ 0
  pub same : (j c : ℕ) → c < 512 → j ≢ n → slot j c ≢ slot i k → m' (slot j c) ≡ m (slot j c)

abbrev pub placed : Places → ℕ → ℕ → ℕ → Places
placed place n b q = update place n (some (b, q))

aligned : (n : ℕ) → page_addr n % 4096 ≡ 0
aligned n = omega arith

placed_other :
    (place : Places) (n j b c q r : ℕ)
    → place n ≡ none
    → place j ≡ some (b, q)
    → placed place n c r j ≡ some (b, q)
placed_other place n j b c q r e f = elim (ℕ_discrete n j) [
  | yes here ↦ absurd (ground (arith, e, f, ap place here))
  | no other ↦ ground (arith, f)
]

module _ (place : Places) (root : ℕ) (m m' : ℕ → ℕ) (i b q k n : ℕ) (tree : IsTree place root m)
    (g : Grows place m m' i b q k n) where
  fresh_page : (j c r : ℕ) → place j ≡ some (c, r) → j ≢ n
  fresh_page j c r e f = ground (arith, e, g.fresh, ap place f)

  -- Every walk ends as before: the new table is as empty as the entry was.
  pub walk-grows :
      (c j r v : ℕ) → place j ≡ some (c, r) → walk c (page_addr j) v m' ≡ walk c (page_addr j) v m
  walk-grows zero j r v at =
      let other : slot j (index 0 v) ≢ slot i k = λ e. ground (
        arith,
        at,
        g.at_place,
        ap place (slot_inj j i (index 0 v) k (index-lt 0 v) g.in_table e).0,
      ) in
      walk_zero (page_addr j) v m'
      ∙ ap leaf (g.same j (index 0 v) (index-lt 0 v) (fresh_page j zero r at) other)
      ∙ sym (walk_zero (page_addr j) v m)
  walk-grows (suc c) j r v at = elim (ℕ_discrete (slot j (index (suc c) v)) (slot i k)) [
    | yes here ↦
        walk-down c (page_addr j) v m' (table_entry (page_addr n)) (ap m' here ∙ g.linked)
          (table_entry-valid (page_addr n) (aligned n))
          (table_entry-table (page_addr n) (aligned n))
        ∙ ap (λ t. walk c t v m') (table_entry-target (page_addr n) (aligned n))
        ∙ walk-invalid c (page_addr n) v m' 0 (g.zeros (index c v) (index-lt c v)) refl
        ∙ sym (walk-invalid (suc c) (page_addr j) v m (m (slot i k)) (ap m here) g.was_empty)
    | no other ↦
        walk-same c (page_addr j) v (m (slot j (index (suc c) v))) m m' refl
          (g.same j (index (suc c) v) (index-lt (suc c) v) (fresh_page j (suc c) r at) other)
          (λ valid table.
            let (t, e, p) = tree.down j c r (index (suc c) v) at (index-lt (suc c) v) valid table in
            ap (λ a. walk c a v m') e ∙ walk-grows c t _ v p ∙ sym (ap (λ a. walk c a v m) e))
  ]

  -- Where a table stands, after the growth.
  place_cases :
      (j c r : ℕ)
      → placed place n b (q * 512 + k) j ≡ some (c, r)
      → (j ≡ n) ⊎ (place j ≡ some (c, r))
  place_cases j c r e = elim (ℕ_discrete n j) [
    | yes here ↦ inl (sym here)
    | no other ↦ inr (ground (arith, e))
  ]

  -- An entry that is valid after the growth is the new link, or is as it was, in a table of old.
  entry_cases :
      (j c r l : ℕ)
      → placed place n b (q * 512 + k) j ≡ some (c, r)
      → l < 512
      → is_valid (m' (slot j l)) ≡ true
      → ((place j ≡ some (c, r)) × (j ≡ i) × (l ≡ k))
        ⊎ ((place j ≡ some (c, r)) × (m' (slot j l) ≡ m (slot j l)))
  entry_cases j c r l e lt valid = elim (place_cases j c r e) [
    | inl here ↦
        absurd (
          ground
            (arith, ap (λ p. is_valid (m' (slot p l))) here, valid, ap is_valid (g.zeros l lt)))
    | inr at ↦ elim (ℕ_discrete (slot j l) (slot i k)) [
      | yes here ↦ let (e, f) = slot_inj j i l k lt g.in_table here in inl (at, e, f)
      | no other ↦ inr (at, g.same j l lt (fresh_page j c r at) other)
    ]
  ]

  pub grows-IsTree : IsTree (placed place n b (q * 512 + k)) root m'
  grows-IsTree = record {
    top = placed_other place n root 3 b 0 (q * 512 + k) g.fresh tree.top;
    no_block = λ j r l at lt valid. elim (entry_cases j 3 r l at lt valid) [
      | inl (at', e, f) ↦
          ap is_table (ap m' (ap (λ x. slot x l) e ∙ ap (slot i) f) ∙ g.linked)
          ∙ table_entry-table (page_addr n) (aligned n)
      | inr (at', e) ↦ ap is_table e ∙ tree.no_block j r l at' lt (sym (ap is_valid e) ∙ valid)
    ];
    down = λ j c r l at lt valid table. elim (entry_cases j (suc c) r l at lt valid) [
      | inl (at', e, f) ↦ (
        n,
        ap target (ap m' (ap (λ x. slot x l) e ∙ ap (slot i) f) ∙ g.linked)
            ∙ table_entry-target (page_addr n) (aligned n),
        ground (arith, at', g.at_place, ap place e, f),
      )
      | inr (at', e) ↦
          let (t, f, p) =
            tree.down j c r l at' lt (sym (ap is_valid e) ∙ valid) (sym (ap is_table e) ∙ table) in
          (t, ap target e ∙ f, placed_other place n t c b (r * 512 + l) (q * 512 + k) g.fresh p)
    ];
  }
