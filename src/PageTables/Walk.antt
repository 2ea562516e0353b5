-- ===== src/PageTables/Walk.antt =====
-- What the MMU makes of the tables that kernel/mm.c builds: the walk of the ARM64 translation, with 4 KB pages and
-- four levels of tables of 512 entries. It describes the hardware, on which mm_map_page relies.
use dragoon_kernel.Prelude.{
  ℕ, zero, suc, ◌+◌, ◌*◌, ◌/◌, ◌%◌, ◌≡◌, ◌<◌, Bool, true, false, ◌&&◌, if◌then◌else◌, arith, refl,
  ◌^◌, ap, ◌∙◌, sym,
}
use dragoon_kernel.Vm.{entry_addr, is_valid, is_table, target}

-- No translation; a block, with the levels of tables that would lie below its entry; or a page.
pub data Translation : Type 0 where
  unmapped : Translation
  block : ℕ → ℕ → Translation
  page : ℕ → Translation

-- The entry of a table that the address `v` selects, where so many levels of tables lie below.
pub index : ℕ → ℕ → ℕ
index zero v = v / 4096 % 512
index (suc below) v = index below (v / 512)

-- The bits of the address above those that select the entry.
pub above : ℕ → ℕ → ℕ
above zero v = v / 4096 / 512
above (suc below) v = above below (v / 512)

abbrev pub leaf : ℕ → Translation
leaf e = if is_valid e && is_table e then page e else unmapped

-- The entry `e` of an upper table, by its two low bits; the last argument continues in the table below.
branch : Bool → Bool → ℕ → ℕ → (ℕ → Translation) → Translation
branch false table below e continue = unmapped
branch true false below e continue = block (suc below) e
branch true true below e continue = continue (target e)

abbrev enter : ℕ → ℕ → (ℕ → Translation) → Translation
enter below e = branch (is_valid e) (is_table e) below e

pub walk : ℕ → ℕ → ℕ → (ℕ → ℕ) → Translation
unfolding index branch
walk zero table v memory = leaf (memory (entry_addr table (index 0 v)))
walk (suc below) table v memory =
    enter below (memory (entry_addr table (index (suc below) v))) (λ t. walk below t v memory)

pub index-lt : (below v : ℕ) → index below v < 512
unfolding index
index-lt zero v = omega arith
index-lt (suc below) v = index-lt below (v / 512)

pub above-step : (below v : ℕ) → above below v ≡ above (suc below) v * 512 + index (suc below) v
unfolding above index
above-step zero v = omega arith
above-step (suc below) v = above-step below (v / 512)

-- The page of an address.
pub above-page : (v : ℕ) → v / 4096 ≡ above 0 v * 512 + index 0 v
unfolding above index
above-page v = omega arith

-- The four indices, as the code computes them.
pub above-top : (v : ℕ) → v < 2 ^ 48 → above 3 v ≡ 0
unfolding above
above-top v h = omega arith

pub index-zero : (v : ℕ) → index 0 v ≡ v / 2 ^ 12 % 512
unfolding index
index-zero v = refl

pub index-three : (v : ℕ) → index 3 v ≡ v / 2 ^ 39 % 512
unfolding index
index-three v = omega arith

pub index-two : (v : ℕ) → index 2 v ≡ v / 2 ^ 30 % 512
unfolding index
index-two v = omega arith

pub index-one : (v : ℕ) → index 1 v ≡ v / 2 ^ 21 % 512
unfolding index
index-one v = omega arith

enter_same :
    (below e : ℕ) (f f' : ℕ → Translation)
    → (is_valid e ≡ true → is_table e ≡ true → f' (target e) ≡ f (target e))
    → enter below e f' ≡ enter below e f
unfolding branch
enter_same below e f f' h = decide (is_valid e) (is_table e) h
  where
    decide :
        (a b : Bool)
        → (a ≡ true → b ≡ true → f' (target e) ≡ f (target e))
        → branch a b below e f' ≡ branch a b below e f
    decide false b h = refl
    decide true false h = refl
    decide true true h = h refl refl

module _ (below table v : ℕ) (memory : ℕ → ℕ) (e : ℕ)
    (here : memory (entry_addr table (index (suc below) v)) ≡ e) (valid : is_valid e ≡ true) where
  pub walk-block : is_table e ≡ false → walk (suc below) table v memory ≡ block (suc below) e
  unfolding walk branch
  walk-block h =
      ap (λ w. enter below w (λ t. walk below t v memory)) here
      ∙ ap (λ b. branch b (is_table e) below e (λ t. walk below t v memory)) valid
      ∙ ap (λ b. branch true b below e (λ t. walk below t v memory)) h

  pub walk-down :
      is_table e ≡ true → walk (suc below) table v memory ≡ walk below (target e) v memory
  unfolding walk branch
  walk-down h =
      ap (λ w. enter below w (λ t. walk below t v memory)) here
      ∙ ap (λ b. branch b (is_table e) below e (λ t. walk below t v memory)) valid
      ∙ ap (λ b. branch true b below e (λ t. walk below t v memory)) h

pub walk-invalid :
    (below table v : ℕ) (memory : ℕ → ℕ) (e : ℕ)
    → memory (entry_addr table (index below v)) ≡ e
    → is_valid e ≡ false
    → walk below table v memory ≡ unmapped
unfolding walk branch
walk-invalid zero table v memory e here h =
    ap leaf here ∙ ap (λ b. if b && is_table e then page e else unmapped) h
walk-invalid (suc below) table v memory e here h =
    ap (λ w. enter below w (λ t. walk below t v memory)) here
    ∙ ap (λ b. branch b (is_table e) below e (λ t. walk below t v memory)) h

-- Where two memories hold the same entry, and agree below the table that it points to, the walks agree.
pub walk-same :
    (below table v e : ℕ) (m m' : ℕ → ℕ)
    → m (entry_addr table (index (suc below) v)) ≡ e
    → m' (entry_addr table (index (suc below) v)) ≡ e
    → (is_valid e ≡ true
        → is_table e ≡ true
        → walk below (target e) v m' ≡ walk below (target e) v m)
    → walk (suc below) table v m' ≡ walk (suc below) table v m
unfolding walk
walk-same below table v e m m' here here' h =
    ap (λ w. enter below w (λ t. walk below t v m')) here'
    ∙ enter_same below e (λ t. walk below t v m) (λ t. walk below t v m') h
    ∙ sym (ap (λ w. enter below w (λ t. walk below t v m)) here)

pub walk_zero :
    (table v : ℕ) (memory : ℕ → ℕ)
    → walk 0 table v memory ≡ leaf (memory (entry_addr table (index 0 v)))
unfolding walk
walk_zero table v memory = refl
