-- ===== src/PageTables/Created.antt =====
-- kernel/mm.c: the entries that mm_create_page_tables leaves in the four static tables.
use dragoon_kernel.Prelude.{
  ℕ, ◌+◌, ◌≡◌, ◌<◌, ◌≤◌, false, arith, refl, ◌∙◌, ℕ_discrete, for_range, ltb, leb, ◌==◌, ◌&&◌,
  if◌then◌else◌, update_self, update_ne, ◌≢◌, ◌⊎◌, inr, update, inl, ap, ◌*◌, ◌^◌, Bool, true,
}
use dragoon_kernel.Prelude.Loops.{for_range_inv}
use dragoon_kernel.Mm.{page_addr}
use dragoon_kernel.PageTables.{
  write_entry, Tables, table_entry, bit_or, block_device, block_normal, mm_create_page_tables,
}
use dragoon_kernel.PageTables.Tree.{slot, slot_inj}

-- A loop that writes the entries `start`, `start + 1`, … of the table in the page `d`.
filled :
    (d n start : ℕ) (f : ℕ → ℕ) (m : ℕ → ℕ)
    → start + n ≤ 512
    → (j k : ℕ) → k < 512
    → for_range n start (λ i m'. write_entry (page_addr d) i (f i) m') m (slot j k)
      ≡ (if (j == d) && (leb start k && ltb k (start + n)) then f k else m (slot j k))
filled d n start f m fits =
    for_range_inv
      (λ at m'.
        (j k : ℕ)
        → k < 512
        → m' (slot j k) ≡ (if (j == d) && (leb start k && ltb k at) then f k else m (slot j k)))
      (λ i m'. write_entry (page_addr d) i (f i) m') n start (start + n) m refl
      (λ at m' lo hi h j k lt. one at m' lo hi h j k lt) (λ j k lt. ground arith)
  where
    one :
        (at : ℕ) (m' : ℕ → ℕ)
        → start ≤ at
        → at < start + n
        → ((j k : ℕ)
            → k < 512
            → m' (slot j k) ≡ (if (j == d) && (leb start k && ltb k at) then f k else m (slot j k)))
        → (j k : ℕ) → k < 512
        → write_entry (page_addr d) at (f at) m' (slot j k)
          ≡ (if (j == d) && (leb start k && ltb k (at + 1)) then f k else m (slot j k))
    one at m' lo hi h j k lt = elim (ℕ_discrete (slot d at) (slot j k)) [
      | yes e ↦
          let (e', e'') = slot_inj d j at k (omega arith) lt e in
          rw (← e', ← e'') (update_self m' (f at) (slot d at) ∙ ground arith)
      | no ne ↦
          let other : (j == d) && (k == at) ≡ false = ground (arith, ne) in
          update_ne m' (f at) (slot d at) (slot j k) ne ∙ h j k lt ∙ ground (arith, other)
    ]

-- The four static tables stand in four pages.
pub record Laid (g u d r : ℕ) : Type 0 where
  pub gu : g ≢ u
  pub gd : g ≢ d
  pub gr : g ≢ r
  pub ud : u ≢ d
  pub ur : u ≢ r
  pub dr : d ≢ r

abbrev pub tables_at : ℕ → ℕ → ℕ → ℕ → Tables
tables_at g u d r = record {
  pgd = page_addr g;
  pud = page_addr u;
  pmd_dev = page_addr d;
  pmd_ram = page_addr r;
}

abbrev Cleared : ℕ → ℕ → ℕ → ℕ → ℕ → (ℕ → ℕ) → Type 0
Cleared g u d r n m =
    (k : ℕ)
    → k < n
    → (m (slot g k) ≡ 0) × (m (slot u k) ≡ 0) × (m (slot d k) ≡ 0) × (m (slot r k) ≡ 0)

-- The entries that the call leaves in the four tables.
abbrev pub entry_of : ℕ → ℕ → ℕ → ℕ → ℕ → ℕ → ℕ
entry_of g u d r j k =
    if j == g
    then (if k == 0 then table_entry (page_addr u) else 0)
    else if j == u
    then (if k == 0
        then table_entry (page_addr d)
        else if k == 1
        then table_entry (page_addr r)
        else 0)
    else if j == d
    then (if leb 64 k && ltb k 82 then bit_or (k * 2 ^ 21) block_device else 0)
    else if ltb k 64
    then bit_or (2 ^ 30 + k * 2 ^ 21) block_normal
    else 0

module _ (g u d r : ℕ) (laid : Laid g u d r) where
  zeroing : (ℕ → ℕ) → ℕ → ℕ
  zeroing = for_range 512 0 (λ i m. write_entry (page_addr r) i 0 (
      write_entry (page_addr d) i 0
        (write_entry (page_addr u) i 0 (write_entry (page_addr g) i 0 m))))

  put_zero : (f : ℕ → ℕ) (a x : ℕ) → (a ≡ x) ⊎ (f x ≡ 0) → update f a 0 x ≡ 0
  put_zero f a x h = ground arith

  zeroing-Cleared : (m : ℕ → ℕ) → Cleared g u d r 512 (zeroing m)
  unfolding zeroing
  zeroing-Cleared m =
      for_range_inv (Cleared g u d r)
        (λ i m. write_entry (page_addr r) i 0 (
          write_entry (page_addr d) i 0
            (write_entry (page_addr u) i 0 (write_entry (page_addr g) i 0 m))))
        512 0 512 m (omega arith)
        (λ at m' lo hi h k lt.
          let m₁ = write_entry (page_addr g) at 0 m' in
          let m₂ = write_entry (page_addr u) at 0 m₁ in
          let m₃ = write_entry (page_addr d) at 0 m₂ in
          elim (ℕ_discrete at k) [
            | yes e ↦ (
              put_zero m₃ (slot r at) (slot g k) (
                  inr (
                    put_zero m₂ (slot d at) (slot g k) (
                      inr (
                        put_zero m₁ (slot u at) (slot g k)
                          (inr (put_zero m' (slot g at) (slot g k) (inl (ap (slot g) e)))))))),
              put_zero m₃ (slot r at) (slot u k) (
                  inr (
                    put_zero m₂ (slot d at) (slot u k)
                      (inr (put_zero m₁ (slot u at) (slot u k) (inl (ap (slot u) e)))))),
              put_zero m₃ (slot r at) (slot d k)
                  (inr (put_zero m₂ (slot d at) (slot d k) (inl (ap (slot d) e)))),
              put_zero m₃ (slot r at) (slot r k) (inl (ap (slot r) e)),
            )
            | no ne ↦
                let old = h k (omega arith) in
                let through : (x : ℕ) → m' x ≡ 0 → write_entry (page_addr r) at 0 m₃ x ≡ 0 = λ x z.
                  put_zero m₃ (slot r at) x (
                    inr (
                      put_zero m₂ (slot d at) x (
                        inr (
                          put_zero m₁ (slot u at) x (inr (put_zero m' (slot g at) x (inr z))))))) in
                (
                  through (slot g k) old.0,
                  through (slot u k) old.1,
                  through (slot d k) old.2,
                  through (slot r k) old.3,
                )
          ])
        (λ k lt. absurd (omega arith))

  -- One entry is written in the page `p`.
  wrote :
      (p l e : ℕ) (m : ℕ → ℕ) (j k : ℕ)
      → l < 512
      → k < 512
      → write_entry (page_addr p) l e m (slot j k)
        ≡ (if (j == p) && (k == l) then e else m (slot j k))
  wrote p l e m j k hl hk = elim (ℕ_discrete (slot p l) (slot j k)) [
    | yes same ↦
        let (e', e'') = slot_inj p j l k hl hk same in
        rw (← e', ← e'') (update_self m e (slot p l) ∙ ground arith)
    | no ne ↦
        let other : (j == p) && (k == l) ≡ false = ground (arith, ne) in
        update_ne m e (slot p l) (slot j k) ne ∙ ground (arith, other)
  ]

  -- Of the four tests, exactly one succeeds.
  choice :
      (a b c e : Bool) (k : ℕ)
      → ((a ≡ true) × (b ≡ false) × (c ≡ false) × (e ≡ false))
        ⊎ ((a ≡ false) × (b ≡ true) × (c ≡ false) × (e ≡ false))
        ⊎ ((a ≡ false) × (b ≡ false) × (c ≡ true) × (e ≡ false))
        ⊎ ((a ≡ false) × (b ≡ false) × (c ≡ false) × (e ≡ true))
      → (if e && (leb 0 k && ltb k 64)
          then bit_or (2 ^ 30 + k * 2 ^ 21) block_normal
          else if c && (leb 64 k && ltb k 82)
          then bit_or (k * 2 ^ 21) block_device
          else if b && (k == 1)
          then table_entry (page_addr r)
          else if b && (k == 0)
          then table_entry (page_addr d)
          else if a && (k == 0)
          then table_entry (page_addr u)
          else 0)
        ≡ (if a
            then (if k == 0 then table_entry (page_addr u) else 0)
            else if b
            then (if k == 0
                then table_entry (page_addr d)
                else if k == 1
                then table_entry (page_addr r)
                else 0)
            else if c
            then (if leb 64 k && ltb k 82 then bit_or (k * 2 ^ 21) block_device else 0)
            else if ltb k 64
            then bit_or (2 ^ 30 + k * 2 ^ 21) block_normal
            else 0)
  choice true b c e k h = ground arith
  choice false true c e k h = ground arith
  choice false false true e k h = ground arith
  choice false false false e k h = ground arith

  choose :
      (j k : ℕ)
      → (j ≡ g) ⊎ (j ≡ u) ⊎ (j ≡ d) ⊎ (j ≡ r)
      → (if (j == r) && (leb 0 k && ltb k 64)
          then bit_or (2 ^ 30 + k * 2 ^ 21) block_normal
          else if (j == d) && (leb 64 k && ltb k 82)
          then bit_or (k * 2 ^ 21) block_device
          else if (j == u) && (k == 1)
          then table_entry (page_addr r)
          else if (j == u) && (k == 0)
          then table_entry (page_addr d)
          else if (j == g) && (k == 0)
          then table_entry (page_addr u)
          else 0)
        ≡ entry_of g u d r j k
  choose j k which = choice (j == g) (j == u) (j == d) (j == r) k (elim which [
    | inl e ↦ inl (ground (arith, laid.gu, laid.gd, laid.gr))
    | inr (inl e) ↦ inr (inl (ground (arith, laid.gu, laid.ud, laid.ur)))
    | inr (inr (inl e)) ↦ inr (inr (inl (ground (arith, laid.gd, laid.ud, laid.dr))))
    | inr (inr (inr e)) ↦ inr (inr (inr (ground (arith, laid.gr, laid.ur, laid.dr))))
  ])

  pub created :
      (m : ℕ → ℕ) (j k : ℕ)
      → k < 512
      → (j ≡ g) ⊎ (j ≡ u) ⊎ (j ≡ d) ⊎ (j ≡ r)
      → mm_create_page_tables (tables_at g u d r) m (slot j k) ≡ entry_of g u d r j k
  unfolding mm_create_page_tables zeroing
  created m j k lt which =
      let m₀ = zeroing m in
      let m₁ = write_entry (page_addr g) 0 (table_entry (page_addr u)) m₀ in
      let m₂ = write_entry (page_addr u) 0 (table_entry (page_addr d)) m₁ in
      let m₃ = write_entry (page_addr u) 1 (table_entry (page_addr r)) m₂ in
      let devices = λ (i : ℕ). bit_or (i * 2 ^ 21) block_device in
      let ram = λ (i : ℕ). bit_or (2 ^ 30 + i * 2 ^ 21) block_normal in
      let m₄ = for_range 18 64 (λ i m'. write_entry (page_addr d) i (devices i) m') m₃ in
      let (zg, zu, zd, zr) = zeroing-Cleared m k lt in
      let start : m₀ (slot j k) ≡ 0 = elim which [
        | inl e ↦ ap (λ i. m₀ (slot i k)) e ∙ zg
        | inr (inl e) ↦ ap (λ i. m₀ (slot i k)) e ∙ zu
        | inr (inr (inl e)) ↦ ap (λ i. m₀ (slot i k)) e ∙ zd
        | inr (inr (inr e)) ↦ ap (λ i. m₀ (slot i k)) e ∙ zr
      ] in
      filled r 64 0 ram m₄ (omega arith) j k lt
      ∙ ap (λ x. if (j == r) && (leb 0 k && ltb k 64) then ram k else x)
          (filled d 18 64 devices m₃ (omega arith) j k lt
            ∙ ap (λ x. if (j == d) && (leb 64 k && ltb k 82) then devices k else x)
                (wrote u 1 (table_entry (page_addr r)) m₂ j k (omega arith) lt
                  ∙ ap (λ x. if (j == u) && (k == 1) then table_entry (page_addr r) else x)
                      (wrote u 0 (table_entry (page_addr d)) m₁ j k (omega arith) lt
                        ∙ ap (λ x. if (j == u) && (k == 0) then table_entry (page_addr d) else x)
                            (wrote g 0 (table_entry (page_addr u)) m₀ j k (omega arith) lt
                              ∙ ap
                                  (λ x.
                                    if (j == g) && (k == 0) then table_entry (page_addr u) else x)
                                  start))))
      ∙ choose j k which
