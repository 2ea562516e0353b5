-- ===== src/Wm/Stack.antt =====
-- The stack of shown windows as a list, back to front, and what the loops over `z_order` do to it.
use dragoon_kernel.Prelude.{
  ℕ, zero, suc, ◌+◌, ◌-◌, ◌≡◌, ◌≢◌, ◌≤◌, ◌<◌, Bool, true, false, List, [], ◌∷◌, ◌++◌, ◌&&◌,
  if◌then◌else◌, ltb, leb, has, remove, update, arith, refl, ap, sym, ◌∙◌, inl, inr, for_range,
  Bool-cases, ℕ_discrete,
}
use dragoon_kernel.Prelude.Loops.{for_range_inv}
use dragoon_kernel.Prelude.{remove_absent}
use dragoon_kernel.Wm.{Wm, shift_down, drop_step, unstack}

-- `z[i], z[i + 1], …`, `n` of them.
abbrev pub items : (ℕ → ℕ) → ℕ → ℕ → List ℕ
items z i zero = []
items z i (suc n) = z i ∷ items z (i + 1) n

abbrev pub stack : Wm → List ℕ
stack s = items s.z_order 0 s.z_count

pub items_ext :
    (z z' : ℕ → ℕ) (n i : ℕ)
    → ((j : ℕ) → i ≤ j → j < i + n → z j ≡ z' j)
    → items z i n ≡ items z' i n
items_ext z z' zero i h = refl
items_ext z z' (suc n) i h = ground (
  arith,
  h i (omega arith) (omega arith),
  items_ext z z' n (i + 1) (λ j lo hi. h j (omega arith) (omega arith)),
)

pub items-snoc : (z : ℕ → ℕ) (n i j : ℕ) → i + n ≡ j → items z i (suc n) ≡ items z i n ++ z j ∷ []
items-snoc z zero i j e = let e' : i ≡ j = omega arith in rw e'
items-snoc z (suc n) i j e = ap (λ l. z i ∷ l) (items-snoc z n (i + 1) j (omega arith))

pub has-items : (z : ℕ → ℕ) (n i j v : ℕ) → i ≤ j → j < i + n → z j ≡ v → has (items z i n) v ≡ true
has-items z zero i j v lo hi e = absurd (omega arith)
has-items z (suc n) i j v lo hi e = elim (ℕ_discrete i j) [
  | yes here ↦ let e' : z i ≡ v = rw here e in ground (arith, e')
  | no past ↦ ground (arith, has-items z n (i + 1) j v (omega arith) (omega arith) e)
]

pub absent-items :
    (z : ℕ → ℕ) (n i v : ℕ) → ((j : ℕ) → i ≤ j → j < i + n → z j ≢ v) → has (items z i n) v ≡ false
absent-items z zero i v h = refl
absent-items z (suc n) i v h = ground (
  arith,
  h i (omega arith) (omega arith),
  absent-items z n (i + 1) v (λ j lo hi. h j (omega arith) (omega arith)),
)

-- `z'` is `z` with the first `v`, at `p`, left out.
pub record Closes (z z' : ℕ → ℕ) (v p i n : ℕ) : Type 0 where
  pub from : i ≤ p
  pub below : p < i + n
  pub held : z p ≡ v
  pub first : (j : ℕ) → i ≤ j → j < p → z j ≢ v
  pub before : (j : ℕ) → i ≤ j → j < p → z' j ≡ z j
  pub after : (j : ℕ) → p ≤ j → j + 1 < i + n → z' j ≡ z (j + 1)

moved_up :
    (z z' : ℕ → ℕ) (n i : ℕ)
    → ((j : ℕ) → i ≤ j → j < i + n → z' j ≡ z (j + 1))
    → items z' i n ≡ items z (i + 1) n
moved_up z z' zero i h = refl
moved_up z z' (suc n) i h = ground (
  arith,
  h i (omega arith) (omega arith),
  moved_up z z' n (i + 1) (λ j lo hi. h j (omega arith) (omega arith)),
)

pub items-remove :
    (z z' : ℕ → ℕ) (v p n i : ℕ)
    → Closes z z' v p i (suc n)
    → items z' i n ≡ remove v (items z i (suc n))
items-remove z z' v p zero i c =
    let e : i ≡ p = omega (arith, c.from, c.below) in
    let e' : z i ≡ v = rw e c.held in ground (arith, e')
items-remove z z' v p (suc n) i c = elim (ℕ_discrete i p) [
  | yes here ↦
      let e : z i ≡ v = rw here c.held in
      let up = moved_up z z' (suc n) i (λ j lo hi. c.after j (omega arith) (omega arith)) in
      ground (arith, up, e)
  | no later ↦
      let ih = items-remove z z' v p n (i + 1) (record {
        from = omega (arith, c.from);
        below = omega (arith, c.below);
        held = c.held;
        first = λ j lo hi. c.first j (omega arith) hi;
        before = λ j lo hi. c.before j (omega arith) hi;
        after = λ j lo hi. c.after j lo (omega arith);
      }) in
      ground (
        arith,
        ih,
        c.before i (omega arith) (omega (arith, c.from)),
        c.first i (omega arith) (omega (arith, c.from)),
      )
]

-- The loop of `shift_down`, pointwise.
pub shift_down_lem :
    (n from : ℕ) (z : ℕ → ℕ) (j : ℕ)
    → shift_down n from z j ≡ (if leb from j && ltb j (from + n) then z (j + 1) else z j)
unfolding shift_down
shift_down_lem n from z =
    for_range_inv (λ i z'. (j : ℕ) → z' j ≡ (if leb from j && ltb j i then z (j + 1) else z j))
      (λ i z'. update z' i (z' (i + 1))) n from (from + n) z (omega arith)
      (λ i z' lo hi h j. ground (arith, h j, h (i + 1))) (λ j. ground arith)

-- The loop of `unstack` over a stack of `n`, when it has looked at `i` places.
pub record Dropping (z : ℕ → ℕ) (id n i : ℕ) (r : Bool × (ℕ → ℕ)) : Type 0 where
  pub missing : r.0 ≡ false → ((j : ℕ) → j < i → z j ≢ id) × ((j : ℕ) → r.1 j ≡ z j)
  pub dropped :
      r.0 ≡ true
      → (p : ℕ) × (p < i)
        × (z p ≡ id)
        × ((j : ℕ) → j < p → z j ≢ id)
        × ((j : ℕ) → j < p → r.1 j ≡ z j)
        × ((j : ℕ) → p ≤ j → j < i → j + 1 < n → r.1 j ≡ z (j + 1))
        × ((j : ℕ) → i ≤ j → r.1 j ≡ z j)

drop_step-Dropping :
    (z : ℕ → ℕ) (id n i : ℕ) (r : Bool × (ℕ → ℕ))
    → Dropping z id n i r
    → i < n
    → Dropping z id n (i + 1) (drop_step id n i r)
drop_step-Dropping z id n i r d lt = elim (Bool-cases r.0) [
  | inl on ↦
      let (p, below, held, first, before, after, rest) = d.dropped on in
      record {
        missing = λ e. ground arith;
        dropped = λ e. (
          p,
          omega arith,
          held,
          first,
          λ j l. ground (arith, before j l, rest i (omega arith)),
          λ j lo hi m. ground (arith, after j lo, rest (i + 1), on),
          λ j lo. ground (arith, rest j),
        );
      }
  | inr off ↦
      let (none_yet, same) = d.missing off in
      record {
        missing = λ e. (
          λ j l. elim (ℕ_discrete j i) [
            | yes here ↦ ground (arith, same i)
            | no past ↦ none_yet j (omega arith)
          ],
          λ j. ground (arith, same j),
        );
        dropped = λ e. (
          i,
          omega arith,
          ground (arith, same i),
          none_yet,
          λ j l. ground (arith, same j),
          λ j lo hi m. ground (arith, same j, same (i + 1), same i),
          λ j lo. ground (arith, same j),
        );
      }
]

unstack-Dropping :
    (n id : ℕ) (z : ℕ → ℕ) → Dropping z id n n (for_range n 0 (drop_step id n) (false, z))
unstack-Dropping n id z =
    for_range_inv (Dropping z id n) (drop_step id n) n 0 n (false, z) (omega arith)
      (λ i r lo hi d. drop_step-Dropping z id n i r d hi)
      (record {
        missing = λ e. (λ j l. absurd (omega arith), λ j. refl);
        dropped = λ e. ground (arith, e);
      })

dropped-items :
    (n id : ℕ) (z : ℕ → ℕ) (r : Bool × (ℕ → ℕ))
    → Dropping z id n n r
    → items r.1 0 (if r.0 then n - 1 else n) ≡ remove id (items z 0 n)
dropped-items n id z r d = elim (Bool-cases r.0) [
  | inl on ↦
      let (p, below, held, first, before, after, rest) = d.dropped on in
      let n' : n ≡ suc (n - 1) = omega arith in
      let closed = items-remove z r.1 id p (n - 1) 0 (record {
        from = omega arith;
        below = omega arith;
        held = held;
        first = λ j lo hi. first j hi;
        before = λ j lo hi. before j hi;
        after = λ j lo hi. after j lo (omega arith) (omega arith);
      }) in
      ap (λ (b : Bool). items r.1 0 (if b then n - 1 else n)) on
      ∙ closed
      ∙ ap (λ m. remove id (items z 0 m)) (sym n')
  | inr off ↦
      let (absent, same) = d.missing off in
      ap (λ (b : Bool). items r.1 0 (if b then n - 1 else n)) off
      ∙ items_ext r.1 z n 0 (λ j lo hi. same j)
      ∙ sym (
          remove_absent (items z 0 n) id
            (absent-items z n 0 id (λ j lo hi. absent j (omega arith))))
]

-- `unstack` leaves `id` out of the stack.
pub unstack-stack : (id : ℕ) (s : Wm) → stack (unstack id s) ≡ remove id (stack s)
unfolding unstack
unstack-stack id s =
    dropped-items s.z_count id s.z_order
      (for_range s.z_count 0 (drop_step id s.z_count) (false, s.z_order))
      (unstack-Dropping s.z_count id s.z_order)

-- A number put on top of the stack.
pub stack-push : (z : ℕ → ℕ) (n i : ℕ) → items (update z n i) 0 (n + 1) ≡ items z 0 n ++ i ∷ []
stack-push z n i =
    let e : n + 1 ≡ suc n = omega arith in
    ap (items (update z n i) 0) e
    ∙ items-snoc (update z n i) n 0 n (omega arith)
    ∙ ap (λ v. items (update z n i) 0 n ++ v ∷ []) (ground arith)
    ∙ ap (λ l. l ++ i ∷ []) (items_ext (update z n i) z n 0 (λ j lo hi. ground arith))
