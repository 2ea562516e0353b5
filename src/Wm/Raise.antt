-- ===== src/Wm/Raise.antt =====
-- Moving a window to the top of the stack.
use dragoon_kernel.Prelude.{
  ℕ, suc, ◌-◌, ◌≡◌, true, false, [], ◌∷◌, ◌++◌, ◌==◌, ltb, has, remove, update, arith, refl, ap,
  sym, subst, ◌∙◌, inl, inr, Bool-cases,
}
use dragoon_kernel.Prelude.{Option-cases}
use dragoon_kernel.Prelude.Loops.{IsFirst, find_from-some, find_from-none}
use dragoon_kernel.Wm.{Wm, shift_down, raise, z_position}
use dragoon_kernel.Wm.Stack.{
  items, stack, items-snoc, absent-items, Closes, items-remove, shift_down_lem,
}

closed-items :
    (z z' : ℕ → ℕ) (id p n : ℕ)
    → Closes z z' id p 0 n
    → z' (n - 1) ≡ id
    → items z' 0 n ≡ remove id (items z 0 n) ++ id ∷ []
closed-items z z' id p n c e =
    let n' : n ≡ suc (n - 1) = omega (arith, c.below) in
    let whole = items-remove z z' id p (n - 1) 0 (subst (Closes z z' id p 0) n' c) in
    ap (items z' 0) n'
    ∙ items-snoc z' (n - 1) 0 (n - 1) (omega arith)
    ∙ ap (λ l. l ++ z' (n - 1) ∷ []) (whole ∙ ap (λ m. remove id (items z 0 m)) (sym n'))
    ∙ ap (λ v. remove id (items z 0 n) ++ v ∷ []) e

raised-Closes :
    (s : Wm) (id p : ℕ)
    → IsFirst s.z_count 0 (λ i. s.z_order i == id) p
    → ltb p (s.z_count - 1) ≡ true
    → Closes s.z_order
        (update (shift_down (s.z_count - 1 - p) p s.z_order) (s.z_count - 1) id)
        id
        p
        0
        s.z_count
raised-Closes s id p f lt = record {
  from = f.from;
  below = f.below;
  held = ground (arith, f.passes);
  first = λ j lo hi. ground (arith, f.least j);
  before = λ j lo hi. ground (arith, shift_down_lem (s.z_count - 1 - p) p s.z_order j);
  after = λ j lo hi. ground (arith, shift_down_lem (s.z_count - 1 - p) p s.z_order j);
}

last-Closes :
    (s : Wm) (id p : ℕ)
    → IsFirst s.z_count 0 (λ i. s.z_order i == id) p
    → ltb p (s.z_count - 1) ≡ false
    → Closes s.z_order s.z_order id p 0 s.z_count
last-Closes s id p f ge = record {
  from = f.from;
  below = f.below;
  held = ground (arith, f.passes);
  first = λ j lo hi. ground (arith, f.least j);
  before = λ j lo hi. refl;
  after = λ j lo hi. ground (arith, ge);
}

-- `raise` moves `id` to the top of a stack that holds it.
pub raise-stack :
    (id : ℕ) (s : Wm)
    → has (stack s) id ≡ true
    → stack (raise id s) ≡ remove id (stack s) ++ id ∷ []
unfolding raise
raise-stack id s m = elim (Option-cases (z_position id s)) [
  | inl e ↦
      let gone : has (stack s) id ≡ false =
        absent-items s.z_order s.z_count 0 id
          (λ j lo hi. ground (arith, find_from-none s.z_count 0 (λ i. s.z_order i == id) e j)) in
      absurd (ground (arith, gone, m))
  | inr (p, e) ↦
      let f = find_from-some s.z_count 0 (λ i. s.z_order i == id) p e in
      elim (Bool-cases (ltb p (s.z_count - 1))) [
        | inl lt ↦
            let c =
              closed-items s.z_order
                (update (shift_down (s.z_count - 1 - p) p s.z_order) (s.z_count - 1) id) id p
                s.z_count (raised-Closes s id p f lt) (ground arith) in
            rw (e, raise, lt) c
        | inr ge ↦
            let c = closed-items s.z_order s.z_order id p s.z_count (last-Closes s id p f ge) (
              let at : s.z_count - 1 ≡ p = ground (arith, f.below, ge) in
              rw at (ground (arith, f.passes))) in
            rw (e, raise, ge) c
      ]
]
