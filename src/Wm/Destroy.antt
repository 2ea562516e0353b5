-- ===== src/Wm/Destroy.antt =====
-- What destroying a window does to the stack and the focus.
use dragoon_kernel.Prelude.{
  ℕ, ◌≡◌, ◌≢◌, false, List, [], ◌∷◌, ◌++◌, has, remove, arith, refl, ap, sym, subst, ◌∙◌, inl, inr,
  some, ℕ_discrete, Distinct, has-append, has-remove, Bool-cases, Distinct-remove, ltb, ◌-◌, suc,
  none,
}
use dragoon_kernel.Prelude.Int.{ℤ}
use dragoon_kernel.Wm.Stack.{stack, items, items-snoc, has-items, unstack-stack}
use dragoon_kernel.Wm.Invariant.{IsShown, IsStacked}
use dragoon_kernel.Wm.{Wm, focus_top, hide, shown, unstack, wm_destroy_window}
use dragoon_kernel.Wm.Operations.{focus-shown}

-- Without the window `i`, the rest of a state is still shown.
pub record Drops (s : Wm) (i : ℕ) (t : Wm) : Type 0 where
  pub dropped : stack t ≡ remove i (stack s)
  pub gone : (t.windows i).visible ≡ false
  pub others : (j : ℕ) → j ≢ i → (t.windows j).visible ≡ (s.windows j).visible

Drops-IsShown : (s t : Wm) (i : ℕ) → Drops s i t → IsShown s → IsShown t
Drops-IsShown s t i d h = record {
  visible = λ j.
      ap (λ l. has l j) d.dropped ∙ has-remove (stack s) i j h.distinct ∙ elim (ℕ_discrete i j) [
        | yes here ↦ ground (arith, d.gone, ap (λ k. (t.windows k).visible) here)
        | no other ↦ ground (arith, h.visible j, d.others j (λ e. other (sym e)))
      ];
  distinct = subst Distinct (sym d.dropped) (Distinct-remove (stack s) i h.distinct);
}

-- In a list of distinct numbers, the last one put to the end is where it was.
remove-last :
    (l : List ℕ) (i : ℕ) → Distinct (l ++ i ∷ []) → remove i (l ++ i ∷ []) ++ i ∷ [] ≡ l ++ i ∷ []
remove-last [] i d = ground arith
remove-last (j ∷ l) i d = ground (arith, remove-last l i d.1, d.0, has-append l i j)

focus_top-stack : (s : Wm) → IsShown s → (stack (focus_top s) ≡ stack s) × IsStacked (focus_top s)
focus_top-stack s h = elim (Bool-cases (ltb 0 s.z_count)) [
  | inr empty ↦ rw empty (
    refl,
    record {
      shows = h;
      focus_on_top = λ i v lt.
          let z : s.z_count ≡ 0 = ground (arith, empty) in
          let nothing : has (stack s) i ≡ false = ap (λ n. has (items s.z_order 0 n) i) z in
          absurd (ground (arith, nothing, v, h.visible i));
    },
  )
  | inl some_left ↦
      let top = s.z_order (s.z_count - 1) in
      let n : s.z_count ≡ suc (s.z_count - 1) = ground (arith, some_left) in
      let whole : stack s ≡ items s.z_order 0 (s.z_count - 1) ++ top ∷ [] =
        ap (items s.z_order 0) n
        ∙ items-snoc s.z_order (s.z_count - 1) 0 (s.z_count - 1) (omega arith) in
      let f = focus-shown s top h (
        has-items s.z_order s.z_count 0 (s.z_count - 1) top (omega arith) (omega (arith, n))
          refl) in
      rw some_left (
        f.raised
            ∙ ap (λ l. remove top l ++ top ∷ []) whole
            ∙ remove-last (items s.z_order 0 (s.z_count - 1)) top (subst Distinct whole h.distinct)
            ∙ sym whole,
        f.stacked,
      )
]

unstack-windows : (i : ℕ) (s : Wm) → (unstack i s).windows ≡ s.windows
unfolding unstack
unstack-windows i s = refl

unstack-Drops : (s : Wm) (i : ℕ) → Drops s i (unstack i (hide i s))
unstack-Drops s i = record {
  dropped = unstack-stack i (hide i s);
  gone = ap (λ ws. (ws i).visible) (unstack-windows i (hide i s)) ∙ ground arith;
  others = λ j ne. ap (λ ws. (ws j).visible) (unstack-windows i (hide i s)) ∙ ground (arith, ne);
}

-- If the stack of shown windows is right, `wm_destroy_window` of a visible window takes it off the
-- stack, leaves the others in their order, and gives the focus to the one that is then on top.
pub wm_destroy_window_lem :
    (id : ℤ) (s : Wm) (i : ℕ)
    → IsStacked s
    → shown id s ≡ some i
    → (stack (wm_destroy_window id s) ≡ remove i (stack s)) × IsStacked (wm_destroy_window id s)
unfolding wm_destroy_window
wm_destroy_window_lem id s i h e =
    let (same, stacked) =
      focus_top-stack (unstack i (hide i s))
        (Drops-IsShown s (unstack i (hide i s)) i (unstack-Drops s i) h.shows) in
    rw (e, wm_destroy_window) (same ∙ (unstack-Drops s i).dropped, stacked)

-- A window that is not shown cannot be closed.
pub destroy_absent : (id : ℤ) (s : Wm) → shown id s ≡ none → wm_destroy_window id s ≡ s
unfolding wm_destroy_window
destroy_absent id s e = rw (wm_destroy_window, e) refl
