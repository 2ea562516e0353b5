-- ===== src/Gui/Windows.antt =====
-- kernel/gui.c: what the window manager's calls do to the visible windows, as the shell needs it.
use dragoon_kernel.Prelude.{
  ℕ, ◌≡◌, ◌<◌, Bool, true, false, none, if◌then◌else◌, has, arith, ap, sym, ◌∙◌, inl, inr,
  Option-cases, ℕ_discrete, has-remove, has-append, ◌++◌, [], ◌∷◌, ◌==◌, subst,
}
use dragoon_kernel.Prelude.Int.{pos}
use dragoon_kernel.Wm.{Wm, shown, wm_destroy_window}
use dragoon_kernel.Wm.Stack.{stack}
use dragoon_kernel.Wm.Invariant.{IsStacked}
use dragoon_kernel.Wm.Destroy.{wm_destroy_window_lem, destroy_absent}

abbrev pub visible : Wm → ℕ → Bool
visible s i = (s.windows i).visible

-- A window is visible exactly if the stack has it.
pub stack-visible : (s : Wm) (i : ℕ) → IsStacked s → i < 8 → visible s i ≡ has (stack s) i
stack-visible s i h lt = sym (h.shows.visible i ∙ ground (arith, lt))

-- Closing a window hides it, and no other.
pub destroy-visible :
    (id : ℕ) (s : Wm)
    → IsStacked s
    → IsStacked (wm_destroy_window (pos id) s)
      × ((i : ℕ)
          → i < 8
          → visible (wm_destroy_window (pos id) s) i ≡ (if id == i then false else visible s i))
destroy-visible id s h = elim (Option-cases (shown (pos id) s)) [
  | inl e ↦
      let same = destroy_absent (pos id) s e in
      (subst IsStacked (sym same) h, λ i lt. ap (λ t. visible t i) same ∙ hidden i e lt)
  | inr (j, e) ↦
      let (st, h') = wm_destroy_window_lem (pos id) s j h e in
      let same : j ≡ id = ground (arith, e) in
      (
        h',
        λ i lt.
            stack-visible (wm_destroy_window (pos id) s) i h' lt
            ∙ ap (λ l. has l i) st
            ∙ has-remove (stack s) j i h.shows.distinct
            ∙ ap (λ b. if j == i then false else b) (sym (stack-visible s i h lt))
            ∙ ap (λ k. if k == i then false else visible s i) same,
      )
]
  where
    hidden :
        (i : ℕ)
        → shown (pos id) s ≡ none
        → i < 8
        → visible s i ≡ (if id == i then false else visible s i)
    hidden i e lt = elim (ℕ_discrete id i) [
      | yes here ↦
          let off : visible s id ≡ false = ground (arith, e, here, lt) in
          sym (ap (visible s) here) ∙ off ∙ ground (arith, here)
      | no other ↦ ground (arith, other)
    ]

-- A new window is visible, and the others are as they were.
pub created-visible :
    (id : ℕ) (s t : Wm)
    → IsStacked s
    → IsStacked t
    → stack t ≡ stack s ++ id ∷ []
    → (i : ℕ) → i < 8
    → visible t i ≡ (if id == i then true else visible s i)
created-visible id s t h h' e i lt =
    stack-visible t i h' lt
    ∙ ap (λ l. has l i) e
    ∙ has-append (stack s) id i
    ∙ ap (λ b. if b then true else id == i) (sym (stack-visible s i h lt))
    ∙ ground arith

-- Where the stack is the same, so are the visible windows.
pub stack-SameVisible :
    (s t : Wm)
    → IsStacked s
    → IsStacked t
    → stack t ≡ stack s
    → (i : ℕ) → i < 8
    → visible t i ≡ visible s i
stack-SameVisible s t h h' e i lt =
    stack-visible t i h' lt ∙ ap (λ l. has l i) e ∙ sym (stack-visible s i h lt)
