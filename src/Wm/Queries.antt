-- ===== src/Wm/Queries.antt =====
-- The focused window and the number of windows, from the stack.
use dragoon_kernel.Prelude.{
  ℕ, ◌+◌, ◌≡◌, true, List, [], ◌∷◌, ◌&&◌, if◌then◌else◌, has, arith, refl, ap, sym, ◌∙◌, ◌⊎◌, inl,
  inr, Option-cases, find_from, length, count-has, ◌<◌, is_some,
}
use dragoon_kernel.Prelude.Int.{ℤ, pos, minus_one}
use dragoon_kernel.Prelude.Count.{count_below, count_below_ext}
use dragoon_kernel.Prelude.Loops.{find_from-some, find_from-none, for_range_inv}
use dragoon_kernel.Wm.Stack.{stack}
use dragoon_kernel.Wm.Invariant.{IsStacked, is_top}
use dragoon_kernel.Wm.{Wm, wm_max_windows, wm_get_focused, wm_window_count, wm_get_window}

-- The last of a list, or -1.
abbrev pub top : List ℕ → ℤ
top [] = minus_one
top (x ∷ []) = pos x
top (x ∷ y ∷ l) = top (y ∷ l)

top-is_top : (l : List ℕ) (i : ℕ) → is_top l i ≡ true → top l ≡ pos i
top-is_top [] i e = absurd (ground (arith, e))
top-is_top (x ∷ []) i e = ground (arith, e)
top-is_top (x ∷ y ∷ l) i e = top-is_top (y ∷ l) i e

top-cases : (l : List ℕ) → (l ≡ []) ⊎ ((i : ℕ) × (has l i ≡ true) × (is_top l i ≡ true))
top-cases [] = inl refl
top-cases (x ∷ []) = inr (x, ground arith, ground arith)
top-cases (x ∷ y ∷ l) = elim (top-cases (y ∷ l)) [
  | inl e ↦ absurd (grind (arith, e))
  | inr (i, m, t) ↦ inr (i, ground (arith, m), t)
]

-- If the stack of shown windows is right, `wm_get_focused` is the window on top of it, or -1 when
-- there is none.
pub wm_get_focused_lem : (s : Wm) → IsStacked s → wm_get_focused s ≡ top (stack s)
unfolding wm_get_focused
wm_get_focused_lem s h =
    elim (Option-cases
      (find_from wm_max_windows 0 (λ i. (s.windows i).visible && (s.windows i).focused))) [
        | inr (i, e) ↦
            let f =
              find_from-some wm_max_windows 0 (λ j. (s.windows j).visible && (s.windows j).focused)
                i e in
            let on : is_top (stack s) i ≡ true =
              ground (arith, f.passes, f.below, h.focus_on_top i) in
            rw (e, wm_get_focused) (sym (top-is_top (stack s) i on))
        | inl e ↦ elim (top-cases (stack s)) [
          | inl empty ↦ rw (e, wm_get_focused) (sym (ap top empty))
          | inr (i, m, t) ↦
              let off =
                find_from-none wm_max_windows 0
                  (λ j. (s.windows j).visible && (s.windows j).focused) e i in
              absurd (ground (arith, off, h.shows.visible i, m, h.focus_on_top i, t))
        ]
      ]

-- The count of windows is the height of the stack.
pub wm_window_count_lem : (s : Wm) → IsStacked s → wm_window_count s ≡ length (stack s)
unfolding wm_window_count count_below
wm_window_count_lem s h =
    for_range_inv (λ i count. count ≡ count_below i (λ j. (s.windows j).visible))
      (λ i count. if (s.windows i).visible then count + 1 else count) wm_max_windows 0
      wm_max_windows 0 (omega arith) (λ i count lo hi e. ground (arith, e)) refl
    ∙ count_below_ext wm_max_windows (λ j. (s.windows j).visible) (has (stack s))
        (λ j lt. ground (arith, h.shows.visible j))
    ∙ count-has wm_max_windows (stack s) h.shows.distinct
        (λ j m. ground (arith, h.shows.visible j, m))

-- `wm_get_window` finds the visible windows.
pub wm_get_window-visible :
    (s : Wm) (i : ℕ) → i < 8 → is_some (wm_get_window (pos i) s) ≡ (s.windows i).visible
unfolding wm_get_window
wm_get_window-visible s i lt = ground arith
