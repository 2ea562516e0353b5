-- ===== src/Wm/Mouse/Click.antt =====
-- The window that a click reaches is the topmost one under the pointer.
use dragoon_kernel.Prelude.{
  ℕ, zero, suc, ◌≡◌, ◌<◌, Bool, true, false, ◌&&◌, arith, refl, update_self, ap, sym, subst, ◌∙◌,
  not, ◌||◌, if◌then◌else◌, [], ◌∷◌, ◌++◌, has, remove, ◌+◌, some, ◌⊎◌, inl, inr, Bool-cases, none,
  ℕ_discrete, find_from,
}
use dragoon_kernel.Prelude.Int.{ℤ, pos, negsuc, minus_one, ltb_ℤ, ◌+ℤ◌, ◌-ℤ◌}
use dragoon_kernel.Wm.{Wm, WmWindow, wm_max_windows, taskbar_y, put, focus, wm_focus_window}
use dragoon_kernel.Wm.Stack.{stack, has-items}
use dragoon_kernel.Wm.Invariant.{IsStacked, Focuses, focus-Focuses, focus-window}
use dragoon_kernel.Wm.Operations.{shown-visible}
use dragoon_kernel.Wm.Mouse.Drag.{Alike-IsStacked, put-Alike}
use dragoon_kernel.Wm.Mouse.{
  left, hit, on_close, start_drag, click, click_window, click_windows, wm_handle_mouse,
}

-- Is `p` one of the `size` coordinates from `lo` on?
abbrev pub is_within : ℤ → ℤ → ℤ → Bool
is_within lo size p = not (ltb_ℤ p lo) && ltb_ℤ p (lo +ℤ size)

-- Is the pointer in the rectangle of the window?
abbrev pub is_inside : ℤ → ℤ → WmWindow → Bool
is_inside mx my win = is_within win.x win.w mx && is_within win.y win.h my

-- Is it on the button of 16 by 16 pixels in the window's upper right corner?
abbrev pub is_on_button : ℤ → ℤ → WmWindow → Bool
is_on_button mx my win =
    is_within (win.x +ℤ win.w -ℤ pos 16 -ℤ pos 2) (pos 16) mx
    && is_within (win.y +ℤ pos 2) (pos 16) my

-- Is the `p`th window of the stack visible and under the pointer?
abbrev pub under : ℤ → ℤ → Wm → ℕ → Bool
under mx my s p = (s.windows (s.z_order p)).visible && is_inside mx my (s.windows (s.z_order p))

outside_bits : (a b c d : Bool) → not (a || not b || c || not d) ≡ ((not a && b) && (not c && d))
outside_bits a b c d = ground arith

hit_lem : (mx my : ℤ) (win : WmWindow) → hit mx my win ≡ is_inside mx my win
hit_lem mx my win =
    outside_bits (ltb_ℤ mx win.x) (ltb_ℤ mx (win.x +ℤ win.w)) (ltb_ℤ my win.y)
      (ltb_ℤ my (win.y +ℤ win.h))

plus_minus : (y : ℤ) → y +ℤ pos 2 +ℤ pos 20 -ℤ pos 4 ≡ y +ℤ pos 2 +ℤ pos 16
unfolding ◌+ℤ◌ ◌-ℤ◌
plus_minus (pos n) = ground arith
plus_minus (negsuc n) = ground arith

both_bits : (a b c d : Bool) → (not a && b && not c && d) ≡ ((not a && b) && (not c && d))
both_bits a b c d = ground arith

on_close_lem : (mx my : ℤ) (win : WmWindow) → on_close mx my win ≡ is_on_button mx my win
on_close_lem mx my win =
    let cx = win.x +ℤ win.w -ℤ pos 16 -ℤ pos 2 in
    let cy = win.y +ℤ pos 2 in
    both_bits (ltb_ℤ mx cx) (ltb_ℤ mx (cx +ℤ pos 16)) (ltb_ℤ my cy)
      (ltb_ℤ my (cy +ℤ pos 20 -ℤ pos 4))
    ∙ ap (λ z. is_within cx (pos 16) mx && (not (ltb_ℤ my cy) && ltb_ℤ my z)) (plus_minus win.y)

-- The `p`th is the topmost of the lowest `n` that is.
pub record Topmost (mx my : ℤ) (s : Wm) (n p : ℕ) : Type 0 where
  pub below : p < n
  pub here : under mx my s p ≡ true
  pub above : (j : ℕ) → p < j → j < n → under mx my s j ≡ false

click_windows_lem :
    (mx my : ℤ) (n : ℕ) (s : Wm)
    → (((j : ℕ) → j < n → under mx my s j ≡ false) × (click_windows mx my n s ≡ (minus_one, s)))
      ⊎ ((p : ℕ) × Topmost mx my s n p
          × (click_windows mx my n s ≡ click_window mx my (s.z_order p) s))
unfolding click_windows
click_windows_lem mx my zero s = inl (λ j lt. absurd (omega arith), refl)
click_windows_lem mx my (suc n) s = elim (Bool-cases (under mx my s n)) [
  | inl on ↦ inr (
    n,
    record { below = omega arith; here = on; above = λ j lo hi. absurd (omega arith) },
    ground (arith, on, hit_lem mx my (s.windows (s.z_order n))),
  )
  | inr off ↦
      let skip : click_windows mx my (suc n) s ≡ click_windows mx my n s =
        ground (arith, off, hit_lem mx my (s.windows (s.z_order n))) in
      elim (click_windows_lem mx my n s) [
        | inl (clear, e) ↦ inl (
          λ j lt. elim (ℕ_discrete j n) [
            | yes at ↦ ap (under mx my s) at ∙ off
            | no other ↦ clear j (omega arith)
          ],
          skip ∙ e,
        )
        | inr (p, t, e) ↦ inr (
          p,
          record {
            below = omega (arith, t.below);
            here = t.here;
            above = λ j lo hi. elim (ℕ_discrete j n) [
              | yes at ↦ ap (under mx my s) at ∙ off
              | no other ↦ t.above j lo (omega arith)
            ];
          },
          skip ∙ e,
        )
      ]
]

-- What a click does to the window `id` of `s`: it comes on top with the focus; on its close button, the
-- result is -(id + 100); else on its title bar, the window is taken where the pointer is, and the
-- result is -1; else the result is `id`.
pub record Clicks (mx my : ℤ) (id : ℕ) (s : Wm) (r : ℤ × Wm) : Type 0 where
  pub raised : stack r.1 ≡ remove id (stack s) ++ id ∷ []
  pub stacked : IsStacked r.1
  pub outcome :
      let win = s.windows id in
      ((is_on_button mx my win ≡ true)
        × (r.0 ≡ negsuc (id + 99))
        × (r.1.windows id ≡ record win { focused = true }))
      ⊎ (((is_on_button mx my win ≡ false)
            × (ltb_ℤ my (win.y +ℤ pos 21) ≡ true)
            × (r.0 ≡ negsuc 0)
            × (r.1.windows id ≡ record win {
              focused = true;
              dragging = true;
              drag_ox = mx -ℤ win.x;
              drag_oy = my -ℤ win.y;
            }))
          ⊎ ((is_on_button mx my win ≡ false)
              × (ltb_ℤ my (win.y +ℤ pos 21) ≡ false)
              × (r.0 ≡ pos id)
              × (r.1.windows id ≡ record win { focused = true })))

-- `click_window` on the window as it is with the focus.
abbrev on_window : ℤ → ℤ → ℕ → WmWindow → Wm → ℤ × Wm
on_window mx my id win t =
    if on_close mx my win
    then (negsuc (id + 99), t)
    else if ltb_ℤ my (win.y +ℤ pos 20 +ℤ pos 1)
    then (minus_one, put id (start_drag mx my win) t)
    else (pos id, t)

bar_end : (y : ℤ) → y +ℤ pos 20 +ℤ pos 1 ≡ y +ℤ pos 21
unfolding ◌+ℤ◌
bar_end (pos n) = ground arith
bar_end (negsuc n) = ground arith

module _ (mx my : ℤ) (id : ℕ) (s t : Wm) (f : Focuses s id t)
    (e : t.windows id ≡ record (s.windows id) { focused = true }) where
  lit : WmWindow
  lit = record (s.windows id) { focused = true }

  by_place :
      (close bar : Bool)
      → is_on_button mx my (s.windows id) ≡ close
      → ltb_ℤ my ((s.windows id).y +ℤ pos 21) ≡ bar
      → Clicks mx my id s (
          if close
          then (negsuc (id + 99), t)
          else if bar
          then (minus_one, put id (start_drag mx my lit) t)
          else (pos id, t))
  unfolding lit
  by_place true bar c b = record {
    raised = f.raised;
    stacked = f.stacked;
    outcome = inl (c, refl, e);
  }
  by_place false true c b = record {
    raised = f.raised;
    stacked =
        Alike-IsStacked t (put id (start_drag mx my lit) t)
          (put-Alike id (start_drag mx my lit) t (ap (λ w. w.visible) (sym e))
            (ap (λ w. w.focused) (sym e)))
          f.stacked;
    outcome = inr (inl (c, b, refl, update_self t.windows (start_drag mx my lit) id));
  }
  by_place false false c b = record {
    raised = f.raised;
    stacked = f.stacked;
    outcome = inr (inr (c, b, refl, e));
  }

  on_window-Clicks : Clicks mx my id s (on_window mx my id (t.windows id) t)
  unfolding lit
  on_window-Clicks =
      subst (λ w. Clicks mx my id s (on_window mx my id w t)) (sym e)
        (by_place (on_close mx my (s.windows id)) (ltb_ℤ my ((s.windows id).y +ℤ pos 20 +ℤ pos 1))
          (sym (on_close_lem mx my (s.windows id)))
          (ap (ltb_ℤ my) (sym (bar_end (s.windows id).y))))

click_window_lem :
    (mx my : ℤ) (id : ℕ) (s : Wm)
    → IsStacked s
    → has (stack s) id ≡ true
    → Clicks mx my id s (click_window mx my id s)
unfolding click_window wm_focus_window
click_window_lem mx my id s h m =
    let e = shown-visible s id h.shows m in
    let focused : wm_focus_window (pos id) s ≡ focus id s =
      ap (λ o. elim o [ none ↦ s | some i ↦ focus i s ]) e in
    subst (λ t. Clicks mx my id s (on_window mx my id (t.windows id) t)) (sym focused)
      (on_window-Clicks mx my id s (focus id s) (focus-Focuses id s h.shows m) (focus-window id s))

-- If the stack of shown windows is right, no window is being dragged and the left button goes down
-- above the taskbar, the click goes to the topmost visible window whose rectangle holds the pointer;
-- if there is none, the result is -1 and only the remembered buttons change. That window comes to the
-- top of the stack with the focus, and the stack is right. On the 16 by 16 pixels of its close button
-- the result is -(id + 100); otherwise less than 21 pixels from its upper edge the result is -1 and
-- the window is being dragged, with the pointer's offsets in it; otherwise the result is its id.
pub wm_handle_mouse-click :
    (mx my : ℤ) (buttons : ℕ) (s : Wm)
    → IsStacked s
    → find_from wm_max_windows 0 (λ j. (s.windows j).dragging) ≡ none
    → left buttons ≡ true
    → left s.prev_buttons ≡ false
    → ltb_ℤ my taskbar_y ≡ true
    → let r = wm_handle_mouse mx my buttons s in
      (((p : ℕ) → p < s.z_count → under mx my s p ≡ false)
        × (r ≡ (minus_one, record s { prev_buttons = buttons })))
      ⊎ ((p : ℕ) × Topmost mx my s s.z_count p × Clicks mx my (s.z_order p) s r)
unfolding wm_handle_mouse click
wm_handle_mouse-click mx my buttons s h e l was above =
    let t = record s { prev_buttons = buttons } in
    let run : wm_handle_mouse mx my buttons s ≡ click_windows mx my s.z_count t =
      rw (e, wm_handle_mouse, l, was, above) refl in
    elim (click_windows_lem mx my s.z_count t) [
      | inl (clear, c) ↦ inl (clear, run ∙ c)
      | inr (p, m, c) ↦
          let h' =
            Alike-IsStacked s t (record { order = refl; visible = λ i. refl; focused = λ i. refl })
              h in
          let k = click_window_lem mx my (s.z_order p) t h' (
            has-items s.z_order s.z_count 0 p (s.z_order p) (omega arith) (omega (arith, m.below))
              refl) in
          inr (
            p,
            record { below = m.below; here = m.here; above = m.above },
            subst (Clicks mx my (s.z_order p) s) (sym (run ∙ c))
                (record { raised = k.raised; stacked = k.stacked; outcome = k.outcome }),
          )
    ]
