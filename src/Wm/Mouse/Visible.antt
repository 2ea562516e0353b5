-- ===== src/Wm/Mouse/Visible.antt =====
-- kernel/wm.c: mouse events and focus show and hide no window.
use dragoon_kernel.Prelude.{
  ℕ, zero, suc, ◌+◌, ◌≡◌, Bool, true, false, not, ◌&&◌, refl, ap, ◌∙◌, inl, inr, if_both,
  Option-cases, find_from,
}
use dragoon_kernel.Prelude.Int.{ℤ, pos, ◌+ℤ◌, ltb_ℤ}
use dragoon_kernel.Wm.{Wm, wm_max_windows, titlebar_h, taskbar_y, start_btn_w, wm_focus_window}
use dragoon_kernel.Wm.Invariant.{IsStacked}
use dragoon_kernel.Wm.Operations.{wm_focus_window_lem}
use dragoon_kernel.Wm.Mouse.{
  left, drag, click_taskbar, click_window, click_windows, click, on_close, hit, start_drag,
  button_width, wm_handle_mouse,
}
use dragoon_kernel.Wm.Mouse.Drag.{put-Alike, Alike-IsStacked}

-- The same windows are visible.
abbrev pub SameVisible : Wm → Wm → Type 0
SameVisible s t = (i : ℕ) → (t.windows i).visible ≡ (s.windows i).visible

abbrev Shows : Wm → ℤ × Wm → Type 0
Shows s r = SameVisible s r.1

pub focus-SameVisible : (id : ℤ) (s : Wm) → IsStacked s → SameVisible s (wm_focus_window id s)
focus-SameVisible id s h i = elim (wm_focus_window_lem id s h) [
  | inl (_, e) ↦ ap (λ t. (t.windows i).visible) e
  | inr (_, _, f) ↦ f.kept i
]

drag-SameVisible :
    (mx my : ℤ) (released : Bool) (i : ℕ) (s : Wm) → SameVisible s (drag mx my released i s)
drag-SameVisible mx my true i s = (put-Alike i _ s refl refl).visible
drag-SameVisible mx my false i s = (put-Alike i _ s refl refl).visible

taskbar-SameVisible :
    (mx : ℤ) (n i : ℕ) (bx : ℤ) (s : Wm) → IsStacked s → SameVisible s (click_taskbar mx n i bx s)
unfolding click_taskbar
taskbar-SameVisible mx zero i bx s h = λ j. refl
taskbar-SameVisible mx (suc n) i bx s h =
    if_both (SameVisible s) (not (s.windows (s.z_order i)).visible)
      (taskbar-SameVisible mx n (i + 1) bx s h)
      (if_both (SameVisible s)
        (not (ltb_ℤ mx bx) && ltb_ℤ mx (bx +ℤ button_width (s.windows (s.z_order i))))
        (focus-SameVisible (pos (s.z_order i)) s h)
        (taskbar-SameVisible mx n (i + 1) (bx +ℤ button_width (s.windows (s.z_order i)) +ℤ pos 4) s
          h))

click_window-SameVisible :
    (mx my : ℤ) (id : ℕ) (s : Wm) → IsStacked s → SameVisible s (click_window mx my id s).1
unfolding click_window
click_window-SameVisible mx my id s h =
    let t = wm_focus_window (pos id) s in
    let win = t.windows id in
    let kept = focus-SameVisible (pos id) s h in
    if_both (Shows s) (on_close mx my win) kept (
      if_both (Shows s) (ltb_ℤ my (win.y +ℤ titlebar_h +ℤ pos 1))
        (λ i. (put-Alike id (start_drag mx my win) t refl refl).visible i ∙ kept i) kept)

click_windows-SameVisible :
    (mx my : ℤ) (n : ℕ) (s : Wm) → IsStacked s → SameVisible s (click_windows mx my n s).1
unfolding click_windows
click_windows-SameVisible mx my zero s h = λ i. refl
click_windows-SameVisible mx my (suc n) s h =
    let rest = click_windows-SameVisible mx my n s h in
    let win = s.windows (s.z_order n) in
    if_both (Shows s) (not win.visible) rest (
      if_both (Shows s) (not (hit mx my win)) rest
        (click_window-SameVisible mx my (s.z_order n) s h))

click-SameVisible : (mx my : ℤ) (s : Wm) → IsStacked s → SameVisible s (click mx my s).1
unfolding click
click-SameVisible mx my s h =
    if_both (Shows s) (not (ltb_ℤ my taskbar_y))
      (if_both (Shows s) (ltb_ℤ mx start_btn_w) (λ i. refl)
        (taskbar-SameVisible mx s.z_count 0 (start_btn_w +ℤ pos 4) s h))
      (click_windows-SameVisible mx my s.z_count s h)

pub mouse-SameVisible :
    (mx my : ℤ) (buttons : ℕ) (s : Wm)
    → IsStacked s
    → SameVisible s (wm_handle_mouse mx my buttons s).1
unfolding wm_handle_mouse
mouse-SameVisible mx my buttons s h =
    let t = record s { prev_buttons = buttons } in
    let h' =
      Alike-IsStacked s t (record { order = refl; visible = λ i. refl; focused = λ i. refl }) h in
    elim (Option-cases (find_from wm_max_windows 0 (λ i. (t.windows i).dragging))) [
      | inr (i, e) ↦
          rw (e, wm_handle_mouse)
            (drag-SameVisible mx my (not (left buttons) && left s.prev_buttons) i t)
      | inl e ↦
          rw (e, wm_handle_mouse)
            (if_both (Shows s) (not (left buttons && not (left s.prev_buttons))) (λ i. refl)
              (click-SameVisible mx my t h'))
    ]
