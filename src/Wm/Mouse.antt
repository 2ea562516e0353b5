-- ===== src/Wm/Mouse.antt =====
-- kernel/wm.c: wm_handle_mouse.
pub mod Drag
pub mod Click
pub mod Visible
use dragoon_kernel.Prelude.{
  ℕ, zero, suc, ◌+◌, ◌-◌, ◌*◌, ◌%◌, Bool, true, false, not, ◌&&◌, ◌||◌, Option, none, some, List,
  update, ◌==◌, if◌then◌else◌, find_from, length,
}
use dragoon_kernel.Prelude.Int.{ℤ, pos, negsuc, minus_one, ◌+ℤ◌, ◌-ℤ◌, ltb_ℤ}
use dragoon_kernel.Wm.{
  Wm, WmWindow, wm_max_windows, titlebar_h, close_btn_w, start_btn_w, taskbar_y, put,
  wm_focus_window,
}

-- `buttons & MOUSE_BTN_LEFT`.
abbrev pub left : ℕ → Bool
left buttons = buttons % 2 == 1

-- `FB_HEIGHT - TASKBAR_H - TITLEBAR_H`.
abbrev pub lowest_y : ℤ
lowest_y = pos 436

-- The two corrections of `y` that keep the title bar on the screen.
abbrev pub clamp_y : ℤ → ℤ
clamp_y y =
    let y' = if ltb_ℤ y (pos 0) then pos 0 else y in if ltb_ℤ lowest_y y' then lowest_y else y'

-- The window `i`, which is being dragged, is let go or follows the pointer.
abbrev pub drag : ℤ → ℤ → Bool → ℕ → Wm → Wm
drag mx my released i s =
    let win = s.windows i in
    if released
    then put i (record win { dragging = false }) s
    else put i (record win { x = mx -ℤ win.drag_ox; y = clamp_y (my -ℤ win.drag_oy) }) s

abbrev pub button_width : WmWindow → ℤ
button_width win = pos ((length win.title + 2) * 8 + 8)

-- The loop over the taskbar's buttons: `n` windows are left from the `i`th on, and the next button starts at `bx`.
pub click_taskbar : ℤ → ℕ → ℕ → ℤ → Wm → Wm
click_taskbar mx zero i bx s = s
click_taskbar mx (suc n) i bx s =
    let id = s.z_order i in
    let win = s.windows id in
    let bw = button_width win in
    if not win.visible
    then click_taskbar mx n (i + 1) bx s
    else if not (ltb_ℤ mx bx) && ltb_ℤ mx (bx +ℤ bw)
    then wm_focus_window (pos id) s
    else click_taskbar mx n (i + 1) (bx +ℤ bw +ℤ pos 4) s

abbrev pub hit : ℤ → ℤ → WmWindow → Bool
hit mx my win = not (
    ltb_ℤ mx win.x
    || not (ltb_ℤ mx (win.x +ℤ win.w))
    || ltb_ℤ my win.y
    || not (ltb_ℤ my (win.y +ℤ win.h)))

abbrev pub on_close : ℤ → ℤ → WmWindow → Bool
on_close mx my win =
    let cx = win.x +ℤ win.w -ℤ close_btn_w -ℤ pos 2 in
    let cy = win.y +ℤ pos 2 in
    not (ltb_ℤ mx cx)
    && ltb_ℤ mx (cx +ℤ close_btn_w)
    && not (ltb_ℤ my cy)
    && ltb_ℤ my (cy +ℤ titlebar_h -ℤ pos 4)

abbrev pub start_drag : ℤ → ℤ → WmWindow → WmWindow
start_drag mx my win = record win { dragging = true; drag_ox = mx -ℤ win.x; drag_oy = my -ℤ win.y }

-- A click on the window `id`: the close signal is `-(id + 100)`.
pub click_window : ℤ → ℤ → ℕ → Wm → ℤ × Wm
click_window mx my id s =
    let t = wm_focus_window (pos id) s in
    let win = t.windows id in
    if on_close mx my win
    then (negsuc (id + 99), t)
    else if ltb_ℤ my (win.y +ℤ titlebar_h +ℤ pos 1)
    then (minus_one, put id (start_drag mx my win) t)
    else (pos id, t)

-- The loop over the lowest `n` windows of the stack, from the top down.
pub click_windows : ℤ → ℤ → ℕ → Wm → ℤ × Wm
click_windows mx my zero s = (minus_one, s)
click_windows mx my (suc i) s =
    let id = s.z_order i in
    let win = s.windows id in
    let below = click_windows mx my i s in
    if not win.visible
    then below
    else if not (hit mx my win)
    then below
    else click_window mx my id s

-- What a click does where no window is being dragged.
pub click : ℤ → ℤ → Wm → ℤ × Wm
click mx my s =
    if not (ltb_ℤ my taskbar_y)
    then if ltb_ℤ mx start_btn_w
      then (negsuc 1, s)
      else (minus_one, click_taskbar mx s.z_count 0 (start_btn_w +ℤ pos 4) s)
    else click_windows mx my s.z_count s

pub wm_handle_mouse : ℤ → ℤ → ℕ → Wm → ℤ × Wm
wm_handle_mouse mx my buttons s =
    let clicked = left buttons && not (left s.prev_buttons) in
    let released = not (left buttons) && left s.prev_buttons in
    let t = record s { prev_buttons = buttons } in
    elim (find_from wm_max_windows 0 (λ i. (t.windows i).dragging)) [
      | some i ↦ (minus_one, drag mx my released i t)
      | none ↦ if not clicked then (minus_one, t) else click mx my t
    ]
