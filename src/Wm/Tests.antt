-- ===== src/Wm/Tests.antt =====
-- Runs of the window manager, and its theorems at concrete states.
use dragoon_kernel.Prelude.{
  ℕ, ◌*◌, ◌≡◌, ◌<◌, ◌⊎◌, false, none, [], ◌∷◌, ◌==◌, ltb, remove, arith, refl, find_from,
  if◌then◌else◌, ◌≢◌,
}
use dragoon_kernel.Prelude.Int.{negsuc, pos, minus_one, ◌-ℤ◌}
use dragoon_kernel.Mm.{Mm}
use dragoon_kernel.Wm.{Wm, WmWindow, wm_create_window, wm_destroy_window, buf_pages}
use dragoon_kernel.Wm.Stack.{stack}
use dragoon_kernel.Wm.Invariant.{IsStacked}
use dragoon_kernel.Wm.Operations.{Creates, wm_create_window_lem}
use dragoon_kernel.Wm.Destroy.{wm_destroy_window_lem}
use dragoon_kernel.Wm.Mouse.{wm_handle_mouse}
use dragoon_kernel.Wm.Mouse.Drag.{StandsAt, wm_handle_mouse-drag}
use dragoon_kernel.Wm.Mouse.Click.{Topmost, Clicks, under, wm_handle_mouse-click}

-- Every page below 8 is in use, the others are free.
abbrev memory_map : Mm
memory_map = record {
  page_bitmap = λ i. if◌then◌else◌ (i == 0) 255 0;
  total_pages = 32768;
  used_pages = 8;
  memory = λ a. a;
}

abbrev win : ℕ → WmWindow
win i = record {
  x = pos (10 * i);
  y = pos (20 * i);
  w = pos 102;
  h = pos 72;
  title = 65 ∷ [];
  content = none;
  content_w = pos 100;
  content_h = pos 50;
  visible = ltb i 2;
  focused = i == 1;
  dragging = false;
  drag_ox = pos 0;
  drag_oy = pos 0;
  needs_redraw = false;
}

-- Two windows, the second in front of the first.
abbrev desk : Wm
desk = record { windows = win; z_order = λ i. i; z_count = 2; prev_buttons = 0; mm = memory_map }

desk-IsStacked : IsStacked desk
desk-IsStacked = record {
  shows = record { visible = λ i. ground arith; distinct = ground arith };
  focus_on_top = λ i v lt. ground arith;
}

wm_create_window_example :
    Creates desk
      (buf_pages (pos 100) (pos 50))
      (wm_create_window (65 ∷ []) (pos 5) (pos 6) (pos 100) (pos 50) desk)
wm_create_window_example =
    wm_create_window_lem (65 ∷ []) (pos 5) (pos 6) (pos 100) (pos 50) desk desk-IsStacked

wm_destroy_window_example :
    (stack (wm_destroy_window (pos 1) desk) ≡ remove 1 (0 ∷ 1 ∷ []))
    × IsStacked (wm_destroy_window (pos 1) desk)
wm_destroy_window_example = wm_destroy_window_lem (pos 1) desk 1 desk-IsStacked refl

wm_handle_mouse_click_example :
    let r = wm_handle_mouse (pos 15) (pos 25) 1 desk in
    (((p : ℕ) → p < 2 → under (pos 15) (pos 25) desk p ≡ false)
      × (r ≡ (minus_one, record desk { prev_buttons = 1 })))
    ⊎ ((p : ℕ) × Topmost (pos 15) (pos 25) desk 2 p × Clicks (pos 15) (pos 25) p desk r)
unfolding find_from
wm_handle_mouse_click_example =
    wm_handle_mouse-click (pos 15) (pos 25) 1 desk desk-IsStacked refl refl refl refl

-- The first window, on its way with the pointer.
abbrev dragged : Wm
dragged = record desk {
  windows = λ i. record (win i) { dragging = i == 0; drag_ox = pos 3; drag_oy = pos 4 };
  prev_buttons = 1;
}

wm_handle_mouse_drag_example :
    let (r, t) = wm_handle_mouse (pos 100) (pos 2) 1 dragged in
    (r ≡ minus_one)
    × ((t.windows 0).x ≡ pos 97)
    × StandsAt (negsuc 1) (t.windows 0).y
    × ((j : ℕ) → j ≢ 0 → t.windows j ≡ dragged.windows j)
unfolding find_from ◌-ℤ◌
wm_handle_mouse_drag_example = wm_handle_mouse-drag (pos 100) (pos 2) 1 dragged 0 refl refl
