-- ===== src/Gui/Desk.antt =====
-- kernel/gui.c: each visible window belongs to one application, and each application has one window at most.
use dragoon_kernel.Prelude.{
  ℕ, ◌-◌, ◌≡◌, ◌≢◌, ◌<◌, true, false, not, ◌&&◌, none, List, [], ◌∷◌, arith, ◌∙◌, inl, inr,
  ℕ_discrete, update, for_range, leb, ◌==◌, if◌then◌else◌, if_both, Option-cases, is_some,
}
use dragoon_kernel.Prelude.Int.{ℤ, pos, negsuc, ltb_ℤ, leb_ℤ}
use dragoon_kernel.Prelude.Loops.{for_range_inv, find_from-none}
use dragoon_kernel.Kernel.{Task}
use dragoon_kernel.Input.{key_esc}
use dragoon_kernel.Wm.{
  Wm, wm_create_window, wm_destroy_window, wm_focus_window, wm_get_window, buf_pages,
  wm_get_focused, taskbar_y, start_btn_w, wm_max_windows, wm_get_content,
}
use dragoon_kernel.Wm.Invariant.{IsStacked, wm_init-IsStacked, init-hidden}
use dragoon_kernel.Wm.Operations.{Creates, failed, created, wm_create_window_lem}
use dragoon_kernel.Wm.Mouse.{wm_handle_mouse, left}
use dragoon_kernel.Wm.Mouse.Drag.{focus-IsStacked, wm_handle_mouse-IsStacked}
use dragoon_kernel.Wm.Mouse.Visible.{focus-SameVisible, mouse-SameVisible}
use dragoon_kernel.Wm.Queries.{wm_get_window-visible}
use dragoon_kernel.Gui.Windows.{visible, destroy-visible, created-visible, stack-SameVisible}
use dragoon_kernel.Gui.{
  Gui, Events, frame, start_desktop, do_mouse, do_keys, do_key, tick_apps, click_at, heed,
  close_window, open_app, use_window, app_init, app_key, app_tick, find_existing_app_window,
  frame_of, start_menu_click, app_none,
}

-- The window manager's stack is right; a window is visible exactly if it has an application; and no two have the same.
pub record IsDesk (wm : Wm) (app_of : ℕ → ℕ) : Type 0 where
  pub stacked : IsStacked wm
  pub known : (i : ℕ) → i < 8 → visible wm i ≡ not (app_of i == 0)
  pub single : (i j : ℕ) → i < 8 → j < 8 → app_of i ≡ app_of j → app_of i ≢ 0 → i ≡ j

abbrev pub Desk : Gui → Type 0
Desk s = IsDesk s.wm s.win_app_type

-- The same windows stay visible.
kept-IsDesk :
    (s t : Wm) (f : ℕ → ℕ)
    → IsDesk s f
    → IsStacked t
    → ((i : ℕ) → i < 8 → visible t i ≡ visible s i)
    → IsDesk t f
kept-IsDesk s t f d h same = record {
  stacked = h;
  known = λ i lt. same i lt ∙ d.known i lt;
  single = d.single;
}

closed-IsDesk :
    (s : Wm) (f : ℕ → ℕ) (id : ℕ)
    → IsDesk s f
    → IsDesk (wm_destroy_window (pos id) s) (update f id 0)
closed-IsDesk s f id d =
    let (h, gone) = destroy-visible id s d.stacked in
    record {
      stacked = h;
      known = λ i lt. gone i lt ∙ ground (arith, d.known i lt);
      single = λ i j hi hj e ne. elim (ℕ_discrete id i) [
        | yes here ↦ absurd (ne (ground (arith, here)))
        | no other ↦ elim (ℕ_discrete id j) [
          | yes there ↦ absurd (ne (ground (arith, e, there)))
          | no apart ↦
              d.single i j hi hj (ground (arith, e, other, apart))
                (λ z. ne (ground (arith, z, other)))
        ]
      ];
    }

opened-IsDesk :
    (s t : Wm) (f : ℕ → ℕ) (id app : ℕ)
    → IsDesk s f
    → IsStacked t
    → ((i : ℕ) → i < 8 → visible t i ≡ (if id == i then true else visible s i))
    → app ≢ 0
    → ((i : ℕ) → i < 8 → f i ≢ app)
    → IsDesk t (update f id app)
opened-IsDesk s t f id app d h shows ne new = record {
  stacked = h;
  known = λ i lt. shows i lt ∙ ground (arith, d.known i lt, ne);
  single = λ i j hi hj e ne'. elim (ℕ_discrete id i) [
    | yes here ↦ elim (ℕ_discrete id j) [
      | yes there ↦ omega (arith, here, there)
      | no apart ↦ absurd (new j hj (ground (arith, e, here, apart)))
    ]
    | no other ↦ elim (ℕ_discrete id j) [
      | yes there ↦ absurd (new i hi (ground (arith, e, other, there)))
      | no apart ↦
          d.single i j hi hj (ground (arith, e, other, apart)) (λ z. ne' (ground (arith, z, other)))
    ]
  ];
}

close_window-Desk : (id : ℕ) (s : Gui) → Desk s → Desk (close_window id s)
unfolding close_window
close_window-Desk id s d = closed-IsDesk s.wm s.win_app_type id d

app_init-Desk : (id app now later : ℕ) (s : Gui) → Desk s → Desk (app_init id app now later s)
unfolding app_init
app_init-Desk id app now later s d = elim (Option-cases (wm_get_content (pos id) s.wm)) [
  | inl e ↦ rw (app_init, e) d
  | inr (c, e) ↦ rw (app_init, e) d
]

use_window-Desk :
    (app now later n : ℕ) (s : Gui) (r : ℤ × Wm)
    → app ≢ 0
    → ((i : ℕ) → i < 8 → s.win_app_type i ≢ app)
    → Desk s
    → Creates s.wm n r
    → Desk (use_window app now later r s)
unfolding use_window
use_window-Desk app now later n s _ ne new d (failed wm _ e h) =
    kept-IsDesk s.wm wm s.win_app_type d h (stack-SameVisible s.wm wm d.stacked h e)
use_window-Desk app now later n s _ ne new d (created id wm lt absent e h) =
    app_init-Desk id app now later
      (record s { wm = wm; win_app_type = update s.win_app_type id app })
      (opened-IsDesk s.wm wm s.win_app_type id app d h (created-visible id s.wm wm d.stacked h e) ne
        new)

-- An application without a window.
not_open :
    (app : ℕ) (s : Gui)
    → app ≢ 0
    → Desk s
    → find_existing_app_window app s ≡ none
    → (i : ℕ) → i < 8
    → s.win_app_type i ≢ app
unfolding find_existing_app_window
not_open app s ne d e i lt same =
    let miss =
      find_from-none wm_max_windows 0
        (λ j. (s.win_app_type j == app) && is_some (wm_get_window (pos j) s.wm)) e i (omega arith)
        lt in
    ground (arith, miss, same, ne, d.known i lt, wm_get_window-visible s.wm i lt)

open_app-Desk : (app now later : ℕ) (s : Gui) → app ≢ 0 → Desk s → Desk (open_app app now later s)
unfolding open_app
open_app-Desk app now later s ne d = elim (Option-cases (find_existing_app_window app s)) [
  | inr (i, e) ↦
      rw (open_app, e)
        (kept-IsDesk s.wm (wm_focus_window (pos i) s.wm) s.win_app_type d
          (focus-IsStacked (pos i) s.wm d.stacked)
          (λ j lt. focus-SameVisible (pos i) s.wm d.stacked j))
  | inl e ↦
      let f = frame_of app in
      rw (open_app, e)
        (use_window-Desk app now later (buf_pages (pos f.w) (pos f.h)) s
          (wm_create_window f.title (pos f.x) (pos f.y) (pos f.w) (pos f.h) s.wm) ne
          (not_open app s ne d e) d
          (wm_create_window_lem f.title (pos f.x) (pos f.y) (pos f.w) (pos f.h) s.wm d.stacked))
]

-- After the window manager has seen the pointer.
mouse-Desk :
    (mx my : ℤ) (mb : ℕ) (s : Gui)
    → Desk s
    → IsDesk (wm_handle_mouse mx my mb s.wm).1 s.win_app_type
mouse-Desk mx my mb s d =
    kept-IsDesk s.wm (wm_handle_mouse mx my mb s.wm).1 s.win_app_type d
      (wm_handle_mouse-IsStacked mx my mb s.wm d.stacked)
      (λ i lt. mouse-SameVisible mx my mb s.wm d.stacked i)

heed-Desk : (r : ℤ × Wm) (s : Gui) → IsDesk r.1 s.win_app_type → Desk (heed r s)
unfolding heed
heed-Desk (pos n, wm) s d = d
heed-Desk (negsuc n, wm) s d =
    if_both Desk (leb 99 n) (close_window-Desk (n - 99) (record s { wm = wm }) d) d

menu-Desk :
    (app : ℤ) (now later : ℕ) (s : Gui)
    → Desk s
    → Desk (elim app as (λ _. Gui) [
      | negsuc n ↦ s
      | pos n ↦ if n == 0 then s else open_app n now later s
    ])
menu-Desk (negsuc n) now later s d = d
menu-Desk (pos n) now later s d = elim (ℕ_discrete n 0) [
  | yes z ↦ rw z d
  | no nz ↦ let e : (n == 0) ≡ false = ground (arith, nz) in rw e (open_app-Desk n now later s nz d)
]

click_at-Desk :
    (mx my : ℤ) (mb now later : ℕ) (s : Gui) → Desk s → Desk (click_at mx my mb now later s)
unfolding click_at
click_at-Desk mx my mb now later s d =
    if_both Desk s.start_menu_open
      (menu-Desk (start_menu_click mx my) now later (record s { start_menu_open = false }) d)
      (if_both Desk (leb_ℤ taskbar_y my && ltb_ℤ mx start_btn_w) d
        (heed-Desk (wm_handle_mouse mx my mb s.wm) s (mouse-Desk mx my mb s d)))

do_mouse-Desk :
    (mx my : ℤ) (mb now later : ℕ) (s : Gui) → Desk s → Desk (do_mouse mx my mb now later s)
unfolding do_mouse
do_mouse-Desk mx my mb now later s d =
    if_both Desk (left mb && not s.prev_left)
      (click_at-Desk mx my mb now later (record s { prev_left = left mb }) d)
      (mouse-Desk mx my mb s d)

do_key-Desk : (tasks : ℕ → Task) (key : ℕ) (s : Gui) → Desk s → Desk (do_key tasks key s)
unfolding do_key app_key
do_key-Desk tasks key s d = at_window (wm_get_focused s.wm)
  where
    at_window :
        (focused : ℤ)
        → Desk (elim focused as (λ _. Gui) [
          | negsuc n ↦ s
          | pos i ↦
              if s.win_app_type i == app_none
              then s
              else if key == key_esc
              then close_window i s
              else app_key tasks i key s
        ])
    at_window (negsuc n) = d
    at_window (pos i) =
        if_both Desk (s.win_app_type i == app_none) d
          (if_both Desk (key == key_esc) (close_window-Desk i s d) d)

do_keys-Desk : (tasks : ℕ → Task) (keys : List ℕ) (s : Gui) → Desk s → Desk (do_keys tasks keys s)
unfolding do_keys
do_keys-Desk tasks [] s d = d
do_keys-Desk tasks (key ∷ keys) s d =
    do_keys-Desk tasks keys (do_key tasks key s) (do_key-Desk tasks key s d)

tick_apps-Desk : (clock : ℕ → ℕ) (s : Gui) → Desk s → Desk (tick_apps clock s)
unfolding tick_apps app_tick
tick_apps-Desk clock s d =
    for_range_inv (λ _ t. Desk t)
      (λ i t.
        if not (t.win_app_type i == app_none) && is_some (wm_get_window (pos i) t.wm)
        then app_tick (clock i) i t
        else t)
      wm_max_windows 0 wm_max_windows s (omega arith)
      (λ i t lo hi e.
        if_both Desk (not (t.win_app_type i == app_none) && is_some (wm_get_window (pos i) t.wm)) e
          e)
      d

frame-Desk : (tasks : ℕ → Task) (e : Events) (s : Gui) → Desk s → Desk (frame tasks e s)
unfolding frame
frame-Desk tasks e s d =
    let t = do_mouse e.mx e.my e.mb e.now e.later s in
    tick_apps-Desk e.clock (do_keys tasks e.keys t)
      (do_keys-Desk tasks e.keys t (do_mouse-Desk e.mx e.my e.mb e.now e.later s d))

start-Desk : (s : Gui) → Desk (start_desktop s)
unfolding start_desktop
start-Desk s = record {
  stacked = wm_init-IsStacked s.wm;
  known = λ i lt. ground (arith, init-hidden s.wm i lt, none_open i lt);
  single = λ i j hi hj e ne. absurd (ne (none_open i hi));
}
  where
    none_open : (i : ℕ) → i < 8 → for_range 8 0 (λ j f. update f j app_none) s.win_app_type i ≡ 0
    none_open =
        for_range_inv (λ n f. (j : ℕ) → j < n → f j ≡ 0) (λ j f. update f j app_none) 8 0 8
          s.win_app_type (omega arith) (λ n f lo hi h j lt. ground (arith, h j))
          (λ j lt. absurd (omega arith))

-- The frames of the main loop, one after the other.
pub frames : (ℕ → Task) → List Events → Gui → Gui
frames tasks [] s = s
frames tasks (e ∷ l) s = frames tasks l (frame tasks e s)

-- After any number of frames of the desktop, whatever the pointer, the keys and the clock do: the
-- stack of shown windows is right; each of the 8 windows is visible exactly if it has an application;
-- and no application has two windows.
pub frames_lem :
    (tasks : ℕ → Task) (l : List Events) (s : Gui) → Desk (frames tasks l (start_desktop s))
unfolding frames
frames_lem tasks l s = along l (start_desktop s) (start-Desk s)
  where
    along : (l : List Events) (s : Gui) → Desk s → Desk (frames tasks l s)
    along [] s d = d
    along (e ∷ l) s d = along l (frame tasks e s) (frame-Desk tasks e s d)
