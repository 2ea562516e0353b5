-- ===== src/Gui.antt =====
-- kernel/gui.c: the desktop shell, without its drawing. A frame takes the pointer's place and buttons, the keys
-- that `input_poll` answers before it has no more, and what the clock answers to each call.
pub mod Texts
pub mod Console
pub mod Windows
pub mod Desk
mod Tests
use dragoon_kernel.Prelude.{
  ℕ, zero, suc, ◌+◌, ◌-◌, ◌*◌, ◌/◌, ◌%◌, Bool, true, false, not, ◌&&◌, ◌||◌, Option, none, some,
  List, [], ◌∷◌, update, ltb, leb, ◌==◌, if◌then◌else◌, find_from, for_range, is_some,
}
use dragoon_kernel.Prelude.Int.{ℤ, pos, negsuc, minus_one, ◌+ℤ◌, ◌-ℤ◌, ltb_ℤ, leb_ℤ}
use dragoon_kernel.Kernel.{Task}
use dragoon_kernel.Mm.{mm_get_free_pages}
use dragoon_kernel.Input.{key_esc}
use dragoon_kernel.Wm.{
  Wm, wm_init, wm_max_windows, wm_create_window, wm_destroy_window, wm_focus_window, wm_get_window,
  wm_get_content, wm_get_content_w, wm_get_content_h, wm_get_focused, taskbar_y, start_btn_w,
}
use dragoon_kernel.Wm.Mouse.{wm_handle_mouse, left}
use dragoon_kernel.Snake.{Snake, snake_init, snake_key, snake_tick}
use dragoon_kernel.Tetris.{Tetris, tetris_init, tetris_key, tetris_tick}
use dragoon_kernel.Raycaster.{Raycaster, raycaster_init, raycaster_key}
use dragoon_kernel.Breakout.{Breakout, breakout_init, breakout_key, breakout_tick}
use dragoon_kernel.Gui.Console.{Terminal, term_open, term_handle_key}

abbrev pub app_none : ℕ
app_none = 0

abbrev pub app_terminal : ℕ
app_terminal = 1

abbrev pub app_snake : ℕ
app_snake = 2

abbrev pub app_tetris : ℕ
app_tetris = 3

abbrev pub app_raycaster : ℕ
app_raycaster = 4

abbrev pub app_breakout : ℕ
app_breakout = 5

-- The state of the applications.
pub record Apps : Type 0 where
  pub terminal : Terminal
  pub snake : Snake
  pub tetris : Tetris
  pub raycaster : Raycaster
  pub breakout : Breakout

-- `prev_left` is a local variable of `gui_main`.
pub record Gui : Type 0 where
  pub wm : Wm
  pub win_app_type : ℕ → ℕ
  pub start_menu_open : Bool
  pub term_win_id : ℤ
  pub prev_left : Bool
  pub apps : Apps

-- `MENU_ITEMS`, and the place of the menu: `FB_HEIGHT - TASKBAR_H - menu_h` is 332.
abbrev pub menu_items : ℕ
menu_items = 5

abbrev pub menu_w : ℤ
menu_w = pos 140

abbrev pub menu_y : ℕ
menu_y = 332

abbrev pub menu_item_h : ℕ
menu_item_h = 24

-- The entry of the menu at the height `my`.
abbrev pub on_item : ℤ → ℕ → Bool
on_item my i =
    let iy = menu_y + 2 + i * menu_item_h in leb_ℤ (pos iy) my && ltb_ℤ my (pos (iy + menu_item_h))

-- The application that the entry stands for (`menu_app_types`) is one more than the entry's number. The
-- caller has seen that the menu is open; it is closed in every case.
pub start_menu_click : ℤ → ℤ → ℤ
start_menu_click mx my =
    if ltb_ℤ mx (pos 0) || leb_ℤ menu_w mx || ltb_ℤ my (pos menu_y) || leb_ℤ taskbar_y my
    then minus_one
    else (elim (find_from menu_items 0 (on_item my)) [ none ↦ minus_one | some i ↦ pos (i + 1) ])

abbrev pub set_snake : Snake → Apps → Apps
set_snake g a = record a { snake = g }

abbrev pub set_tetris : Tetris → Apps → Apps
set_tetris g a = record a { tetris = g }

abbrev pub set_raycaster : Raycaster → Apps → Apps
set_raycaster g a = record a { raycaster = g }

abbrev pub set_breakout : Breakout → Apps → Apps
set_breakout g a = record a { breakout = g }

abbrev pub set_terminal : Terminal → Apps → Apps
set_terminal g a = record a { terminal = g }

-- What `app_init` does once there is a buffer of `cw` by `ch` pixels to draw to; `now` and `later` are what
-- the clock answers.
pub start_app : ℕ → ℤ → ℤ → ℕ → ℕ → Apps → Apps
start_app app cw ch now later a =
    if app == app_terminal
    then set_terminal (term_open a.terminal) a
    else if app == app_snake
    then set_snake (snake_init now later a.snake) a
    else if app == app_tetris
    then set_tetris (tetris_init now later a.tetris) a
    else if app == app_raycaster
    then set_raycaster (raycaster_init a.raycaster) a
    else if app == app_breakout
    then set_breakout (breakout_init cw ch now a.breakout) a
    else a

pub app_init : ℕ → ℕ → ℕ → ℕ → Gui → Gui
unfolding start_app
app_init win_id app now later s = elim (wm_get_content (pos win_id) s.wm) [
  | none ↦ s
  | some content ↦ record s {
    apps =
        start_app app (wm_get_content_w (pos win_id) s.wm) (wm_get_content_h (pos win_id) s.wm) now
          later s.apps;
  }
]

-- `tasks` is the table of tasks, which the terminal lists.
pub app_key : (ℕ → Task) → ℕ → ℕ → Gui → Gui
app_key tasks win_id key s =
    let app = s.win_app_type win_id in
    let a = s.apps in
    record s {
      apps =
          if app == app_terminal
          then set_terminal
              (term_handle_key tasks (mm_get_free_pages s.wm.mm) s.wm.mm.total_pages key a.terminal)
              a
          else if app == app_snake
          then set_snake (snake_key key a.snake) a
          else if app == app_tetris
          then set_tetris (tetris_key key a.tetris) a
          else if app == app_raycaster
          then set_raycaster (raycaster_key key a.raycaster) a
          else if app == app_breakout
          then set_breakout (breakout_key key a.breakout) a
          else a;
    }

-- Neither the terminal nor the raycaster has anything to do.
pub app_tick : ℕ → ℕ → Gui → Gui
app_tick now win_id s =
    let app = s.win_app_type win_id in
    let a = s.apps in
    record s {
      apps =
          if app == app_snake
          then set_snake (snake_tick now a.snake).1 a
          else if app == app_tetris
          then set_tetris (tetris_tick now a.tetris).1 a
          else if app == app_breakout
          then set_breakout (breakout_tick now a.breakout).1 a
          else a;
    }

pub find_existing_app_window : ℕ → Gui → Option ℕ
find_existing_app_window app s =
    find_from wm_max_windows 0
      (λ i. (s.win_app_type i == app) && is_some (wm_get_window (pos i) s.wm))

-- The title, place and size of an application's window.
pub record Frame : Type 0 where
  pub title : List ℕ
  pub x : ℕ
  pub y : ℕ
  pub w : ℕ
  pub h : ℕ

abbrev pub frame_of : ℕ → Frame
frame_of app =
    if app == app_terminal
    then record {
      title = 84 ∷ 101 ∷ 114 ∷ 109 ∷ 105 ∷ 110 ∷ 97 ∷ 108 ∷ [];
      x = 120;
      y = 40;
      w = 500;
      h = 370;
    }
    else if app == app_snake
    then record { title = 83 ∷ 110 ∷ 97 ∷ 107 ∷ 101 ∷ []; x = 10; y = 4; w = 612; h = 472 }
    else if app == app_tetris
    then record { title = 84 ∷ 101 ∷ 116 ∷ 114 ∷ 105 ∷ 115 ∷ []; x = 100; y = 10; w = 420; h = 440 }
    else if app == app_raycaster
    then record {
      title = 82 ∷ 97 ∷ 121 ∷ 99 ∷ 97 ∷ 115 ∷ 116 ∷ 101 ∷ 114 ∷ [];
      x = 60;
      y = 20;
      w = 500;
      h = 400;
    }
    else if app == app_breakout
    then record {
      title = 66 ∷ 114 ∷ 101 ∷ 97 ∷ 107 ∷ 111 ∷ 117 ∷ 116 ∷ [];
      x = 10;
      y = 10;
      w = 620;
      h = 440;
    }
    else record { title = 65 ∷ 112 ∷ 112 ∷ []; x = 80; y = 30; w = 500; h = 370 }

-- What becomes of a window that has been created, or not.
pub use_window : ℕ → ℕ → ℕ → ℤ × Wm → Gui → Gui
unfolding app_init
use_window app now later (negsuc n, wm) s = record s { wm = wm }
use_window app now later (pos id, wm) s =
    app_init id app now later (record s { wm = wm; win_app_type = update s.win_app_type id app })

pub open_app : ℕ → ℕ → ℕ → Gui → Gui
unfolding find_existing_app_window use_window
open_app app now later s = elim (find_existing_app_window app s) [
  | some i ↦ record s { wm = wm_focus_window (pos i) s.wm }
  | none ↦
      let f = frame_of app in
      use_window app now later
        (wm_create_window f.title (pos f.x) (pos f.y) (pos f.w) (pos f.h) s.wm) s
]

-- The window `id` is closed, and its application forgotten.
pub close_window : ℕ → Gui → Gui
close_window id s = record s {
  win_app_type = update s.win_app_type id app_none;
  term_win_id = if s.win_app_type id == app_terminal then minus_one else s.term_win_id;
  wm = wm_destroy_window (pos id) s.wm;
}

-- A result of -100 or less is the signal to close the window `-(result + 100)`.
pub heed : ℤ × Wm → Gui → Gui
unfolding close_window
heed (pos n, wm) s = record s { wm = wm }
heed (negsuc n, wm) s =
    if leb 99 n then close_window (n - 99) (record s { wm = wm }) else record s { wm = wm }

-- A click. The test whether the menu is open once more behind that for the start button never succeeds.
pub click_at : ℤ → ℤ → ℕ → ℕ → ℕ → Gui → Gui
unfolding start_menu_click open_app heed
click_at mx my mb now later s =
    let closed = record s { start_menu_open = false } in
    let app = start_menu_click mx my in
    if s.start_menu_open
    then (elim app [
      | negsuc n ↦ closed
      | pos n ↦ if n == 0 then closed else open_app n now later closed
    ])
    else if leb_ℤ taskbar_y my && ltb_ℤ mx start_btn_w
    then record s { start_menu_open = true }
    else heed (wm_handle_mouse mx my mb s.wm) s

pub do_mouse : ℤ → ℤ → ℕ → ℕ → ℕ → Gui → Gui
unfolding click_at
do_mouse mx my mb now later s =
    let t = record s { prev_left = left mb } in
    if left mb && not s.prev_left
    then click_at mx my mb now later t
    else record t { wm = (wm_handle_mouse mx my mb s.wm).1 }

-- A key goes to the application in the focused window; ESC closes it.
pub do_key : (ℕ → Task) → ℕ → Gui → Gui
unfolding app_key close_window
do_key tasks key s = elim (wm_get_focused s.wm) [
  | negsuc n ↦ s
  | pos focused ↦
      if s.win_app_type focused == app_none
      then s
      else if key == key_esc
      then close_window focused s
      else app_key tasks focused key s
]

pub do_keys : (ℕ → Task) → List ℕ → Gui → Gui
unfolding do_key
do_keys tasks [] s = s
do_keys tasks (key ∷ keys) s = do_keys tasks keys (do_key tasks key s)

-- Every open application ticks; `clock i` is the time when that in the window `i` does.
pub tick_apps : (ℕ → ℕ) → Gui → Gui
unfolding app_tick
tick_apps clock = for_range wm_max_windows 0 (λ i s.
    if not (s.win_app_type i == app_none) && is_some (wm_get_window (pos i) s.wm)
    then app_tick (clock i) i s
    else s)

-- The pointer, the buttons and the keys of a frame; and the clock.
pub record Events : Type 0 where
  pub mx : ℤ
  pub my : ℤ
  pub mb : ℕ
  pub keys : List ℕ
  pub now : ℕ
  pub later : ℕ
  pub clock : ℕ → ℕ

-- One round of the main loop.
pub frame : (ℕ → Task) → Events → Gui → Gui
unfolding do_mouse do_keys tick_apps
frame tasks e s = tick_apps e.clock (do_keys tasks e.keys (do_mouse e.mx e.my e.mb e.now e.later s))

-- Before the main loop. The line that is typed in the terminal is emptied.
pub start_desktop : Gui → Gui
start_desktop s = record s {
  wm = wm_init s.wm;
  start_menu_open = false;
  term_win_id = minus_one;
  prev_left = false;
  win_app_type = for_range wm_max_windows 0 (λ i f. update f i app_none) s.win_app_type;
  apps = set_terminal (record (s.apps.terminal) { term_input_len = 0 }) s.apps;
}
