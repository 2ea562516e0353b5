-- ===== src/Gui/Tests.antt =====
-- Runs of the desktop shell and of its terminal, and their theorems at concrete states.
use dragoon_kernel.Prelude.{ℕ, ◌+◌, ◌≡◌, refl, true, false, none, List, [], ◌∷◌, map, find_from}
use dragoon_kernel.Prelude.Int.{pos}
use dragoon_kernel.Snake.{right}
use dragoon_kernel.Sample.{task_at}
use dragoon_kernel.Gui.{Gui, Events, start_desktop, start_menu_click}
use dragoon_kernel.Gui.Console.{Terminal, term_clear, clip}
use dragoon_kernel.Gui.Console.Lines.{put_lines, put_lines_lem, last}
use dragoon_kernel.Gui.Console.Screen.{rows, padded}
use dragoon_kernel.Gui.Desk.{Desk, frames, frames_lem}

abbrev blank : Terminal
blank = record { term_buf = λ r c. r + c; term_row = 7; term_input = λ _. 0; term_input_len = 0 }

abbrev two_lines : List (List ℕ)
two_lines = (104 ∷ 105 ∷ []) ∷ (65 ∷ 0 ∷ 66 ∷ []) ∷ []

put_lines_lem_example :
    rows (put_lines two_lines (term_clear blank)).term_buf 0 20
    ≡ padded 20 (last 20 (map (clip 60) two_lines))
put_lines_lem_example = put_lines_lem two_lines blank

abbrev machine : Gui
machine = record {
  wm = record {
    windows = λ i. record {
      x = pos 0;
      y = pos 0;
      w = pos 0;
      h = pos 0;
      title = [];
      content = none;
      content_w = pos 0;
      content_h = pos 0;
      visible = true;
      focused = true;
      dragging = false;
      drag_ox = pos 0;
      drag_oy = pos 0;
      needs_redraw = false;
    };
    z_order = λ i. i;
    z_count = 5;
    prev_buttons = 1;
    mm = record { page_bitmap = λ _. 0; total_pages = 32768; used_pages = 0; memory = λ a. a };
  };
  win_app_type = λ i. i;
  start_menu_open = true;
  term_win_id = pos 3;
  prev_left = true;
  apps = record {
    terminal = blank;
    snake = record {
      rng_state = 1;
      snake_x = λ i. pos i;
      snake_y = λ i. pos 3;
      snake_len = 3;
      dir = right;
      food_x = pos 5;
      food_y = pos 5;
      score = 0;
      game_over = false;
      last_tick = 0;
      tick_interval = 12;
    };
    tetris = record {
      rng_state = 0;
      board = λ r c. 0;
      cur_piece = 0;
      cur_rot = 0;
      cur_x = pos 0;
      cur_y = pos 0;
      next_piece = 0;
      score = 0;
      level = 1;
      lines = 0;
      game_over = true;
      last_drop = 0;
      drop_interval = pos 50;
    };
    raycaster = record {
      player_x = pos 0;
      player_y = pos 0;
      player_angle = pos 0;
      move_speed = pos 0;
      rot_speed = pos 0;
    };
    breakout = record {
      bricks = λ _ _. 0;
      paddle_x = pos 0;
      paddle_w = pos 0;
      ball_x = pos 0;
      ball_y = pos 0;
      ball_dx = pos 0;
      ball_dy = pos 0;
      score = pos 0;
      lives = pos 0;
      game_over = false;
      game_won = false;
      bricks_left = pos 0;
      last_tick = 0;
      scr_w = pos 0;
      scr_h = pos 0;
      paddle_y = pos 0;
      brick_offset_x = pos 0;
    };
  };
}

abbrev at_pointer : ℕ → ℕ → ℕ → List ℕ → Events
at_pointer x y buttons keys = record {
  mx = pos x;
  my = pos y;
  mb = buttons;
  keys = keys;
  now = 100;
  later = 101;
  clock = λ i. 102;
}

-- The start button, the entry of the snake, and ESC.
abbrev session : List Events
session =
    at_pointer 10 470 1 []
    ∷ at_pointer 10 470 0 []
    ∷ at_pointer 10 370 1 []
    ∷ at_pointer 10 370 0 (97 ∷ 27 ∷ [])
    ∷ []

frames_lem_example : Desk (frames task_at session (start_desktop machine))
frames_lem_example = frames_lem task_at session machine

-- The five entries of the menu.
menu_runs :
    (start_menu_click (pos 10) (pos 334) ≡ pos 1) × (start_menu_click (pos 10) (pos 453) ≡ pos 5)
unfolding start_menu_click find_from
menu_runs = (refl, refl)
