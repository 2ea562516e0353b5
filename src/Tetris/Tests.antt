-- ===== src/Tetris/Tests.antt =====
-- The theorems on tetris, at concrete states.
use dragoon_kernel.Prelude.{ℕ, ◌==◌, if◌then◌else◌, true}
use dragoon_kernel.Prelude.Int.{pos}
use dragoon_kernel.Input.{key_left}
use dragoon_kernel.Tetris.{Tetris, tetris_init, tetris_key, clear_lines, board_h}
use dragoon_kernel.Tetris.Lines.{Clears, clear_lines_lem}
use dragoon_kernel.Tetris.Pieces.{IsPlaced, Game-IsPlaced, begin, key_pressed}

-- The two lowest rows are full, but for a cell of the upper one.
abbrev heap : ℕ → ℕ → ℕ
heap r c = if r == 19 then 3 else if r == 18 then c else 0

clear_lines_lem_example : Clears heap board_h (clear_lines heap)
clear_lines_lem_example = clear_lines_lem heap

abbrev reset : Tetris
reset = record {
  rng_state = 0;
  board = heap;
  cur_piece = 0;
  cur_rot = 0;
  cur_x = pos 0;
  cur_y = pos 0;
  next_piece = 0;
  score = 0;
  level = 1;
  lines = 0;
  game_over = true;
  last_drop = 0;
  drop_interval = pos 50;
}

Game-IsPlaced_example : IsPlaced (tetris_key key_left (tetris_init 5 6 reset))
Game-IsPlaced_example =
    Game-IsPlaced (tetris_key key_left (tetris_init 5 6 reset))
      (key_pressed key_left (tetris_init 5 6 reset) (begin 5 6 reset))
