-- ===== src/Snake/Tests.antt =====
-- games/snake.c, tried on a snake in the upper right corner.
use dragoon_kernel.Prelude.{false}
use dragoon_kernel.Prelude.Int.{pos}
use dragoon_kernel.Snake.{Snake, right}

abbrev cornered : Snake
cornered = record {
  rng_state = 1;
  snake_x = λ i. pos 37;
  snake_y = λ i. pos i;
  snake_len = 3;
  dir = right;
  food_x = pos 5;
  food_y = pos 5;
  score = 0;
  game_over = false;
  last_tick = 0;
  tick_interval = 12;
}
