-- ===== src/Breakout/Tests.antt =====
-- Runs of breakout, and its theorem at a concrete game.
use dragoon_kernel.Prelude.{◌≡◌, refl, arith, List, [], ◌∷◌, false, find_from, for_range, ◌*◌}
use dragoon_kernel.Prelude.Int.{pos, ◌+ℤ◌, ◌-ℤ◌, ◌*ℤ◌}
use dragoon_kernel.Breakout.{Breakout, breakout_init, breakout_tick, init_bricks, hit_brick}
use dragoon_kernel.Breakout.Play.{IsPlay}
use dragoon_kernel.Breakout.Start.{Move, key, tick, play, breakout_lem}

abbrev blank : Breakout
blank = record {
  bricks = λ _ _. 0;
  paddle_x = pos 0;
  paddle_w = pos 0;
  ball_x = pos 0;
  ball_y = pos 0;
  ball_dx = pos 0;
  ball_dy = pos 0;
  score = pos 0;
  lives = pos 0;
  game_over = false;
  game_won = false;
  bricks_left = pos 0;
  last_tick = 0;
  scr_w = pos 0;
  scr_h = pos 0;
  paddle_y = pos 0;
  brick_offset_x = pos 0;
}

abbrev moves : List Move
moves = tick 3 ∷ key 131 ∷ tick 6 ∷ key 97 ∷ tick 9 ∷ []

breakout_lem_example : IsPlay (play moves (breakout_init (pos 618) (pos 400) 0 blank))
breakout_lem_example = breakout_lem moves 618 (pos 400) 0 blank (omega arith)

-- The first tick moves the ball two pixels to the right and up.
tick_runs :
    let t = (breakout_tick 3 (breakout_init (pos 618) (pos 400) 0 blank)).1 in
    (t.ball_x ≡ pos (311 * 256)) × (t.ball_y ≡ pos (338 * 256)) × (t.bricks_left ≡ pos 50)
unfolding breakout_tick breakout_init init_bricks hit_brick for_range find_from ◌+ℤ◌ ◌-ℤ◌ ◌*ℤ◌
tick_runs = (refl, refl, refl)
