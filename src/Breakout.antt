-- ===== src/Breakout.antt =====
-- games/breakout.c: the game of breakout, without its drawing.
-- `int`s are integers. The ball's place and speed are in 1/256 of a pixel. What `timer_get_ticks`, `gpu_target_w`
-- and `gpu_target_h` answer are arguments.
pub mod Play
pub mod Start
mod Tests
use dragoon_kernel.Prelude.{
  ℕ, ◌+◌, ◌-◌, ◌*◌, ◌/◌, ◌%◌, ◌^◌, Bool, true, false, not, ◌&&◌, ◌||◌, Option, none, some, update,
  ◌==◌, if◌then◌else◌, find_from, for_range,
}
use dragoon_kernel.Prelude.Int.{
  ℤ, pos, negsuc, ◌+ℤ◌, ◌-ℤ◌, ◌*ℤ◌, ltb_ℤ, leb_ℤ, quot_ℤ, floor_ℤ, int_of,
}
use dragoon_kernel.Input.{key_left, key_right}

abbrev pub brick_cols : ℕ
brick_cols = 10

abbrev pub brick_rows : ℕ
brick_rows = 5

abbrev pub brick_w : ℕ
brick_w = 58

abbrev pub brick_h : ℕ
brick_h = 16

abbrev pub brick_gap : ℕ
brick_gap = 4

abbrev pub paddle_h : ℤ
paddle_h = pos 12

abbrev pub paddle_speed : ℤ
paddle_speed = pos 8

-- `INT_TO_FX` and `FX_TO_INT`.
abbrev pub int_to_fx : ℤ → ℤ
int_to_fx a = a *ℤ pos 256

abbrev pub fx_to_int : ℤ → ℤ
fx_to_int a = floor_ℤ a 256

pub record Breakout : Type 0 where
  pub bricks : ℕ → ℕ → ℕ
  pub paddle_x : ℤ
  pub paddle_w : ℤ
  pub ball_x : ℤ
  pub ball_y : ℤ
  pub ball_dx : ℤ
  pub ball_dy : ℤ
  pub score : ℤ
  pub lives : ℤ
  pub game_over : Bool
  pub game_won : Bool
  pub bricks_left : ℤ
  pub last_tick : ℕ
  pub scr_w : ℤ
  pub scr_h : ℤ
  pub paddle_y : ℤ
  pub brick_offset_x : ℤ

abbrev pub reset_ball : Breakout → Breakout
reset_ball s = record s {
  ball_x = int_to_fx (quot_ℤ s.scr_w 2);
  ball_y = int_to_fx (s.paddle_y -ℤ pos 20);
  ball_dx = pos 512;
  ball_dy = negsuc 511;
}

-- `bricks[r][c] = b`.
abbrev pub set_brick : ℕ → ℕ → ℕ → (ℕ → ℕ → ℕ) → ℕ → ℕ → ℕ
set_brick r c b bricks = update bricks r (update (bricks r) c b)

pub init_bricks : Breakout → Breakout
init_bricks s =
    for_range brick_rows 0
      (λ r t.
        for_range brick_cols 0
          (λ c t'. record t' {
            bricks = set_brick r c 1 t'.bricks;
            bricks_left = t'.bricks_left +ℤ pos 1;
          })
          t)
      (record s { bricks_left = pos 0 })

-- The variables that depend on the size of the target.
abbrev pub lay_out : ℤ → ℤ → Breakout → Breakout
lay_out tw th s = record s {
  scr_w = tw;
  scr_h = th;
  paddle_w = pos 80;
  paddle_y = th -ℤ pos 40;
  brick_offset_x = quot_ℤ (tw -ℤ pos (brick_cols * (brick_w + brick_gap)) +ℤ pos brick_gap) 2;
  paddle_x = quot_ℤ (tw -ℤ pos 80) 2;
  score = pos 0;
  lives = pos 3;
  game_over = false;
  game_won = false;
}

pub breakout_init : ℤ → ℤ → ℕ → Breakout → Breakout
unfolding init_bricks
breakout_init tw th now s = record (reset_ball (init_bricks (lay_out tw th s))) { last_tick = now }

abbrev pub go_left : Breakout → Breakout
go_left s =
    let x = s.paddle_x -ℤ paddle_speed in
    record s { paddle_x = if ltb_ℤ x (pos 0) then pos 0 else x }

abbrev pub go_right : Breakout → Breakout
go_right s =
    let x = s.paddle_x +ℤ paddle_speed in
    let limit = s.scr_w -ℤ s.paddle_w in record s { paddle_x = if ltb_ℤ limit x then limit else x }

-- The letters are `a`, `A` and `d`, `D`.
abbrev pub is_left : ℕ → Bool
is_left key = (key == key_left) || (key == 97) || (key == 65)

abbrev pub is_right : ℕ → Bool
is_right key = (key == key_right) || (key == 100) || (key == 68)

pub breakout_key : ℕ → Breakout → Breakout
breakout_key key s =
    if s.game_over || s.game_won
    then s
    else let t = if is_left key && ltb_ℤ (pos 0) s.paddle_x then go_left s else s in
      if is_right key && ltb_ℤ t.paddle_x (t.scr_w -ℤ t.paddle_w) then go_right t else t

-- The ball moves by one step.
abbrev pub move_ball : Breakout → Breakout
move_ball s = record s { ball_x = s.ball_x +ℤ s.ball_dx; ball_y = s.ball_y +ℤ s.ball_dy }

-- The ball at the pixel `(bx, by)` comes off the three walls.
abbrev pub off_walls : ℤ → ℤ → Breakout → Breakout
off_walls bx by s =
    let s₁ =
      if leb_ℤ bx (pos 4)
      then record s { ball_x = int_to_fx (pos 4); ball_dx = pos 0 -ℤ s.ball_dx }
      else s in
    let right = s₁.scr_w -ℤ pos 4 in
    let s₂ =
      if leb_ℤ right bx
      then record s₁ { ball_x = int_to_fx right; ball_dx = pos 0 -ℤ s₁.ball_dx }
      else s₁ in
    if leb_ℤ by (pos 4)
    then record s₂ { ball_y = int_to_fx (pos 4); ball_dy = pos 0 -ℤ s₂.ball_dy }
    else s₂

abbrev pub lose_ball : Breakout → Breakout
lose_ball s =
    let t = record s { lives = s.lives -ℤ pos 1 } in
    if leb_ℤ t.lives (pos 0) then record t { game_over = true } else reset_ball t

-- `hit_pos * FX_ONE * 3 / (paddle_w / 2)`, within ±3 pixels; `paddle_w / 2` is a positive number.
abbrev pub deflect : ℤ → ℕ → ℤ
deflect hit_pos half =
    let dx = quot_ℤ (hit_pos *ℤ pos 256 *ℤ pos 3) half in
    let dx' = if ltb_ℤ (pos 768) dx then pos 768 else dx in
    if ltb_ℤ dx' (negsuc 767) then negsuc 767 else dx'

abbrev pub on_paddle : ℤ → ℤ → Breakout → Bool
on_paddle bx by s =
    ltb_ℤ (pos 0) s.ball_dy
    && leb_ℤ (s.paddle_y -ℤ pos 4) by
    && ltb_ℤ by (s.paddle_y +ℤ paddle_h)
    && leb_ℤ s.paddle_x bx
    && leb_ℤ bx (s.paddle_x +ℤ s.paddle_w)

abbrev pub natural : ℤ → ℕ
natural (pos n) = n
natural (negsuc n) = 0

-- The paddle is 80 pixels wide, so that half of it is a natural number.
abbrev pub off_paddle : ℤ → ℤ → Breakout → Breakout
off_paddle bx by s =
    if on_paddle bx by s
    then record s {
      ball_dy = pos 0 -ℤ s.ball_dy;
      ball_dx = deflect (bx -ℤ s.paddle_x -ℤ quot_ℤ s.paddle_w 2) (natural (quot_ℤ s.paddle_w 2));
      ball_y = int_to_fx (s.paddle_y -ℤ pos 4);
    }
    else s

-- The brick stands, and the ball touches it.
abbrev pub touches : ℤ → ℤ → Breakout → ℕ → ℕ → Bool
touches bx by s r c =
    let brk_x = s.brick_offset_x +ℤ pos (c * (brick_w + brick_gap)) in
    let brk_y = pos (40 + r * (brick_h + brick_gap)) in
    not (s.bricks r c == 0)
    && leb_ℤ brk_x (bx +ℤ pos 4)
    && leb_ℤ (bx -ℤ pos 4) (brk_x +ℤ pos brick_w)
    && leb_ℤ brk_y (by +ℤ pos 4)
    && leb_ℤ (by -ℤ pos 4) (brk_y +ℤ pos brick_h)

abbrev pub break_brick : ℕ → ℕ → Breakout → Breakout
break_brick r c s =
    let t = record s {
      bricks = set_brick r c 0 s.bricks;
      bricks_left = s.bricks_left -ℤ pos 1;
      score = s.score +ℤ pos ((brick_rows - r) * 10);
      ball_dy = pos 0 -ℤ s.ball_dy;
    } in
    if leb_ℤ t.bricks_left (pos 0) then record t { game_won = true } else t

-- The two loops over the bricks, as one over `r * BRICK_COLS + c`, up to the first that the ball touches.
pub hit_brick : ℤ → ℤ → Breakout → Breakout
hit_brick bx by s =
    elim (find_from (brick_rows * brick_cols) 0
      (λ i. touches bx by s (i / brick_cols) (i % brick_cols))) [
        | none ↦ s
        | some i ↦ break_brick (i / brick_cols) (i % brick_cols) s
      ]

abbrev pub ball_step : Breakout → Breakout
ball_step s =
    let t = move_ball s in
    let bx = fx_to_int t.ball_x in
    let by = fx_to_int t.ball_y in
    let u = off_walls bx by t in
    if leb_ℤ u.scr_h by then lose_ball u else hit_brick bx by (off_paddle bx by u)

pub breakout_tick : ℕ → Breakout → Bool × Breakout
unfolding hit_brick
breakout_tick now s =
    if s.game_over || s.game_won
    then (false, s)
    else if ltb_ℤ (int_of ((now + 2 ^ 64 - s.last_tick) % 2 ^ 64)) (pos 3)
    then (false, s)
    else (true, ball_step (record s { last_tick = now }))
