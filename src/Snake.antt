-- ===== src/Snake.antt =====
-- games/snake.c: the game of snake, without its drawing. Coordinates are `int`s.
-- What `timer_get_ticks` answers is an argument.
pub mod Grid
mod Tests
use dragoon_kernel.Prelude.{
  ℕ, zero, suc, ◌+◌, ◌-◌, ◌*◌, ◌/◌, ◌%◌, ◌^◌, Bool, true, false, not, ◌&&◌, ◌||◌, Option, none,
  some, update, ltb, ◌==◌, if◌then◌else◌, find_from, for_range,
}
use dragoon_kernel.Prelude.Int.{ℤ, pos, negsuc, ◌+ℤ◌, ◌-ℤ◌, ltb_ℤ, int_of}
use dragoon_kernel.Input.{key_up, key_down, key_left, key_right}

abbrev pub grid_w : ℕ
grid_w = 38

abbrev pub grid_h : ℕ
grid_h = 28

abbrev pub max_snake : ℕ
max_snake = 1064

pub data Dir : Type 0 where
  up down left right : Dir

abbrev pub is_dir : Dir → Dir → Bool
is_dir up up = true
is_dir down down = true
is_dir left left = true
is_dir right right = true
is_dir _ _ = false

pub record Snake : Type 0 where
  pub rng_state : ℕ
  pub snake_x : ℕ → ℤ
  pub snake_y : ℕ → ℤ
  pub snake_len : ℕ
  pub dir : Dir
  pub food_x : ℤ
  pub food_y : ℤ
  pub score : ℕ
  pub game_over : Bool
  pub last_tick : ℕ
  pub tick_interval : ℕ

-- The next state of the generator; the number is bits 16 to 30 of it.
abbrev pub rng_step : ℕ → ℕ
rng_step r = (r * 1103515245 + 12345) % 2 ^ 32

abbrev pub rng_out : ℕ → ℕ
rng_out r = r / 2 ^ 16 % 2 ^ 15

abbrev pub eq_ℤ : ℤ → ℤ → Bool
eq_ℤ (pos a) (pos b) = a == b
eq_ℤ (negsuc a) (negsuc b) = a == b
eq_ℤ _ _ = false

abbrev pub at_cell : Snake → ℤ → ℤ → ℕ → Bool
at_cell s x y i = eq_ℤ (s.snake_x i) x && eq_ℤ (s.snake_y i) y

abbrev pub on_snake : ℤ → ℤ → Snake → Bool
on_snake x y s = elim (find_from s.snake_len 0 (at_cell s x y)) [ none ↦ false | some i ↦ true ]

-- So many attempts to find a cell without the snake.
pub place_food : ℕ → Snake → Snake
place_food zero s = s
place_food (suc attempts) s =
    let r₁ = rng_step s.rng_state in
    let r₂ = rng_step r₁ in
    let fx = pos (rng_out r₁ % grid_w) in
    let fy = pos (rng_out r₂ % grid_h) in
    let drawn = record s { rng_state = r₂ } in
    let again = place_food attempts drawn in
    if on_snake fx fy s then again else record drawn { food_x = fx; food_y = fy }

-- `seed` and `now` are what the two calls of `timer_get_ticks` answer.
pub snake_init : ℕ → ℕ → Snake → Snake
unfolding place_food
snake_init seed now s = place_food 1000 (record s {
  rng_state = seed % 2 ^ 32;
  snake_len = 3;
  snake_x = for_range 3 0 (λ i x. update x i (pos (19 - i))) s.snake_x;
  snake_y = for_range 3 0 (λ i y. update y i (pos 14)) s.snake_y;
  dir = right;
  score = 0;
  game_over = false;
  tick_interval = 12;
  last_tick = now;
})

abbrev pub turn : ℕ → Dir → Dir
turn key d =
    if key == key_up
    then (if is_dir d down then d else up)
    else if key == key_down
    then (if is_dir d up then d else down)
    else if key == key_left
    then (if is_dir d right then d else left)
    else if key == key_right
    then (if is_dir d left then d else right)
    else d

pub snake_key : ℕ → Snake → Snake
snake_key key s = if s.game_over then s else record s { dir = turn key s.dir }

-- The cell next to the head.
abbrev pub next_x : Snake → ℤ
next_x s = elim s.dir [
  | up ↦ s.snake_x 0
  | down ↦ s.snake_x 0
  | left ↦ s.snake_x 0 -ℤ pos 1
  | right ↦ s.snake_x 0 +ℤ pos 1
]

abbrev pub next_y : Snake → ℤ
next_y s = elim s.dir [
  | up ↦ s.snake_y 0 -ℤ pos 1
  | down ↦ s.snake_y 0 +ℤ pos 1
  | left ↦ s.snake_y 0
  | right ↦ s.snake_y 0
]

abbrev pub outside : ℤ → ℤ → Bool
outside x y =
    ltb_ℤ x (pos 0) || not (ltb_ℤ x (pos grid_w)) || ltb_ℤ y (pos 0) || not (ltb_ℤ y (pos grid_h))

-- `for (i = from; i > 0; i--) cells[i] = cells[i - 1]`.
pub shift : ℕ → (ℕ → ℤ) → ℕ → ℤ
shift zero cells = cells
shift (suc i) cells = shift i (update cells (suc i) (cells i))

abbrev pub shift_snake : ℕ → Snake → Snake
shift_snake n s = record s { snake_x = shift n s.snake_x; snake_y = shift n s.snake_y }

-- What becomes of the body and the food when the head moves to a free cell.
abbrev pub follow : ℤ → ℤ → Snake → Snake
follow x y s =
    if not (eq_ℤ x s.food_x && eq_ℤ y s.food_y)
    then shift_snake (s.snake_len - 1) s
    else let grown =
        if ltb s.snake_len max_snake
        then record (shift_snake s.snake_len s) { snake_len = s.snake_len + 1 }
        else s in
      place_food 1000 (record grown { score = grown.score + 10 })

pub step_to : Snake → Bool × Snake
unfolding place_food shift
step_to s =
    let t = follow (next_x s) (next_y s) s in
    (
      true,
      record t { snake_x = update t.snake_x 0 (next_x s); snake_y = update t.snake_y 0 (next_y s) },
    )

pub advance_inside : Snake → Bool × Snake
unfolding step_to
advance_inside s =
    if on_snake (next_x s) (next_y s) s then (true, record s { game_over = true }) else step_to s

-- The move, once it is due.
pub advance : Snake → Bool × Snake
unfolding advance_inside
advance s =
    if outside (next_x s) (next_y s)
    then (true, record s { game_over = true })
    else advance_inside s

abbrev pub too_soon : ℕ → Snake → Bool
too_soon now s = ltb_ℤ (int_of ((now + 2 ^ 64 - s.last_tick) % 2 ^ 64)) (pos s.tick_interval)

abbrev pub due : ℕ → Snake → Bool × Snake
due now s = if too_soon now s then (false, s) else advance (record s { last_tick = now })

pub snake_tick : ℕ → Snake → Bool × Snake
unfolding advance
snake_tick now s = if s.game_over then (false, s) else due now s
