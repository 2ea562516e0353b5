-- ===== src/Raycaster.antt =====
-- games/raycaster.c: the player's walk through the map, without the casting of rays.
-- `int`s are integers; places and speeds are in 1/65536 of a cell of the map, angles in 1/256 of a turn.
mod Map
pub mod Walls
mod Tests
use Map.{sin_table, world_map}
use dragoon_kernel.Prelude.{
  ℕ, ◌+◌, ◌-◌, ◌*◌, ◌/◌, ◌%◌, Bool, true, false, ◌&&◌, ◌||◌, ◌==◌, if◌then◌else◌, List, [], ◌∷◌,
  zero, suc,
}
use dragoon_kernel.Prelude.Int.{
  ℤ, pos, negsuc, ◌+ℤ◌, ◌-ℤ◌, ◌*ℤ◌, ltb_ℤ, leb_ℤ, floor_ℤ, int_of, word_of,
}
use dragoon_kernel.Input.{key_up, key_down, key_left, key_right}

abbrev pub angle_90 : ℕ
angle_90 = 64

abbrev pub map_w : ℕ
map_w = 16

abbrev pub map_h : ℕ
map_h = 16

-- `INT_TO_FP(1)`.
abbrev pub fp_one : ℕ
fp_one = 65536

abbrev pub fp_to_int : ℤ → ℤ
fp_to_int a = floor_ℤ a 65536

abbrev pub fp_mul : ℤ → ℤ → ℤ
fp_mul a b = int_of (word_of (floor_ℤ (a *ℤ b) 65536))

-- `angle & 0xFF`.
abbrev pub angle_of : ℤ → ℕ
angle_of (pos n) = n % 256
angle_of (negsuc n) = 255 - n % 256

-- `table[i]`, of a table that is long enough.
entry_ℤ : List ℤ → ℕ → ℤ
entry_ℤ [] i = pos 0
entry_ℤ (z ∷ l) zero = z
entry_ℤ (z ∷ l) (suc i) = entry_ℤ l i

abbrev entry_ℕ : List ℕ → ℕ → ℕ
entry_ℕ [] i = 0
entry_ℕ (n ∷ l) zero = n
entry_ℕ (n ∷ l) (suc i) = entry_ℕ l i

abbrev row_of : List (List ℕ) → ℕ → List ℕ
row_of [] i = []
row_of (r ∷ l) zero = r
row_of (r ∷ l) (suc i) = row_of l i

-- `world_map[y][x]`.
abbrev pub cell : ℕ → ℕ → ℕ
cell y x = entry_ℕ (row_of world_map y) x

pub fp_sin : ℤ → ℤ
unfolding entry_ℤ
fp_sin angle = entry_ℤ sin_table (angle_of angle)

pub fp_cos : ℤ → ℤ
unfolding entry_ℤ
fp_cos angle = entry_ℤ sin_table (angle_of (angle +ℤ pos angle_90))

pub record Raycaster : Type 0 where
  pub player_x : ℤ
  pub player_y : ℤ
  pub player_angle : ℤ
  pub move_speed : ℤ
  pub rot_speed : ℤ

pub raycaster_init : Raycaster → Raycaster
raycaster_init s = record {
  player_x = pos (2 * fp_one + fp_one / 2);
  player_y = pos (2 * fp_one + fp_one / 2);
  player_angle = pos 0;
  move_speed = pos (fp_one / 8);
  rot_speed = pos 3;
}

-- The cell is on the map, and no wall.
abbrev pub is_clear : ℤ → ℤ → Bool
is_clear (pos x) (pos y) =
    ltb_ℤ (pos x) (pos map_w) && (ltb_ℤ (pos y) (pos map_h) && (cell y x == 0))
is_clear _ _ = false

-- `player_x = nx; player_y = ny`, if no wall is there.
abbrev pub step_onto : ℤ → ℤ → Raycaster → Raycaster
step_onto nx ny s =
    if is_clear (fp_to_int nx) (fp_to_int ny) then record s { player_x = nx; player_y = ny } else s

-- The letters are those of the keys W, A, S and D.
abbrev pub is_key : ℕ → ℕ → ℕ → ℕ → Bool
is_key key arrow small capital = (key == arrow) || (key == small) || (key == capital)

abbrev pub rotate : ℕ → Raycaster → Raycaster
rotate key s =
    let t =
      if is_key key key_left 97 65
      then record s { player_angle = pos (angle_of (s.player_angle -ℤ s.rot_speed)) }
      else s in
    if is_key key key_right 100 68
    then record t { player_angle = pos (angle_of (t.player_angle +ℤ t.rot_speed)) }
    else t

pub raycaster_key : ℕ → Raycaster → Raycaster
unfolding fp_sin fp_cos
raycaster_key key s =
    let t = rotate key s in
    let dx = fp_mul (fp_cos t.player_angle) t.move_speed in
    let dy = fp_mul (fp_sin t.player_angle) t.move_speed in
    let u =
      if is_key key key_up 119 87 then step_onto (t.player_x +ℤ dx) (t.player_y +ℤ dy) t else t in
    if is_key key key_down 115 83 then step_onto (u.player_x -ℤ dx) (u.player_y -ℤ dy) u else u

-- The raycaster has no clock of its own.
pub raycaster_tick : Bool
raycaster_tick = false
