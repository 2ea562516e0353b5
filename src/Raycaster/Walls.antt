-- ===== src/Raycaster/Walls.antt =====
-- games/raycaster.c: the player does not walk into walls.
use dragoon_kernel.Prelude.{
  ℕ, ◌≡◌, ◌<◌, true, List, [], ◌∷◌, arith, refl, inl, inr, if◌then◌else◌, if_both, Bool-cases,
}
use dragoon_kernel.Prelude.Int.{ℤ, pos, negsuc, ◌+ℤ◌, ◌-ℤ◌}
use dragoon_kernel.Raycaster.{
  Raycaster, raycaster_init, raycaster_key, cell, fp_to_int, is_clear, step_onto, rotate, is_key,
  angle_of, fp_mul, fp_cos, fp_sin,
}

-- The player stands in a cell of the map without a wall, and looks in one of the 256 directions.
pub record IsInside (s : Raycaster) : Type 0 where
  pub x : ℕ
  pub y : ℕ
  pub at_x : fp_to_int s.player_x ≡ pos x
  pub at_y : fp_to_int s.player_y ≡ pos y
  pub below_w : x < 16
  pub below_h : y < 16
  pub vacant : cell y x ≡ 0
  pub angle : ℕ
  pub looks : s.player_angle ≡ pos angle
  pub turn : angle < 256

angle-lt : (a : ℤ) → angle_of a < 256
angle-lt (pos n) = omega arith
angle-lt (negsuc n) = omega arith

turned :
    (s : Raycaster) (a : ℕ) → a < 256 → IsInside s → IsInside (record s { player_angle = pos a })
turned s a lt i = record {
  x = i.x;
  y = i.y;
  at_x = i.at_x;
  at_y = i.at_y;
  below_w = i.below_w;
  below_h = i.below_h;
  vacant = i.vacant;
  angle = a;
  looks = refl;
  turn = lt;
}

clear-cell :
    (a b : ℤ)
    → is_clear a b ≡ true
    → (x : ℕ) × (y : ℕ) × (a ≡ pos x) × (b ≡ pos y) × (x < 16) × (y < 16) × (cell y x ≡ 0)
clear-cell (pos x) (pos y) h =
    let w : x < 16 = ground (arith, h) in
    let v : y < 16 = ground (arith, h) in
    let o : cell y x ≡ 0 = ground (arith, h) in (x, y, refl, refl, w, v, o)
clear-cell (pos x) (negsuc y) h = ground arith
clear-cell (negsuc x) b h = ground arith

stepped : (nx ny : ℤ) (s : Raycaster) → IsInside s → IsInside (step_onto nx ny s)
stepped nx ny s i = elim (Bool-cases (is_clear (fp_to_int nx) (fp_to_int ny))) [
  | inr e ↦ rw e i
  | inl e ↦
      let (x, y, ex, ey, w, h, o) = clear-cell (fp_to_int nx) (fp_to_int ny) e in
      rw e (record {
        x = x;
        y = y;
        at_x = ex;
        at_y = ey;
        below_w = w;
        below_h = h;
        vacant = o;
        angle = i.angle;
        looks = i.looks;
        turn = i.turn;
      })
]

rotated : (key : ℕ) (s : Raycaster) → IsInside s → IsInside (rotate key s)
rotated key s i =
    let l = s.player_angle -ℤ s.rot_speed in
    let t = if is_key key 130 97 65 then record s { player_angle = pos (angle_of l) } else s in
    let it : IsInside t =
      if_both IsInside (is_key key 130 97 65) (turned s (angle_of l) (angle-lt l) i) i in
    let r = t.player_angle +ℤ t.rot_speed in
    if_both IsInside (is_key key 131 100 68) (turned t (angle_of r) (angle-lt r) it) it

key-IsInside : (key : ℕ) (s : Raycaster) → IsInside s → IsInside (raycaster_key key s)
unfolding raycaster_key
key-IsInside key s i =
    let t = rotate key s in
    let it = rotated key s i in
    let dx = fp_mul (fp_cos t.player_angle) t.move_speed in
    let dy = fp_mul (fp_sin t.player_angle) t.move_speed in
    let u =
      if is_key key 128 119 87 then step_onto (t.player_x +ℤ dx) (t.player_y +ℤ dy) t else t in
    let iu : IsInside u =
      if_both IsInside (is_key key 128 119 87) (stepped (t.player_x +ℤ dx) (t.player_y +ℤ dy) t it)
        it in
    if_both IsInside (is_key key 129 115 83) (stepped (u.player_x -ℤ dx) (u.player_y -ℤ dy) u iu) iu

init-IsInside : (s : Raycaster) → IsInside (raycaster_init s)
unfolding raycaster_init
init-IsInside s = record {
  x = 2;
  y = 2;
  at_x = refl;
  at_y = refl;
  below_w = omega arith;
  below_h = omega arith;
  vacant = refl;
  angle = 0;
  looks = refl;
  turn = omega arith;
}

-- A sequence of keys.
pub walk_along : List ℕ → Raycaster → Raycaster
walk_along [] s = s
walk_along (key ∷ keys) s = walk_along keys (raycaster_key key s)

-- From the start, after any sequence of keys, the player stands in a cell of the map that is not a
-- wall, and looks in one of the 256 directions.
pub raycaster_lem : (keys : List ℕ) (s : Raycaster) → IsInside (walk_along keys (raycaster_init s))
unfolding walk_along
raycaster_lem keys s = along keys (raycaster_init s) (init-IsInside s)
  where
    along : (keys : List ℕ) (s : Raycaster) → IsInside s → IsInside (walk_along keys s)
    along [] s i = i
    along (key ∷ keys) s i = along keys (raycaster_key key s) (key-IsInside key s i)
