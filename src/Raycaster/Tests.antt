-- ===== src/Raycaster/Tests.antt =====
-- Runs of the raycaster, and its theorem at concrete keys.
use dragoon_kernel.Prelude.{ℕ, ◌+◌, ◌≡◌, refl, List, [], ◌∷◌}
use dragoon_kernel.Prelude.Int.{pos, ◌+ℤ◌, ◌-ℤ◌, ◌*ℤ◌}
use dragoon_kernel.Raycaster.{Raycaster, raycaster_init, raycaster_key, fp_sin, fp_cos}
use dragoon_kernel.Raycaster.Walls.{IsInside, walk_along, raycaster_lem}

abbrev blank : Raycaster
blank = record {
  player_x = pos 0;
  player_y = pos 0;
  player_angle = pos 0;
  move_speed = pos 0;
  rot_speed = pos 0;
}

-- Three steps back from the start lead to the wall, two turns to the left and a step on.
abbrev keys : List ℕ
keys = 115 ∷ 115 ∷ 115 ∷ 130 ∷ 97 ∷ 128 ∷ []

raycaster_lem_example : IsInside (walk_along keys (raycaster_init blank))
raycaster_lem_example = raycaster_lem keys blank

-- One step ahead is an eighth of a cell.
key_runs : (raycaster_key 119 (raycaster_init blank)).player_x ≡ pos (163840 + 8192)
unfolding raycaster_key raycaster_init fp_sin fp_cos ◌+ℤ◌ ◌-ℤ◌ ◌*ℤ◌
key_runs = refl
