-- ===== src/Snake/Grid.antt =====
-- Where the snake's head can be, and how it turns.
use dragoon_kernel.Prelude.{ℕ, ◌≡◌, false, true, arith}
use dragoon_kernel.Prelude.{inl, inr, subst, sym, ap, ◌∙◌, if◌then◌else◌, true, Bool-cases, refl}
use dragoon_kernel.Snake.{
  advance_inside, step_to, due, too_soon, advance, next_x, next_y, on_snake, snake_tick, turn,
  is_dir, Snake, Dir, up, down, left, right, outside, snake_key, is_dir,
}

abbrev pub opposite : Dir → Dir
opposite up = down
opposite down = up
opposite left = right
opposite right = left

abbrev pub HeadInside : Snake → Type 0
HeadInside s = outside (s.snake_x 0) (s.snake_y 0) ≡ false

-- No single key turns the snake to the direction opposite to its own.
pub snake_key_lem : (key : ℕ) (s : Snake) → is_dir (snake_key key s).dir (opposite s.dir) ≡ false
unfolding snake_key
snake_key_lem key s = elim (Bool-cases s.game_over) [
  | inl e ↦ rw e (same s.dir)
  | inr e ↦ rw e (turned s.dir)
]
  where
    same : (d : Dir) → is_dir d (opposite d) ≡ false
    same up = refl
    same down = refl
    same left = refl
    same right = refl

    turned : (d : Dir) → is_dir (turn key d) (opposite d) ≡ false
    turned up = ground arith
    turned down = ground arith
    turned left = ground arith
    turned right = ground arith

advance-outside :
    (t : Snake)
    → outside (next_x t) (next_y t) ≡ true
    → advance t ≡ (true, record t { game_over = true })
unfolding advance
advance-outside t o =
    ap (λ b. if b then (true, record t { game_over = true }) else advance_inside t) o

advance-bites :
    (t : Snake)
    → outside (next_x t) (next_y t) ≡ false
    → on_snake (next_x t) (next_y t) t ≡ true
    → advance t ≡ (true, record t { game_over = true })
unfolding advance advance_inside
advance-bites t o b =
    ap (λ q. if q then (true, record t { game_over = true }) else advance_inside t) o
    ∙ ap (λ q. if q then (true, record t { game_over = true }) else step_to t) b

advance-steps :
    (t : Snake)
    → outside (next_x t) (next_y t) ≡ false
    → on_snake (next_x t) (next_y t) t ≡ false
    → advance t ≡ step_to t
unfolding advance advance_inside
advance-steps t o b =
    ap (λ q. if q then (true, record t { game_over = true }) else advance_inside t) o
    ∙ ap (λ q. if q then (true, record t { game_over = true }) else step_to t) b

moved : (t : Snake) → HeadInside t → HeadInside (advance t).1
moved t i = elim (Bool-cases (outside (next_x t) (next_y t))) [
  | inl o ↦ subst (λ r. HeadInside r.1) (sym (advance-outside t o)) i
  | inr o ↦ elim (Bool-cases (on_snake (next_x t) (next_y t) t)) [
    | inl b ↦ subst (λ r. HeadInside r.1) (sym (advance-bites t o b)) i
    | inr b ↦ subst (λ r. HeadInside r.1) (sym (advance-steps t o b)) (unfold step_to in o)
  ]
]

-- If the snake's head is inside the grid, it still is after `snake_tick`, at whatever time.
pub snake_tick-HeadInside : (now : ℕ) (s : Snake) → HeadInside s → HeadInside (snake_tick now s).1
unfolding snake_tick
snake_tick-HeadInside now s h = elim (Bool-cases s.game_over) [
  | inl e ↦ subst (λ b. HeadInside (if b then (false, s) else due now s).1) (sym e) h
  | inr e ↦
      subst (λ b. HeadInside (if b then (false, s) else due now s).1) (sym e)
        (elim (Bool-cases (too_soon now s)) [
          | inl w ↦
              subst
                (λ b.
                  HeadInside (if b then (false, s) else advance (record s { last_tick = now })).1)
                (sym w) h
          | inr w ↦
              subst
                (λ b.
                  HeadInside (if b then (false, s) else advance (record s { last_tick = now })).1)
                (sym w) (moved (record s { last_tick = now }) h)
        ])
]
