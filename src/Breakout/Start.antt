-- ===== src/Breakout/Start.antt =====
-- games/breakout.c: a new game, and any sequence of keys and ticks after it.
use dragoon_kernel.Prelude.{
  ℕ, ◌+◌, ◌-◌, ◌*◌, ◌/◌, ◌%◌, ◌≡◌, ◌<◌, ◌≤◌, true, List, [], ◌∷◌, arith, refl, sym, ap, ◌∙◌,
  ℕ_discrete, for_range, ◌==◌, subst,
}
use dragoon_kernel.Prelude.Count.{count_below, count_below_ext}
use dragoon_kernel.Prelude.Int.{ℤ, pos, ◌+ℤ◌, leb_ℤ, quot_ℤ}
use dragoon_kernel.Prelude.Loops.{for_range_inv}
use dragoon_kernel.Breakout.{
  Breakout, breakout_init, breakout_key, breakout_tick, init_bricks, lay_out, set_brick, brick_rows,
  brick_cols,
}
use dragoon_kernel.Breakout.Play.{
  IsPlay, standing, stands, key-IsPlay, tick-IsPlay, sub_pos, add_pos,
}

-- The first `n` bricks stand, and the counter has seen them.
record IsLaid (n : ℕ) (s t : Breakout) : Type 0 where
  laid : (i : ℕ) → i < n → t.bricks (i / 10) (i % 10) ≡ 1
  left : t.bricks_left ≡ pos n
  screen : t.scr_w ≡ s.scr_w
  wide : t.paddle_w ≡ s.paddle_w
  at : t.paddle_x ≡ s.paddle_x
  lives : t.lives ≡ s.lives
  over : t.game_over ≡ s.game_over
  won : t.game_won ≡ s.game_won

abbrev lay_brick : ℕ → ℕ → Breakout → Breakout
lay_brick r c t = record t {
  bricks = set_brick r c 1 t.bricks;
  bricks_left = t.bricks_left +ℤ pos 1;
}

lay_brick-IsLaid :
    (s t : Breakout) (r c : ℕ)
    → c < 10
    → IsLaid (r * 10 + c) s t
    → IsLaid (r * 10 + (c + 1)) s (lay_brick r c t)
lay_brick-IsLaid s t r c lt h = record {
  laid = λ i below. elim (ℕ_discrete r (i / 10)) [
    | yes row ↦ elim (ℕ_discrete c (i % 10)) [
      | yes col ↦ ground arith
      | no other ↦
          let old = h.laid i (omega (arith, row, other)) in
          ground (arith, old, ap t.bricks row, other)
    ]
    | no other ↦ let old = h.laid i (omega (arith, other)) in ground (arith, old, other)
  ];
  left = ap (λ z. z +ℤ pos 1) h.left ∙ add_pos (r * 10 + c) 1 ∙ ap pos (omega arith);
  screen = h.screen;
  wide = h.wide;
  at = h.at;
  lives = h.lives;
  over = h.over;
  won = h.won;
}

lay_row-IsLaid :
    (s t : Breakout) (r : ℕ)
    → IsLaid (r * 10) s t
    → IsLaid ((r + 1) * 10) s (for_range brick_cols 0 (lay_brick r) t)
lay_row-IsLaid s t r h =
    subst (λ n. IsLaid n s (for_range brick_cols 0 (lay_brick r) t)) (omega arith)
      (for_range_inv (λ c u. IsLaid (r * 10 + c) s u) (lay_brick r) brick_cols 0 10 t (omega arith)
        (λ c u lo hi k. lay_brick-IsLaid s u r c hi k) (subst (λ n. IsLaid n s t) (omega arith) h))

init_bricks-IsLaid : (s : Breakout) → IsLaid 50 s (init_bricks s)
unfolding init_bricks
init_bricks-IsLaid s =
    for_range_inv (λ r u. IsLaid (r * 10) s u) (λ r. for_range brick_cols 0 (lay_brick r))
      brick_rows 0 5 (record s { bricks_left = pos 0 }) (omega arith)
      (λ r u lo hi k. lay_row-IsLaid s u r k)
      (record {
        laid = λ i lt. absurd (omega arith);
        left = refl;
        screen = refl;
        wide = refl;
        at = refl;
        lives = refl;
        over = refl;
        won = refl;
      })

all_stand : (s t : Breakout) → IsLaid 50 s t → standing t.bricks ≡ 50
unfolding count_below
all_stand s t h =
    count_below_ext 50 (stands t.bricks) (λ _. true) (λ j lt. ground (arith, h.laid j lt)) ∙ refl

pub init-IsPlay :
    (w : ℕ) (th : ℤ) (now : ℕ) (s : Breakout) → 80 ≤ w → IsPlay (breakout_init (pos w) th now s)
unfolding breakout_init
init-IsPlay w th now s h =
    let t = lay_out (pos w) th s in
    let i = init_bricks-IsLaid t in
    let all = all_stand t (init_bricks t) i in
    record {
      width = w;
      paddle = (w - 80) / 2;
      screen = i.screen;
      wide = i.wide;
      at = i.at ∙ ap (λ z. quot_ℤ z 2) (sub_pos w 80 h);
      inside = omega arith;
      counted = i.left ∙ ap pos (sym all);
      over = i.over ∙ ap (λ l. leb_ℤ l (pos 0)) (sym i.lives);
      won = i.won ∙ ap (λ n. n == 0) (sym all);
    }

-- What the player and the timer do.
pub data Move : Type 0 where
  key : ℕ → Move
  tick : ℕ → Move

pub play : List Move → Breakout → Breakout
play [] s = s
play (key k ∷ l) s = play l (breakout_key k s)
play (tick now ∷ l) s = play l (breakout_tick now s).1

play-IsPlay : (l : List Move) (s : Breakout) → IsPlay s → IsPlay (play l s)
unfolding play
play-IsPlay [] s p = p
play-IsPlay (key k ∷ l) s p = play-IsPlay l (breakout_key k s) (key-IsPlay k s p)
play-IsPlay (tick now ∷ l) s p = play-IsPlay l (breakout_tick now s).1 (tick-IsPlay now s p)

-- In a new game on a target at least 80 pixels wide, after any sequence of keys and ticks, the paddle
-- is on the screen, `bricks_left` is the number of bricks that stand, the game is won exactly if none
-- does, and over exactly if no life is left.
pub breakout_lem :
    (l : List Move) (w : ℕ) (th : ℤ) (now : ℕ) (s : Breakout)
    → 80 ≤ w
    → IsPlay (play l (breakout_init (pos w) th now s))
breakout_lem l w th now s h =
    play-IsPlay l (breakout_init (pos w) th now s) (init-IsPlay w th now s h)
