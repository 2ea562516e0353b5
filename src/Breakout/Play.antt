-- ===== src/Breakout/Play.antt =====
-- games/breakout.c: the paddle, the bricks and the end of the game, through any sequence of keys and ticks.
use dragoon_kernel.Prelude.{
  ℕ, ◌+◌, ◌-◌, ◌/◌, ◌%◌, ◌≡◌, ◌<◌, ◌≤◌, ◌≢◌, Bool, true, false, not, ◌&&◌, ◌||◌, arith, refl, sym,
  ap, ◌∙◌, inl, inr, ℕ_discrete, find_from, ◌==◌, if◌then◌else◌, if_both, Bool-cases, Option-cases,
  dec_lt, ◌^◌,
}
use dragoon_kernel.Prelude.Count.{count_below, count_below_add}
use dragoon_kernel.Prelude.Int.{ℤ, pos, ◌+ℤ◌, ◌-ℤ◌, ◌*ℤ◌, leb_ℤ, ltb_ℤ}
use dragoon_kernel.Prelude.Loops.{find_from-some}
use dragoon_kernel.Breakout.{
  Breakout, breakout_key, breakout_tick, set_brick, go_left, go_right, move_ball, off_walls,
  lose_ball, off_paddle, touches, break_brick, hit_brick, ball_step, is_left, is_right, fx_to_int,
  int_of, paddle_speed,
}

abbrev pub stands : (ℕ → ℕ → ℕ) → ℕ → Bool
stands bricks i = not (bricks (i / 10) (i % 10) == 0)

-- The number of bricks that stand.
abbrev pub standing : (ℕ → ℕ → ℕ) → ℕ
standing bricks = count_below 50 (stands bricks)

-- The paddle is on the screen; `bricks_left` is right; the game is over when no life is left, and won
-- when no brick is.
pub record IsPlay (s : Breakout) : Type 0 where
  pub width : ℕ
  pub paddle : ℕ
  pub screen : s.scr_w ≡ pos width
  pub wide : s.paddle_w ≡ pos 80
  pub at : s.paddle_x ≡ pos paddle
  pub inside : paddle + 80 ≤ width
  pub counted : s.bricks_left ≡ pos (standing s.bricks)
  pub over : s.game_over ≡ leb_ℤ s.lives (pos 0)
  pub won : s.game_won ≡ (standing s.bricks == 0)

-- What the moves of the ball leave as it is.
record Same (s t : Breakout) : Type 0 where
  screen : t.scr_w ≡ s.scr_w
  wide : t.paddle_w ≡ s.paddle_w
  at : t.paddle_x ≡ s.paddle_x
  left : t.bricks_left ≡ s.bricks_left
  bricks : t.bricks ≡ s.bricks
  lives : t.lives ≡ s.lives
  over : t.game_over ≡ s.game_over
  won : t.game_won ≡ s.game_won

Same-self : (s : Breakout) → Same s s
Same-self s = record {
  screen = refl;
  wide = refl;
  at = refl;
  left = refl;
  bricks = refl;
  lives = refl;
  over = refl;
  won = refl;
}

Same-IsPlay : (s t : Breakout) → Same s t → IsPlay s → IsPlay t
Same-IsPlay s t e p = record {
  width = p.width;
  paddle = p.paddle;
  screen = e.screen ∙ p.screen;
  wide = e.wide ∙ p.wide;
  at = e.at ∙ p.at;
  inside = p.inside;
  counted = e.left ∙ p.counted ∙ ap (λ b. pos (standing b)) (sym e.bricks);
  over = e.over ∙ p.over ∙ ap (λ l. leb_ℤ l (pos 0)) (sym e.lives);
  won = e.won ∙ p.won ∙ ap (λ b. standing b == 0) (sym e.bricks);
}

-- The ball may be sent elsewhere.
Same-if :
    (s t : Breakout) (b : Bool) (x y dx dy : ℤ)
    → Same s t
    → Same s (if b then record t { ball_x = x; ball_y = y; ball_dx = dx; ball_dy = dy } else t)
Same-if s t b x y dx dy e =
    if_both (Same s) b
      (record {
        screen = e.screen;
        wide = e.wide;
        at = e.at;
        left = e.left;
        bricks = e.bricks;
        lives = e.lives;
        over = e.over;
        won = e.won;
      })
      e

off_walls-Same : (bx by : ℤ) (s : Breakout) → Same s (off_walls bx by s)
off_walls-Same bx by s =
    let s₁ =
      if leb_ℤ bx (pos 4)
      then record s { ball_x = pos 4 *ℤ pos 256; ball_dx = pos 0 -ℤ s.ball_dx }
      else s in
    let right = s₁.scr_w -ℤ pos 4 in
    let s₂ =
      if leb_ℤ right bx
      then record s₁ { ball_x = right *ℤ pos 256; ball_dx = pos 0 -ℤ s₁.ball_dx }
      else s₁ in
    Same-if s s₂ (leb_ℤ by (pos 4)) (s₂.ball_x) (pos 4 *ℤ pos 256) (s₂.ball_dx)
      (pos 0 -ℤ s₂.ball_dy)
      (Same-if s s₁ (leb_ℤ right bx) (right *ℤ pos 256) (s₁.ball_y) (pos 0 -ℤ s₁.ball_dx)
        (s₁.ball_dy)
        (Same-if s s (leb_ℤ bx (pos 4)) (pos 4 *ℤ pos 256) (s.ball_y) (pos 0 -ℤ s.ball_dx)
          (s.ball_dy) (Same-self s)))

off_paddle-Same : (bx by : ℤ) (s : Breakout) → Same s (off_paddle bx by s)
off_paddle-Same bx by s =
    if_both (Same s) _
      (record {
        screen = refl;
        wide = refl;
        at = refl;
        left = refl;
        bricks = refl;
        lives = refl;
        over = refl;
        won = refl;
      })
      (Same-self s)

lose_ball-IsPlay : (s : Breakout) → s.game_over ≡ false → IsPlay s → IsPlay (lose_ball s)
lose_ball-IsPlay s on p = elim (Bool-cases (leb_ℤ (s.lives -ℤ pos 1) (pos 0))) [
  | inl e ↦ rw e (record {
    width = p.width;
    paddle = p.paddle;
    screen = p.screen;
    wide = p.wide;
    at = p.at;
    inside = p.inside;
    counted = p.counted;
    over = sym e;
    won = p.won;
  })
  | inr e ↦ rw e (record {
    width = p.width;
    paddle = p.paddle;
    screen = p.screen;
    wide = p.wide;
    at = p.at;
    inside = p.inside;
    counted = p.counted;
    over = on ∙ sym e;
    won = p.won;
  })
]

-- One brick fewer stands.
standing-break :
    (bricks : ℕ → ℕ → ℕ) (i : ℕ)
    → i < 50
    → stands bricks i ≡ true
    → standing bricks ≡ standing (set_brick (i / 10) (i % 10) 0 bricks) + 1
standing-break bricks i lt here =
    count_below_add 50 (stands (set_brick (i / 10) (i % 10) 0 bricks)) (stands bricks) i lt
      (ground arith) here
      (λ j l ne. elim (ℕ_discrete (i / 10) (j / 10)) [
        | yes row ↦
            let col : i % 10 ≢ j % 10 = λ e. ne (omega (arith, row, e)) in
            ground (arith, col, ap bricks row)
        | no other ↦ ground (arith, other)
      ])

one_less : (n : ℕ) → pos (n + 1) -ℤ pos 1 ≡ pos n
unfolding ◌-ℤ◌
one_less n = ground arith

break_brick-IsPlay :
    (s : Breakout) (i : ℕ)
    → i < 50
    → stands s.bricks i ≡ true
    → s.game_won ≡ false
    → IsPlay s
    → IsPlay (break_brick (i / 10) (i % 10) s)
break_brick-IsPlay s i lt here on p =
    let less = standing-break s.bricks i lt here in
    let left : s.bricks_left -ℤ pos 1 ≡ pos (standing (set_brick (i / 10) (i % 10) 0 s.bricks)) =
      ap (λ z. z -ℤ pos 1) (p.counted ∙ ap pos less)
      ∙ one_less (standing (set_brick (i / 10) (i % 10) 0 s.bricks)) in
    elim (Bool-cases (leb_ℤ (s.bricks_left -ℤ pos 1) (pos 0))) [
      | inl e ↦ rw e (record {
        width = p.width;
        paddle = p.paddle;
        screen = p.screen;
        wide = p.wide;
        at = p.at;
        inside = p.inside;
        counted = left;
        over = p.over;
        won = ground (arith, ap (λ z. leb_ℤ z (pos 0)) left, e);
      })
      | inr e ↦ rw e (record {
        width = p.width;
        paddle = p.paddle;
        screen = p.screen;
        wide = p.wide;
        at = p.at;
        inside = p.inside;
        counted = left;
        over = p.over;
        won = on ∙ ground (arith, ap (λ z. leb_ℤ z (pos 0)) left, e);
      })
    ]

touches-stands :
    (bx by : ℤ) (s : Breakout) (r c : ℕ)
    → touches bx by s r c ≡ true
    → not (s.bricks r c == 0) ≡ true
touches-stands bx by s r c h = ground (arith, h)

hit_brick-IsPlay :
    (bx by : ℤ) (s : Breakout) → s.game_won ≡ false → IsPlay s → IsPlay (hit_brick bx by s)
unfolding hit_brick
hit_brick-IsPlay bx by s on p =
    elim (Option-cases (find_from 50 0 (λ i. touches bx by s (i / 10) (i % 10)))) [
      | inl e ↦ rw (e, hit_brick) p
      | inr (i, e) ↦
          let f = find_from-some 50 0 (λ j. touches bx by s (j / 10) (j % 10)) i e in
          rw (e, hit_brick)
            (break_brick-IsPlay s i (omega (arith, f.below))
              (touches-stands bx by s (i / 10) (i % 10) f.passes) on p)
    ]

ball_step-IsPlay :
    (s : Breakout) → s.game_over ≡ false → s.game_won ≡ false → IsPlay s → IsPlay (ball_step s)
ball_step-IsPlay s on on' p =
    let t = move_ball s in
    let bx = fx_to_int t.ball_x in
    let by = fx_to_int t.ball_y in
    let u = off_walls bx by t in
    let moved : IsPlay t =
      Same-IsPlay s t
        (record {
          screen = refl;
          wide = refl;
          at = refl;
          left = refl;
          bricks = refl;
          lives = refl;
          over = refl;
          won = refl;
        })
        p in
    let e = off_walls-Same bx by t in
    let e' = off_paddle-Same bx by u in
    let pu = Same-IsPlay t u e moved in
    if_both IsPlay (leb_ℤ u.scr_h by) (lose_ball-IsPlay u (e.over ∙ on) pu) (
      hit_brick-IsPlay bx by (off_paddle bx by u) (e'.won ∙ e.won ∙ on')
        (Same-IsPlay u (off_paddle bx by u) e' pu))

not-or : (a b : Bool) → a || b ≡ false → (a ≡ false) × (b ≡ false)
not-or a b h = ground (arith, h)

pub tick-IsPlay : (now : ℕ) (s : Breakout) → IsPlay s → IsPlay (breakout_tick now s).1
unfolding breakout_tick
tick-IsPlay now s p = elim (Bool-cases (s.game_over || s.game_won)) [
  | inl e ↦ rw e p
  | inr e ↦
      let (a, b) = not-or s.game_over s.game_won e in
      let t = record s { last_tick = now } in
      let pt =
        Same-IsPlay s t
          (record {
            screen = refl;
            wide = refl;
            at = refl;
            left = refl;
            bricks = refl;
            lives = refl;
            over = refl;
            won = refl;
          })
          p in
      rw e (
        if_both {A = Bool × Breakout} (λ r. IsPlay r.1)
          (ltb_ℤ (int_of ((now + 2 ^ 64 - s.last_tick) % 2 ^ 64)) (pos 3)) p
          (ball_step-IsPlay t a b pt))
]

-- The paddle stands somewhere else on the screen.
paddle-IsPlay :
    (s : Breakout) (p : IsPlay s) (x : ℤ) (n : ℕ)
    → x ≡ pos n
    → n + 80 ≤ p.width
    → IsPlay (record s { paddle_x = x })
paddle-IsPlay s p x n e h = record {
  width = p.width;
  paddle = n;
  screen = p.screen;
  wide = p.wide;
  at = e;
  inside = h;
  counted = p.counted;
  over = p.over;
  won = p.won;
}

pub sub_pos : (a b : ℕ) → b ≤ a → pos a -ℤ pos b ≡ pos (a - b)
unfolding ◌-ℤ◌
sub_pos a b h = ground arith

pub add_pos : (a b : ℕ) → pos a +ℤ pos b ≡ pos (a + b)
unfolding ◌+ℤ◌
add_pos a b = ground arith

go_left-IsPlay : (s : Breakout) → IsPlay s → IsPlay (go_left s)
unfolding ◌-ℤ◌
go_left-IsPlay s p =
    paddle-IsPlay s p (go_left s).paddle_x (p.paddle - 8) (rw p.at (ground arith))
      (omega (arith, p.inside))

-- The paddle goes to the right as far as the screen allows.
go_right-IsPlay : (s : Breakout) → IsPlay s → IsPlay (go_right s)
go_right-IsPlay s p =
    let x = ap (λ z. z +ℤ paddle_speed) p.at ∙ add_pos p.paddle 8 in
    let limit : s.scr_w -ℤ s.paddle_w ≡ pos (p.width - 80) =
      ap (λ z. z -ℤ s.paddle_w) p.screen
      ∙ ap (λ z. pos p.width -ℤ z) p.wide
      ∙ sub_pos p.width 80 (omega (arith, p.inside)) in
    elim (dec_lt (p.width - 80) (p.paddle + 8)) [
      | yes h ↦
          paddle-IsPlay s p (go_right s).paddle_x (p.width - 80) (rw (x, limit) (ground (arith, h)))
            (omega (arith, p.inside))
      | no h ↦
          paddle-IsPlay s p (go_right s).paddle_x (p.paddle + 8) (rw (x, limit) (ground (arith, h)))
            (omega (arith, p.inside))
    ]

pub key-IsPlay : (key : ℕ) (s : Breakout) → IsPlay s → IsPlay (breakout_key key s)
unfolding breakout_key
key-IsPlay key s p =
    let t = if is_left key && ltb_ℤ (pos 0) s.paddle_x then go_left s else s in
    let q : IsPlay t =
      if_both IsPlay (is_left key && ltb_ℤ (pos 0) s.paddle_x) (go_left-IsPlay s p) p in
    if_both IsPlay (s.game_over || s.game_won) p (
      if_both IsPlay (is_right key && ltb_ℤ t.paddle_x (t.scr_w -ℤ t.paddle_w))
        (go_right-IsPlay t q) q)
