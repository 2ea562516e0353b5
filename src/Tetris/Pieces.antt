-- ===== src/Tetris/Pieces.antt =====
-- The current piece never leaves the board and never covers a cell that is taken.
use dragoon_kernel.Prelude.{
  ℕ, zero, suc, ◌+◌, ◌%◌, ◌≡◌, Bool, true, false, ◌&&◌, ◌==◌, if◌then◌else◌, if_both, arith, refl,
  ap, ◌⊎◌, inl, inr, Bool-cases, ◌^◌, ◌-◌, ◌<◌, not, ℕ_discrete, ◌||◌,
}
use dragoon_kernel.Prelude.Int.{pos, ◌+ℤ◌, ◌-ℤ◌, ltb_ℤ, int_of, negsuc, ℤ}
use dragoon_kernel.Input.{key_left, key_right, key_up, key_down}
use dragoon_kernel.Tetris.{
  Tetris, fits, fits_at, hard_drop, tetris_key, tetris_tick, tetris_init, spawn_piece, land,
  key_space, all_below, piece_bit, is_open,
}

-- Unless the game is over, the current piece fits where it is.
abbrev pub IsFitting : Tetris → Type 0
IsFitting s = (s.game_over ≡ true) ⊎ (fits s.board s.cur_piece s.cur_rot s.cur_x s.cur_y ≡ true)

-- A test that guards one of two outcomes.
guarded :
    (P : Tetris → Type 0) (b : Bool) (s t : Tetris)
    → (b ≡ true → P s)
    → P t
    → P (if b then s else t)
guarded P true s t p q = p refl
guarded P false s t p q = q

first_true : (a b : Bool) → (a && b) ≡ true → a ≡ true
first_true true b e = refl
first_true false b e = absurd (ground (arith, e))

both_true : (a b : Bool) → (a && b) ≡ true → b ≡ true
both_true true b e = e
both_true false b e = absurd (ground (arith, e))

spawn_piece-IsFitting : (s : Tetris) → IsFitting (spawn_piece s)
unfolding spawn_piece
spawn_piece-IsFitting s = elim (Bool-cases (fits s.board s.next_piece 0 (pos 3) (negsuc 0))) [
  | inl e ↦ inr e
  | inr e ↦ inl (ap (λ b. if b then s.game_over else true) e)
]

hard_drop-IsFitting : (fuel : ℕ) (s : Tetris) → IsFitting s → IsFitting (hard_drop fuel s)
unfolding hard_drop
hard_drop-IsFitting zero s p = p
hard_drop-IsFitting (suc fuel) s p =
    elim (Bool-cases (fits_at s s.cur_rot s.cur_x (s.cur_y +ℤ pos 1))) [
      | inl e ↦
          rw (e, hard_drop)
            (hard_drop-IsFitting fuel (record s { cur_y = s.cur_y +ℤ pos 1 }) (inr e))
      | inr e ↦ rw (e, hard_drop) p
    ]

tetris_key-IsFitting : (key : ℕ) (s : Tetris) → IsFitting s → IsFitting (tetris_key key s)
unfolding tetris_key
tetris_key-IsFitting key s p =
    let new_rot = (s.cur_rot + 1) % 4 in
    guarded IsFitting s.game_over s _ (λ e. p)
      (guarded IsFitting ((key == key_left) && fits_at s s.cur_rot (s.cur_x -ℤ pos 1) s.cur_y)
        (record s { cur_x = s.cur_x -ℤ pos 1 }) _
        (λ e. inr (both_true (key == key_left) (fits_at s s.cur_rot (s.cur_x -ℤ pos 1) s.cur_y) e))
        (guarded IsFitting ((key == key_right) && fits_at s s.cur_rot (s.cur_x +ℤ pos 1) s.cur_y)
          (record s { cur_x = s.cur_x +ℤ pos 1 }) _
          (λ e.
            inr (both_true (key == key_right) (fits_at s s.cur_rot (s.cur_x +ℤ pos 1) s.cur_y) e))
          (guarded IsFitting ((key == key_down) && fits_at s s.cur_rot s.cur_x (s.cur_y +ℤ pos 1))
            (record s { cur_y = s.cur_y +ℤ pos 1 }) _
            (λ e.
              inr (both_true (key == key_down) (fits_at s s.cur_rot s.cur_x (s.cur_y +ℤ pos 1)) e))
            (if_both IsFitting (key == key_up)
              (guarded IsFitting (fits_at s new_rot s.cur_x s.cur_y)
                (record s { cur_rot = new_rot }) s (λ e. inr e) p)
              (if_both IsFitting (key == key_space) (hard_drop-IsFitting 32 s p) p)))))

land-IsFitting : (s : Tetris) → IsFitting (land s)
land-IsFitting s = spawn_piece-IsFitting _

abbrev Fitting : Bool × Tetris → Type 0
Fitting r = IsFitting r.1

tetris_tick-IsFitting : (now : ℕ) (s : Tetris) → IsFitting s → IsFitting (tetris_tick now s).1
unfolding tetris_tick
tetris_tick-IsFitting now s p =
    let t = record s { last_drop = now } in
    if_both Fitting s.game_over p (
      if_both Fitting (ltb_ℤ (int_of ((now + 2 ^ 64 - s.last_drop) % 2 ^ 64)) s.drop_interval) p (
        guarded IsFitting (fits_at s s.cur_rot s.cur_x (s.cur_y +ℤ pos 1))
          (record t { cur_y = s.cur_y +ℤ pos 1 }) (land t) (λ e. inr e) (land-IsFitting t)))

-- A game: its beginning, and then keys and ticks in any order.
pub data Game : Tetris → Type 0 where
  begin : (now later : ℕ) (s : Tetris) → Game (tetris_init now later s)
  key_pressed : (key : ℕ) (s : Tetris) → Game s → Game (tetris_key key s)
  ticked : (now : ℕ) (s : Tetris) → Game s → Game (tetris_tick now s).1

tetris_init-IsFitting : (now later : ℕ) (s : Tetris) → IsFitting (tetris_init now later s)
unfolding tetris_init
tetris_init-IsFitting now later s = elim (spawn_piece-IsFitting _) [ inl e ↦ inl e | inr e ↦ inr e ]

Game-IsFitting : (s : Tetris) → Game s → IsFitting s
Game-IsFitting s (begin now later t) = tetris_init-IsFitting now later t
Game-IsFitting s (key_pressed key t g) = tetris_key-IsFitting key t (Game-IsFitting t g)
Game-IsFitting s (ticked now t g) = tetris_tick-IsFitting now t (Game-IsFitting t g)

-- Where a cell may stand: on one of the 10 columns, and above the board or on a free cell of its 20 rows.
abbrev pub IsRoom : (ℕ → ℕ → ℕ) → ℤ → ℤ → Type 0
IsRoom board (negsuc n) y = ⊥
IsRoom board (pos x) (negsuc n) = x < 10
IsRoom board (pos x) (pos y) = (x < 10) × (y < 20) × (board y x ≡ 0)

-- Unless the game is over, each cell of the current piece has room where it stands.
abbrev pub IsPlaced : Tetris → Type 0
IsPlaced s =
    (s.game_over ≡ true)
    ⊎ ((r c : ℕ)
        → r < 4
        → c < 4
        → piece_bit s.cur_piece s.cur_rot r c ≡ true
        → IsRoom s.board (s.cur_x +ℤ pos c) (s.cur_y +ℤ pos r))

all_below-each : (n : ℕ) (p : ℕ → Bool) → all_below n p ≡ true → (i : ℕ) → i < n → p i ≡ true
unfolding all_below
all_below-each zero p e i lt = absurd (omega arith)
all_below-each (suc n) p e i lt = elim (ℕ_discrete i n) [
  | yes here ↦ rw here (both_true (all_below n p) (p n) e)
  | no other ↦ all_below-each n p (first_true (all_below n p) (p n) e) i (omega arith)
]

is_open-IsRoom : (board : ℕ → ℕ → ℕ) (x y : ℤ) → is_open board x y ≡ true → IsRoom board x y
is_open-IsRoom board (negsuc n) y e = ground (arith, e)
is_open-IsRoom board (pos x) (negsuc n) e = ground (arith, e)
is_open-IsRoom board (pos x) (pos y) e = (ground (arith, e), ground (arith, e), ground (arith, e))

bit_open : (a b : Bool) → (not a || b) ≡ true → a ≡ true → b ≡ true
bit_open a b e h = ground (arith, e, h)

fits-IsRoom :
    (board : ℕ → ℕ → ℕ) (piece rot : ℕ) (x y : ℤ) (r c : ℕ)
    → fits board piece rot x y ≡ true
    → r < 4
    → c < 4
    → piece_bit piece rot r c ≡ true
    → IsRoom board (x +ℤ pos c) (y +ℤ pos r)
unfolding fits
fits-IsRoom board piece rot x y r c e hr hc b = is_open-IsRoom board (x +ℤ pos c) (y +ℤ pos r) (
    bit_open (piece_bit piece rot r c) (is_open board (x +ℤ pos c) (y +ℤ pos r))
      (all_below-each 4 _ (all_below-each 4 _ e r hr) c hc) b)

-- At every point of a game of tetris, from `tetris_init` on and through any keys and ticks, the game
-- is over or each cell of the current piece is on one of the 10 columns and either above the board or
-- on one of its 20 rows, on a cell that is not taken.
pub Game-IsPlaced : (s : Tetris) → Game s → IsPlaced s
Game-IsPlaced s g = elim (Game-IsFitting s g) [
  | inl over ↦ inl over
  | inr e ↦
      inr (λ r c hr hc b. fits-IsRoom s.board s.cur_piece s.cur_rot s.cur_x s.cur_y r c e hr hc b)
]
