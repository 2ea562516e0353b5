-- ===== src/Tetris.antt =====
-- games/tetris.c without its drawing and its main loop. `now` is what `timer_get_ticks` answers.
pub mod Lines
pub mod Pieces
mod Tests
use dragoon_kernel.Prelude.{
  ℕ, zero, suc, ◌+◌, ◌-◌, ◌*◌, ◌/◌, ◌%◌, ◌^◌, Bool, true, false, not, ◌&&◌, ◌||◌, List, [], ◌∷◌,
  update, ltb, leb, ◌==◌, if◌then◌else◌, for_range,
}
use dragoon_kernel.Prelude.Int.{ℤ, pos, negsuc, minus_one, ◌+ℤ◌, ◌-ℤ◌, ltb_ℤ, int_of}
use dragoon_kernel.Bits.{nth_bit}
use dragoon_kernel.Input.{key_left, key_right, key_up, key_down}

abbrev pub board_w : ℕ
board_w = 10

abbrev pub board_h : ℕ
board_h = 20

abbrev pub key_space : ℕ
key_space = 32

-- The element of a table, 0 behind its end.
abbrev pub item : List ℕ → ℕ → ℕ
item [] i = 0
item (k ∷ table) zero = k
item (k ∷ table) (suc i) = item table i

-- The four rotations of each piece, one after the other.
abbrev pub pieces : List ℕ
pieces =
    0x0F00 ∷ 0x2222 ∷ 0x00F0 ∷ 0x4444 ∷ 0x6600 ∷ 0x6600 ∷ 0x6600 ∷ 0x6600 ∷ 0x0E40 ∷ 0x4C40 ∷ 0x4E00
    ∷ 0x4640 ∷ 0x06C0 ∷ 0x8C40 ∷ 0x6C00 ∷ 0x4620 ∷ 0x0C60 ∷ 0x4C80 ∷ 0xC600 ∷ 0x2640 ∷ 0x0E80
    ∷ 0xC440 ∷ 0x2E00 ∷ 0x44C0 ∷ 0x0E20 ∷ 0x44C0 ∷ 0x8E00 ∷ 0xC440 ∷ []

pub record Tetris : Type 0 where
  pub rng_state : ℕ
  pub board : ℕ → ℕ → ℕ
  pub cur_piece : ℕ
  pub cur_rot : ℕ
  pub cur_x : ℤ
  pub cur_y : ℤ
  pub next_piece : ℕ
  pub score : ℕ
  pub level : ℕ
  pub lines : ℕ
  pub game_over : Bool
  pub last_drop : ℕ
  pub drop_interval : ℤ

-- The next random number, whose upper half modulo 7 is the piece.
abbrev pub rng_next : ℕ → ℕ
rng_next state = (state * 1103515245 + 12345) % 2 ^ 32

abbrev pub rng_piece : ℕ → ℕ
rng_piece state = rng_next state / 2 ^ 16 % 7

pub piece_bit : ℕ → ℕ → ℕ → ℕ → Bool
piece_bit piece rot r c = nth_bit (15 - (r * 4 + c)) (item pieces (piece * 4 + rot)) == 1

-- A loop that stops with false where a test fails.
pub all_below : ℕ → (ℕ → Bool) → Bool
all_below zero p = true
all_below (suc n) p = all_below n p && p n

-- May a cell of a piece stand here? Above the board it may.
abbrev pub is_open : (ℕ → ℕ → ℕ) → ℤ → ℤ → Bool
is_open board (negsuc n) by = false
is_open board (pos x) (negsuc n) = ltb x board_w
is_open board (pos x) (pos y) = ltb x board_w && ltb y board_h && (board y x == 0)

pub fits : (ℕ → ℕ → ℕ) → ℕ → ℕ → ℤ → ℤ → Bool
fits board piece rot px py = all_below 4 (λ r.
    all_below 4 (λ c. not (piece_bit piece rot r c) || is_open board (px +ℤ pos c) (py +ℤ pos r)))

-- `board[by][bx] = v`, if that is on the board.
abbrev pub set_cell : ℤ → ℤ → ℕ → (ℕ → ℕ → ℕ) → ℕ → ℕ → ℕ
set_cell (negsuc n) by v board = board
set_cell (pos x) (negsuc n) v board = board
set_cell (pos x) (pos y) v board =
    if ltb y board_h && ltb x board_w then update board y (update (board y) x v) else board

pub lock_piece : Tetris → Tetris
lock_piece s = record s {
  board =
      for_range 4 0
        (λ r b.
          for_range 4 0
            (λ c b'.
              if piece_bit s.cur_piece s.cur_rot r c
              then set_cell (s.cur_x +ℤ pos c) (s.cur_y +ℤ pos r) (s.cur_piece + 1) b'
              else b')
            b)
        s.board;
}

pub row_full : (ℕ → ℕ → ℕ) → ℕ → Bool
row_full board r = all_below board_w (λ c. not (board r c == 0))

-- The rows above `r` come down by one, and the first is cleared.
pub drop_row : ℕ → (ℕ → ℕ → ℕ) → ℕ → ℕ → ℕ
drop_row r board zero c = if ltb c board_w then 0 else board 0 c
drop_row r board (suc j) c = if ltb j r && ltb c board_w then board j c else board (suc j) c

-- The loop over the rows below `n`, from the last up; a cleared row is looked at again.
pub clear_from : ℕ → ℕ → (ℕ → ℕ → ℕ) → ℕ × (ℕ → ℕ → ℕ)
clear_from zero n board = (0, board)
clear_from (suc fuel) zero board = (0, board)
clear_from (suc fuel) (suc r) board = elim (row_full board r) [
  | true ↦
      let (cleared, board') = clear_from fuel (suc r) (drop_row r board) in (cleared + 1, board')
  | false ↦ clear_from fuel r board
]

pub clear_lines : (ℕ → ℕ → ℕ) → ℕ × (ℕ → ℕ → ℕ)
clear_lines board = clear_from (2 * board_h) board_h board

pub spawn_piece : Tetris → Tetris
spawn_piece s =
    let x = pos (board_w / 2 - 2) in
    record s {
      cur_piece = s.next_piece;
      next_piece = rng_piece s.rng_state;
      rng_state = rng_next s.rng_state;
      cur_rot = 0;
      cur_x = x;
      cur_y = minus_one;
      game_over = if fits s.board s.next_piece 0 x minus_one then s.game_over else true;
    }

-- The clock is read at the beginning and at the end.
pub tetris_init : ℕ → ℕ → Tetris → Tetris
tetris_init now later s =
    let seed = now % 2 ^ 32 in
    record (spawn_piece (record s {
      rng_state = rng_next seed;
      board = λ r c. if ltb r board_h && ltb c board_w then 0 else s.board r c;
      score = 0;
      level = 1;
      lines = 0;
      game_over = false;
      drop_interval = pos 50;
      next_piece = rng_piece seed;
    })) { last_drop = later }

abbrev pub fits_at : Tetris → ℕ → ℤ → ℤ → Bool
fits_at s rot x y = fits s.board s.cur_piece rot x y

-- `while (fits(...)) cur_y++`, `fuel` times at most.
pub hard_drop : ℕ → Tetris → Tetris
hard_drop zero s = s
hard_drop (suc fuel) s = elim (fits_at s s.cur_rot s.cur_x (s.cur_y +ℤ pos 1)) [
  | true ↦ hard_drop fuel (record s { cur_y = s.cur_y +ℤ pos 1 })
  | false ↦ s
]

-- A key that moves the piece does so if the piece fits there, and otherwise is tried against the next keys.
pub tetris_key : ℕ → Tetris → Tetris
tetris_key key s =
    let new_rot = (s.cur_rot + 1) % 4 in
    if s.game_over
    then s
    else if (key == key_left) && fits_at s s.cur_rot (s.cur_x -ℤ pos 1) s.cur_y
    then record s { cur_x = s.cur_x -ℤ pos 1 }
    else if (key == key_right) && fits_at s s.cur_rot (s.cur_x +ℤ pos 1) s.cur_y
    then record s { cur_x = s.cur_x +ℤ pos 1 }
    else if (key == key_down) && fits_at s s.cur_rot s.cur_x (s.cur_y +ℤ pos 1)
    then record s { cur_y = s.cur_y +ℤ pos 1 }
    else if key == key_up
    then (if fits_at s new_rot s.cur_x s.cur_y then record s { cur_rot = new_rot } else s)
    else if key == key_space
    then hard_drop 32 s
    else s

abbrev pub scores : List ℕ
scores = 0 ∷ 100 ∷ 300 ∷ 500 ∷ 800 ∷ []

-- The lines that were cleared count.
abbrev pub count_lines : ℕ → Tetris → Tetris
count_lines cl s =
    let lines = s.lines + cl in
    let level = 1 + lines / 10 in
    let interval = pos 50 -ℤ pos ((level - 1) * 4) in
    if ltb 0 cl
    then record s {
      score = s.score + item scores cl * s.level;
      lines = lines;
      level = level;
      drop_interval = if ltb_ℤ interval (pos 8) then pos 8 else interval;
    }
    else s

-- The piece has landed.
abbrev pub land : Tetris → Tetris
land s =
    let t = lock_piece s in
    let (cl, board) = clear_lines t.board in
    spawn_piece (count_lines cl (record t { board = board }))

pub tetris_tick : ℕ → Tetris → Bool × Tetris
tetris_tick now s =
    let t = record s { last_drop = now } in
    if s.game_over
    then (false, s)
    else if ltb_ℤ (int_of ((now + 2 ^ 64 - s.last_drop) % 2 ^ 64)) s.drop_interval
    then (false, s)
    else (
      true,
      if fits_at s s.cur_rot s.cur_x (s.cur_y +ℤ pos 1)
          then record t { cur_y = s.cur_y +ℤ pos 1 }
          else land t,
    )
