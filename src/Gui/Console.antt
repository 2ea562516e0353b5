-- ===== src/Gui/Console.antt =====
-- kernel/gui.c: the built-in terminal. Its rows are arrays of bytes that end with a zero.
pub mod Screen
pub mod Lines
mod Tests
use dragoon_kernel.Prelude.{
  ℕ, zero, suc, ◌+◌, ◌-◌, ◌/◌, ◌%◌, Bool, true, false, ◌&&◌, none, some, List, [], ◌∷◌, ◌++◌,
  length, update, ltb, leb, ◌==◌, if◌then◌else◌, for_range, ◌||◌,
}
use dragoon_kernel.Kernel.{Task, max_tasks}
use dragoon_kernel.Task.{task_get}
use dragoon_kernel.Input.{key_enter, key_backspace}
use dragoon_kernel.Gui.Texts.{
  cmd_help, cmd_clear, cmd_ps, cmd_mem, help_line, tasks_line, free_prefix, pages_suffix,
  unknown_prefix, banner, hint, state_name,
}

abbrev pub term_cols : ℕ
term_cols = 60

abbrev pub term_rows : ℕ
term_rows = 20

abbrev pub input_max : ℕ
input_max = 56

pub record Terminal : Type 0 where
  pub term_buf : ℕ → ℕ → ℕ
  pub term_row : ℕ
  pub term_input : ℕ → ℕ
  pub term_input_len : ℕ

-- `term_buf[r][c] = ch`.
abbrev pub set_char : ℕ → ℕ → ℕ → (ℕ → ℕ → ℕ) → ℕ → ℕ → ℕ
set_char r c ch buf = update buf r (update (buf r) c ch)

abbrev pub clear_row : ℕ → (ℕ → ℕ → ℕ) → ℕ → ℕ → ℕ
clear_row r = for_range (term_cols + 1) 0 (λ c buf. set_char r c 0 buf)

abbrev pub copy_row_up : ℕ → (ℕ → ℕ → ℕ) → ℕ → ℕ → ℕ
copy_row_up r = for_range (term_cols + 1) 0 (λ c buf. set_char r c (buf (r + 1) c) buf)

pub term_clear : Terminal → Terminal
term_clear t = record t { term_buf = for_range term_rows 0 clear_row t.term_buf; term_row = 0 }

pub term_scroll : Terminal → Terminal
term_scroll t = record t {
  term_buf = clear_row (term_rows - 1) (for_range (term_rows - 1) 0 copy_row_up t.term_buf);
  term_row = term_rows - 1;
}

-- The bytes of `s` from the cell `c` on, as many as there is room for, and a zero behind them.
pub put_chars : ℕ → ℕ → List ℕ → (ℕ → ℕ) → ℕ → ℕ
put_chars zero c s cells = update cells c 0
put_chars (suc room) c [] cells = update cells c 0
put_chars (suc room) c (x ∷ s) cells =
    let rest = put_chars room (c + 1) s (update cells c x) in
    if x == 0 then update cells c 0 else rest

abbrev pub put_line_at : List ℕ → Terminal → Terminal
put_line_at s t = record t {
  term_buf = update t.term_buf t.term_row (put_chars term_cols 0 s (t.term_buf t.term_row));
  term_row = t.term_row + 1;
}

pub term_putline : List ℕ → Terminal → Terminal
unfolding term_scroll put_chars
term_putline s t = put_line_at s (if leb term_rows t.term_row then term_scroll t else t)

-- Two strings, up to the zero.
pub str_eq : List ℕ → List ℕ → Bool
str_eq [] [] = true
str_eq [] (b ∷ s) = b == 0
str_eq (a ∷ s) [] = a == 0
str_eq (a ∷ s) (b ∷ s') =
    let rest = str_eq s s' in
    if (a == 0) || (b == 0) then a == b else if a == b then rest else false

-- The first bytes of a string, up to the zero.
pub clip : ℕ → List ℕ → List ℕ
clip zero s = []
clip (suc n) [] = []
clip (suc n) (x ∷ s) = let rest = clip n s in if x == 0 then [] else x ∷ rest

-- The string in the cells from `c` on, which are so many.
pub text_at : ℕ → ℕ → (ℕ → ℕ) → List ℕ
text_at zero c cells = []
text_at (suc n) c cells =
    let rest = text_at n (c + 1) cells in if cells c == 0 then [] else cells c ∷ rest

-- The line that has been typed, once its zero is written.
pub typed : Terminal → List ℕ
unfolding text_at
typed t = text_at input_max 0 (update t.term_input t.term_input_len 0)

-- A number below 10 ^ 20, in decimal.
pub low_digits : ℕ → ℕ → List ℕ
low_digits zero v = []
low_digits (suc fuel) v =
    let rest = low_digits fuel (v / 10) in if v == 0 then [] else (48 + v % 10) ∷ rest

abbrev pub backwards : List ℕ → List ℕ → List ℕ
backwards [] done = done
backwards (x ∷ l) done = backwards l (x ∷ done)

abbrev pub number : ℕ → List ℕ
number v = if v == 0 then 48 ∷ [] else backwards (low_digits 20 v) []

-- The line of `ps` for the task `i`: the name ends before column 50, the state before column 58.
pub ps_line : Task → ℕ → List ℕ
unfolding clip
ps_line t i =
    let front = 32 ∷ 32 ∷ 91 ∷ (48 + i) % 256 ∷ 93 ∷ 32 ∷ clip 44 t.name ++ 32 ∷ 40 ∷ [] in
    front ++ clip (58 - length front) (state_name t.state) ++ 41 ∷ []

pub ps : (ℕ → Task) → Terminal → Terminal
unfolding ps_line
ps tasks =
    for_range max_tasks 0 (λ i t. elim (task_get tasks i) [
      | none ↦ t
      | some id ↦ term_putline (ps_line (tasks id) i) t
    ])

pub mem_line : ℕ → ℕ → List ℕ
unfolding clip
mem_line free_p total_p =
    let front = free_prefix ++ number free_p ++ 32 ∷ 47 ∷ 32 ∷ number total_p in
    front ++ clip (term_cols - length front) pages_suffix

-- The prefix is cut off after four bytes.
pub unknown_line : List ℕ → List ℕ
unfolding clip
unknown_line input = clip (term_cols - input_max) unknown_prefix ++ clip input_max input

-- What the line asks for. `free_p` and `total_p` are what the allocator says of its pages.
pub run_command : (ℕ → Task) → ℕ → ℕ → List ℕ → Terminal → Terminal
unfolding str_eq
run_command tasks free_p total_p input t =
    if str_eq input cmd_help
    then term_putline help_line t
    else if str_eq input cmd_clear
    then term_clear t
    else if str_eq input cmd_ps
    then ps tasks (term_putline tasks_line t)
    else if str_eq input cmd_mem
    then term_putline (mem_line free_p total_p) t
    else if ltb 0 t.term_input_len
    then term_putline (unknown_line input) t
    else t

abbrev pub type_char : ℕ → Terminal → Terminal
type_char key t = record t {
  term_input = update t.term_input t.term_input_len key;
  term_input_len = t.term_input_len + 1;
}

abbrev pub end_line : Terminal → Terminal
end_line t = record t { term_input = update t.term_input t.term_input_len 0 }

pub term_handle_key : (ℕ → Task) → ℕ → ℕ → ℕ → Terminal → Terminal
term_handle_key tasks free_p total_p key t =
    if key == key_enter
    then record (run_command tasks free_p total_p (typed t) (end_line t)) { term_input_len = 0 }
    else if key == key_backspace
    then (if ltb 0 t.term_input_len then record t { term_input_len = t.term_input_len - 1 } else t)
    else if leb 32 key && (ltb key 127 && ltb t.term_input_len input_max)
    then type_char key t
    else t

-- A new terminal.
pub term_open : Terminal → Terminal
term_open t =
    term_putline []
      (term_putline hint (term_putline banner (record (term_clear t) { term_input_len = 0 })))
