-- ===== src/Input.antt =====
-- kernel/input.c: keys from the serial line, with escape sequences, or from a virtio keyboard.
-- A byte of the UART, if its FIFO has one, and the virtio keyboard's answer are arguments.
pub mod Arrows
mod Tests
use dragoon_kernel.Prelude.{ℕ, Bool, ◌||◌, Option, none, some, ◌==◌, if◌then◌else◌}

abbrev pub key_none : ℕ
key_none = 0

abbrev pub key_up : ℕ
key_up = 128

abbrev pub key_down : ℕ
key_down = 129

abbrev pub key_left : ℕ
key_left = 130

abbrev pub key_right : ℕ
key_right = 131

abbrev pub key_enter : ℕ
key_enter = 10

abbrev pub key_esc : ℕ
key_esc = 27

abbrev pub key_backspace : ℕ
key_backspace = 127

-- The key of a byte outside an escape sequence, and that of the byte that ends one.
abbrev pub plain_key : ℕ → ℕ
plain_key c =
    if c == 13 || c == 10 then key_enter else if c == 127 || c == 8 then key_backspace else c

abbrev pub arrow_key : ℕ → ℕ
arrow_key c =
    if c == 65
    then key_up
    else if c == 66
    then key_down
    else if c == 67
    then key_right
    else if c == 68
    then key_left
    else key_none

-- The key and the next `esc_state`: 0 outside a sequence, 1 after ESC, 2 after ESC [.
pub uart_poll : ℕ → Option ℕ → ℕ × ℕ
uart_poll esc_state none = (key_none, esc_state)
uart_poll esc_state (some c) =
    if esc_state == 0
    then (if c == 27 then (key_none, 1) else (plain_key c, 0))
    else if esc_state == 1
    then (if c == 91 then (key_none, 2) else (key_esc, 0))
    else if esc_state == 2
    then (arrow_key c, 0)
    else (key_none, 0)

-- `virtio` is what `virtio_kbd_poll` answers, if that device is available.
pub input_poll : Option ℕ → ℕ → Option ℕ → ℕ × ℕ
unfolding uart_poll
input_poll none esc_state byte = uart_poll esc_state byte
input_poll (some key) esc_state byte =
    if key == key_none then uart_poll esc_state byte else (key, esc_state)
