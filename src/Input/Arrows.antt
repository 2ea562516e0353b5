-- ===== src/Input/Arrows.antt =====
-- What a stream of bytes of the serial line means.
use dragoon_kernel.Prelude.{
  true, ℕ, List, [], ◌∷◌, ◌≡◌, ◌≢◌, arith, some, ◌==◌, if◌then◌else◌, refl,
}
use dragoon_kernel.Input.{key_none, uart_poll}

-- The keys of a stream of bytes, one poll for each byte, from a state of the decoder.
pub keys : ℕ → List ℕ → List ℕ
unfolding uart_poll
keys esc_state [] = []
keys esc_state (c ∷ bytes) =
    let polled = uart_poll esc_state (some c) in
    let rest = keys polled.1 bytes in if polled.0 == key_none then rest else (polled.0 ∷ rest)

-- What is pressed on a terminal; its enter key may send a carriage return or a line feed, and its
-- backspace key 127 or 8.
pub data Press : Type 0 where
  up down left right return line_feed delete backspace : Press
  letter : ℕ → Press

abbrev pub bytes_of : List Press → List ℕ
bytes_of [] = []
bytes_of (up ∷ l) = 27 ∷ 91 ∷ 65 ∷ bytes_of l
bytes_of (down ∷ l) = 27 ∷ 91 ∷ 66 ∷ bytes_of l
bytes_of (right ∷ l) = 27 ∷ 91 ∷ 67 ∷ bytes_of l
bytes_of (left ∷ l) = 27 ∷ 91 ∷ 68 ∷ bytes_of l
bytes_of (return ∷ l) = 13 ∷ bytes_of l
bytes_of (line_feed ∷ l) = 10 ∷ bytes_of l
bytes_of (delete ∷ l) = 127 ∷ bytes_of l
bytes_of (backspace ∷ l) = 8 ∷ bytes_of l
bytes_of (letter c ∷ l) = c ∷ bytes_of l

-- A letter is no 0, no ESC and none of the bytes of the enter and backspace keys.
abbrev pub IsTyped : List Press → Type 0
IsTyped [] = true ≡ true
IsTyped (letter c ∷ l) = (c ≢ 0) × (c ≢ 8) × (c ≢ 10) × (c ≢ 13) × (c ≢ 27) × (c ≢ 127) × IsTyped l
IsTyped (up ∷ l) = IsTyped l
IsTyped (down ∷ l) = IsTyped l
IsTyped (left ∷ l) = IsTyped l
IsTyped (right ∷ l) = IsTyped l
IsTyped (return ∷ l) = IsTyped l
IsTyped (line_feed ∷ l) = IsTyped l
IsTyped (delete ∷ l) = IsTyped l
IsTyped (backspace ∷ l) = IsTyped l

-- The codes that kernel/input.h gives to the keys.
abbrev pub keys_of : List Press → List ℕ
keys_of [] = []
keys_of (up ∷ l) = 128 ∷ keys_of l
keys_of (down ∷ l) = 129 ∷ keys_of l
keys_of (left ∷ l) = 130 ∷ keys_of l
keys_of (right ∷ l) = 131 ∷ keys_of l
keys_of (return ∷ l) = 10 ∷ keys_of l
keys_of (line_feed ∷ l) = 10 ∷ keys_of l
keys_of (delete ∷ l) = 127 ∷ keys_of l
keys_of (backspace ∷ l) = 127 ∷ keys_of l
keys_of (letter c ∷ l) = c ∷ keys_of l

-- From the decoder's first state, polling the serial line for each byte of a sequence of key presses
-- gives the keys pressed, in order, and no others: the bytes ESC [ A, B, C and D the keys up, down,
-- right and left (128, 129, 131 and 130), the bytes 13 and 10 the key enter (10), 127 and 8 the key
-- backspace (127), and any other byte but 0 and ESC itself.
pub keys-bytes_of : (l : List Press) → IsTyped l → keys 0 (bytes_of l) ≡ keys_of l
unfolding keys
keys-bytes_of [] t = refl
keys-bytes_of (up ∷ l) t = let ih = keys-bytes_of l t in ground (arith, ih)
keys-bytes_of (down ∷ l) t = let ih = keys-bytes_of l t in ground (arith, ih)
keys-bytes_of (left ∷ l) t = let ih = keys-bytes_of l t in ground (arith, ih)
keys-bytes_of (right ∷ l) t = let ih = keys-bytes_of l t in ground (arith, ih)
keys-bytes_of (return ∷ l) t = let ih = keys-bytes_of l t in ground (arith, ih)
keys-bytes_of (line_feed ∷ l) t = let ih = keys-bytes_of l t in ground (arith, ih)
keys-bytes_of (delete ∷ l) t = let ih = keys-bytes_of l t in ground (arith, ih)
keys-bytes_of (backspace ∷ l) t = let ih = keys-bytes_of l t in ground (arith, ih)
keys-bytes_of (letter c ∷ l) (a, b, d, e, f, g, t) =
    let ih = keys-bytes_of l t in ground (arith, ih, a, b, d, e, f, g)
