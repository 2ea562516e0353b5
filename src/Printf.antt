-- ===== src/Printf.antt =====
-- kernel/printf.c: formatted printing, as the list of the bytes sent to the UART.
-- `none` is what the source leaves undefined: an argument that is missing or of another kind, a width beyond
-- the 64 bytes of `buf`, or a format that ends within a conversion.
pub mod Decimal
mod Tests
use dragoon_kernel.Prelude.{
  ℕ, zero, suc, ◌+◌, ◌-◌, ◌*◌, ◌/◌, ◌%◌, ◌^◌, Bool, true, false, not, ◌&&◌, ◌||◌, Option, none,
  some, List, [], ◌∷◌, ◌++◌, map, ltb, leb, ◌==◌, if◌then◌else◌, length,
}
use dragoon_kernel.Prelude.Int.{ℤ, pos, negsuc, int_of}

pub print_char : ℕ → List ℕ
print_char c = if c == 10 then 13 ∷ 10 ∷ [] else c ∷ []

pub print_chars : List ℕ → List ℕ
unfolding print_char
print_chars [] = []
print_chars (c ∷ s) = print_char c ++ print_chars s

-- `none` is a null pointer.
pub print_string : Option (List ℕ) → List ℕ
unfolding print_chars
print_string none = print_chars (40 ∷ 110 ∷ 117 ∷ 108 ∷ 108 ∷ 41 ∷ [])
print_string (some s) = print_chars s

-- `digits[d]`.
abbrev pub digit_char : Bool → ℕ → ℕ
digit_char is_upper d = if ltb d 10 then 48 + d else if is_upper then 55 + d else 87 + d

-- The digits of `val`, the highest first, in front of those found already.
pub digits_of : ℕ → ℕ → ℕ → List ℕ → List ℕ
digits_of zero base val found = found
digits_of (suc fuel) base val found =
    let rest = digits_of fuel base (val / base) (val % base ∷ found) in
    if val == 0 then found else rest

abbrev pub repeat : ℕ → ℕ → List ℕ
repeat zero c = []
repeat (suc n) c = c ∷ repeat n c

-- The base is 10 or 16, so 64 rounds end every word.
pub unsigned_digits : ℕ → ℕ → List ℕ
unsigned_digits val base = if val == 0 then 0 ∷ [] else digits_of 64 base val []

pub print_unsigned : ℕ → ℕ → ℕ → ℕ → Bool → Option (List ℕ)
unfolding unsigned_digits
print_unsigned val base width pad is_upper =
    if ltb 64 width
    then none
    else let ds = map (digit_char is_upper) (unsigned_digits val base) in
      some (repeat (width - length ds) pad ++ ds)

pub print_signed : ℤ → ℕ → ℕ → Option (List ℕ)
unfolding print_unsigned
print_signed (pos n) width pad = print_unsigned n 10 width pad false
print_signed (negsuc n) width pad = elim (print_unsigned (n + 1) 10 (width - 1) pad false) [
  | none ↦ none
  | some out ↦ some (45 ∷ out)
]

-- An argument: a word, or a string.
pub data Arg : Type 0 where
  word : ℕ → Arg
  str : Option (List ℕ) → Arg

abbrev pub signed_of : Bool → ℕ → ℤ
signed_of is_long w =
    if not is_long then int_of w else if ltb w (2 ^ 63) then pos w else negsuc (2 ^ 64 - 1 - w)

abbrev pub unsigned_of : Bool → ℕ → ℕ
unsigned_of is_long w = if is_long then w else w % 2 ^ 32

-- What follows the digits of a width, with the width.
abbrev pub parse_width : ℕ → List ℕ → ℕ × List ℕ
parse_width width [] = (width, [])
parse_width width (c ∷ fmt) =
    if leb 48 c && leb c 57 then parse_width (width * 10 + (c - 48)) fmt else (width, c ∷ fmt)

abbrev pub parse_pad : List ℕ → ℕ × List ℕ
parse_pad [] = (32, [])
parse_pad (c ∷ fmt) = if c == 48 then (48, fmt) else (32, c ∷ fmt)

abbrev pub skip_l : List ℕ → Bool × List ℕ
skip_l [] = (false, [])
skip_l (c ∷ fmt) = if c == 108 then (true, fmt) else (false, c ∷ fmt)

-- `l` or `ll`; both are 64 bits wide.
abbrev pub parse_length : List ℕ → Bool × List ℕ
parse_length fmt =
    let (is_long, rest) = skip_l fmt in if is_long then (true, (skip_l rest).1) else (false, rest)

-- A conversion that takes an argument.
abbrev pub convert_arg : ℕ → ℕ → ℕ → Bool → Arg → Option (List ℕ)
convert_arg c width pad is_long (str s) = if c == 115 then some (print_string s) else none
convert_arg c width pad is_long (word w) =
    if c == 100 || c == 105
    then print_signed (signed_of is_long w) width pad
    else if c == 117
    then print_unsigned (unsigned_of is_long w) 10 width pad false
    else if c == 120
    then print_unsigned (unsigned_of is_long w) 16 width pad false
    else if c == 88
    then print_unsigned (unsigned_of is_long w) 16 width pad true
    else if c == 112
    then (elim (print_unsigned w 16 0 48 false) [ none ↦ none | some out ↦ some (48 ∷ 120 ∷ out) ])
    else if c == 99
    then some (print_char (w % 256))
    else none

abbrev pub takes_arg : ℕ → Bool
takes_arg c =
    c == 100 || c == 105 || c == 117 || c == 120 || c == 88 || c == 112 || c == 115 || c == 99

-- One conversion, its letter `c` included: what it prints, and the arguments left.
pub convert : ℕ → ℕ → ℕ → Bool → List Arg → Option (List ℕ × List Arg)
unfolding print_unsigned print_signed print_string print_char
convert c width pad is_long args =
    if not (takes_arg c)
    then some (37 ∷ (if c == 37 then [] else print_char c), args)
    else elim args [
      | [] ↦ none
      | a ∷ args' ↦ elim (convert_arg c width pad is_long a) [
        | none ↦ none
        | some out ↦ some (out, args')
      ]
    ]

-- The loop, with the length of the format as fuel.
pub print_loop : ℕ → List ℕ → List Arg → Option (List ℕ)
unfolding convert print_char
print_loop fuel [] args = some []
print_loop zero (c ∷ fmt) args = none
print_loop (suc fuel) (c ∷ fmt) args =
    let plain = print_loop fuel fmt args in
    let (pad, after_pad) = parse_pad fmt in
    let (width, after_width) = parse_width 0 after_pad in
    let (is_long, spec) = parse_length after_width in
    if not (c == 37)
    then (elim plain [ none ↦ none | some out ↦ some (print_char c ++ out) ])
    else (elim spec [
      | [] ↦ none
      | letter ∷ fmt' ↦ elim (convert letter width pad is_long args) [
        | none ↦ none
        | some r ↦ elim (print_loop fuel fmt' r.1) [ none ↦ none | some out ↦ some (r.0 ++ out) ]
      ]
    ])

pub kvprintf : List ℕ → List Arg → Option (List ℕ)
unfolding print_loop
kvprintf fmt args = print_loop (length fmt) fmt args
