-- ===== src/Gpu.antt =====
-- kernel/gpu.c: drawing into the render target, a buffer of `cur_w * cur_h` pixels.
-- The buffers stand in one memory of pixels, so a pointer counts pixels; sizes of targets are natural numbers,
-- coordinates are integers.
pub mod Clip
pub mod Fill
mod Tests
use dragoon_kernel.Prelude.{
  ℕ, zero, suc, ◌+◌, ◌-◌, ◌*◌, ◌/◌, ◌%◌, Bool, true, false, not, ◌&&◌, ◌||◌, Option, none, some,
  List, [], ◌∷◌, update, ltb, leb, ◌==◌, if◌then◌else◌, for_range,
}
use dragoon_kernel.Prelude.Int.{ℤ, pos, negsuc, pos_part, ◌+ℤ◌, ◌-ℤ◌, ltb_ℤ, wrap}
use dragoon_kernel.Bits.{nth_bit}
use dragoon_kernel.Virtio.Input.{fb_width, fb_height}

abbrev pub font_width : ℕ
font_width = 8

abbrev pub font_height : ℕ
font_height = 16

pub record Gpu : Type 0 where
  pub frontbuf : ℕ
  pub backbuf : ℕ
  pub cur_buf : ℕ
  pub cur_w : ℕ
  pub cur_h : ℕ
  pub pixels : ℕ → ℕ

-- `back` is the buffer that `pages_alloc` gave, if it did.
pub gpu_init : ℕ → Option ℕ → Gpu → Gpu
gpu_init framebuffer back s =
    let b : ℕ = elim back [ none ↦ framebuffer | some a ↦ a ] in
    record s {
      frontbuf = framebuffer;
      backbuf = b;
      cur_buf = b;
      cur_w = fb_width;
      cur_h = fb_height;
    }

pub gpu_set_target : ℕ → ℕ → ℕ → Gpu → Gpu
gpu_set_target buf w h s = record s { cur_buf = buf; cur_w = w; cur_h = h }

pub gpu_reset_target : Gpu → Gpu
gpu_reset_target s = record s { cur_buf = s.backbuf; cur_w = fb_width; cur_h = fb_height }

-- The copy of the back buffer to the front, which do not overlap.
pub gpu_flip : Gpu → Gpu
gpu_flip s = if s.backbuf == s.frontbuf then s else record s {
  pixels = λ a.
      if leb s.frontbuf a && ltb a (s.frontbuf + fb_width * fb_height)
      then s.pixels (s.backbuf + (a - s.frontbuf))
      else s.pixels a;
}

-- `cur_buf[y * cur_w + x] = color`.
abbrev pub plot : ℕ → ℕ → ℕ → Gpu → Gpu
plot x y color s = record s { pixels = update s.pixels (s.cur_buf + (y * s.cur_w + x)) color }

pub gpu_clear : ℕ → Gpu → Gpu
gpu_clear color s = record s {
  pixels = for_range (s.cur_w * s.cur_h) 0 (λ i p. update p (s.cur_buf + i) color) s.pixels;
}

-- A coordinate from 0 on and below a limit.
abbrev pub inside : ℕ → ℤ → Option ℕ
inside limit (negsuc n) = none
inside limit (pos x) = if ltb x limit then some x else none

pub gpu_pixel : ℤ → ℤ → ℕ → Gpu → Gpu
gpu_pixel x y color s = elim (inside s.cur_w x) [
  | none ↦ s
  | some px ↦ elim (inside s.cur_h y) [ none ↦ s | some py ↦ plot px py color s ]
]

-- The coordinates from `x` on, `w` of them, that are from 0 on and below `limit`: the first and how many.
-- The end is a sum of `int`s.
abbrev pub first : ℤ → ℕ
first x = pos_part x

abbrev pub span : ℤ → ℤ → ℕ → ℕ
span x w limit =
    let end = wrap (x +ℤ w) in
    let x1 = if ltb_ℤ (pos limit) end then pos limit else end in pos_part x1 - first x

-- `n` pixels of the row `y` from `x` on.
abbrev pub paint_row : ℕ → ℕ → ℕ → ℕ → ℕ → ℕ → (ℕ → ℕ) → ℕ → ℕ
paint_row buf width y x n color p =
    for_range n x (λ i p'. update p' (buf + (y * width + i)) color) p

pub gpu_fill_rect : ℤ → ℤ → ℤ → ℤ → ℕ → Gpu → Gpu
gpu_fill_rect x y w h color s = record s {
  pixels =
      for_range (span y h s.cur_h) (first y)
        (λ j p. paint_row s.cur_buf s.cur_w j (first x) (span x w s.cur_w) color p) s.pixels;
}

pub gpu_hline : ℤ → ℤ → ℤ → ℕ → Gpu → Gpu
gpu_hline x y w color s = elim (inside s.cur_h y) [
  | none ↦ s
  | some py ↦ record s {
    pixels = paint_row s.cur_buf s.cur_w py (first x) (span x w s.cur_w) color s.pixels;
  }
]

pub gpu_vline : ℤ → ℤ → ℤ → ℕ → Gpu → Gpu
gpu_vline x y h color s = elim (inside s.cur_w x) [
  | none ↦ s
  | some px ↦ record s {
    pixels =
        for_range (span y h s.cur_h) (first y)
          (λ j p. update p (s.cur_buf + (j * s.cur_w + px)) color) s.pixels;
  }
]

pub gpu_draw_rect : ℤ → ℤ → ℤ → ℤ → ℕ → Gpu → Gpu
gpu_draw_rect x y w h color s =
    gpu_vline (wrap (x +ℤ w -ℤ pos 1)) y h color (
      gpu_vline x y h color
        (gpu_hline x (wrap (y +ℤ h -ℤ pos 1)) w color (gpu_hline x y w color s)))

-- Rows and columns of a picture at (x, y): `draw i j` is the colour of its pixel in column `i` of row `j`,
-- if that is not left out.
pub gpu_picture : ℕ → ℕ → (ℕ → ℕ → Option ℕ) → ℤ → ℤ → Gpu → Gpu
gpu_picture columns rows draw x y s =
    for_range rows 0
      (λ j t.
        for_range columns 0
          (λ i u. elim (draw i j) [
            | none ↦ u
            | some color ↦ gpu_pixel (wrap (x +ℤ pos i)) (wrap (y +ℤ pos j)) color u
          ])
          t)
      s

-- `src` is the picture's first pixel, `stride` the length of its rows; the source is read as it was.
pub gpu_blit : ℤ → ℤ → (ℕ → ℕ) → ℕ → ℕ → ℕ → Gpu → Gpu
gpu_blit dx dy src sw sh stride s = gpu_picture sw sh (λ i j. some (src (j * stride + i))) dx dy s

-- `glyph` is the font's picture of the character, 16 rows of 8 bits.
pub gpu_draw_char : (ℕ → ℕ → ℕ) → ℤ → ℤ → ℕ → ℕ → ℕ → Gpu → Gpu
gpu_draw_char glyph x y c fg bg s =
    gpu_picture font_width font_height
      (λ i j. some (if nth_bit (7 - i) (glyph c j) == 1 then fg else bg)) x y s

pub gpu_draw_string : (ℕ → ℕ → ℕ) → ℤ → ℤ → List ℕ → ℕ → ℕ → Gpu → Gpu
gpu_draw_string glyph x y [] fg bg s = s
gpu_draw_string glyph x y (c ∷ text) fg bg s =
    gpu_draw_string glyph (x +ℤ pos font_width) y text fg bg (gpu_draw_char glyph x y c fg bg s)

-- The digits of a number, the last first; an `int` has at most 10.
pub int_digits : ℕ → ℕ → List ℕ
int_digits zero val = []
int_digits (suc fuel) val =
    let rest = int_digits fuel (val / 10) in if val == 0 then [] else ((48 + val % 10) ∷ rest)

-- `l` backwards, in front of `text`.
abbrev pub onto : List ℕ → List ℕ → List ℕ
onto [] text = text
onto (c ∷ l) text = onto l (c ∷ text)

abbrev pub decimal : ℕ → List ℕ
decimal val = if val == 0 then 48 ∷ [] else onto (int_digits 10 val) []

-- A number as it is drawn.
pub int_text : ℤ → List ℕ
int_text (pos n) = decimal n
int_text (negsuc n) = 45 ∷ decimal (n + 1)

pub gpu_draw_int : (ℕ → ℕ → ℕ) → ℤ → ℤ → ℤ → ℕ → ℕ → Gpu → Gpu
gpu_draw_int glyph x y val fg bg s = gpu_draw_string glyph x y (int_text val) fg bg s

abbrev pub cell {ℓ} : {A : Type ℓ} → A → List A → ℕ → A
cell d [] i = d
cell d (a ∷ l) zero = a
cell d (a ∷ l) (suc i) = cell d l i

abbrev pub cursor_data : List (List ℕ)
cursor_data =
    (2 ∷ 0 ∷ 0 ∷ 0 ∷ 0 ∷ 0 ∷ 0 ∷ 0 ∷ 0 ∷ 0 ∷ 0 ∷ 0 ∷ [])
    ∷ (2 ∷ 2 ∷ 0 ∷ 0 ∷ 0 ∷ 0 ∷ 0 ∷ 0 ∷ 0 ∷ 0 ∷ 0 ∷ 0 ∷ [])
    ∷ (2 ∷ 1 ∷ 2 ∷ 0 ∷ 0 ∷ 0 ∷ 0 ∷ 0 ∷ 0 ∷ 0 ∷ 0 ∷ 0 ∷ [])
    ∷ (2 ∷ 1 ∷ 1 ∷ 2 ∷ 0 ∷ 0 ∷ 0 ∷ 0 ∷ 0 ∷ 0 ∷ 0 ∷ 0 ∷ [])
    ∷ (2 ∷ 1 ∷ 1 ∷ 1 ∷ 2 ∷ 0 ∷ 0 ∷ 0 ∷ 0 ∷ 0 ∷ 0 ∷ 0 ∷ [])
    ∷ (2 ∷ 1 ∷ 1 ∷ 1 ∷ 1 ∷ 2 ∷ 0 ∷ 0 ∷ 0 ∷ 0 ∷ 0 ∷ 0 ∷ [])
    ∷ (2 ∷ 1 ∷ 1 ∷ 1 ∷ 1 ∷ 1 ∷ 2 ∷ 0 ∷ 0 ∷ 0 ∷ 0 ∷ 0 ∷ [])
    ∷ (2 ∷ 1 ∷ 1 ∷ 1 ∷ 1 ∷ 1 ∷ 1 ∷ 2 ∷ 0 ∷ 0 ∷ 0 ∷ 0 ∷ [])
    ∷ (2 ∷ 1 ∷ 1 ∷ 1 ∷ 1 ∷ 1 ∷ 1 ∷ 1 ∷ 2 ∷ 0 ∷ 0 ∷ 0 ∷ [])
    ∷ (2 ∷ 1 ∷ 1 ∷ 1 ∷ 1 ∷ 1 ∷ 1 ∷ 1 ∷ 1 ∷ 2 ∷ 0 ∷ 0 ∷ [])
    ∷ (2 ∷ 1 ∷ 1 ∷ 1 ∷ 1 ∷ 1 ∷ 2 ∷ 2 ∷ 2 ∷ 2 ∷ 0 ∷ 0 ∷ [])
    ∷ (2 ∷ 1 ∷ 1 ∷ 2 ∷ 1 ∷ 1 ∷ 2 ∷ 0 ∷ 0 ∷ 0 ∷ 0 ∷ 0 ∷ [])
    ∷ (2 ∷ 1 ∷ 2 ∷ 0 ∷ 2 ∷ 1 ∷ 1 ∷ 2 ∷ 0 ∷ 0 ∷ 0 ∷ 0 ∷ [])
    ∷ (2 ∷ 2 ∷ 0 ∷ 0 ∷ 2 ∷ 1 ∷ 1 ∷ 2 ∷ 0 ∷ 0 ∷ 0 ∷ 0 ∷ [])
    ∷ (0 ∷ 0 ∷ 0 ∷ 0 ∷ 0 ∷ 2 ∷ 1 ∷ 1 ∷ 2 ∷ 0 ∷ 0 ∷ 0 ∷ [])
    ∷ (0 ∷ 0 ∷ 0 ∷ 0 ∷ 0 ∷ 2 ∷ 2 ∷ 2 ∷ 0 ∷ 0 ∷ 0 ∷ 0 ∷ [])
    ∷ []

-- White, black or nothing.
abbrev pub cursor_color : ℕ → Option ℕ
cursor_color v = if v == 1 then some 16777215 else if v == 2 then some 0 else none

pub gpu_draw_cursor : ℤ → ℤ → Gpu → Gpu
gpu_draw_cursor x y s =
    gpu_picture 12 16 (λ i j. cursor_color (cell 0 (cell [] cursor_data j) i)) x y s
