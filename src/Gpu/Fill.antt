-- ===== src/Gpu/Fill.antt =====
-- Filling a rectangle paints the part of it that lies on the target, and nothing else in the memory.
use dragoon_kernel.Prelude.{
  ℕ, ◌+◌, ◌-◌, ◌*◌, ◌≡◌, ◌≤◌, ◌<◌, ◌&&◌, ltb, leb, ◌==◌, if◌then◌else◌, update, for_range, arith,
  refl, ap, ◌∙◌, ◌⊎◌, inl, inr, ℕ_discrete, dec_lt,
}
use dragoon_kernel.Prelude.Int.{ℤ, ◌+ℤ◌, IsInt}
use dragoon_kernel.Prelude.Loops.{for_range_inv}
use dragoon_kernel.Gpu.{Gpu, first, span, paint_row, gpu_fill_rect}
use dragoon_kernel.Gpu.Clip.{covers, span_lem, span-below, row_apart}
use native.Mathlib.Nat.{mul-le-mul_right}

pub paint_row_lem :
    (buf width y x n color : ℕ) (p : ℕ → ℕ) (a : ℕ)
    → paint_row buf width y x n color p a ≡ (
        if leb (buf + (y * width + x)) a && ltb a (buf + (y * width + (x + n))) then color else p a)
paint_row_lem buf width y x n color p =
    for_range_inv
      (λ i p'.
        (a : ℕ)
        → p' a
          ≡ (if leb (buf + (y * width + x)) a && ltb a (buf + (y * width + i)) then color else p a))
      (λ i p'. update p' (buf + (y * width + i)) color) n x (x + n) p (omega arith)
      (λ i p' lo hi h a. ground (arith, h a)) (λ a. ground arith)

-- A pixel of the target, and its place in the memory.
abbrev pub pixel : Gpu → ℕ → ℕ → ℕ
pixel s px py = s.pixels (s.cur_buf + (py * s.cur_w + px))

row_end : (width j k x n : ℕ) → x + n ≤ width → j < k → j * width + (x + n) ≤ k * width
row_end width j k x n f lt =
    let m : (j + 1) * width ≤ k * width = mul-le-mul_right width (omega (arith, lt)) in
    let e : (j + 1) * width ≡ j * width + width = ground arith in omega (arith, m, e, f)

-- A row that is painted, seen from one pixel.
row-pixel :
    (buf width j x n color px py : ℕ) (p : ℕ → ℕ)
    → px < width
    → (n ≡ 0) ⊎ (x + n ≤ width)
    → paint_row buf width j x n color p (buf + (py * width + px))
      ≡ (if (j == py) && (leb x px && ltb px (x + n)) then color else p (buf + (py * width + px)))
row-pixel buf width j x n color px py p lt fits =
    paint_row_lem buf width j x n color p (buf + (py * width + px)) ∙ (elim (ℕ_discrete j py) [
      | yes here ↦
          let e : j * width ≡ py * width = ap (λ k. k * width) here in ground (arith, e, here)
      | no other ↦ elim (dec_lt py j) [
        | yes before ↦
            let apart = row_apart width py j px x before lt in ground (arith, apart, other)
        | no after ↦ elim fits [
          | inl none_left ↦ ground (arith, none_left, other)
          | inr f ↦
              let apart = row_end width j py x n f (omega (arith, after, other)) in
              ground (arith, apart, other)
        ]
      ]
    ])

rows-pixel :
    (buf width y m x n color px py : ℕ) (p : ℕ → ℕ)
    → px < width
    → (n ≡ 0) ⊎ (x + n ≤ width)
    → for_range m y (λ j q. paint_row buf width j x n color q) p (buf + (py * width + px)) ≡ (
        if (leb y py && ltb py (y + m)) && (leb x px && ltb px (x + n))
        then color
        else p (buf + (py * width + px)))
rows-pixel buf width y m x n color px py p lt fits =
    for_range_inv
      (λ j q. q (buf + (py * width + px)) ≡ (
        if (leb y py && ltb py j) && (leb x px && ltb px (x + n))
        then color
        else p (buf + (py * width + px))))
      (λ j q. paint_row buf width j x n color q) m y (y + m) p (omega arith)
      (λ j q lo hi h. row-pixel buf width j x n color px py q lt fits ∙ ground (arith, h))
      (ground arith)

-- A row of the target, seen from a place outside the target.
row-outside :
    (buf width height j x n color a : ℕ) (p : ℕ → ℕ)
    → j < height
    → (n ≡ 0) ⊎ (x + n ≤ width)
    → (a < buf) ⊎ (buf + height * width ≤ a)
    → paint_row buf width j x n color p a ≡ p a
row-outside buf width height j x n color a p lt (inl none_left) out =
    paint_row_lem buf width j x n color p a ∙ ground (arith, none_left)
row-outside buf width height j x n color a p lt (inr f) (inl b) =
    paint_row_lem buf width j x n color p a ∙ ground (arith, b)
row-outside buf width height j x n color a p lt (inr f) (inr b) =
    let far : buf + (j * width + (x + n)) ≤ a = omega (arith, b, row_end width j height x n f lt) in
    paint_row_lem buf width j x n color p a ∙ ground (arith, far)

rows-outside :
    (buf width height y m x n color a : ℕ) (p : ℕ → ℕ)
    → ((j : ℕ) → y ≤ j → j < y + m → j < height)
    → (n ≡ 0) ⊎ (x + n ≤ width)
    → (a < buf) ⊎ (buf + height * width ≤ a)
    → for_range m y (λ j q. paint_row buf width j x n color q) p a ≡ p a
rows-outside buf width height y m x n color a p below fits out =
    for_range_inv (λ j q. q a ≡ p a) (λ j q. paint_row buf width j x n color q) m y (y + m) p
      (omega arith)
      (λ j q lo hi h. row-outside buf width height j x n color a q (below j lo hi) fits out ∙ h)
      refl

-- The clipped span is empty or ends within the target.
span-fits : (x w : ℤ) (limit : ℕ) → (span x w limit ≡ 0) ⊎ (first x + span x w limit ≤ limit)
span-fits x w limit = elim (ℕ_discrete (span x w limit) 0) [
  | yes none_left ↦ inl none_left
  | no some_left ↦ inr (
      omega (
        arith,
        some_left,
        span-below x w limit (first x + span x w limit - 1) (omega (arith, some_left))
            (omega (arith, some_left)),
      ))
]

-- What `gpu_fill_rect` leaves: the pixels of the target, and everything outside it.
pub record Fills (x y w h : ℤ) (color : ℕ) (s s' : Gpu) : Type 0 where
  pub pixels :
      (px py : ℕ)
      → px < s.cur_w
      → py < s.cur_h
      → pixel s' px py ≡ (if covers y h py && covers x w px then color else pixel s px py)
  pub outside :
      (a : ℕ) → (a < s.cur_buf) ⊎ (s.cur_buf + s.cur_h * s.cur_w ≤ a) → s'.pixels a ≡ s.pixels a
  pub target : (s'.cur_buf ≡ s.cur_buf) × (s'.cur_w ≡ s.cur_w) × (s'.cur_h ≡ s.cur_h)

-- If the sums `x + w` and `y + h` are numbers that an `int` can hold, `gpu_fill_rect` gives the colour
-- to exactly those pixels of the target that lie in the rectangle, whatever part of it is outside, and
-- changes nothing in front of the target's buffer or behind it.
pub gpu_fill_rect_lem :
    (x y w h : ℤ) (color : ℕ) (s : Gpu)
    → IsInt (x +ℤ w)
    → IsInt (y +ℤ h)
    → Fills x y w h color s (gpu_fill_rect x y w h color s)
unfolding gpu_fill_rect
gpu_fill_rect_lem x y w h color s right bottom = record {
  pixels = λ px py lx ly.
      rows-pixel s.cur_buf s.cur_w (first y) (span y h s.cur_h) (first x) (span x w s.cur_w) color
        px py s.pixels lx (span-fits x w s.cur_w)
      ∙ ap
          (λ b.
            if b && (leb (first x) px && ltb px (first x + span x w s.cur_w))
            then color
            else pixel s px py)
          (span_lem y h s.cur_h py bottom ly)
      ∙ ap (λ b. if covers y h py && b then color else pixel s px py)
          (span_lem x w s.cur_w px right lx);
  outside = λ a out.
      rows-outside s.cur_buf s.cur_w s.cur_h (first y) (span y h s.cur_h) (first x)
        (span x w s.cur_w) color a s.pixels (λ j lo hi. span-below y h s.cur_h j lo hi)
        (span-fits x w s.cur_w) out;
  target = (refl, refl, refl);
}
