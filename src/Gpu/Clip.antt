-- ===== src/Gpu/Clip.antt =====
-- Clipping to the target, and the places of its pixels.
use dragoon_kernel.Prelude.{
  ℕ, ◌+◌, ◌-◌, ◌*◌, ◌≡◌, ◌≤◌, ◌<◌, Bool, not, ◌&&◌, ltb, leb, if◌then◌else◌, arith, ◌∙◌, ap,
}
use dragoon_kernel.Prelude.Int.{ℤ, pos, negsuc, pos_part, ◌+ℤ◌, ltb_ℤ, IsInt, wrap-IsInt}
use dragoon_kernel.Gpu.{first, span, wrap}
use native.Mathlib.Nat.{mul-le-mul_right}

-- Is `p` one of the `w` coordinates from `x` on?
abbrev pub covers : ℤ → ℤ → ℕ → Bool
covers x w p = not (ltb_ℤ (pos p) x) && ltb_ℤ (pos p) (x +ℤ w)

clip_end :
    (x z : ℤ) (limit p : ℕ)
    → p < limit
    → (leb (pos_part x) p
        && ltb p
            (pos_part x + (pos_part (if ltb_ℤ (pos limit) z then pos limit else z) - pos_part x)))
      ≡ (not (ltb_ℤ (pos p) x) && ltb_ℤ (pos p) z)
clip_end (pos x) (pos z) limit p lt = ground (arith, lt)
clip_end (pos x) (negsuc z) limit p lt = ground (arith, lt)
clip_end (negsuc x) (pos z) limit p lt = ground (arith, lt)
clip_end (negsuc x) (negsuc z) limit p lt = ground (arith, lt)

-- If the end is an `int`, the clipped span is what is covered of the target.
pub span_lem :
    (x w : ℤ) (limit p : ℕ)
    → IsInt (x +ℤ w)
    → p < limit
    → (leb (first x) p && ltb p (first x + span x w limit)) ≡ covers x w p
span_lem x w limit p fits lt =
    clip_end x (wrap (x +ℤ w)) limit p lt
    ∙ ap (λ z. not (ltb_ℤ (pos p) x) && ltb_ℤ (pos p) z) (wrap-IsInt (x +ℤ w) fits)

clip_below :
    (x z : ℤ) (limit p : ℕ)
    → pos_part x ≤ p
    → p < pos_part x + (pos_part (if ltb_ℤ (pos limit) z then pos limit else z) - pos_part x)
    → p < limit
clip_below x (pos z) limit p lo hi = ground (arith, lo, hi)
clip_below x (negsuc z) limit p lo hi = ground (arith, lo, hi)

-- What is left of the span after clipping lies on the target.
pub span-below : (x w : ℤ) (limit p : ℕ) → first x ≤ p → p < first x + span x w limit → p < limit
span-below x w limit p lo hi = clip_below x (wrap (x +ℤ w)) limit p lo hi

-- A place in an earlier row is before any place in a later one.
pub row_apart : (width j k i l : ℕ) → j < k → i < width → j * width + i < k * width + l
row_apart width j k i l lt small =
    let m : (j + 1) * width ≤ k * width = mul-le-mul_right width (omega (arith, lt)) in
    let e : (j + 1) * width ≡ j * width + width = ground arith in omega (arith, m, e, small)
