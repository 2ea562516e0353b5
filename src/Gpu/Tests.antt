-- ===== src/Gpu/Tests.antt =====
-- The theorem on filled rectangles, at a concrete target.
use dragoon_kernel.Prelude.{arith}
use dragoon_kernel.Prelude.Int.{◌+ℤ◌, pos, negsuc}
use dragoon_kernel.Gpu.{Gpu, gpu_fill_rect}
use dragoon_kernel.Gpu.Fill.{Fills, gpu_fill_rect_lem}

-- A target of 4 by 3 pixels at the place 100.
abbrev small : Gpu
small = record { frontbuf = 0; backbuf = 100; cur_buf = 100; cur_w = 4; cur_h = 3; pixels = λ a. 0 }

-- A rectangle that stands out on the left, at the top and below.
gpu_fill_rect_example :
    Fills
      (negsuc 1)
      (negsuc 0)
      (pos 4)
      (pos 9)
      7
      small
      (gpu_fill_rect (negsuc 1) (negsuc 0) (pos 4) (pos 9) 7 small)
unfolding ◌+ℤ◌
gpu_fill_rect_example =
    gpu_fill_rect_lem (negsuc 1) (negsuc 0) (pos 4) (pos 9) 7 small (ground arith) (ground arith)
