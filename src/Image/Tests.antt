-- ===== src/Image/Tests.antt =====
-- The kernels on small images.
use pdp.Base.{
  ℕ, ◌+◌, ◌-◌, ◌*◌, ◌%◌, ◌^◌, ◌≡◌, refl, arith, inl, inr, pos, negsuc, ◌+ℤ◌, ◌*ℤ◌, wrap,
  shift_right,
}
use pdp.Image.{Memory, clamp16, pixel_count}
use pdp.Image.Kernels.{Mix, is_zero, added, multiplied, mix_process}
use pdp.Image.Pixels.{Combined}
use pdp.Image.Exact.{IsClamped, weigh-exact}
use pdp.Image.Results.{mixture_of, mix_process-Combined}
use pdp.Image.Filters.{Convolver, weigh, weighed, conv_scanline}
use pdp.Image.Convolve.{Convolved, conv_scanline-Convolved}
use pdp.Image.Biquad.{Biquad, bq_scanline}
use pdp.Image.Recursion.{Equalized, bq_scanline-Equalized}
use pdp.Image.Resample.{AffineMap, affine_rows}
use pdp.Image.Planes.{yvu_planar_s16u8, yvu_planar_u8s16}
use pdp.Image.Planes.RoundTrip.{yvu_planar_s16u8-yvu_planar_u8s16}
use pdp.Image.Affine.{pixel_at, advanced, affine_rows-pixel_at}

abbrev ramp : Memory
ramp = λ a. pos (a % 1000)

ramp-IsClamped : (a : ℕ) → IsClamped (ramp a)
ramp-IsClamped a = omega arith

abbrev half : Mix
half = record { left_gain = pos 16384; right_gain = negsuc 16383 }

abbrev blur : Convolver
blur = record {
  min1 = pos 8192;
  zero_gain = pos 16384;
  plus1 = pos 8192;
  border = pos 0;
  orientation = 0;
  nbpasses = 1;
}

-- Gains of 1.0 that the setters allow.
abbrev full : Convolver
full = record {
  min1 = pos 32767;
  zero_gain = pos 32767;
  plus1 = pos 32767;
  border = pos 0;
  orientation = 0;
  nbpasses = 1;
}

abbrev identity : AffineMap
identity = record { row_inc_x = 2 ^ 30; row_inc_y = 0; col_inc_x = 0; col_inc_y = 2 ^ 30 }

sum_is_cut_off : added (pos 32767) (pos 1) ≡ pos 32767
unfolding clamp16 wrap ◌+ℤ◌
sum_is_cut_off = refl

-- The product of two pixels -32768 wraps around.
product_wraps : multiplied (negsuc 32767) (negsuc 32767) ≡ negsuc 32767
unfolding wrap shift_right ◌*ℤ◌
product_wraps = refl

-- Three white pixels become black when the weights are too large.
weights_wrap : weighed full (pos 32767) (pos 32767) (pos 32767) ≡ negsuc 32766
unfolding clamp16 wrap shift_right ◌+ℤ◌ ◌*ℤ◌
weights_wrap = refl

mix_process-Combined_example :
    Combined
      (mixture_of (is_zero half.left_gain) half)
      0
      8
      (pixel_count 4 2)
      ramp
      (mix_process half 4 2 0 8 ramp)
mix_process-Combined_example =
    mix_process-Combined half 4 2 0 8 ramp (omega arith) (omega arith) (λ a. omega arith)
      (inr (inl (omega arith)))

conv_scanline-Convolved_example : Convolved blur 3 5 4 ramp (conv_scanline blur 3 5 4 ramp)
conv_scanline-Convolved_example =
    conv_scanline-Convolved blur 3 5 4 ramp (omega arith) (omega arith) (omega arith)

weigh-exact_example :
    weigh blur (pos 100) (negsuc 4) (pos 7)
    ≡ pos 100 *ℤ blur.min1 +ℤ negsuc 4 *ℤ blur.zero_gain +ℤ pos 7 *ℤ blur.plus1
weigh-exact_example =
    weigh-exact blur (pos 100) (negsuc 4) (pos 7) (omega arith) (omega arith) (omega arith)
      (omega arith)

abbrev behind : Memory
behind = λ a. pos (a % 25)

affine_rows-pixel_at_example :
    affine_rows identity 0 5 5 5 0 0 100 ramp (100 + 2 * 5 + 3)
    ≡ pixel_at ramp 0 5 5
        (advanced (advanced 0 0 2) (2 ^ 30) 3)
        (advanced (advanced 0 (2 ^ 30) 2) 0 3)
affine_rows-pixel_at_example =
    affine_rows-pixel_at identity 0 100 5 5 0 0 ramp 3 2 (omega arith, omega arith)
      (omega arith, omega arith) (omega arith) (omega arith) (inl (omega arith)) (omega arith)
      (omega arith)

abbrev smooth : Biquad
smooth = record {
  ma1 = pos 8192;
  ma2 = negsuc 1000;
  b0 = pos 4096;
  b1 = pos 2048;
  b2 = pos 1024;
  u0_save = pos 10;
  u1_save = pos 20;
  nbpasses = 1;
  direction = 2;
}

abbrev upwards : ℕ → ℕ
upwards k = 100 - 5 * k

bq_scanline-Equalized_example :
    Equalized upwards 4 (smooth, ramp) (bq_scanline (upwards 0) 4 (negsuc 4) (smooth, ramp))
bq_scanline-Equalized_example =
    bq_scanline-Equalized smooth ramp upwards 4 (negsuc 4)
      (λ k h. omega arith, λ j k h g e. omega arith)

abbrev picture : ℕ → ℕ
picture a = a % 256

yvu_planar_s16u8-yvu_planar_u8s16_example :
    yvu_planar_s16u8 (yvu_planar_u8s16 picture 40 0 16 ramp) 0 500 16 picture (500 + 18)
    ≡ picture (40 + 18)
yvu_planar_s16u8-yvu_planar_u8s16_example =
    yvu_planar_s16u8-yvu_planar_u8s16 picture picture ramp 40 0 500 16 18 (λ a. omega arith)
      (omega arith)
