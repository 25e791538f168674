-- ===== src/Packed/Tests.antt =====
-- Small images, two pixels at a time.
use pdp.Base.{ℕ, ◌%◌, refl, arith, negsuc}
use pdp.Image.{Memory}
use pdp.Packed.{abs_process}
use pdp.Packed.Pixels.{IsSigned16, EachPixel, magnitude, abs_process-EachPixel}

-- Pixels of both signs.
abbrev waves : Memory
waves a = negsuc (a % 1000)

waves-IsSigned16 : (a : ℕ) → IsSigned16 (waves a)
waves-IsSigned16 a = omega arith

abs_process-EachPixel_example : EachPixel magnitude 50 3 2 waves (abs_process 3 2 50 waves)
abs_process-EachPixel_example = abs_process-EachPixel 3 2 50 waves waves-IsSigned16 refl
