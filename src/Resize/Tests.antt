-- ===== src/Resize/Tests.antt =====
-- Doubling and scaling a small image.
use pdp.Base.{◌+◌, ◌*◌, ◌/◌, ◌%◌, ◌^◌, ◌≡◌, refl, arith, inl, pos}
use pdp.Image.{Memory}
use pdp.Resize.{double_row, double_rows, double}
use pdp.Resize.Scale.{scale_row, scale_rows, bilinear, scale_bilin, nearest}
use pdp.Resize.Steps.{Scaled, scale_bilin-Scaled}

abbrev squares : Memory
squares a = pos (a * a % 30000)

corner_doubled : double 2 50 3 2 squares (50 + 7) ≡ pos 4
unfolding double double_rows double_row
corner_doubled = refl

-- Three pixels become six, two and two.
tripled : scale_rows (nearest 2 3) (3 * 2 ^ 20 / 6) (2 ^ 20) 6 1 0 50 squares 55 ≡ pos 16
unfolding scale_rows scale_row
tripled = refl

scale_bilin-Scaled_example :
    Scaled
      (bilinear 2 3 2)
      (2 ^ 30 / 5)
      (2 ^ 30 / 4)
      50
      5
      4
      squares
      (scale_bilin 2 50 3 2 5 4 squares)
scale_bilin-Scaled_example =
    scale_bilin-Scaled 2 50 3 2 5 4 squares (omega arith) (omega arith) (omega arith) (omega arith)
      (inl (omega arith))
