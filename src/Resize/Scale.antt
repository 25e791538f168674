-- ===== src/Resize/Scale.antt =====
-- Scaling to any size, system/image/pdp_resample.c. The coordinates run in steps, in words of 32 bits; a
-- sample is what is stored for a coordinate.
use pdp.Base.{
  ℕ, zero, suc, ◌+◌, ◌*◌, ◌/◌, ◌%◌, ◌^◌, ◌==◌, ◌||◌, if◌then◌else◌, Outcome, ok, fault, ℤ, wrap,
}
use pdp.Image.{Memory, store}
use pdp.Image.Resample.{resample_bilin}

abbrev pub Sample : Type 0
Sample = Memory → ℕ → ℕ → ℤ

-- The inner loop, with the pixels of the row that are left.
unfoldable pub scale_row : Sample → ℕ → ℕ → ℕ → ℕ → ℕ → Memory → Memory
scale_row sample step zero x y dst memory = memory
scale_row sample step (suc n) x y dst memory =
    scale_row sample step n ((x + step) % 2 ^ 32) y (dst + 1) (store memory dst (sample memory x y))

-- The outer loop, with the rows that are left.
unfoldable pub scale_rows : Sample → ℕ → ℕ → ℕ → ℕ → ℕ → ℕ → Memory → Memory
scale_rows sample step_x step_y width zero y dst memory = memory
scale_rows sample step_x step_y width (suc n) y dst memory =
    scale_rows sample step_x step_y width n ((y + step_y) % 2 ^ 32) (dst + width)
      (scale_row sample step_x width 0 y dst memory)

-- `pdp_resample_bilin` of virtual coordinates of 30 bits; it masks them to 16 bits.
abbrev pub bilinear : ℕ → ℕ → ℕ → Sample
bilinear src src_w src_h memory x y =
    wrap 16 (resample_bilin memory src src_w src_h (x / 2 ^ 14 % 2 ^ 16) (y / 2 ^ 14 % 2 ^ 16))

-- `pdp_resample_scale_bilin`; a size of 0 is divided by.
unfoldable pub scale_bilin : ℕ → ℕ → ℕ → ℕ → ℕ → ℕ → Memory → Outcome Memory
scale_bilin src dst src_w src_h dst_w dst_h memory =
    if dst_w == 0 || dst_h == 0
    then fault
    else ok (
        scale_rows (bilinear src src_w src_h) (2 ^ 30 / dst_w) (2 ^ 30 / dst_h) dst_w dst_h 0 dst
          memory)

-- The nearest pixel, by coordinates with 20 bits of fraction.
abbrev pub nearest : ℕ → ℕ → Sample
nearest src src_w memory x y = memory (src + (x / 2 ^ 20 + y / 2 ^ 20 * src_w))

-- `pdp_resample_scale_nn`, for sources of less than 2^11 rows and columns: `<< 20` leaves an `s32` beyond.
unfoldable pub scale_nn : ℕ → ℕ → ℕ → ℕ → ℕ → ℕ → Memory → Outcome Memory
scale_nn src dst src_w src_h dst_w dst_h memory =
    if dst_w == 0 || dst_h == 0
    then fault
    else ok (
        scale_rows (nearest src src_w) (src_w * 2 ^ 20 / dst_w) (src_h * 2 ^ 20 / dst_h) dst_w dst_h
          0 dst memory)
