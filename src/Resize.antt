-- ===== src/Resize.antt =====
-- Images of half and of double the size, system/image/pdp_resample.c.
pub mod Double
pub mod Halve
pub mod Scale
pub mod Steps
mod Tests
use pdp.Base.{ℕ, zero, suc, ◌+◌, ◌*◌, ◌/◌, ℤ, wrap, shift_right}
use pdp.Image.{Memory, store, add32}

-- The four pixels that one pixel becomes, `step` apart from row to row.
abbrev pub store_block : Memory → ℕ → ℕ → ℤ → Memory
store_block memory p step v =
    store (store (store (store memory p v) (p + 1) v) (p + step) v) (p + step + 1) v

-- The inner loop of `pdp_resample_double`, with the pixels of the row that are left.
unfoldable pub double_row : ℕ → ℕ → ℕ → ℕ → Memory → Memory
double_row step src dst zero memory = memory
double_row step src dst (suc n) memory =
    double_row step (src + 1) (dst + 2) n (store_block memory dst step (memory src))

-- Its outer loop, with the rows that are left: `src_y << 2` moves by four rows of the source.
unfoldable pub double_rows : ℕ → ℕ → ℕ → ℕ → Memory → Memory
double_rows width src dst zero memory = memory
double_rows width src dst (suc n) memory =
    double_rows width (src + width) (dst + 4 * width) n
      (double_row (2 * width) src dst width memory)

-- `pdp_resample_double`
unfoldable pub double : ℕ → ℕ → ℕ → ℕ → Memory → Memory
double src_image dst_image src_w src_h = double_rows src_w src_image dst_image src_h

-- The mean of four pixels, `step` apart from row to row.
abbrev pub mean_of_block : Memory → ℕ → ℕ → ℤ
mean_of_block memory p step = wrap 16 (
    shift_right
      (add32 (add32 (memory p) (memory (p + 1)))
        (add32 (memory (p + step)) (memory (p + step + 1))))
      2)

-- The loops of `pdp_resample_halve`.
unfoldable pub halve_row : ℕ → ℕ → ℕ → ℕ → Memory → Memory
halve_row step src dst zero memory = memory
halve_row step src dst (suc n) memory =
    halve_row step (src + 2) (dst + 1) n (store memory dst (mean_of_block memory src step))

unfoldable pub halve_rows : ℕ → ℕ → ℕ → ℕ → Memory → Memory
halve_rows width src dst zero memory = memory
halve_rows width src dst (suc n) memory =
    halve_rows width (src + 2 * width) (dst + width / 2) n
      (halve_row width src dst (width / 2) memory)

-- `pdp_resample_halve`
unfoldable pub halve : ℕ → ℕ → ℕ → ℕ → Memory → Memory
halve src_image dst_image src_w src_h = halve_rows src_w src_image dst_image (src_h / 2)
