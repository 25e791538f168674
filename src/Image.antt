-- ===== src/Image.antt =====
-- The image kernels of system/image/pdp_imageproc_portable.c. Memory is a function from the address of a
-- 16-bit pixel to its value, so that images may share it; a pointer is an address.
pub mod Kernels
pub mod Pixels
pub mod Exact
pub mod Results
pub mod Filters
pub mod Convolve
pub mod Biquad
pub mod Recursion
pub mod Resample
pub mod Inside
pub mod Affine
pub mod Planes
mod Tests
use pdp.Base.{
  ℕ, zero, suc, ◌+◌, ◌*◌, ◌%◌, ◌^◌, Bool, true, false, ◌==◌, if◌then◌else◌, ℤ, pos, negsuc,
  pos_part, neg_part, ltb_ℤ, ◌+ℤ◌, ◌-ℤ◌, ◌*ℤ◌, wrap, shift_right, ltb,
}

abbrev pub Memory : Type 0
Memory = ℕ → ℤ

abbrev pub store : Memory → ℕ → ℤ → Memory
store memory p v = λ q. if q == p then v else memory q

-- `CLAMP16`
unfoldable pub clamp16 : ℤ → ℤ
clamp16 x =
    if ltb_ℤ (pos 32767) x then pos 32767 else if ltb_ℤ x (negsuc 32766) then negsuc 32766 else x

-- The sum, the difference and the product of two `s32`.
abbrev pub add32 : ℤ → ℤ → ℤ
add32 a b = wrap 32 (a +ℤ b)

abbrev pub sub32 : ℤ → ℤ → ℤ
sub32 a b = wrap 32 (a -ℤ b)

abbrev pub mul32 : ℤ → ℤ → ℤ
mul32 a b = wrap 32 (a *ℤ b)

-- `(s16)CLAMP16(x)`
abbrev pub to_pixel : ℤ → ℤ
to_pixel x = wrap 16 (clamp16 x)

-- The loop over the pixels from `i` on, with `n` left to do.
unfoldable pub for_pixels : (ℕ → Memory → Memory) → ℕ → ℕ → Memory → Memory
for_pixels body zero i memory = memory
for_pixels body (suc n) i memory = for_pixels body n (suc i) (body i memory)

-- `width*height` in `u32`.
abbrev pub pixel_count : ℕ → ℕ → ℕ
pixel_count width height = width * height % 2 ^ 32
