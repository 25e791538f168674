-- ===== src/Image/Biquad.antt =====
-- The biquad filters of system/image/pdp_imageproc_portable.c, along the lines of an image and from
-- image to image.
use pdp.Base.{
  ℕ, zero, suc, ◌+◌, ◌-◌, ◌*◌, ◌/◌, ◌%◌, ◌^◌, Bool, true, false, ◌==◌, ℤ, pos, negsuc, pos_part,
  neg_part, ◌-ℤ◌, shift_right,
}
use pdp.Image.{Memory, store, add32, mul32, to_pixel, for_pixels, pixel_count}

-- `t_bq` without the reset state, which nothing reads: `u0_save` and `u1_save` are the state.
pub record Biquad : Type 0 where
  pub ma1 : ℤ
  pub ma2 : ℤ
  pub b0 : ℤ
  pub b1 : ℤ
  pub b2 : ℤ
  pub u0_save : ℤ
  pub u1_save : ℤ
  pub nbpasses : ℕ
  pub direction : ℕ

-- `(a*b)>>14`
abbrev pub scaled : ℤ → ℤ → ℤ
scaled a b = shift_right (mul32 a b) 14

-- What one pixel makes of the state: the output and the two words of the next state.
abbrev pub output : Biquad → ℤ → ℤ → ℤ
output d u1 xx = add32 (scaled d.b0 xx) u1

abbrev pub next_u1 : Biquad → ℤ → ℤ → ℤ → ℤ
next_u1 d u1 u2 xx = add32 (add32 (scaled d.b1 xx) u2) (scaled d.ma1 (output d u1 xx))

abbrev pub next_u2 : Biquad → ℤ → ℤ → ℤ
next_u2 d u1 xx = add32 (scaled d.b2 xx) (scaled d.ma2 (output d u1 xx))

-- A pointer moved by a stride.
abbrev pub move : ℕ → ℤ → ℕ
move p stride = p + pos_part stride - neg_part stride

-- The loop of `pdp_imageproc_bq_scanline` and the two saves behind it.
unfoldable pub bq_loop : Biquad → ℕ → ℤ → ℤ → ℕ → ℤ → Memory → Biquad × Memory
bq_loop d zero u1 u2 p stride memory = (record d { u0_save = u1; u1_save = u2 }, memory)
bq_loop d (suc n) u1 u2 p stride memory =
    let xx = memory p in
    bq_loop d n (next_u1 d u1 u2 xx) (next_u2 d u1 xx) (move p stride) stride
      (store memory p (to_pixel (output d u1 xx)))

-- `pdp_imageproc_bq_scanline`
unfoldable pub bq_scanline : ℕ → ℕ → ℤ → Biquad × Memory → Biquad × Memory
bq_scanline p count stride s = bq_loop s.0 count s.0.u0_save s.0.u1_save p stride s.1

-- The loop over the passes, with one or two scans.
unfoldable pub repeat_scan :
    ℕ → (Biquad × Memory → Biquad × Memory) → Biquad × Memory → Biquad × Memory
repeat_scan zero scan s = s
repeat_scan (suc n) scan s = repeat_scan n scan (scan s)

-- The loop over the lines, which start `step` apart, with the lines that are left.
unfoldable pub for_lines :
    ℕ → (ℕ → Biquad × Memory → Biquad × Memory) → ℕ → ℕ → Biquad × Memory → Biquad × Memory
for_lines zero body step i s = s
for_lines (suc n) body step i s = for_lines n body step (i + step) (body i s)

-- The two directions along a line: both, the first alone, the second alone or none.
abbrev pub both_ways :
    Bool
    → Bool
    → (Biquad × Memory → Biquad × Memory)
    → (Biquad × Memory → Biquad × Memory)
    → Biquad × Memory
    → Biquad × Memory
both_ways true true there back s = back (there s)
both_ways true false there back s = there s
both_ways false true there back s = back s
both_ways false false there back s = s

abbrev pub has_bit : ℕ → ℕ → Bool
has_bit bit word = word / 2 ^ bit % 2 == 1

-- `pdp_imageproc_bq_process`: the columns and then the rows.
unfoldable pub bq_process : Biquad → ℕ → ℕ → ℕ → Memory → Biquad × Memory
bq_process d width height image memory =
    let bottom = (height - 1) * width in
    let vertical : ℕ → Biquad × Memory → Biquad × Memory = λ i. repeat_scan d.nbpasses (
      both_ways (has_bit 0 d.direction) (has_bit 1 d.direction)
        (bq_scanline (image + i) height (pos width))
        (bq_scanline (image + bottom + i) height (pos 0 -ℤ pos width))) in
    let horizontal : ℕ → Biquad × Memory → Biquad × Memory = λ i. repeat_scan d.nbpasses (
      both_ways (has_bit 2 d.direction) (has_bit 3 d.direction)
        (bq_scanline (image + i) width (pos 1))
        (bq_scanline (image + (width - 1) + i) width (negsuc 0))) in
    for_lines height horizontal width 0 (for_lines width vertical 1 0 (d, memory))

-- `pdp_imageproc_bqt_process`, where the state is an image for each word.
abbrev pub filter_pixel : Biquad → ℕ → ℕ → ℕ → ℕ → Memory → Memory
filter_pixel d image state1 state2 i memory =
    let xx = memory (image + i) in
    let u1 = memory (state1 + i) in
    let u2 = memory (state2 + i) in
    store
      (store (store memory (image + i) (to_pixel (output d u1 xx))) (state1 + i)
        (to_pixel (next_u1 d u1 u2 xx)))
      (state2 + i) (to_pixel (next_u2 d u1 xx))

unfoldable pub bqt_process : Biquad → ℕ → ℕ → ℕ → ℕ → ℕ → Memory → Memory
bqt_process d width height image state1 state2 =
    for_pixels (filter_pixel d image state1 state2) (pixel_count width height) 0
