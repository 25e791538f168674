-- ===== src/Image/Filters.antt =====
-- The kernels that run along the lines of an image: convolution and biquad filters.
use pdp.Base.{ℕ, zero, suc, ◌+◌, ◌-◌, ◌*◌, ◌%◌, ◌^◌, true, false, ltb, ℤ, shift_right}
use pdp.Image.{Memory, store, add32, mul32, to_pixel, for_pixels, pixel_count}

-- The six words of `pdp_imageproc_conv_new`.
pub record Convolver : Type 0 where
  pub min1 : ℤ
  pub zero_gain : ℤ
  pub plus1 : ℤ
  pub border : ℤ
  pub orientation : ℕ
  pub nbpasses : ℕ

abbrev pub weigh : Convolver → ℤ → ℤ → ℤ → ℤ
weigh d a b c = add32 (add32 (mul32 a d.min1) (mul32 b d.zero_gain)) (mul32 c d.plus1)

abbrev pub weighed : Convolver → ℤ → ℤ → ℤ → ℤ
weighed d a b c = to_pixel (shift_right (weigh d a b c) 15)

-- The loop of `pdp_imageproc_conv_scanline`, with the turns that are left, and the two writes behind it.
unfoldable pub conv_loop : Convolver → ℕ → ℕ → ℤ → ℤ → ℤ → ℕ → Memory → Memory
conv_loop d stride zero a b c line memory =
    let after = store memory line (weighed d a b c) in
    store after (line + stride) (weighed d (memory line) (memory (line + stride)) d.border)
conv_loop d stride (suc n) a b c line memory =
    conv_loop d stride n (memory line) (memory (line + stride)) (memory (line + 2 * stride))
      (line + stride) (store memory line (weighed d a b c))

-- `pdp_imageproc_conv_scanline`, where `count-2` is in `u32`.
unfoldable pub conv_scanline : Convolver → ℕ → ℕ → ℕ → Memory → Memory
conv_scanline d line count stride memory =
    conv_loop d stride ((count + 2 ^ 32 - 2) % 2 ^ 32) d.border (memory line)
      (memory (line + stride)) line memory

-- `for (j=0; j<nbp; j++)`
unfoldable pub repeat : ℕ → (Memory → Memory) → Memory → Memory
repeat zero pass memory = memory
repeat (suc n) pass memory = repeat n pass (pass memory)

-- `for(i=0; i<limit; i+=step)`, with the turns that are left.
unfoldable pub for_rows : ℕ → (ℕ → Memory → Memory) → ℕ → ℕ → ℕ → Memory → Memory
for_rows zero body step limit i memory = memory
for_rows (suc n) body step limit i memory = elim (ltb i limit) [
  | true ↦ for_rows n body step limit ((i + step) % 2 ^ 32) (body i memory)
  | false ↦ memory
]

-- `pdp_imageproc_conv_process`: the rows take a turn each, as the width is not 0 when there is a pixel.
unfoldable pub conv_process : Convolver → ℕ → ℕ → ℕ → Memory → Memory
conv_process d width height image memory = elim d.orientation [
  | zero ↦
      for_rows (pixel_count width height)
        (λ i. repeat d.nbpasses (conv_scanline d (image + i) width 1)) width
        (pixel_count width height) 0 memory
  | suc zero ↦
      for_pixels (λ i. repeat d.nbpasses (conv_scanline d (image + i) height width)) width 0 memory
  | _ ↦ memory
]
