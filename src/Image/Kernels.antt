-- ===== src/Image/Kernels.antt =====
-- The kernels that treat every pixel alone. What an object's words hold comes as arguments: the gains,
-- the threshold, the matrix and the coefficients, in fixed point.
use pdp.Base.{
  ℕ, zero, suc, ◌+◌, ◌%◌, ◌^◌, Bool, ◌&&◌, ◌==◌, if◌then◌else◌, List, [], ◌∷◌, ℤ, pos, pos_part,
  neg_part, ltb_ℤ, wrap, shift_right,
}
use pdp.Image.{Memory, store, add32, sub32, mul32, to_pixel, for_pixels, pixel_count}

-- A loop that writes each pixel of `image` from its old value and that of the other image.
abbrev pub combine : (ℤ → ℤ → ℤ) → ℕ → ℕ → ℕ → Memory → Memory
combine f image other i memory =
    store memory (image + i) (f (memory (image + i)) (memory (other + i)))

-- `pdp_imageproc_add_process`
abbrev pub added : ℤ → ℤ → ℤ
added a b = to_pixel (add32 a b)

unfoldable pub add_process : ℕ → ℕ → ℕ → ℕ → Memory → Memory
add_process width height image image2 =
    for_pixels (combine added image image2) (pixel_count width height) 0

-- `pdp_imageproc_mul_process`
abbrev pub multiplied : ℤ → ℤ → ℤ
multiplied a b = wrap 16 (shift_right (mul32 a b) 15)

unfoldable pub mul_process : ℕ → ℕ → ℕ → ℕ → Memory → Memory
mul_process width height image image2 =
    for_pixels (combine multiplied image image2) (pixel_count width height) 0

-- The two words of `pdp_imageproc_mix_new`.
pub record Mix : Type 0 where
  pub left_gain : ℤ
  pub right_gain : ℤ

-- `pdp_imageproc_mix_process`
abbrev pub is_zero : ℤ → Bool
is_zero a = pos_part a == 0 && neg_part a == 0

abbrev pub mixed : Mix → ℤ → ℤ → ℤ
mixed d a b = to_pixel (shift_right (add32 (mul32 a d.left_gain) (mul32 b d.right_gain)) 15)

abbrev pub replaced : ℤ → ℤ → ℤ
replaced a b = b

unfoldable pub mix_process : Mix → ℕ → ℕ → ℕ → ℕ → Memory → Memory
mix_process d width height image image2 =
    if is_zero d.left_gain
    then for_pixels (combine replaced image image2) (pixel_count width height) 0
    else for_pixels (combine (mixed d) image image2) (pixel_count width height) 0

-- `pdp_imageproc_randmix_process`, with what `random() & 0x7fff` gives at each pixel after the seed.
unfoldable pub randmix_process : ℤ → (ℕ → ℕ) → ℕ → ℕ → ℕ → ℕ → Memory → Memory
randmix_process threshold random width height image image2 =
    for_pixels
      (λ i memory.
        if ltb_ℤ (pos (random i % 2 ^ 15)) threshold
        then store memory (image + i) (memory (image2 + i))
        else memory)
      (pixel_count width height) 0

-- The two words of `pdp_imageproc_gain_new`.
pub record Gain : Type 0 where
  pub factor : ℤ
  pub shift : ℕ

-- `pdp_imageproc_gain_process`
abbrev pub amplified : Gain → ℤ → ℤ → ℤ
amplified d a b = to_pixel (shift_right (mul32 a d.factor) d.shift)

unfoldable pub gain_process : Gain → ℕ → ℕ → ℕ → Memory → Memory
gain_process d width height image =
    for_pixels (combine (amplified d) image image) (pixel_count width height) 0

-- The four words of `pdp_imageproc_crot2d_new`.
pub record Matrix : Type 0 where
  pub d0 : ℤ
  pub d1 : ℤ
  pub d2 : ℤ
  pub d3 : ℤ

-- `pdp_imageproc_crot2d_process`: the second plane stands behind the first.
abbrev pub rotate_pixel : Matrix → ℕ → ℕ → ℕ → Memory → Memory
rotate_pixel d image size i memory =
    let c1 = memory (image + i) in
    let c2 = memory (image + size + i) in
    let a1 = shift_right (add32 (mul32 d.d0 c1) (mul32 d.d2 c2)) 15 in
    let a2 = shift_right (add32 (mul32 d.d1 c1) (mul32 d.d3 c2)) 15 in
    store (store memory (image + i) (to_pixel a1)) (image + size + i) (to_pixel a2)

unfoldable pub crot2d_process : Matrix → ℕ → ℕ → ℕ → Memory → Memory
crot2d_process d image width height =
    for_pixels (rotate_pixel d image (pixel_count width height)) (pixel_count width height) 0

-- `t_cheby`: `coefs` are the coefficients from the second order on.
pub record Cheby : Type 0 where
  pub nbpasses : ℕ
  pub coef0 : ℤ
  pub coef1 : ℤ
  pub coefs : List ℤ

-- The loop over the orders of a Chebyshev polynomial, with T_(k-1) and T_(k-2) and the sum so far.
unfoldable pub cheby_terms : ℤ → ℤ → ℤ → ℤ → List ℤ → ℤ
cheby_terms in_value t1 t2 acc [] = acc
cheby_terms in_value t1 t2 acc (c ∷ cs) =
    let t = sub32 (shift_right (mul32 t1 in_value) 14) t2 in
    cheby_terms in_value t t1 (add32 acc (shift_right (mul32 c t) 15)) cs

abbrev pub cheby_pass : Cheby → ℤ → ℤ
cheby_pass z acc =
    cheby_terms acc acc (pos 32767) (add32 z.coef0 (shift_right (mul32 acc z.coef1) 15)) z.coefs

unfoldable pub cheby_passes : Cheby → ℕ → ℤ → ℤ
cheby_passes z zero acc = acc
cheby_passes z (suc n) acc = cheby_passes z n (cheby_pass z acc)

-- `pdp_imageproc_cheby_process`
abbrev pub shaped : Cheby → ℤ → ℤ → ℤ
shaped z a b = to_pixel (cheby_passes z z.nbpasses a)

unfoldable pub cheby_process : Cheby → ℕ → ℕ → ℕ → Memory → Memory
cheby_process z width height image =
    for_pixels (combine (shaped z) image image) (pixel_count height width) 0

-- `pdp_imageproc_random_process`, with what `random()` gives at each pixel after the seed; the next seed
-- is the number behind the last pixel's.
unfoldable pub random_process : (ℕ → ℕ) → ℕ → ℕ → ℕ → Memory → ℕ × Memory
random_process random width height image memory = (
  random (pixel_count width height) % 2 ^ 32,
  for_pixels (λ i before. store before (image + i) (wrap 16 (pos (random i))))
      (pixel_count width height) 0 memory,
)
