-- ===== src/Image/Results.antt =====
-- What the kernels leave of two images: the exact sums, products and mixtures, cut off at the ends.
use pdp.Base.{
  ℕ, ◌+◌, ◌*◌, ◌^◌, ◌≤◌, ◌<◌, ◌≡◌, refl, ap, ◌∙◌, arith, inl, Bool, true, false, if◌then◌else◌, ℤ,
  ◌+ℤ◌, ◌*ℤ◌, wrap, shift_right, abs, abs-*ℤ, abs-shift_right, wrap-fits,
}
use native.Mathlib.Nat.{mul-le-mul}
use pdp.Image.{Memory, for_pixels, clamp16, pixel_count}
use pdp.Image.Kernels.{
  combine, added, add_process, multiplied, mul_process, Mix, is_zero, mixed, replaced, mix_process,
  Gain, amplified, gain_process,
}
use pdp.Image.Pixels.{IsSeparate, Combined, combine-Combined}
use pdp.Image.Exact.{IsPixel, IsClamped, to_pixel-exact, add32-exact, mul32-exact, dot32-exact}

abbrev pub AllPixels : Memory → Type 0
AllPixels memory = (a : ℕ) → IsPixel (memory a)

abbrev pub AllClamped : Memory → Type 0
AllClamped memory = (a : ℕ) → IsClamped (memory a)

-- A combination replaced by one that agrees with it on the pixels at hand.
Combined-agree :
    (f g : ℤ → ℤ → ℤ) (image other n : ℕ) (before after : Memory)
    → ((i j : ℕ) → f (before i) (before j) ≡ g (before i) (before j))
    → Combined f image other n before after
    → Combined g image other n before after
Combined-agree f g image other n before after agree c =
    (λ j h. c.0 j h ∙ agree (image + j) (other + j), c.1)

-- What a kernel makes of two pixels, without words. A left gain of 0 takes the right pixel as it is.
abbrev pub sum_of : ℤ → ℤ → ℤ
sum_of a b = clamp16 (a +ℤ b)

abbrev pub product_of : ℤ → ℤ → ℤ
product_of a b = shift_right (a *ℤ b) 15

abbrev pub mixture_of : Bool → Mix → ℤ → ℤ → ℤ
mixture_of left_zero d a b =
    if left_zero then b else clamp16 (shift_right (a *ℤ d.left_gain +ℤ b *ℤ d.right_gain) 15)

abbrev pub gained : Gain → ℤ → ℤ → ℤ
gained d a b = clamp16 (shift_right (a *ℤ d.factor) d.shift)

added-sum_of : (a b : ℤ) → IsPixel a → IsPixel b → added a b ≡ sum_of a b
added-sum_of a b h k = to_pixel-exact _ ∙ ap clamp16 (add32-exact a b (omega arith))

multiplied-product_of : (a b : ℤ) → IsClamped a → IsClamped b → multiplied a b ≡ product_of a b
multiplied-product_of a b h k =
    let size : abs (a *ℤ b) ≤ 2 ^ 15 * 32767 = omega (arith, abs-*ℤ a b, mul-le-mul h k) in
    ap (λ p. wrap 16 (shift_right p 15)) (mul32-exact a b 32767 32767 h k (omega arith))
    ∙ wrap-fits 15 (product_of a b) (omega (arith, abs-shift_right (a *ℤ b) 15 32767 size))

mixed-mixture_of :
    (d : Mix) (a b : ℤ)
    → IsClamped d.left_gain
    → IsClamped d.right_gain
    → IsPixel a
    → IsPixel b
    → mixed d a b ≡ mixture_of false d a b
mixed-mixture_of d a b l r h k =
    to_pixel-exact _
    ∙ ap (λ p. clamp16 (shift_right p 15))
        (dot32-exact a d.left_gain b d.right_gain 32768 32767 h l k r (omega arith))

amplified-gained :
    (d : Gain) (a b : ℤ) → abs d.factor < 2 ^ 16 → IsPixel a → amplified d a b ≡ gained d a b
amplified-gained d a b g h =
    to_pixel-exact _
    ∙ ap (λ p. clamp16 (shift_right p d.shift))
        (mul32-exact a d.factor 32768 65535 h (omega arith) (omega arith))

-- The sum of two images is the sum of their pixels, cut off at 32767 and -32767; neither the sum nor
-- its pixels wrap around, and the memory besides the first image is kept. The images hold 16-bit
-- pixels, and are the same or apart.
pub add_process-Combined :
    (width height image image2 : ℕ) (memory : Memory)
    → AllPixels memory
    → IsSeparate image image2 (pixel_count width height)
    → Combined sum_of image image2
        (pixel_count width height)
        memory
        (add_process width height image image2 memory)
unfolding add_process
add_process-Combined width height image image2 memory all s =
    Combined-agree added sum_of image image2 (pixel_count width height) memory _
      (λ i j. added-sum_of (memory i) (memory j) (all i) (all j))
      (combine-Combined added image image2 (pixel_count width height) memory s)

-- The product of two images is the product of their pixels over 32768, rounded down; nothing wraps
-- around, and the memory besides the first image is kept. The images hold no pixel -32768, and are
-- the same or apart.
pub mul_process-Combined :
    (width height image image2 : ℕ) (memory : Memory)
    → AllClamped memory
    → IsSeparate image image2 (pixel_count width height)
    → Combined product_of image image2
        (pixel_count width height)
        memory
        (mul_process width height image image2 memory)
unfolding mul_process
mul_process-Combined width height image image2 memory all s =
    Combined-agree multiplied product_of image image2 (pixel_count width height) memory _
      (λ i j. multiplied-product_of (memory i) (memory j) (all i) (all j))
      (combine-Combined multiplied image image2 (pixel_count width height) memory s)

-- With gains that `float2fixed` gives, the mixture of two images is that of their pixels, rounded down
-- and cut off; neither the products nor their sum wrap around. With a left gain of 0 the
-- right image is copied, whatever the right gain is. The memory besides the first image is kept. The
-- images hold 16-bit pixels, and are the same or apart.
pub mix_process-Combined :
    (d : Mix) (width height image image2 : ℕ) (memory : Memory)
    → IsClamped d.left_gain
    → IsClamped d.right_gain
    → AllPixels memory
    → IsSeparate image image2 (pixel_count width height)
    → Combined
        (mixture_of (is_zero d.left_gain) d)
        image
        image2
        (pixel_count width height)
        memory
        (mix_process d width height image image2 memory)
unfolding mix_process
mix_process-Combined d width height image image2 memory l r all s = by_gain (is_zero d.left_gain)
  where
    by_gain :
        (left_zero : Bool)
        → Combined (mixture_of left_zero d) image image2 (pixel_count width height) memory (
            (if left_zero
                then for_pixels (combine replaced image image2) (pixel_count width height) 0
                else for_pixels (combine (mixed d) image image2) (pixel_count width height) 0)
              memory)
    by_gain true = combine-Combined replaced image image2 (pixel_count width height) memory s
    by_gain false =
        Combined-agree (mixed d) (mixture_of false d) image image2 (pixel_count width height) memory
          _ (λ i j. mixed-mixture_of d (memory i) (memory j) l r (all i) (all j))
          (combine-Combined (mixed d) image image2 (pixel_count width height) memory s)

-- A gain makes of each pixel its product with the factor, shifted down and cut off; the products do not
-- wrap around, and the memory besides the image is kept. The image holds 16-bit pixels, and the factor
-- is below 65536.
pub gain_process-Combined :
    (d : Gain) (width height image : ℕ) (memory : Memory)
    → abs d.factor < 2 ^ 16
    → AllPixels memory
    → Combined
        (gained d)
        image
        image
        (pixel_count width height)
        memory
        (gain_process d width height image memory)
unfolding gain_process
gain_process-Combined d width height image memory g all =
    Combined-agree (amplified d) (gained d) image image (pixel_count width height) memory _
      (λ i j. amplified-gained d (memory i) (memory j) g (all i))
      (combine-Combined (amplified d) image image (pixel_count width height) memory (inl refl))
