-- ===== src/Packed/Pixels.antt =====
-- A loop over words treats each pixel alone.
use pdp.Base.{
  ℕ, zero, suc, ◌+◌, ◌-◌, ◌*◌, ◌/◌, ◌%◌, ◌^◌, ◌≤◌, ◌<◌, ◌≡◌, ◌⊎◌, refl, ap, ◌∙◌, arith, inl, inr, ℤ,
  pos, negsuc, pos_part, neg_part, wrap, wrap-fits,
}
use pdp.Image.{Memory, store, for_pixels, pixel_count}
use pdp.Image.Pixels.{IsOutside, store-same, store-other}
use pdp.Image.Resample.{low16, low16_bound}
use pdp.Packed.{
  store_word, word_count, on_word, abs_word, abs_process, zthresh_word, zthresh_process,
}
use pdp.Packed.Words.{abs_half, zthresh_half, abs_word_halves, zthresh_word_halves}

-- A word operation that acts on both halves alike.
abbrev pub IsHalfwise : (ℕ → ℕ) → (ℕ → ℕ) → Type 0
IsHalfwise f g =
    ((lo hi : ℕ) → lo < 2 ^ 16 → hi < 2 ^ 16 → f (lo + 2 ^ 16 * hi) ≡ g lo + 2 ^ 16 * g hi)
    × ((a : ℕ) → a < 2 ^ 16 → g a < 2 ^ 16)

-- A pixel with the bits that an operation gives.
abbrev pub pixel_of : (ℕ → ℕ) → ℤ → ℤ
pixel_of g v = wrap 16 (pos (g (low16 v)))

store_word-off :
    (memory : Memory) (p w q : ℕ) → (q < p) ⊎ (p + 1 < q) → store_word memory p w q ≡ memory q
store_word-off memory p w q h =
    store-other (store memory p _) (p + 1) q _ (λ e. omega arith)
    ∙ store-other memory p q _ (λ e. omega arith)

on_word-at :
    (f g : ℕ → ℕ) (image i : ℕ) (memory : Memory) (q : ℕ)
    → IsHalfwise f g
    → (q ≡ image + 2 * i) ⊎ (q ≡ image + 2 * i + 1)
    → on_word f image i memory q ≡ pixel_of g (memory q)
on_word-at f g image i memory q half place =
    let p = image + 2 * i in
    let lo = low16 (memory p) in
    let hi = low16 (memory (p + 1)) in
    let a = low16_bound (memory p) in
    let b = low16_bound (memory (p + 1)) in
    let word : f (lo + 2 ^ 16 * hi) ≡ g lo + 2 ^ 16 * g hi = half.0 lo hi a b in
    let low : (g lo + 2 ^ 16 * g hi) % 2 ^ 16 ≡ g lo = omega (arith, half.1 lo a) in
    let high : (g lo + 2 ^ 16 * g hi) / 2 ^ 16 % 2 ^ 16 ≡ g hi =
      omega (arith, half.1 lo a, half.1 hi b) in
    elim place [
      | inl e ↦ rw e (
          store-other (store memory p _) (p + 1) p _ (λ e. omega arith)
          ∙ store-same memory p _
          ∙ ap (λ t. wrap 16 (pos (t % 2 ^ 16))) word
          ∙ ap (λ t. wrap 16 (pos t)) low)
      | inr e ↦ rw e (
          store-same (store memory p _) (p + 1) _
          ∙ ap (λ t. wrap 16 (pos (t / 2 ^ 16 % 2 ^ 16))) word
          ∙ ap (λ t. wrap 16 (pos t)) high)
    ]

words-off :
    (f : ℕ → ℕ) (image n i : ℕ) (memory : Memory) (q : ℕ)
    → (q < image + 2 * i) ⊎ (image + 2 * i + 2 * n ≤ q)
    → for_pixels (on_word f image) n i memory q ≡ memory q
unfolding for_pixels
words-off f image zero i memory q h = refl
words-off f image (suc n) i memory q h =
    words-off f image n (suc i) (on_word f image i memory) q (omega arith)
    ∙ store_word-off memory (image + 2 * i) _ q (omega arith)

words-at :
    (f g : ℕ → ℕ) (image n i : ℕ) (memory : Memory) (q : ℕ)
    → IsHalfwise f g
    → image + 2 * i ≤ q
    → q < image + 2 * i + 2 * n
    → for_pixels (on_word f image) n i memory q ≡ pixel_of g (memory q)
unfolding for_pixels
words-at f g image zero i memory q half l h = absurd (omega arith)
words-at f g image (suc n) i memory q half l h =
    let place : ((q ≡ image + 2 * i) ⊎ (q ≡ image + 2 * i + 1)) ⊎ (image + 2 * suc i ≤ q) =
      omega arith in
    elim place [
      | inl here ↦
          words-off f image n (suc i) (on_word f image i memory) q (omega arith)
          ∙ on_word-at f g image i memory q half here
      | inr later ↦
          words-at f g image n (suc i) (on_word f image i memory) q half later (omega arith)
          ∙ ap (pixel_of g) (store_word-off memory (image + 2 * i) _ q (omega arith))
    ]

abs_word-IsHalfwise : IsHalfwise abs_word abs_half
abs_word-IsHalfwise = (abs_word_halves, λ a h. ground arith)

zthresh_word-IsHalfwise : IsHalfwise zthresh_word zthresh_half
zthresh_word-IsHalfwise = (zthresh_word_halves, λ a h. ground arith)

-- What 16 bits hold.
abbrev pub IsSigned16 : ℤ → Type 0
IsSigned16 v = (pos_part v < 2 ^ 15) × (neg_part v ≤ 2 ^ 15)

-- The absolute value, where -1 becomes 0 as in one's complement, and the threshold at 0.
abbrev pub magnitude : ℤ → ℤ
magnitude (pos n) = pos n
magnitude (negsuc n) = pos n

abbrev pub cut_negative : ℤ → ℤ
cut_negative (pos n) = pos n
cut_negative (negsuc n) = pos 0

pixel_of-abs : (v : ℤ) → IsSigned16 v → pixel_of abs_half v ≡ magnitude v
unfolding low16
pixel_of-abs (pos n) h =
    let bits : abs_half (n % 2 ^ 16) ≡ n = ground arith in
    rw bits (wrap-fits 15 (pos n) (omega arith))
pixel_of-abs (negsuc n) h =
    let bits : abs_half (2 ^ 16 - 1 - n % 2 ^ 16) ≡ n = ground arith in
    rw bits (wrap-fits 15 (pos n) (omega arith))

pixel_of-zthresh : (v : ℤ) → IsSigned16 v → pixel_of zthresh_half v ≡ cut_negative v
unfolding low16
pixel_of-zthresh (pos n) h =
    let bits : zthresh_half (n % 2 ^ 16) ≡ n = ground arith in
    rw bits (wrap-fits 15 (pos n) (omega arith))
pixel_of-zthresh (negsuc n) h =
    let bits : zthresh_half (2 ^ 16 - 1 - n % 2 ^ 16) ≡ 0 = ground arith in
    rw bits (wrap-fits 15 (pos 0) (omega arith))

-- Each pixel of an image of whole words is what a function makes of it, and other memory is kept.
abbrev pub EachPixel : (ℤ → ℤ) → ℕ → ℕ → ℕ → Memory → Memory → Type 0
EachPixel f image width height before after =
    ((k : ℕ) → k < pixel_count width height → after (image + k) ≡ f (before (image + k)))
    × ((q : ℕ) → IsOutside image (pixel_count width height) q → after q ≡ before q)

words-EachPixel :
    (f g : ℕ → ℕ) (h : ℤ → ℤ) (image width height : ℕ) (memory : Memory)
    → IsHalfwise f g
    → ((v : ℤ) → IsSigned16 v → pixel_of g v ≡ h v)
    → ((q : ℕ) → IsSigned16 (memory q))
    → pixel_count width height % 2 ≡ 0
    → EachPixel h image width height memory
        (for_pixels (on_word f image) (word_count width height) 0 memory)
words-EachPixel f g h image width height memory half meaning all even = (
  λ k l.
      words-at f g image _ 0 memory (image + k) half (omega arith) (omega arith)
      ∙ meaning _ (all (image + k)),
  λ q l. words-off f image _ 0 memory q (omega arith),
)

-- The exclusive or with the mask of signs, on two pixels in one word, gives for each of them its absolute
-- value, less 1 for a negative pixel: neither pixel disturbs the other. All other memory is kept. The
-- image has an even number of pixels, of 16 bits.
pub abs_process-EachPixel :
    (width height image : ℕ) (memory : Memory)
    → ((q : ℕ) → IsSigned16 (memory q))
    → pixel_count width height % 2 ≡ 0
    → EachPixel magnitude image width height memory (abs_process width height image memory)
unfolding abs_process
abs_process-EachPixel width height image memory all even =
    words-EachPixel abs_word abs_half magnitude image width height memory abs_word-IsHalfwise
      pixel_of-abs all even

-- The threshold at 0, on two pixels in one word, gives 0 for a negative pixel and keeps the others, whatever
-- their neighbours are. All other memory is kept. The image has an even number of pixels, of 16 bits.
pub zthresh_process-EachPixel :
    (width height image : ℕ) (memory : Memory)
    → ((q : ℕ) → IsSigned16 (memory q))
    → pixel_count width height % 2 ≡ 0
    → EachPixel cut_negative image width height memory (zthresh_process width height image memory)
unfolding zthresh_process
zthresh_process-EachPixel width height image memory all even =
    words-EachPixel zthresh_word zthresh_half cut_negative image width height memory
      zthresh_word-IsHalfwise pixel_of-zthresh all even
