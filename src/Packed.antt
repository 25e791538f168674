-- ===== src/Packed.antt =====
-- The kernels of system/image/pdp_imageproc_common.c that work on two pixels at once, in a word of 32 bits. A
-- word is the number of its bits; the first pixel is in the lower half.
pub mod Words
pub mod Pixels
mod Tests
use pdp.Base.{
  ℕ, zero, suc, ◌+◌, ◌-◌, ◌*◌, ◌/◌, ◌%◌, ◌^◌, ◌≤◌, Bool, true, false, ltb, if◌then◌else◌, ℤ, pos,
  wrap,
}
use Prim.Native.Nat.{bit_and, bit_or, bit_xor}
use pdp.Image.{Memory, store, for_pixels, pixel_count}
use pdp.Image.Resample.{low16}

-- The word at a pixel, and a word stored there.
abbrev pub load_word : Memory → ℕ → ℕ
load_word memory p = low16 (memory p) + 2 ^ 16 * low16 (memory (p + 1))

abbrev pub store_word : Memory → ℕ → ℕ → Memory
store_word memory p w =
    store (store memory p (wrap 16 (pos (w % 2 ^ 16)))) (p + 1)
      (wrap 16 (pos (w / 2 ^ 16 % 2 ^ 16)))

-- `~` and the shift of an `s32` by 15.
abbrev pub complement32 : ℕ → ℕ
complement32 w = 2 ^ 32 - 1 - w

abbrev pub shift15 : ℕ → ℕ
shift15 w = if ltb w (2 ^ 31) then w / 2 ^ 15 else w / 2 ^ 15 + (2 ^ 32 - 2 ^ 17)

-- `_sign`: all bits of a half are the sign bit of that half.
unfoldable pub sign_mask : ℕ → ℕ
sign_mask invec =
    let mask_top = shift15 (bit_and invec (2 ^ 31)) in
    let mask_bot = shift15 (bit_and (invec * 2 ^ 16 % 2 ^ 32) (2 ^ 31)) / 2 ^ 16 in
    bit_or mask_top mask_bot

-- `_decouple`
abbrev pub decouple : ℕ → ℕ
decouple w = bit_and w 0xfffeffff

-- The number of words of an image, `(width * height) >> 1`.
abbrev pub word_count : ℕ → ℕ → ℕ
word_count width height = pixel_count width height / 2

-- A loop over the words of an image, and over those of two images.
abbrev pub on_word : (ℕ → ℕ) → ℕ → ℕ → Memory → Memory
on_word f image i memory = store_word memory (image + 2 * i) (f (load_word memory (image + 2 * i)))

abbrev pub on_words : (ℕ → ℕ → ℕ) → ℕ → ℕ → ℕ → Memory → Memory
on_words f image image2 i memory =
    store_word memory (image + 2 * i)
      (f (load_word memory (image + 2 * i)) (load_word memory (image2 + 2 * i)))

unfoldable pub xor_process : ℕ → ℕ → ℕ → ℕ → Memory → Memory
xor_process width height image image2 =
    for_pixels (on_words bit_xor image image2) (word_count width height) 0

unfoldable pub and_process : ℕ → ℕ → ℕ → ℕ → Memory → Memory
and_process width height image image2 =
    for_pixels (on_words bit_and image image2) (word_count width height) 0

unfoldable pub or_process : ℕ → ℕ → ℕ → ℕ → Memory → Memory
or_process width height image image2 =
    for_pixels (on_words bit_or image image2) (word_count width height) 0

unfoldable pub not_process : ℕ → ℕ → ℕ → Memory → Memory
not_process width height image =
    for_pixels (on_word (λ w. bit_xor w 0xffffffff) image) (word_count width height) 0

-- The 16 bits of an argument in both halves.
abbrev pub doubled_mask : ℕ → ℕ
doubled_mask mask = bit_or (bit_and mask 0xffff) (mask * 2 ^ 16) % 2 ^ 32

unfoldable pub mask_process : ℕ → ℕ → ℕ → ℕ → Memory → Memory
mask_process mask width height image =
    for_pixels (on_word (λ w. bit_and w (doubled_mask mask)) image) (word_count width height) 0

unfoldable pub constant_process : ℕ → ℕ → ℕ → ℕ → Memory → Memory
constant_process value width height image =
    for_pixels (on_word (λ w. doubled_mask value) image) (word_count width height) 0

unfoldable pub abs_word : ℕ → ℕ
abs_word w = bit_xor w (sign_mask w)

unfoldable pub abs_process : ℕ → ℕ → ℕ → Memory → Memory
abs_process width height image = for_pixels (on_word abs_word image) (word_count width height) 0

unfoldable pub zthresh_word : ℕ → ℕ
zthresh_word w = bit_and w (complement32 (sign_mask w))

unfoldable pub zthresh_process : ℕ → ℕ → ℕ → Memory → Memory
zthresh_process width height image =
    for_pixels (on_word zthresh_word image) (word_count width height) 0

-- `a - b` in `u32`.
abbrev pub minus32 : ℕ → ℕ → ℕ
minus32 a b = (a + 2 ^ 32 - b % 2 ^ 32) % 2 ^ 32

-- One word of `pdp_imageproc_hardthresh_process`, with the threshold in both halves.
unfoldable pub hardthresh_word : ℕ → ℕ → ℕ
hardthresh_word thresh w =
    let sign1 = sign_mask w in
    let a = minus32 (decouple (bit_xor w sign1)) thresh in
    let isign2 = complement32 (sign_mask a) in
    let kept = decouple (bit_and a isign2) in
    bit_xor ((kept + bit_and thresh isign2) % 2 ^ 32) sign1

unfoldable pub hardthresh_process : ℕ → ℕ → ℕ → ℕ → Memory → Memory
hardthresh_process thresh width height image =
    for_pixels (on_word (hardthresh_word (bit_or thresh (thresh * 2 ^ 16) % 2 ^ 32)) image)
      (word_count width height) 0

unfoldable pub softthresh_word : ℕ → ℕ → ℕ
softthresh_word thresh w =
    let sign1 = sign_mask w in
    let a = minus32 (decouple (bit_xor w sign1)) thresh in
    bit_xor (decouple (bit_and a (complement32 (sign_mask a)))) sign1

unfoldable pub softthresh_process : ℕ → ℕ → ℕ → ℕ → Memory → Memory
softthresh_process thresh width height image =
    for_pixels (on_word (softthresh_word (bit_or thresh (thresh * 2 ^ 16) % 2 ^ 32)) image)
      (word_count width height) 0

unfoldable pub ispositive_process : ℕ → ℕ → ℕ → Memory → Memory
ispositive_process width height image =
    for_pixels (on_word (λ w. complement32 (sign_mask w)) image) (word_count width height) 0

unfoldable pub sign_process : ℕ → ℕ → ℕ → Memory → Memory
sign_process width height image =
    for_pixels (on_word (λ w. bit_xor (sign_mask w) 0x7fff7fff) image) (word_count width height) 0
