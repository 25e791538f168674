-- ===== src/Packed/Words.antt =====
-- What the operations on words do to the pixels in their halves.
use pdp.Base.{
  ℕ, zero, suc, ◌+◌, ◌-◌, ◌*◌, ◌/◌, ◌%◌, ◌^◌, ◌<◌, ◌≡◌, refl, ap, ◌∙◌, arith, Bool, true, false,
  ltb, if◌then◌else◌,
}
use Prim.Native.Nat.{bit_and, bit_or, bit_xor}
use pdp.Base.Bits.{bit_and_mask}
use pdp.Base.Digits.{bit_xor_halves, bit_and_halves, bit_xor-zero, bit_and-zero, bit_xor_ones}
use pdp.Packed.{sign_mask, shift15, complement32, abs_word, zthresh_word}

-- The bits of a pixel, negative from 2^15 on.
abbrev pub half_mask : ℕ → ℕ
half_mask a = if ltb a (2 ^ 15) then 0 else 0xffff

-- The sign bit alone.
top_bit : (hi : ℕ) → hi < 2 ^ 16 → bit_and hi (2 ^ 15) ≡ hi / 2 ^ 15 * 2 ^ 15
top_bit hi h =
    let split : hi ≡ hi % 2 ^ 15 + 2 ^ 15 * (hi / 2 ^ 15) = omega arith in
    ap (λ t. bit_and t (2 ^ 15)) split
    ∙ bit_and_halves 15 (hi % 2 ^ 15) (hi / 2 ^ 15) 0 1 (omega arith) (omega arith)
    ∙ omega (arith, bit_and-zero (hi % 2 ^ 15), one_bit (hi / 2 ^ 15) (omega arith))
  where
    one_bit : (b : ℕ) → b < 2 → bit_and b 1 ≡ b
    one_bit zero k = refl
    one_bit (suc zero) k = refl
    one_bit (suc (suc b)) k = absurd (omega arith)

top_bit32 :
    (lo hi : ℕ)
    → lo < 2 ^ 16
    → hi < 2 ^ 16
    → bit_and (lo + 2 ^ 16 * hi) (2 ^ 31) ≡ hi / 2 ^ 15 * 2 ^ 31
top_bit32 lo hi h k =
    bit_and_halves 16 lo hi 0 (2 ^ 15) h (omega arith)
    ∙ omega (arith, bit_and-zero lo, top_bit hi k)

sign_half : (b : ℕ) → b < 2 → shift15 (b * 2 ^ 31) ≡ b * (2 ^ 32 - 2 ^ 16)
sign_half zero h = refl
sign_half (suc zero) h = refl
sign_half (suc (suc b)) h = absurd (omega arith)

joined :
    (b c : ℕ)
    → b < 2
    → c < 2
    → bit_or (b * (2 ^ 32 - 2 ^ 16)) (c * (2 ^ 32 - 2 ^ 16) / 2 ^ 16)
      ≡ c * 0xffff + 2 ^ 16 * (b * 0xffff)
joined zero zero h k = refl
joined zero (suc zero) h k = refl
joined (suc zero) zero h k = refl
joined (suc zero) (suc zero) h k = refl
joined (suc (suc b)) c h k = absurd (omega arith)
joined zero (suc (suc c)) h k = absurd (omega arith)
joined (suc zero) (suc (suc c)) h k = absurd (omega arith)

half_mask_bit : (a : ℕ) → a < 2 ^ 16 → half_mask a ≡ a / 2 ^ 15 * 0xffff
half_mask_bit a h = ground arith

pub sign_mask_halves :
    (lo hi : ℕ)
    → lo < 2 ^ 16
    → hi < 2 ^ 16
    → sign_mask (lo + 2 ^ 16 * hi) ≡ half_mask lo + 2 ^ 16 * half_mask hi
unfolding sign_mask
sign_mask_halves lo hi h k =
    let moved : (lo + 2 ^ 16 * hi) * 2 ^ 16 % 2 ^ 32 ≡ 0 + 2 ^ 16 * lo = omega arith in
    rw
      (
        moved,
        top_bit32 lo hi h k,
        top_bit32 0 lo (omega arith) h,
        sign_half (hi / 2 ^ 15) (omega arith),
        sign_half (lo / 2 ^ 15) (omega arith),
      )
      (joined (hi / 2 ^ 15) (lo / 2 ^ 15) (omega arith) (omega arith)
        ∙ rw (half_mask_bit lo h, half_mask_bit hi k) refl)

-- The absolute value and the threshold at 0 of the bits of one pixel.
abbrev pub abs_half : ℕ → ℕ
abs_half a = if ltb a (2 ^ 15) then a else 0xffff - a

abbrev pub zthresh_half : ℕ → ℕ
zthresh_half a = if ltb a (2 ^ 15) then a else 0

half_mask_bound : (a : ℕ) → half_mask a < 2 ^ 16
half_mask_bound a = ground arith

bit_xor-half_mask : (a : ℕ) → a < 2 ^ 16 → bit_xor a (half_mask a) ≡ abs_half a
bit_xor-half_mask a h = by_sign (ltb a (2 ^ 15))
  where
    by_sign : (b : Bool) → bit_xor a (if b then 0 else 0xffff) ≡ (if b then a else 0xffff - a)
    by_sign true = bit_xor-zero a
    by_sign false = bit_xor_ones 16 a h

bit_and-half_mask : (a : ℕ) → a < 2 ^ 16 → bit_and a (0xffff - half_mask a) ≡ zthresh_half a
bit_and-half_mask a h = by_sign (ltb a (2 ^ 15))
  where
    by_sign : (b : Bool) → bit_and a (0xffff - (if b then 0 else 0xffff)) ≡ (if b then a else 0)
    by_sign true = bit_and_mask 16 a ∙ omega arith
    by_sign false = bit_and-zero a

pub abs_word_halves :
    (lo hi : ℕ)
    → lo < 2 ^ 16
    → hi < 2 ^ 16
    → abs_word (lo + 2 ^ 16 * hi) ≡ abs_half lo + 2 ^ 16 * abs_half hi
unfolding abs_word
abs_word_halves lo hi h k = rw (sign_mask_halves lo hi h k) (
    bit_xor_halves 16 lo hi (half_mask lo) (half_mask hi) h (half_mask_bound lo)
    ∙ rw (bit_xor-half_mask lo h, bit_xor-half_mask hi k) refl)

pub zthresh_word_halves :
    (lo hi : ℕ)
    → lo < 2 ^ 16
    → hi < 2 ^ 16
    → zthresh_word (lo + 2 ^ 16 * hi) ≡ zthresh_half lo + 2 ^ 16 * zthresh_half hi
unfolding zthresh_word
zthresh_word_halves lo hi h k =
    let flipped : complement32 (half_mask lo + 2 ^ 16 * half_mask hi)
        ≡ (0xffff - half_mask lo) + 2 ^ 16 * (0xffff - half_mask hi) =
      omega (arith, half_mask_bound lo, half_mask_bound hi) in
    rw (sign_mask_halves lo hi h k, flipped)
      (bit_and_halves 16 lo hi (0xffff - half_mask lo) (0xffff - half_mask hi) h (omega arith)
        ∙ rw (bit_and-half_mask lo h, bit_and-half_mask hi k) refl)
