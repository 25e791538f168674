-- ===== src/Image/Planes.antt =====
-- The conversion of pictures of bytes to images of 16-bit pixels and back,
-- system/image/pdp_llconv_portable.c. Bytes and pixels lie in memories of their own.
pub mod RoundTrip
use pdp.Base.{
  ℕ, zero, suc, ◌+◌, ◌-◌, ◌*◌, ◌/◌, ◌%◌, ◌^◌, ◌≤◌, ◌<◌, ◌≡◌, ◌≢◌, ◌⊎◌, refl, ap, ◌∙◌, sym, arith,
  inl, inr, Bool, true, false, ◌==◌, if◌then◌else◌, ltb, ℤ, pos, negsuc, pos_part, neg_part, ltb_ℤ,
  wrap, shift_right,
}
use pdp.Image.{Memory}
use pdp.Image.Resample.{low16}

abbrev pub Bytes : Type 0
Bytes = ℕ → ℕ

-- `for (i=0; i<nbpixels; i++) dst[i] = ...`, with the turns that are left.
unfoldable pub write_all {ℓ} : {A : Type ℓ} → (ℕ → A) → ℕ → ℕ → ℕ → (ℕ → A) → ℕ → A
write_all value dst zero i memory = memory
write_all value dst (suc n) i memory =
    write_all value dst n (suc i) (λ q. if q == dst + i then value i else memory q)

-- `((short int)(src[i])) << 7`
abbrev pub luma_pixel : ℕ → ℤ
luma_pixel byte = wrap 16 (pos (byte * 2 ^ 7))

-- `(((short int)(src[i])) << 8) ^ 0x8000`: in 16 bits the exclusive or adds 0x8000.
abbrev pub chroma_pixel : ℕ → ℤ
chroma_pixel byte = wrap 16 (pos ((byte * 2 ^ 8 + 2 ^ 15) % 2 ^ 16))

-- `CLAMP`
abbrev pub clamp8 : ℤ → ℕ
clamp8 x = if ltb_ℤ x (pos 0) then 0 else if ltb_ℤ (pos 255) x then 255 else pos_part x

abbrev pub luma_byte : ℤ → ℕ
luma_byte pixel = clamp8 (shift_right pixel 7)

-- `(usrc[i]^0x8000)>>8`
abbrev pub chroma_byte : ℤ → ℕ
chroma_byte pixel = (low16 pixel + 2 ^ 15) % 2 ^ 16 / 2 ^ 8

unfoldable pub unpack_y : Bytes → ℕ → ℕ → ℕ → Memory → Memory
unpack_y bytes src dst nbpixels = write_all (λ i. luma_pixel (bytes (src + i))) dst nbpixels 0

unfoldable pub unpack_uv : Bytes → ℕ → ℕ → ℕ → Memory → Memory
unpack_uv bytes src dst nbpixels = write_all (λ i. chroma_pixel (bytes (src + i))) dst nbpixels 0

unfoldable pub pack_y : Memory → ℕ → ℕ → ℕ → Bytes → Bytes
pack_y pixels src dst nbpixels = write_all (λ i. luma_byte (pixels (src + i))) dst nbpixels 0

unfoldable pub pack_uv : Memory → ℕ → ℕ → ℕ → Bytes → Bytes
pack_uv pixels src dst nbpixels = write_all (λ i. chroma_byte (pixels (src + i))) dst nbpixels 0

-- `llconv_yvu_planar_s16u8` and `llconv_yvu_planar_u8s16`
unfoldable pub yvu_planar_s16u8 : Memory → ℕ → ℕ → ℕ → Bytes → Bytes
yvu_planar_s16u8 pixels src dst nbpixels bytes =
    pack_uv pixels (src + nbpixels) (dst + nbpixels) (nbpixels / 2)
      (pack_y pixels src dst nbpixels bytes)

unfoldable pub yvu_planar_u8s16 : Bytes → ℕ → ℕ → ℕ → Memory → Memory
yvu_planar_u8s16 bytes src dst nbpixels pixels =
    unpack_uv bytes (src + nbpixels) (dst + nbpixels) (nbpixels / 2)
      (unpack_y bytes src dst nbpixels pixels)

-- `llconv_yuv_planar_u8s16`
unfoldable pub yuv_planar_u8s16 : Bytes → ℕ → ℕ → ℕ → Memory → Memory
yuv_planar_u8s16 bytes src dst nbpixels pixels =
    unpack_uv bytes (src + (nbpixels + nbpixels / 4)) (dst + nbpixels) (nbpixels / 4) (
      unpack_uv bytes (src + nbpixels) (dst + (nbpixels + nbpixels / 4)) (nbpixels / 4)
        (unpack_y bytes src dst nbpixels pixels))

module _ {ℓ} {A : Type ℓ} where
  pub write_all-off :
      (value : ℕ → A) (dst n i : ℕ) (memory : ℕ → A) (q : ℕ)
      → (q < dst + i) ⊎ (dst + i + n ≤ q)
      → write_all value dst n i memory q ≡ memory q
  unfolding write_all
  write_all-off value dst zero i memory q h = refl
  write_all-off value dst (suc n) i memory q h =
      write_all-off value dst n (suc i) _ q (omega arith)
      ∙ other (memory q) (value i) (λ e. omega arith)
    where
      other : (old new : A) → q ≢ dst + i → (if q == dst + i then new else old) ≡ old
      other old new h = ground arith

  pub write_all-at :
      (value : ℕ → A) (dst n i : ℕ) (memory : ℕ → A) (j : ℕ)
      → i ≤ j
      → j < i + n
      → write_all value dst n i memory (dst + j) ≡ value j
  unfolding write_all
  write_all-at value dst zero i memory j h k = absurd (omega arith)
  write_all-at value dst (suc n) i memory j h k =
      let here : (j ≡ i) ⊎ (i < j) = omega arith in
      elim here [
        | inl e ↦ write_all-off value dst n (suc i) _ (dst + j) (omega arith) ∙ same e
        | inr more ↦ write_all-at value dst n (suc i) _ j (omega arith) (omega arith)
      ]
    where
      same : j ≡ i → (if dst + j == dst + i then value i else memory (dst + j)) ≡ value j
      same e = ground arith
