-- ===== src/Image/Planes/RoundTrip.antt =====
-- A picture of bytes comes back from its image.
use pdp.Base.{
  ℕ, ◌+◌, ◌-◌, ◌*◌, ◌/◌, ◌%◌, ◌^◌, ◌≤◌, ◌<◌, ◌≡◌, ◌⊎◌, ap, ◌∙◌, sym, arith, inl, inr, pos, wrap,
  wrap-fits, shift_right_pos,
}
use pdp.Image.{Memory}
use pdp.Image.Resample.{low16}
use pdp.Image.Planes.{
  Bytes, write_all-off, write_all-at, luma_pixel, chroma_pixel, luma_byte, chroma_byte, clamp8,
  unpack_y, unpack_uv, pack_y, pack_uv, yvu_planar_s16u8, yvu_planar_u8s16,
}

luma_byte-luma_pixel : (c : ℕ) → c < 256 → luma_byte (luma_pixel c) ≡ c
luma_byte-luma_pixel c h =
    rw (wrap-fits 15 (pos (c * 2 ^ 7)) (omega arith), shift_right_pos (c * 2 ^ 7) 7)
      (clamped (c * 2 ^ 7 / 2 ^ 7) (omega arith))
  where
    clamped : (d : ℕ) → d ≡ c → clamp8 (pos d) ≡ c
    clamped d e = ground arith

low16-wrap : (x : ℕ) → x < 2 ^ 16 → low16 (wrap 16 (pos x)) ≡ x
unfolding low16 wrap
low16-wrap x h = let same : x % 2 ^ 16 ≡ x = omega arith in rw same (ground arith)

chroma_byte-chroma_pixel : (c : ℕ) → c < 256 → chroma_byte (chroma_pixel c) ≡ c
chroma_byte-chroma_pixel c h =
    ap (λ x. (x + 2 ^ 15) % 2 ^ 16 / 2 ^ 8)
      (low16-wrap ((c * 2 ^ 8 + 2 ^ 15) % 2 ^ 16) (omega arith))
    ∙ omega arith

-- The image of a picture, plane by plane.
unpacked-luma :
    (bytes : Bytes) (src dst n : ℕ) (pixels : Memory) (j : ℕ)
    → j < n
    → yvu_planar_u8s16 bytes src dst n pixels (dst + j) ≡ luma_pixel (bytes (src + j))
unfolding yvu_planar_u8s16 unpack_y unpack_uv
unpacked-luma bytes src dst n pixels j h =
    write_all-off _ (dst + n) (n / 2) 0 _ (dst + j) (omega arith)
    ∙ write_all-at _ dst n 0 pixels j (omega arith) (omega arith)

unpacked-chroma :
    (bytes : Bytes) (src dst n : ℕ) (pixels : Memory) (j : ℕ)
    → j < n / 2
    → yvu_planar_u8s16 bytes src dst n pixels (dst + n + j) ≡ chroma_pixel (bytes (src + n + j))
unfolding yvu_planar_u8s16 unpack_uv
unpacked-chroma bytes src dst n pixels j h =
    write_all-at _ (dst + n) (n / 2) 0 _ j (omega arith) (omega arith)

packed-luma :
    (pixels : Memory) (src dst n : ℕ) (bytes : Bytes) (j : ℕ)
    → j < n
    → yvu_planar_s16u8 pixels src dst n bytes (dst + j) ≡ luma_byte (pixels (src + j))
unfolding yvu_planar_s16u8 pack_y pack_uv
packed-luma pixels src dst n bytes j h =
    write_all-off _ (dst + n) (n / 2) 0 _ (dst + j) (omega arith)
    ∙ write_all-at _ dst n 0 bytes j (omega arith) (omega arith)

packed-chroma :
    (pixels : Memory) (src dst n : ℕ) (bytes : Bytes) (j : ℕ)
    → j < n / 2
    → yvu_planar_s16u8 pixels src dst n bytes (dst + n + j) ≡ chroma_byte (pixels (src + n + j))
unfolding yvu_planar_s16u8 pack_uv
packed-chroma pixels src dst n bytes j h =
    write_all-at _ (dst + n) (n / 2) 0 _ j (omega arith) (omega arith)

-- A picture of `n` luma bytes and half as many chroma bytes is unpacked to an image and packed again: it is
-- the picture that it was, byte for byte. The image lies apart from both pictures: bytes and pixels are
-- memories of their own here, and neither loop writes what it reads.
pub yvu_planar_s16u8-yvu_planar_u8s16 :
    (bytes copy : Bytes) (pixels : Memory) (src image dst n j : ℕ)
    → ((a : ℕ) → bytes a < 256)
    → j < n + n / 2
    → yvu_planar_s16u8 (yvu_planar_u8s16 bytes src image n pixels) image dst n copy (dst + j)
      ≡ bytes (src + j)
yvu_planar_s16u8-yvu_planar_u8s16 bytes copy pixels src image dst n j small h =
    let plane : (j < n) ⊎ (n ≤ j) = omega arith in
    let after = yvu_planar_u8s16 bytes src image n pixels in
    elim plane [
      | inl luma ↦
          packed-luma after image dst n copy j luma
          ∙ ap luma_byte (unpacked-luma bytes src image n pixels j luma)
          ∙ luma_byte-luma_pixel (bytes (src + j)) (small (src + j))
      | inr chroma ↦
          let at : dst + j ≡ dst + n + (j - n) = omega arith in
          let from : src + n + (j - n) ≡ src + j = omega arith in
          rw (at, sym from)
            (packed-chroma after image dst n copy (j - n) (omega arith)
              ∙ ap chroma_byte (unpacked-chroma bytes src image n pixels (j - n) (omega arith))
              ∙ chroma_byte-chroma_pixel (bytes (src + n + (j - n))) (small _))
    ]
