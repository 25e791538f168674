-- ===== src/Picture/Resample.antt =====
-- The conversions of system/type/pdp_image.c to another size. The dimensions that the template names come as
-- arguments of type `int`, which may be negative; those of the source fit an `int`; `quality` is 1 in the source, so the scaling is bilinear.
use pdp.Base.{
  Bool, ℕ, zero, suc, ◌+◌, ◌*◌, ◌-◌, ◌/◌, ◌%◌, ◌^◌, ◌≤◌, ◌<◌, ◌≡◌, ◌⊎◌, ◌==◌, Option, none, some,
  Outcome, ok, fault, if◌then◌else◌, ℤ, pos, negsuc, pos_part, neg_part, shift_right, leb,
}
use pdp.Image.{Memory, pixel_count}
use pdp.Resize.Scale.{scale_bilin}
use pdp.Picture.{Picture, yv12, image_type, new_image_YCrCb, new_image_grey, new_image_mchp}
use pdp.Picture.Convert.{Converted}

-- One scaling after another, and the result with the new picture.
abbrev pub and_scale : Outcome Memory → (Memory → Outcome Memory) → Outcome Memory
and_scale fault next = fault
and_scale (ok memory) next = next memory

abbrev pub with_picture : Picture → Outcome Memory → Outcome Converted
with_picture y fault = fault
with_picture y (ok memory) = ok (some y, memory)

-- A dimension as the `unsigned int` that a constructor takes.
abbrev pub unsigned : ℤ → ℕ
unsigned (pos n) = n % 2 ^ 32
unsigned (negsuc n) = (2 ^ 32 - suc n % 2 ^ 32) % 2 ^ 32

-- `pdp_resample_scale_bilin` to dimensions that may be negative: the loops have no turn below 0, and a
-- dimension of 0 is divided by all the same.
unfoldable pub scale_signed : ℕ → ℕ → ℕ → ℕ → ℤ → ℤ → Memory → Outcome Memory
scale_signed src dst src_w src_h (pos w) (pos h) memory = scale_bilin src dst src_w src_h w h memory
scale_signed src dst src_w src_h (pos w) (negsuc h) memory = if w == 0 then fault else ok memory
scale_signed src dst src_w src_h (negsuc w) (pos h) memory = if h == 0 then fault else ok memory
scale_signed src dst src_w src_h (negsuc w) (negsuc h) memory = ok memory

-- Whether the size in bytes that a new YCrCb packet should have is beyond the 32 bits that it is computed in:
-- the packet is then smaller than its planes.
abbrev pub bytes_needed : ℕ → ℕ → ℕ
bytes_needed w h = (w * h + w * h / 2) * 2

abbrev pub IsOversize : ℤ → ℤ → Type 0
IsOversize w h = 2 ^ 32 ≤ bytes_needed (pos_part w) (pos_part h)

abbrev pub is_oversize : ℤ → ℤ → Bool
is_oversize w h = leb (2 ^ 32) (bytes_needed (pos_part w) (pos_part h))

-- `_pdp_packet_image_convert_resample_YCrCb`; writing past the end of the new packet faults.
unfoldable pub resample_YCrCb : (ℕ → Option ℕ) → ℤ → ℤ → Picture → Memory → Outcome Converted
resample_YCrCb alloc dst_w dst_h x memory =
    let src_size = pixel_count x.width x.height in
    let dst_size = pixel_count (unsigned dst_w) (unsigned dst_h) in
    let colour : ℕ → ℕ → Memory → Outcome Memory = λ src dst.
      scale_signed src dst (x.width / 2) (x.height / 2) (shift_right dst_w 1)
        (shift_right dst_h 1) in
    elim (new_image_YCrCb alloc (unsigned dst_w) (unsigned dst_h)) [
      | none ↦ ok (none, memory)
      | some y ↦
          let scaled = with_picture y (
            and_scale
              (and_scale (scale_signed x.pixels y.pixels x.width x.height dst_w dst_h memory)
                (colour (x.pixels + src_size) (y.pixels + dst_size)))
              (colour (x.pixels + (src_size + src_size / 4))
                (y.pixels + (dst_size + dst_size / 4)))) in
          if is_oversize dst_w dst_h then fault else scaled
    ]

-- `while (depth--)` of the conversion below, with the channels that are left.
unfoldable pub scale_channels : ℕ → ℕ → ℕ → ℕ → ℕ → ℕ → ℕ → Memory → Outcome Memory
scale_channels zero src dst src_w src_h dst_w dst_h memory = ok memory
scale_channels (suc n) src dst src_w src_h dst_w dst_h memory =
    and_scale (scale_bilin src dst src_w src_h dst_w dst_h memory) (
      scale_channels n (src + pixel_count src_w src_h) (dst + pixel_count dst_w dst_h) src_w src_h
        dst_w dst_h)

-- `_pdp_packet_image_convert_resample_multi`: without a depth the new picture is grey. It is modelled for
-- dimensions and a depth that are not negative; writing past the end of the new packet faults.
unfoldable pub resample_multi : (ℕ → Option ℕ) → ℕ → ℕ → ℕ → Picture → Memory → Outcome Converted
resample_multi alloc dst_w dst_h depth x memory =
    let scaled : ℕ → Picture → Outcome Converted = λ n y.
      let channels = scale_channels n x.pixels y.pixels x.width x.height dst_w dst_h memory in
      if leb (2 ^ 32) (dst_w * dst_h * n * 2) then fault else with_picture y channels in
    if depth == 0
    then elim (new_image_grey alloc dst_w dst_h) [ none ↦ ok (none, memory) | some y ↦ scaled 1 y ]
    else elim (new_image_mchp alloc dst_w dst_h depth) [
      | none ↦ ok (none, memory)
      | some y ↦ scaled depth y
    ]

abbrev pub picture_for : ℤ → ℤ → ℕ → Picture
picture_for dst_w dst_h p = record {
  type = image_type;
  encoding = yv12;
  width = unsigned dst_w;
  height = unsigned dst_h;
  depth = 0;
  chanmask = 0;
  pixels = p;
}

-- A dimension of 0, and one whose half is 0: 0 or 1.
abbrev IsZero : ℤ → Type 0
IsZero z = (pos_part z ≡ 0) × (neg_part z ≡ 0)

abbrev pub IsTooSmall : ℤ → Type 0
IsTooSmall z = (pos_part z < 2) × (neg_part z ≡ 0)

-- A size with no pixel.
abbrev pub HasNone : ℤ → ℤ → Type 0
HasNone w h = (pos_part w ≡ 0) ⊎ (pos_part h ≡ 0)

-- One scaling faults where a dimension is 0, and leaves the memory alone where it has no pixel to write.
abbrev ScaledTo : ℤ → ℤ → Memory → Outcome Memory → Type 0
ScaledTo w h before result =
    ((result ≡ fault) × (IsZero w ⊎ IsZero h))
    ⊎ ((after : Memory) × (result ≡ ok after)
        × (IsZero w → ⊥)
        × (IsZero h → ⊥)
        × (HasNone w h → after ≡ before))

-- The sizes that a conversion faults for, and what it gives for the others.
abbrev pub IsRefused : ℤ → ℤ → Type 0
IsRefused w h = IsTooSmall w ⊎ (IsTooSmall h ⊎ IsOversize w h)

abbrev pub Resampled : ℤ → ℤ → ℕ → Memory → Outcome Converted → Type 0
Resampled w h p before result =
    (IsRefused w h × (result ≡ fault))
    ⊎ ((IsTooSmall w → ⊥)
        × (IsTooSmall h → ⊥)
        × (bytes_needed (pos_part w) (pos_part h) < 2 ^ 32)
        × (after : Memory) × (result ≡ ok (some (picture_for w h p), after))
        × (HasNone w h → after ≡ before))
