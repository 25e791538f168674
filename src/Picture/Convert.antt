-- ===== src/Picture/Convert.antt =====
-- The conversion programs of system/type/pdp_image.c, from one kind of picture to another. The dimensions are
-- of type `int`, and so is the number of bytes that is copied: where it does not fit, or the new packet has less
-- bytes than are written, the conversion faults. `alloc` gives the data of a new packet.
use pdp.Base.{
  ℕ, ◌+◌, ◌*◌, ◌/◌, ◌^◌, Bool, Option, none, some, Outcome, ok, fault, pos, leb, ltb, if◌then◌else◌,
}
use pdp.Image.{Memory}
use pdp.Image.Planes.{write_all}
use pdp.Resize.{halve, double}
use pdp.Picture.{Picture, new_image_YCrCb, new_image_grey, new_image_mchp}

-- `memcpy` of pixels between blocks that do not overlap, and `memset` to 0.
abbrev pub copy_pixels : ℕ → ℕ → ℕ → Memory → Memory
copy_pixels dst src n memory = write_all (λ i. memory (src + i)) dst n 0 memory

abbrev pub clear_pixels : ℕ → ℕ → Memory → Memory
clear_pixels dst n memory = write_all (λ i. pos 0) dst n 0 memory

-- What a conversion gives: the new picture, if there is one, and the memory.
abbrev pub Converted : Type 0
Converted = Option Picture × Memory

-- The conversion, where a size does not leave its type.
abbrev pub if_within : ℕ → ℕ → Converted → Outcome Converted
if_within size limit result = if ltb size limit then ok result else fault

-- `_pdp_packet_image_convert_YCrCb_to_grey`, also for the first channel of a multi picture.
unfoldable pub YCrCb_to_grey : (ℕ → Option ℕ) → Picture → Memory → Outcome Converted
YCrCb_to_grey alloc x memory = elim (new_image_grey alloc x.width x.height) [
  | none ↦ ok (none, memory)
  | some y ↦
      if_within (2 * (x.width * x.height)) (2 ^ 31)
        (some y, copy_pixels y.pixels x.pixels (x.width * x.height) memory)
]

-- `_pdp_packet_image_convert_grey_to_YCrCb`: `y_bytes >> 1` bytes are half as many pixels.
unfoldable pub grey_to_YCrCb : (ℕ → Option ℕ) → Picture → Memory → Outcome Converted
grey_to_YCrCb alloc x memory = elim (new_image_YCrCb alloc x.width x.height) [
  | none ↦ ok (none, memory)
  | some y ↦ if_within (2 * (x.width * x.height)) (2 ^ 31) (
    some y,
    clear_pixels (y.pixels + x.width * x.height) (x.width * x.height / 2)
        (copy_pixels y.pixels x.pixels (x.width * x.height) memory),
  )
]

-- `_pdp_packet_image_convert_grey_to_multi`
unfoldable pub grey_to_multi : (ℕ → Option ℕ) → Picture → Memory → Outcome Converted
grey_to_multi alloc x memory = elim (new_image_mchp alloc x.width x.height 1) [
  | none ↦ ok (none, memory)
  | some y ↦
      if_within (2 * (x.width * x.height)) (2 ^ 31)
        (some y, copy_pixels y.pixels x.pixels (x.width * x.height) memory)
]

-- A colour plane of `_pdp_packet_image_convert_multi_to_YCrCb`, read where the picture has the depth that is
-- asked for.
abbrev pub halve_or_clear : Bool → ℕ → ℕ → ℕ → ℕ → Memory → Memory
halve_or_clear there src dst w h = if there then halve src dst w h else clear_pixels dst (w * h / 4)

-- `_pdp_packet_image_convert_multi_to_YCrCb`
unfoldable pub multi_to_YCrCb : (ℕ → Option ℕ) → Picture → Memory → Outcome Converted
multi_to_YCrCb alloc x memory = elim (new_image_YCrCb alloc x.width x.height) [
  | none ↦ ok (none, memory)
  | some y ↦
      let size = x.width * x.height in
      let first = copy_pixels y.pixels x.pixels size memory in
      let second =
        halve_or_clear (leb 1 x.depth) (x.pixels + size) (y.pixels + size) x.width x.height first in
      if_within (2 * size) (2 ^ 31) (
        some y,
        halve_or_clear (leb 2 x.depth) (x.pixels + size + size) (y.pixels + size + size / 4) x.width
            x.height second,
      )
]

-- `_pdp_packet_image_convert_YCrCb_to_multi`; the three planes have 6 bytes for each pixel.
unfoldable pub YCrCb_to_multi : (ℕ → Option ℕ) → Picture → Memory → Outcome Converted
YCrCb_to_multi alloc x memory = elim (new_image_mchp alloc x.width x.height 3) [
  | none ↦ ok (none, memory)
  | some y ↦
      let size = x.width * x.height in
      let first = copy_pixels y.pixels x.pixels size memory in
      let second = double (x.pixels + size) (y.pixels + size) (x.width / 2) (x.height / 2) first in
      if_within (6 * size) (2 ^ 32) (
        some y,
        double (x.pixels + size + size / 4) (y.pixels + size + size) (x.width / 2) (x.height / 2)
            second,
      )
]
