-- ===== src/Picture.antt =====
-- Image packets, system/type/pdp_image.c: pictures of several planes, over the pixel memory of Image. The
-- packet pool is left to the parameter that gives the address of a new packet's data.
pub mod Convert
pub mod Describe
pub mod Dispatch
pub mod Planes
pub mod Factory
pub mod Resample
pub mod RoundTrip
mod Tests
use pdp.Base.{
  ℕ, zero, suc, ◌+◌, ◌-◌, ◌*◌, ◌/◌, ◌%◌, ◌^◌, Bool, true, false, ◌&&◌, ◌||◌, not, ◌==◌,
  if◌then◌else◌, Option, none, some,
}
use pdp.Image.{Memory, pixel_count}

-- `PDP_IMAGE_YV12`, `PDP_IMAGE_GREY` and `PDP_IMAGE_MCHP`.
abbrev pub yv12 : ℕ
yv12 = 1

abbrev pub grey : ℕ
grey = 2

abbrev pub mchp : ℕ
mchp = 4

-- `PDP_IMAGE`, the type in the header.
abbrev pub image_type : ℕ
image_type = 1

-- `t_image` with the type of its packet and the address of its data.
pub record Picture : Type 0 where
  pub type : ℕ
  pub encoding : ℕ
  pub width : ℕ
  pub height : ℕ
  pub depth : ℕ
  pub chanmask : ℕ
  pub pixels : ℕ

-- `pdp_packet_image_isvalid`; a packet that is not there is `none`.
unfoldable pub image_isvalid : Option Picture → Bool
image_isvalid none = false
image_isvalid (some x) =
    x.type == image_type && (x.encoding == yv12 || (x.encoding == grey || x.encoding == mchp))

-- `pdp_packet_compat`
unfoldable pub packet_compat : Option Picture → Option Picture → Bool
packet_compat (some x) (some y) = x.type == y.type
packet_compat _ _ = false

-- `pdp_packet_image_compat`
unfoldable pub image_compat : Option Picture → Option Picture → Bool
unfolding packet_compat
image_compat (some x) (some y) =
    packet_compat (some x) (some y)
    && (x.type == image_type
        && (x.encoding == y.encoding && (x.width == y.width && x.height == y.height)))
image_compat _ _ = false

-- `pdp_packet_image_set_chanmask`
unfoldable pub image_set_chanmask : Option Picture → ℕ → Option Picture
unfolding image_isvalid
image_set_chanmask none mask = none
image_set_chanmask (some x) mask =
    if image_isvalid (some x) then some (record x { chanmask = mask }) else some x

-- The sizes in bytes that the three constructors ask for, in `u32`.
abbrev pub bytes_YCrCb : ℕ → ℕ → ℕ
bytes_YCrCb w h = (pixel_count w h + pixel_count w h / 2) * 2 % 2 ^ 32

abbrev pub bytes_grey : ℕ → ℕ → ℕ
bytes_grey w h = pixel_count w h * 2 % 2 ^ 32

abbrev pub bytes_mchp : ℕ → ℕ → ℕ → ℕ
bytes_mchp w h d = w * h * d % 2 ^ 32 * 2 % 2 ^ 32

-- `pdp_packet_new_image_YCrCb`, `_grey` and `_mchp`. `alloc` is `pdp_packet_new` for a number of bytes; the
-- subheader of a new packet is 0.
unfoldable pub new_image_YCrCb : (ℕ → Option ℕ) → ℕ → ℕ → Option Picture
new_image_YCrCb alloc w h = elim (alloc (bytes_YCrCb w h)) [
  | none ↦ none
  | some p ↦ some (record {
    type = image_type;
    encoding = yv12;
    width = w;
    height = h;
    depth = 0;
    chanmask = 0;
    pixels = p;
  })
]

unfoldable pub new_image_grey : (ℕ → Option ℕ) → ℕ → ℕ → Option Picture
new_image_grey alloc w h = elim (alloc (bytes_grey w h)) [
  | none ↦ none
  | some p ↦ some (record {
    type = image_type;
    encoding = grey;
    width = w;
    height = h;
    depth = 0;
    chanmask = 0;
    pixels = p;
  })
]

unfoldable pub new_image_mchp : (ℕ → Option ℕ) → ℕ → ℕ → ℕ → Option Picture
new_image_mchp alloc w h d = elim (alloc (bytes_mchp w h d)) [
  | none ↦ none
  | some p ↦ some (record {
    type = image_type;
    encoding = mchp;
    width = w;
    height = h;
    depth = d;
    chanmask = 0;
    pixels = p;
  })
]

-- `pdp_packet_new_image`
unfoldable pub new_image : (ℕ → Option ℕ) → ℕ → ℕ → ℕ → Option Picture
unfolding new_image_YCrCb new_image_grey
new_image alloc kind w h =
    if kind == yv12
    then new_image_YCrCb alloc w h
    else if kind == grey
    then new_image_grey alloc w h
    else none
