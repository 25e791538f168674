-- ===== src/Image/Inside.antt =====
-- Resampling reads inside the image.
use pdp.Base.{
  ℕ, suc, ◌+◌, ◌-◌, ◌*◌, ◌/◌, ◌^◌, ◌≤◌, ◌<◌, ◌≡◌, refl, ap, ◌∙◌, sym, arith, pos, wrap-fits,
  sub_pos, mul_pos, add_pos, shift_right_pos,
}
use native.Mathlib.Nat.{mul-le-mul, div-lt_iff_lt-mul, mul_comm}
use pdp.Base.Bits.{pow_pos}
use pdp.Image.{Memory}
use pdp.Image.Biquad.{move}
use pdp.Image.Resample.{fixed_point, corner, resample_bilin}

-- A size that resampling can work on.
abbrev pub IsSize : ℕ → Type 0
IsSize n = (2 ≤ n) × (n ≤ 2 ^ 15)

-- The column or the row that a virtual coordinate falls in.
abbrev pub cell : ℕ → ℕ → ℕ
cell virt size = virt * (size - 1) / 2 ^ 16

product_fits : (virt size : ℕ) → virt < 2 ^ 16 → IsSize size → virt * (size - 1) < 2 ^ 31
product_fits virt size v s =
    let below : virt ≤ 65535 = omega arith in
    let few : size - 1 ≤ 32767 = omega arith in omega (arith, mul-le-mul below few)

fixed_point-exact :
    (virt size : ℕ) → virt < 2 ^ 16 → IsSize size → fixed_point virt size ≡ pos (virt * (size - 1))
fixed_point-exact virt size v s =
    rw
      (
        sub_pos size 1 (omega arith),
        wrap-fits 31 (pos (size - 1)) (omega arith),
        mul_pos virt (size - 1),
      )
      (wrap-fits 31 (pos (virt * (size - 1))) (omega (arith, product_fits virt size v s)))

-- There is another one behind it.
cell_bound : (virt size : ℕ) → virt < 2 ^ 16 → IsSize size → cell virt size + 2 ≤ size
cell_bound virt size v s =
    let more : suc virt ≤ 2 ^ 16 = omega arith in
    let same : size - 1 ≤ size - 1 = omega arith in
    let room : virt * (size - 1) + (size - 1) ≤ (size - 1) * 2 ^ 16 =
      grind (arith, mul-le-mul more same) in
    let below : cell virt size < size - 1 = (div-lt_iff_lt-mul (pow_pos 16)).1 (omega arith) in
    omega arith

-- The four pixels of a cell lie in the image.
cell_room :
    (width height virt_x virt_y : ℕ)
    → virt_x < 2 ^ 16
    → virt_y < 2 ^ 16
    → IsSize width
    → IsSize height
    → cell virt_x width + cell virt_y height * width + width + 1 < width * height
cell_room width height virt_x virt_y x y w h =
    let same : width ≤ width = omega arith in
    let rows : (cell virt_y height + 2) * width ≤ height * width =
      mul-le-mul (cell_bound virt_y height y h) same in
    let split : (cell virt_y height + 2) * width ≡ cell virt_y height * width + 2 * width =
      grind arith in
    omega (arith, rows, split, cell_bound virt_x width x w, mul_comm width height)

corner-exact :
    (width height virt_x virt_y : ℕ)
    → virt_x < 2 ^ 16
    → virt_y < 2 ^ 16
    → IsSize width
    → IsSize height
    → corner width height virt_x virt_y ≡ pos (cell virt_x width + cell virt_y height * width)
corner-exact width height virt_x virt_y x y w h =
    let small : width * height ≤ 2 ^ 15 * 2 ^ 15 = mul-le-mul w.1 h.1 in
    let room = cell_room width height virt_x virt_y x y w h in
    let row = cell virt_y height * width in
    rw
      (
        fixed_point-exact virt_x width x w,
        fixed_point-exact virt_y height y h,
        shift_right_pos (virt_x * (width - 1)) 16,
        shift_right_pos (virt_y * (height - 1)) 16,
        mul_pos (cell virt_y height) width,
        wrap-fits 31 (pos row) (omega (arith, small, room)),
        add_pos (cell virt_x width) row,
      )
      (wrap-fits 31 (pos (cell virt_x width + row)) (omega (arith, small, room)))

-- Two memories hold the same image of `n` pixels.
abbrev pub IsSameImage : ℕ → ℕ → Memory → Memory → Type 0
IsSameImage image n memory memory' = (a : ℕ) → a < n → memory (image + a) ≡ memory' (image + a)

-- A resampled value depends on the pixels of the image alone: no pixel outside it is read. The image has
-- 2 to 32768 rows and columns, and the coordinates have 16 bits.
pub resample_bilin_inside :
    (memory memory' : Memory) (image width height virt_x virt_y : ℕ)
    → IsSize width
    → IsSize height
    → virt_x < 2 ^ 16
    → virt_y < 2 ^ 16
    → IsSameImage image (width * height) memory memory'
    → resample_bilin memory image width height virt_x virt_y
      ≡ resample_bilin memory' image width height virt_x virt_y
unfolding resample_bilin
resample_bilin_inside memory memory' image width height virt_x virt_y w h x y same =
    let o = cell virt_x width + cell virt_y height * width in
    let room = cell_room width height virt_x virt_y x y w h in
    let at : move image (corner width height virt_x virt_y) ≡ image + o =
      rw (corner-exact width height virt_x virt_y x y w h) (omega arith) in
    rw
      (
        at,
        read o 0 (image + o) (omega arith) (omega (arith, room)),
        read o 1 (image + o + 1) (omega arith) (omega (arith, room)),
        read o width (image + o + width) (omega arith) (omega (arith, room)),
        read o (width + 1) (image + o + width + 1) (omega arith) (omega (arith, room)),
      )
      refl
  where
    read : (o a p : ℕ) → p ≡ image + (o + a) → o + a < width * height → memory p ≡ memory' p
    read o a p e h = ap memory e ∙ same (o + a) h ∙ ap memory' (sym e)
