-- ===== src/Image/Resample.antt =====
-- Bilinear resampling of system/image/pdp_imageproc_portable.c: the value at a virtual coordinate of 16
-- bits, and the loop that walks an affine map.
use pdp.Base.{
  ℕ, zero, suc, ◌+◌, ◌-◌, ◌*◌, ◌/◌, ◌%◌, ◌^◌, ◌≤◌, ◌<◌, ◌≡◌, arith, ℤ, pos, negsuc, ◌+ℤ◌, ◌*ℤ◌,
  wrap, shift_right, abs, abs-+ℤ, abs-*ℤ, abs-shift_right, wrap-fits, sub_pos,
}
use native.Mathlib.Nat.{mul-le-mul}
use pdp.Image.{Memory, store, add32, sub32, mul32}
use pdp.Image.Biquad.{move}
use pdp.Image.Exact.{IsClamped, add32-exact}

-- `x & 0xffff`
unfoldable pub low16 : ℤ → ℕ
low16 (pos n) = n % 2 ^ 16
low16 (negsuc n) = 2 ^ 16 - 1 - n % 2 ^ 16

-- `fp_x` or `fp_y`
abbrev pub fixed_point : ℕ → ℕ → ℤ
fixed_point virt size = mul32 (pos virt) (sub32 (pos size) (pos 1))

-- `(f*a + frac*b)>>16` with `f = 0x10000 - frac`.
abbrev pub blend : ℕ → ℤ → ℤ → ℤ
blend frac a b =
    shift_right (add32 (mul32 (sub32 (pos 65536) (pos frac)) a) (mul32 (pos frac) b)) 16

abbrev pub corner : ℕ → ℕ → ℕ → ℕ → ℤ
corner width height virt_x virt_y =
    add32 (shift_right (fixed_point virt_x width) 16)
      (mul32 (shift_right (fixed_point virt_y height) 16) (pos width))

-- `pdp_resample_bilin`
unfoldable pub resample_bilin : Memory → ℕ → ℕ → ℕ → ℕ → ℕ → ℤ
resample_bilin memory image width height virt_x virt_y =
    let frac_x = low16 (fixed_point virt_x width) in
    let frac_y = low16 (fixed_point virt_y height) in
    let p = move image (corner width height virt_x virt_y) in
    let r_1 = blend frac_x (memory p) (memory (p + 1)) in
    let r_2 = blend frac_x (memory (p + width)) (memory (p + width + 1)) in blend frac_y r_1 r_2

-- The increments of `pdp_imageproc_resample_affinemap_process`, which come from floating point.
pub record AffineMap : Type 0 where
  pub row_inc_x : ℕ
  pub row_inc_y : ℕ
  pub col_inc_x : ℕ
  pub col_inc_y : ℕ

-- The inner loop, with the pixels of the row that are left.
unfoldable pub affine_row : AffineMap → ℕ → ℕ → ℕ → ℕ → ℕ → ℕ → ℕ → Memory → Memory
affine_row a src width height zero x y dst memory = memory
affine_row a src width height (suc n) x y dst memory =
    affine_row a src width height n ((x + a.row_inc_x) % 2 ^ 32) ((y + a.row_inc_y) % 2 ^ 32)
      (dst + 1)
      (store memory dst
        (wrap 16 (resample_bilin memory src width height (x / 2 ^ 16) (y / 2 ^ 16))))

-- The outer loop, with the rows that are left.
unfoldable pub affine_rows : AffineMap → ℕ → ℕ → ℕ → ℕ → ℕ → ℕ → ℕ → Memory → Memory
affine_rows a src width height zero x y dst memory = memory
affine_rows a src width height (suc n) x y dst memory =
    affine_rows a src width height n ((x + a.col_inc_x) % 2 ^ 32) ((y + a.col_inc_y) % 2 ^ 32)
      (dst + width) (affine_row a src width height width x y dst memory)

pub low16_bound : (z : ℤ) → low16 z < 2 ^ 16
unfolding low16
low16_bound (pos n) = omega arith
low16_bound (negsuc n) = omega arith

complement : (frac : ℕ) → frac < 2 ^ 16 → sub32 (pos 65536) (pos frac) ≡ pos (65536 - frac)
complement frac h =
    rw (sub_pos 65536 frac (omega arith)) (wrap-fits 31 (pos (65536 - frac)) (omega arith))

-- A blend of two pixels does not leave the words nor the pixels.
blend-IsClamped :
    (frac : ℕ) (a b : ℤ) → frac < 2 ^ 16 → IsClamped a → IsClamped b → IsClamped (blend frac a b)
blend-IsClamped frac a b f h k =
    let left : abs (pos (65536 - frac) *ℤ a) ≤ (65536 - frac) * 32767 =
      omega (arith, abs-*ℤ (pos (65536 - frac)) a, mul-le-mul (same (65536 - frac)) h) in
    let right : abs (pos frac *ℤ b) ≤ frac * 32767 =
      omega (arith, abs-*ℤ (pos frac) b, mul-le-mul (same frac) k) in
    rw
      (
        complement frac f,
        wrap-fits 31 (pos (65536 - frac) *ℤ a) (omega (arith, left)),
        wrap-fits 31 (pos frac *ℤ b) (omega (arith, right)),
        add32-exact (pos (65536 - frac) *ℤ a) (pos frac *ℤ b) (omega (arith, left, right)),
      )
      (abs-shift_right (pos (65536 - frac) *ℤ a +ℤ pos frac *ℤ b) 16 32767
        (omega (arith, left, right, abs-+ℤ (pos (65536 - frac) *ℤ a) (pos frac *ℤ b))))
  where
    same : (n : ℕ) → n ≤ n
    same n = omega arith

-- A resampled value of an image without pixels -32768 is no such pixel either: it is no further from 0
-- than 32767, at every coordinate.
pub resample_bilin-IsClamped :
    (memory : Memory) (image width height virt_x virt_y : ℕ)
    → ((a : ℕ) → IsClamped (memory a))
    → IsClamped (resample_bilin memory image width height virt_x virt_y)
unfolding resample_bilin
resample_bilin-IsClamped memory image width height virt_x virt_y all =
    let x = low16_bound (fixed_point virt_x width) in
    blend-IsClamped _ _ _ (low16_bound (fixed_point virt_y height))
      (blend-IsClamped _ _ _ x (all _) (all _)) (blend-IsClamped _ _ _ x (all _) (all _))
