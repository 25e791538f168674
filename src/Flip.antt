-- ===== src/Flip.antt =====
-- The mirror image and the sizes of system/image/pdp_imageproc_common.c.
mod Tests
pub mod Mirror
use pdp.Base.{ℕ, zero, suc, ◌+◌, ◌-◌, ◌*◌, ◌/◌, ◌^◌, ◌≤◌, Bool, true, false, ltb, if◌then◌else◌}
use pdp.Image.{Memory, store}

-- `while (l < r)`, with the turns that are left.
unfoldable pub flip_row : ℕ → ℕ → ℕ → Memory → Memory
flip_row zero l r memory = memory
flip_row (suc n) l r memory = elim (ltb l r) [
  | true ↦ flip_row n (l + 1) (r - 1) (store (store memory l (memory r)) r (memory l))
  | false ↦ memory
]

-- The loop over the rows, with the rows that are left; each turn of the inner loop takes two pixels.
unfoldable pub flip_rows : ℕ → ℕ → ℕ → Memory → Memory
flip_rows width zero image memory = memory
flip_rows width (suc n) image memory =
    flip_rows width n (image + width) (flip_row width image (image + width - 1) memory)

-- `pdp_imageproc_flip_lr_process`
unfoldable pub flip_lr_process : ℕ → ℕ → ℕ → Memory → Memory
flip_lr_process width height image = flip_rows width height image

-- `pdp_imageproc_legalwidth` and `pdp_imageproc_legalheight` of a size that is not negative.
unfoldable pub legalsize : ℕ → ℕ
legalsize i = if ltb 0 i then ((i - 1) / 2 ^ 3 + 1) * 2 ^ 3 else 8

-- `pdp_imageproc_legalwidth_round_down` and `pdp_imageproc_legalheight_round_down`
unfoldable pub legalsize_round_down : ℕ → ℕ
legalsize_round_down i = if ltb 8 i then i / 2 ^ 3 * 2 ^ 3 else 8
