-- ===== src/Image/Affine.antt =====
-- The walk of an affine map: where each pixel of the result comes from.
use pdp.Base.{
  ℕ, zero, suc, ◌+◌, ◌*◌, ◌/◌, ◌%◌, ◌^◌, ◌≤◌, ◌<◌, ◌≡◌, ◌⊎◌, refl, ap, ◌∙◌, sym, arith, inl, ℤ,
  wrap,
}
use native.Mathlib.Nat.{mod-lt, mod-add-mod}
use pdp.Base.Bits.{pow_pos}
use pdp.Image.{Memory}
use pdp.Image.Pixels.{store-same, store-other}
use pdp.Image.Resample.{resample_bilin, AffineMap, affine_row, affine_rows}
use pdp.Image.Inside.{IsSize, IsSameImage, resample_bilin_inside}

-- The source image and the pixels from `dst` on share none.
abbrev pub IsApart : ℕ → ℕ → ℕ → ℕ → Type 0
IsApart src size dst n = (src + size ≤ dst) ⊎ (dst + n ≤ src)

-- The pixel at a coordinate of 32 bits, and a coordinate after some increments.
abbrev pub pixel_at : Memory → ℕ → ℕ → ℕ → ℕ → ℕ → ℤ
pixel_at memory src width height x y =
    wrap 16 (resample_bilin memory src width height (x / 2 ^ 16) (y / 2 ^ 16))

abbrev pub advanced : ℕ → ℕ → ℕ → ℕ
advanced start increment times = (start + times * increment) % 2 ^ 32

advanced_bound : (start increment times : ℕ) → advanced start increment times < 2 ^ 32
advanced_bound start increment times = mod-lt (start + times * increment) (pow_pos 32)

advanced_zero : (start increment : ℕ) → start < 2 ^ 32 → advanced start increment 0 ≡ start
advanced_zero start increment h = omega arith

advanced_next :
    (start increment times : ℕ)
    → advanced ((start + increment) % 2 ^ 32) increment times ≡ advanced start increment (suc times)
advanced_next start increment times =
    let regroup : start + increment + times * increment ≡ start + suc times * increment =
      grind arith in
    mod-add-mod (start + increment) (2 ^ 32) (times * increment) ∙ ap (λ t. t % 2 ^ 32) regroup

-- The same image gives the same pixels.
pixel_at_same :
    (memory memory' : Memory) (src width height x y : ℕ)
    → IsSize width
    → IsSize height
    → x < 2 ^ 32
    → y < 2 ^ 32
    → IsSameImage src (width * height) memory memory'
    → pixel_at memory src width height x y ≡ pixel_at memory' src width height x y
pixel_at_same memory memory' src width height x y w h bx by same = ap (wrap 16) (
    resample_bilin_inside memory memory' src width height (x / 2 ^ 16) (y / 2 ^ 16) w h
      (omega arith) (omega arith) same)

affine_row-off :
    (a : AffineMap) (src width height n x y dst : ℕ) (memory : Memory) (q : ℕ)
    → (q < dst) ⊎ (dst + n ≤ q)
    → affine_row a src width height n x y dst memory q ≡ memory q
unfolding affine_row
affine_row-off a src width height zero x y dst memory q h = refl
affine_row-off a src width height (suc n) x y dst memory q h =
    affine_row-off a src width height n _ _ (dst + 1) _ q (omega arith)
    ∙ store-other memory dst q _ (λ e. omega arith)

affine_rows-off :
    (a : AffineMap) (src width height n x y dst : ℕ) (memory : Memory) (q : ℕ)
    → q < dst
    → affine_rows a src width height n x y dst memory q ≡ memory q
unfolding affine_rows
affine_rows-off a src width height zero x y dst memory q h = refl
affine_rows-off a src width height (suc n) x y dst memory q h =
    affine_rows-off a src width height n _ _ (dst + width) _ q (omega arith)
    ∙ affine_row-off a src width height width x y dst memory q (inl h)

-- A row is written off the image, which stays the one that it was at the start.
affine_row-IsSameImage :
    (a : AffineMap) (src width height size n x y dst : ℕ) (memory origin : Memory)
    → IsApart src size dst n
    → IsSameImage src size memory origin
    → IsSameImage src size (affine_row a src width height n x y dst memory) origin
affine_row-IsSameImage a src width height size n x y dst memory origin apart same k h =
    affine_row-off a src width height n x y dst memory (src + k) (omega arith) ∙ same k h

affine_row-at :
    (a : AffineMap) (src width height n x y dst : ℕ) (memory origin : Memory) (i : ℕ)
    → IsSize width
    → IsSize height
    → x < 2 ^ 32
    → y < 2 ^ 32
    → IsApart src (width * height) dst n
    → IsSameImage src (width * height) memory origin
    → i < n
    → affine_row a src width height n x y dst memory (dst + i)
      ≡ pixel_at origin src width height (advanced x a.row_inc_x i) (advanced y a.row_inc_y i)
unfolding affine_row
affine_row-at a src width height zero x y dst memory origin i w h bx by apart same k =
    absurd (omega arith)
affine_row-at a src width height (suc n) x y dst memory origin zero w h bx by apart same k =
    let here : dst + 0 ≡ dst = omega arith in
    affine_row-off a src width height n _ _ (dst + 1) _ (dst + 0) (omega arith)
    ∙ rw (here, advanced_zero x a.row_inc_x bx, advanced_zero y a.row_inc_y by)
        (store-same memory dst _ ∙ pixel_at_same memory origin src width height x y w h bx by same)
affine_row-at a src width height (suc n) x y dst memory origin (suc i) w h bx by apart same k =
    let next : dst + suc i ≡ dst + 1 + i = omega arith in
    rw (next, sym (advanced_next x a.row_inc_x i), sym (advanced_next y a.row_inc_y i))
      (affine_row-at a src width height n _ _ (dst + 1) _ origin i w h
        (mod-lt (x + a.row_inc_x) (pow_pos 32)) (mod-lt (y + a.row_inc_y) (pow_pos 32))
        (omega arith) (λ j g. store-other memory dst (src + j) _ (λ e. omega arith) ∙ same j g)
        (omega arith))

affine_rows-at :
    (a : AffineMap) (src width height n x y dst : ℕ) (memory origin : Memory) (i j : ℕ)
    → IsSize width
    → IsSize height
    → x < 2 ^ 32
    → y < 2 ^ 32
    → IsApart src (width * height) dst (n * width)
    → IsSameImage src (width * height) memory origin
    → i < width
    → j < n
    → affine_rows a src width height n x y dst memory (dst + j * width + i)
      ≡ pixel_at origin src width height
          (advanced (advanced x a.col_inc_x j) a.row_inc_x i)
          (advanced (advanced y a.col_inc_y j) a.row_inc_y i)
unfolding affine_rows
affine_rows-at a src width height zero x y dst memory origin i j w h bx by apart same k g =
    absurd (omega arith)
affine_rows-at a src width height (suc n) x y dst memory origin i zero w h bx by apart same k g =
    let here : dst + 0 * width + i ≡ dst + i = omega arith in
    let one : suc n * width ≡ width + n * width = grind arith in
    rw (here, advanced_zero x a.col_inc_x bx, advanced_zero y a.col_inc_y by)
      (affine_rows-off a src width height n _ _ (dst + width) _ (dst + i) (omega arith)
        ∙ affine_row-at a src width height width x y dst memory origin i w h bx by
            (omega (arith, one)) same k)
affine_rows-at a src width height (suc n) x y dst memory origin i (suc j) w h bx by apart same k g =
    let next : dst + suc j * width + i ≡ dst + width + j * width + i = grind arith in
    let one : suc n * width ≡ width + n * width = grind arith in
    rw (next, sym (advanced_next x a.col_inc_x j), sym (advanced_next y a.col_inc_y j))
      (affine_rows-at a src width height n _ _ (dst + width) _ origin i j w h
        (mod-lt (x + a.col_inc_x) (pow_pos 32)) (mod-lt (y + a.col_inc_y) (pow_pos 32))
        (omega (arith, one))
        (affine_row-IsSameImage a src width height (width * height) width x y dst memory origin
          (omega (arith, one)) same)
        k (omega arith))

-- The pixel in column `i` and row `j` of the result is the resampled value of the source at the start
-- moved by `j` column steps and `i` row steps, modulo 2^32, as if no pixel had been written: the
-- increments that the loops sum up do not drift. The images have the same size, of 2 to 32768 rows and
-- columns, and are apart.
pub affine_rows-pixel_at :
    (a : AffineMap) (src dst width height x y : ℕ) (memory : Memory) (i j : ℕ)
    → IsSize width
    → IsSize height
    → x < 2 ^ 32
    → y < 2 ^ 32
    → IsApart src (width * height) dst (height * width)
    → i < width
    → j < height
    → affine_rows a src width height height x y dst memory (dst + j * width + i)
      ≡ pixel_at memory src width height
          (advanced (advanced x a.col_inc_x j) a.row_inc_x i)
          (advanced (advanced y a.col_inc_y j) a.row_inc_y i)
affine_rows-pixel_at a src dst width height x y memory i j w h bx by apart k g =
    affine_rows-at a src width height height x y dst memory memory i j w h bx by apart (λ q f. refl)
      k g
