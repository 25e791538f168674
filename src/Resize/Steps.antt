-- ===== src/Resize/Steps.antt =====
-- A scaled image has at each pixel the sample at the sum of the steps to it.
use pdp.Base.{
  ℕ, zero, suc, ◌+◌, ◌*◌, ◌/◌, ◌%◌, ◌^◌, ◌≤◌, ◌<◌, ◌≡◌, ◌⊎◌, refl, ap, ◌∙◌, sym, arith, inl,
  Outcome, ok, wrap, ◌==◌, ◌||◌, false,
}
use native.Mathlib.Nat.{mul-le-mul, mul-div-le}
use pdp.Image.{Memory, store}
use pdp.Image.Pixels.{IsOutside, store-same, store-other}
use pdp.Image.Inside.{IsSize, IsSameImage, resample_bilin_inside}
use pdp.Image.Affine.{IsApart}
use pdp.Resize.Scale.{Sample, scale_row, scale_rows, bilinear, scale_bilin, nearest, scale_nn}

scale_row-off :
    (sample : Sample) (step n x y dst : ℕ) (memory : Memory) (q : ℕ)
    → (q < dst) ⊎ (dst + n ≤ q)
    → scale_row sample step n x y dst memory q ≡ memory q
unfolding scale_row
scale_row-off sample step zero x y dst memory q h = refl
scale_row-off sample step (suc n) x y dst memory q h =
    scale_row-off sample step n _ y (dst + 1) _ q (omega arith)
    ∙ store-other memory dst q _ (λ e. omega arith)

scale_rows-off :
    (sample : Sample) (step_x step_y width n y dst : ℕ) (memory : Memory) (q : ℕ)
    → (q < dst) ⊎ (dst + n * width ≤ q)
    → scale_rows sample step_x step_y width n y dst memory q ≡ memory q
unfolding scale_rows
scale_rows-off sample step_x step_y width zero y dst memory q h = refl
scale_rows-off sample step_x step_y width (suc n) y dst memory q h =
    let one : suc n * width ≡ width + n * width = grind arith in
    scale_rows-off sample step_x step_y width n _ (dst + width) _ q (omega (arith, one, h))
    ∙ scale_row-off sample step_x width 0 y dst memory q (omega (arith, one, h))

-- A sample reads the image alone, below the limits for both coordinates.
abbrev pub Reads : Sample → ℕ → ℕ → ℕ → ℕ → Type 0
Reads sample src size limit_x limit_y =
    (memory memory' : Memory) (x y : ℕ)
    → x < limit_x
    → y < limit_y
    → IsSameImage src size memory memory'
    → sample memory x y ≡ sample memory' x y

from_zero : (n : ℕ) → 0 + n ≡ n
from_zero n = omega arith

module _ (sample : Sample) (src size limit_x limit_y : ℕ)
    (reads : Reads sample src size limit_x limit_y) (low_x : limit_x ≤ 2 ^ 31)
    (low_y : limit_y ≤ 2 ^ 31) (origin : Memory) where
  scale_row-at :
      (step n x y dst : ℕ) (memory : Memory) (i : ℕ)
      → ((i : ℕ) → i < n → x + i * step < limit_x)
      → y < limit_y
      → IsApart src size dst n
      → IsSameImage src size memory origin
      → i < n
      → scale_row sample step n x y dst memory (dst + i) ≡ sample origin (x + i * step) y
  unfolding scale_row
  scale_row-at step zero x y dst memory i below by apart same k = absurd (omega arith)
  scale_row-at step (suc n) x y dst memory zero below by apart same k =
      let here : dst + 0 ≡ dst = omega arith in
      let start : x + 0 * step ≡ x = omega arith in
      scale_row-off sample step n _ y (dst + 1) _ (dst + 0) (omega arith)
      ∙ rw (here, start)
          (store-same memory dst _
            ∙ reads memory origin x y (omega (arith, below 0 (omega arith))) by same)
  scale_row-at step (suc n) x y dst memory (suc i) below by apart same k =
      let next : dst + suc i ≡ dst + 1 + i = omega arith in
      let stays : (x + step) % 2 ^ 32 ≡ x + step = omega (arith, below 1 (omega arith)) in
      let sum : (i : ℕ) → x + step + i * step ≡ x + suc i * step = λ i. grind arith in
      rw (next, stays, sym (sum i))
        (scale_row-at step n (x + step) y (dst + 1) (store memory dst (sample memory x y)) i
          (λ i h. omega (arith, below (suc i) (omega arith), sum i)) by (omega arith)
          (λ j g. store-other memory dst (src + j) _ (λ e. omega arith) ∙ same j g) (omega arith))

  scale_rows-at :
      (step_x step_y width n y dst : ℕ) (memory : Memory) (i j : ℕ)
      → ((i : ℕ) → i < width → i * step_x < limit_x)
      → ((j : ℕ) → j < n → y + j * step_y < limit_y)
      → IsApart src size dst (n * width)
      → IsSameImage src size memory origin
      → i < width
      → j < n
      → scale_rows sample step_x step_y width n y dst memory (dst + j * width + i)
        ≡ sample origin (i * step_x) (y + j * step_y)
  unfolding scale_rows
  scale_rows-at step_x step_y width zero y dst memory i j bx by apart same k g =
      absurd (omega arith)
  scale_rows-at step_x step_y width (suc n) y dst memory i zero bx by apart same k g =
      let here : dst + 0 * width + i ≡ dst + i = omega arith in
      let start : y + 0 * step_y ≡ y = omega arith in
      let one : suc n * width ≡ width + n * width = grind arith in
      rw (here, start)
        (scale_rows-off sample step_x step_y width n _ (dst + width) _ (dst + i) (inl (omega arith))
          ∙ scale_row-at step_x width 0 y dst memory i (λ i h. omega (arith, bx i h))
              (omega (arith, by 0 (omega arith))) (omega (arith, one, apart)) same k
          ∙ ap (λ t. sample origin t y) (from_zero (i * step_x)))
  scale_rows-at step_x step_y width (suc n) y dst memory i (suc j) bx by apart same k g =
      let next : dst + suc j * width + i ≡ dst + width + j * width + i = grind arith in
      let one : suc n * width ≡ width + n * width = grind arith in
      let stays : (y + step_y) % 2 ^ 32 ≡ y + step_y = omega (arith, by 1 (omega arith)) in
      let sum : (j : ℕ) → y + step_y + j * step_y ≡ y + suc j * step_y = λ j. grind arith in
      rw (next, stays, sym (sum j))
        (scale_rows-at step_x step_y width n (y + step_y) (dst + width)
          (scale_row sample step_x width 0 y dst memory) i j bx
          (λ j h. omega (arith, by (suc j) (omega arith), sum j)) (omega (arith, one, apart))
          (λ q h.
            scale_row-off sample step_x width 0 y dst memory (src + q) (omega (arith, one, apart))
            ∙ same q h)
          k (omega arith))

-- A scaled image: each pixel is the sample of the source as it was, at so many steps of both coordinates,
-- and other memory is kept.
pub record Scaled (sample : Sample) (step_x step_y dst width height : ℕ) (before : Memory)
    (result : Outcome Memory) : Type 0 where
  pub after : Memory
  pub returns : result ≡ ok after
  pub pixels :
      (i j : ℕ)
      → i < width
      → j < height
      → after (dst + j * width + i) ≡ sample before (i * step_x) (j * step_y)
  pub kept : (q : ℕ) → IsOutside dst (height * width) q → after q ≡ before q

-- A size divided into steps.
steps_below : (total n i : ℕ) → 0 < total → i < n → i * (total / n) < total
steps_below total n i h k = by_step (total / n) (mul-div-le total n)
  where
    by_step : (q : ℕ) → n * q ≤ total → i * q < total
    by_step zero fits = omega arith
    by_step (suc q) fits =
        let more : suc i ≤ n = k in
        let same : suc q ≤ suc q = omega arith in
        let split : suc i * suc q ≡ i * suc q + suc q = grind arith in
        omega (arith, mul-le-mul more same, split, fits)

scale_rows-Scaled :
    (sample : Sample) (src size step_x step_y limit_x limit_y dst width height : ℕ)
    (memory : Memory)
    → Reads sample src size limit_x limit_y
    → limit_x ≤ 2 ^ 31
    → limit_y ≤ 2 ^ 31
    → ((i : ℕ) → i < width → i * step_x < limit_x)
    → ((j : ℕ) → j < height → j * step_y < limit_y)
    → IsApart src size dst (height * width)
    → Scaled sample step_x step_y dst width height memory
        (ok (scale_rows sample step_x step_y width height 0 dst memory))
scale_rows-Scaled sample src size step_x step_y limit_x limit_y dst width height memory reads lx ly
      bx by apart =
    record {
      after = scale_rows sample step_x step_y width height 0 dst memory;
      returns = refl;
      pixels = λ i j h k.
          scale_rows-at sample src size limit_x limit_y reads lx ly memory step_x step_y width
            height 0 dst memory i j bx (λ j h. omega (arith, by j h)) apart (λ a h. refl) h k
          ∙ ap (sample memory (i * step_x)) (from_zero (j * step_y));
      kept = λ q h. scale_rows-off sample step_x step_y width height 0 dst memory q (omega arith);
    }

bilinear-Reads :
    (src src_w src_h limit_x limit_y : ℕ)
    → IsSize src_w
    → IsSize src_h
    → Reads (bilinear src src_w src_h) src (src_w * src_h) limit_x limit_y
bilinear-Reads src src_w src_h limit_x limit_y w h memory memory' x y bx by same =
    ap (wrap 16) (
      resample_bilin_inside memory memory' src src_w src_h _ _ w h (omega arith) (omega arith) same)

-- `pdp_resample_scale_bilin` to a size of at least one pixel gives each pixel the bilinear value of the source
-- at a whole number of steps, without drift and as if no pixel had been written, and changes no
-- other memory. The source has 2 to 32768 rows and columns, and the two images are apart.
pub scale_bilin-Scaled :
    (src dst src_w src_h dst_w dst_h : ℕ) (memory : Memory)
    → IsSize src_w
    → IsSize src_h
    → 0 < dst_w
    → 0 < dst_h
    → IsApart src (src_w * src_h) dst (dst_h * dst_w)
    → Scaled
        (bilinear src src_w src_h)
        (2 ^ 30 / dst_w)
        (2 ^ 30 / dst_h)
        dst
        dst_w
        dst_h
        memory
        (scale_bilin src dst src_w src_h dst_w dst_h memory)
unfolding scale_bilin
scale_bilin-Scaled src dst src_w src_h dst_w dst_h memory w h a b apart =
    let some_size : (dst_w == 0 || dst_h == 0) ≡ false = ground arith in
    rw some_size (
      scale_rows-Scaled (bilinear src src_w src_h) src (src_w * src_h) (2 ^ 30 / dst_w)
        (2 ^ 30 / dst_h) (2 ^ 30) (2 ^ 30) dst dst_w dst_h memory
        (bilinear-Reads src src_w src_h _ _ w h) (omega arith) (omega arith)
        (λ i k. steps_below (2 ^ 30) dst_w i (omega arith) k)
        (λ j k. steps_below (2 ^ 30) dst_h j (omega arith) k) apart)

nearest-Reads :
    (src src_w src_h : ℕ)
    → Reads (nearest src src_w) src (src_w * src_h) (src_w * 2 ^ 20) (src_h * 2 ^ 20)
nearest-Reads src src_w src_h memory memory' x y bx by same =
    let column : x / 2 ^ 20 < src_w = omega arith in
    let row : suc (y / 2 ^ 20) ≤ src_h = omega arith in
    let fits : suc (y / 2 ^ 20) * src_w ≤ src_h * src_w = mul-le-mul row (omega arith) in
    let split : suc (y / 2 ^ 20) * src_w ≡ y / 2 ^ 20 * src_w + src_w = grind arith in
    let turn : src_h * src_w ≡ src_w * src_h = grind arith in
    same (x / 2 ^ 20 + y / 2 ^ 20 * src_w) (omega (arith, column, fits, split, turn))

-- `pdp_resample_scale_nn` to a size of at least one pixel gives each pixel one of the source, by whole
-- steps of both coordinates, reads no pixel outside the source and changes no other memory than the result.
-- The source has less than 2048 rows and columns, and the two images are apart.
pub scale_nn-Scaled :
    (src dst src_w src_h dst_w dst_h : ℕ) (memory : Memory)
    → 0 < src_w
    → 0 < src_h
    → src_w < 2 ^ 11
    → src_h < 2 ^ 11
    → 0 < dst_w
    → 0 < dst_h
    → IsApart src (src_w * src_h) dst (dst_h * dst_w)
    → Scaled
        (nearest src src_w)
        (src_w * 2 ^ 20 / dst_w)
        (src_h * 2 ^ 20 / dst_h)
        dst
        dst_w
        dst_h
        memory
        (scale_nn src dst src_w src_h dst_w dst_h memory)
unfolding scale_nn
scale_nn-Scaled src dst src_w src_h dst_w dst_h memory w h lw lh a b apart =
    let some_size : (dst_w == 0 || dst_h == 0) ≡ false = ground arith in
    rw some_size (
      scale_rows-Scaled (nearest src src_w) src (src_w * src_h) _ _ (src_w * 2 ^ 20)
        (src_h * 2 ^ 20) dst dst_w dst_h memory (nearest-Reads src src_w src_h) (omega arith)
        (omega arith) (λ i k. steps_below (src_w * 2 ^ 20) dst_w i (omega arith) k)
        (λ j k. steps_below (src_h * 2 ^ 20) dst_h j (omega arith) k) apart)
