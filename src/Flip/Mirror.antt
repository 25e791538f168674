-- ===== src/Flip/Mirror.antt =====
-- A row that is flipped is the row from the other end.
use pdp.Base.{
  ℕ, zero, suc, ◌+◌, ◌-◌, ◌*◌, ◌≤◌, ◌<◌, ◌≡◌, ◌⊎◌, refl, ap, ◌∙◌, arith, inl, inr, ltb, Bool-cases,
  ltb→lt,
}
use pdp.Image.{Memory, store}
use pdp.Image.Pixels.{IsOutside, store-same, store-other}
use pdp.Flip.{flip_row, flip_rows, flip_lr_process}

abbrev swapped : Memory → ℕ → ℕ → Memory
swapped memory l r = store (store memory l (memory r)) r (memory l)

flip_row-off :
    (n l r : ℕ) (memory : Memory) (q : ℕ) → (q < l) ⊎ (r < q) → flip_row n l r memory q ≡ memory q
unfolding flip_row
flip_row-off zero l r memory q h = refl
flip_row-off (suc n) l r memory q h = elim (Bool-cases (ltb l r)) [
  | inl e ↦
      let below = ltb→lt l r e in
      rw (e, flip_row)
        (flip_row-off n (l + 1) (r - 1) (swapped memory l r) q (omega (arith, below))
          ∙ store-other (store memory l (memory r)) r q _ (λ e. omega (arith, below))
          ∙ store-other memory l q _ (λ e. omega (arith, below)))
  | inr e ↦ rw (e, flip_row) refl
]

flip_row-in :
    (n l r : ℕ) (memory : Memory) (q : ℕ)
    → r ≤ l + n
    → l ≤ q
    → q ≤ r
    → flip_row n l r memory q ≡ memory (l + r - q)
unfolding flip_row
flip_row-in zero l r memory q wide low high = ap memory (omega arith)
flip_row-in (suc n) l r memory q wide low high = elim (Bool-cases (ltb l r)) [
  | inl e ↦
      let below = ltb→lt l r e in
      let place : (q ≡ l) ⊎ ((q ≡ r) ⊎ ((l + 1 ≤ q) × (q ≤ r - 1))) = omega arith in
      rw (e, flip_row)
        (elim place [
          | inl here ↦ rw here (
              flip_row-off n (l + 1) (r - 1) (swapped memory l r) l (omega arith)
              ∙ store-other (store memory l (memory r)) r l _ (λ e. omega (arith, below))
              ∙ store-same memory l _
              ∙ ap memory (omega arith))
          | inr (inl here) ↦ rw here (
              flip_row-off n (l + 1) (r - 1) (swapped memory l r) r (omega (arith, below))
              ∙ store-same (store memory l (memory r)) r _
              ∙ ap memory (omega arith))
          | inr (inr inside) ↦
              flip_row-in n (l + 1) (r - 1) (swapped memory l r) q (omega arith) inside.0 inside.1
              ∙ store-other (store memory l (memory r)) r (l + 1 + (r - 1) - q) _
                  (λ e. omega (arith, inside, below))
              ∙ store-other memory l (l + 1 + (r - 1) - q) _ (λ e. omega (arith, inside, below))
              ∙ ap memory (omega (arith, below))
        ])
  | inr e ↦ let done : r ≤ l = ground arith in rw (e, flip_row) (ap memory (omega (arith, done)))
]

flip_rows-off :
    (width n image : ℕ) (memory : Memory) (q : ℕ)
    → 0 < width
    → (q < image) ⊎ (image + n * width ≤ q)
    → flip_rows width n image memory q ≡ memory q
unfolding flip_rows
flip_rows-off width zero image memory q w h = refl
flip_rows-off width (suc n) image memory q w h =
    let one : suc n * width ≡ width + n * width = grind arith in
    flip_rows-off width n (image + width) _ q w (omega (arith, one))
    ∙ flip_row-off width image (image + width - 1) memory q (omega (arith, one))

flip_rows-at :
    (width n image : ℕ) (memory : Memory) (x y : ℕ)
    → x < width
    → y < n
    → flip_rows width n image memory (image + y * width + x)
      ≡ memory (image + y * width + (width - 1 - x))
unfolding flip_rows
flip_rows-at width zero image memory x y h k = absurd (omega arith)
flip_rows-at width (suc n) image memory x zero h k =
    let here : image + 0 * width + x ≡ image + x = omega arith in
    flip_rows-off width n (image + width) _ (image + 0 * width + x) (omega arith)
      (inl (omega arith))
    ∙ rw here (
        flip_row-in width image (image + width - 1) memory (image + x) (omega arith) (omega arith)
          (omega arith)
        ∙ ap memory (omega arith))
flip_rows-at width (suc n) image memory x (suc y) h k =
    let down : (t : ℕ) → image + suc y * width + t ≡ image + width + y * width + t =
      λ t. grind arith in
    rw (down x, down (width - 1 - x))
      (flip_rows-at width n (image + width) _ x y h (omega arith)
        ∙ flip_row-off width image (image + width - 1) memory
            (image + width + y * width + (width - 1 - x)) (inr (omega arith)))

-- A flipped image: each row is read from its other end, and other memory is kept.
abbrev pub Mirrored : ℕ → ℕ → ℕ → Memory → Memory → Type 0
Mirrored width height image before after =
    ((x y : ℕ)
      → x < width
      → y < height
      → after (image + y * width + x) ≡ before (image + y * width + (width - 1 - x)))
    × ((q : ℕ) → IsOutside image (height * width) q → after q ≡ before q)

-- `pdp_imageproc_flip_lr_process` swaps the pixels of each row in place until its two pointers meet: the
-- pixel in a column is then the one from the same column at the other side, and the memory off the
-- image is kept. The image has at least one column.
pub flip_lr_process-Mirrored :
    (width height image : ℕ) (memory : Memory)
    → 0 < width
    → Mirrored width height image memory (flip_lr_process width height image memory)
unfolding flip_lr_process
flip_lr_process-Mirrored width height image memory w = (
  λ x y h k. flip_rows-at width height image memory x y h k,
  λ q h. flip_rows-off width height image memory q w h,
)

-- Flipped twice, each pixel is back in its place.
pub flip_lr_process_twice :
    (width height image : ℕ) (memory : Memory) (x y : ℕ)
    → x < width
    → y < height
    → flip_lr_process width height image
        (flip_lr_process width height image memory)
        (image + y * width + x)
      ≡ memory (image + y * width + x)
flip_lr_process_twice width height image memory x y h k =
    let w : 0 < width = omega arith in
    let back : width - 1 - (width - 1 - x) ≡ x = omega arith in
    (flip_lr_process-Mirrored width height image (flip_lr_process width height image memory) w).0 x
      y h k
    ∙ (flip_lr_process-Mirrored width height image memory w).0 (width - 1 - x) y (omega arith) k
    ∙ ap (λ t. memory (image + y * width + t)) back
