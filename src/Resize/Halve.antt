-- ===== src/Resize/Halve.antt =====
-- A doubled image is halved to the image that it was.
use pdp.Base.{
  ℕ, zero, suc, ◌+◌, ◌*◌, ◌/◌, ◌≤◌, ◌<◌, ◌≡◌, ◌⊎◌, refl, ◌∙◌, arith, inl, inr, ℤ, ◌+ℤ◌, wrap-fits,
  shift_right, abs-+ℤ,
}
use pdp.Image.{Memory}
use pdp.Image.Exact.{IsClamped, add32-exact}
use pdp.Image.Pixels.{store-same, store-other}
use pdp.Resize.{mean_of_block, halve_row, halve_rows, halve, double, double_rows}
use pdp.Resize.Double.{IsInBlock, double_rows-at}

-- The means are taken in a memory that the writes leave alone from `low` up to `high`.
abbrev pub Kept : ℕ → ℕ → Memory → Memory → Type 0
Kept low high memory origin = (q : ℕ) → low ≤ q → q < high → memory q ≡ origin q

mean-Kept :
    (low high src step : ℕ) (memory origin : Memory)
    → Kept low high memory origin
    → low ≤ src
    → src + step + 2 ≤ high
    → mean_of_block memory src step ≡ mean_of_block origin src step
mean-Kept low high src step memory origin kept l h =
    rw
      (
        kept src l (omega arith),
        kept (src + 1) (omega arith) (omega arith),
        kept (src + step) (omega arith) (omega arith),
        kept (src + step + 1) (omega arith) (omega arith),
      )
      refl

halve_row-off :
    (step src dst n : ℕ) (memory : Memory) (q : ℕ)
    → (q < dst) ⊎ (dst + n ≤ q)
    → halve_row step src dst n memory q ≡ memory q
unfolding halve_row
halve_row-off step src dst zero memory q h = refl
halve_row-off step src dst (suc n) memory q h =
    halve_row-off step (src + 2) (dst + 1) n _ q (omega arith)
    ∙ store-other memory dst q _ (λ e. omega arith)

halve_row-at :
    (low high step src dst n : ℕ) (memory origin : Memory) (i : ℕ)
    → (high ≤ dst) ⊎ (dst + n ≤ low)
    → Kept low high memory origin
    → low ≤ src
    → src + step + 2 * n ≤ high
    → i < n
    → halve_row step src dst n memory (dst + i) ≡ mean_of_block origin (src + 2 * i) step
unfolding halve_row
halve_row-at low high step src dst zero memory origin i apart kept l h k = absurd (omega arith)
halve_row-at low high step src dst (suc n) memory origin zero apart kept l h k =
    let here : dst + 0 ≡ dst = omega arith in
    let from : src + 2 * 0 ≡ src = omega arith in
    rw (here, from)
      (halve_row-off step (src + 2) (dst + 1) n _ dst (omega arith)
        ∙ store-same memory dst _
        ∙ mean-Kept low high src step memory origin kept l (omega arith))
halve_row-at low high step src dst (suc n) memory origin (suc i) apart kept l h k =
    let here : dst + suc i ≡ dst + 1 + i = omega arith in
    let from : src + 2 * suc i ≡ src + 2 + 2 * i = omega arith in
    rw (here, from)
      (halve_row-at low high step (src + 2) (dst + 1) n _ origin i (omega arith)
        (λ q a b. store-other memory dst q _ (λ e. omega arith) ∙ kept q a b) (omega arith)
        (omega arith) (omega arith))

pub halve_rows-off :
    (width src dst n : ℕ) (memory : Memory) (q : ℕ)
    → (q < dst) ⊎ (dst + n * (width / 2) ≤ q)
    → halve_rows width src dst n memory q ≡ memory q
unfolding halve_rows
halve_rows-off width src dst zero memory q h = refl
halve_rows-off width src dst (suc n) memory q h =
    let one : suc n * (width / 2) ≡ width / 2 + n * (width / 2) = grind arith in
    halve_rows-off width (src + 2 * width) (dst + width / 2) n _ q (omega (arith, one))
    ∙ halve_row-off width src dst (width / 2) memory q (omega (arith, one))

pub halve_rows-at :
    (low high half src dst n : ℕ) (memory origin : Memory) (i j : ℕ)
    → (high ≤ dst) ⊎ (dst + n * half ≤ low)
    → Kept low high memory origin
    → low ≤ src
    → src + 4 * (n * half) ≤ high
    → i < half
    → j < n
    → halve_rows (2 * half) src dst n memory (dst + j * half + i)
      ≡ mean_of_block origin (src + 4 * (j * half) + 2 * i) (2 * half)
unfolding halve_rows
halve_rows-at low high half src dst zero memory origin i j apart kept l h k g = absurd (omega arith)
halve_rows-at low high half src dst (suc n) memory origin i zero apart kept l h k g =
    let one : suc n * half ≡ half + n * half = grind arith in
    let middle : 2 * half / 2 ≡ half = omega arith in
    let here : dst + 0 * half + i ≡ dst + i = omega arith in
    let from : src + 4 * (0 * half) + 2 * i ≡ src + 2 * i = omega arith in
    rw (here, from, middle)
      (halve_rows-off (2 * half) (src + 2 * (2 * half)) (dst + half) n _ (dst + i)
          (inl (omega arith))
        ∙ halve_row-at low high (2 * half) src dst half memory origin i (omega (arith, one)) kept l
            (omega (arith, one)) k)
halve_rows-at low high half src dst (suc n) memory origin i (suc j) apart kept l h k g =
    let one : suc n * half ≡ half + n * half = grind arith in
    let row : suc j * half ≡ half + j * half = grind arith in
    let middle : 2 * half / 2 ≡ half = omega arith in
    let here : dst + suc j * half + i ≡ dst + half + j * half + i = omega (arith, row) in
    let from : src + 4 * (suc j * half) + 2 * i ≡ src + 2 * (2 * half) + 4 * (j * half) + 2 * i =
      omega (arith, row) in
    rw (here, from, middle)
      (halve_rows-at low high half (src + 2 * (2 * half)) (dst + half) n _ origin i j
        (omega (arith, one))
        (λ q a b. halve_row-off (2 * half) src dst half memory q (omega (arith, one)) ∙ kept q a b)
        (omega arith) (omega (arith, one)) k (omega arith))

quarter : (v : ℤ) → shift_right ((v +ℤ v) +ℤ (v +ℤ v)) 2 ≡ v
unfolding shift_right ◌+ℤ◌
quarter v = ground arith

-- The mean of four equal pixels.
pub mean_of_equal :
    (memory : Memory) (p step : ℕ) (v : ℤ)
    → IsClamped v
    → ((q : ℕ) → IsInBlock p step q → memory q ≡ v)
    → mean_of_block memory p step ≡ v
mean_of_equal memory p step v h all =
    rw
      (
        all p (inl refl),
        all (p + 1) (inr (inl refl)),
        all (p + step) (inr (inr (inl refl))),
        all (p + step + 1) (inr (inr (inr refl))),
        add32-exact v v (omega arith),
        add32-exact (v +ℤ v) (v +ℤ v) (omega (arith, abs-+ℤ v v)),
        quarter v,
      )
      (wrap-fits 15 v (omega arith))

-- A block of equal pixels, halved in a memory that has kept the blocks of `origin`.
pub halve_rows-block :
    (half src dst n : ℕ) (memory origin : Memory) (i j : ℕ) (v : ℤ)
    → (src + 4 * (n * half) ≤ dst) ⊎ (dst + n * half ≤ src)
    → Kept src (src + 4 * (n * half)) memory origin
    → i < half
    → j < n
    → IsClamped v
    → ((q : ℕ) → IsInBlock (src + 4 * (j * half) + 2 * i) (2 * half) q → origin q ≡ v)
    → halve_rows (2 * half) src dst n memory (dst + j * half + i) ≡ v
halve_rows-block half src dst n memory origin i j v apart kept h k small all =
    halve_rows-at src (src + 4 * (n * half)) half src dst n memory origin i j apart kept
      (omega arith) (omega arith) h k
    ∙ mean_of_equal origin (src + 4 * (j * half) + 2 * i) (2 * half) v small all

-- An image that is doubled and then halved is the image that it was. The doubled image shares no pixel
-- with the image nor with the result, and the image holds no pixel -32768.
pub halve-double :
    (src big out width height : ℕ) (memory : Memory) (i j : ℕ)
    → ((a : ℕ) → IsClamped (memory a))
    → (src + height * width ≤ big) ⊎ (big + 4 * (height * width) ≤ src)
    → (big + 4 * (height * width) ≤ out) ⊎ (out + height * width ≤ big)
    → i < width
    → j < height
    → halve big out
        (2 * width)
        (2 * height)
        (double src big width height memory)
        (out + j * width + i)
      ≡ memory (src + (j * width + i))
unfolding halve double
halve-double src big out width height memory i j all from to h k =
    let doubled = double_rows width src big height memory in
    let rows : 2 * height / 2 ≡ height = omega arith in
    rw rows (
      halve_rows-block width big out height doubled doubled i j (memory (src + (j * width + i))) to
        (λ q a b. refl) h k (all (src + (j * width + i)))
        (λ q b.
          double_rows-at width src big height memory (λ n. memory (src + n)) i j q from
            (λ n f. refl) h k b))
