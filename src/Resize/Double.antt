-- ===== src/Resize/Double.antt =====
-- Where the pixels of a doubled image come from.
use pdp.Base.{ℕ, zero, suc, ◌+◌, ◌*◌, ◌≤◌, ◌<◌, ◌≡◌, ◌⊎◌, refl, ap, ◌∙◌, sym, arith, ℤ}
use pdp.Image.{Memory}
use pdp.Resize.{store_block, double_row, double_rows}

-- `q` is one of the four pixels of the block at `p`.
abbrev pub IsInBlock : ℕ → ℕ → ℕ → Type 0
IsInBlock p step q = (q ≡ p) ⊎ ((q ≡ p + 1) ⊎ ((q ≡ p + step) ⊎ (q ≡ p + step + 1)))

-- The pixels from `src` on are those of a line, and none of them is written.
abbrev pub HoldsLine : Memory → ℕ → ℕ → (ℕ → ℤ) → Type 0
HoldsLine memory src n line = (k : ℕ) → k < n → memory (src + k) ≡ line k

store_block-off :
    (memory : Memory) (p step : ℕ) (v : ℤ) (q : ℕ)
    → (q < p) ⊎ ((p + 1 < q) × (q < p + step) ⊎ (p + step + 1 < q))
    → store_block memory p step v q ≡ memory q
store_block-off memory p step v q h = ground arith

store_block-in :
    (memory : Memory) (p step : ℕ) (v : ℤ) (q : ℕ)
    → IsInBlock p step q
    → store_block memory p step v q ≡ v
store_block-in memory p step v q h = ground arith

double_row-off :
    (step src dst n : ℕ) (memory : Memory) (q : ℕ)
    → 2 * n ≤ step
    → (q < dst) ⊎ ((dst + 2 * n ≤ q) × (q < dst + step) ⊎ (dst + step + 2 * n ≤ q))
    → double_row step src dst n memory q ≡ memory q
unfolding double_row
double_row-off step src dst zero memory q s h = refl
double_row-off step src dst (suc n) memory q s h =
    double_row-off step (src + 1) (dst + 2) n _ q (omega arith) (omega arith)
    ∙ store_block-off memory dst step _ q (omega arith)

double_row-at :
    (step src dst n : ℕ) (memory : Memory) (line : ℕ → ℤ) (i q : ℕ)
    → 2 * n ≤ step
    → (src + n ≤ dst) ⊎ (dst + step + 2 * n ≤ src)
    → HoldsLine memory src n line
    → i < n
    → IsInBlock (dst + 2 * i) step q
    → double_row step src dst n memory q ≡ line i
unfolding double_row
double_row-at step src dst zero memory line i q s apart holds h b = absurd (omega arith)
double_row-at step src dst (suc n) memory line zero q s apart holds h b =
    let here : src + 0 ≡ src = omega arith in
    double_row-off step (src + 1) (dst + 2) n _ q (omega arith) (omega arith)
    ∙ store_block-in memory dst step _ q (omega arith)
    ∙ ap memory (sym here)
    ∙ holds 0 (omega arith)
double_row-at step src dst (suc n) memory line (suc i) q s apart holds h b =
    double_row-at step (src + 1) (dst + 2) n _ (λ k. line (suc k)) i q (omega arith) (omega arith)
      (λ k g.
        let next : src + 1 + k ≡ src + suc k = omega arith in
        store_block-off memory dst step _ (src + 1 + k) (omega arith)
        ∙ ap memory next
        ∙ holds (suc k) (omega arith))
      (omega arith) (omega arith)

pub double_rows-off :
    (width src dst n : ℕ) (memory : Memory) (q : ℕ)
    → (q < dst) ⊎ (dst + 4 * (n * width) ≤ q)
    → double_rows width src dst n memory q ≡ memory q
unfolding double_rows
double_rows-off width src dst zero memory q h = refl
double_rows-off width src dst (suc n) memory q h =
    let one : suc n * width ≡ width + n * width = grind arith in
    double_rows-off width (src + width) (dst + 4 * width) n _ q (omega (arith, one))
    ∙ double_row-off (2 * width) src dst width memory q (omega arith) (omega (arith, one))

pub double_rows-at :
    (width src dst n : ℕ) (memory : Memory) (line : ℕ → ℤ) (i j q : ℕ)
    → (src + n * width ≤ dst) ⊎ (dst + 4 * (n * width) ≤ src)
    → HoldsLine memory src (n * width) line
    → i < width
    → j < n
    → IsInBlock (dst + 4 * (j * width) + 2 * i) (2 * width) q
    → double_rows width src dst n memory q ≡ line (j * width + i)
unfolding double_rows
double_rows-at width src dst zero memory line i j q apart holds h g b = absurd (omega arith)
double_rows-at width src dst (suc n) memory line i zero q apart holds h g b =
    let one : suc n * width ≡ width + n * width = grind arith in
    let here : i ≡ 0 * width + i = omega arith in
    double_rows-off width (src + width) (dst + 4 * width) n _ q (omega arith)
    ∙ double_row-at (2 * width) src dst width memory line i q (omega arith) (omega (arith, one))
        (λ k f. holds k (omega (arith, one))) h (omega arith)
    ∙ ap line here
double_rows-at width src dst (suc n) memory line i (suc j) q apart holds h g b =
    let one : suc n * width ≡ width + n * width = grind arith in
    let row : suc j * width ≡ width + j * width = grind arith in
    let here : width + (j * width + i) ≡ suc j * width + i = omega (arith, row) in
    double_rows-at width (src + width) (dst + 4 * width) n _ (λ k. line (width + k)) i j q
      (omega (arith, one))
      (λ k f.
        let next : src + width + k ≡ src + (width + k) = omega arith in
        double_row-off (2 * width) src dst width memory (src + width + k) (omega arith)
          (omega (arith, one))
        ∙ ap memory next
        ∙ holds (width + k) (omega (arith, one)))
      h (omega arith) (omega (arith, row))
    ∙ ap line here
