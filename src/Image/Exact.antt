-- ===== src/Image/Exact.antt =====
-- The kernels compute in 32 bits what they mean to compute: no sum or product of pixels leaves the words.
use pdp.Base.{ℕ, ◌+◌, ◌*◌, ◌^◌, ◌≤◌, ◌<◌, ◌≡◌, arith, ℤ, ◌+ℤ◌, ◌*ℤ◌, abs, abs-+ℤ, abs-*ℤ, wrap-fits}
use native.Mathlib.Nat.{mul-le-mul}
use pdp.Image.{clamp16, add32, mul32, to_pixel}
use pdp.Image.Filters.{Convolver, weigh}

-- A pixel is no further than 32768 from 0, what `CLAMP16` leaves no further than 32767.
abbrev pub IsPixel : ℤ → Type 0
IsPixel z = abs z ≤ 32768

abbrev pub IsClamped : ℤ → Type 0
IsClamped z = abs z ≤ 32767

pub clamp16-IsClamped : (z : ℤ) → IsClamped (clamp16 z)
unfolding clamp16
clamp16-IsClamped z = ground arith

pub clamp16_keeps : (z : ℤ) → IsClamped z → clamp16 z ≡ z
unfolding clamp16
clamp16_keeps z h = ground arith

pub to_pixel-exact : (z : ℤ) → to_pixel z ≡ clamp16 z
to_pixel-exact z = wrap-fits 15 (clamp16 z) (omega (arith, clamp16-IsClamped z))

pub add32-exact : (a b : ℤ) → abs a + abs b < 2 ^ 31 → add32 a b ≡ a +ℤ b
add32-exact a b h = wrap-fits 31 (a +ℤ b) (omega (arith, abs-+ℤ a b))

pub mul32-exact : (a b : ℤ) (m n : ℕ) → abs a ≤ m → abs b ≤ n → m * n < 2 ^ 31 → mul32 a b ≡ a *ℤ b
mul32-exact a b m n h k fits = wrap-fits 31 (a *ℤ b) (omega (arith, abs-*ℤ a b, mul-le-mul h k))

-- Two products that stay in the words, and their sum.
pub dot32-exact :
    (a b c d : ℤ) (m n : ℕ)
    → abs a ≤ m
    → abs b ≤ n
    → abs c ≤ m
    → abs d ≤ n
    → m * n + m * n < 2 ^ 31
    → add32 (mul32 a b) (mul32 c d) ≡ (a *ℤ b) +ℤ (c *ℤ d)
dot32-exact a b c d m n h k h' k' fits =
    rw (mul32-exact a b m n h k (omega arith), mul32-exact c d m n h' k' (omega arith))
      (add32-exact (a *ℤ b) (c *ℤ d)
        (omega (arith, abs-*ℤ a b, abs-*ℤ c d, mul-le-mul h k, mul-le-mul h' k')))

abs-*ℤ_scaled : (a g : ℤ) → IsClamped a → abs (a *ℤ g) ≤ 32767 * abs g
abs-*ℤ_scaled a g h =
    let same : abs g ≤ abs g = omega arith in omega (arith, abs-*ℤ a g, mul-le-mul h same)

-- The weighted sum of three pixels other than -32768 is the exact one, in integers, if the amounts of the
-- weights add up to less than 65536: no product and no sum leaves the words of 32 bits.
pub weigh-exact :
    (d : Convolver) (a b c : ℤ)
    → abs d.min1 + abs d.zero_gain + abs d.plus1 < 2 ^ 16
    → IsClamped a
    → IsClamped b
    → IsClamped c
    → weigh d a b c ≡ a *ℤ d.min1 +ℤ b *ℤ d.zero_gain +ℤ c *ℤ d.plus1
weigh-exact d a b c g ha hb hc =
    let sa = abs-*ℤ_scaled a d.min1 ha in
    let sb = abs-*ℤ_scaled b d.zero_gain hb in
    let sc = abs-*ℤ_scaled c d.plus1 hc in
    let first : add32 (mul32 a d.min1) (mul32 b d.zero_gain) ≡ a *ℤ d.min1 +ℤ b *ℤ d.zero_gain =
      rw
        (
          wrap-fits 31 (a *ℤ d.min1) (omega (arith, sa)),
          wrap-fits 31 (b *ℤ d.zero_gain) (omega (arith, sb)),
        )
        (add32-exact (a *ℤ d.min1) (b *ℤ d.zero_gain) (omega (arith, sa, sb))) in
    rw (first, wrap-fits 31 (c *ℤ d.plus1) (omega (arith, sc)))
      (add32-exact (a *ℤ d.min1 +ℤ b *ℤ d.zero_gain) (c *ℤ d.plus1)
        (omega (arith, sa, sb, sc, abs-+ℤ (a *ℤ d.min1) (b *ℤ d.zero_gain))))
