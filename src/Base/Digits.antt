-- ===== src/Base/Digits.antt =====
-- Operations on binary digits act on the halves of a word separately.
use Prim.Native.Nat.{
  ℕ, zero, suc, ◌+◌, ◌-◌, ◌*◌, ◌/◌, ◌%◌, ◌^◌, ◌≤◌, ◌<◌, min, max, digits, bitwise, differ, bit_and,
  bit_xor, bit_and-bitwise, bit_xor-bitwise,
}
use pdp.Base.Bits.{pow_pos}
use mathlib.Core.Path.{◌≡◌, refl, ap, ◌∙◌, sym}
use native.Mathlib.Omega.{arith}
use native.Mathlib.Nat.{pow-suc}

module _ (rest : ℕ → ℕ) (digit : ℕ → ℕ → ℕ)
    (law : (b : ℕ) → rest b ≡ rest (b / 2) * 2 + digit 0 (b % 2)) (start : rest 0 ≡ 0) where
  -- Enough digits are all digits.
  settled : (bound n a b : ℕ) → n ≤ bound → a ≤ n → digits rest digit n a b ≡ bitwise rest digit a b
  settled bound zero zero b low enough = refl
  settled bound (suc n) zero b low enough = refl
  settled bound zero (suc a) b low enough = absurd (omega arith)
  settled zero (suc n) (suc a) b low enough = absurd (omega arith)
  settled (suc bound) (suc n) (suc a) b low enough =
      let shorter = settled bound n (suc a / 2) (b / 2) (omega arith) (omega arith) in
      let exact = settled bound a (suc a / 2) (b / 2) (omega arith) (omega arith) in
      ap (λ high. high * 2 + digit (suc a % 2) (b % 2)) (shorter ∙ sym exact)

  -- The lowest digit, and the others.
  bitwise_step :
      (a b : ℕ)
      → bitwise rest digit a b ≡ bitwise rest digit (a / 2) (b / 2) * 2 + digit (a % 2) (b % 2)
  bitwise_step zero b = law b
  bitwise_step (suc a) b =
      ap (λ high. high * 2 + digit (suc a % 2) (b % 2))
        (settled a a (suc a / 2) (b / 2) (omega arith) (omega arith))

  -- A function that follows the digits is what the operation makes of a number and 0.
  bitwise_alone :
      (g : ℕ → ℕ)
      → g 0 ≡ 0
      → ((a : ℕ) → g a ≡ g (a / 2) * 2 + digit (a % 2) 0)
      → (bound a : ℕ) → a ≤ bound
      → bitwise rest digit a 0 ≡ g a
  bitwise_alone g g0 follows bound zero small = start ∙ sym g0
  bitwise_alone g g0 follows zero (suc a) small = absurd (omega arith)
  bitwise_alone g g0 follows (suc bound) (suc a) small =
      bitwise_step (suc a) 0
      ∙ ap (λ high. high * 2 + digit (suc a % 2) 0)
          (bitwise_alone g g0 follows bound (suc a / 2) (omega arith))
      ∙ sym (follows (suc a))

  bitwise_halves :
      (k a b c d : ℕ)
      → a < 2 ^ k
      → c < 2 ^ k
      → bitwise rest digit (a + 2 ^ k * b) (c + 2 ^ k * d)
        ≡ bitwise rest digit a c + 2 ^ k * bitwise rest digit b d
  bitwise_halves zero a b c d h g =
      let a0 : a ≡ 0 = omega arith in
      let c0 : c ≡ 0 = omega arith in
      let left : a + 2 ^ 0 * b ≡ b = omega arith in
      let right : c + 2 ^ 0 * d ≡ d = omega arith in rw (left, right, a0, c0) (omega (arith, start))
  bitwise_halves (suc k) a b c d h g =
      let p = 2 ^ k in
      let double = pow-suc 2 k in
      let inner : bitwise rest digit (a / 2 + p * b) (c / 2 + p * d)
          ≡ bitwise rest digit (a / 2) (c / 2) + p * bitwise rest digit b d =
        bitwise_halves k (a / 2) b (c / 2) d (omega (arith, double)) (omega (arith, double)) in
      rw double (
        bitwise_step (a + p * 2 * b) (c + p * 2 * d)
        ∙ rw (half p a b, half p c d, last p a b, last p c d, inner)
            (grind (arith, bitwise_step a c)))
    where
      half : (p x y : ℕ) → (x + p * 2 * y) / 2 ≡ x / 2 + p * y
      half p x y = let e : p * 2 * y ≡ 2 * (p * y) = grind arith in omega (arith, e)

      last : (p x y : ℕ) → (x + p * 2 * y) % 2 ≡ x % 2
      last p x y = let e : p * 2 * y ≡ 2 * (p * y) = grind arith in omega (arith, e)

differ_law : (b : ℕ) → b ≡ b / 2 * 2 + differ 0 (b % 2)
differ_law b = omega arith

max_law : (b : ℕ) → b ≡ b / 2 * 2 + max 0 (b % 2)
max_law b = omega arith

min_law : (b : ℕ) → 0 ≡ 0 * 2 + min 0 (b % 2)
min_law b = omega arith

-- Words cut at bit `k`.
module _ (k a b c d : ℕ) (h : a < 2 ^ k) (g : c < 2 ^ k) where
  pub bit_xor_halves : bit_xor (a + 2 ^ k * b) (c + 2 ^ k * d) ≡ bit_xor a c + 2 ^ k * bit_xor b d
  bit_xor_halves =
      rw (bit_xor-bitwise (a + 2 ^ k * b) (c + 2 ^ k * d), bit_xor-bitwise a c, bit_xor-bitwise b d)
        (bitwise_halves (λ b. b) differ differ_law refl k a b c d h g)

  pub bit_and_halves : bit_and (a + 2 ^ k * b) (c + 2 ^ k * d) ≡ bit_and a c + 2 ^ k * bit_and b d
  bit_and_halves =
      rw (bit_and-bitwise (a + 2 ^ k * b) (c + 2 ^ k * d), bit_and-bitwise a c, bit_and-bitwise b d)
        (bitwise_halves (λ b. zero) min min_law refl k a b c d h g)

bit_xor_step : (a b : ℕ) → bit_xor a b ≡ bit_xor (a / 2) (b / 2) * 2 + differ (a % 2) (b % 2)
bit_xor_step a b =
    rw (bit_xor-bitwise a b, bit_xor-bitwise (a / 2) (b / 2))
      (bitwise_step (λ b. b) differ differ_law refl a b)

-- Two binary digits differ.
differ_digits : (x : ℕ) → x < 2 → (differ x 0 ≡ x) × (differ x 1 ≡ 1 - x)
differ_digits zero h = (refl, refl)
differ_digits (suc zero) h = (refl, refl)
differ_digits (suc (suc x)) h = absurd (omega arith)

pub bit_xor-zero : (a : ℕ) → bit_xor a 0 ≡ a
bit_xor-zero a =
    bit_xor-bitwise a 0
    ∙ bitwise_alone (λ b. b) differ differ_law refl (λ x. x) refl
        (λ x. omega (arith, (differ_digits (x % 2) (omega arith)).0)) a a (omega arith)

pub bit_and-zero : (a : ℕ) → bit_and a 0 ≡ 0
bit_and-zero a =
    bit_and-bitwise a 0
    ∙ bitwise_alone (λ b. zero) min min_law refl (λ x. 0) refl (λ x. omega arith) a a (omega arith)

-- The exclusive or with a mask of ones is the complement.
pub bit_xor_ones : (k a : ℕ) → a < 2 ^ k → bit_xor a (2 ^ k - 1) ≡ 2 ^ k - 1 - a
bit_xor_ones zero a h = let e : a ≡ 0 = omega arith in rw e refl
bit_xor_ones (suc k) a h =
    let double = pow-suc 2 k in
    let ones : (2 ^ suc k - 1) / 2 ≡ 2 ^ k - 1 = omega (arith, double, pow_pos k) in
    let last : (2 ^ suc k - 1) % 2 ≡ 1 = omega (arith, double, pow_pos k) in
    bit_xor_step a (2 ^ suc k - 1)
    ∙ rw (ones, last)
        (omega (
          arith,
          bit_xor_ones k (a / 2) (omega (arith, double)),
          (differ_digits (a % 2) (omega arith)).1,
          double,
          pow_pos k,
        ))
