-- ===== src/Base/Bits.antt =====
-- `x & mask` for a mask of low ones, at every width, and C's 32-bit counters.
use Prim.Native.Nat.{
  ℕ, zero, suc, ◌+◌, ◌-◌, ◌*◌, ◌/◌, ◌%◌, ◌^◌, ◌≤◌, ◌<◌, ◌∣◌, min, bit_and, digits, bit_and-bitwise,
}
use mathlib.Core.Path.{◌≡◌, refl, ap, ◌∙◌, sym, subst}
use native.Mathlib.Omega.{arith}
use native.Mathlib.Nat.{
  pow-suc, mod-add-div, mod-lt, mul-add-mod_self_left, mod-eq_of_lt, mod-mod_of_dvd, mul_comm,
  dvd_refl, dvd-mul_right_of_dvd,
}

pub pow_pos : (k : ℕ) → 0 < 2 ^ k
pow_pos zero = omega arith
pow_pos (suc k) = omega (arith, pow-suc 2 k, pow_pos k)

-- The lowest digit of a remainder by an even number.
mod_double : (x p : ℕ) → 0 < p → x % (2 * p) ≡ x / 2 % p * 2 + x % 2
mod_double x p h =
    let r : ℕ = x / 2 % p * 2 + x % 2 in
    let split : x ≡ 2 * p * (x / 2 / p) + r =
      omega (arith, ap (λ t. 2 * t) (mod-add-div (x / 2) p)) in
    let small : r < 2 * p = omega (arith, mod-lt (x / 2) h) in
    ap (λ t. t % (2 * p)) split ∙ mul-add-mod_self_left (2 * p) (x / 2 / p) r ∙ mod-eq_of_lt small

-- The digits of a mask of `k` ones cut a number down to its `k` lowest digits.
mask_digits : (fuel k x : ℕ) → x ≤ fuel → digits (λ b. zero) min fuel x (2 ^ k - 1) ≡ x % 2 ^ k
mask_digits zero k zero h = sym (mod-eq_of_lt (pow_pos k))
mask_digits (suc fuel) k zero h = sym (mod-eq_of_lt (pow_pos k))
mask_digits zero k (suc x) h = absurd (omega arith)
mask_digits (suc fuel) zero (suc x) h =
    omega (arith, mask_digits fuel zero (suc x / 2) (omega arith))
mask_digits (suc fuel) (suc k) (suc x) h =
    let double : 2 ^ suc k ≡ 2 * 2 ^ k = pow-suc 2 k ∙ mul_comm (2 ^ k) 2 in
    let half : (2 ^ suc k - 1) / 2 ≡ 2 ^ k - 1 = omega (arith, double, pow_pos k) in
    omega (
      arith,
      ap (digits (λ b. zero) min fuel (suc x / 2)) half,
      mask_digits fuel k (suc x / 2) (omega arith),
      mod_double (suc x) (2 ^ k) (pow_pos k),
      ap (λ t. suc x % t) double,
      double,
      pow_pos k,
    )

-- `x & ((1 << k) - 1)` is the remainder by `1 << k`.
pub bit_and_mask : (k x : ℕ) → bit_and x (2 ^ k - 1) ≡ x % 2 ^ k
bit_and_mask k x = bit_and-bitwise x (2 ^ k - 1) ∙ mask_digits x k x (omega arith)

pow_dvd : (d k n : ℕ) → d + k ≡ n → 2 ^ k ∣ 2 ^ n
pow_dvd zero k n e = subst (λ m. 2 ^ k ∣ 2 ^ m) (let e' : k ≡ n = omega arith in e') (dvd_refl _)
pow_dvd (suc d) k n e =
    let n' : suc (d + k) ≡ n = omega arith in
    subst (λ m. 2 ^ k ∣ 2 ^ m) n'
      (subst (λ t. 2 ^ k ∣ t) (sym (pow-suc 2 (d + k)))
        (dvd-mul_right_of_dvd _ (pow_dvd d k (d + k) refl) 2))

-- A 32-bit counter reduced to fewer bits forgets the wrap.
pub mod_u32-mod : (k x : ℕ) → k ≤ 32 → x % 2 ^ 32 % 2 ^ k ≡ x % 2 ^ k
mod_u32-mod k x h = mod-mod_of_dvd (2 ^ k) x (pow_dvd (32 - k) k 32 (omega arith))
