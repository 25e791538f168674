-- ===== src/Base/Int.antt =====
-- Signed integers over the native numbers, with the sums, products, shifts and tests that C has on them.
use pdp.Base.Tests.{ltb, leb, if◌then◌else◌}
use pdp.Base.Bits.{pow_pos}
use Prim.Native.Nat.{ℕ, suc, ◌+◌, ◌-◌, ◌*◌, ◌/◌, ◌%◌, ◌^◌, ◌≤◌, ◌<◌}
use mathlib.Core.Path.{◌≡◌, refl}
use mathlib.Core.Bool.{Bool}
use native.Mathlib.Omega.{arith}
use native.Mathlib.Nat.{pow-suc, mod-eq_of_lt, div-le_of_le-mul, div-lt_iff_lt-mul, mul_comm}

-- `negsuc n` is -(n + 1).
pub data ℤ : Type 0 where
  pos : ℕ → ℤ
  negsuc : ℕ → ℤ

abbrev pub pos_part : ℤ → ℕ
pos_part (pos n) = n
pos_part (negsuc n) = 0

abbrev pub neg_part : ℤ → ℕ
neg_part (pos n) = 0
neg_part (negsuc n) = suc n

-- a - b, as an integer.
abbrev pub sub_ℕ : ℕ → ℕ → ℤ
sub_ℕ a b = if leb b a then pos (a - b) else negsuc (b - a - 1)

infixl 65 ◌+ℤ◌ ◌-ℤ◌
infixl 70 ◌*ℤ◌
infix 50 ◌≤ℤ◌
unfoldable pub ◌+ℤ◌ : ℤ → ℤ → ℤ
a +ℤ b = sub_ℕ (pos_part a + pos_part b) (neg_part a + neg_part b)

unfoldable pub ◌-ℤ◌ : ℤ → ℤ → ℤ
a -ℤ b = sub_ℕ (pos_part a + neg_part b) (neg_part a + pos_part b)

unfoldable pub ◌*ℤ◌ : ℤ → ℤ → ℤ
a *ℤ b =
    sub_ℕ (pos_part a * pos_part b + neg_part a * neg_part b)
      (pos_part a * neg_part b + neg_part a * pos_part b)

-- `a >> n`, which rounds down.
unfoldable pub shift_right : ℤ → ℕ → ℤ
shift_right (pos a) n = pos (a / 2 ^ n)
shift_right (negsuc a) n = negsuc (a / 2 ^ n)

abbrev pub ◌≤ℤ◌ : ℤ → ℤ → Type 0
a ≤ℤ b = pos_part a + neg_part b ≤ pos_part b + neg_part a

abbrev pub ltb_ℤ : ℤ → ℤ → Bool
ltb_ℤ a b = ltb (pos_part a + neg_part b) (pos_part b + neg_part a)

-- The word of `bits` bits with the sign bit that holds the same bits.
abbrev pub signed : ℕ → ℕ → ℤ
signed bits w = if ltb w (2 ^ (bits - 1)) then pos w else negsuc (2 ^ bits - 1 - w)

-- What is left of an integer in a signed word of `bits` bits.
unfoldable pub wrap : ℕ → ℤ → ℤ
wrap bits (pos n) = signed bits (n % 2 ^ bits)
wrap bits (negsuc n) = signed bits (2 ^ bits - 1 - n % 2 ^ bits)

-- How far an integer is from 0.
abbrev pub abs : ℤ → ℕ
abs z = pos_part z + neg_part z

pub abs-+ℤ : (a b : ℤ) → abs (a +ℤ b) ≤ abs a + abs b
unfolding ◌+ℤ◌
abs-+ℤ a b = ground arith

pub abs-*ℤ : (a b : ℤ) → abs (a *ℤ b) ≡ abs a * abs b
unfolding ◌*ℤ◌
abs-*ℤ a b = ground arith

pub +ℤ_comm : (a b : ℤ) → a +ℤ b ≡ b +ℤ a
unfolding ◌+ℤ◌
+ℤ_comm a b = ground arith

-- A number that fits is kept.
pub wrap-fits : (k : ℕ) (z : ℤ) → abs z < 2 ^ k → wrap (suc k) z ≡ z
unfolding wrap
wrap-fits k (pos n) h =
    let fits : n < 2 ^ suc k = omega (arith, pow-suc 2 k) in rw (mod-eq_of_lt fits) (ground arith)
wrap-fits k (negsuc n) h =
    let fits : n < 2 ^ suc k = omega (arith, pow-suc 2 k) in
    rw (mod-eq_of_lt fits) (ground (arith, pow-suc 2 k))

-- A shift to the right brings an integer closer to 0, or leaves it at -1.
pub abs-shift_right : (z : ℤ) (n m : ℕ) → abs z ≤ 2 ^ n * m → abs (shift_right z n) ≤ m
unfolding shift_right
abs-shift_right (pos a) n m h =
    let q : a / 2 ^ n ≤ m = div-le_of_le-mul (2 ^ n) (omega arith) in omega (arith, q)
abs-shift_right (negsuc a) n m h =
    let q : a / 2 ^ n < m = (div-lt_iff_lt-mul (pow_pos n)).1 (omega (arith, mul_comm m (2 ^ n))) in
    omega (arith, q)

-- Sums, differences and products of numbers.
pub add_pos : (a b : ℕ) → pos a +ℤ pos b ≡ pos (a + b)
unfolding ◌+ℤ◌
add_pos a b = ground arith

pub sub_pos : (a b : ℕ) → b ≤ a → pos a -ℤ pos b ≡ pos (a - b)
unfolding ◌-ℤ◌
sub_pos a b h = ground arith

pub mul_pos : (a b : ℕ) → pos a *ℤ pos b ≡ pos (a * b)
unfolding ◌*ℤ◌
mul_pos a b = ground arith

pub shift_right_pos : (a n : ℕ) → shift_right (pos a) n ≡ pos (a / 2 ^ n)
unfolding shift_right
shift_right_pos a n = refl
