-- ===== src/Queue/Index.antt =====
-- The arithmetic of the ring's counters: what `& mask` makes of sums and differences.
use Prim.Native.Nat.{bit_and}
use native.Mathlib.Nat.{mod-lt, mod-add-mod, mod-eq_of_lt, mod-eq-sub-mod, pow-suc}
use native.Mathlib.Decide.{dec_lt}
use pdp.Base.{ℕ, zero, suc, ◌↔◌, ◌+◌, ◌-◌, ◌%◌, ◌^◌, ◌≤◌, ◌<◌, ◌≡◌, ◌≢◌, ap, ◌∙◌, sym, arith}
use pdp.Base.Bits.{bit_and_mask, mod_u32-mod, pow_pos}

-- The distance from a counter to one `n` steps ahead.
pub diff-ahead :
    (k a n : ℕ)
    → a < 2 ^ 32
    → n < 2 ^ k
    → k ≤ 32
    → bit_and (((a + n) % 2 ^ 32 + 2 ^ 32 - a) % 2 ^ 32) (2 ^ k - 1) ≡ n
diff-ahead k a n ha hn hk =
    let inner : n % 2 ^ k ≡ n = mod-eq_of_lt hn in
    let same : ((a + n) % 2 ^ 32 + 2 ^ 32 - a) % 2 ^ 32 ≡ n % 2 ^ 32 = omega arith in
    bit_and_mask k _ ∙ ap (λ t. t % 2 ^ k) same ∙ mod_u32-mod k n hk ∙ inner

-- Adding to a reduced counter: at most one turn.
add-mod-cases : (p u j : ℕ) → u < p → j < p → p ≤ u + j → (u + j) % p ≡ u + j - p
add-mod-cases p u j hu hj h =
    mod-eq-sub-mod {n = u + j} {m = p} h ∙ mod-eq_of_lt {n = u + j - p} {m = p} (omega arith)

two_le_pow : (k : ℕ) → 1 ≤ k → 2 ≤ 2 ^ k
two_le_pow zero h = absurd (omega arith)
two_le_pow (suc k) h = omega (arith, pow-suc 2 k, pow_pos k)

-- Two offsets inside one turn do not meet.
pub offsets_differ : (p t j n : ℕ) → j < n → n < p → (t + j) % p ≢ (t + n) % p
offsets_differ p t j n hj hn e =
    let u : ℕ = t % p in
    let hu : u < p = mod-lt t (omega arith) in
    let e' : (u + j) % p ≡ (u + n) % p = mod-add-mod t p j ∙ e ∙ sym (mod-add-mod t p n) in
    elim (dec_lt (u + n) p) [
      | yes small ↦ omega (
        arith,
        mod-eq_of_lt {n = u + j} {m = p} (omega arith),
        mod-eq_of_lt {n = u + n} {m = p} small,
      )
      | no big ↦ elim (dec_lt (u + j) p) [
        | yes small ↦
            omega (
              arith,
              mod-eq_of_lt {n = u + j} {m = p} small,
              add-mod-cases p u n hu hn (omega arith),
            )
        | no big' ↦ omega (
          arith,
          add-mod-cases p u j hu (omega arith) (omega arith),
          add-mod-cases p u n hu hn (omega arith),
        )
      ]
    ]

-- The distance back to a counter from one `n` steps ahead, with those steps, comes full circle.
back-add :
    (k a n : ℕ)
    → a < 2 ^ 32
    → k ≤ 32
    → (bit_and ((a + 2 ^ 32 - (a + n) % 2 ^ 32) % 2 ^ 32) (2 ^ k - 1) + n) % 2 ^ k ≡ 0
back-add k a n ha hk =
    let v : ℕ = (a + 2 ^ 32 - (a + n) % 2 ^ 32) % 2 ^ 32 in
    let closed : (v + n) % 2 ^ 32 ≡ 0 = omega arith in
    ap (λ t. (t + n) % 2 ^ k) (bit_and_mask k v)
    ∙ mod-add-mod v (2 ^ k) n
    ∙ sym (mod_u32-mod k (v + n) hk)
    ∙ ap (λ t. t % 2 ^ k) closed
    ∙ mod-eq_of_lt (pow_pos k)

-- It is one exactly when one more step ahead comes round.
pub diff-behind :
    (k a n : ℕ)
    → a < 2 ^ 32
    → n < 2 ^ k
    → 1 ≤ k
    → k ≤ 32
    → (bit_and ((a + 2 ^ 32 - (a + n) % 2 ^ 32) % 2 ^ 32) (2 ^ k - 1) ≡ 1) ↔ (n + 1 ≡ 2 ^ k)
diff-behind k a n ha hn hk hk' =
    let v : ℕ = (a + 2 ^ 32 - (a + n) % 2 ^ 32) % 2 ^ 32 in
    let w : ℕ = bit_and v (2 ^ k - 1) in
    let small : w < 2 ^ k = omega (arith, bit_and_mask k v, mod-lt v (pow_pos k)) in
    let closed : (w + n) % 2 ^ k ≡ 0 = back-add k a n ha hk' in
    (
      λ e. elim (dec_lt (n + 1) (2 ^ k)) [
        | yes less ↦ omega (arith, mod-eq_of_lt {n = w + n} {m = 2 ^ k} (omega arith))
        | no more ↦ omega arith
      ],
      λ e. elim (dec_lt (w + n) (2 ^ k)) [
        | yes less ↦ omega (arith, mod-eq_of_lt less, two_le_pow k hk)
        | no more ↦ omega (arith, add-mod-cases (2 ^ k) w n small hn (omega arith))
      ],
    )

-- It is zero exactly when there was no step.
pub diff-behind_zero :
    (k a n : ℕ)
    → a < 2 ^ 32
    → n < 2 ^ k
    → k ≤ 32
    → (bit_and ((a + 2 ^ 32 - (a + n) % 2 ^ 32) % 2 ^ 32) (2 ^ k - 1) ≡ 0) ↔ (n ≡ 0)
diff-behind_zero k a n ha hn hk =
    let v : ℕ = (a + 2 ^ 32 - (a + n) % 2 ^ 32) % 2 ^ 32 in
    let w : ℕ = bit_and v (2 ^ k - 1) in
    let small : w < 2 ^ k = omega (arith, bit_and_mask k v, mod-lt v (pow_pos k)) in
    let closed : (w + n) % 2 ^ k ≡ 0 = back-add k a n ha hk in
    (
      λ e. omega (arith, mod-eq_of_lt {n = w + n} {m = 2 ^ k} (omega arith)),
      λ e. omega (arith, mod-eq_of_lt {n = w + n} {m = 2 ^ k} (omega arith)),
    )
