-- ===== src/Image/Recursion.antt =====
-- A biquad filter along a line solves the difference equation of its samples.
use pdp.Base.{ℕ, zero, suc, ◌+◌, shift_right, ◌<◌, ◌≡◌, ◌≢◌, refl, ap, ◌∙◌, sym, arith, ℤ}
use pdp.Image.{Memory, store, to_pixel, add32, mul32}
use pdp.Image.Pixels.{store-same, store-other}
use pdp.Image.Biquad.{Biquad, output, next_u1, next_u2, move, bq_loop, bq_scanline}

-- The two words of the state after `k` samples, from the words at the start.
unfoldable pub state : Biquad → ℤ × ℤ → (ℕ → ℤ) → ℕ → ℤ × ℤ
state d u samples zero = u
state d u samples (suc k) =
    let v = state d u samples k in (next_u1 d v.0 v.1 (samples k), next_u2 d v.0 (samples k))

-- The sample that the filter makes of the one with number `k`.
abbrev pub filtered : Biquad → ℤ × ℤ → (ℕ → ℤ) → ℕ → ℤ
filtered d u samples k = to_pixel (output d (state d u samples k).0 (samples k))

-- The addresses of a line, a stride apart and each a different one.
abbrev pub IsLine : (ℕ → ℕ) → ℕ → ℤ → Type 0
IsLine address count stride =
    ((k : ℕ) → k < count → address (suc k) ≡ move (address k) stride)
    × ((j k : ℕ) → j < k → k < count → address j ≢ address k)

abbrev pub state_words : Biquad → ℤ × ℤ
state_words d = (d.u0_save, d.u1_save)

-- A line is filtered, the state is saved, and the memory off the line is kept.
abbrev pub Filtered : (ℕ → ℕ) → ℕ → Biquad × Memory → Biquad × Memory → Type 0
Filtered address count before after =
    ((k : ℕ)
      → k < count
      → after.1 (address k)
        ≡ filtered before.0 (state_words before.0) (λ j. before.1 (address j)) k)
    × ((q : ℕ) → ((k : ℕ) → k < count → q ≢ address k) → after.1 q ≡ before.1 q)
    × (state_words after.0
        ≡ state before.0 (state_words before.0) (λ j. before.1 (address j)) count)

abbrev shifted : (ℕ → ℤ) → ℕ → ℤ
shifted samples k = samples (suc k)

state-shifted :
    (d : Biquad) (u : ℤ × ℤ) (samples : ℕ → ℤ) (k : ℕ)
    → state d (next_u1 d u.0 u.1 (samples 0), next_u2 d u.0 (samples 0)) (shifted samples) k
      ≡ state d u samples (suc k)
unfolding state
state-shifted d u samples zero = refl
state-shifted d u samples (suc k) =
    ap (λ (v : ℤ × ℤ). (next_u1 d v.0 v.1 (samples (suc k)), next_u2 d v.0 (samples (suc k))))
      (state-shifted d u samples k)

rest :
    (address : ℕ → ℕ) (n : ℕ) (stride : ℤ)
    → IsLine address (suc n) stride
    → IsLine (λ k. address (suc k)) n stride
rest address n stride line = (
  λ k h. line.0 (suc k) (omega arith),
  λ j k h g. line.1 (suc j) (suc k) (omega arith) (omega arith),
)

first_output :
    (d : Biquad) (u : ℤ × ℤ) (samples : ℕ → ℤ)
    → to_pixel (output d u.0 (samples 0)) ≡ filtered d u samples 0
unfolding state
first_output d u samples = refl

bq_loop-off :
    (d : Biquad) (n : ℕ) (u1 u2 : ℤ) (address : ℕ → ℕ) (stride : ℤ) (memory : Memory) (q : ℕ)
    → IsLine address n stride
    → ((k : ℕ) → k < n → q ≢ address k)
    → (bq_loop d n u1 u2 (address 0) stride memory).1 q ≡ memory q
unfolding bq_loop
bq_loop-off d zero u1 u2 address stride memory q line off = refl
bq_loop-off d (suc n) u1 u2 address stride memory q line off =
    rw (bq_loop, sym (line.0 0 (omega arith)))
      (bq_loop-off d n _ _ (λ k. address (suc k)) stride _ q (rest address n stride line)
          (λ k h. off (suc k) (omega arith))
        ∙ store-other memory (address 0) q _ (off 0 (omega arith)))

-- A turn of the loop at the start of a line.
abbrev after_first : Biquad → ℤ × ℤ → ℤ → ℤ × ℤ
after_first d u sample = (next_u1 d u.0 u.1 sample, next_u2 d u.0 sample)

abbrev first_stored : Biquad → ℤ × ℤ → (ℕ → ℕ) → Memory → ℤ → Memory
first_stored d u address memory sample = store memory (address 0) (to_pixel (output d u.0 sample))

turn :
    (d : Biquad) (n : ℕ) (u : ℤ × ℤ) (address : ℕ → ℕ) (stride : ℤ) (memory : Memory) (sample : ℤ)
    → IsLine address (suc n) stride
    → memory (address 0) ≡ sample
    → bq_loop d (suc n) u.0 u.1 (address 0) stride memory
      ≡ bq_loop d n
          (after_first d u sample).0
          (after_first d u sample).1
          (address 1)
          stride
          (first_stored d u address memory sample)
unfolding bq_loop
turn d n u address stride memory sample line e = rw (e, line.0 0 (omega arith)) refl

-- The later pixels are the ones that they were.
Holds-later :
    (address : ℕ → ℕ) (n : ℕ) (stride : ℤ) (memory : Memory) (samples : ℕ → ℤ) (v : ℤ)
    → IsLine address (suc n) stride
    → ((j : ℕ) → j < suc n → memory (address j) ≡ samples j)
    → (j : ℕ) → j < n
    → store memory (address 0) v (address (suc j)) ≡ samples (suc j)
Holds-later address n stride memory samples v line holds j h =
    store-other memory (address 0) (address (suc j)) v
      (λ e. line.1 0 (suc j) (omega arith) (omega arith) (sym e))
    ∙ holds (suc j) (omega arith)

bq_loop-filtered :
    (d : Biquad) (n : ℕ) (u : ℤ × ℤ) (address : ℕ → ℕ) (stride : ℤ) (memory : Memory)
    (samples : ℕ → ℤ) (k : ℕ)
    → IsLine address n stride
    → ((j : ℕ) → j < n → memory (address j) ≡ samples j)
    → k < n
    → (bq_loop d n u.0 u.1 (address 0) stride memory).1 (address k) ≡ filtered d u samples k
bq_loop-filtered d zero u address stride memory samples k line holds h = absurd (omega arith)
bq_loop-filtered d (suc n) u address stride memory samples zero line holds h =
    ap (λ (r : Biquad × Memory). r.1 (address 0))
      (turn d n u address stride memory (samples 0) line (holds 0 (omega arith)))
    ∙ bq_loop-off d n _ _ (λ k. address (suc k)) stride _ (address 0) (rest address n stride line)
        (λ k h. line.1 0 (suc k) (omega arith) (omega arith))
    ∙ store-same memory (address 0) _
    ∙ first_output d u samples
bq_loop-filtered d (suc n) u address stride memory samples (suc k) line holds h =
    ap (λ (r : Biquad × Memory). r.1 (address (suc k)))
      (turn d n u address stride memory (samples 0) line (holds 0 (omega arith)))
    ∙ bq_loop-filtered d n (after_first d u (samples 0)) (λ j. address (suc j)) stride _
        (shifted samples) k (rest address n stride line)
        (Holds-later address n stride memory samples _ line holds) (omega arith)
    ∙ ap (λ (v : ℤ × ℤ). to_pixel (output d v.0 (samples (suc k)))) (state-shifted d u samples k)

bq_loop-state :
    (d : Biquad) (n : ℕ) (u : ℤ × ℤ) (address : ℕ → ℕ) (stride : ℤ) (memory : Memory)
    (samples : ℕ → ℤ)
    → IsLine address n stride
    → ((j : ℕ) → j < n → memory (address j) ≡ samples j)
    → state_words (bq_loop d n u.0 u.1 (address 0) stride memory).0 ≡ state d u samples n
unfolding bq_loop state
bq_loop-state d zero u address stride memory samples line holds = refl
bq_loop-state d (suc n) u address stride memory samples line holds =
    ap (λ (r : Biquad × Memory). state_words r.0)
      (turn d n u address stride memory (samples 0) line (holds 0 (omega arith)))
    ∙ bq_loop-state d n (after_first d u (samples 0)) (λ j. address (suc j)) stride _
        (shifted samples) (rest address n stride line)
        (Holds-later address n stride memory samples _ line holds)
    ∙ state-shifted d u samples n

-- A scan of a line, whichever way it runs: each pixel is the filter's output for it, the state after the
-- last pixel is saved, and the memory off the line is kept.
bq_scanline-Filtered :
    (d : Biquad) (memory : Memory) (address : ℕ → ℕ) (count : ℕ) (stride : ℤ)
    → IsLine address count stride
    → Filtered address count (d, memory) (bq_scanline (address 0) count stride (d, memory))
unfolding bq_scanline
bq_scanline-Filtered d memory address count stride line = (
  λ k h. bq_loop-filtered d count (state_words d) address stride memory _ k line (λ j g. refl) h,
  λ q off. bq_loop-off d count _ _ address stride memory q line off,
  bq_loop-state d count (state_words d) address stride memory _ line (λ j g. refl),
)

-- The fixed point product of two words.
abbrev pub times : ℤ → ℤ → ℤ
times a b = shift_right (mul32 a b) 14

-- The direct form of the filter, `y[k] = b0 x[k] + b1 x[k-1] + b2 x[k-2] - a1 y[k-1] - a2 y[k-2]`, over the
-- samples `x` and the outputs `y` alone; `ma1` and `ma2` are negated. The state that was saved
-- before takes the place of the terms in front of the line, and what is saved after `count`
-- samples is what the next two outputs would take from these.
pub record Solves (d : Biquad) (x y : ℕ → ℤ) (count : ℕ) (after : Biquad) : Type 0 where
  pub first : 0 < count → y 0 ≡ add32 (times d.b0 (x 0)) d.u0_save
  pub second :
      1 < count
      → y 1
        ≡ add32 (times d.b0 (x 1)) (add32 (add32 (times d.b1 (x 0)) d.u1_save) (times d.ma1 (y 0)))
  pub later :
      (k : ℕ)
      → k + 2 < count
      → y (k + 2)
        ≡ add32 (times d.b0 (x (k + 2))) (
            add32
              (add32 (times d.b1 (x (k + 1))) (add32 (times d.b2 (x k)) (times d.ma2 (y k))))
              (times d.ma1 (y (k + 1))))
  pub saved :
      (k : ℕ)
      → count ≡ k + 2
      → (after.u0_save
          ≡ add32
              (add32 (times d.b1 (x (k + 1))) (add32 (times d.b2 (x k)) (times d.ma2 (y k))))
              (times d.ma1 (y (k + 1))))
        × (after.u1_save ≡ add32 (times d.b2 (x (k + 1))) (times d.ma2 (y (k + 1))))

-- A line after a scan: its pixels are the outputs, cut off, and the memory off the line is kept.
pub record Equalized (address : ℕ → ℕ) (count : ℕ) (before after : Biquad × Memory) : Type 0 where
  pub outputs : ℕ → ℤ
  pub solution : Solves before.0 (λ k. before.1 (address k)) outputs count after.0
  pub pixels : (k : ℕ) → k < count → after.1 (address k) ≡ to_pixel (outputs k)
  pub kept : (q : ℕ) → ((k : ℕ) → k < count → q ≢ address k) → after.1 q ≡ before.1 q

two_more : (k : ℕ) → k + 2 ≡ suc (suc k)
two_more k = omega arith

one_more : (k : ℕ) → k + 1 ≡ suc k
one_more k = omega arith

-- A scan of a line writes the solution of the filter's difference equation for the pixels as they were,
-- whichever way it runs: each output is the sum of the sample and the two before it and of the
-- two outputs before it, each times its coefficient in fixed point, in words of 32 bits, and the pixel
-- is the output cut off. The state continues the equation from the line scanned before to the
-- next one, for lines of at least two pixels. The memory off the line is kept. No two pixels of
-- the line are the same.
pub bq_scanline-Equalized :
    (d : Biquad) (memory : Memory) (address : ℕ → ℕ) (count : ℕ) (stride : ℤ)
    → IsLine address count stride
    → Equalized address count (d, memory) (bq_scanline (address 0) count stride (d, memory))
unfolding state
bq_scanline-Equalized d memory address count stride line =
    let r = bq_scanline-Filtered d memory address count stride line in
    let x : ℕ → ℤ = λ k. memory (address k) in
    let y : ℕ → ℤ = λ k. output d (state d (state_words d) x k).0 (x k) in
    record {
      outputs = y;
      solution = record {
        first = λ h. refl;
        second = λ h. refl;
        later = λ k h. rw (two_more k, one_more k) refl;
        saved = λ k e.
            let words = r.2 ∙ ap (state d (state_words d) x) (e ∙ two_more k) in
            rw (one_more k) (ap (λ (v : ℤ × ℤ). v.0) words, ap (λ (v : ℤ × ℤ). v.1) words);
      };
      pixels = λ k h. r.0 k h;
      kept = λ q off. r.1 q off;
    }
