-- ===== src/Image/Convolve.antt =====
-- The convolution of a line reads each pixel before its neighbour is written over.
use pdp.Base.{
  ℕ, zero, suc, ◌+◌, ◌-◌, ◌*◌, ◌%◌, ◌^◌, ◌≤◌, ◌<◌, ◌≡◌, ◌≢◌, refl, ap, ◌∙◌, sym, arith, ◌==◌,
  if◌then◌else◌, ℤ,
}
use pdp.Image.{Memory, store}
use pdp.Image.Filters.{Convolver, weighed, conv_loop, conv_scanline}
use pdp.Image.Pixels.{store-same, store-other}

-- The neighbours of a pixel of a line, the borders included: `first` stands before the line, `border`
-- behind its last pixel `n`.
abbrev pub previous : ℤ → (ℕ → ℤ) → ℕ → ℤ
previous first line zero = first
previous first line (suc k) = line k

abbrev pub following : ℤ → (ℕ → ℤ) → ℕ → ℕ → ℤ
following border line n k = if k == n then border else line (suc k)

-- The pixel `k` of a line with last pixel `n`, from the line as it was.
abbrev pub convolved : Convolver → ℤ → ℕ → (ℕ → ℤ) → ℕ → ℤ
convolved d first n line k =
    weighed d (previous first line k) (line k) (following d.border line n k)

-- The pixels of a line are `stride` apart.
abbrev pub line_of : Memory → ℕ → ℕ → ℕ → ℤ
line_of memory start stride k = memory (start + k * stride)

next_address : (start stride k : ℕ) → start + suc k * stride ≡ start + stride + k * stride
next_address start stride k = grind arith

address_zero : (start stride : ℕ) → start + 0 * stride ≡ start
address_zero start stride = omega arith

address_one : (start stride : ℕ) → start + 1 * stride ≡ start + stride
address_one start stride = omega arith

-- The line without its first pixel.
abbrev shifted : (ℕ → ℤ) → ℕ → ℤ
shifted line k = line (suc k)

previous-shifted : (line : ℕ → ℤ) (k : ℕ) → previous (line 0) (shifted line) k ≡ line k
previous-shifted line zero = refl
previous-shifted line (suc k) = refl

following-shifted :
    (border : ℤ) (line : ℕ → ℤ) (n k : ℕ)
    → following border (shifted line) n k ≡ following border line (suc n) (suc k)
following-shifted border line n k = ground arith

following-inside :
    (border : ℤ) (line : ℕ → ℤ) (n k : ℕ) → k < n → following border line n k ≡ line (suc k)
following-inside border line n k h = ground arith

-- The memory holds the first `n + 2` pixels of a line.
abbrev Holds : Memory → ℕ → ℕ → ℕ → (ℕ → ℤ) → Type 0
Holds memory start stride n line = (k : ℕ) → k ≤ suc n → memory (start + k * stride) ≡ line k

first_held :
    (memory : Memory) (start stride n : ℕ) (line : ℕ → ℤ)
    → Holds memory start stride n line
    → memory start ≡ line 0
first_held memory start stride n line holds =
    ap memory (sym (address_zero start stride)) ∙ holds 0 (omega arith)

second_held :
    (memory : Memory) (start stride n : ℕ) (line : ℕ → ℤ)
    → Holds memory start stride n line
    → memory (start + stride) ≡ line 1
second_held memory start stride n line holds =
    ap memory (sym (address_one start stride)) ∙ holds 1 (omega arith)

Holds-shifted :
    (memory : Memory) (start stride n : ℕ) (line : ℕ → ℤ) (v : ℤ)
    → 0 < stride
    → Holds memory start stride (suc n) line
    → Holds (store memory start v) (start + stride) stride n (shifted line)
Holds-shifted memory start stride n line v s holds k h =
    store-other memory start (start + stride + k * stride) v (λ e. omega arith)
    ∙ ap memory (sym (next_address start stride k))
    ∙ holds (suc k) (omega arith)

conv_loop-off :
    (d : Convolver) (stride n : ℕ) (a b c : ℤ) (start : ℕ) (memory : Memory) (q : ℕ)
    → ((k : ℕ) → k ≤ suc n → q ≢ start + k * stride)
    → conv_loop d stride n a b c start memory q ≡ memory q
unfolding conv_loop
conv_loop-off d stride zero a b c start memory q off =
    store-other (store memory start _) (start + stride) q _
      (λ e. off 1 (omega arith) (e ∙ sym (address_one start stride)))
    ∙ store-other memory start q _ (λ e. off 0 (omega arith) (e ∙ sym (address_zero start stride)))
conv_loop-off d stride (suc n) a b c start memory q off =
    conv_loop-off d stride n _ _ _ (start + stride) _ q
      (λ k h e. off (suc k) (omega arith) (e ∙ sym (next_address start stride k)))
    ∙ store-other memory start q _ (λ e. off 0 (omega arith) (e ∙ sym (address_zero start stride)))

conv_loop-convolved :
    (d : Convolver) (stride n : ℕ) (a : ℤ) (start : ℕ) (memory : Memory) (line : ℕ → ℤ) (k : ℕ)
    → 0 < stride
    → Holds memory start stride n line
    → k ≤ suc n
    → conv_loop d stride n a (line 0) (line 1) start memory (start + k * stride)
      ≡ convolved d a (suc n) line k
unfolding conv_loop
conv_loop-convolved d stride zero a start memory line zero s holds h =
    rw (address_zero start stride) (
      store-other (store memory start _) (start + stride) start _ (λ e. omega arith)
      ∙ store-same memory start _)
conv_loop-convolved d stride zero a start memory line (suc zero) s holds h =
    rw (address_one start stride) (
      store-same (store memory start _) (start + stride) _
      ∙ rw
          (
            first_held memory start stride 0 line holds,
            second_held memory start stride 0 line holds,
          )
          refl)
conv_loop-convolved d stride zero a start memory line (suc (suc k)) s holds h = absurd (omega arith)
conv_loop-convolved d stride (suc n) a start memory line zero s holds h =
    rw (address_zero start stride) (
      conv_loop-off d stride n _ _ _ (start + stride) _ start (λ k h e. omega arith)
      ∙ store-same memory start _
      ∙ ap (weighed d a (line 0))
          (sym (following-inside d.border line (suc (suc n)) 0 (omega arith))))
conv_loop-convolved d stride (suc n) a start memory line (suc k) s holds h =
    let memory' = store memory start (weighed d a (line 0) (line 1)) in
    let holds' = Holds-shifted memory start stride n line (weighed d a (line 0) (line 1)) s holds in
    rw
      (
        next_address start stride k,
        first_held memory start stride (suc n) line holds,
        second_held memory start stride (suc n) line holds,
        holds 2 (omega arith),
      )
      (conv_loop-convolved d stride n (line 0) (start + stride) memory' (shifted line) k s holds'
          (omega arith)
        ∙ rw (previous-shifted line k, following-shifted d.border line (suc n) k) refl)

-- The pixels of a line are written from the line as it was, with the border colour at both ends, and the
-- memory off the line is kept.
abbrev pub Convolved : Convolver → ℕ → ℕ → ℕ → Memory → Memory → Type 0
Convolved d start count stride before after =
    ((k : ℕ)
      → k < count
      → after (start + k * stride)
        ≡ convolved d d.border (count - 1) (line_of before start stride) k)
    × ((q : ℕ) → ((k : ℕ) → k < count → q ≢ start + k * stride) → after q ≡ before q)

-- `count-2` in `u32` for a line of at least two pixels.
turns : (count : ℕ) → 2 ≤ count → count < 2 ^ 32 → (count + 2 ^ 32 - 2) % 2 ^ 32 ≡ count - 2
turns count two fits = omega arith

-- A line is convolved in place as if the result went to another line: each of its pixels is written from
-- the old pixels before it, on it and behind it, with the border colour at both ends; the
-- memory off the line is kept. The line has at least two pixels.
pub conv_scanline-Convolved :
    (d : Convolver) (start count stride : ℕ) (memory : Memory)
    → 2 ≤ count
    → count < 2 ^ 32
    → 0 < stride
    → Convolved d start count stride memory (conv_scanline d start count stride memory)
unfolding conv_scanline
conv_scanline-Convolved d start count stride memory two fits s =
    let line = line_of memory start stride in
    let n = count - 2 in
    let last : suc n ≡ count - 1 = omega arith in
    rw (turns count two fits) (
      λ k h.
          ap
            (λ b.
              conv_loop d stride n d.border b (memory (start + stride)) start memory
                (start + k * stride))
            (first_held memory start stride n line (λ j g. refl))
          ∙ ap (λ c. conv_loop d stride n d.border (line 0) c start memory (start + k * stride))
              (second_held memory start stride n line (λ j g. refl))
          ∙ conv_loop-convolved d stride n d.border start memory line k s (λ j g. refl)
              (omega arith)
          ∙ ap (λ m. convolved d d.border m line k) last,
      λ q off. conv_loop-off d stride n _ _ _ start memory q (λ k h. off k (omega arith)),
    )
