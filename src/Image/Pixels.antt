-- ===== src/Image/Pixels.antt =====
-- The loop that combines two images: each pixel is written once, from the old pixels.
use pdp.Base.{ℕ, zero, suc, ◌+◌, ◌≤◌, ◌<◌, ◌≡◌, ◌≢◌, ◌⊎◌, refl, ◌∙◌, arith, inl, inr, ℤ}
use pdp.Image.{Memory, store, for_pixels}
use pdp.Image.Kernels.{combine}

-- Two images of `n` pixels are the same one or share no pixel.
abbrev pub IsSeparate : ℕ → ℕ → ℕ → Type 0
IsSeparate image other n = (other ≡ image) ⊎ ((image + n ≤ other) ⊎ (other + n ≤ image))

abbrev pub IsOutside : ℕ → ℕ → ℕ → Type 0
IsOutside image n a = (a < image) ⊎ (image + n ≤ a)

-- The pixels of `image` are combined with those of `other`, and all other memory is kept.
abbrev pub Combined : (ℤ → ℤ → ℤ) → ℕ → ℕ → ℕ → Memory → Memory → Type 0
Combined f image other n before after =
    ((j : ℕ) → j < n → after (image + j) ≡ f (before (image + j)) (before (other + j)))
    × ((a : ℕ) → IsOutside image n a → after a ≡ before a)

pub store-same : (memory : Memory) (p : ℕ) (v : ℤ) → store memory p v p ≡ v
store-same memory p v = ground arith

pub store-other : (memory : Memory) (p q : ℕ) (v : ℤ) → q ≢ p → store memory p v q ≡ memory q
store-other memory p q v h = ground arith

combine-outside :
    (f : ℤ → ℤ → ℤ) (image other n i : ℕ) (memory : Memory) (a : ℕ)
    → (a < image + i) ⊎ (image + i + n ≤ a)
    → for_pixels (combine f image other) n i memory a ≡ memory a
unfolding for_pixels
combine-outside f image other zero i memory a h = refl
combine-outside f image other (suc n) i memory a h =
    combine-outside f image other n (suc i) (combine f image other i memory) a (omega arith)
    ∙ store-other memory (image + i) a _ (λ e. omega arith)

combine-inside :
    (f : ℤ → ℤ → ℤ) (image other n i j : ℕ) (memory : Memory)
    → IsSeparate image other (i + n)
    → i ≤ j
    → j < i + n
    → for_pixels (combine f image other) n i memory (image + j)
      ≡ f (memory (image + j)) (memory (other + j))
unfolding for_pixels
combine-inside f image other zero i j memory s h k = absurd (omega arith)
combine-inside f image other (suc n) i j memory s h k =
    let here : (j ≡ i) ⊎ (i < j) = omega arith in
    let before = combine f image other i memory in
    elim here [
      | inl e ↦
          combine-outside f image other n (suc i) before (image + j) (omega arith)
          ∙ rw e (store-same memory (image + i) _)
      | inr more ↦
          combine-inside f image other n (suc i) j before (omega arith) more (omega arith)
          ∙ rw
              (
                store-other memory (image + i) (image + j)
                    (f (memory (image + i)) (memory (other + i))) (λ e. omega arith),
                store-other memory (image + i) (other + j)
                    (f (memory (image + i)) (memory (other + i))) (λ e. omega arith),
              )
              refl
    ]

pub combine-Combined :
    (f : ℤ → ℤ → ℤ) (image other n : ℕ) (memory : Memory)
    → IsSeparate image other n
    → Combined f image other n memory (for_pixels (combine f image other) n 0 memory)
combine-Combined f image other n memory s = (
  λ j h. combine-inside f image other n 0 j memory (omega arith) (omega arith) (omega arith),
  λ a h. combine-outside f image other n 0 memory a (omega arith),
)
