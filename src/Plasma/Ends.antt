-- ===== src/Plasma/Ends.antt =====
-- The subdivision ends, and paints inside the image.
use pdp.Base.{ℕ, suc, ◌+◌, ◌*◌, ◌<◌, ◌≡◌, ◌≢◌, Option, some}
use pdp.Image.{store}
use pdp.Plasma.{State, rand_s16}

-- No pixel of a block of `w` columns and `h` rows, which are `s` apart.
abbrev pub IsOff : ℕ → ℕ → ℕ → ℕ → ℕ → Type 0
IsOff w h s image q = (x y : ℕ) → x < w → y < h → q ≢ image + (s * y + x)

-- A computation that gives a state, with the memory off a block as it was.
pub record Paints (w h s image : ℕ) (before : State) (result : Option State) : Type 0 where
  pub after : State
  pub returns : result ≡ some after
  pub kept : (q : ℕ) → IsOff w h s image q → after.0 q ≡ before.0 q

-- A pixel of the block.
abbrev IsOn : ℕ → ℕ → ℕ → ℕ → ℕ → Type 0
IsOn w h s image p = (x : ℕ) × (y : ℕ) × (x < w) × (y < h) × (p ≡ image + (s * y + x))

-- A store on the image, before the rest.
abbrev colored_corner : (ℕ → ℕ) → ℕ → State → State
colored_corner random p s = (store s.0 p (rand_s16 random s.1), suc s.1)
