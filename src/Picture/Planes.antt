-- ===== src/Picture/Planes.antt =====
-- A dispatcher runs the kernel on each selected plane alone.
use mathlib.Core.Path.{subst}
use pdp.Base.{
  ℕ, zero, suc, ◌+◌, ◌*◌, ◌/◌, ◌%◌, ◌^◌, ◌≤◌, ◌<◌, ◌≡◌, refl, ap, ◌∙◌, sym, arith, inl, inr, Bool,
  true, false, ◌==◌, if◌then◌else◌, List, [], ◌∷◌, Option, some, get_elem?,
}
use native.Mathlib.Nat.{mul-le-mul}
use pdp.Image.{Memory, pixel_count}
use pdp.Image.Biquad.{has_bit}
use pdp.Image.Pixels.{IsOutside}
use pdp.Picture.{Picture, yv12, grey, mchp, image_isvalid}
use pdp.Picture.Dispatch.{
  Kernel, run_if, mchp_loop, yv12_planes, dispatch_planes, chosen_mask, dispatch_1buf,
}

-- One plane of a picture.
pub record Plane : Type 0 where
  pub width : ℕ
  pub height : ℕ
  pub start : ℕ

abbrev pub area : Plane → ℕ
area s = pixel_count s.width s.height

-- The planes of a picture, in the order of the bits of the channel mask.
abbrev pub multi_planes : ℕ → ℕ → ℕ → ℕ → List Plane
multi_planes w h zero p = []
multi_planes w h (suc d) p =
    record { width = w; height = h; start = p } ∷ multi_planes w h d (p + pixel_count w h)

abbrev pub yv12_list : ℕ → ℕ → ℕ → List Plane
yv12_list w h p =
    record { width = w; height = h; start = p }
    ∷ (record { width = w / 2; height = h / 2; start = p + pixel_count w h }
        ∷ (record {
          width = w / 2;
          height = h / 2;
          start = p + pixel_count w h + pixel_count w h / 4;
        }
            ∷ []))

abbrev pub planes_of : Picture → List Plane
planes_of x =
    if x.encoding == grey
    then multi_planes x.width x.height 1 x.pixels
    else if x.encoding == yv12
    then yv12_list x.width x.height x.pixels
    else if x.encoding == mchp
    then multi_planes x.width x.height x.depth x.pixels
    else []

-- Planes that follow each other.
abbrev pub IsStacked : ℕ → List Plane → Type 0
IsStacked low [] = Unit {0}
IsStacked low (s ∷ ss) = (low ≤ s.start) × IsStacked (s.start + area s) ss

abbrev pub IsWithin : Plane → ℕ → Type 0
IsWithin s q = (s.start ≤ q) × (q < s.start + area s)

-- A kernel writes its plane from the pixels of that plane.
abbrev pub IsLocal : Kernel → Type 0
IsLocal kernel =
    ((s : Plane) (memory : Memory) (q : ℕ)
      → IsOutside s.start (area s) q
      → kernel s.width s.height s.start memory q ≡ memory q)
    × ((s : Plane) (memory memory' : Memory) (q : ℕ)
        → ((a : ℕ) → IsWithin s a → memory a ≡ memory' a)
        → IsWithin s q
        → kernel s.width s.height s.start memory q ≡ kernel s.width s.height s.start memory' q)

abbrev run_planes : Kernel → ℕ → ℕ → List Plane → Memory → Memory
run_planes kernel mask bit [] memory = memory
run_planes kernel mask bit (s ∷ ss) memory =
    run_planes kernel mask (suc bit) ss
      (run_if (has_bit bit mask) (kernel s.width s.height s.start) memory)

-- What the planes hold afterwards.
abbrev pub PlanesAlone : Kernel → ℕ → List Plane → Memory → Memory → Type 0
PlanesAlone kernel mask planes before after =
    ((k : ℕ) (s : Plane) (q : ℕ)
      → get_elem? planes k ≡ some s
      → IsWithin s q
      → after q ≡ run_if (has_bit k mask) (kernel s.width s.height s.start) before q)
    × ((q : ℕ)
        → ((k : ℕ) (s : Plane) → get_elem? planes k ≡ some s → IsOutside s.start (area s) q)
        → after q ≡ before q)

run_if-outside :
    (kernel : Kernel) (b : Bool) (s : Plane) (memory : Memory) (q : ℕ)
    → IsLocal kernel
    → IsOutside s.start (area s) q
    → run_if b (kernel s.width s.height s.start) memory q ≡ memory q
run_if-outside kernel true s memory q l h = l.0 s memory q h
run_if-outside kernel false s memory q l h = refl

run_if-same :
    (kernel : Kernel) (b : Bool) (s : Plane) (memory memory' : Memory) (q : ℕ)
    → IsLocal kernel
    → ((a : ℕ) → IsWithin s a → memory a ≡ memory' a)
    → IsWithin s q
    → run_if b (kernel s.width s.height s.start) memory q
      ≡ run_if b (kernel s.width s.height s.start) memory' q
run_if-same kernel true s memory memory' q l same h = l.1 s memory memory' q same h
run_if-same kernel false s memory memory' q l same h = same q h

-- Below the planes nothing is written.
run_planes-below :
    (kernel : Kernel) (mask bit low : ℕ) (planes : List Plane) (memory : Memory) (q : ℕ)
    → IsLocal kernel
    → IsStacked low planes
    → q < low
    → run_planes kernel mask bit planes memory q ≡ memory q
run_planes-below kernel mask bit low [] memory q l stacked h = refl
run_planes-below kernel mask bit low (s ∷ ss) memory q l stacked h =
    run_planes-below kernel mask (suc bit) (s.start + area s) ss _ q l stacked.1
      (omega (arith, stacked.0))
    ∙ run_if-outside kernel (has_bit bit mask) s memory q l (inl (omega (arith, stacked.0)))

same_plane : (t s : Plane) → some t ≡ some s → t ≡ s
same_plane t s e = ground arith

-- A plane of the list lies behind what is below the list.
later_plane :
    (low k : ℕ) (s : Plane) (planes : List Plane)
    → IsStacked low planes
    → get_elem? planes k ≡ some s
    → low ≤ s.start
later_plane low k s [] stacked e = absurd (ground arith)
later_plane low zero s (t ∷ ts) stacked e =
    omega (arith, stacked.0, ap (λ (p : Plane). p.start) (same_plane t s e))
later_plane low (suc k) s (t ∷ ts) stacked e =
    omega (arith, stacked.0, later_plane (t.start + area t) k s ts stacked.1 e)

run_planes-at :
    (kernel : Kernel) (mask bit low k : ℕ) (s : Plane) (planes : List Plane) (memory : Memory)
    (q : ℕ)
    → IsLocal kernel
    → IsStacked low planes
    → get_elem? planes k ≡ some s
    → IsWithin s q
    → run_planes kernel mask bit planes memory q
      ≡ run_if (has_bit (bit + k) mask) (kernel s.width s.height s.start) memory q
run_planes-at kernel mask bit low k s [] memory q l stacked e h = absurd (ground arith)
run_planes-at kernel mask bit low zero s (t ∷ ts) memory q l stacked e h =
    let same = same_plane t s e in
    let bits : bit ≡ bit + 0 = omega arith in
    let own : IsWithin t q = subst (λ p. IsWithin p q) (sym same) h in
    run_planes-below kernel mask (suc bit) (t.start + area t) ts _ q l stacked.1 own.1
    ∙ ap (λ (p : Plane). run_if (has_bit bit mask) (kernel p.width p.height p.start) memory q) same
    ∙ ap (λ b. run_if (has_bit b mask) (kernel s.width s.height s.start) memory q) bits
run_planes-at kernel mask bit low (suc k) s (t ∷ ts) memory q l stacked e h =
    let bits : suc bit + k ≡ bit + suc k = omega arith in
    let behind : t.start + area t ≤ s.start = later_plane (t.start + area t) k s ts stacked.1 e in
    run_planes-at kernel mask (suc bit) (t.start + area t) k s ts _ q l stacked.1 e h
    ∙ run_if-same kernel (has_bit (suc bit + k) mask) s _ memory q l
        (λ a w.
          run_if-outside kernel (has_bit bit mask) t memory a l (inr (omega (arith, w.0, behind))))
        h
    ∙ ap (λ b. run_if (has_bit b mask) (kernel s.width s.height s.start) memory q) bits

run_planes-off :
    (kernel : Kernel) (mask bit : ℕ) (planes : List Plane) (memory : Memory) (q : ℕ)
    → IsLocal kernel
    → ((k : ℕ) (s : Plane) → get_elem? planes k ≡ some s → IsOutside s.start (area s) q)
    → run_planes kernel mask bit planes memory q ≡ memory q
run_planes-off kernel mask bit [] memory q l h = refl
run_planes-off kernel mask bit (s ∷ ss) memory q l h =
    run_planes-off kernel mask (suc bit) ss _ q l (λ k t e. h (suc k) t e)
    ∙ run_if-outside kernel (has_bit bit mask) s memory q l (h 0 s refl)

run_planes-PlanesAlone :
    (kernel : Kernel) (mask low : ℕ) (planes : List Plane) (memory : Memory)
    → IsLocal kernel
    → IsStacked low planes
    → PlanesAlone kernel mask planes memory (run_planes kernel mask 0 planes memory)
run_planes-PlanesAlone kernel mask low planes memory l stacked = (
  λ k s q e h.
      run_planes-at kernel mask 0 low k s planes memory q l stacked e h
      ∙ ap (λ b. run_if (has_bit b mask) (kernel s.width s.height s.start) memory q) (left_zero k),
  λ q h. run_planes-off kernel mask 0 planes memory q l h,
)
  where
    left_zero : (k : ℕ) → 0 + k ≡ k
    left_zero k = omega arith

multi_planes-IsStacked : (w h d p : ℕ) → IsStacked p (multi_planes w h d p)
multi_planes-IsStacked w h zero p = tt
multi_planes-IsStacked w h (suc d) p =
    (omega arith, multi_planes-IsStacked w h d (p + pixel_count w h))

-- The subsampled planes take a quarter of the first one at most.
quarter_plane : (w h : ℕ) → w * h < 2 ^ 32 → pixel_count (w / 2) (h / 2) ≤ pixel_count w h / 4
quarter_plane w h fits =
    let a : 2 * (w / 2) ≤ w = omega arith in
    let b : 2 * (h / 2) ≤ h = omega arith in
    let split : 2 * (w / 2) * (2 * (h / 2)) ≡ 4 * (w / 2 * (h / 2)) = grind arith in
    omega (arith, mul-le-mul a b, split)

mchp_loop-planes :
    (kernel : Kernel) (mask w h d bit p : ℕ) (memory : Memory)
    → mchp_loop kernel mask w h d bit p memory
      ≡ run_planes kernel (mask % 2 ^ 32) bit (multi_planes w h d p) memory
unfolding mchp_loop
mchp_loop-planes kernel mask w h zero bit p memory = refl
mchp_loop-planes kernel mask w h (suc d) bit p memory =
    mchp_loop-planes kernel mask w h d (suc bit) (p + pixel_count w h) _

small_mask : (mask : ℕ) → mask < 2 ^ 32 → mask % 2 ^ 32 ≡ mask
small_mask mask h = omega arith

planes_of-IsStacked : (x : Picture) → x.width * x.height < 2 ^ 32 → IsStacked x.pixels (planes_of x)
planes_of-IsStacked x fits =
    by_encoding (x.encoding == grey) (x.encoding == yv12) (x.encoding == mchp)
  where
    by_encoding :
        (g y m : Bool)
        → IsStacked x.pixels (
            if g
            then multi_planes x.width x.height 1 x.pixels
            else if y
            then yv12_list x.width x.height x.pixels
            else if m
            then multi_planes x.width x.height x.depth x.pixels
            else [])
    by_encoding true y m = multi_planes-IsStacked x.width x.height 1 x.pixels
    by_encoding false true m =
        (omega arith, (omega arith, (omega (arith, quarter_plane x.width x.height fits), tt)))
    by_encoding false false true = multi_planes-IsStacked x.width x.height x.depth x.pixels
    by_encoding false false false = tt

dispatch_planes-run :
    (kernel : Kernel) (mask : ℕ) (x : Picture) (memory : Memory)
    → mask < 2 ^ 32
    → dispatch_planes kernel mask x memory ≡ run_planes kernel mask 0 (planes_of x) memory
unfolding dispatch_planes yv12_planes
dispatch_planes-run kernel mask x memory small =
    by_encoding (x.encoding == grey) (x.encoding == yv12) (x.encoding == mchp)
  where
    by_encoding :
        (g y m : Bool)
        → (if g
            then run_if (has_bit 0 mask) (kernel x.width x.height x.pixels) memory
            else if y
            then yv12_planes kernel mask x.width x.height x.pixels memory
            else if m
            then mchp_loop kernel mask x.width x.height x.depth 0 x.pixels memory
            else memory)
          ≡ run_planes kernel mask 0
              (if g
                then multi_planes x.width x.height 1 x.pixels
                else if y
                then yv12_list x.width x.height x.pixels
                else if m
                then multi_planes x.width x.height x.depth x.pixels
                else [])
              memory
    by_encoding true y m = refl
    by_encoding false true m = refl
    by_encoding false false true =
        mchp_loop-planes kernel mask x.width x.height x.depth 0 x.pixels memory
        ∙ ap (λ b. run_planes kernel b 0 (multi_planes x.width x.height x.depth x.pixels) memory)
            (small_mask mask small)
    by_encoding false false false = refl

-- The result of a dispatcher: the packet's own mask is taken up, and the planes are run.
abbrev pub Dispatched : Kernel → ℕ → Picture → Memory → Option Picture × Memory → Type 0
Dispatched kernel mask x before after =
    (after.0 ≡ some (record x { chanmask = 0 }))
    × PlanesAlone kernel (chosen_mask mask x) (planes_of x) before after.1

-- `pdp_imageproc_dispatch_1buf` of a valid picture runs the kernel on each plane whose bit is set in the
-- packet's mask, or in the call's where the packet has none, as if it ran there alone: what a
-- selected plane holds comes from what it held before, and all other memory is kept. The packet's
-- mask is 0 afterwards. The kernel reads and writes only the plane that it is given, and the product of
-- the picture's width and height, like both masks, fits 32 bits, so that its planes do not overlap.
pub dispatch_1buf-Dispatched :
    (kernel : Kernel) (mask : ℕ) (x : Picture) (memory : Memory)
    → IsLocal kernel
    → image_isvalid (some x) ≡ true
    → x.width * x.height < 2 ^ 32
    → mask < 2 ^ 32
    → x.chanmask < 2 ^ 32
    → Dispatched kernel mask x memory (dispatch_1buf kernel mask (some x) memory)
unfolding dispatch_1buf
dispatch_1buf-Dispatched kernel mask x memory l valid fits small small' =
    let chosen : chosen_mask mask x < 2 ^ 32 = ground arith in
    rw (valid, dispatch_planes-run kernel (chosen_mask mask x) x memory chosen)
      (
        refl,
        run_planes-PlanesAlone kernel (chosen_mask mask x) x.pixels (planes_of x) memory l
            (planes_of-IsStacked x fits),
      )
