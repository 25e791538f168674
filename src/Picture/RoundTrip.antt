-- ===== src/Picture/RoundTrip.antt =====
-- A YCrCb picture comes back from its multi channel form.
use mathlib.Core.Path.{subst}
use pdp.Base.{
  ℕ, suc, ◌+◌, ◌*◌, ◌/◌, ◌≤◌, ◌<◌, ◌≡◌, ◌⊎◌, refl, ap, ◌∙◌, sym, arith, inl, Option, none, some,
  Outcome, ok, fault, ◌^◌, lt→ltb,
}
use native.Mathlib.Nat.{mul-le-mul}
use pdp.Image.{Memory}
use pdp.Image.Exact.{IsClamped}
use pdp.Image.Planes.{write_all-at, write_all-off}
use pdp.Resize.{halve, halve_rows, double, double_rows}
use pdp.Resize.Double.{IsInBlock, double_rows-off, double_rows-at}
use pdp.Resize.Halve.{Kept, halve_rows-off, halve_rows-block}
use pdp.Picture.{
  Picture, new_image_YCrCb, new_image_mchp, bytes_YCrCb, bytes_mchp, image_type, yv12, mchp,
}
use pdp.Picture.Convert.{copy_pixels, Converted, multi_to_YCrCb, YCrCb_to_multi}

-- Blocks of `n` and `m` pixels that share none.
abbrev pub IsDisjoint : ℕ → ℕ → ℕ → ℕ → Type 0
IsDisjoint p n q m = (p + n ≤ q) ⊎ (q + m ≤ p)

-- The planes of half the width `a` and half the height `b` are those of another memory.
abbrev pub SamePlanes : ℕ → ℕ → ℕ → ℕ → Memory → Memory → Type 0
SamePlanes src dst a b before after =
    let size = 4 * (b * a) in
    ((k : ℕ) → k < size → after (dst + k) ≡ before (src + k))
    × ((i j : ℕ)
        → i < a
        → j < b
        → after (dst + size + j * a + i) ≡ before (src + size + (j * a + i)))
    × ((i j : ℕ)
        → i < a
        → j < b
        → after (dst + size + b * a + j * a + i) ≡ before (src + size + b * a + (j * a + i)))

row_room : (j b a : ℕ) → j < b → j * a + a ≤ b * a
row_room j b a h =
    let same : a ≤ a = omega arith in
    let split : suc j * a ≡ j * a + a = grind arith in omega (arith, split, mul-le-mul h same)

moved :
    (memory before : Memory) (p q o n : ℕ)
    → p ≡ q + o
    → memory (q + (o + n)) ≡ before (q + (o + n))
    → memory (p + n) ≡ before (p + n)
moved memory before p q o n e h =
    let at : p + n ≡ q + (o + n) = omega arith in ap memory at ∙ h ∙ ap before (sym at)

module _ (src big dst a b : ℕ) (before : Memory) where
  -- The memories in between: the luma plane copied, and each colour plane doubled; then the luma plane
  -- copied back, and each colour plane halved.
  abbrev size : ℕ
  size = 4 * (b * a)

  abbrev opened : Memory
  opened = copy_pixels big src size before

  abbrev first_doubled : Memory
  first_doubled = double_rows a (src + size) (big + size) b opened

  abbrev both_doubled : Memory
  both_doubled = double_rows a (src + size + b * a) (big + size + size) b first_doubled

  abbrev closed : Memory
  closed = copy_pixels dst big size both_doubled

  abbrev first_halved : Memory
  first_halved = halve_rows (2 * a) (big + size) (dst + size) b closed

  abbrev both_halved : Memory
  both_halved = halve_rows (2 * a) (big + size + size) (dst + size + b * a) b first_halved

  module _ (all : (k : ℕ) → k < 6 * (b * a) → IsClamped (before (src + k)))
      (away : IsDisjoint src (6 * (b * a)) big (12 * (b * a)))
      (back : IsDisjoint big (12 * (b * a)) dst (6 * (b * a))) where
    -- The source is left alone on the way there.
    opened-source : (k : ℕ) → k < 6 * (b * a) → opened (src + k) ≡ before (src + k)
    opened-source k h = write_all-off _ big size 0 before (src + k) (omega arith)

    first_doubled-source : (k : ℕ) → k < 6 * (b * a) → first_doubled (src + k) ≡ before (src + k)
    first_doubled-source k h =
        double_rows-off a (src + size) (big + size) b opened (src + k) (omega arith)
        ∙ opened-source k h

    -- The three planes of the multi channel picture.
    luma : (k : ℕ) → k < size → both_doubled (big + k) ≡ before (src + k)
    luma k h =
        double_rows-off a (src + size + b * a) (big + size + size) b first_doubled (big + k)
          (inl (omega arith))
        ∙ double_rows-off a (src + size) (big + size) b opened (big + k) (inl (omega arith))
        ∙ write_all-at _ big size 0 before k (omega arith) (omega arith)

    chroma_v :
        (i j q : ℕ)
        → i < a
        → j < b
        → IsInBlock (big + size + 4 * (j * a) + 2 * i) (2 * a) q
        → both_doubled q ≡ before (src + size + (j * a + i))
    chroma_v i j q h k block =
        double_rows-off a (src + size + b * a) (big + size + size) b first_doubled q
          (inl (omega (arith, row_room j b a k)))
        ∙ double_rows-at a (src + size) (big + size) b opened (λ n. before (src + size + n)) i j q
            (omega arith)
            (λ n f.
              moved opened before (src + size) src size n refl
                (opened-source (size + n) (omega arith)))
            h k block

    chroma_u :
        (i j q : ℕ)
        → i < a
        → j < b
        → IsInBlock (big + size + size + 4 * (j * a) + 2 * i) (2 * a) q
        → both_doubled q ≡ before (src + size + b * a + (j * a + i))
    chroma_u i j q h k block =
        double_rows-at a (src + size + b * a) (big + size + size) b first_doubled
          (λ n. before (src + size + b * a + n)) i j q (omega arith)
          (λ n f.
            moved first_doubled before (src + size + b * a) src (size + b * a) n (omega arith)
              (first_doubled-source (size + b * a + n) (omega arith)))
          h k block

    -- The multi channel picture is left alone on the way back.
    closed-Kept : Kept big (big + 12 * (b * a)) closed both_doubled
    closed-Kept q l h = write_all-off _ dst size 0 both_doubled q (omega arith)

    first_halved-Kept : Kept big (big + 12 * (b * a)) first_halved both_doubled
    first_halved-Kept q l h =
        let middle : b * (2 * a / 2) ≡ b * a =
          ap (λ t. b * t) (let e : 2 * a / 2 ≡ a = omega arith in e) in
        halve_rows-off (2 * a) (big + size) (dst + size) b closed q (omega (arith, middle))
        ∙ closed-Kept q l h

    chroma-IsClamped : (q k : ℕ) → q ≡ src + k → k < 6 * (b * a) → IsClamped (before q)
    chroma-IsClamped q k e h = subst (λ t. IsClamped (before t)) (sym e) (all k h)

    both_halved-SamePlanes : SamePlanes src dst a b before both_halved
    both_halved-SamePlanes = (
      λ k h.
          halve_rows-off (2 * a) (big + size + size) (dst + size + b * a) b first_halved (dst + k)
            (inl (omega arith))
          ∙ halve_rows-off (2 * a) (big + size) (dst + size) b closed (dst + k) (inl (omega arith))
          ∙ write_all-at _ dst size 0 both_doubled k (omega arith) (omega arith)
          ∙ luma k h,
      λ i j h k.
          halve_rows-off (2 * a) (big + size + size) (dst + size + b * a) b first_halved
            (dst + size + j * a + i) (inl (omega (arith, row_room j b a k)))
          ∙ halve_rows-block a (big + size) (dst + size) b closed both_doubled i j _ (omega arith)
              (λ q l g. closed-Kept q (omega arith) (omega arith)) h k
              (chroma-IsClamped _ (size + (j * a + i)) (omega arith)
                (omega (arith, row_room j b a k)))
              (λ q block. chroma_v i j q h k block),
      λ i j h k.
          halve_rows-block a (big + size + size) (dst + size + b * a) b first_halved both_doubled i
            j _ (omega arith) (λ q l g. first_halved-Kept q (omega arith) (omega arith)) h k
            (chroma-IsClamped _ (size + b * a + (j * a + i)) (omega arith)
              (omega (arith, row_room j b a k)))
            (λ q block. chroma_u i j q h k block),
    )

-- The picture of one kind that a constructor makes at an address.
abbrev pub picture_at : ℕ → ℕ → Picture → ℕ → Picture
picture_at encoding depth x p = record {
  type = image_type;
  encoding = encoding;
  width = x.width;
  height = x.height;
  depth = depth;
  chanmask = 0;
  pixels = p;
}

product_of_halves : (a b : ℕ) → 2 * a * (2 * b) ≡ 4 * (b * a)
product_of_halves a b = grind arith

half_of : (a : ℕ) → 2 * a / 2 ≡ a
half_of a = omega arith

quarter_of : (n : ℕ) → 4 * n / 4 ≡ n
quarter_of n = omega arith

new_image_mchp_lem :
    (alloc : ℕ → Option ℕ) (x : Picture) (d p : ℕ)
    → alloc (bytes_mchp x.width x.height d) ≡ some p
    → new_image_mchp alloc x.width x.height d ≡ some (picture_at mchp d x p)
unfolding new_image_mchp
new_image_mchp_lem alloc x d p e = rw (e, new_image_mchp) refl

new_image_YCrCb_lem :
    (alloc : ℕ → Option ℕ) (x : Picture) (p : ℕ)
    → alloc (bytes_YCrCb x.width x.height) ≡ some p
    → new_image_YCrCb alloc x.width x.height ≡ some (picture_at yv12 0 x p)
unfolding new_image_YCrCb
new_image_YCrCb_lem alloc x p e = rw (e, new_image_YCrCb) refl

-- Both conversions where there is room for the new pictures.
YCrCb_to_multi_lem :
    (alloc : ℕ → Option ℕ) (x : Picture) (a b big : ℕ) (memory : Memory)
    → x.width ≡ 2 * a
    → x.height ≡ 2 * b
    → alloc (bytes_mchp x.width x.height 3) ≡ some big
    → 24 * (b * a) < 2 ^ 32
    → YCrCb_to_multi alloc x memory
      ≡ ok (some (picture_at mchp 3 x big), both_doubled x.pixels big big a b memory)
unfolding double YCrCb_to_multi
YCrCb_to_multi_lem alloc x a b big memory w h room small =
    rw (new_image_mchp_lem alloc x 3 big room, YCrCb_to_multi)
      (rw
        (
          w,
          h,
          product_of_halves a b,
          half_of a,
          half_of b,
          quarter_of (b * a),
          lt→ltb (6 * (4 * (b * a))) (2 ^ 32) (omega arith),
        )
        refl)

multi_to_YCrCb_lem :
    (alloc : ℕ → Option ℕ) (x : Picture) (a b src big dst : ℕ) (memory : Memory)
    → x.width ≡ 2 * a
    → x.height ≡ 2 * b
    → alloc (bytes_YCrCb x.width x.height) ≡ some dst
    → 24 * (b * a) < 2 ^ 32
    → multi_to_YCrCb alloc (picture_at mchp 3 x big) (both_doubled src big dst a b memory)
      ≡ ok (some (picture_at yv12 0 x dst), both_halved src big dst a b memory)
unfolding halve multi_to_YCrCb
multi_to_YCrCb_lem alloc x a b src big dst memory w h room small =
    rw (new_image_YCrCb_lem alloc (picture_at mchp 3 x big) dst room, multi_to_YCrCb)
      (rw
        (
          w,
          h,
          product_of_halves a b,
          half_of b,
          quarter_of (b * a),
          lt→ltb (2 * (4 * (b * a))) (2 ^ 31) (omega arith),
        )
        refl)

-- A YCrCb picture converted to a multi channel picture, and that one back.
abbrev pub convert_back : (ℕ → Option ℕ) → Outcome Converted → Outcome Converted
convert_back alloc fault = fault
convert_back alloc (ok (none, memory)) = ok (none, memory)
convert_back alloc (ok (some y, memory)) = multi_to_YCrCb alloc y memory

abbrev pub there_and_back : (ℕ → Option ℕ) → (ℕ → Option ℕ) → Picture → Memory → Outcome Converted
there_and_back alloc alloc' x memory = convert_back alloc' (YCrCb_to_multi alloc x memory)

abbrev pub Restored : Picture → ℕ → ℕ → ℕ → Memory → Outcome Converted → Type 0
Restored x dst a b before result =
    (after : Memory) × (result ≡ ok (some (picture_at yv12 0 x dst), after))
    × SamePlanes x.pixels dst a b before after

-- A YCrCb picture of even width and height that is converted to three channels of full size and back is
-- the picture that it was, in each of its planes, where its pixels times 6 are less than 2^32. There is room
-- for both packets, the first one's data overlaps neither the source's nor the second one's, and the picture
-- holds no pixel -32768.
pub YCrCb_to_multi-multi_to_YCrCb :
    (alloc alloc' : ℕ → Option ℕ) (x : Picture) (a b big dst : ℕ) (memory : Memory)
    → x.width ≡ 2 * a
    → x.height ≡ 2 * b
    → alloc (bytes_mchp x.width x.height 3) ≡ some big
    → alloc' (bytes_YCrCb x.width x.height) ≡ some dst
    → 6 * (x.width * x.height) < 2 ^ 32
    → ((k : ℕ) → k < 6 * (b * a) → IsClamped (memory (x.pixels + k)))
    → IsDisjoint x.pixels (6 * (b * a)) big (12 * (b * a))
    → IsDisjoint big (12 * (b * a)) dst (6 * (b * a))
    → Restored x dst a b memory (there_and_back alloc alloc' x memory)
YCrCb_to_multi-multi_to_YCrCb alloc alloc' x a b big dst memory w h room room' small all away back =
    let count : 24 * (b * a) < 2 ^ 32 =
      omega (arith, product_of_halves a b, ap (λ t. t * x.height) w, ap (λ t. 2 * a * t) h) in
    let result : there_and_back alloc alloc' x memory
        ≡ ok (some (picture_at yv12 0 x dst), both_halved x.pixels big dst a b memory) =
      ap (convert_back alloc') (YCrCb_to_multi_lem alloc x a b big memory w h room count)
      ∙ multi_to_YCrCb_lem alloc' x a b x.pixels big dst memory w h room' count in
    (
      both_halved x.pixels big dst a b memory,
      result,
      both_halved-SamePlanes x.pixels big dst a b memory all away back,
    )
