-- ===== src/Plasma.antt =====
-- The plasma image of system/image/pdp_imageproc_common.c, painted by subdivision. A state is the memory and
-- how many random numbers have been drawn; `random` gives the numbers after the seed. The coordinates are `int`s,
-- and so are the offsets of pixels: `plasma_process` gives nothing where the pixels of the image are more than an
-- `int` counts, and within such an image no offset of a part overflows.
pub mod Ends
mod Tests
use pdp.Base.{
  ℕ, zero, suc, ◌+◌, ◌-◌, ◌*◌, ◌/◌, ◌%◌, ◌^◌, ◌≤◌, Bool, true, false, ltb, if◌then◌else◌, Option,
  none, some, ℤ, pos, negsuc, ltb_ℤ, wrap, shift_right,
}
use pdp.Image.{Memory, store, add32, mul32}

abbrev pub State : Type 0
State = Memory × ℕ

-- `_rand_s16` and `_new_color`
abbrev pub rand_s16 : (ℕ → ℕ) → ℕ → ℤ
rand_s16 random drawn = wrap 16 (pos (random drawn))

-- The macro `CLAMP16` has its argument three times, and the argument draws a number each time: one that is
-- compared with the upper bound, one that is compared with the lower bound, and one that makes the value.
unfoldable pub new_color : (ℕ → ℕ) → ℤ → ℤ → ℤ → ℕ → ℤ × ℕ
new_color random one two scale drawn =
    let color : ℕ → ℤ = λ n.
      add32 (add32 (shift_right one 1) (shift_right two 1))
        (shift_right (mul32 scale (rand_s16 random n)) 16) in
    if ltb_ℤ (pos 32767) (color drawn)
    then (pos 32767, drawn + 1)
    else if ltb_ℤ (color (drawn + 1)) (negsuc 32766)
    then (negsuc 32766, drawn + 2)
    else (wrap 16 (color (drawn + 2)), drawn + 3)

-- A pixel coloured between two others.
unfoldable pub paint : (ℕ → ℕ) → ℤ → ℕ → ℕ → ℕ → State → State
paint random scale p a b s =
    let color = new_color random (s.0 a) (s.0 b) scale s.1 in (store s.0 p color.0, color.1)

abbrev pub paint_if : Bool → (ℕ → ℕ) → ℤ → ℕ → ℕ → ℕ → State → State
paint_if true random scale p a b s = paint random scale p a b s
paint_if false random scale p a b s = s

-- The centre pixel, between four others, the pair above and below first.
unfoldable pub paint_center : (ℕ → ℕ) → ℤ → ℕ → ℕ → ℕ → ℕ → ℕ → State → State
paint_center random scale p top bottom left right s =
    let one = new_color random (s.0 top) (s.0 bottom) scale s.1 in
    let two = new_color random (s.0 left) (s.0 right) scale one.1 in
    (store s.0 p (wrap 16 (add32 (shift_right one.0 1) (shift_right two.0 1))), two.1)

abbrev pub and_then : Option State → (State → Option State) → Option State
and_then none k = none
and_then (some s) k = k s

-- The width of the left segments, or the height of the top ones.
abbrev pub first_part : ℕ → ℕ
first_part n = (n - 1) / 2

-- The pixels that a subdivision in both directions colours, and those of one in one direction.
unfoldable pub paint_both : (ℕ → ℕ) → ℤ → ℕ → ℕ → ℕ → ℕ → Bool → Bool → State → State
paint_both random scale w h s image calc_left calc_top st =
    let topright = image + (w - 1) in
    let bottomleft = image + s * (h - 1) in
    let bottomright = image + (s * (h - 1) + (w - 1)) in
    let top = image + first_part w in
    let left = image + s * first_part h in
    let bottom = image + (s * (h - 1) + first_part w) in
    let right = image + ((w - 1) + s * first_part h) in
    let center = image + (s * first_part h + first_part w) in
    paint_center random scale center top bottom left right (
      paint random scale bottom bottomleft bottomright (
        paint random scale right topright bottomright (
          paint_if calc_left random scale left image bottomleft
            (paint_if calc_top random scale top image topright st))))

unfoldable pub paint_rows : (ℕ → ℕ) → ℤ → ℕ → ℕ → ℕ → ℕ → Bool → State → State
paint_rows random scale w h s image calc_left st =
    let bottomleft = image + s * (h - 1) in
    paint random scale (image + ((w - 1) + s * first_part h)) (image + (w - 1))
      (image + (s * (h - 1) + (w - 1)))
      (paint_if calc_left random scale (image + s * first_part h) image bottomleft st)

unfoldable pub paint_columns : (ℕ → ℕ) → ℤ → ℕ → ℕ → ℕ → ℕ → Bool → State → State
paint_columns random scale w h s image calc_top st =
    let bottomleft = image + s * (h - 1) in
    paint random scale (image + (s * (h - 1) + first_part w)) bottomleft
      (image + (s * (h - 1) + (w - 1)))
      (paint_if calc_top random scale (image + first_part w) image (image + (w - 1)) st)

-- `_plasma_subdiv`, with the depth that is left.
unfoldable pub plasma_subdiv : ℕ → (ℕ → ℕ) → ℤ → ℕ → ℕ → ℕ → ℕ → Bool → Bool → State → Option State
plasma_subdiv zero random scale w h s image calc_left calc_top st = none
plasma_subdiv (suc n) random scale w h s image calc_left calc_top st =
    let w0 = first_part w in
    let h0 = first_part h in
    let top = image + w0 in
    let left = image + s * h0 in
    let center = image + (s * h0 + w0) in
    elim (ltb 0 w0) [
      | true ↦ elim (ltb 0 h0) [
        | true ↦
            and_then
              (plasma_subdiv n random scale (w0 + 1) (h0 + 1) s image true true
                (paint_both random scale w h s image calc_left calc_top st))
              (λ st.
                and_then (plasma_subdiv n random scale (w - w0) (h0 + 1) s top false true st) (λ st.
                  and_then (plasma_subdiv n random scale (w0 + 1) (h - h0) s left true false st)
                    (λ st. plasma_subdiv n random scale (w - w0) (h - h0) s center false false st)))
        | false ↦
            and_then
              (plasma_subdiv n random scale (w0 + 1) h s image false true
                (paint_columns random scale w h s image calc_top st))
              (λ st. plasma_subdiv n random scale (w - w0) h s top false true st)
      ]
      | false ↦ elim (ltb 0 h0) [
        | true ↦
            and_then
              (plasma_subdiv n random scale w (h0 + 1) s image true false
                (paint_rows random scale w h s image calc_left st))
              (λ st. plasma_subdiv n random scale w (h - h0) s left true false st)
        | false ↦ some st
      ]
    ]

-- `pdp_imageproc_plasma_process`; the next seed is the number behind those that were drawn.
unfoldable pub plasma_process : (ℕ → ℕ) → ℤ → ℕ → ℕ → ℕ → Memory → Option State
plasma_process random scale width height image memory =
    let corner : ℕ → State → State = λ p s. (store s.0 p (rand_s16 random s.1), suc s.1) in
    let painted = plasma_subdiv (width + height) random scale width height width image true true (
      corner (image + (width * height - 1)) (
        corner (image + width * (height - 1))
          (corner (image + (width - 1)) (corner image (memory, 0))))) in
    if ltb (width * height) (2 ^ 31) then painted else none
