-- ===== src/Picture/Tests.antt =====
-- Small pictures, dispatched and converted.
use pdp.Base.{
  List, [], ◌∷◌, ℕ, ◌+◌, ◌-◌, ◌%◌, ◌≤◌, ◌<◌, ◌≡◌, refl, ap, ◌∙◌, sym, arith, inl, Option, some, pos,
  fault, shift_right, false, ◌==◌,
}
use pdp.Image.{Memory, pixel_count}
use pdp.Image.Kernels.{Gain, gain_process, amplified}
use pdp.Image.Pixels.{Combined, combine-Combined}
use pdp.Picture.{Picture, yv12, image_type, image_isvalid, new_image_YCrCb}
use pdp.Picture.Describe.{Formats}
use pdp.Picture.Factory.{IsFaithful, Remakes, image_factory-image_get_description}
use pdp.Picture.Dispatch.{Kernel, dispatch_1buf}
use pdp.Picture.Planes.{IsLocal, Dispatched, dispatch_1buf-Dispatched}
use pdp.Picture.Resample.{scale_signed, resample_YCrCb}
use pdp.Resize.Scale.{scale_bilin}
use pdp.Picture.RoundTrip.{Restored, there_and_back, YCrCb_to_multi-multi_to_YCrCb}

abbrev ramp : Memory
ramp a = pos (a % 1000)

abbrev fixed : ℕ → ℕ → Option ℕ
fixed p n = some p

abbrev small : Picture
small = record {
  type = image_type;
  encoding = yv12;
  width = 4;
  height = 2;
  depth = 0;
  chanmask = 5;
  pixels = 10;
}

abbrev louder : Gain
louder = record { factor = pos 512; shift = 8 }

abbrev amplify : Kernel
amplify = gain_process louder

amplify-Combined :
    (w h p : ℕ) (memory : Memory)
    → Combined (amplified louder) p p (pixel_count w h) memory (amplify w h p memory)
unfolding gain_process
amplify-Combined w h p memory =
    combine-Combined (amplified louder) p p (pixel_count w h) memory (inl refl)

amplify-at :
    (w h p : ℕ) (memory : Memory) (q : ℕ)
    → p ≤ q
    → q < p + pixel_count w h
    → amplify w h p memory q ≡ amplified louder (memory q) (memory q)
amplify-at w h p memory q a b =
    let e : q ≡ p + (q - p) = omega arith in
    ap (amplify w h p memory) e
    ∙ (amplify-Combined w h p memory).0 (q - p) (omega arith)
    ∙ ap (λ t. amplified louder (memory t) (memory t)) (sym e)

amplify-IsLocal : IsLocal amplify
amplify-IsLocal = (
  λ s memory q off. (amplify-Combined s.width s.height s.start memory).1 q off,
  λ s memory memory' q same inside.
      (amplify-at s.width s.height s.start memory q inside.0 inside.1
        ∙ ap (λ v. amplified louder v v) (same q inside)
        ∙ sym (amplify-at s.width s.height s.start memory' q inside.0 inside.1)),
)

dispatch_1buf-Dispatched_example :
    Dispatched amplify 7 small ramp (dispatch_1buf amplify 7 (some small) ramp)
unfolding image_isvalid
dispatch_1buf-Dispatched_example =
    dispatch_1buf-Dispatched amplify 7 small ramp amplify-IsLocal refl (omega arith) (omega arith)
      (omega arith)

YCrCb_to_multi-multi_to_YCrCb_example :
    Restored small 200 2 1 ramp (there_and_back (fixed 50) (fixed 200) small ramp)
YCrCb_to_multi-multi_to_YCrCb_example =
    YCrCb_to_multi-multi_to_YCrCb (fixed 50) (fixed 200) small 2 1 50 200 ramp refl refl refl refl
      (omega arith) (λ k h. omega arith) (inl (omega arith)) (inl (omega arith))

divides : resample_YCrCb (fixed 200) (pos 1) (pos 6) small ramp ≡ fault
unfolding resample_YCrCb new_image_YCrCb scale_signed scale_bilin shift_right
divides = refl

-- Dimensions written as single characters.
abbrev scan_characters : List ℕ → ℕ × ℕ × ℕ
scan_characters (w ∷ h ∷ d ∷ cs) = (w - 100, h - 100, d - 100)
scan_characters (w ∷ h ∷ []) = (w - 100, h - 100, 0)
scan_characters (w ∷ []) = (w - 100, 0, 0)
scan_characters [] = (0, 0, 0)

abbrev characters : Formats
characters = record {
  print_two = λ w h. (w + 100) ∷ (h + 100) ∷ [];
  print_three = λ w h d. (w + 100) ∷ (h + 100) ∷ (d + 100) ∷ [];
  scan = scan_characters;
  scan_two = λ cs. ((scan_characters cs).0, (scan_characters cs).1);
}

back_again : (n : ℕ) → n + 100 - 100 ≡ n
back_again n = omega arith

no_slash : (n : ℕ) → (n + 100 == b'/') ≡ false
no_slash n = ground arith

characters-IsFaithful : IsFaithful characters
characters-IsFaithful = record {
  two = λ w h. rw (back_again w, back_again h) refl;
  three = λ w h d. rw (back_again w, back_again h, back_again d) refl;
  two_plain = λ w h. (no_slash w, (no_slash h, tt));
  three_plain = λ w h d. (no_slash w, (no_slash h, (no_slash d, tt)));
}

image_factory-image_get_description_example : Remakes characters (fixed 50) 50
image_factory-image_get_description_example =
    image_factory-image_get_description characters (fixed 50) 50 characters-IsFaithful (λ n. refl)
