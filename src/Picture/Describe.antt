-- ===== src/Picture/Describe.antt =====
-- The text that describes a picture, system/type/pdp_image.c, and the dimensions that are read from it.
-- `sprintf` and `sscanf` of the dimensions are parameters.
use pdp.Base.{
  ℕ, ◌≡◌, ◌≢◌, ne→==, refl, ap, arith, ◌⊎◌, inl, inr, true, ◌==◌, if◌then◌else◌, Option, none, some,
  List, [], ◌∷◌, ◌++◌, Outcome, ok, fault,
}
use pdp.Picture.{Picture, yv12, grey, mchp, image_type, image_isvalid}

-- `"/%dx%d"` and `"/%dx%dx%d"` behind the slash, and `sscanf` with `"%dx%dx%d"` and
-- with `"%dx%d"` into words of 0.
pub record Formats : Type 0 where
  pub print_two : ℕ → ℕ → List ℕ
  pub print_three : ℕ → ℕ → ℕ → List ℕ
  pub scan : List ℕ → ℕ × ℕ × ℕ
  pub scan_two : List ℕ → ℕ × ℕ

abbrev pub image_name : List ℕ
image_name = b'i' ∷ b'm' ∷ b'a' ∷ b'g' ∷ b'e' ∷ b'/' ∷ []

-- The switch on the encoding; without one the text ends.
abbrev pub encoding_name : ℕ → Option (List ℕ)
encoding_name e =
    if e == yv12
    then some (b'Y' ∷ b'C' ∷ b'r' ∷ b'C' ∷ b'b' ∷ [])
    else if e == grey
    then some (b'g' ∷ b'r' ∷ b'e' ∷ b'y' ∷ [])
    else if e == mchp
    then some (b'm' ∷ b'u' ∷ b'l' ∷ b't' ∷ b'i' ∷ [])
    else none

abbrev pub dimensions_text : Formats → Picture → List ℕ
dimensions_text f x =
    if x.encoding == mchp
    then f.print_three x.width x.height x.depth
    else f.print_two x.width x.height

-- The name of `pdp_packet_image_get_description`, of a packet with the description that it has already.
unfoldable pub image_get_description : Formats → Option (Option (List ℕ) × Picture) → List ℕ
image_get_description f none = b'i' ∷ b'n' ∷ b'v' ∷ b'a' ∷ b'l' ∷ b'i' ∷ b'd' ∷ []
image_get_description f (some (some desc, x)) = desc
image_get_description f (some (none, x)) =
    if x.type == image_type
    then elim (encoding_name x.encoding) [
      | none ↦ image_name ++ (b'u' ∷ b'n' ∷ b'k' ∷ b'n' ∷ b'o' ∷ b'w' ∷ b'n' ∷ [])
      | some name ↦ image_name ++ (name ++ (b'/' ∷ dimensions_text f x))
    ]
    else b'u' ∷ b'n' ∷ b'k' ∷ b'n' ∷ b'o' ∷ b'w' ∷ b'n' ∷ []

-- `while (*c++ != '/')`, which leaves the text where there is no slash.
unfoldable pub behind_slash : List ℕ → Outcome (List ℕ)
behind_slash [] = fault
behind_slash (c ∷ cs) = let rest = behind_slash cs in if c == b'/' then ok cs else rest

-- `_pdp_description_get_dims`
unfoldable pub get_dims : Formats → List ℕ → Outcome (ℕ × ℕ × ℕ)
get_dims f text = elim (behind_slash text) [
  | fault ↦ fault
  | ok c ↦ elim (behind_slash c) [ fault ↦ fault | ok c' ↦ ok (f.scan c') ]
]

-- `sscanf` reads what `sprintf` wrote; two dimensions leave the third word 0.
abbrev pub IsReadBack : Formats → Type 0
IsReadBack f =
    ((w h : ℕ) → f.scan (f.print_two w h) ≡ (w, h, 0))
    × ((w h d : ℕ) → f.scan (f.print_three w h d) ≡ (w, h, d))

abbrev pub dims_of : Picture → ℕ × ℕ × ℕ
dims_of x = if x.encoding == mchp then (x.width, x.height, x.depth) else (x.width, x.height, 0)

two_dimensions :
    (f : Formats) (x : Picture)
    → x.encoding ≢ mchp
    → dimensions_text f x ≡ f.print_two x.width x.height
two_dimensions f x other = rw (ne→== x.encoding mchp other) refl

three_dimensions :
    (f : Formats) (x : Picture)
    → x.encoding ≡ mchp
    → dimensions_text f x ≡ f.print_three x.width x.height x.depth
three_dimensions f x e = rw e refl

-- The dimensions that `_pdp_description_get_dims` reads from the text that
-- `pdp_packet_image_get_description` makes for a valid picture without a description are those of the
-- picture, with a depth only where it has several channels. `sscanf` reads what `sprintf` wrote.
pub get_dims-image_get_description :
    (f : Formats) (x : Picture)
    → IsReadBack f
    → image_isvalid (some x) ≡ true
    → get_dims f (image_get_description f (some (none, x))) ≡ ok (dims_of x)
unfolding get_dims image_get_description behind_slash image_isvalid
get_dims-image_get_description f x back valid =
    let is_image : x.type ≡ image_type = ground arith in
    let known : (x.encoding ≡ yv12) ⊎ ((x.encoding ≡ grey) ⊎ (x.encoding ≡ mchp)) = ground arith in
    elim known [
      | inl e ↦
          rw (is_image, e) (rw (two_dimensions f x (omega arith)) (ap ok (back.0 x.width x.height)))
      | inr (inl e) ↦
          rw (is_image, e) (rw (two_dimensions f x (omega arith)) (ap ok (back.0 x.width x.height)))
      | inr (inr e) ↦
          rw (is_image, e) (rw (three_dimensions f x e) (ap ok (back.1 x.width x.height x.depth)))
    ]
