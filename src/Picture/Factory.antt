-- ===== src/Picture/Factory.antt =====
-- The factory of image packets, system/type/pdp_image.c: a picture made from the text of its type. Symbols are
-- their names, and `pdp_list_pop` of an empty list dereferences a null pointer.
use pdp.Base.{
  ℕ, ◌≡◌, refl, ap, false, ◌==◌, if◌then◌else◌, Option, none, some, List, [], ◌∷◌, Outcome, ok,
  fault,
}
use pdp.Symbol.{same_name}
use pdp.Symbol.Intern.{same_name_refl}
use pdp.Convert.{split_name}
use pdp.Picture.{
  Picture, yv12, grey, mchp, image_type, bytes_grey, bytes_YCrCb, bytes_mchp, new_image,
  new_image_grey, new_image_YCrCb, new_image_mchp,
}
use pdp.Picture.Describe.{Formats, image_get_description}

-- The encoding that a type names.
abbrev pub encoding_of : List ℕ → Option ℕ
encoding_of name =
    if same_name name (b'g' ∷ b'r' ∷ b'e' ∷ b'y' ∷ [])
    then some grey
    else if same_name name (b'Y' ∷ b'C' ∷ b'r' ∷ b'C' ∷ b'b' ∷ [])
    then some yv12
    else if same_name name (b'm' ∷ b'u' ∷ b'l' ∷ b't' ∷ b'i' ∷ [])
    then some mchp
    else none

-- The switch on the encoding, with the text of the dimensions.
unfoldable pub create_from : Formats → (ℕ → Option ℕ) → ℕ → List ℕ → Option Picture
create_from f alloc t text =
    if t == mchp
    then new_image_mchp alloc (f.scan text).0 (f.scan text).1 (f.scan text).2
    else new_image alloc t (f.scan_two text).0 (f.scan_two text).1

-- A picture of another type than the one asked for is deleted.
unfoldable pub if_exact : Formats → List ℕ → Option Picture → Option Picture
if_exact f type none = none
if_exact f type (some x) =
    if same_name type (image_get_description f (some (none, x))) then some x else none

-- `pdp_image_factory`
unfoldable pub image_factory : Formats → (ℕ → Option ℕ) → List ℕ → Outcome (Option Picture)
image_factory f alloc type = elim (split_name type).1 [
  | [] ↦ fault
  | name ∷ names ↦ elim (encoding_of name) [
    | none ↦ ok none
    | some t ↦ elim names [
      | [] ↦ fault
      | text ∷ more ↦ ok (if_exact f type (create_from f alloc t text))
    ]
  ]
]

abbrev pub NoSlash : List ℕ → Type 0
NoSlash [] = Unit {0}
NoSlash (c ∷ cs) = ((c == b'/') ≡ false) × NoSlash cs

-- `sscanf` reads what `sprintf` wrote, which has no slash.
pub record IsFaithful (f : Formats) : Type 0 where
  pub two : (w h : ℕ) → f.scan_two (f.print_two w h) ≡ (w, h)
  pub three : (w h d : ℕ) → f.scan (f.print_three w h d) ≡ (w, h, d)
  pub two_plain : (w h : ℕ) → NoSlash (f.print_two w h)
  pub three_plain : (w h d : ℕ) → NoSlash (f.print_three w h d)

split_plain : (cs : List ℕ) → NoSlash cs → split_name cs ≡ (cs, [])
unfolding split_name
split_plain [] h = refl
split_plain (c ∷ cs) h = rw (h.0, split_plain cs h.1) refl

-- A new picture.
abbrev pub fresh : ℕ → ℕ → ℕ → ℕ → ℕ → Picture
fresh e w h d p = record {
  type = image_type;
  encoding = e;
  width = w;
  height = h;
  depth = d;
  chanmask = 0;
  pixels = p;
}

exact_self :
    (f : Formats) (x : Picture)
    → if_exact f (image_get_description f (some (none, x))) (some x) ≡ some x
unfolding if_exact
exact_self f x = rw (same_name_refl (image_get_description f (some (none, x))), if_exact) refl

-- The factory makes a picture from the text that describes it.
abbrev pub IsRemade : Formats → (ℕ → Option ℕ) → Picture → Type 0
IsRemade f alloc x = image_factory f alloc (image_get_description f (some (none, x))) ≡ ok (some x)

module _ (f : Formats) (alloc : ℕ → Option ℕ) (p : ℕ) (i : IsFaithful f)
    (room : (n : ℕ) → alloc n ≡ some p) where
  new_image_grey_at : (w h : ℕ) → new_image_grey alloc w h ≡ some (fresh grey w h 0 p)
  unfolding new_image_grey
  new_image_grey_at w h = rw (room (bytes_grey w h), new_image_grey) refl

  new_image_YCrCb_room : (w h : ℕ) → new_image_YCrCb alloc w h ≡ some (fresh yv12 w h 0 p)
  unfolding new_image_YCrCb
  new_image_YCrCb_room w h = rw (room (bytes_YCrCb w h), new_image_YCrCb) refl

  new_image_mchp_at : (w h d : ℕ) → new_image_mchp alloc w h d ≡ some (fresh mchp w h d p)
  unfolding new_image_mchp
  new_image_mchp_at w h d = rw (room (bytes_mchp w h d), new_image_mchp) refl

  grey-IsRemade : (w h : ℕ) → IsRemade f alloc (fresh grey w h 0 p)
  unfolding image_factory image_get_description split_name same_name create_from new_image
  grey-IsRemade w h =
      rw (split_plain (f.print_two w h) (i.two_plain w h))
        (rw (i.two w h) (rw (new_image_grey_at w h) (ap ok (exact_self f (fresh grey w h 0 p)))))

  yv12-IsRemade : (w h : ℕ) → IsRemade f alloc (fresh yv12 w h 0 p)
  unfolding image_factory image_get_description split_name same_name create_from new_image
  yv12-IsRemade w h =
      rw (split_plain (f.print_two w h) (i.two_plain w h))
        (rw (i.two w h) (rw (new_image_YCrCb_room w h) (ap ok (exact_self f (fresh yv12 w h 0 p)))))

  mchp-IsRemade : (w h d : ℕ) → IsRemade f alloc (fresh mchp w h d p)
  unfolding image_factory image_get_description split_name same_name create_from new_image
  mchp-IsRemade w h d = rw (split_plain (f.print_three w h d) (i.three_plain w h d)) (
      rw (i.three w h d) (rw (new_image_mchp_at w h d) (ap ok (exact_self f (fresh mchp w h d p)))))

-- Whatever its size, and its depth where it has several channels.
abbrev pub Remakes : Formats → (ℕ → Option ℕ) → ℕ → Type 0
Remakes f alloc p =
    ((w h : ℕ) → IsRemade f alloc (fresh grey w h 0 p))
    × ((w h : ℕ) → IsRemade f alloc (fresh yv12 w h 0 p))
    × ((w h d : ℕ) → IsRemade f alloc (fresh mchp w h d p))

-- `pdp_image_factory`, given the text that `pdp_packet_image_get_description` makes for a new grey, YCrCb or
-- multi channel picture, makes that picture again, with the same encoding and dimensions, and does
-- not take its type for another one. `sscanf` reads what `sprintf` wrote, without a slash, and there
-- is room for the packet.
pub image_factory-image_get_description :
    (f : Formats) (alloc : ℕ → Option ℕ) (p : ℕ)
    → IsFaithful f
    → ((n : ℕ) → alloc n ≡ some p)
    → Remakes f alloc p
image_factory-image_get_description f alloc p i room =
    (grey-IsRemade f alloc p i room, yv12-IsRemade f alloc p i room, mchp-IsRemade f alloc p i room)
