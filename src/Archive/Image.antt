-- ===== src/Archive/Image.antt =====
-- `checkImageDimensions` of internal/archive/archive.go.
use native.Mathlib.Nat.{le-div_iff_mul-le}
use bloem_community_crowquil.Prelude.{
  ℕ, zero, suc, ◌*◌, ◌/◌, ◌^◌, ◌≤◌, ◌<◌, ◌≡◌, ◌↔◌, ◌||◌, Option, none, some, arith, if◌then◌else◌,
}
use bloem_community_crowquil.Prelude.Int.{ℤ, pos, negsuc, pos_part, ◌≤ℤ◌, ltb_ℤ, leb_ℤ}
use bloem_community_crowquil.Archive.Errors.{ArchiveError, invalid_image, image_too_large}

abbrev pub max_image_pixels : ℕ
max_image_pixels = 64 * 2 ^ 20

-- The division is by a positive height there.
unfoldable pub check_image_dimensions : ℤ → ℤ → Option ArchiveError
check_image_dimensions width height =
    if leb_ℤ width (pos 0) || leb_ℤ height (pos 0)
    then some invalid_image
    else if ltb_ℤ (pos (max_image_pixels / pos_part height)) width
    then some image_too_large
    else none

-- The quotient test accepts exactly the positive dimensions whose product is within the pixel
-- limit, and reports an image as too large exactly where positive dimensions have a larger product.
pub check_image_dimensions_iff :
    (width height : ℤ)
    → ((check_image_dimensions width height ≡ none) ↔ (
        (pos 1 ≤ℤ width)
        × (pos 1 ≤ℤ height)
        × (pos_part width * pos_part height ≤ max_image_pixels)))
      × ((check_image_dimensions width height ≡ some image_too_large) ↔ (
          (pos 1 ≤ℤ width)
          × (pos 1 ≤ℤ height)
          × (max_image_pixels < pos_part width * pos_part height)))
unfolding check_image_dimensions
check_image_dimensions_iff (negsuc w) height = ground arith
check_image_dimensions_iff (pos w) (negsuc h) = ground arith
check_image_dimensions_iff (pos w) (pos zero) = ground arith
check_image_dimensions_iff (pos w) (pos (suc h)) =
    let bound = le-div_iff_mul-le {k = suc h} {x = w} {y = max_image_pixels} (omega arith) in
    ground (arith, bound)
