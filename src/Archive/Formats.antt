-- ===== src/Archive/Formats.antt =====
-- `imageName` and `imageMediaType` of internal/archive/archive.go. `strings.ToLower` and `filepath.Ext`
-- are parameters.
use bloem_community_crowquil.Prelude.{
  Bool, false, ◌||◌, Bytes, List, [], ◌∷◌, Option, none, some, codes, bytes_eq, if◌then◌else◌,
}

is_among : Bytes → List Bytes → Bool
is_among s [] = false
is_among s (t ∷ ts) = bytes_eq s t || is_among s ts

abbrev pub image_extensions : List Bytes
image_extensions =
    codes ".png"
    ∷ codes ".jpg"
    ∷ codes ".jpeg"
    ∷ codes ".gif"
    ∷ codes ".webp"
    ∷ codes ".bmp"
    ∷ codes ".tif"
    ∷ codes ".tiff"
    ∷ codes ".avif"
    ∷ codes ".jxl"
    ∷ codes ".heic"
    ∷ codes ".heif"
    ∷ codes ".svg"
    ∷ []

unfoldable pub image_name : (Bytes → Bytes) → (Bytes → Bytes) → Bytes → Bool
unfolding is_among
image_name to_lower extension name = is_among (to_lower (extension name)) image_extensions

media_type_of : Bytes → Option Bytes
media_type_of format =
    if bytes_eq format (codes "png")
    then some (codes "image/png")
    else if bytes_eq format (codes "jpeg")
    then some (codes "image/jpeg")
    else if bytes_eq format (codes "gif")
    then some (codes "image/gif")
    else if bytes_eq format (codes "webp")
    then some (codes "image/webp")
    else none

unfoldable pub image_media_type : (Bytes → Bytes) → Bytes → Option Bytes
unfolding media_type_of
image_media_type to_lower format = media_type_of (to_lower format)
