-- ===== src/Archive/Inspect/Accepted.antt =====
-- The images that `inspectImage` of internal/archive/archive.go accepts.
use bloem_community_crowquil.Prelude.{
  ◌*◌, ◌≤◌, ◌≡◌, Bytes, none, some, ok, arith, Option-cases, Result-cases, inl, inr,
}
use bloem_community_crowquil.Prelude.Int.{pos, pos_part, ◌≤ℤ◌}
use bloem_community_crowquil.Archive.Image.{
  max_image_pixels, check_image_dimensions, check_image_dimensions_iff,
}
use bloem_community_crowquil.Archive.Formats.{image_media_type}
use bloem_community_crowquil.Archive.Inspect.{
  ImageConfig, ImageFile, ImageTexts, decode_fully, accept_config, refuse_config, inspect_header,
  inspect_image,
}

module _ {S : Type 0} (f : ImageFile S) (t : ImageTexts) where
  -- An image of a type that is served, within the pixel limit, which the file decodes to.
  pub record IsAccepted (media_type : Bytes) : Type 0 where
    pub config : ImageConfig
    pub before : S
    pub after : S
    pub decoded : (f.decode_config before).1 ≡ ok config
    pub served : image_media_type t.to_lower config.format ≡ some media_type
    pub wide : pos 1 ≤ℤ config.width
    pub high : pos 1 ≤ℤ config.height
    pub pixels : pos_part config.width * pos_part config.height ≤ max_image_pixels
    pub complete : (f.decode after).1 ≡ none

  decode_fully_complete :
      (s : S) (m m' : Bytes)
      → (decode_fully f t s m).1 ≡ ok (some m')
      → (m ≡ m') × ((f.decode (f.rewind s).0).1 ≡ none)
  unfolding decode_fully
  decode_fully_complete s m m' h = ground arith

  accept_config-IsAccepted :
      (before s : S) (config : ImageConfig) (m : Bytes)
      → (f.decode_config before).1 ≡ ok config
      → (accept_config f t s config).1 ≡ ok (some m)
      → IsAccepted m
  unfolding accept_config
  accept_config-IsAccepted before s config m read h =
      elim (Option-cases (image_media_type t.to_lower config.format)) [
        | inl missing ↦ absurd (ground arith)
        | inr (m', served) ↦
            elim (Option-cases (check_image_dimensions config.width config.height)) [
              | inr (e, refused) ↦ absurd (ground arith)
              | inl fine ↦
                  let (same, complete) = decode_fully_complete s m' m (ground arith) in
                  let (wide, high, pixels) =
                    (check_image_dimensions_iff config.width config.height).0.0 fine in
                  record {
                    config = config;
                    before = before;
                    after = (f.rewind s).0;
                    decoded = read;
                    served = ground (arith, served, same);
                    wide = wide;
                    high = high;
                    pixels = pixels;
                    complete = complete;
                  }
            ]
      ]

  inspect_header-IsAccepted :
      (s : S) (name header m : Bytes)
      → (inspect_header f t s name header).1 ≡ ok (some m)
      → IsAccepted m
  unfolding inspect_header refuse_config
  inspect_header-IsAccepted s name header m h =
      let s1 = (f.rewind s).0 in
      elim (Result-cases (f.decode_config s1).1) [
        | inl (e, refused) ↦ absurd (ground arith)
        | inr (config, read) ↦
            accept_config-IsAccepted s1 (f.decode_config s1).0 config m read (ground arith)
      ]

  -- An entry that the inspection accepts as an image was decoded to its end without an error, and
  -- its configuration was decoded to a format that is served under the media type returned, with
  -- positive dimensions whose product is within the pixel limit.
  pub inspect_image-IsAccepted :
      (s : S) (path name m : Bytes) → (inspect_image f t s path name).1 ≡ ok (some m) → IsAccepted m
  unfolding inspect_image
  inspect_image-IsAccepted s path name m h =
      let s1 = (f.check_context s).0 in
      elim (Result-cases (f.read_header s1 path).1) [
        | inl (e, failed) ↦ absurd (ground arith)
        | inr (header, read) ↦
            inspect_header-IsAccepted (f.read_header s1 path).0 name header m (ground arith)
      ]
