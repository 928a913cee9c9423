-- ===== src/Archive/Inspect.antt =====
-- `inspectImage` of internal/archive/archive.go. The file, `http.DetectContentType` and the image
-- libraries are parameters.
pub mod Accepted
use bloem_community_crowquil.Prelude.{
  ℕ, ◌+◌, ◌-◌, ◌*◌, ◌/◌, ◌%◌, Bool, true, false, ◌&&◌, ◌||◌, not, Bytes, List, [], ◌∷◌, Option,
  none, some, Result, ok, err, length, get_elem?, take, drop, codes, bytes_eq, has_prefix, ltb,
  ◌==◌, if◌then◌else◌,
}
use bloem_community_crowquil.Prelude.Int.{ℤ}
use bloem_community_crowquil.Archive.Errors.{
  ArchiveError, Error, sentinel, invalid_image, unsupported_image_type,
}
use bloem_community_crowquil.Archive.Image.{check_image_dimensions}
use bloem_community_crowquil.Archive.Formats.{image_name, image_media_type}

pub record ImageConfig : Type 0 where
  pub width : ℤ
  pub height : ℤ
  pub format : Bytes

-- What the operations on the opened file answer. `read_header` opens it and reads at most 512 bytes, an
-- end of the file being no error; `decode_config` and `decode` begin at its start, each after a seek.
pub record ImageFile (S : Type 0) : Type 0 where
  pub check_context : S → S × Option Error
  pub read_header : S → Bytes → S × Result Error Bytes
  pub rewind : S → S × Option Error
  pub decode_config : S → S × Result Error ImageConfig
  pub decode : S → S × Option Error

-- What the libraries decide on texts and errors. `is_no_image` is `image.ErrFormat` or `io.EOF`.
pub record ImageTexts : Type 0 where
  pub to_lower : Bytes → Bytes
  pub extension : Bytes → Bytes
  pub content_type : Bytes → Bytes
  pub is_no_image : Error → Bool

byte_or_zero : Option ℕ → ℕ
byte_or_zero none = 0
byte_or_zero (some b) = b

-- The animation flag of an extended WebP header.
unfoldable pub is_animated : Bytes → Bool
unfolding byte_or_zero
is_animated header =
    ltb 20 (length header)
    && bytes_eq (take 4 header) (codes "RIFF")
    && bytes_eq (take 8 (drop 8 header)) (codes "WEBPVP8X")
    && not ((byte_or_zero (get_elem? header 20) / 2) % 2 == 0)

unfoldable pub is_image_candidate : ImageTexts → Bytes → Bytes → Bool
is_image_candidate t name header =
    image_name t.to_lower t.extension name || has_prefix (t.content_type header) (codes "image/")

module _ {S : Type 0} (f : ImageFile S) (t : ImageTexts) where
  -- From the second seek on: the full decoding.
  unfoldable pub decode_fully : S → Bytes → S × Result Error (Option Bytes)
  decode_fully s media_type =
      let (s1, failed) = f.rewind s in
      elim failed [
        | some e ↦ (s1, err e)
        | none ↦
            let (s2, decode_error) = f.decode s1 in
            let (s3, done) = f.check_context s2 in
            elim done [
              | some e ↦ (s3, err e)
              | none ↦ elim decode_error [
                | some e ↦ (s3, err (sentinel invalid_image))
                | none ↦ (s3, ok (some media_type))
              ]
            ]
      ]

  -- What follows a configuration that could be decoded.
  unfoldable pub accept_config : S → ImageConfig → S × Result Error (Option Bytes)
  accept_config s config = elim (image_media_type t.to_lower config.format) [
    | none ↦ (s, err (sentinel unsupported_image_type))
    | some media_type ↦ elim (check_image_dimensions config.width config.height) [
      | some e ↦ (s, err (sentinel e))
      | none ↦ decode_fully s media_type
    ]
  ]

  -- What follows a configuration that could not be decoded: no image, or an invalid one.
  unfoldable pub refuse_config : S → Bool → Error → S × Result Error (Option Bytes)
  refuse_config s candidate decode_error =
      let (s', done) = f.check_context s in
      elim done [
        | some e ↦ (s', err e)
        | none ↦
            if not candidate && t.is_no_image decode_error
            then (s', ok none)
            else (s', err (sentinel invalid_image))
      ]

  unfoldable pub inspect_header : S → Bytes → Bytes → S × Result Error (Option Bytes)
  inspect_header s name header =
      if is_animated header
      then (s, err (sentinel unsupported_image_type))
      else let (s1, failed) = f.rewind s in
        elim failed [
          | some e ↦ (s1, err e)
          | none ↦
              let (s2, config) = f.decode_config s1 in
              elim config [
                | err e ↦ refuse_config s2 (is_image_candidate t name header) e
                | ok config' ↦ accept_config s2 config'
              ]
        ]

  -- `none` where the entry is no image.
  unfoldable pub inspect_image : S → Bytes → Bytes → S × Result Error (Option Bytes)
  inspect_image s path name =
      let (s1, done) = f.check_context s in
      elim done [
        | some e ↦ (s1, err e)
        | none ↦
            let (s2, header) = f.read_header s1 path in
            elim header [ err e ↦ (s2, err e) | ok bytes ↦ inspect_header s2 name bytes ]
      ]
