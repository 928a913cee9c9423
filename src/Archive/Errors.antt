-- ===== src/Archive/Errors.antt =====
-- The errors of internal/archive/archive.go, and how extraction classifies them. Wrapping an error by
-- `%w` keeps its identity, which is all that `errors.Is` and the model read.
use bloem_community_crowquil.Prelude.{
  ℕ, ◌≡◌, refl, ap, ◌⊎◌, inl, inr, Bool, true, false, Option, none, some,
}

pub data ArchiveError : Type 0 where
  invalid_limits invalid_input invalid_output unsupported_archive corrupt_archive : ArchiveError
  archive_too_large entry_limit_exceeded page_too_large total_bytes_exceeded : ArchiveError
  unsafe_entry encrypted_archive multi_volume_archive dictionary_too_large : ArchiveError
  invalid_image image_too_large unsupported_image_type output_collision : ArchiveError

-- The errors that reach this package: its own, the context's, those of the RAR reader that it knows,
-- and all others by a number.
pub data Error : Type 0 where
  sentinel : ArchiveError → Error
  canceled deadline_exceeded : Error
  rar_archive_encrypted rar_file_encrypted rar_multi_volume rar_dictionary_too_large : Error
  eof unexpected_eof short_write : Error
  other : ℕ → Error

-- `errors.Is(err, io.EOF)`.
abbrev pub is_eof : Error → Bool
is_eof eof = true
is_eof _ = false

-- The package errors that `normalizeArchiveError` passes on; the rest of them count as corruption.
normalize_sentinel : ArchiveError → ArchiveError
normalize_sentinel invalid_limits = corrupt_archive
normalize_sentinel output_collision = corrupt_archive
normalize_sentinel corrupt_archive = corrupt_archive
normalize_sentinel e = e

normalize_error : Error → Error
unfolding normalize_sentinel
normalize_error canceled = canceled
normalize_error deadline_exceeded = deadline_exceeded
normalize_error (sentinel e) = sentinel (normalize_sentinel e)
normalize_error rar_archive_encrypted = sentinel encrypted_archive
normalize_error rar_file_encrypted = sentinel encrypted_archive
normalize_error rar_multi_volume = sentinel multi_volume_archive
normalize_error rar_dictionary_too_large = sentinel dictionary_too_large
normalize_error _ = sentinel corrupt_archive

unfoldable pub normalize_archive_error : Option Error → Option Error
unfolding normalize_error
normalize_archive_error none = none
normalize_archive_error (some e) = some (normalize_error e)

-- What a caller of the extraction has to handle.
abbrev pub IsClassified : Error → Type 0
IsClassified e =
    (e ≡ canceled) ⊎ ((e ≡ deadline_exceeded) ⊎ ((a : ArchiveError) × (e ≡ sentinel a)))

normalize_error-IsClassified : (e : Error) → IsClassified (normalize_error e)
unfolding normalize_error
normalize_error-IsClassified canceled = inl refl
normalize_error-IsClassified deadline_exceeded = inr (inl refl)
normalize_error-IsClassified (sentinel a) = inr (inr (normalize_sentinel a, refl))
normalize_error-IsClassified rar_archive_encrypted = inr (inr (encrypted_archive, refl))
normalize_error-IsClassified rar_file_encrypted = inr (inr (encrypted_archive, refl))
normalize_error-IsClassified rar_multi_volume = inr (inr (multi_volume_archive, refl))
normalize_error-IsClassified rar_dictionary_too_large = inr (inr (dictionary_too_large, refl))
normalize_error-IsClassified _ = inr (inr (corrupt_archive, refl))

normalize_sentinel_twice :
    (a : ArchiveError) → normalize_sentinel (normalize_sentinel a) ≡ normalize_sentinel a
unfolding normalize_sentinel
normalize_sentinel_twice invalid_limits = refl
normalize_sentinel_twice _ = refl

normalize_error_twice : (e : Error) → normalize_error (normalize_error e) ≡ normalize_error e
unfolding normalize_error
normalize_error_twice canceled = refl
normalize_error_twice (sentinel a) = rw (normalize_sentinel_twice a)
normalize_error_twice _ = refl

-- No error stays none; an error becomes a context error or an error of the package, which a second
-- normalization leaves unchanged.
pub normalize_archive_error_lem :
    (e : Error)
    → (normalize_archive_error none ≡ none)
      × ((f : Error) × (normalize_archive_error (some e) ≡ some f)
          × IsClassified f
          × (normalize_archive_error (some f) ≡ some f))
unfolding normalize_archive_error
normalize_archive_error_lem e = (
  refl,
  (normalize_error e, refl, normalize_error-IsClassified e, ap some (normalize_error_twice e)),
)
