-- ===== src/Examples/Archive.antt =====
-- The extraction's limits, errors, image test and readers at concrete inputs.
use bloem_community_crowquil.Prelude.{
  ℕ, zero, suc, ◌*◌, ◌≤◌, ◌<◌, ◌≡◌, ◌↔◌, Bytes, [], ◌∷◌, Option, none, some, Result, length, take,
  drop, length-take, arith, refl, sym, ap, ◌++◌, take-append-drop, take_all,
}
use bloem_community_crowquil.Prelude.Int.{pos, ◌≤ℤ◌}
use bloem_community_crowquil.Archive.Errors.{Error, eof, image_too_large}
use bloem_community_crowquil.Archive.Limits.{Limits}
use bloem_community_crowquil.Archive.Image.{
  check_image_dimensions, check_image_dimensions_iff, max_image_pixels,
}
use bloem_community_crowquil.Archive.Readers.{World, IsReader, MakesProgress, EntryLimits}
use bloem_community_crowquil.Archive.Readers.Copy.{copy_entry}
use bloem_community_crowquil.Archive.Readers.Copy.Contents.{Streams}
use bloem_community_crowquil.Archive.Readers.Copy.Written.{IsWritten, copy_entry-IsWritten}
use bloem_community_crowquil.Archive.Readers.Copy.Termination.{IsCopied, copy_entry-IsCopied}

-- A reader of a byte string, whose state is what it has not returned yet.
abbrev read_bytes : Bytes → ℕ → Bytes × Bytes × Option Error
read_bytes [] n = ([], [], some eof)
read_bytes (b ∷ s) n = (drop n (b ∷ s), take n (b ∷ s), none)

abbrev world : World Bytes
world = record {
  check_context = λ s. (s, none);
  read = read_bytes;
  write = λ s got. (s, length got, none);
  close = λ s. (s, none);
}

read_bytes-at_most : (s : Bytes) (n : ℕ) → length (read_bytes s n).1 ≤ n
read_bytes-at_most [] n = omega arith
read_bytes-at_most (b ∷ s) n = omega (arith, length-take n (b ∷ s))

read_bytes-advances :
    (s : Bytes) (n : ℕ) → 0 < n → (read_bytes s n).2 ≡ none → 0 < length (read_bytes s n).1
read_bytes-advances [] n positive h = cc
read_bytes-advances (b ∷ s) zero positive h = omega arith
read_bytes-advances (b ∷ s) (suc n) positive h = omega arith

reader : IsReader world
reader = record { at_most = read_bytes-at_most }

progress : MakesProgress world
progress = record { advances = read_bytes-advances }

abbrev budgets : EntryLimits
budgets = record { page_remaining = 3; total_remaining = 7 }

abbrev contents : Bytes
contents = 1 ∷ 2 ∷ 3 ∷ []

copy_entry-IsCopied_example :
    (o : (Bytes × EntryLimits) × Result Error ℕ) × (copy_entry world 4 contents budgets 0 ≡ some o)
    × IsCopied budgets o
copy_entry-IsCopied_example =
    copy_entry-IsCopied world reader progress 4 contents budgets (omega arith)

-- The same reader beside a file that grows.
abbrev copying : World (Bytes × Bytes)
copying = record {
  check_context = λ s. (s, none);
  read = λ s n. (((read_bytes s.0 n).0, s.1), (read_bytes s.0 n).1, (read_bytes s.0 n).2);
  write = λ s got. ((s.0, s.1 ++ got), length got, none);
  close = λ s. (s, none);
}

read_bytes-from : (s : Bytes) (n : ℕ) → s ≡ (read_bytes s n).1 ++ (read_bytes s n).0
read_bytes-from [] n = refl
read_bytes-from (b ∷ s) n = sym (take-append-drop n (b ∷ s))

read_bytes-ended : (s : Bytes) (n : ℕ) → (read_bytes s n).2 ≡ some eof → (read_bytes s n).0 ≡ []
read_bytes-ended [] n h = refl
read_bytes-ended (b ∷ s) n h = cc

streams : Streams copying (λ s. s.0) (λ s. s.1)
streams = record {
  context_source = λ s. refl;
  context_stored = λ s. refl;
  context_error = λ s h. cc;
  read_source = λ s n. read_bytes-from s.0 n;
  read_stored = λ s n. refl;
  read_end = λ s n h. read_bytes-ended s.0 n h;
  write_source = λ s chunk. refl;
  write_stored = λ s chunk. ap (◌++◌ s.1) (sym (take_all (length chunk) chunk (omega arith)));
  close_source = λ s. refl;
  close_stored = λ s. refl;
}

copy_entry-IsWritten_example :
    (o : ((Bytes × Bytes) × EntryLimits) × Result Error ℕ) × (copy_entry copying 4
        (contents, 9 ∷ [])
        budgets
        0
      ≡ some o)
    × IsWritten copying (λ s. s.0) (λ s. s.1) streams (contents, 9 ∷ []) o
copy_entry-IsWritten_example =
    copy_entry-IsWritten copying (λ s. s.0) (λ s. s.1) streams
      (record { at_most = λ s n. read_bytes-at_most s.0 n })
      (record { advances = λ s n positive h. read_bytes-advances s.0 n positive h }) 4
      (contents, 9 ∷ []) budgets (omega arith)

abbrev unset : Limits
unset = record {
  max_entries = pos 0;
  max_page_bytes = pos 0;
  max_total_bytes = pos 0;
  max_archive_bytes = pos 0;
  max_dictionary_bytes = pos 0;
}

check_image_dimensions_iff_example :
    ((check_image_dimensions (pos 8192) (pos 8193) ≡ none)
      ↔ ((pos 1 ≤ℤ pos 8192) × (pos 1 ≤ℤ pos 8193) × (8192 * 8193 ≤ max_image_pixels)))
    × ((check_image_dimensions (pos 8192) (pos 8193) ≡ some image_too_large)
        ↔ ((pos 1 ≤ℤ pos 8192) × (pos 1 ≤ℤ pos 8193) × (max_image_pixels < 8192 * 8193)))
check_image_dimensions_iff_example = check_image_dimensions_iff (pos 8192) (pos 8193)
