-- ===== src/Examples/Extract.antt =====
-- The extraction of a small archive at concrete inputs.
use mathlib.Core.Path.{subst}
use mathlib.Core.List.{Perm}
use bloem_community_crowquil.Prelude.{
  ℕ, ◌≤◌, ◌≡◌, ◌≢◌, ◌⊎◌, refl, sym, bytes_eq_sound, Bool, true, false, not, Bytes, List, [], ◌∷◌,
  Option, none, some, Result, ok, err, length, take, drop, length-take, arith, ok-injective,
  Bool-cases, inl, inr, if◌then◌else◌, bytes_eq, codes, ℕ_discrete, has_prefix,
}
use bloem_community_crowquil.Prelude.Int.{pos}
use bloem_community_crowquil.Archive.Errors.{Error, eof, sentinel, invalid_output, corrupt_archive}
use bloem_community_crowquil.Archive.Limits.{Limits, normalize_limits, with_defaults, check_limits}
use bloem_community_crowquil.Archive.Image.{check_image_dimensions}
use bloem_community_crowquil.Archive.Readers.{World, IsReader, entry_read, probe_entry, take_entry}
use bloem_community_crowquil.Archive.Readers.Copy.{copy_entry, store_chunk, finish_copy}
use bloem_community_crowquil.Archive.Names.{
  natural_compare, compare_from, compare_runs, compare_bytes, by_number, run, after_run, trim_zeros,
}
use bloem_community_crowquil.Archive.Formats.{image_media_type}
use bloem_community_crowquil.Archive.Inspect.{
  ImageFile, ImageTexts, is_animated, decode_fully, accept_config, inspect_header, inspect_image,
}
use bloem_community_crowquil.Archive.Inspect.Accepted.{IsAccepted, inspect_image-IsAccepted}
use bloem_community_crowquil.Archive.Entries.{
  PageCandidate, Extraction, track, remove_all, cleanup, Disk, judge_copy, end_copy, copy_to,
  consume_entry, RarHeader, refuse_rar, rar_loop,
}
use bloem_community_crowquil.Archive.Entries.Rar.{rar_loop-ends}
use bloem_community_crowquil.Archive.Pages.{
  Page, present, missing, Output, insert, sort_candidates, write_pages, materialize_pages,
}
use bloem_community_crowquil.Archive.Pages.Sorted.{IsSorted, pages_from, materialize_pages-IsSorted}
use bloem_community_crowquil.Archive.Pages.Limits.{ArePages}
use bloem_community_crowquil.Archive.Extract.{
  Environment, check_input, detect_kind, validate_input, check_output, prepare_output_dir,
  detect_archive_kind, judge_signature, read_rar, extract_rar, extract_kind, extract_pages,
  with_cleanup, extract_validated, extract,
}
use bloem_community_crowquil.Archive.Readers.Copy.Quiet.{IsQuiet}
use bloem_community_crowquil.Archive.Entries.Tracked.{IsPlainDisk}
use bloem_community_crowquil.Archive.Pages.Tracked.{IsPlainOutput}
use bloem_community_crowquil.Archive.Extract.Bounds.{HasReaders, extract-ArePages}
use bloem_community_crowquil.Archive.Extract.Cleanup.{IsStuck, extract-IsClean}
use bloem_community_crowquil.Archive.Extract.Kept.{IsPlain}

-- The entries that the archive still has, what is unread of the one at hand, and the files on disk.
pub record Site : Type 0 where
  entries : List (Bytes × Bytes)
  unread : Bytes
  files : List Bytes

abbrev has_file : List Bytes → Bytes → Bool
has_file [] path = false
has_file (f ∷ fs) path = let rest = has_file fs path in if bytes_eq f path then true else rest

abbrev remove_file : List Bytes → Bytes → List Bytes
remove_file [] path = []
remove_file (f ∷ fs) path =
    let rest = remove_file fs path in if bytes_eq f path then rest else f ∷ rest

abbrev read_some : Site → ℕ → Site × Bytes × Option Error
read_some s n = elim s.unread [
  | [] ↦ (s, [], some eof)
  | b ∷ rest ↦ (record s { unread = drop n (b ∷ rest) }, take n (b ∷ rest), none)
]

abbrev entry_world : World Site
entry_world = record {
  check_context = λ s. (s, none);
  read = read_some;
  write = λ s got. (s, length got, none);
  close = λ s. (s, none);
}

abbrev next_entry : Site → Site × Result Error RarHeader
next_entry s = elim s.entries [
  | [] ↦ (s, err eof)
  | e ∷ rest ↦ (
    record s { entries = rest; unread = e.1 },
    ok (record { name = e.0; is_encrypted = false; is_link = false; is_dir = false }),
  )
]

abbrev disk : Disk Site
disk = record {
  create_temp = λ s. (record s { files = (0 ∷ s.unread) ∷ s.files }, some (0 ∷ s.unread));
  remove = λ s path. record s { files = remove_file s.files path };
  inspect = λ s path name. (s, ok (some (codes "image/png")));
}

-- The second page cannot be written.
abbrev output : Output Site
output = record {
  check_context = λ s. (s, none);
  lstat = λ s path. (s, if has_file s.files path then present else missing);
  rename = λ s old new.
      if bytes_eq new (2 ∷ [])
      then (s, some (sentinel corrupt_archive))
      else (record s { files = new ∷ remove_file s.files old }, none);
  page_path = λ n. n ∷ [];
}

abbrev pub environment : Environment Site
environment = record {
  check_context = λ s. (s, none);
  to_lower = λ name. name;
  lstat = λ s path. (
    s,
    some (record {
      is_regular = bytes_eq path (codes "in");
      is_dir = not (bytes_eq path (codes "in"));
      size = pos 90;
    }),
  );
  make_dir = λ s path. (s, true);
  open_input = λ s path. (s, true);
  read_signature = λ s. (s, 82 ∷ 97 ∷ 114 ∷ 33 ∷ 26 ∷ 7 ∷ 1 ∷ 0 ∷ [], none);
  open_zip = λ s path. (s, err eof);
  list_files = λ s input. (s, err eof);
  zip_entries = record { open_entry = λ s file. (s, err eof); close_entry = λ s file. (s, none) };
  open_rar = λ s path. (s, ok 90);
  start_rar = λ s limits. (s, ok entry_world);
  next_rar = next_entry;
  disk = disk;
  output = output;
}

read_some-at_most : (s : Site) (n : ℕ) → length (read_some s n).1 ≤ n
read_some-at_most s n = at_most s.unread
  where
    at_most : (unread : Bytes) → length (read_some (record s { unread = unread }) n).1 ≤ n
    at_most [] = omega arith
    at_most (b ∷ rest) = omega (arith, length-take n (b ∷ rest))

reader : IsReader entry_world
reader = record { at_most = read_some-at_most }

readers : HasReaders environment
readers = record {
  zip_readers = record { reader = λ s file w h. absurd (ground arith) };
  rar_reader = λ s limits w h. subst IsReader (ok-injective h) reader;
}

remove_file-keeps :
    (fs : List Bytes) (path other : Bytes)
    → has_file (remove_file fs path) other ≡ true
    → has_file fs other ≡ true
remove_file-keeps [] path other h = h
remove_file-keeps (f ∷ fs) path other h =
    let rest = remove_file-keeps fs path other in
    elim (Bool-cases (bytes_eq f other)) [
      | inl equal ↦ ground (arith, equal)
      | inr different ↦ elim (Bool-cases (bytes_eq f path)) [
        | inl removed ↦ ground (arith, removed, different, rest, h)
        | inr kept ↦ ground (arith, kept, different, rest, h)
      ]
    ]

has_file-cons :
    (f : Bytes) (fs : List Bytes) (p : Bytes)
    → has_file (f ∷ fs) p ≡ true
    → (has_file fs p ≡ true) ⊎ (p ≡ f)
has_file-cons f fs p h = elim (Bool-cases (bytes_eq f p)) [
  | inl equal ↦ inr (sym (bytes_eq_sound f p equal))
  | inr different ↦ inl (ground (arith, different, h))
]

abbrev pub there : Site → Bytes → Bool
there s path = has_file s.files path

read_some-files : (s : Site) (n : ℕ) → (read_some s n).0.files ≡ s.files
read_some-files s n = files s.unread
  where
    files : (unread : Bytes) → (read_some (record s { unread = unread }) n).0.files ≡ s.files
    files [] = refl
    files (b ∷ rest) = refl

next_entry-files : (s : Site) → (next_entry s).0.files ≡ s.files
next_entry-files s = files s.entries
  where
    files :
        (entries : List (Bytes × Bytes))
        → (next_entry (record s { entries = entries })).0.files ≡ s.files
    files [] = refl
    files (e ∷ rest) = refl

quiet : IsQuiet there entry_world
quiet = record {
  check_context = λ s p h. h;
  read = λ s n p h. subst (λ fs. has_file fs p ≡ true) (read_some-files s n) h;
  write = λ s got p h. h;
  close = λ s p h. h;
}

plain_disk : IsPlainDisk there disk
plain_disk = record {
  create_temp = λ s path p made h. elim (has_file-cons (0 ∷ s.unread) s.files p h) [
    | inl old ↦ inl old
    | inr new ↦ inr (cc)
  ];
  no_temp = λ s h. absurd (ground arith);
  remove = λ s path p h. remove_file-keeps s.files path p h;
  inspect = λ s path name p h. h;
}

plain_output : (before : Site) → IsPlainOutput there before output
plain_output before = record {
  check_context = λ s p h. h;
  lstat = λ s path p h. h;
  renamed = λ s from to p h. elim (Bool-cases (bytes_eq to (2 ∷ []))) [
    | inl second ↦ inl (ground (arith, second, h))
    | inr other ↦ elim (has_file-cons to (remove_file s.files from) p (ground (arith, other, h))) [
      | inl old ↦ inl (remove_file-keeps s.files from p old)
      | inr new ↦ inr new
    ]
  ];
  not_renamed = λ s from to e failed p h. elim (Bool-cases (bytes_eq to (2 ∷ []))) [
    | inl second ↦ ground (arith, second, h)
    | inr other ↦ absurd (ground (arith, other, failed))
  ];
}

plain : IsPlain there environment
plain = record {
  check_context = λ s p h. h;
  lstat = λ s path p h. h;
  make_dir = λ s path p h. h;
  open_input = λ s path p h. h;
  read_signature = λ s p h. h;
  open_zip = λ s path p h. h;
  list_files = λ s input p h. h;
  zip_entries = record {
    open_entry = λ s file p h. h;
    entry = λ s file w h. absurd (ground arith);
    close_entry = λ s file p h. h;
  };
  open_rar = λ s path p h. h;
  start_rar = λ s limits p h. h;
  rar_world = λ s limits w h. subst (IsQuiet there) (ok-injective h) quiet;
  next_rar = λ s p h. subst (λ fs. has_file fs p ≡ true) (next_entry-files s) h;
  disk = plain_disk;
  output = plain_output;
}

abbrev pub limits : Limits
limits = record {
  max_entries = pos 2;
  max_page_bytes = pos 3;
  max_total_bytes = pos 6;
  max_archive_bytes = pos 100;
  max_dictionary_bytes = pos 100;
}

-- The names of both entries are out of order.
abbrev pub one_entry : Site
one_entry = record { entries = (codes "b", 5 ∷ 6 ∷ []) ∷ []; unread = []; files = [] }

abbrev two_entries : Site
two_entries = record {
  entries = (codes "b", 5 ∷ 6 ∷ []) ∷ (codes "a", 7 ∷ []) ∷ [];
  unread = [];
  files = (9 ∷ []) ∷ [];
}

abbrev pub page : Page
page = record { name = codes "b"; file = 1 ∷ []; size = 2; media_type = codes "image/png" }

pub extract_one :
    (extract environment (codes "in") (codes "out") limits one_entry).1 ≡ ok (page ∷ [])
unfolding extract extract_validated validate_input prepare_output_dir detect_archive_kind
    judge_signature detect_kind check_input check_output extract_pages extract_kind extract_rar
    read_rar with_cleanup rar_loop refuse_rar consume_entry copy_to end_copy judge_copy copy_entry
    entry_read probe_entry take_entry store_chunk finish_copy track materialize_pages
    sort_candidates insert write_pages natural_compare normalize_limits with_defaults check_limits
    bytes_eq has_prefix ℕ_discrete
extract_one = refl

extract-ArePages_example :
    (limits' : Limits) × (normalize_limits limits ≡ ok limits')
    × ArePages environment.to_lower limits' (page ∷ [])
extract-ArePages_example =
    extract-ArePages environment readers (codes "in") (codes "out") limits one_entry (page ∷ [])
      extract_one

extract_two :
    (extract environment (codes "in") (codes "out") limits two_entries).1
    ≡ err (sentinel invalid_output)
unfolding extract extract_validated validate_input prepare_output_dir detect_archive_kind
    judge_signature detect_kind check_input check_output extract_pages extract_kind extract_rar
    read_rar with_cleanup rar_loop refuse_rar consume_entry copy_to end_copy judge_copy copy_entry
    entry_read probe_entry take_entry store_chunk finish_copy track materialize_pages
    sort_candidates insert write_pages natural_compare normalize_limits with_defaults check_limits
    bytes_eq has_prefix ℕ_discrete compare_from compare_runs compare_bytes by_number run after_run
    trim_zeros
extract_two = refl

old_kept :
    there (extract environment (codes "in") (codes "out") limits two_entries).0.files (9 ∷ [])
    ≡ true
unfolding extract extract_validated validate_input prepare_output_dir detect_archive_kind
    judge_signature detect_kind check_input check_output extract_pages extract_kind extract_rar
    read_rar with_cleanup rar_loop refuse_rar consume_entry copy_to end_copy judge_copy copy_entry
    entry_read probe_entry take_entry store_chunk finish_copy track materialize_pages
    sort_candidates insert write_pages natural_compare normalize_limits with_defaults check_limits
    bytes_eq has_prefix ℕ_discrete compare_from compare_runs compare_bytes by_number run after_run
    trim_zeros cleanup remove_all
old_kept = refl

extract-IsClean_example :
    (there two_entries (9 ∷ []) ≡ true)
    ⊎ IsStuck environment there plain
        (extract environment (codes "in") (codes "out") limits two_entries).0.files
        (9 ∷ [])
extract-IsClean_example =
    extract-IsClean environment there plain (codes "in") (codes "out") limits two_entries
      (sentinel invalid_output) extract_two (9 ∷ []) old_kept

rar_loop-ends_example :
    rar_loop entry_world disk next_entry 2 3 3 0 (record { files = two_entries; created = [] }) 6 []
    ≢ none
rar_loop-ends_example =
    rar_loop-ends entry_world disk next_entry 2 3 3 0 (record { files = two_entries; created = [] })
      6 [] (omega arith) (omega arith)

abbrev candidate : PageCandidate
candidate = record {
  name = codes "b";
  temp_path = codes "t";
  size = 2;
  media_type = codes "image/png";
}

abbrev extraction : Extraction Site
extraction = record { files = one_entry; created = [] }

materialize_one :
    (materialize_pages output environment.to_lower (candidate ∷ []) extraction).1 ≡ ok (page ∷ [])
unfolding materialize_pages sort_candidates insert write_pages bytes_eq ℕ_discrete
materialize_one = refl

materialize_pages-IsSorted_example :
    (sorted : List PageCandidate) × Perm sorted (candidate ∷ [])
    × IsSorted environment.to_lower sorted
    × ((page ∷ []) ≡ pages_from output.page_path 0 sorted)
materialize_pages-IsSorted_example =
    materialize_pages-IsSorted output environment.to_lower (candidate ∷ []) extraction (page ∷ [])
      materialize_one

-- A file whose header says nothing, and which decodes as a picture of six pixels.
abbrev image_file : ImageFile Site
image_file = record {
  check_context = λ s. (s, none);
  read_header = λ s path. (s, ok (137 ∷ 80 ∷ []));
  rewind = λ s. (s, none);
  decode_config = λ s. (s, ok (record { width = pos 2; height = pos 3; format = codes "png" }));
  decode = λ s. (s, none);
}

abbrev texts : ImageTexts
texts = record {
  to_lower = λ s. s;
  extension = λ s. s;
  content_type = λ s. s;
  is_no_image = λ e. true;
}

inspect_one :
    (inspect_image image_file texts one_entry (codes "t") (codes "b")).1
    ≡ ok (some (codes "image/png"))
unfolding inspect_image inspect_header is_animated accept_config decode_fully check_image_dimensions
    image_media_type bytes_eq ℕ_discrete
inspect_one = refl

inspect_image-IsAccepted_example : IsAccepted image_file texts (codes "image/png")
inspect_image-IsAccepted_example =
    inspect_image-IsAccepted image_file texts one_entry (codes "t") (codes "b") (codes "image/png")
      inspect_one
