-- ===== src/Main/Arguments.antt =====
-- Lemmas on the arguments of the extract command, between internal/silo/extractor.go and main.go.
use bloem_community_crowquil.Prelude.{
  ◌≡◌, refl, ◌∙◌, Bytes, List, [], ◌∷◌, none, some, codes, bytes_eq, drop, ℕ_discrete, arith,
}
use bloem_community_crowquil.Prelude.Int.{ℤ}
use bloem_community_crowquil.Prelude.Strconv.{format_int, parse_int}
use bloem_community_crowquil.Prelude.Strconv.Printed.{IsInt64, parse_int-format_int}
use bloem_community_crowquil.Archive.Limits.{Limits}
use bloem_community_crowquil.Silo.Extractor.{extract_arguments}
use bloem_community_crowquil.Main.Flags.{
  ExtractFlags, default_flags, set_flag, split_value, read_name, read_argument, parse_flags, named,
}

-- The values that Go's types for limits hold.
pub record AreInt64 (l : Limits) : Type 0 where
  pub entries : IsInt64 l.max_entries
  pub page : IsInt64 l.max_page_bytes
  pub total : IsInt64 l.max_total_bytes
  pub archive : IsInt64 l.max_archive_bytes
  pub dictionary : IsInt64 l.max_dictionary_bytes

-- A flag and its value, from the text of the flag on.
parse_flags-named :
    (arg name value : Bytes) (args : List Bytes) (f f' : ExtractFlags)
    → read_argument arg ≡ named name
    → set_flag name value f ≡ some f'
    → parse_flags (arg ∷ value ∷ args) none f ≡ parse_flags args none f'
unfolding parse_flags
parse_flags-named arg name value args f f' read set = ground (arith, read, set)

abbrev with_limits : ExtractFlags → Limits → ExtractFlags
with_limits f l = record f { limits = l }

-- The flags of the limits take printed numbers.
module _ (f : ExtractFlags) (n : ℤ) (bound : IsInt64 n) where
  abbrev read : parse_int (format_int n) ≡ some n
  read = parse_int-format_int n bound

  set_max_entries :
      set_flag (codes "max-entries") (format_int n) f
      ≡ some (with_limits f (record f.limits { max_entries = n }))
  unfolding set_flag bytes_eq ℕ_discrete
  set_max_entries = ground (arith, read)

  set_max_page_bytes :
      set_flag (codes "max-page-bytes") (format_int n) f
      ≡ some (with_limits f (record f.limits { max_page_bytes = n }))
  unfolding set_flag bytes_eq ℕ_discrete
  set_max_page_bytes = ground (arith, read)

  set_max_total_bytes :
      set_flag (codes "max-total-bytes") (format_int n) f
      ≡ some (with_limits f (record f.limits { max_total_bytes = n }))
  unfolding set_flag bytes_eq ℕ_discrete
  set_max_total_bytes = ground (arith, read)

  set_max_archive_bytes :
      set_flag (codes "max-archive-bytes") (format_int n) f
      ≡ some (with_limits f (record f.limits { max_archive_bytes = n }))
  unfolding set_flag bytes_eq ℕ_discrete
  set_max_archive_bytes = ground (arith, read)

  set_max_dictionary_bytes :
      set_flag (codes "max-dictionary-bytes") (format_int n) f
      ≡ some (with_limits f (record f.limits { max_dictionary_bytes = n }))
  unfolding set_flag bytes_eq ℕ_discrete
  set_max_dictionary_bytes = ground (arith, read)

set_input :
    (f : ExtractFlags) (value : Bytes)
    → set_flag (codes "input") value f ≡ some (record f { input_path = value })
unfolding set_flag bytes_eq ℕ_discrete
set_input f value = refl

set_output :
    (f : ExtractFlags) (value : Bytes)
    → set_flag (codes "output") value f ≡ some (record f { output_dir = value })
unfolding set_flag bytes_eq ℕ_discrete
set_output f value = refl

-- The arguments that are the program's own are read as the flags that they name.
abbrev IsNamed : Bytes → Type 0
IsNamed name = read_argument (b'-' ∷ b'-' ∷ name) ≡ named name

record AreRead : Type 0 where
  input : IsNamed (codes "input")
  output : IsNamed (codes "output")
  entries : IsNamed (codes "max-entries")
  page : IsNamed (codes "max-page-bytes")
  total : IsNamed (codes "max-total-bytes")
  archive : IsNamed (codes "max-archive-bytes")
  dictionary : IsNamed (codes "max-dictionary-bytes")

names_read : AreRead
unfolding read_argument read_name split_value
names_read = record {
  input = refl;
  output = refl;
  entries = refl;
  page = refl;
  total = refl;
  archive = refl;
  dictionary = refl;
}

-- The arguments that the parent gives to its child, behind the name of the command, are read as the
-- paths and the limits that they were made of, whatever bytes the paths hold, where the limits are
-- values of Go's integer types.
pub parse_flags-extract_arguments :
    (input_path output_dir : Bytes) (limits : Limits)
    → AreInt64 limits
    → parse_flags (drop 1 (extract_arguments input_path output_dir limits)) none default_flags
      ≡ some (record { input_path = input_path; output_dir = output_dir; limits = limits }, [])
unfolding extract_arguments default_flags parse_flags
parse_flags-extract_arguments input_path output_dir l h =
    parse_flags-named _ _ input_path _ _ _ names_read.input (set_input _ input_path)
    ∙ parse_flags-named _ _ output_dir _ _ _ names_read.output (set_output _ output_dir)
    ∙ parse_flags-named _ _ _ _ _ _ names_read.entries (set_max_entries _ l.max_entries h.entries)
    ∙ parse_flags-named _ _ _ _ _ _ names_read.page (set_max_page_bytes _ l.max_page_bytes h.page)
    ∙ parse_flags-named _ _ _ _ _ _ names_read.total
        (set_max_total_bytes _ l.max_total_bytes h.total)
    ∙ parse_flags-named _ _ _ _ _ _ names_read.archive
        (set_max_archive_bytes _ l.max_archive_bytes h.archive)
    ∙ parse_flags-named _ _ _ _ _ _ names_read.dictionary
        (set_max_dictionary_bytes _ l.max_dictionary_bytes h.dictionary)
