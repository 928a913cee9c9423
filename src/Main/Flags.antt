-- ===== src/Main/Flags.antt =====
-- The flags of `runExtractCommand` of main.go, as Go's flag package reads them.
use bloem_community_crowquil.Prelude.{
  ℕ, not, ◌||◌, Bytes, List, [], ◌∷◌, Option, none, some, codes, ◌==◌, bytes_eq, if◌then◌else◌,
}
use bloem_community_crowquil.Prelude.Int.{ℤ, pos}
use bloem_community_crowquil.Prelude.Strconv.{parse_int}
use bloem_community_crowquil.Archive.Limits.{Limits}

-- The values of the flags.
pub record ExtractFlags : Type 0 where
  pub input_path : Bytes
  pub output_dir : Bytes
  pub limits : Limits

unfoldable pub default_flags : ExtractFlags
default_flags = record {
  input_path = [];
  output_dir = [];
  limits = record {
    max_entries = pos 0;
    max_page_bytes = pos 0;
    max_total_bytes = pos 0;
    max_archive_bytes = pos 0;
    max_dictionary_bytes = pos 0;
  };
}

abbrev with_int : Bytes → (ℤ → Limits) → ExtractFlags → Option ExtractFlags
with_int value set f = elim (parse_int value) [
  | none ↦ none
  | some n ↦ some (record f { limits = set n })
]

-- A flag that is not defined is an error, as is a number that does not parse.
unfoldable pub set_flag : Bytes → Bytes → ExtractFlags → Option ExtractFlags
set_flag name value f =
    if bytes_eq name (codes "input")
    then some (record f { input_path = value })
    else if bytes_eq name (codes "output")
    then some (record f { output_dir = value })
    else if bytes_eq name (codes "max-entries")
    then with_int value (λ n. record f.limits { max_entries = n }) f
    else if bytes_eq name (codes "max-page-bytes")
    then with_int value (λ n. record f.limits { max_page_bytes = n }) f
    else if bytes_eq name (codes "max-total-bytes")
    then with_int value (λ n. record f.limits { max_total_bytes = n }) f
    else if bytes_eq name (codes "max-archive-bytes")
    then with_int value (λ n. record f.limits { max_archive_bytes = n }) f
    else if bytes_eq name (codes "max-dictionary-bytes")
    then with_int value (λ n. record f.limits { max_dictionary_bytes = n }) f
    else none

-- How `parseOne` takes an argument: not as a flag, as the end of the flags, as a flag that its value
-- follows, or as one with its value.
pub data Argument : Type 0 where
  plain end_mark malformed : Argument
  named : Bytes → Argument
  with_value : Bytes → Bytes → Argument

-- The name before an equals sign, which is not its first byte, and the value behind it.
unfoldable pub split_value : Bytes → Bytes × Option Bytes
split_value [] = ([], none)
split_value (c ∷ s) =
    let (name, value) = split_value s in if c == b'=' then ([], some s) else (c ∷ name, value)

abbrev name_argument : ℕ → Bytes × Option Bytes → Argument
name_argument c (name, none) = named (c ∷ name)
name_argument c (name, some value) = with_value (c ∷ name) value

unfoldable pub read_name : Bytes → Argument
read_name [] = malformed
read_name (c ∷ s) = if c == b'-' || c == b'=' then malformed else name_argument c (split_value s)

unfoldable pub read_argument : Bytes → Argument
read_argument (c ∷ d ∷ []) =
    if not (c == b'-') then plain else if d == b'-' then end_mark else read_name (d ∷ [])
read_argument (c ∷ d ∷ e ∷ s) =
    if not (c == b'-')
    then plain
    else if d == b'-'
    then read_name (e ∷ s)
    else read_name (d ∷ e ∷ s)
read_argument _ = plain

-- `Parse`, with the name of the flag whose value comes next, if one waits for it: the flags and the
-- arguments that are left.
unfoldable pub parse_flags :
    List Bytes → Option Bytes → ExtractFlags → Option (ExtractFlags × List Bytes)
parse_flags [] none f = some (f, [])
parse_flags [] (some name) f = none
parse_flags (value ∷ args) (some name) f = elim (set_flag name value f) [
  | none ↦ none
  | some f' ↦ parse_flags args none f'
]
parse_flags (arg ∷ args) none f = elim (read_argument arg) [
  | plain ↦ some (f, arg ∷ args)
  | end_mark ↦ some (f, args)
  | malformed ↦ none
  | named name ↦ parse_flags args (some name) f
  | with_value name value ↦ elim (set_flag name value f) [
    | none ↦ none
    | some f' ↦ parse_flags args none f'
  ]
]
