-- ===== src/Silo/Extractor.antt =====
-- `runExtractorChild` of internal/silo/extractor.go: the arguments of the child process, and what
-- becomes of its output; and the limits that the child sets for itself.
use bloem_community_crowquil.Prelude.{
  ℕ, ◌+◌, ◌^◌, Bytes, List, [], ◌∷◌, Option, none, some, Result, ok, err, length, codes, ltb, Bool,
  true, false, ◌*◌, if◌then◌else◌,
}
use bloem_community_crowquil.Prelude.Strconv.{format_int}
use bloem_community_crowquil.Archive.Errors.{Error, other}
use bloem_community_crowquil.Archive.Limits.{Limits}
use bloem_community_crowquil.Archive.Pages.{Page}

-- `exec.Cmd` for this program: `read_all` is `io.ReadAll` of an `io.LimitReader` on the child's output,
-- and `unmarshal` is `json.Unmarshal` into a list of pages.
pub record Process (S : Type 0) : Type 0 where
  pub stdout_pipe : S → S × Option Error
  pub start : S → List Bytes → S × Option Error
  pub read_all : S → ℕ → S × Bytes × Option Error
  pub kill : S → S
  pub wait : S → S × Option Error
  pub unmarshal : Bytes → Option (List Page)

abbrev pub max_result_bytes : ℕ
max_result_bytes = 2 ^ 20

-- The two errors that are made here.
abbrev pub result_too_large : Error
result_too_large = other 0

abbrev pub decode_failed : Error
decode_failed = other 1

unfoldable pub extract_arguments : Bytes → Bytes → Limits → List Bytes
extract_arguments input_path output_dir limits =
    codes "extract"
    ∷ codes "--input"
    ∷ input_path
    ∷ codes "--output"
    ∷ output_dir
    ∷ codes "--max-entries"
    ∷ format_int limits.max_entries
    ∷ codes "--max-page-bytes"
    ∷ format_int limits.max_page_bytes
    ∷ codes "--max-total-bytes"
    ∷ format_int limits.max_total_bytes
    ∷ codes "--max-archive-bytes"
    ∷ format_int limits.max_archive_bytes
    ∷ codes "--max-dictionary-bytes"
    ∷ format_int limits.max_dictionary_bytes
    ∷ []

pub data Resource : Type 0 where
  address_space core_size : Resource

-- `ApplyExtractionResourceLimits` of internal/silo/resource_limits_linux.go: the soft and the hard
-- limit are one.
unfoldable pub apply_extraction_resource_limits :
    {S : Type 0} → (S → Resource → ℕ → S × Bool) → S → S × Bool
apply_extraction_resource_limits set_limit s =
    let (s1, limited) = set_limit s address_space (2 * 2 ^ 30) in
    if limited then set_limit s1 core_size 0 else (s1, false)

module _ {S : Type 0} (p : Process S) where
  -- The tests behind the end of the child, in the source's order.
  unfoldable pub judge_result :
      Bool → Option Error → Option Error → Bytes → Result Error (List Page)
  judge_result too_large (some e) wait_error output = err e
  judge_result true none wait_error output = err result_too_large
  judge_result false none (some e) output = err e
  judge_result false none none output = elim (p.unmarshal output) [
    | none ↦ err decode_failed
    | some pages ↦ ok pages
  ]

  unfoldable pub await_child : S → S × Result Error (List Page)
  await_child s =
      let (s1, output, read_error) = p.read_all s (max_result_bytes + 1) in
      let too_large = ltb max_result_bytes (length output) in
      let (s2, wait_error) = p.wait (if too_large then p.kill s1 else s1) in
      (s2, judge_result too_large read_error wait_error output)

  unfoldable pub run_extractor_child : S → Bytes → Bytes → Limits → S × Result Error (List Page)
  run_extractor_child s input_path output_dir limits =
      let (s1, piped) = p.stdout_pipe s in
      elim piped [
        | some e ↦ (s1, err e)
        | none ↦
            let (s2, started) = p.start s1 (extract_arguments input_path output_dir limits) in
            elim started [ some e ↦ (s2, err e) | none ↦ await_child s2 ]
      ]
