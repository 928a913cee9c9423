-- ===== src/Main.antt =====
-- main.go: the choice of a command, and `runExtractCommand`.
pub mod Flags
pub mod Arguments
pub mod Child
pub mod Configure
use bloem_community_crowquil.Prelude.{
  ℕ, Bool, true, false, not, ◌&&◌, Bytes, List, [], ◌∷◌, Option, none, some, Result, ok, err,
  length, codes, ◌==◌, bytes_eq, if◌then◌else◌,
}
use bloem_community_crowquil.Archive.Errors.{Error}
use bloem_community_crowquil.Archive.Limits.{Limits}
use bloem_community_crowquil.Archive.Pages.{Page}
use bloem_community_crowquil.Main.Flags.{ExtractFlags, default_flags, parse_flags}

-- What the extract command asks for: `ApplyExtractionResourceLimits`, `archive.Extract`, and a JSON
-- encoder on the standard output.
pub record ExtractSystem (S : Type 0) : Type 0 where
  pub apply_limits : S → S × Bool
  pub extract : S → Bytes → Bytes → Limits → S × Result Error (List Page)
  pub encode_pages : S → List Page → S × Bool

module _ {S : Type 0} (sys : ExtractSystem S) where
  -- Each command answers with its exit code.
  unfoldable pub run_extraction : S → ExtractFlags → S × ℕ
  run_extraction s f =
      let (s1, extracted) = sys.extract s f.input_path f.output_dir f.limits in
      elim extracted [
        | err e ↦ (s1, 1)
        | ok pages ↦ let (s2, written) = sys.encode_pages s1 pages in (s2, if written then 0 else 1)
      ]

  abbrev pub are_complete : ExtractFlags → List Bytes → Bool
  are_complete f rest =
      (length rest == 0) && not (length f.input_path == 0) && not (length f.output_dir == 0)

  unfoldable pub run_extract_command : S → List Bytes → S × ℕ
  run_extract_command s args =
      let (s1, limited) = sys.apply_limits s in
      if not limited then (s1, 1) else elim (parse_flags args none default_flags) [
        | none ↦ (s1, 2)
        | some (f, rest) ↦ if are_complete f rest then run_extraction s1 f else (s1, 2)
      ]

-- What the rest of `main` asks for: the embedded manifest and its text, the standard output, and the
-- plugin library's server, with the backend that is made before it and closed behind it.
pub record Plugin (S Manifest : Type 0) : Type 0 where
  pub manifest : Option Manifest
  pub marshal : Manifest → Option Bytes
  pub print_line : S → Bytes → S
  pub serve : S → Manifest → S

module _ {S Manifest : Type 0} (sys : ExtractSystem S) (plugin : Plugin S Manifest) where
  unfoldable pub run_manifest_command : S → Manifest → S × ℕ
  run_manifest_command s manifest = elim (plugin.marshal manifest) [
    | none ↦ (s, 1)
    | some text ↦ (plugin.print_line s text, 0)
  ]

  unfoldable pub with_manifest : S → List Bytes → S × ℕ
  with_manifest s args = elim plugin.manifest [
    | none ↦ (s, 1)
    | some manifest ↦ elim args [
      | [] ↦ (plugin.serve s manifest, 0)
      | command ∷ rest ↦
          if bytes_eq command (codes "manifest")
          then run_manifest_command s manifest
          else (plugin.serve s manifest, 0)
    ]
  ]

  -- `main` on the arguments behind the program's name.
  unfoldable pub main : S → List Bytes → S × ℕ
  main s [] = with_manifest s []
  main s (command ∷ args) =
      if bytes_eq command (codes "extract")
      then run_extract_command sys s args
      else with_manifest s (command ∷ args)
