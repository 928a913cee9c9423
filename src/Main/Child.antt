-- ===== src/Main/Child.antt =====
-- The extractor child: `runExtractorChild` of internal/silo/extractor.go over a process that runs
-- `main` of main.go on the arguments that it is given.
use bloem_community_crowquil.Prelude.{
  ℕ, ◌+◌, ◌≡◌, ◌≢◌, refl, ap, ◌∙◌, Bool, true, false, Bytes, List, [], ◌∷◌, ◌++◌, Option, none,
  some, Result, ok, err, codes, bytes_eq, take, length, length-take, take_all, map, ℕ_discrete, ltb,
  ◌==◌, arith, if◌then◌else◌, if_cases, Bool-cases, Result-cases, inl, inr,
}
use bloem_community_crowquil.Archive.Errors.{Error, other}
use bloem_community_crowquil.Archive.Limits.{Limits}
use bloem_community_crowquil.Archive.Entries.{Extraction}
use bloem_community_crowquil.Archive.Pages.{Page}
use bloem_community_crowquil.Archive.Extract.{Environment, extract}
use bloem_community_crowquil.Silo.Extractor.{
  Process, Resource, apply_extraction_resource_limits, max_result_bytes, result_too_large,
  judge_result, await_child, run_extractor_child, extract_arguments,
}
use bloem_community_crowquil.Main.{ExtractSystem, Plugin, run_extraction, run_extract_command, main}
use bloem_community_crowquil.Main.Flags.{ExtractFlags, default_flags, parse_flags}
use bloem_community_crowquil.Main.Arguments.{AreInt64, parse_flags-extract_arguments}

-- The world with what the child has written and its exit code.
pub record Child (S : Type 0) : Type 0 where
  pub files : S
  pub output : Bytes
  pub code : ℕ

abbrev pub exit_failed : Error
exit_failed = other 2

module _ {S Manifest : Type 0} (env : Environment S) (set_limit : S → Resource → ℕ → S × Bool)
    (encode : List Page → Bytes) (decode : Bytes → Option (List Page)) (utf8 : Bytes → Bytes)
    (plugin : Plugin (Child S) Manifest) where
  abbrev pub child_system : ExtractSystem (Child S)
  child_system = record {
    apply_limits = λ c.
        let (s, limited) = apply_extraction_resource_limits set_limit c.files in
        (record c { files = s }, limited);
    extract = λ c input_path output_dir limits.
        let (x, pages) = extract env input_path output_dir limits c.files in
        (record c { files = x.files }, pages);
    encode_pages = λ c pages. (record c { output = c.output ++ encode pages }, true);
  }

  -- A child writes to a pipe of its own, runs to its end, and is killed by its exit code.
  abbrev pub child_process : Process (Child S)
  child_process = record {
    stdout_pipe = λ c. (record c { output = [] }, none);
    start = λ c args.
        let (c', code) = main child_system plugin c args in (record c' { code = code }, none);
    read_all = λ c max. (c, take max c.output, none);
    kill = λ c. record c { code = 1 };
    wait = λ c. (c, if c.code == 0 then none else some exit_failed);
    unmarshal = decode;
  }

  -- A page whose texts were written as JSON, which replaces what is no UTF-8, and read again.
  abbrev pub as_text : Page → Page
  as_text page = record {
    name = utf8 page.name;
    file = utf8 page.file;
    size = page.size;
    media_type = utf8 page.media_type;
  }

  -- What the parent makes of the answer of an extraction.
  abbrev pub reported : Result Error (List Page) → Result Error (List Page)
  reported (err e) = err exit_failed
  reported (ok pages) =
      if ltb max_result_bytes (length (encode pages))
      then err result_too_large
      else ok (map as_text pages)

  -- Reading one byte more than the bound tells whether the output is within it.
  judge_result-take :
      (max : ℕ) (output : Bytes) (wait_error : Bool → Option Error)
      → judge_result child_process
          (ltb max (length (take (max + 1) output)))
          none
          (wait_error (ltb max (length (take (max + 1) output))))
          (take (max + 1) output)
        ≡ (if ltb max (length output)
            then err result_too_large
            else judge_result child_process false none (wait_error false) output)
  unfolding judge_result
  judge_result-take max output wait_error =
      let size = length-take (max + 1) output in
      elim (Bool-cases (ltb max (length output))) [
        | inl large ↦
            let cut : ltb max (length (take (max + 1) output)) ≡ true =
              ground (arith, large, size) in
            rw (large, cut) refl
        | inr small ↦
            let whole = take_all (max + 1) output (ground (arith, small)) in rw (whole, small) refl
      ]

  -- What the parent reads from a child that has ended.
  abbrev ended : Child S → Result Error (List Page)
  ended c =
      if ltb max_result_bytes (length c.output)
      then err result_too_large
      else judge_result child_process false none (if c.code == 0 then none else some exit_failed)
          c.output

  await_child-ended : (c : Child S) → (await_child child_process c).1 ≡ ended c
  unfolding await_child
  await_child-ended c = judge_result-take max_result_bytes c.output (λ large.
      if (if large then record c { code = 1 } else c).code == 0 then none else some exit_failed)

  await_child-files : (c : Child S) → (await_child child_process c).0.files ≡ c.files
  unfolding await_child
  await_child-files c =
      if_cases (λ (d : Child S). d.files ≡ c.files) _ (λ large. refl) (λ small. refl)

  abbrev start_child : Child S → List Bytes → Child S
  start_child c args = (child_process.start (child_process.stdout_pipe c).0 args).0

  run_extractor_child-eq-await_child :
      (c : Child S) (input_path output_dir : Bytes) (limits : Limits)
      → run_extractor_child child_process c input_path output_dir limits
        ≡ await_child child_process (start_child c (extract_arguments input_path output_dir limits))
  unfolding run_extractor_child
  run_extractor_child-eq-await_child c input_path output_dir limits = refl

  run_extract_command-eq-run_extraction :
      (c : Child S) (args : List Bytes) (f : ExtractFlags)
      → (child_system.apply_limits c).1 ≡ true
      → parse_flags args none default_flags ≡ some (f, [])
      → length f.input_path ≢ 0
      → length f.output_dir ≢ 0
      → run_extract_command child_system c args
        ≡ run_extraction child_system (child_system.apply_limits c).0 f
  unfolding run_extract_command
  run_extract_command-eq-run_extraction c args f limited parsed i o =
      ground (arith, limited, parsed, i, o)

  main_extract :
      (c : Child S) (args : List Bytes)
      → main child_system plugin c (codes "extract" ∷ args)
        ≡ run_extract_command child_system c args
  unfolding main bytes_eq ℕ_discrete
  main_extract c args = refl

  -- The child's command line leads to an extraction of what the parent asked for.
  main-extract_arguments :
      (c : Child S) (input_path output_dir : Bytes) (limits : Limits)
      → AreInt64 limits
      → length input_path ≢ 0
      → length output_dir ≢ 0
      → (child_system.apply_limits c).1 ≡ true
      → main child_system plugin c (extract_arguments input_path output_dir limits)
        ≡ run_extraction child_system
            (child_system.apply_limits c).0
            (record { input_path = input_path; output_dir = output_dir; limits = limits })
  unfolding extract_arguments
  main-extract_arguments c input_path output_dir limits bounds i o limited =
      main_extract c _
      ∙ run_extract_command-eq-run_extraction c _ _ limited
          (parse_flags-extract_arguments input_path output_dir limits bounds) i o

  abbrev exited : Child S × ℕ → Child S
  exited (c, code) = record c { code = code }

  module _ (c : Child S) (f : ExtractFlags) where
    abbrev outcome : Extraction S × Result Error (List Page)
    outcome = extract env f.input_path f.output_dir f.limits c.files

    abbrev behind : Bytes → Child S
    behind output = record { files = outcome.0.files; output = output; code = c.code }

    run_extraction-err :
        (e : Error) → outcome.1 ≡ err e → run_extraction child_system c f ≡ (behind c.output, 1)
    unfolding run_extraction
    run_extraction-err e failed = rw (failed, run_extraction) refl

    run_extraction-ok :
        (pages : List Page)
        → outcome.1 ≡ ok pages
        → run_extraction child_system c f ≡ (behind (c.output ++ encode pages), 0)
    unfolding run_extraction
    run_extraction-ok pages done = rw (done, run_extraction) refl

    -- An extraction in the child, over a JSON library that reads what it wrote, as text.
    run_extraction-ended :
        ((pages : List Page) → decode (encode pages) ≡ some (map as_text pages))
        → c.output ≡ []
        → (ended (exited (run_extraction child_system c f)) ≡ reported outcome.1)
          × ((exited (run_extraction child_system c f)).files ≡ outcome.0.files)
    unfolding judge_result
    run_extraction-ended round empty = elim (Result-cases outcome.1) [
      | inl (e, failed) ↦
          let run = run_extraction-err e failed in
          (
            rw (run, failed) (ap (λ out. ended (exited (behind out, 1))) empty),
            ap (λ r. (exited r).files) run,
          )
      | inr (pages, done) ↦
          let run = run_extraction-ok pages done in
          (
            rw (run, done)
                (ap (λ out. ended (exited (behind (out ++ encode pages), 0))) empty
                  ∙ rw (round pages) refl),
            ap (λ r. (exited r).files) run,
          )
    ]

  -- Where the limits are values of Go's integer types, the two paths are not empty, the JSON
  -- library reads the pages that it wrote with their texts as UTF-8, and the child can set its
  -- resource limits, what the parent makes of a child process is what an extraction answers to the
  -- paths and limits that the parent was given: its pages with their texts as UTF-8, where what was
  -- written of them is within the bound, and an error elsewhere; and the files are as that
  -- extraction left them.
  pub run_extractor_child-extract :
      (c : Child S) (input_path output_dir : Bytes) (limits : Limits)
      → AreInt64 limits
      → length input_path ≢ 0
      → length output_dir ≢ 0
      → ((pages : List Page) → decode (encode pages) ≡ some (map as_text pages))
      → (apply_extraction_resource_limits set_limit c.files).1 ≡ true
      → let (x, pages) =
          extract env input_path output_dir limits
            (apply_extraction_resource_limits set_limit c.files).0 in
        ((run_extractor_child child_process c input_path output_dir limits).1 ≡ reported pages)
        × ((run_extractor_child child_process c input_path output_dir limits).0.files ≡ x.files)
  run_extractor_child-extract c input_path output_dir limits bounds i o round limited =
      let piped : Child S = record c { output = [] } in
      let f : ExtractFlags = record {
        input_path = input_path;
        output_dir = output_dir;
        limits = limits;
      } in
      let awaited = run_extractor_child-eq-await_child c input_path output_dir limits in
      let run =
        ap exited (main-extract_arguments piped input_path output_dir limits bounds i o limited) in
      let (answer, files) = run_extraction-ended (child_system.apply_limits piped).0 f round refl in
      (
        ap (λ r. r.1) awaited ∙ await_child-ended _ ∙ ap ended run ∙ answer,
        ap (λ r. r.0.files) awaited
            ∙ await_child-files _
            ∙ ap (λ (d : Child S). d.files) run
            ∙ files,
      )
