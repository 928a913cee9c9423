-- ===== src/Archive/Pages.antt =====
-- `materializePages` of internal/archive/archive.go, with `sort.SliceStable` as a stable insertion
-- sort.
pub mod Sorted
pub mod Tracked
pub mod Limits
use bloem_community_crowquil.Prelude.{
  ℕ, suc, ◌+◌, Bytes, List, [], ◌∷◌, ◌++◌, Option, none, some, Result, ok, err,
}
use bloem_community_crowquil.Archive.Errors.{Error, sentinel, output_collision, invalid_output}
use bloem_community_crowquil.Archive.Names.{Three, less, same, greater, natural_compare}
use bloem_community_crowquil.Archive.Entries.{PageCandidate, Extraction, track}

pub record Page : Type 0 where
  pub name : Bytes
  pub file : Bytes
  pub size : ℕ
  pub media_type : Bytes

pub data Presence : Type 0 where
  present missing unknown : Presence

-- `os.Lstat` and `os.Rename`, and the path of the page with a number in the output directory.
pub record Output (S : Type 0) : Type 0 where
  pub check_context : S → S × Option Error
  pub lstat : S → Bytes → S × Presence
  pub rename : S → Bytes → Bytes → S × Option Error
  pub page_path : ℕ → Bytes

module _ (to_lower : Bytes → Bytes) where
  -- Before the first candidate that is not smaller.
  unfoldable pub insert : PageCandidate → List PageCandidate → List PageCandidate
  insert c [] = c ∷ []
  insert c (x ∷ xs) =
      let rest = insert c xs in
      elim (natural_compare to_lower x.name c.name) [
        | less ↦ x ∷ rest
        | same ↦ c ∷ x ∷ xs
        | greater ↦ c ∷ x ∷ xs
      ]

  unfoldable pub sort_candidates : List PageCandidate → List PageCandidate
  unfolding insert
  sort_candidates [] = []
  sort_candidates (c ∷ cs) = insert c (sort_candidates cs)

abbrev pub page_of : Bytes → PageCandidate → Page
page_of path c = record { name = c.name; file = path; size = c.size; media_type = c.media_type }

module _ {S : Type 0} (out : Output S) where
  -- The loop over the sorted candidates, from an index on.
  unfoldable pub write_pages :
      ℕ → List PageCandidate → Extraction S → List Page → Extraction S × Result Error (List Page)
  write_pages index [] x pages = (x, ok pages)
  write_pages index (c ∷ cs) x pages =
      let path = out.page_path (index + 1) in
      let (s, done) = out.check_context x.files in
      elim done [
        | some e ↦ (record x { files = s }, err e)
        | none ↦
            let (s1, found) = out.lstat s path in
            elim found [
              | present ↦ (record x { files = s1 }, err (sentinel output_collision))
              | unknown ↦ (record x { files = s1 }, err (sentinel invalid_output))
              | missing ↦
                  let (s2, failed) = out.rename s1 c.temp_path path in
                  elim failed [
                    | some e ↦ (record x { files = s2 }, err (sentinel invalid_output))
                    | none ↦
                        write_pages (index + 1) cs (track (record x { files = s2 }) path)
                          (pages ++ page_of path c ∷ [])
                  ]
            ]
      ]

  unfoldable pub materialize_pages :
      (Bytes → Bytes) → List PageCandidate → Extraction S → Extraction S × Result Error (List Page)
  materialize_pages to_lower candidates x = write_pages 0 (sort_candidates to_lower candidates) x []
