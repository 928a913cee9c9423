-- ===== src/Archive/Entries/Bounds.antt =====
-- Lemmas on the budgets of `consumeEntry`, `extractZIP` and `extractRAR` of
-- internal/archive/archive.go.
use bloem_community_crowquil.Prelude.{
  ℕ, suc, ◌+◌, ◌≤◌, ◌≡◌, refl, Bytes, List, [], ◌∷◌, Option, none, some, Result, ok, err, length,
  arith, All, Option-cases, inl, inr, length-append,
}
use bloem_community_crowquil.Archive.Errors.{Error}
use bloem_community_crowquil.Archive.Readers.{World, IsReader, EntryLimits}
use bloem_community_crowquil.Archive.Readers.Copy.{copy_entry}
use bloem_community_crowquil.Archive.Readers.Copy.Termination.{copy_entry-exact}
use bloem_community_crowquil.Archive.Entries.{
  PageCandidate, Extraction, Disk, track, judge_copy, end_copy, copy_to, consume_entry,
  append_candidate,
}

-- The bytes of all candidates.
unfoldable pub sizes : List PageCandidate → ℕ
sizes [] = 0
sizes (c ∷ cs) = c.size + sizes cs

abbrev pub size_of : Option PageCandidate → ℕ
size_of none = 0
size_of (some c) = c.size

abbrev pub FitsPage : ℕ → Option PageCandidate → Type 0
FitsPage max none = Unit {0}
FitsPage max (some c) = c.size ≤ max

-- A processed entry took at least its candidate's bytes from the budget.
abbrev pub IsCharged : ℕ → ℕ → ℕ → Option PageCandidate → Type 0
IsCharged max total total' candidate = (total' + size_of candidate ≤ total) × FitsPage max candidate

module _ {S : Type 0} (w : World S) (d : Disk S) (reader : IsReader w) (max : ℕ) where
  judge_copy-IsCharged :
      (x : Extraction S) (name path : Bytes) (total size : ℕ) (candidate : Option PageCandidate)
      → (judge_copy w d max x name path total size).1 ≡ ok candidate
      → ((judge_copy w d max x name path total size).0.1 ≡ total) × (size_of candidate ≤ size)
  unfolding judge_copy
  judge_copy-IsCharged x name path total size none h = ground arith
  judge_copy-IsCharged x name path total size (some c) h = ground arith

  end_copy-IsCharged :
      (x : Extraction S) (name path : Bytes) (total : ℕ) (o : (S × EntryLimits) × Result Error ℕ)
      (candidate : Option PageCandidate)
      → copy_entry w (suc max) x.files (record { page_remaining = max; total_remaining = total }) 0
        ≡ some o
      → (end_copy w d max x name path o).1 ≡ ok candidate
      → IsCharged max total (end_copy w d max x name path o).0.1 candidate
  unfolding end_copy
  end_copy-IsCharged x name path total ((s, r), err e) candidate copied h = absurd (ground arith)
  end_copy-IsCharged x name path total ((s, r), ok size) candidate copied h =
      let (page, whole) =
        copy_entry-exact w reader (suc max) x.files
          (record { page_remaining = max; total_remaining = total }) 0 s r size copied in
      let (left, small) =
        judge_copy-IsCharged (record x { files = s }) name path r.total_remaining size candidate
          h in
      (omega (arith, left, small, whole), fits candidate (omega (arith, small, page)))
    where
      fits : (c : Option PageCandidate) → size_of c ≤ max → FitsPage max c
      fits none b = tt
      fits (some c) b = b

  copy_to-IsCharged :
      (x : Extraction S) (name path : Bytes) (total : ℕ) (candidate : Option PageCandidate)
      → (copy_to w d max x name path total).1 ≡ ok candidate
      → IsCharged max total (copy_to w d max x name path total).0.1 candidate
  unfolding copy_to
  copy_to-IsCharged x name path total candidate h =
      elim (Option-cases (
        copy_entry w (suc max) x.files (record { page_remaining = max; total_remaining = total })
          0)) [
            | inl out ↦ absurd (ground arith)
            | inr (o, copied) ↦
                rw (copied, copy_to)
                  (end_copy-IsCharged x name path total o candidate copied
                    (ground (arith, copied, h)))
          ]

  pub consume_entry-IsCharged :
      (x : Extraction S) (name : Bytes) (total : ℕ) (candidate : Option PageCandidate)
      → (consume_entry w d max x name total).1 ≡ ok candidate
      → IsCharged max total (consume_entry w d max x name total).0.1 candidate
  unfolding consume_entry
  consume_entry-IsCharged x name total candidate h =
      let s = (w.check_context x.files).0 in
      elim (Option-cases (w.check_context x.files).1) [
        | inr (e, done) ↦ absurd (ground arith)
        | inl free ↦ elim (Option-cases (d.create_temp s).1) [
          | inl missing ↦ absurd (ground arith)
          | inr (path, made) ↦
              rw (free, made, consume_entry)
                (copy_to-IsCharged (track (record x { files = (d.create_temp s).0 }) path) name path
                  total candidate (ground (arith, free, made, h)))
        ]
      ]

sizes-append :
    (cs : List PageCandidate) (c : Option PageCandidate)
    → sizes (append_candidate cs c) ≡ sizes cs + size_of c
unfolding sizes
sizes-append [] none = refl
sizes-append [] (some c) = omega arith
sizes-append (x ∷ cs) none = omega arith
sizes-append (x ∷ cs) (some c) = omega (arith, sizes-append cs (some c))

length-append_candidate :
    (cs : List PageCandidate) (c : Option PageCandidate)
    → length (append_candidate cs c) ≤ length cs + 1
length-append_candidate cs none = omega arith
length-append_candidate cs (some c) = omega (arith, length-append cs (c ∷ []))

AllFit-append :
    (max : ℕ) (cs : List PageCandidate) (c : Option PageCandidate)
    → All (λ x. x.size ≤ max) cs
    → FitsPage max c
    → All (λ x. x.size ≤ max) (append_candidate cs c)
AllFit-append max cs none h f = h
AllFit-append max [] (some c) h f = (f, tt)
AllFit-append max (x ∷ cs) (some c) h f = (h.0, AllFit-append max cs (some c) h.1 f)

-- Candidates within the limits: at most as many as entries, each within the page limit, and all of them
-- together within what the total budget lost.
pub record IsWithin (max_entries max_page total left : ℕ) (cs : List PageCandidate) : Type 0 where
  pub few : length cs ≤ max_entries
  pub pages : All (λ x. x.size ≤ max_page) cs
  pub bytes : left + sizes cs ≤ total

pub IsWithin-append :
    (index max_page total left left' : ℕ) (cs : List PageCandidate) (c : Option PageCandidate)
    → IsWithin index max_page total left cs
    → IsCharged max_page left left' c
    → IsWithin (index + 1) max_page total left' (append_candidate cs c)
IsWithin-append index max_page total left left' cs c v h = record {
  few = let f = v.few in omega (arith, length-append_candidate cs c);
  pages = AllFit-append max_page cs c v.pages h.1;
  bytes = let b = v.bytes in let h0 = h.0 in omega (arith, sizes-append cs c);
}

pub IsWithin-more :
    {index max_page total left : ℕ} {cs : List PageCandidate} (more : ℕ)
    → index ≤ more
    → IsWithin index max_page total left cs
    → IsWithin more max_page total left cs
IsWithin-more more h v = record {
  few = let f = v.few in omega arith;
  pages = v.pages;
  bytes = v.bytes;
}
