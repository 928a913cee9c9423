-- ===== src/Archive/Pages/Limits.antt =====
-- Lemmas on the limits that the pages of `materializePages` of internal/archive/archive.go keep.
use bloem_community_crowquil.Prelude.{
  ℕ, suc, ◌+◌, ◌≤◌, ◌≡◌, ◌≢◌, refl, Bytes, List, [], ◌∷◌, length, All, arith,
}
use bloem_community_crowquil.Prelude.Int.{pos_part}
use bloem_community_crowquil.Archive.Limits.{Limits}
use bloem_community_crowquil.Archive.Names.{greater, natural_compare}
use bloem_community_crowquil.Archive.Entries.{PageCandidate}
use bloem_community_crowquil.Archive.Entries.Bounds.{sizes, IsWithin}
use bloem_community_crowquil.Archive.Pages.{Page, page_of, insert, sort_candidates}
use bloem_community_crowquil.Archive.Pages.Sorted.{
  insert_cases, IsBelow, IsSorted, sort_candidates-IsSorted, pages_from,
}

-- Sorting keeps the limits.
module _ (to_lower : Bytes → Bytes) where
  insert-sizes :
      (c : PageCandidate) (cs : List PageCandidate)
      → (sizes (insert to_lower c cs) ≡ c.size + sizes cs)
        × (length (insert to_lower c cs) ≡ suc (length cs))
  unfolding insert sizes
  insert-sizes c [] = (refl, refl)
  insert-sizes c (y ∷ cs) =
      let rest = insert-sizes c cs in
      insert_cases to_lower
        (λ l. (sizes l ≡ c.size + (y.size + sizes cs)) × (length l ≡ suc (suc (length cs)))) c y cs
        (λ h. (omega (arith, rest.0), omega (arith, rest.1))) (λ h. (refl, refl))

  insert-All :
      (max : ℕ) (c : PageCandidate) (cs : List PageCandidate)
      → c.size ≤ max
      → All (λ x. x.size ≤ max) cs
      → All (λ x. x.size ≤ max) (insert to_lower c cs)
  unfolding insert
  insert-All max c [] h v = (h, tt)
  insert-All max c (y ∷ cs) h v =
      let rest = insert-All max c cs h v.1 in
      insert_cases to_lower (All (λ x. x.size ≤ max)) c y cs (λ l. (v.0, rest)) (λ l. (h, v))

  sort_candidates-sizes :
      (cs : List PageCandidate)
      → (sizes (sort_candidates to_lower cs) ≡ sizes cs)
        × (length (sort_candidates to_lower cs) ≡ length cs)
  unfolding sort_candidates sizes
  sort_candidates-sizes [] = (refl, refl)
  sort_candidates-sizes (c ∷ cs) =
      let one = insert-sizes c (sort_candidates to_lower cs) in
      let rest = sort_candidates-sizes cs in
      (omega (arith, one.0, rest.0), omega (arith, one.1, rest.1))

  sort_candidates-All :
      (max : ℕ) (cs : List PageCandidate)
      → All (λ x. x.size ≤ max) cs
      → All (λ x. x.size ≤ max) (sort_candidates to_lower cs)
  unfolding sort_candidates
  sort_candidates-All max [] v = tt
  sort_candidates-All max (c ∷ cs) v =
      insert-All max c (sort_candidates to_lower cs) v.0 (sort_candidates-All max cs v.1)

unfoldable pub page_sizes : List Page → ℕ
page_sizes [] = 0
page_sizes (p ∷ ps) = p.size + page_sizes ps

abbrev pub IsBelowPages : (Bytes → Bytes) → Page → List Page → Type 0
IsBelowPages to_lower p [] = Unit {0}
IsBelowPages to_lower p (q ∷ ps) =
    (natural_compare to_lower p.name q.name ≢ greater) × IsBelowPages to_lower p ps

abbrev pub AreOrdered : (Bytes → Bytes) → List Page → Type 0
AreOrdered to_lower [] = Unit {0}
AreOrdered to_lower (p ∷ ps) = IsBelowPages to_lower p ps × AreOrdered to_lower ps

-- Pages within the limits, in the natural order of their names.
pub record ArePages (to_lower : Bytes → Bytes) (limits : Limits) (pages : List Page) : Type 0 where
  pub few : length pages ≤ pos_part limits.max_entries
  pub sizes : All (λ p. p.size ≤ pos_part limits.max_page_bytes) pages
  pub total : page_sizes pages ≤ pos_part limits.max_total_bytes
  pub ordered : AreOrdered to_lower pages

module _ (page_path : ℕ → Bytes) where
  pages_from-sizes :
      (index : ℕ) (cs : List PageCandidate)
      → (page_sizes (pages_from page_path index cs) ≡ sizes cs)
        × (length (pages_from page_path index cs) ≡ length cs)
  unfolding pages_from page_sizes sizes
  pages_from-sizes index [] = (refl, refl)
  pages_from-sizes index (c ∷ cs) =
      let rest = pages_from-sizes (index + 1) cs in (omega (arith, rest.0), omega (arith, rest.1))

  pages_from-All :
      (max index : ℕ) (cs : List PageCandidate)
      → All (λ x. x.size ≤ max) cs
      → All (λ p. p.size ≤ max) (pages_from page_path index cs)
  unfolding pages_from
  pages_from-All max index [] v = tt
  pages_from-All max index (c ∷ cs) v = (v.0, pages_from-All max (index + 1) cs v.1)

  pages_from-below :
      (to_lower : Bytes → Bytes) (index : ℕ) (p : Page) (c : PageCandidate)
      (cs : List PageCandidate)
      → p.name ≡ c.name
      → IsBelow to_lower c cs
      → IsBelowPages to_lower p (pages_from page_path index cs)
  unfolding pages_from
  pages_from-below to_lower index p c [] e b = tt
  pages_from-below to_lower index p c (x ∷ cs) e b =
      (λ g. b.0 (cc (e, g)), pages_from-below to_lower (index + 1) p c cs e b.1)

  pages_from-AreOrdered :
      (to_lower : Bytes → Bytes) (index : ℕ) (cs : List PageCandidate)
      → IsSorted to_lower cs
      → AreOrdered to_lower (pages_from page_path index cs)
  unfolding pages_from
  pages_from-AreOrdered to_lower index [] s = tt
  pages_from-AreOrdered to_lower index (c ∷ cs) s = (
    pages_from-below to_lower (index + 1) (page_of (page_path (index + 1)) c) c cs refl s.0,
    pages_from-AreOrdered to_lower (index + 1) cs s.1,
  )

pub ArePages-of :
    (to_lower : Bytes → Bytes) (page_path : ℕ → Bytes) (limits : Limits) (left : ℕ)
    (cs : List PageCandidate)
    → IsWithin
        (pos_part limits.max_entries)
        (pos_part limits.max_page_bytes)
        (pos_part limits.max_total_bytes)
        left
        cs
    → ArePages to_lower limits (pages_from page_path 0 (sort_candidates to_lower cs))
ArePages-of to_lower page_path limits left cs v =
    let sorted = sort_candidates to_lower cs in
    let same = sort_candidates-sizes to_lower cs in
    let pages = pages_from-sizes page_path 0 sorted in
    let few = v.few in
    let bytes = v.bytes in
    record {
      few = omega (arith, same.1, pages.1);
      sizes =
          pages_from-All page_path (pos_part limits.max_page_bytes) 0 sorted
            (sort_candidates-All to_lower (pos_part limits.max_page_bytes) cs v.pages);
      total = omega (arith, same.0, pages.0);
      ordered =
          pages_from-AreOrdered page_path to_lower 0 sorted (sort_candidates-IsSorted to_lower cs);
    }
