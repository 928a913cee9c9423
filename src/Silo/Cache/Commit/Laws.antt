-- ===== src/Silo/Cache/Commit/Laws.antt =====
-- Lemmas on the loop of `commit` of internal/silo/cache.go over the reported pages.
use bloem_community_crowquil.Prelude.{
  ◌≡◌, sym, ap, ◌∙◌, true, false, FilePath, List, [], ◌∷◌, ◌++◌, ok, ◌>>=◌, length, ◌==◌, arith,
  bind_inversion, ok-injective,
}
use mathlib.Core.Path.{subst}
use bloem_community_crowquil.Prelude.Int.{
  int_laws, +ℤ_zero, ℤ, pos, ◌+ℤ◌, ◌≤ℤ◌, +ℤ_assoc, +ℤ-pos_zero, one_le_sum, +ℤ_parts, -ℤ_parts,
}
use bloem_community_crowquil.Silo.Constants.{max_page_bytes, max_total_bytes}
use bloem_community_crowquil.Silo.Cache.State.{FileSystem, CachedPage, base}
use bloem_community_crowquil.Silo.Cache.Lookup.{is_intact}
use bloem_community_crowquil.Silo.Cache.Commit.{
  ReportedPage, valid_page_file, convert_page, convert_pages, path_of,
}

unfoldable pub pages_total : List CachedPage → ℤ
pages_total [] = pos 0
pages_total (page ∷ pages) = page.size +ℤ pages_total pages

-- A cached page is a reported one, found intact in the output directory.
pub record IsConverted (fs : FileSystem) (out : FilePath) (page : ReportedPage) (c : CachedPage)
    : Type 0 where
  pub name : c.name ≡ page.name
  pub size : c.size ≡ page.size
  pub media_type : c.media_type ≡ page.media_type
  pub file : c.file ≡ out ++ base (path_of page.file) ∷ []
  pub direct : valid_page_file out page.file ≡ true
  pub intact : is_intact (fs.stat (path_of page.file)) c.size ≡ true
  pub nonempty : pos 1 ≤ℤ c.size
  pub bounded : c.size ≤ℤ pos max_page_bytes

abbrev pub AreConverted : FileSystem → FilePath → List ReportedPage → List CachedPage → Type 0
AreConverted fs out [] [] = Unit {0}
AreConverted fs out (p ∷ ps) (c ∷ cs) = IsConverted fs out p c × AreConverted fs out ps cs
AreConverted fs out _ _ = ⊥

abbrev pub Converted : FileSystem → FilePath → ℤ → List ReportedPage → List CachedPage × ℤ → Type 0
Converted fs out total pages r =
    AreConverted fs out pages r.0
    × (r.1 ≡ total +ℤ pages_total r.0)
    × (total ≤ℤ pos max_total_bytes → r.1 ≤ℤ pos max_total_bytes)

module _ (fs : FileSystem) (out : FilePath) where
  convert_page-IsConverted :
      (total : ℤ) (page : ReportedPage) {c : CachedPage}
      → convert_page fs out total page ≡ ok c
      → IsConverted fs out page c
  unfolding convert_page
  convert_page-IsConverted total page h = ground arith

  convert_page-fits :
      (total : ℤ) (page : ReportedPage) {c : CachedPage}
      → convert_page fs out total page ≡ ok c
      → total +ℤ page.size ≤ℤ pos max_total_bytes
  unfolding convert_page
  convert_page-fits total page h =
      ground (arith, -ℤ_parts (pos max_total_bytes) page.size, +ℤ_parts total page.size)

  convert_pages-Converted :
      (total : ℤ) (pages : List ReportedPage) (r : List CachedPage × ℤ)
      → convert_pages fs out total pages ≡ ok r
      → Converted fs out total pages r
  unfolding convert_pages pages_total
  convert_pages-Converted total [] r h =
      subst (Converted fs out total []) (ok-injective h) (tt, sym (+ℤ-pos_zero total), λ b. b)
  convert_pages-Converted total (page ∷ pages) r h =
      let tail = convert_pages fs out (total +ℤ page.size) pages in
      let (c, first, h') =
        bind_inversion (convert_page fs out total page) (λ c. tail >>= λ t. ok (c ∷ t.0, t.1)) h in
      let (s, loop, last) = bind_inversion tail (λ t. ok (c ∷ t.0, t.1)) h' in
      let (rest, sum, bound) = convert_pages-Converted (total +ℤ page.size) pages s loop in
      let one = convert_page-IsConverted total page first in
      let here : Converted fs out total (page ∷ pages) (c ∷ s.0, s.1) = (
        (one, rest),
        sum
            ∙ (+ℤ_assoc total page.size (pages_total s.0)
                ∙ ap (λ (z : ℤ). total +ℤ (z +ℤ pages_total s.0)) (sym one.size)),
        λ b. bound (convert_page-fits total page first),
      ) in
      subst (Converted fs out total (page ∷ pages)) (ok-injective last) here

-- The pages that the loop over the reported pages accepts are the reported ones in their order,
-- each of them intact, directly in the output directory, not empty and no larger than a page may
-- be; the total that it returns is the sum of their sizes, and no more than an archive may hold.
pub convert_pages_sound :
    (fs : FileSystem) (out : FilePath) (pages : List ReportedPage) (conv : List CachedPage)
    (total : ℤ)
    → convert_pages fs out (pos 0) pages ≡ ok (conv, total)
    → AreConverted fs out pages conv × (total ≡ pages_total conv) × (total ≤ℤ pos max_total_bytes)
convert_pages_sound fs out pages conv total h =
    let (all, sum, bound) = convert_pages-Converted fs out (pos 0) pages (conv, total) h in
    (all, sum ∙ +ℤ_zero (pages_total conv), bound (omega int_laws))

pages_total-nonneg :
    (fs : FileSystem) (out : FilePath) (pages : List ReportedPage) (conv : List CachedPage)
    → AreConverted fs out pages conv
    → pos 0 ≤ℤ pages_total conv
unfolding pages_total
pages_total-nonneg fs out [] [] a = omega arith
pages_total-nonneg fs out (p ∷ ps) (c ∷ cs) a =
    let one =
      one_le_sum c.size (pages_total cs) a.0.nonempty (pages_total-nonneg fs out ps cs a.1) in
    omega arith
pages_total-nonneg fs out [] (c ∷ cs) a = absurd a
pages_total-nonneg fs out (p ∷ ps) [] a = absurd a

pub pages_total-pos :
    (fs : FileSystem) (out : FilePath) (pages : List ReportedPage) (conv : List CachedPage)
    → AreConverted fs out pages conv
    → (length pages == 0) ≡ false
    → pos 1 ≤ℤ pages_total conv
unfolding pages_total
pages_total-pos fs out [] conv a h = cc
pages_total-pos fs out (p ∷ ps) (c ∷ cs) a h =
    one_le_sum c.size (pages_total cs) a.0.nonempty (pages_total-nonneg fs out ps cs a.1)
pages_total-pos fs out (p ∷ ps) [] a h = absurd a
