-- ===== src/Archive/Pages/Sorted.antt =====
-- Lemmas on the order of the pages that `materializePages` of internal/archive/archive.go returns.
use mathlib.Core.List.Perm
use mathlib.Core.List.{Perm}
use bloem_community_crowquil.Prelude.{
  ℕ, ◌+◌, ◌≡◌, ◌≢◌, refl, sym, ◌∙◌, Bytes, List, [], ◌∷◌, ◌++◌, append_assoc, append-nil, ok, arith,
  ok-injective,
}
use bloem_community_crowquil.Archive.Names.{Three, less, same, greater, natural_compare}
use bloem_community_crowquil.Archive.Names.Order.{natural_compare-flip}
use bloem_community_crowquil.Archive.Names.Transitive.{natural_compare_trans}
use bloem_community_crowquil.Archive.Entries.{PageCandidate, Extraction, track}
use bloem_community_crowquil.Archive.Pages.{
  Page, Output, insert, sort_candidates, page_of, write_pages, materialize_pages,
}

module _ (to_lower : Bytes → Bytes) where
  -- Every name is no greater than those behind it.
  abbrev pub IsBelow : PageCandidate → List PageCandidate → Type 0
  IsBelow c [] = Unit {0}
  IsBelow c (x ∷ xs) = (natural_compare to_lower c.name x.name ≢ greater) × IsBelow c xs

  abbrev pub IsSorted : List PageCandidate → Type 0
  IsSorted [] = Unit {0}
  IsSorted (c ∷ cs) = IsBelow c cs × IsSorted cs

  -- The two ways to put a candidate before or behind another.
  pub insert_cases {κ} :
      (P : List PageCandidate → Type κ) (c y : PageCandidate) (cs : List PageCandidate)
      → (natural_compare to_lower y.name c.name ≡ less → P (y ∷ insert to_lower c cs))
      → (natural_compare to_lower c.name y.name ≢ greater → P (c ∷ y ∷ cs))
      → P (insert to_lower c (y ∷ cs))
  unfolding insert
  insert_cases P c y cs behind before =
      by_order (natural_compare to_lower y.name c.name) behind
        (λ h. before (let other = natural_compare-flip to_lower y.name c.name in ground arith))
    where
      by_order :
          (o : Three)
          → (o ≡ less → P (y ∷ insert to_lower c cs))
          → (o ≢ less → P (c ∷ y ∷ cs))
          → P (elim o [
            | less ↦ y ∷ insert to_lower c cs
            | same ↦ c ∷ y ∷ cs
            | greater ↦ c ∷ y ∷ cs
          ])
      by_order less behind before = behind refl
      by_order same behind before = before (λ h. cc)
      by_order greater behind before = before (λ h. cc)

  insert-perm : (c : PageCandidate) (cs : List PageCandidate) → Perm (insert to_lower c cs) (c ∷ cs)
  unfolding insert
  insert-perm c [] = Perm.refl (c ∷ [])
  insert-perm c (y ∷ cs) =
      let rest = insert-perm c cs in
      insert_cases (λ l. Perm l (c ∷ y ∷ cs)) c y cs
        (λ h. Perm.trans (Perm.cons y rest) (Perm.swap c y cs)) (λ h. Perm.refl (c ∷ y ∷ cs))

  sort_candidates-perm : (cs : List PageCandidate) → Perm (sort_candidates to_lower cs) cs
  unfolding sort_candidates
  sort_candidates-perm [] = Perm.nil
  sort_candidates-perm (c ∷ cs) =
      Perm.trans (insert-perm c (sort_candidates to_lower cs))
        (Perm.cons c (sort_candidates-perm cs))

  IsBelow-trans :
      (c x : PageCandidate) (cs : List PageCandidate)
      → natural_compare to_lower c.name x.name ≢ greater
      → IsBelow x cs
      → IsBelow c cs
  IsBelow-trans c x [] h b = tt
  IsBelow-trans c x (y ∷ cs) h b =
      (natural_compare_trans to_lower c.name x.name y.name h b.0, IsBelow-trans c x cs h b.1)

  IsBelow-insert :
      (x c : PageCandidate) (cs : List PageCandidate)
      → natural_compare to_lower x.name c.name ≢ greater
      → IsBelow x cs
      → IsBelow x (insert to_lower c cs)
  unfolding insert
  IsBelow-insert x c [] h b = (h, tt)
  IsBelow-insert x c (y ∷ cs) h b =
      let rest = IsBelow-insert x c cs h b.1 in
      insert_cases (IsBelow x) c y cs (λ l. (b.0, rest)) (λ l. (h, b))

  insert-IsSorted :
      (c : PageCandidate) (cs : List PageCandidate) → IsSorted cs → IsSorted (insert to_lower c cs)
  unfolding insert
  insert-IsSorted c [] s = (tt, tt)
  insert-IsSorted c (y ∷ cs) s =
      let rest = insert-IsSorted c cs s.1 in
      insert_cases IsSorted c y cs (λ l. (IsBelow-insert y c cs (λ g. cc (l, g)) s.0, rest))
        (λ l. ((l, IsBelow-trans c y cs l s.0), s))

  pub sort_candidates-IsSorted : (cs : List PageCandidate) → IsSorted (sort_candidates to_lower cs)
  unfolding sort_candidates
  sort_candidates-IsSorted [] = tt
  sort_candidates-IsSorted (c ∷ cs) =
      insert-IsSorted c (sort_candidates to_lower cs) (sort_candidates-IsSorted cs)

-- The pages of candidates, at the paths with the numbers from an index on.
unfoldable pub pages_from : (ℕ → Bytes) → ℕ → List PageCandidate → List Page
pages_from page_path index [] = []
pages_from page_path index (c ∷ cs) =
    page_of (page_path (index + 1)) c ∷ pages_from page_path (index + 1) cs

module _ {S : Type 0} (out : Output S) where
  pub write_pages-pages_from :
      (index : ℕ) (cs : List PageCandidate) (x : Extraction S) (pages result : List Page)
      → (write_pages out index cs x pages).1 ≡ ok result
      → result ≡ pages ++ pages_from out.page_path index cs
  unfolding write_pages pages_from
  write_pages-pages_from index [] x pages result h = sym (ok-injective h) ∙ sym (append-nil pages)
  write_pages-pages_from index (c ∷ cs) x pages result h =
      let path = out.page_path (index + 1) in
      let s1 = (out.lstat (out.check_context x.files).0 path).0 in
      let s2 = (out.rename s1 c.temp_path path).0 in
      let rest =
        write_pages-pages_from (index + 1) cs (track (record x { files = s2 }) path)
          (pages ++ page_of path c ∷ []) result in
      let assoc =
        append_assoc pages (page_of path c ∷ []) (pages_from out.page_path (index + 1) cs) in
      ground (arith, rest, assoc)

  -- The pages that the last step of an extraction returns are those of a permutation of the
  -- candidates in which no name is greater than a later one in natural order, each at the path of
  -- its number, counted from one.
  pub materialize_pages-IsSorted :
      (to_lower : Bytes → Bytes) (cs : List PageCandidate) (x : Extraction S) (pages : List Page)
      → (materialize_pages out to_lower cs x).1 ≡ ok pages
      → (sorted : List PageCandidate) × Perm sorted cs
        × IsSorted to_lower sorted
        × (pages ≡ pages_from out.page_path 0 sorted)
  unfolding materialize_pages
  materialize_pages-IsSorted to_lower cs x pages h = (
    sort_candidates to_lower cs,
    sort_candidates-perm to_lower cs,
    sort_candidates-IsSorted to_lower cs,
    write_pages-pages_from 0 (sort_candidates to_lower cs) x [] pages h,
  )
